-- ===== src/Conn/Events.antt =====
-- The events of a session, and runs of them. Every public method and every timer callback is an
-- event; a callback of the application that calls a method is the method's event, later in the run.
use go_ax.Base.{Bool, Bytes, List, [], ◌∷◌}
use go_ax.Types.{Address, Frame}
use go_ax.Conn.State.{Conn}
use go_ax.Conn.Receive.{on_frame}
use go_ax.Conn.Calls.{
  close, connect, on_t1_expired, on_t2_expired, on_t3_expired, refuse, send_data, set_busy,
  shutdown,
}

pub data Event : Type 0 where
  received : Frame → Event
  connect_call : Address → List Address → Event
  shutdown_call refuse_call close_call : Event
  send_call : Bytes → Event
  busy_call : Bool → Event
  t1_expired t2_expired t3_expired : Event

unfoldable pub step : (Conn → Conn) → Event → Conn → Conn
step during (received f) c = on_frame during f c
step during (connect_call remote via) c = (connect remote via c).0
step during shutdown_call c = (shutdown c).0
step during refuse_call c = refuse c
step during close_call c = close c
step during (send_call payload) c = (send_data payload c).0
step during (busy_call busy) c = set_busy busy c
step during t1_expired c = on_t1_expired c
step during t2_expired c = on_t2_expired c
step during t3_expired c = on_t3_expired c

unfoldable pub run : (Conn → Conn) → List Event → Conn → Conn
run during [] c = c
run during (e ∷ es) c = run during es (step during e c)
