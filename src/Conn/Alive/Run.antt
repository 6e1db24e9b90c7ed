-- ===== src/Conn/Alive/Run.antt =====
-- ax25/conn.go: the timers of a session over events and runs of events.
use go_ax.Base.{
  Bool, Bool-cases, Bytes, List, [], false, inl, inr, leb, length, not, refl, ◌&&◌, ◌++◌, ◌∷◌, ◌≡◌,
}
use go_ax.Types.{Address}
use go_ax.Conn.State.{
  Conn, ConnState, PendingFrame, awaiting_connection, awaiting_release, connected, disconnected,
  timer_recovery,
}
use go_ax.Conn.Calls.{
  close, connect, is_connected, is_connected_state, is_disconnected, on_t1_expired, on_t2_expired,
  on_t3_expired, refuse, same_bool, send_data, set_busy, shutdown, t1_expired_in, t3_expired_in,
}
use go_ax.Conn.Events.{
  Event, busy_call, close_call, connect_call, received, refuse_call, run, send_call, shutdown_call,
  step, t1_expired, t2_expired, t3_expired,
}
use go_ax.Conn.Valid.{IsValid}
use go_ax.Conn.Valid.Handlers.{Keeps}
use go_ax.Conn.Alive.{Alive-t1, IsAlive, IsWaiting, send_pending-IsAlive}
use go_ax.Conn.Alive.Handlers.{on_frame-IsAlive}
use go_ax.Conn.Valid.Run.{step-IsValid}

connect-IsAlive :
    (a : Address) (via : List Address) (c : Conn) → IsAlive c → IsAlive (connect a via c).0
unfolding connect
connect-IsAlive a via c h = elim (Bool-cases (not (is_disconnected c.state))) [
  | inl active ↦ rw active h
  | inr idle ↦ rw idle refl
]

shutdown-IsAlive : (c : Conn) → IsAlive c → IsAlive (shutdown c).0
unfolding shutdown
shutdown-IsAlive c h = elim (Bool-cases (is_disconnected c.state)) [
  | inl idle ↦ simp idle h
  | inr active ↦ simp active refl
]

send_data-IsAlive : (payload : Bytes) (c : Conn) → IsAlive c → IsAlive (send_data payload c).0
unfolding send_data
send_data-IsAlive payload c h =
    let p : PendingFrame = record { payload = payload; ns = 0; transmitted = false } in
    elim (Bool-cases (not (is_connected c))) [
      | inl closed ↦ rw closed h
      | inr up ↦ rw up (elim (Bool-cases (leb c.cfg.window (length c.tx_queue))) [
        | inl full ↦ rw full h
        | inr free ↦
            rw free (send_pending-IsAlive (record c { tx_queue = c.tx_queue ++ (p ∷ []) }) h)
      ])
    ]

set_busy-IsAlive : (b : Bool) (c : Conn) → IsAlive c → IsAlive (set_busy b c)
unfolding set_busy
set_busy-IsAlive b c h = elim (Bool-cases (same_bool c.local_busy b)) [
  | inl same ↦ simp same h
  | inr change ↦ simp change (elim (Bool-cases (is_connected_state c.state)) [
    | inr down ↦ simp down h
    | inl up ↦ simp up (elim (Bool-cases b) [ inl busy ↦ simp busy h | inr free ↦ simp free h ])
  ])
]

t1_expired-IsAlive : (s : ConnState) (c : Conn) → c.state ≡ s → IsAlive (t1_expired_in s c)
unfolding t1_expired_in
t1_expired-IsAlive disconnected c e = rw e tt
t1_expired-IsAlive connected c e = elim (Bool-cases (leb c.cfg.n2 0)) [
  | inl done ↦ simp done tt
  | inr more ↦ simp more tt
]
t1_expired-IsAlive _ c e = elim (Bool-cases (leb c.cfg.n2 c.retry_count)) [
  | inl done ↦ simp done tt
  | inr more ↦ simp more (Alive-t1 c.state c.t3_active)
]

on_t2_expired-IsAlive : (c : Conn) → IsAlive c → IsAlive (on_t2_expired c)
unfolding on_t2_expired
on_t2_expired-IsAlive c h = elim (Bool-cases (is_connected c && c.ack_pending)) [
  | inl owed ↦ simp owed h
  | inr quiet ↦ simp quiet h
]

t3_expired-IsAlive :
    (s : ConnState) (c : Conn)
    → c.state ≡ s
    → IsAlive c
    → IsAlive (t3_expired_in s (record c { t3_active = false }))
t3_expired-IsAlive disconnected c e h = rw e tt
t3_expired-IsAlive awaiting_connection c e h = rw e (rw e at h)
t3_expired-IsAlive awaiting_release c e h = rw e (rw e at h)
t3_expired-IsAlive connected c e h = tt
t3_expired-IsAlive timer_recovery c e h = rw e tt

pub step-IsAlive :
    (during : Conn → Conn) (e : Event) (c : Conn)
    → Keeps IsWaiting during
    → IsValid c
    → IsAlive c
    → IsAlive (step during e c)
unfolding step refuse close on_t1_expired on_t3_expired
step-IsAlive during (received f) c k v h = on_frame-IsAlive during f c k v h
step-IsAlive during (connect_call remote via) c k v h = connect-IsAlive remote via c h
step-IsAlive during shutdown_call c k v h = shutdown-IsAlive c h
step-IsAlive during refuse_call c k v h = h
step-IsAlive during close_call c k v h = tt
step-IsAlive during (send_call payload) c k v h = send_data-IsAlive payload c h
step-IsAlive during (busy_call busy) c k v h = set_busy-IsAlive busy c h
step-IsAlive during t1_expired c k v h =
    t1_expired-IsAlive c.state (record c { t1_active = false }) refl
step-IsAlive during t2_expired c k v h = on_t2_expired-IsAlive c h
step-IsAlive during t3_expired c k v h = t3_expired-IsAlive c.state c refl h

-- Whatever events come in whatever order, a session that meets the window's invariant and is alive
-- stays alive, provided that what runs during `OnConnect` keeps the invariant and T1 in the two
-- awaiting states: while a connection is being made or released T1 runs, and while it is connected
-- T1 or T3 does. Nothing is said of the timer recovery.
pub run-IsAlive :
    (during : Conn → Conn) (es : List Event) (c : Conn)
    → Keeps IsWaiting during
    → Keeps IsValid during
    → IsValid c
    → IsAlive c
    → IsAlive (run during es c)
unfolding run
run-IsAlive during [] c k kv v h = h
run-IsAlive during (e ∷ es) c k kv v h =
    run-IsAlive during es (step during e c) k kv (step-IsValid during e c kv v)
      (step-IsAlive during e c k v h)
