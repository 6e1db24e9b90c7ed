-- ===== src/AgwServer/Callbacks.antt =====
-- agwpe/server.go: the callbacks that the server gives to its sessions, and a session's method with
-- the callbacks that it runs. The callbacks call no method of their session. A callback that a
-- configuration of `ax25.NewConn` leaves out never runs.
use go_ax.Base.{
  List, Option, [], drop, false, if◌then◌else◌, length, none, some, true, ℕ, ◌%◌, ◌+◌, ◌-◌, ◌==◌,
  ◌^◌, ◌∷◌,
}
use go_ax.AgwServer.{
  ConnSlot, Role, Server, Session, enqueue, listening, outgoing, router_send, router_unregister,
  ◌>>>◌,
}
use go_ax.Address.{string}
use go_ax.AgwServer.Slots.{freed, slot_at, update_at}
use go_ax.Agwpe.{AgwFrame, AgwResult, done, failed}
use go_ax.Agwpe.Convert.{from_ax25_raw}
use go_ax.Agwpe.Monitor.{Clock, from_ax25_monitor}
use go_ax.Agwpe.Responses.{build_connected_data, build_connected_resp, build_disconnected_resp}
use go_ax.Conn.State.{
  Action, Conn, ConnCallbacks, on_connect, on_data, on_disconnect, on_error, on_link_reset,
  on_tx_ack, on_tx_frame,
}
use go_ax.Router.Table.{PortId}
use go_ax.Types.{Frame}

-- The callbacks of a connection, and of a listener.
abbrev pub slot_callbacks : ConnCallbacks
slot_callbacks = record {
  has_on_connect = true;
  has_on_disconnect = true;
  has_on_link_reset = false;
  has_on_error = true;
  has_on_data = true;
  has_on_tx_frame = true;
  has_on_tx_ack = true;
}

abbrev pub listener_callbacks : ConnCallbacks
listener_callbacks = record slot_callbacks { has_on_tx_ack = false }

-- `freeSlot`
abbrev pub free_slot : ℕ → Server → Server
free_slot i s = record s { slots = update_at i freed s.slots }

abbrev pub set_session : PortId → Option Session → Server → Server
set_session i x s = record s { sessions = λ j. if j == i then x else s.sessions j }

-- The counter of a slot goes up or down by a number, modulo 2^64.
abbrev pub add_pending : ℕ → ℕ → Server → Server
add_pending i n s = record s {
  pending_frames = update_at i (λ p. (p + n) % 2 ^ 64) s.pending_frames;
}

abbrev pub sub_pending : ℕ → ℕ → Server → Server
sub_pending i n s = record s {
  pending_frames = update_at i (λ p. (p + (2 ^ 64 - n % 2 ^ 64)) % 2 ^ 64) s.pending_frames;
}

abbrev pub enqueue_done : AgwResult AgwFrame → Server → Option Server
enqueue_done (failed e) s = some s
enqueue_done (done m) s = enqueue m s

abbrev pub owned : AgwResult AgwFrame → AgwResult AgwFrame
owned (failed e) = failed e
owned (done m) = done (record m { kind = b'T' })

-- `sendRawToClient`
unfoldable pub send_raw_to_client : Frame → Server → Option Server
send_raw_to_client f s = enqueue_done (from_ax25_raw (some f) (s.cfg.radio_port % 256)) s

-- `sendMonitorToClient`
unfoldable pub send_monitor_to_client : Clock → Frame → Server → Option Server
send_monitor_to_client now f s = enqueue_done (from_ax25_monitor now (some f) s.cfg.radio_port) s

-- `sendOwnFrameToClient`
unfoldable pub send_own_frame_to_client : Clock → Frame → Server → Option Server
send_own_frame_to_client now f s =
    enqueue_done (owned (from_ax25_monitor now (some f) s.cfg.radio_port)) s

-- `OnTxFrame`, of both kinds of sessions.
unfoldable pub on_tx_frame_call : Clock → Frame → Server → Option Server
on_tx_frame_call now f s =
    (if s.monitor_enabled then send_own_frame_to_client now f s else some s) >>> router_send f

abbrev pub slot_port : Option ConnSlot → Option PortId
slot_port none = none
slot_port (some x) = x.router_port

abbrev pub unregister_if : Option PortId → Server → Option Server
unregister_if none s = some s
unregister_if (some i) s = router_unregister i s

-- `OnDisconnect` of a connection. Where the worker of its port runs it, `UnregisterPort` waits for that
-- same worker: the slot is not freed, and the callbacks that are left do not run.
unfoldable pub slot_disconnected : ℕ → Session → Server → Option Server
slot_disconnected i x s =
    enqueue (build_disconnected_resp s.cfg.radio_port x.local_call x.remote_call) s >>> λ t.
    unregister_if (slot_port (slot_at i t.slots))
      (record t { slots = update_at i (λ y. record y { router_port = none }) t.slots })
    >>> λ u. some (free_slot i u)

-- A callback of a connection.
unfoldable pub slot_callback : Clock → ℕ → Session → Action → Server → Option Server
slot_callback now i x (on_connect remote initiated) s =
    enqueue (build_connected_resp s.cfg.radio_port x.local_call x.remote_call initiated) s
slot_callback now i x on_disconnect s = slot_disconnected i x s
slot_callback now i x on_link_reset s = some s
slot_callback now i x (on_error e) s = some s
slot_callback now i x (on_data payload) s =
    enqueue (build_connected_data s.cfg.radio_port x.local_call x.remote_call payload) s
slot_callback now i x (on_tx_frame f) s = on_tx_frame_call now f s
slot_callback now i x (on_tx_ack count) s = some (sub_pending i count s)

-- A callback of a listener. Its entry keeps the remote callsign while a session is up.
unfoldable pub listener_callback : Clock → PortId → Session → Action → Server → Option Server
listener_callback now id x (on_connect remote initiated) s =
    enqueue (build_connected_resp s.cfg.radio_port x.local_call (string remote) false)
      (set_session id (some (record x { remote_call = string remote })) s)
listener_callback now id x on_disconnect s =
    enqueue (build_disconnected_resp s.cfg.radio_port x.local_call x.remote_call)
      (set_session id (some (record x { remote_call = [] })) s)
listener_callback now id x on_link_reset s = some s
listener_callback now id x (on_error e) s = some s
listener_callback now id x (on_data payload) s =
    enqueue (build_connected_data s.cfg.radio_port x.local_call x.remote_call payload) s
listener_callback now id x (on_tx_frame f) s = on_tx_frame_call now f s
listener_callback now id x (on_tx_ack count) s = some s

abbrev pub callback_in : Role → Clock → PortId → Session → Action → Server → Option Server
callback_in (outgoing i) now id x a s = slot_callback now i x a s
callback_in listening now id x a s = listener_callback now id x a s

abbrev pub callback_of : Option Session → Clock → PortId → Action → Server → Option Server
callback_of none now id a s = some s
callback_of (some x) now id a s = callback_in x.role now id x a s

unfoldable pub run_callbacks : Clock → PortId → List Action → Server → Option Server
run_callbacks now id [] s = some s
run_callbacks now id (a ∷ rest) s =
    callback_of (s.sessions id) now id a s >>> run_callbacks now id rest

-- A method of a session changes the session and then runs the callbacks that it has queued.
abbrev pub with_session : Option Session → Clock → PortId → (Conn → Conn) → Server → Option Server
with_session none now id method s = some s
with_session (some x) now id method s =
    run_callbacks now id (drop (length x.conn.ran) (method x.conn).ran)
      (set_session id (some (record x { conn = method x.conn })) s)

unfoldable pub on_session : Clock → PortId → (Conn → Conn) → Server → Option Server
on_session now id method s = with_session (s.sessions id) now id method s
