-- ===== src/AgwServer/Valid/Handlers.antt =====
-- agwpe/server.go: the callbacks, and the methods of the sessions, keep the server in order.
use go_ax.Base.{List, Option, [], none, some, ℕ, ◌∷◌}
use go_ax.AgwServer.{Role, Server, Session, listening, outgoing, router_send}
use go_ax.AgwServer.Valid.{
  Holds, Holds-if, Holds-then, IsServer, enqueue-IsServer, free_slot-IsServer, router_send-IsServer,
  router_unregister-IsServer, set_port-IsClean, update_counter-IsServer, update_slot-IsServer,
}
use go_ax.AgwServer.Callbacks.{
  callback_in, callback_of, enqueue_done, listener_callback, on_session, on_tx_frame_call,
  run_callbacks, send_monitor_to_client, send_own_frame_to_client, send_raw_to_client, set_session,
  slot_callback, slot_disconnected, slot_port, unregister_if, with_session,
}
use go_ax.AgwServer.Slots.{slot_at}
use go_ax.Agwpe.{AgwFrame, AgwResult, done, failed}
use go_ax.Agwpe.Monitor.{Clock}
use go_ax.Conn.State.{
  Action, Conn, on_connect, on_data, on_disconnect, on_error, on_link_reset, on_tx_ack, on_tx_frame,
}
use go_ax.Router.Table.{PortId}
use go_ax.Types.{Frame}
use go_ax.Address.{string}

enqueue_done-IsServer :
    (m : AgwResult AgwFrame) (s : Server) → IsServer s → Holds IsServer (enqueue_done m s)
enqueue_done-IsServer (failed e) s v = v
enqueue_done-IsServer (done m) s v = enqueue-IsServer m s v

pub send_raw_to_client-IsServer :
    (f : Frame) (s : Server) → IsServer s → Holds IsServer (send_raw_to_client f s)
unfolding send_raw_to_client
send_raw_to_client-IsServer f s v = enqueue_done-IsServer _ s v

pub send_monitor_to_client-IsServer :
    (now : Clock) (f : Frame) (s : Server)
    → IsServer s
    → Holds IsServer (send_monitor_to_client now f s)
unfolding send_monitor_to_client
send_monitor_to_client-IsServer now f s v = enqueue_done-IsServer _ s v

send_own_frame_to_client-IsServer :
    (now : Clock) (f : Frame) (s : Server)
    → IsServer s
    → Holds IsServer (send_own_frame_to_client now f s)
unfolding send_own_frame_to_client
send_own_frame_to_client-IsServer now f s v = enqueue_done-IsServer _ s v

on_tx_frame_call-IsServer :
    (now : Clock) (f : Frame) (s : Server) → IsServer s → Holds IsServer (on_tx_frame_call now f s)
unfolding on_tx_frame_call
on_tx_frame_call-IsServer now f s v =
    Holds-then IsServer _ (router_send f)
      (Holds-if IsServer s.monitor_enabled _ (some s) (send_own_frame_to_client-IsServer now f s v)
        v)
      (router_send-IsServer f)

unregister_if-IsServer :
    (p : Option PortId) (s : Server) → IsServer s → Holds IsServer (unregister_if p s)
unregister_if-IsServer none s v = v
unregister_if-IsServer (some i) s v = router_unregister-IsServer i s v

slot_disconnected-IsServer :
    (i : ℕ) (x : Session) (s : Server) → IsServer s → Holds IsServer (slot_disconnected i x s)
unfolding slot_disconnected
slot_disconnected-IsServer i x s v = Holds-then IsServer _ _ (enqueue-IsServer _ s v) λ t w.
    Holds-then IsServer _ _
      (unregister_if-IsServer (slot_port (slot_at i t.slots)) _
        (update_slot-IsServer i (λ y. record y { router_port = none }) t (set_port-IsClean none) w))
      λ u z. free_slot-IsServer i u z

slot_callback-IsServer :
    (now : Clock) (i : ℕ) (x : Session) (a : Action) (s : Server)
    → IsServer s
    → Holds IsServer (slot_callback now i x a s)
unfolding slot_callback
slot_callback-IsServer now i x (on_connect remote initiated) s v = enqueue-IsServer _ s v
slot_callback-IsServer now i x on_disconnect s v = slot_disconnected-IsServer i x s v
slot_callback-IsServer now i x on_link_reset s v = v
slot_callback-IsServer now i x (on_error e) s v = v
slot_callback-IsServer now i x (on_data payload) s v = enqueue-IsServer _ s v
slot_callback-IsServer now i x (on_tx_frame f) s v = on_tx_frame_call-IsServer now f s v
slot_callback-IsServer now i x (on_tx_ack count) s v = update_counter-IsServer i _ s v

listener_callback-IsServer :
    (now : Clock) (id : PortId) (x : Session) (a : Action) (s : Server)
    → IsServer s
    → Holds IsServer (listener_callback now id x a s)
unfolding listener_callback
listener_callback-IsServer now id x (on_connect remote initiated) s v =
    enqueue-IsServer _ (set_session id (some (record x { remote_call = string remote })) s) v
listener_callback-IsServer now id x on_disconnect s v =
    enqueue-IsServer _ (set_session id (some (record x { remote_call = [] })) s) v
listener_callback-IsServer now id x on_link_reset s v = v
listener_callback-IsServer now id x (on_error e) s v = v
listener_callback-IsServer now id x (on_data payload) s v = enqueue-IsServer _ s v
listener_callback-IsServer now id x (on_tx_frame f) s v = on_tx_frame_call-IsServer now f s v
listener_callback-IsServer now id x (on_tx_ack count) s v = v

callback_in-IsServer :
    (r : Role) (now : Clock) (id : PortId) (x : Session) (a : Action) (s : Server)
    → IsServer s
    → Holds IsServer (callback_in r now id x a s)
callback_in-IsServer (outgoing i) now id x a s v = slot_callback-IsServer now i x a s v
callback_in-IsServer listening now id x a s v = listener_callback-IsServer now id x a s v

callback_of-IsServer :
    (o : Option Session) (now : Clock) (id : PortId) (a : Action) (s : Server)
    → IsServer s
    → Holds IsServer (callback_of o now id a s)
callback_of-IsServer none now id a s v = v
callback_of-IsServer (some x) now id a s v = callback_in-IsServer x.role now id x a s v

run_callbacks-IsServer :
    (now : Clock) (id : PortId) (todo : List Action) (s : Server)
    → IsServer s
    → Holds IsServer (run_callbacks now id todo s)
unfolding run_callbacks
run_callbacks-IsServer now id [] s v = v
run_callbacks-IsServer now id (a ∷ rest) s v =
    Holds-then IsServer _ (run_callbacks now id rest)
      (callback_of-IsServer (s.sessions id) now id a s v) (run_callbacks-IsServer now id rest)

with_session-IsServer :
    (o : Option Session) (now : Clock) (id : PortId) (method : Conn → Conn) (s : Server)
    → IsServer s
    → Holds IsServer (with_session o now id method s)
with_session-IsServer none now id method s v = v
with_session-IsServer (some x) now id method s v = run_callbacks-IsServer now id _ _ v

-- A method of a session, whatever it makes of the session, with the callbacks that it runs.
pub on_session-IsServer :
    (now : Clock) (id : PortId) (method : Conn → Conn) (s : Server)
    → IsServer s
    → Holds IsServer (on_session now id method s)
unfolding on_session
on_session-IsServer now id method s v = with_session-IsServer (s.sessions id) now id method s v
