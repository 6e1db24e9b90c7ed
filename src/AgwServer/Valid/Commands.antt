-- ===== src/AgwServer/Valid/Commands.antt =====
-- agwpe/server.go: the messages of a client keep the server in order.
use go_ax.Base.{Bytes, Option, none, some, ℕ}
use go_ax.AgwServer.{Server}
use go_ax.AgwServer.Valid.{
  Holds, Holds-if, Holds-then, IsServer, enqueue-IsServer, router_send-IsServer,
  update_counter-IsServer,
}
use go_ax.AgwServer.Callbacks.{add_pending}
use go_ax.AgwServer.Commands.{
  disconnect_at, handle_disconnect, handle_kind, handle_outstanding_conn, handle_send_data,
  handle_send_raw, handle_send_unproto, on_listener, send_data_to, send_done, send_on_slot,
}
use go_ax.AgwServer.Valid.Handlers.{on_session-IsServer}
use go_ax.AgwServer.Valid.Setup.{
  handle_connect-IsServer, handle_register_call-IsServer, handle_unregister_call-IsServer,
}
use go_ax.Agwpe.{AgwFrame, AgwResult, done, failed}
use go_ax.Agwpe.Monitor.{Clock}
use go_ax.Conn.State.{Conn}
use go_ax.Router.Table.{PortId}
use go_ax.Types.{Frame}

send_done-IsServer :
    (f : AgwResult Frame) (s : Server) → IsServer s → Holds IsServer (send_done f s)
send_done-IsServer (failed e) s v = v
send_done-IsServer (done f) s v = router_send-IsServer f s v

pub on_listener-IsServer :
    (now : Clock) (o : Option PortId) (method : Conn → Conn) (s : Server)
    → IsServer s
    → Holds IsServer (on_listener now o method s)
on_listener-IsServer now none method s v = v
on_listener-IsServer now (some id) method s v = on_session-IsServer now id method s v

send_on_slot-IsServer :
    (now : Clock) (i : ℕ) (payload : Bytes) (o : Option PortId) (s : Server)
    → IsServer s
    → Holds IsServer (send_on_slot now i payload o s)
send_on_slot-IsServer now i payload none s v = v
send_on_slot-IsServer now i payload (some id) s v =
    Holds-then IsServer _ (λ t. some (add_pending i 1 t)) (on_session-IsServer now id _ s v)
      λ t w. update_counter-IsServer i _ t w

send_data_to-IsServer :
    (now : Clock) (o : Option ℕ) (m : AgwFrame) (s : Server)
    → IsServer s
    → Holds IsServer (send_data_to now o m s)
send_data_to-IsServer now none m s v = on_listener-IsServer now _ _ s v
send_data_to-IsServer now (some i) m s v = send_on_slot-IsServer now i m.payload _ s v

disconnect_at-IsServer :
    (now : Clock) (o : Option ℕ) (m : AgwFrame) (s : Server)
    → IsServer s
    → Holds IsServer (disconnect_at now o m s)
disconnect_at-IsServer now none m s v = on_listener-IsServer now _ _ s v
disconnect_at-IsServer now (some i) m s v = on_listener-IsServer now _ _ s v

-- Every message of a client, of whatever kind, leaves the server in order; in particular it does not
-- panic.
pub handle_kind-IsServer :
    (now : Clock) (m : AgwFrame) (s : Server) → IsServer s → Holds IsServer (handle_kind now m s)
unfolding handle_kind handle_send_raw handle_send_unproto handle_send_data handle_disconnect
    handle_outstanding_conn
handle_kind-IsServer now m s v =
    search
      (
        Holds-if IsServer,
        v,
        enqueue-IsServer,
        handle_register_call-IsServer,
        handle_unregister_call-IsServer,
        send_done-IsServer,
        handle_connect-IsServer,
        send_data_to-IsServer,
        disconnect_at-IsServer,
      )
      depth 24
