-- ===== src/AgwServer/Commands.antt =====
-- agwpe/server.go: `handleClientFrame` and the handlers of the messages that a client sends.
use go_ax.Base.{Bytes, Option, [], get_or, if◌then◌else◌, ltb, none, not, some, ℕ, ◌==◌, ◌^◌, ◌||◌}
use go_ax.AgwServer.{ConnSlot, Server, enqueue, port_desc, router_send, ◌>>>◌}
use go_ax.AgwServer.Callbacks.{add_pending, on_session}
use go_ax.AgwServer.Connect.{handle_connect}
use go_ax.AgwServer.Listeners.{handle_register_call, handle_unregister_call, listener_at}
use go_ax.AgwServer.Slots.{find_in, slot_at}
use go_ax.Agwpe.{AgwFrame, AgwResult, done, failed}
use go_ax.Agwpe.Builders.{build_outstanding_port, build_version_resp}
use go_ax.Agwpe.Convert.{to_ax25}
use go_ax.Agwpe.Monitor.{Clock}
use go_ax.Agwpe.Responses.{build_outstanding_conn, build_port_cap_resp, build_port_info_resp}
use go_ax.Agwpe.Unproto.{to_ax25_unproto}
use go_ax.Agwpe.Via.{parse_digi_path}
use go_ax.Conn.Calls.{send_data, shutdown}
use go_ax.Conn.State.{Conn}
use go_ax.Router.Table.{PortId}
use go_ax.Types.{Frame}

abbrev pub send_done : AgwResult Frame → Server → Option Server
send_done (failed e) s = some s
send_done (done f) s = router_send f s

-- `handleSendRaw`
unfoldable pub handle_send_raw : AgwFrame → Server → Option Server
handle_send_raw m s = send_done (to_ax25 (some m)) s

-- `handleSendUnproto` and `handleSendUnprotoVia`
unfoldable pub handle_send_unproto : AgwFrame → Server → Option Server
handle_send_unproto m s = send_done (to_ax25_unproto (some m)) s

abbrev pub slot_conn : Option ConnSlot → Option PortId
slot_conn none = none
slot_conn (some x) = x.conn

-- A slot that is in use but has no session yet takes the data and forgets it.
abbrev pub send_on_slot : Clock → ℕ → Bytes → Option PortId → Server → Option Server
send_on_slot now i payload none s = some s
send_on_slot now i payload (some id) s =
    on_session now id (λ c. (send_data payload c).0) s >>> λ t. some (add_pending i 1 t)

abbrev pub on_listener : Clock → Option PortId → (Conn → Conn) → Server → Option Server
on_listener now none method s = some s
on_listener now (some id) method s = on_session now id method s

abbrev pub send_data_to : Clock → Option ℕ → AgwFrame → Server → Option Server
send_data_to now none m s =
    on_listener now (listener_at m.call_from s.listeners) (λ c. (send_data m.payload c).0) s
send_data_to now (some i) m s = send_on_slot now i m.payload (slot_conn (slot_at i s.slots)) s

-- `handleSendData`: a connection goes before a listener.
unfoldable pub handle_send_data : Clock → AgwFrame → Server → Option Server
handle_send_data now m s = send_data_to now (find_in m.call_from m.call_to s.slots) m s

abbrev pub disconnect_at : Clock → Option ℕ → AgwFrame → Server → Option Server
disconnect_at now none m s =
    on_listener now (listener_at m.call_from s.listeners) (λ c. (shutdown c).0) s
disconnect_at now (some i) m s =
    on_listener now (slot_conn (slot_at i s.slots)) (λ c. (shutdown c).0) s

-- `handleDisconnect`
unfoldable pub handle_disconnect : Clock → AgwFrame → Server → Option Server
handle_disconnect now m s = disconnect_at now (find_in m.call_from m.call_to s.slots) m s

-- The counter of a slot, with a negative one taken for 0.
abbrev pub shown : ℕ → ℕ
shown p = if ltb p (2 ^ 63) then p else 0

abbrev pub pending_of : Option ℕ → Server → ℕ
pending_of none s = 0
pending_of (some i) s = shown (get_or s.pending_frames i 0)

-- `handleOutstandingConn`
unfoldable pub handle_outstanding_conn : AgwFrame → Server → Option Server
handle_outstanding_conn m s =
    enqueue
      (build_outstanding_conn s.cfg.radio_port m.call_from m.call_to
        (pending_of (find_in m.call_from m.call_to s.slots) s))
      s

-- The switch of `handleClientFrame`. A login and a heard request do nothing, and neither does a kind
-- that is not known.
unfoldable pub handle_kind : Clock → AgwFrame → Server → Option Server
handle_kind now m s =
    if m.kind == b'R'
    then enqueue (build_version_resp 2005 127) s
    else if m.kind == b'G'
    then enqueue (build_port_info_resp s.cfg.radio_port 1 (port_desc s.cfg)) s
    else if m.kind == b'g'
    then enqueue (build_port_cap_resp s.cfg.radio_port) s
    else if m.kind == b'X'
    then handle_register_call m s
    else if m.kind == b'x'
    then handle_unregister_call now m s
    else if m.kind == b'k'
    then some (record s { raw_enabled = not s.raw_enabled })
    else if m.kind == b'm'
    then some (record s { monitor_enabled = not s.monitor_enabled })
    else if m.kind == b'K'
    then handle_send_raw m s
    else if m.kind == b'V' || m.kind == b'M'
    then handle_send_unproto m s
    else if m.kind == b'C' || m.kind == b'c'
    then handle_connect now m [] s
    else if m.kind == b'v'
    then handle_connect now m (parse_digi_path m.payload) s
    else if m.kind == b'D'
    then handle_send_data now m s
    else if m.kind == b'd'
    then handle_disconnect now m s
    else if m.kind == b'y'
    then enqueue (build_outstanding_port s.cfg.radio_port 0) s
    else if m.kind == b'Y'
    then handle_outstanding_conn m s
    else some s

-- `handleClientFrame`
abbrev pub handle_client_frame : Clock → Option AgwFrame → Server → Option Server
handle_client_frame now none s = some s
handle_client_frame now (some m) s = handle_kind now m s
