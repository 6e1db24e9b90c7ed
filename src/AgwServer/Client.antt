-- ===== src/AgwServer/Client.antt =====
-- agwpe/server.go: what a client's connection goes through, `HandleConn`, `rxLoop` and `txPump`, and
-- the frames that the workers of the router's ports deliver to the server and its sessions.
use go_ax.Base.{Bytes, List, Option, [], false, if◌then◌else◌, map, none, some, true, ◌==◌, ◌∷◌}
use go_ax.AgwServer.{ConnSlot, Server, Session, router_unregister, with_router, ◌>>>◌}
use go_ax.Address.{equal}
use go_ax.AgwServer.Callbacks.{on_session, send_monitor_to_client, send_raw_to_client}
use go_ax.AgwServer.Commands.{handle_client_frame, on_listener}
use go_ax.AgwServer.Listeners.{server_port, teardown_all_listeners}
use go_ax.AgwServer.Slots.{freed}
use go_ax.Agwpe.{AgwFrame, AgwResult, encode_message}
use go_ax.Agwpe.Monitor.{Clock}
use go_ax.Conn.Calls.{close, on_t1_expired, on_t2_expired, on_t3_expired}
use go_ax.Conn.Receive.{on_frame}
use go_ax.Router.Port.{Port, mode_promiscuous, put_down, take_up}
use go_ax.Router.Table.{PortId, register_port, update}
use go_ax.Types.{Frame}

-- The beginning of `HandleConn`: the server's own port is made anew and registered.
unfoldable pub accept_client : Server → Option Server
accept_client s =
    let own =
      server_port mode_promiscuous
        (record { callsign = []; ssid = 0; has_been_repeated = false; is_last = false }) in
    let r = record (s.router) { heap = update s.router.heap s.router_port own } in
    with_router (record s { has_client = true }) (register_port s.router_port r)

-- A round of `txPump`: the bytes that are written, if the message can be encoded.
abbrev pub pump_from : List AgwFrame → Server → Server × Option (AgwResult Bytes)
pump_from [] s = (s, none)
pump_from (m ∷ ms) s = (record s { tx_ch = ms }, some (encode_message m))

unfoldable pub tx_pump_round : Server → Server × Option (AgwResult Bytes)
tx_pump_round s = pump_from s.tx_ch s

-- The messages that the decoder reads from a chunk, in their order.
unfoldable pub handle_messages : Clock → List AgwFrame → Server → Option Server
handle_messages now [] s = some s
handle_messages now (m ∷ ms) s = handle_client_frame now (some m) s >>> handle_messages now ms

-- `onRouterFrame`
unfoldable pub on_router_frame : Clock → Frame → Server → Option Server
on_router_frame now f s = (if s.raw_enabled then send_raw_to_client f s else some s) >>> λ t.
    if t.monitor_enabled then send_monitor_to_client now f t else some t

-- `OnRxFrame` of a session's port.
abbrev pub for_session : Option Session → Clock → PortId → Frame → Server → Option Server
for_session none now id f s = some s
for_session (some x) now id f s =
    if equal f.destination x.conn.local_addr
    then on_session now id (on_frame (λ c. c) f) s
    else some s

abbrev pub set_port : PortId → Port → Server → Server
set_port id p s = record s { router = record (s.router) { heap = update s.router.heap id p } }

-- The call came back and is counted, or the worker waits for ever and is busy from now on.
abbrev pub end_round : PortId → Option Server → Option Server
end_round id none = none
end_round id (some s) =
    if s.waits
    then some (record s { waits = false })
    else some (set_port id (put_down (s.router.heap id)) s)

abbrev pub take_frame : List Frame → Clock → PortId → Server → Option Server
take_frame [] now id s = some s
take_frame (f ∷ fs) now id s =
    let t = set_port id (take_up f fs (s.router.heap id)) s in
    end_round id (
      if id == s.router_port
      then on_router_frame now f t
      else for_session (t.sessions id) now id f t)

-- A round of the worker of a port, with the call of `OnRxFrame`. A port that was stopped may still take
-- frames that are left, as `select` chooses.
unfoldable pub port_round : Clock → PortId → Server → Option Server
port_round now id s =
    let p = s.router.heap id in if p.busy then some s else take_frame p.tx_ch now id s

-- `disconnectAllSlots`. The ports of the sessions stay registered.
abbrev pub close_slot : Clock → ConnSlot → Server → Option Server
close_slot now x s = if x.in_use then on_listener now x.conn close s else some s

unfoldable pub close_slots : Clock → List ConnSlot → Server → Option Server
close_slots now [] s = some s
close_slots now (x ∷ xs) s = close_slot now x s >>> close_slots now xs

unfoldable pub disconnect_all_slots : Clock → Server → Option Server
disconnect_all_slots now s =
    close_slots now s.slots s >>> λ t. some (record t { slots = map freed t.slots })

-- The end of `rxLoop`: the server's port is unregistered and the queue closed. An error of
-- `UnregisterPort` is passed over.
unfoldable pub close_tx : Server → Option Server
close_tx s = router_unregister s.router_port s >>> λ t. some (record t { tx_closed = true })

-- The pump has written what was left, and a new queue is made.
unfoldable pub reopen_tx : Server → Server
reopen_tx s = record s { tx_ch = []; tx_closed = false }

-- The toggles and the connection are forgotten.
abbrev pub forget_client : Server → Server
forget_client s = record s { raw_enabled = false; monitor_enabled = false; has_client = false }

-- What other goroutines do meanwhile, behind the steps of the end of `HandleConn`.
pub data Gap : Type 0 where
  queue_closed queue_made slots_freed listeners_gone : Gap

-- `HandleConn` behind `rxLoop`. The argument is what happens in the gaps.
unfoldable pub leave_client : Clock → (Gap → Server → Option Server) → Server → Option Server
leave_client now meanwhile s =
    close_tx s
    >>> meanwhile queue_closed
    >>> (λ t. some (reopen_tx t))
    >>> meanwhile queue_made
    >>> disconnect_all_slots now
    >>> meanwhile slots_freed
    >>> teardown_all_listeners now
    >>> meanwhile listeners_gone
    >>> (λ t. some (forget_client t))

-- What happens while a client is connected: the decoder hands over the messages of a chunk, a worker of
-- the router takes a frame, the pump writes a message, or a timer of a session fires.
pub data ServerEvent : Type 0 where
  messages : List AgwFrame → ServerEvent
  port_worker : PortId → ServerEvent
  pump : ServerEvent
  t1_fires t2_fires t3_fires : PortId → ServerEvent

-- A goroutine that waits for ever is left behind: the reader does nothing any more, and a timer's goes
-- with it.
abbrev pub reader_left : Option Server → Option Server
reader_left none = none
reader_left (some s) = some (record s { waits = false; reader_waits = s.waits })

abbrev pub timer_left : Option Server → Option Server
timer_left none = none
timer_left (some s) = some (record s { waits = false })

unfoldable pub server_step : Clock → ServerEvent → Server → Option Server
server_step now (messages ms) s =
    if s.reader_waits then some s else reader_left (handle_messages now ms s)
server_step now (port_worker id) s = port_round now id s
server_step now pump s = some (tx_pump_round s).0
server_step now (t1_fires id) s = timer_left (on_session now id on_t1_expired s)
server_step now (t2_fires id) s = timer_left (on_session now id on_t2_expired s)
server_step now (t3_fires id) s = timer_left (on_session now id on_t3_expired s)

unfoldable pub server_run : List (Clock × ServerEvent) → Server → Option Server
server_run [] s = some s
server_run (e ∷ es) s = server_step e.0 e.1 s >>> server_run es
