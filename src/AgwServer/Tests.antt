-- ===== src/AgwServer/Tests.antt =====
-- agwpe/server.go: a server with two slots, its runs, and the properties at them.
use go_ax.Base.{
  Bytes, List, Option, [], arith, false, get_or, inr, map, none, refl, replicate, some, ℕ, ◌%◌,
  ◌++◌, ◌+◌, ◌^◌, ◌∷◌, ◌≡◌,
}
use go_ax.Types.{Address, Frame, FrameType, ctrl_sabm, ctrl_ua, frame_u}
use go_ax.AgwServer.{
  Server, ServerConfig, empty_slot, enqueue, new_server, router_send, router_unregister, ◌>>>◌,
}
use go_ax.AgwServer.Callbacks.{
  listener_callback, on_session, on_tx_frame_call, run_callbacks, slot_callback, slot_disconnected,
}
use go_ax.AgwServer.Client.{
  Gap, accept_client, close_slots, close_tx, disconnect_all_slots, leave_client, listeners_gone,
  messages, on_router_frame, port_round, port_worker, queue_closed, queue_made, reopen_tx,
  server_run, server_step, set_port, slots_freed,
}
use go_ax.AgwServer.Commands.{
  handle_client_frame, handle_disconnect, handle_kind, handle_outstanding_conn, handle_send_data,
}
use go_ax.AgwServer.Slots.{alloc_in, find_in, in_use_count, update_at}
use go_ax.Agwpe.{AgwFrame}
use go_ax.Agwpe.Builders.{blank}
use go_ax.Agwpe.Monitor.{Clock}
use go_ax.Base.Texts.{codes}
use go_ax.Conn.Receive.{
  ack_loop, handle_awaiting_connection, handle_awaiting_release, handle_disconnected,
  handle_i_frame, handle_received_nr, handle_s_frame, handle_u_frame_connected, in_sequence,
  is_valid_nr, on_frame, on_rej, on_rnr, on_rr, out_of_sequence, traversed,
}
use go_ax.DigiPort.{digi_port}
use go_ax.Router.Table.{PortId, Router, contains, mode_hub, register_port, remove, unregister_port}
use go_ax.Address.{
  all_call_chars, check_callsign, cut_dash, decimal, equal, equal_bytes, parse_address,
  parse_digits, parse_uint8, parse_upper, split_ssid, string, to_upper,
}
use go_ax.AgwServer.Connect.{handle_connect}
use go_ax.AgwServer.Lookup.{IsAllocated, alloc_in-IsAllocated}
use go_ax.AgwServer.Refusals.{IsWrong, handle_connect-refused, handle_send_data-refused}
use go_ax.AgwServer.Served.{accept_client-IsServer}
use go_ax.AgwServer.Valid.{Holds, Holds-then, IsServer}
use go_ax.AgwServer.Valid.Ports.{RouterOk, no_ids}
use go_ax.AgwServer.Valid.Run.{new_server-IsServer, server_run-IsServer}
use go_ax.AgwServer.Listeners.{
  handle_register_call, has_call, listener_at, setup_listener, stop_listeners,
  teardown_all_listeners, without_listener,
}
use go_ax.Conn.Calls.{close, connect, send_data, shutdown}
use go_ax.Conn.Send.{build_frame, retransmit_from, send_from, send_pending_i_frames, transmit}
use go_ax.Conn.State.{new_conn}
use go_ax.Router.Dispatch.{classify, deliver_all, send, send_hub, send_in, split_ports}
use go_ax.Router.Port.{deliver, start, stop}
use go_ax.AgwServer.Valid.Commands.{handle_kind-IsServer}
use go_ax.AgwServer.Left.{Behind, Cleared, Going, Holds-Going, leave_client_lem}

abbrev noon : Clock
noon = record { hour = 12; minute = 0; second = 0 }

abbrev config : ServerConfig
config = record {
  radio_port = 0;
  port_description = [];
  tx_queue_depth = 8;
  max_conns = 2;
  read_buf_size = 0;
}

abbrev own_call : Bytes
own_call = codes "N0CALL"

abbrev peer_call : Bytes
peer_call = codes "W1AW-7"

abbrev nowhere : Address
nowhere = record { callsign = []; ssid = 0; has_been_repeated = false; is_last = false }

abbrev own_addr : Address
own_addr = record nowhere { callsign = own_call }

abbrev peer_addr : Address
peer_addr = record nowhere { callsign = codes "W1AW"; ssid = 7 }

-- A router without ports, and a server over it.
abbrev hub : Router
hub = record { mode = mode_hub; ports = []; closed = false; heap = λ i. digi_port nowhere }

abbrev server : Server
server = new_server config hub 0 1

abbrev request : ℕ → Bytes → AgwFrame
request k payload = record blank {
  kind = k;
  call_from = own_call;
  call_to = peer_call;
  payload = payload;
}

abbrev peer_frame : FrameType → ℕ → Frame
peer_frame t control = record {
  destination = own_addr;
  source = peer_addr;
  digipeaters = [];
  is_command = false;
  frame_type = t;
  control = control;
  pid = 0;
  payload = [];
}

-- The slots in use, the counters, and the kinds and texts of the messages that wait.
record View : Type 0 where
  used : ℕ
  counters : List ℕ
  waiting : List (ℕ × Bytes)
  table : List PortId

abbrev view : Option Server → Option View
view none = none
view (some s) = some (record {
  used = in_use_count s.slots;
  counters = s.pending_frames;
  waiting = map (λ m. (m.kind, m.payload)) s.tx_ch;
  table = s.router.ports;
})

heard : FrameType → ℕ → Server → Option Server
heard t control s = on_session noon 1 (on_frame (λ c. c) (peer_frame t control)) s

asked : AgwFrame → Server → Option Server
asked m s = handle_client_frame noon (some m) s

connecting : Option Server
unfolding asked
connecting = accept_client server >>> asked (request b'C' [])

talking : Option Server
unfolding asked heard
talking = connecting >>> heard frame_u ctrl_ua >>> asked (request b'D' (5 ∷ []))

again : Option Server
unfolding asked heard
again =
    talking
    >>> asked (request b'd' [])
    >>> heard frame_u ctrl_ua
    >>> asked (request b'C' [])
    >>> asked (request b'Y' [])

-- A frame for the session's port, whose worker takes it behind the server's own.
worked : FrameType → ℕ → Server → Option Server
worked t control s =
    server_run (replicate 4 (noon, port_worker 1))
      (set_port 1 (deliver (peer_frame t control) (s.router.heap 1)) s)

stuck : Option Server
unfolding asked worked
stuck = connecting >>> worked frame_u ctrl_ua >>> asked (request b'd' []) >>> worked frame_u ctrl_ua

-- A request takes a slot and registers a port; the peer's UA is announced, and data is counted. The
-- counter of a slot is not reset: the next connection in it has an outstanding frame at once. The port
-- of a connection stays registered when the client leaves. A worker that takes the answer to a DISC
-- unregisters its own port and waits for ever: the slot stays in use. A send on the queue that `HandleConn` has
-- closed panics. A callsign is registered once, and its listener accepts a connection.
scenarios :
    (view connecting
      ≡ some (record { used = 1; counters = 0 ∷ 0 ∷ []; waiting = []; table = 0 ∷ 1 ∷ [] }))
    × (view again
        ≡ some (record {
          used = 1;
          counters = 1 ∷ 0 ∷ [];
          waiting =
              (67, codes "*** CONNECTED With Station W1AW-7" ++ 13 ∷ 0 ∷ [])
              ∷ (100, codes "*** DISCONNECTED From Station W1AW-7" ++ 13 ∷ 0 ∷ [])
              ∷ (89, 1 ∷ 0 ∷ 0 ∷ 0 ∷ [])
              ∷ [];
          table = 0 ∷ 2 ∷ [];
        }))
    × (view (connecting >>> leave_client noon (λ g s. some s))
        ≡ some (record { used = 0; counters = 0 ∷ 0 ∷ []; waiting = []; table = 1 ∷ [] }))
    × (view stuck
        ≡ some (record {
          used = 1;
          counters = 0 ∷ 0 ∷ [];
          waiting =
              (67, codes "*** CONNECTED With Station W1AW-7" ++ 13 ∷ 0 ∷ [])
              ∷ (100, codes "*** DISCONNECTED From Station W1AW-7" ++ 13 ∷ 0 ∷ [])
              ∷ [];
          table = 0 ∷ [];
        }))
    × (view (connecting >>> close_tx >>> heard frame_u ctrl_ua) ≡ none)
    × (view (
          accept_client server
          >>> asked (request b'X' [])
          >>> asked (request b'X' [])
          >>> heard frame_u ctrl_sabm)
        ≡ some (record {
          used = 0;
          counters = 0 ∷ 0 ∷ [];
          waiting =
              (88, 1 ∷ [])
              ∷ (88, 1 ∷ [])
              ∷ (67, codes "*** CONNECTED To Station W1AW-7" ++ 13 ∷ 0 ∷ [])
              ∷ [];
          table = 0 ∷ 1 ∷ [];
        }))
unfolding asked heard worked connecting talking again stuck server_run server_step port_round
    on_router_frame new_server enqueue router_unregister router_send update_at alloc_in find_in
    in_use_count on_tx_frame_call slot_disconnected slot_callback listener_callback run_callbacks
    on_session listener_at without_listener has_call setup_listener stop_listeners
    teardown_all_listeners handle_register_call handle_connect handle_send_data handle_disconnect
    handle_outstanding_conn handle_kind accept_client close_slots disconnect_all_slots close_tx
    reopen_tx leave_client start stop deliver contains remove register_port unregister_port
    deliver_all classify split_ports send_hub send_in send new_conn build_frame transmit send_from
    send_pending_i_frames retransmit_from traversed is_valid_nr ack_loop handle_received_nr
    handle_disconnected handle_awaiting_connection handle_awaiting_release in_sequence
    out_of_sequence handle_i_frame on_rr on_rnr on_rej handle_s_frame handle_u_frame_connected
    on_frame close connect shutdown send_data to_upper all_call_chars cut_dash parse_digits
    parse_uint8 split_ssid check_callsign parse_upper parse_address decimal string equal_bytes equal
scenarios = (refl, refl, refl, refl, refl, refl)

hub-RouterOk : RouterOk 1 hub
hub-RouterOk = ((tt, tt), tt)

server-IsServer : IsServer server
server-IsServer = new_server-IsServer config hub 0 1 hub-RouterOk

server_run-IsServer_example :
    Holds IsServer
      (server_run ((noon, messages (request b'X' [] ∷ [])) ∷ (noon, port_worker 1) ∷ []) server)
server_run-IsServer_example =
    server_run-IsServer ((noon, messages (request b'X' [] ∷ [])) ∷ (noon, port_worker 1) ∷ [])
      server server-IsServer

-- A worker takes a frame behind the new queue.
abbrev between : Gap → Server → Option Server
between queue_closed s = some s
between queue_made s = server_run ((noon, port_worker 1) ∷ []) s
between slots_freed s = some s
between listeners_gone s = some s

between-Going : (g : Gap) (t : Server) → Behind g t → Holds (Going (Behind g)) (between g t)
between-Going queue_closed t v = λ _. v
between-Going queue_made t v =
    Holds-Going IsServer _ (server_run-IsServer ((noon, port_worker 1) ∷ []) t v)
between-Going slots_freed t v = λ _. v
between-Going listeners_gone t v = λ _. v

leave_client_lem_example :
    Holds (Going (λ t. IsServer t × Cleared t)) (leave_client noon between server)
leave_client_lem_example = leave_client_lem noon between server between-Going server-IsServer

alloc_in-IsAllocated_example :
    IsAllocated own_call peer_call
      (empty_slot ∷ empty_slot ∷ [])
      (alloc_in own_call peer_call (empty_slot ∷ empty_slot ∷ []))
alloc_in-IsAllocated_example =
    alloc_in-IsAllocated own_call peer_call (empty_slot ∷ empty_slot ∷ [])
      ((λ _. refl), ((λ _. refl), tt))

nobody-IsWrong : IsWrong []
unfolding parse_address
nobody-IsWrong = (_, refl)

handle_connect-refused_example :
    handle_connect noon (record (request b'C' []) { call_to = [] }) [] server ≡ some server
handle_connect-refused_example =
    handle_connect-refused noon (record (request b'C' []) { call_to = [] }) [] server
      server-IsServer (inr nobody-IsWrong)

abbrev given : Option Server → Server
given none = server
given (some s) = s

-- The server while the session waits for the peer.
abbrev waiting_server : Server
unfolding connecting
waiting_server = given connecting

given-IsServer : (o : Option Server) → Holds IsServer o → IsServer (given o)
given-IsServer none h = absurd h
given-IsServer (some s) v = v

waiting_server-IsServer : IsServer waiting_server
unfolding connecting asked new_server
waiting_server-IsServer = given-IsServer connecting (
    Holds-then IsServer _ (handle_client_frame noon (some (request b'C' [])))
      (accept_client-IsServer server (omega arith) (no_ids 0) server-IsServer)
      (handle_kind-IsServer noon (request b'C' [])))

handle_send_data-refused_example :
    (t : Server) × (handle_send_data noon (request b'D' []) waiting_server ≡ some t)
    × (get_or t.pending_frames 0 0 ≡ (get_or waiting_server.pending_frames 0 0 + 1) % 2 ^ 64)
    × (t.tx_ch ≡ waiting_server.tx_ch)
    × (t.router ≡ waiting_server.router)
unfolding connecting asked new_server enqueue router_unregister router_send update_at alloc_in
    find_in in_use_count on_tx_frame_call slot_disconnected slot_callback listener_callback
    run_callbacks on_session listener_at without_listener has_call setup_listener stop_listeners
    teardown_all_listeners handle_register_call handle_connect handle_send_data handle_disconnect
    handle_outstanding_conn handle_kind accept_client close_slots disconnect_all_slots close_tx
    reopen_tx leave_client start stop deliver contains remove register_port unregister_port
    deliver_all classify split_ports send_hub send_in send new_conn build_frame transmit send_from
    send_pending_i_frames retransmit_from traversed is_valid_nr ack_loop handle_received_nr
    handle_disconnected handle_awaiting_connection handle_awaiting_release in_sequence
    out_of_sequence handle_i_frame on_rr on_rnr on_rej handle_s_frame handle_u_frame_connected
    on_frame close connect shutdown send_data to_upper all_call_chars cut_dash parse_digits
    parse_uint8 split_ssid check_callsign parse_upper parse_address decimal string equal_bytes equal
handle_send_data-refused_example =
    handle_send_data-refused noon (request b'D' []) waiting_server 0 _ 1 _ _ waiting_server-IsServer
      refl refl refl refl refl refl
