-- ===== src/AgwServer/Listeners.antt =====
-- agwpe/server.go: the registered callsigns and the passive listeners behind them.
use go_ax.Types.{Address, Result, err, ok}
use go_ax.Base.{
  Bool, Bytes, List, Option, [], false, if◌then◌else◌, none, some, suc, true, ◌%◌, ◌++◌, ◌==◌, ◌||◌,
  ◌∷◌,
}
use go_ax.AgwServer.{Server, Session, enqueue, listening, router_unregister, ◌>>>◌}
use go_ax.Address.{equal_bytes, parse_address}
use go_ax.AgwServer.Callbacks.{listener_callbacks, on_session}
use go_ax.Agwpe.{AgwFrame}
use go_ax.Agwpe.Monitor.{Clock}
use go_ax.Agwpe.Responses.{build_register_call_resp}
use go_ax.Conn.Calls.{close}
use go_ax.Conn.State.{Conn, new_conn}
use go_ax.DigiPort.{digi_port}
use go_ax.Router.Port.{Port, PortMode, mode_static}
use go_ax.Router.Table.{Outcome, PortId, panicked, register_port, returned, update, waiting}

-- `delete` and the lookup of a map with the callsigns as keys.
unfoldable pub listener_at : Bytes → List (Bytes × PortId) → Option PortId
listener_at callsign [] = none
listener_at callsign (e ∷ es) =
    if equal_bytes e.0 callsign then some e.1 else listener_at callsign es

unfoldable pub without_listener : Bytes → List (Bytes × PortId) → List (Bytes × PortId)
without_listener callsign [] = []
without_listener callsign (e ∷ es) =
    if equal_bytes e.0 callsign
    then without_listener callsign es
    else e ∷ without_listener callsign es

unfoldable pub has_call : Bytes → List Bytes → Bool
has_call callsign [] = false
has_call callsign (c ∷ cs) = equal_bytes c callsign || has_call callsign cs

-- The loop of `handleUnregisterCall`: the first entry goes.
unfoldable pub without_call : Bytes → List Bytes → List Bytes
without_call callsign [] = []
without_call callsign (c ∷ cs) = if equal_bytes c callsign then cs else c ∷ without_call callsign cs

-- A port of the server, before it is registered.
abbrev pub server_port : PortMode → Address → Port
server_port m a = record (digi_port a) { mode = m }

-- The session and its port, behind the next pointer.
abbrev pub add_session : Session → Address → Server → Server
add_session x a s = record s {
  sessions = λ j. if j == s.next_port then some x else s.sessions j;
  router = record (s.router) {
    heap = update s.router.heap s.next_port (server_port mode_static a);
  };
  next_port = suc s.next_port;
}

abbrev pub listed : Bytes → PortId → Server → Outcome → Option Server
listed callsign id s (returned r none) =
    some
      (record s { router = r; listeners = (callsign, id) ∷ without_listener callsign s.listeners })
listed callsign id s (returned r (some e)) = some (record s { router = r })
listed callsign id s (waiting r) = some (record s { router = r; waits = true })
listed callsign id s panicked = none

abbrev pub listen_with : Bytes → PortId → Address → Option Conn → Server → Option Server
listen_with callsign id a none s = some s
listen_with callsign id a (some c) s =
    let t =
      add_session (record { role = listening; local_call = callsign; remote_call = []; conn = c }) a
        s in
    listed callsign id t (register_port id t.router)

abbrev pub listen_at : Bytes → Result Address → Server → Option Server
listen_at callsign (err e) s = some s
listen_at callsign (ok a) s =
    listen_with callsign s.next_port a (new_conn a listener_callbacks none) s

-- `setupListener`
unfoldable pub setup_listener : Bytes → Server → Option Server
setup_listener callsign s = listen_at callsign (parse_address callsign) s

-- An entry's port is unregistered and its session closed.
abbrev pub stop_listener : Clock → Option PortId → Server → Option Server
stop_listener now none s = some s
stop_listener now (some id) s = router_unregister id s >>> on_session now id close

-- `teardownListener`
unfoldable pub teardown_listener : Clock → Bytes → Server → Option Server
teardown_listener now callsign s =
    stop_listener now (listener_at callsign s.listeners)
      (record s { listeners = without_listener callsign s.listeners })

unfoldable pub stop_listeners : Clock → List (Bytes × PortId) → Server → Option Server
stop_listeners now [] s = some s
stop_listeners now (e ∷ es) s = stop_listener now (some e.1) s >>> stop_listeners now es

-- `teardownAllListeners`; the order of a map's entries is that of the list here.
unfoldable pub teardown_all_listeners : Clock → Server → Option Server
teardown_all_listeners now s =
    stop_listeners now s.listeners (record s { listeners = []; calls = [] })

-- `handleRegisterCall`
unfoldable pub handle_register_call : AgwFrame → Server → Option Server
handle_register_call m s =
    (if has_call m.call_from s.calls
      then some s
      else setup_listener m.call_from (record s { calls = s.calls ++ m.call_from ∷ [] }))
    >>> λ t. enqueue (build_register_call_resp m.call_from true (t.cfg.radio_port % 256)) t

-- `handleUnregisterCall`
unfoldable pub handle_unregister_call : Clock → AgwFrame → Server → Option Server
handle_unregister_call now m s =
    teardown_listener now m.call_from (record s { calls = without_call m.call_from s.calls })
