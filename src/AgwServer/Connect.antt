-- ===== src/AgwServer/Connect.antt =====
-- agwpe/server.go: `handleConnect`, with every way in which it gives up.
use go_ax.Types.{Address, Result, err, ok}
use go_ax.Base.{List, Option, none, some, true, ℕ}
use go_ax.AgwServer.{ConnSlot, Server, outgoing, router_unregister, ◌>>>◌}
use go_ax.Address.{parse_address}
use go_ax.AgwServer.Callbacks.{free_slot, on_session, slot_callbacks}
use go_ax.AgwServer.Listeners.{add_session}
use go_ax.AgwServer.Slots.{alloc_in, update_at}
use go_ax.Agwpe.{AgwFrame}
use go_ax.Agwpe.Monitor.{Clock}
use go_ax.Conn.Calls.{connect}
use go_ax.Conn.State.{CallError, Conn, new_conn}
use go_ax.Router.Table.{Outcome, PortId, panicked, register_port, returned, waiting}

-- A port that was registered, and the call of `Connect`.
abbrev pub after_connect : ℕ → PortId → Option CallError → Server → Option Server
after_connect i id none s = some s
after_connect i id (some e) s = router_unregister id s >>> λ t. some (free_slot i t)

abbrev pub connect_registered :
    Clock → ℕ → PortId → Address → List Address → Conn → Server → Outcome → Option Server
connect_registered now i id remote digis c s (returned r none) =
    on_session now id (λ x. (connect remote digis x).0)
      (record s {
        router = r;
        slots = update_at i (λ y. record y { router_port = some id }) s.slots;
      })
    >>> after_connect i id (connect remote digis c).1
connect_registered now i id remote digis c s (returned r (some e)) =
    some (free_slot i (record s { router = r }))
connect_registered now i id remote digis c s (waiting r) =
    some (record s { router = r; waits = true })
connect_registered now i id remote digis c s panicked = none

-- The session is put into the slot before its port is registered.
abbrev pub connect_with :
    Clock → ℕ → AgwFrame → Address → Address → List Address → Option Conn → Server → Option Server
connect_with now i m local remote digis none s = some (free_slot i s)
connect_with now i m local remote digis (some c) s =
    let id = s.next_port in
    let t =
      add_session
        (record { role = outgoing i; local_call = m.call_from; remote_call = m.call_to; conn = c })
        local (record s { slots = update_at i (λ y. record y { conn = some id }) s.slots }) in
    connect_registered now i id remote digis c t (register_port id t.router)

abbrev pub connect_to :
    Clock → ℕ → AgwFrame → Result Address → Result Address → List Address → Server → Option Server
connect_to now i m (err e) remote digis s = some (free_slot i s)
connect_to now i m (ok local) (err e) digis s = some (free_slot i s)
connect_to now i m (ok local) (ok remote) digis s =
    connect_with now i m local remote digis (new_conn local slot_callbacks none) s

abbrev pub connect_in :
    Clock → AgwFrame → List Address → Server → Option (ℕ × List ConnSlot) → Option Server
connect_in now m digis s none = some s
connect_in now m digis s (some (i, slots)) =
    connect_to now i m (parse_address m.call_from) (parse_address m.call_to) digis
      (record s { slots = slots })

-- `handleConnect`
unfoldable pub handle_connect : Clock → AgwFrame → List Address → Server → Option Server
handle_connect now m digis s = connect_in now m digis s (alloc_in m.call_from m.call_to s.slots)
