-- ===== src/DigiPort.antt =====
-- ax25/digipeater.go: the life of a digipeater, and its port in the router. `new` is the pointer of the
-- port that `NewDigipeater` allocates.
mod Tests
use go_ax.Base.{
  Bool, Bytes, Option, [], arith, false, if◌then◌else◌, none, not, refl, some, true, ◌∷◌, ◌≡◌,
}
use go_ax.Types.{Address, Result, err, ok}
use go_ax.Address.{parse_address}
use go_ax.Digipeater.{Digipeater}
use go_ax.Router.Port.{Port, mode_digipeater}
use go_ax.Router.Table.{
  Outcome, PortId, Router, RouterError, contains, panicked, register_port, returned,
  unregister_port, update, waiting,
}
use go_ax.Router.Running.{AllRun-update, IsRunning}
use go_ax.Router.Ready.{Goes, IsReady, register_port-IsReady, unregister_port-IsReady}
use go_ax.Conn.Events.{run}

pub data DigiError : Type 0 where
  send_missing digi_invalid_callsign : DigiError
  not_registered : RouterError → DigiError

-- What `NewDigipeater` returns, with the port that the digipeater holds and the router behind the call;
-- `hung` is a call that waits for ever for a worker, and `crashed` a panic.
pub data DigiMade : Type 0 where
  made : Digipeater → Option PortId → Router → DigiMade
  refused : DigiError → Router → DigiMade
  hung : Router → DigiMade
  crashed : DigiMade

-- The port, before it is registered.
abbrev pub digi_port : Address → Port
digi_port a = record {
  mode = mode_digipeater;
  destination = a;
  has_on_rx = true;
  queue_depth = 0;
  stats = record { rx_frames = 0; tx_frames = 0; dropped = 0 };
  tx_ch = [];
  capacity = 0;
  started = false;
  quit = false;
  busy = false;
  handled = [];
}

abbrev pub with_port : Address → PortId → Outcome → DigiMade
with_port a new (returned r none) =
    made (record { addr = a; enabled = true; relayed = [] }) (some new) r
with_port a new (returned r (some e)) = refused (not_registered e) r
with_port a new (waiting r) = hung r
with_port a new panicked = crashed

abbrev pub with_address : Result Address → PortId → Router → DigiMade
with_address (err e) new r = refused digi_invalid_callsign r
with_address (ok a) new r =
    with_port a new (register_port new (record r { heap = update r.heap new (digi_port a) }))

abbrev pub with_callsign : Bytes → PortId → Router → DigiMade
with_callsign [] new r =
    made
      (record {
        addr = record { callsign = []; ssid = 0; has_been_repeated = false; is_last = false };
        enabled = false;
        relayed = [];
      })
      none r
with_callsign (c ∷ cs) new r = with_address (parse_address (c ∷ cs)) new r

-- `NewDigipeater`; the flag says whether `sendFn` is there.
unfoldable pub new_digipeater : Bytes → Bool → PortId → Router → DigiMade
new_digipeater callsign has_send new r =
    if not has_send then refused send_missing r else with_callsign callsign new r

-- `Close`. An error of the router is only logged.
abbrev pub without_port : Digipeater → Outcome → DigiMade
without_port d (returned r e) = made (record d { enabled = false }) none r
without_port d (waiting r) = hung r
without_port d panicked = crashed

unfoldable pub close_digipeater : Digipeater → Option PortId → Router → DigiMade
close_digipeater d none r = made (record d { enabled = false }) none r
close_digipeater d (some i) r = without_port d (unregister_port i r)

-- No panic, and the router runs.
abbrev pub Settled : DigiMade → Type 0
Settled (made d port r) = IsRunning r
Settled (refused e r) = IsRunning r
Settled (hung r) = IsRunning r
Settled crashed = ⊥

with_port-Settled :
    (a : Address) (new : PortId) (o : Outcome) → Goes (IsReady []) o → Settled (with_port a new o)
with_port-Settled a new (returned r none) g = g.0
with_port-Settled a new (returned r (some e)) g = g.0
with_port-Settled a new (waiting r) g = g.0
with_port-Settled a new panicked g = g

no_ids : (i : PortId) → contains i [] ≡ false
unfolding contains
no_ids i = refl

fresh_port :
    (heap : PortId → Port) (i : PortId) (a : Address)
    → (update heap i (digi_port a) i).started ≡ false
fresh_port heap i a = ground arith

with_address-Settled :
    (o : Result Address) (new : PortId) (r : Router)
    → contains new r.ports ≡ false
    → IsRunning r
    → Settled (with_address o new r)
with_address-Settled (err e) new r h run = run
with_address-Settled (ok a) new r h run =
    let held = record r { heap = update r.heap new (digi_port a) } in
    with_port-Settled a new (register_port new held) (
      register_port-IsReady new [] held (no_ids new) (
        (run.0, AllRun-update r.ports r.heap new (digi_port a) h run.1),
        (fresh_port r.heap new a, tt),
      ))

-- Making a digipeater never panics and keeps the router running, whatever callsign is given, if no
-- port is registered twice in it, the worker of each runs, and the new port is not yet in its table.
pub new_digipeater-Settled :
    (callsign : Bytes) (has_send : Bool) (new : PortId) (r : Router)
    → contains new r.ports ≡ false
    → IsRunning r
    → Settled (new_digipeater callsign has_send new r)
unfolding new_digipeater
new_digipeater-Settled callsign false new r h run = run
new_digipeater-Settled [] true new r h run = run
new_digipeater-Settled (c ∷ cs) true new r h run =
    with_address-Settled (parse_address (c ∷ cs)) new r h run

without_port-Settled :
    (d : Digipeater) (o : Outcome) → Goes (IsReady []) o → Settled (without_port d o)
without_port-Settled d (returned r e) g = g.0
without_port-Settled d (waiting r) g = g.0
without_port-Settled d panicked g = g

-- Closing a digipeater, also one that is disabled or closed already, never panics and keeps a running
-- router running, also where it waits for ever for a worker that never comes back.
pub close_digipeater-Settled :
    (d : Digipeater) (port : Option PortId) (r : Router)
    → IsRunning r
    → Settled (close_digipeater d port r)
unfolding close_digipeater
close_digipeater-Settled d none r run = run
close_digipeater-Settled d (some i) r run =
    without_port-Settled d (unregister_port i r) (unregister_port-IsReady i [] r (run, tt))
