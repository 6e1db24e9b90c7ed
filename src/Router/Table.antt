-- ===== src/Router/Table.antt =====
-- ax25/router.go: the router, its table of ports, and the calls that change it. A port is known by
-- its pointer, here a number into the heap of ports.
use go_ax.Base.{
  Bool, List, Option, [], false, if◌then◌else◌, none, some, true, ℕ, ◌++◌, ◌==◌, ◌||◌, ◌∷◌,
}
use go_ax.Router.Port.{Port, Stopped, start, stop, stop_ends, stop_panics, stop_waits}

abbrev pub PortId : Type 0
PortId = ℕ

pub data RouterMode : Type 0 where
  mode_switch mode_bridge mode_hub mode_other : RouterMode

pub data RouterError : Type 0 where
  port_already_registered port_not_found router_closed : RouterError
  nil_frame nil_port unknown_router_mode : RouterError

pub record Router : Type 0 where
  pub mode : RouterMode
  pub ports : List PortId
  pub closed : Bool
  pub heap : PortId → Port

-- A call returns, with an error or without one, waits for ever for a worker, or panics.
pub data Outcome : Type 0 where
  returned : Router → Option RouterError → Outcome
  waiting : Router → Outcome
  panicked : Outcome

-- `NewRouter`
unfoldable pub new_router : Option RouterMode → (PortId → Port) → Router
new_router none heap = record { mode = mode_switch; ports = []; closed = false; heap = heap }
new_router (some m) heap = record { mode = m; ports = []; closed = false; heap = heap }

abbrev pub update : (PortId → Port) → PortId → Port → PortId → Port
update heap i p j = if j == i then p else heap j

unfoldable pub contains : PortId → List PortId → Bool
contains i [] = false
contains i (j ∷ js) = j == i || contains i js

-- The removal of the first entry that is this port.
unfoldable pub remove : PortId → List PortId → List PortId
remove i [] = []
remove i (j ∷ js) = if j == i then js else j ∷ remove i js

abbrev pub default_port_queue_depth : ℕ
default_port_queue_depth = 32

unfoldable pub register_port : PortId → Router → Outcome
register_port i r =
    if r.closed
    then returned r (some router_closed)
    else if contains i r.ports
    then returned r (some port_already_registered)
    else returned
        (record r {
          ports = r.ports ++ (i ∷ []);
          heap = update r.heap i (start default_port_queue_depth (r.heap i));
        })
        none

abbrev pub stopped : PortId → Router → Stopped Port → Outcome
stopped i r stop_panics = panicked
stopped i r (stop_ends p) = returned (record r { heap = update r.heap i p }) none
stopped i r (stop_waits p) = waiting (record r { heap = update r.heap i p })

unfoldable pub unregister_port : PortId → Router → Outcome
unregister_port i r =
    if contains i r.ports
    then stopped i (record r { ports = remove i r.ports }) (stop (r.heap i))
    else returned r (some port_not_found)

-- The loop of `Close` that stops the ports. A port that is waited for keeps it from the next.
unfoldable pub stop_ports : List PortId → (PortId → Port) → Stopped (PortId → Port)
stop_ports [] heap = stop_ends heap
stop_ports (i ∷ is) heap = elim (stop (heap i)) [
  | stop_panics ↦ stop_panics
  | stop_waits p ↦ stop_waits (update heap i p)
  | stop_ends p ↦ stop_ports is (update heap i p)
]

abbrev pub closed_with : Router → Stopped (PortId → Port) → Outcome
closed_with r stop_panics = panicked
closed_with r (stop_ends heap) = returned (record r { closed = true; ports = []; heap = heap }) none
closed_with r (stop_waits heap) = waiting (record r { closed = true; ports = []; heap = heap })

unfoldable pub close_router : Router → Outcome
close_router r = closed_with r (stop_ports r.ports r.heap)
