-- ===== src/Router/Dispatch.antt =====
-- ax25/router.go: `Send` and its three modes. A delivered frame is a clone, here the frame itself.
use go_ax.Base.{
  Bool, Bytes, List, Option, [], false, if◌then◌else◌, none, not, some, true, ◌&&◌, ◌++◌, ◌==◌, ◌∷◌,
}
use go_ax.Types.{Frame}
use go_ax.Address.{equal}
use go_ax.Digipeater.{has_unrepeated_digi}
use go_ax.Router.Port.{
  Port, PortMode, deliver, mode_default, mode_digipeater, mode_dynamic, mode_promiscuous,
  mode_static,
}
use go_ax.Router.Table.{
  PortId, Router, RouterError, RouterMode, mode_bridge, mode_hub, mode_other, mode_switch,
  nil_frame, nil_port, router_closed, unknown_router_mode, update,
}

-- The loops that deliver to some ports, in their order.
unfoldable pub deliver_all : Frame → List PortId → (PortId → Port) → PortId → Port
deliver_all f [] heap = heap
deliver_all f (i ∷ is) heap = deliver_all f is (update heap i (deliver f (heap i)))

-- What the loop of `sendSwitch` over the ports collects.
pub record Classes : Type 0 where
  pub static_match : Option PortId
  pub default_ports : List PortId
  pub promo_ports : List PortId
  pub digi_ports : List PortId

abbrev pub by_mode : PortMode → Bool → Frame → Port → PortId → Classes → Classes
by_mode mode_static next f p i k = record k {
  static_match = if not next && equal p.destination f.destination then some i else k.static_match;
}
by_mode mode_dynamic next f p i k = record k {
  static_match = if not next && equal p.destination f.destination then some i else k.static_match;
}
by_mode mode_default next f p i k = record k { default_ports = k.default_ports ++ (i ∷ []) }
by_mode mode_promiscuous next f p i k = record k { promo_ports = k.promo_ports ++ (i ∷ []) }
by_mode mode_digipeater next f p i k = record k {
  digi_ports = if next then k.digi_ports ++ (i ∷ []) else k.digi_ports;
}

unfoldable pub classify : Bool → Frame → PortId → (PortId → Port) → List PortId → Classes → Classes
classify next f src heap [] k = k
classify next f src heap (i ∷ is) k =
    classify next f src heap is (if i == src then k else by_mode (heap i).mode next f (heap i) i k)

abbrev pub nothing_yet : Classes
nothing_yet = record { static_match = none; default_ports = []; promo_ports = []; digi_ports = [] }

-- An unbound dynamic port is bound to the source of its first frame.
abbrev pub is_dynamic : PortMode → Bool
is_dynamic mode_dynamic = true
is_dynamic _ = false

abbrev pub is_unbound : Bytes → Bool
is_unbound [] = true
is_unbound (c ∷ cs) = false

unfoldable pub bind_source : Frame → Port → Port
bind_source f p =
    if is_dynamic p.mode && is_unbound p.destination.callsign
    then record p { destination = f.source }
    else p

abbrev pub or_defaults : Option PortId → List PortId → List PortId
or_defaults none defaults = defaults
or_defaults (some i) defaults = i ∷ []

-- The ports that get the frame, behind the promiscuous ones.
abbrev pub addressed : Bool → Classes → List PortId
addressed next k = if next then k.digi_ports else or_defaults k.static_match k.default_ports

unfoldable pub send_switch : Frame → PortId → List PortId → (PortId → Port) → PortId → Port
send_switch f src ports heap =
    let bound = update heap src (bind_source f (heap src)) in
    let next = has_unrepeated_digi f.digipeaters in
    let k = classify next f src bound ports nothing_yet in
    deliver_all f (addressed next k) (deliver_all f k.promo_ports bound)

abbrev pub is_default : PortMode → Bool
is_default mode_default = true
is_default _ = false

-- The two lists of `sendBridge`: the default ports and the clients.
unfoldable pub split_ports :
    PortId → (PortId → Port) → List PortId → List PortId → List PortId → List PortId × List PortId
split_ports src heap [] defaults clients = (defaults, clients)
split_ports src heap (i ∷ is) defaults clients =
    let d = is_default (heap i).mode in
    split_ports src heap is
      (if i == src then defaults else if d then defaults ++ (i ∷ []) else defaults)
      (if i == src then clients else if d then clients else clients ++ (i ∷ []))

unfoldable pub send_bridge : Frame → PortId → List PortId → (PortId → Port) → PortId → Port
send_bridge f src ports heap =
    let (defaults, clients) = split_ports src heap ports [] [] in
    if is_default (heap src).mode then deliver_all f clients heap else deliver_all f defaults heap

unfoldable pub send_hub : Frame → PortId → List PortId → (PortId → Port) → PortId → Port
send_hub f src [] heap = heap
send_hub f src (i ∷ is) heap =
    send_hub f src is (if i == src then heap else update heap i (deliver f (heap i)))

unfoldable pub send_in : RouterMode → Frame → PortId → Router → Router × Option RouterError
send_in mode_switch f src r = (record r { heap = send_switch f src r.ports r.heap }, none)
send_in mode_bridge f src r = (record r { heap = send_bridge f src r.ports r.heap }, none)
send_in mode_hub f src r = (record r { heap = send_hub f src r.ports r.heap }, none)
send_in mode_other f src r = (r, some unknown_router_mode)

-- `Send`; a nil frame or port is `none`.
unfoldable pub send : Option Frame → Option PortId → Router → Router × Option RouterError
send none src r = (r, some nil_frame)
send (some f) none r = (r, some nil_port)
send (some f) (some src) r = if r.closed then (r, some router_closed) else send_in r.mode f src r
