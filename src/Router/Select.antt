-- ===== src/Router/Select.antt =====
-- ax25/router.go: the ports of a switch, described without the loop that collects them.
use go_ax.Base.{
  ==_iff, Bool, Bool-cases, List, Option, [], append-nil, append_assoc, arith, false, if◌then◌else◌,
  inl, inr, none, not, refl, some, true, ◌&&◌, ◌++◌, ◌==◌, ◌||◌, ◌∙◌, ◌∷◌, ◌≡◌,
}
use mathlib.Core.Path.{subst}
use go_ax.Types.{Frame}
use go_ax.Address.{equal}
use go_ax.Router.Port.{
  Port, PortMode, deliver, mode_default, mode_digipeater, mode_dynamic, mode_promiscuous,
  mode_static,
}
use go_ax.Router.Table.{PortId, contains, update}
use go_ax.Router.Dispatch.{
  Classes, addressed, bind_source, by_mode, classify, deliver_all, is_default, nothing_yet,
  or_defaults, send_switch,
}
use go_ax.Router.Echo.{Distinct}
use go_ax.Digipeater.{has_unrepeated_digi}
use go_ax.Router.Pick.{
  Distinct-or_defaults, Distinct-pick, contains-or_defaults, contains-pick, deliver_two, last_match,
  last_match-some, pick, takes,
}

abbrev pub is_promiscuous : PortMode → Bool
is_promiscuous mode_promiscuous = true
is_promiscuous _ = false

abbrev pub is_digipeater : PortMode → Bool
is_digipeater mode_digipeater = true
is_digipeater _ = false

abbrev pub is_static : PortMode → Bool
is_static mode_static = true
is_static mode_dynamic = true
is_static _ = false

module _ (next : Bool) (f : Frame) (src : PortId) (heap : PortId → Port) where
  abbrev pub wants_all : PortId → Bool
  wants_all i = not (i == src) && is_promiscuous (heap i).mode

  abbrev pub wants_relay : PortId → Bool
  wants_relay i = not (i == src) && (next && is_digipeater (heap i).mode)

  abbrev pub wants_rest : PortId → Bool
  wants_rest i = not (i == src) && is_default (heap i).mode

  abbrev pub wants_own : PortId → Bool
  wants_own i =
      not (i == src)
      && (is_static (heap i).mode && (not next && equal (heap i).destination f.destination))

  by_mode_lem :
      (m : PortMode) (same : Bool) (p : Port) (i : PortId) (k : Classes)
      → (if same then k else by_mode m next f p i k) ≡ record {
        static_match =
            if not same && (is_static m && (not next && equal p.destination f.destination))
            then some i
            else k.static_match;
        default_ports = k.default_ports ++ (if not same && is_default m then i ∷ [] else []);
        promo_ports = k.promo_ports ++ (if not same && is_promiscuous m then i ∷ [] else []);
        digi_ports = k.digi_ports ++ (if not same && (next && is_digipeater m) then i ∷ [] else []);
      }
  by_mode_lem mode_static same p i k =
      ground (arith, append-nil k.default_ports, append-nil k.promo_ports, append-nil k.digi_ports)
  by_mode_lem mode_dynamic same p i k =
      ground (arith, append-nil k.default_ports, append-nil k.promo_ports, append-nil k.digi_ports)
  by_mode_lem mode_default same p i k =
      ground (arith, append-nil k.default_ports, append-nil k.promo_ports, append-nil k.digi_ports)
  by_mode_lem mode_promiscuous same p i k =
      ground (arith, append-nil k.default_ports, append-nil k.promo_ports, append-nil k.digi_ports)
  by_mode_lem mode_digipeater same p i k =
      ground (arith, append-nil k.default_ports, append-nil k.promo_ports, append-nil k.digi_ports)

  pub classify_lem :
      (is : List PortId) (k : Classes)
      → classify next f src heap is k ≡ record {
        static_match = last_match wants_own is k.static_match;
        default_ports = k.default_ports ++ pick wants_rest is;
        promo_ports = k.promo_ports ++ pick wants_all is;
        digi_ports = k.digi_ports ++ pick wants_relay is;
      }
  unfolding classify
  classify_lem [] k = simp append-nil
  classify_lem (i ∷ is) k =
      rw (by_mode_lem (heap i).mode (i == src) (heap i) i k) (classify_lem is _ ∙ simp append_assoc)

-- Whether a port of the switch gets the frame.
abbrev pub gets : Bool → Frame → PortId → List PortId → (PortId → Port) → PortId → Bool
gets next f src ports heap j =
    contains j ports
    && (wants_all next f src heap j
        || (if next
            then wants_relay next f src heap j
            else takes (last_match (wants_own next f src heap) ports none)
                (wants_rest next f src heap) j))

static-not_promiscuous : (m : PortMode) → (is_static m && is_promiscuous m) ≡ false
static-not_promiscuous mode_static = refl
static-not_promiscuous mode_default = refl
static-not_promiscuous mode_promiscuous = refl
static-not_promiscuous mode_digipeater = refl
static-not_promiscuous mode_dynamic = refl

default-not_promiscuous : (m : PortMode) → (is_default m && is_promiscuous m) ≡ false
default-not_promiscuous mode_static = refl
default-not_promiscuous mode_default = refl
default-not_promiscuous mode_promiscuous = refl
default-not_promiscuous mode_digipeater = refl
default-not_promiscuous mode_dynamic = refl

digipeater-not_promiscuous : (m : PortMode) → (is_digipeater m && is_promiscuous m) ≡ false
digipeater-not_promiscuous mode_static = refl
digipeater-not_promiscuous mode_default = refl
digipeater-not_promiscuous mode_promiscuous = refl
digipeater-not_promiscuous mode_digipeater = refl
digipeater-not_promiscuous mode_dynamic = refl

-- A port that takes the frame as the matching or a default one is no promiscuous one.
takes-promiscuous :
    (f : Frame) (src : PortId) (heap : PortId → Port) (o : Option PortId) (j : PortId)
    → ((s : PortId) → o ≡ some s → wants_own false f src heap s ≡ true)
    → (wants_all false f src heap j && takes o (wants_rest false f src heap) j) ≡ false
takes-promiscuous f src heap none j h = ground (arith, default-not_promiscuous (heap j).mode)
takes-promiscuous f src heap (some s) j h = elim (Bool-cases (s == j)) [
  | inl same ↦
      let own = subst (λ i. wants_own false f src heap i ≡ true) ((==_iff s j).0 same) (h s refl) in
      ground (arith, static-not_promiscuous (heap j).mode, own)
  | inr other ↦ ground arith
]

module _ (f : Frame) (src : PortId) (ports : List PortId) (heap : PortId → Port) where
  matched :
      (next : Bool) (s : PortId)
      → last_match (wants_own next f src heap) ports none ≡ some s
      → (wants_own next f src heap s ≡ true) × (contains s ports ≡ true)
  matched next s h = elim (last_match-some (wants_own next f src heap) ports none h) [
    | inl e ↦ cc e
    | inr e ↦ e
  ]

  module _ (d : Distinct ports) where
    switched :
        (next : Bool) (j : PortId)
        → deliver_all f
            (addressed next (classify next f src heap ports nothing_yet))
            (deliver_all f (classify next f src heap ports nothing_yet).promo_ports heap)
            j
          ≡ (if gets next f src ports heap j then deliver f (heap j) else heap j)
    switched true j =
        let all = wants_all true f src heap in
        let relay = wants_relay true f src heap in
        let here = contains-pick relay ports j in
        let apart = digipeater-not_promiscuous (heap j).mode in
        rw (classify_lem true f src heap ports nothing_yet) (
          deliver_two f (pick all ports) (pick relay ports) heap j (Distinct-pick all ports d)
            (Distinct-pick relay ports d) (ground (arith, contains-pick all ports j, here, apart))
          ∙ ground (arith, contains-pick all ports j, here))
    switched false j =
        let all = wants_all false f src heap in
        let rest = wants_rest false f src heap in
        let o = last_match (wants_own false f src heap) ports none in
        let here = contains-or_defaults o rest ports j (λ s e. (matched false s e).1) in
        let apart = takes-promiscuous f src heap o j (λ s e. (matched false s e).0) in
        rw (classify_lem false f src heap ports nothing_yet) (
          deliver_two f (pick all ports) (or_defaults o (pick rest ports)) heap j
            (Distinct-pick all ports d)
            (Distinct-or_defaults o (pick rest ports) (Distinct-pick rest ports d))
            (ground (arith, contains-pick all ports j, here, apart))
          ∙ ground (arith, contains-pick all ports j, here))

-- When no port is registered twice, a switch first binds an unbound dynamic source to the sender, and
-- then gives the frame once to each registered port other than the source that is promiscuous; and,
-- if a digipeater has to relay the frame, to the digipeater ports; or, if none has to, to the last
-- static or dynamic port that has the destination's address or, where there is none, to the default
-- ports. No other port changes. A dynamic source that is bound to another address than the sender's
-- makes no difference: its frame is given to the same ports.
pub send_switch_lem :
    (f : Frame) (src : PortId) (ports : List PortId) (heap : PortId → Port) (j : PortId)
    → Distinct ports
    → let bound = update heap src (bind_source f (heap src)) in
      send_switch f src ports heap j ≡ (
        if gets (has_unrepeated_digi f.digipeaters) f src ports bound j
        then deliver f (bound j)
        else bound j)
unfolding send_switch
send_switch_lem f src ports heap j d =
    switched f src ports (update heap src (bind_source f (heap src))) d
      (has_unrepeated_digi f.digipeaters) j
