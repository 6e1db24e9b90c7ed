-- ===== src/Router/Bridge.antt =====
-- ax25/router.go: delivery in bridge mode, the default ports on one side, the clients on the other.
use go_ax.Base.{
  Bool, Bool-cases, List, [], append-nil, append_assoc, arith, false, if◌then◌else◌, inl, inr, not,
  refl, true, ◌&&◌, ◌++◌, ◌==◌, ◌∙◌, ◌∷◌, ◌≡◌,
}
use go_ax.Types.{Frame}
use go_ax.Router.Port.{Port, deliver}
use go_ax.Router.Table.{PortId, contains}
use go_ax.Router.Dispatch.{is_default, send_bridge, split_ports}
use go_ax.Router.Echo.{Distinct, deliver_all_lem}
use go_ax.Router.Pick.{Distinct-pick, contains-pick, pick}

-- A port other than the source on the side that `default` names.
abbrev pub on_side : Bool → PortId → (PortId → Port) → PortId → Bool
on_side default src heap i =
    not (i == src) && (if default then is_default (heap i).mode else not (is_default (heap i).mode))

split_ports_lem :
    (src : PortId) (heap : PortId → Port) (is defaults clients : List PortId)
    → split_ports src heap is defaults clients
      ≡ (defaults ++ pick (on_side true src heap) is, clients ++ pick (on_side false src heap) is)
unfolding split_ports
split_ports_lem src heap [] defaults clients = simp append-nil
split_ports_lem src heap (i ∷ is) defaults clients =
    split_ports_lem src heap is _ _ ∙ elim (Bool-cases (i == src)) [
      | inl same ↦ rw same refl
      | inr other ↦ rw other (elim (Bool-cases (is_default (heap i).mode)) [
        | inl d ↦ rw d (simp append_assoc)
        | inr c ↦ rw c (simp append_assoc)
      ])
    ]

-- When no port is registered twice, a bridge gives a frame once to each registered port on the other
-- side than its source: to the clients when the source is a default port, to the default ports when
-- it is not. No other port changes.
pub send_bridge_lem :
    (f : Frame) (src : PortId) (ports : List PortId) (heap : PortId → Port) (j : PortId)
    → Distinct ports
    → send_bridge f src ports heap j ≡ (
        if contains j ports && on_side (not (is_default (heap src).mode)) src heap j
        then deliver f (heap j)
        else heap j)
unfolding send_bridge
send_bridge_lem f src ports heap j distinct =
    rw (split_ports_lem src heap ports [] []) (elim (Bool-cases (is_default (heap src).mode)) [
      | inl d ↦ rw d (
          ground (
            arith,
            contains-pick (on_side false src heap) ports j,
            deliver_all_lem f (pick (on_side false src heap) ports) heap j
                (Distinct-pick (on_side false src heap) ports distinct),
          ))
      | inr c ↦ rw c (
          ground (
            arith,
            contains-pick (on_side true src heap) ports j,
            deliver_all_lem f (pick (on_side true src heap) ports) heap j
                (Distinct-pick (on_side true src heap) ports distinct),
          ))
    ])
