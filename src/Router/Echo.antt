-- ===== src/Router/Echo.antt =====
-- ax25/router.go: delivery to lists of ports, and the port that a frame came from.
use go_ax.Base.{
  ==_iff, Bool-cases, List, [], ap, arith, false, if◌then◌else◌, inl, inr, not, refl, ◌&&◌, ◌==◌,
  ◌∷◌, ◌≡◌,
}
use go_ax.Types.{Frame}
use go_ax.Router.Port.{Port, deliver}
use go_ax.Router.Table.{PortId, contains, update}
use go_ax.Router.Dispatch.{deliver_all, send_hub}

-- A list of ports without repetition.
abbrev pub Distinct : List PortId → Type 0
Distinct [] = Unit
Distinct (i ∷ is) = (contains i is ≡ false) × Distinct is

pub deliver_all-other :
    (f : Frame) (is : List PortId) (heap : PortId → Port) (j : PortId)
    → contains j is ≡ false
    → deliver_all f is heap j ≡ heap j
unfolding deliver_all contains
deliver_all-other f [] heap j h = refl
deliver_all-other f (i ∷ is) heap j h =
    ground (arith, deliver_all-other f is (update heap i (deliver f (heap i))) j)

-- Each port of a list without repetition gets the frame once, and no other port does.
pub deliver_all_lem :
    (f : Frame) (is : List PortId) (heap : PortId → Port) (j : PortId)
    → Distinct is
    → deliver_all f is heap j ≡ (if contains j is then deliver f (heap j) else heap j)
unfolding deliver_all contains
deliver_all_lem f [] heap j d = refl
deliver_all_lem f (i ∷ is) heap j d =
    let sent = update heap i (deliver f (heap i)) in
    elim (Bool-cases (i == j)) [
      | inl same ↦
          let e = (==_iff i j).0 same in
          ground (arith, e, deliver_all-other f is sent j, ap heap e, ap (λ i. contains i is) e)
      | inr other ↦ ground (arith, deliver_all_lem f is sent j d.1)
    ]

-- When no port is registered twice, a hub gives a frame once to each registered port but its source.
-- No other port changes.
pub send_hub_lem :
    (f : Frame) (src : PortId) (is : List PortId) (heap : PortId → Port) (j : PortId)
    → Distinct is
    → send_hub f src is heap j
      ≡ (if contains j is && not (j == src) then deliver f (heap j) else heap j)
unfolding send_hub contains
send_hub_lem f src [] heap j d = refl
send_hub_lem f src (i ∷ is) heap j d = elim (Bool-cases (i == src)) [
  | inl same ↦ ground (arith, send_hub_lem f src is heap j d.1)
  | inr other ↦
      let sent = update heap i (deliver f (heap i)) in
      elim (Bool-cases (i == j)) [
        | inl here ↦
            let e = (==_iff i j).0 here in
            ground
              (arith, e, send_hub_lem f src is sent j d.1, ap heap e, ap (λ i. contains i is) e)
        | inr there ↦ ground (arith, send_hub_lem f src is sent j d.1)
      ]
]
