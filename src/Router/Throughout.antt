-- ===== src/Router/Throughout.antt =====
-- ax25/router.go: properties of the single ports, over `Send`.
use mathlib.Core.Path.{subst}
use go_ax.Base.{==_iff, Bool-cases, List, Option, [], inl, inr, none, some, sym, ◌==◌, ◌∷◌}
use go_ax.Types.{Frame}
use go_ax.Router.Port.{Port, deliver}
use go_ax.Router.Table.{
  PortId, Router, RouterMode, mode_bridge, mode_hub, mode_other, mode_switch, update,
}
use go_ax.Router.Dispatch.{
  bind_source, deliver_all, is_default, send, send_bridge, send_hub, send_in, send_switch,
  split_ports,
}

module _ (P : PortId → Port → Type 0) where
  -- The property holds of every port of the heap.
  abbrev Throughout : (PortId → Port) → Type 0
  Throughout heap = (i : PortId) → P i (heap i)

module _ (P : PortId → Port → Type 0)
    (delivered : (f : Frame) (i : PortId) (p : Port) → P i p → P i (deliver f p))
    (bound : (f : Frame) (i : PortId) (p : Port) → P i p → P i (bind_source f p)) where
  update-Throughout :
      (heap : PortId → Port) (i : PortId) (p : Port)
      → Throughout P heap
      → P i p
      → Throughout P (update heap i p)
  update-Throughout heap i p a s j = elim (Bool-cases (j == i)) [
    | inl same ↦ rw same (subst (λ k. P k p) (sym ((==_iff j i).0 same)) s)
    | inr other ↦ rw other (a j)
  ]

  deliver_all-Throughout :
      (f : Frame) (is : List PortId) (heap : PortId → Port)
      → Throughout P heap
      → Throughout P (deliver_all f is heap)
  unfolding deliver_all
  deliver_all-Throughout f [] heap a = a
  deliver_all-Throughout f (i ∷ is) heap a =
      deliver_all-Throughout f is (update heap i (deliver f (heap i)))
        (update-Throughout heap i (deliver f (heap i)) a (delivered f i (heap i) (a i)))

  send_hub-Throughout :
      (f : Frame) (src : PortId) (is : List PortId) (heap : PortId → Port)
      → Throughout P heap
      → Throughout P (send_hub f src is heap)
  unfolding send_hub
  send_hub-Throughout f src [] heap a = a
  send_hub-Throughout f src (i ∷ is) heap a = elim (Bool-cases (i == src)) [
    | inl same ↦ rw same (send_hub-Throughout f src is heap a)
    | inr other ↦ rw other (
        send_hub-Throughout f src is (update heap i (deliver f (heap i)))
          (update-Throughout heap i (deliver f (heap i)) a (delivered f i (heap i) (a i))))
  ]

  send_bridge-Throughout :
      (f : Frame) (src : PortId) (is : List PortId) (heap : PortId → Port)
      → Throughout P heap
      → Throughout P (send_bridge f src is heap)
  unfolding send_bridge
  send_bridge-Throughout f src is heap a = elim (Bool-cases (is_default (heap src).mode)) [
    | inl up ↦ rw up (deliver_all-Throughout f (split_ports src heap is [] []).1 heap a)
    | inr client ↦ rw client (deliver_all-Throughout f (split_ports src heap is [] []).0 heap a)
  ]

  send_in-Throughout :
      (m : RouterMode) (f : Frame) (src : PortId) (r : Router)
      → Throughout P r.heap
      → Throughout P (send_in m f src r).0.heap
  unfolding send_in send_switch
  send_in-Throughout mode_switch f src r a = deliver_all-Throughout f _ _ (
      deliver_all-Throughout f _ _ (
        update-Throughout r.heap src (bind_source f (r.heap src)) a
          (bound f src (r.heap src) (a src))))
  send_in-Throughout mode_bridge f src r a = send_bridge-Throughout f src r.ports r.heap a
  send_in-Throughout mode_hub f src r a = send_hub-Throughout f src r.ports r.heap a
  send_in-Throughout mode_other f src r a = a

  pub send-Throughout :
      (f : Option Frame) (src : Option PortId) (r : Router)
      → Throughout P r.heap
      → Throughout P (send f src r).0.heap
  unfolding send
  send-Throughout none src r a = a
  send-Throughout (some f) none r a = a
  send-Throughout (some f) (some src) r a = elim (Bool-cases r.closed) [
    | inl closed ↦ simp closed a
    | inr ready ↦ simp ready (send_in-Throughout r.mode f src r a)
  ]
