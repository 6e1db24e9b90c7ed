-- ===== src/Router/Running.antt =====
-- ax25/router.go: tables of registered ports whose workers run.
use mathlib.Core.Path.{subst}
use go_ax.Base.{
  ==_iff, Bool-cases, List, [], ap, arith, false, inl, inr, not, refl, true, ℕ, ◌&&◌, ◌++◌, ◌==◌,
  ◌||◌, ◌∙◌, ◌∷◌, ◌≡◌,
}
use go_ax.Router.Port.{Port}
use go_ax.Router.Table.{PortId, Router, contains, remove, update}
use go_ax.Router.Echo.{Distinct}

-- A port whose worker runs.
abbrev pub Runs : Port → Type 0
Runs p = (p.started ≡ true) × (p.quit ≡ false)

abbrev pub AllRun : List PortId → (PortId → Port) → Type 0
AllRun [] heap = Unit
AllRun (i ∷ is) heap = Runs (heap i) × AllRun is heap

-- No port is registered twice and the worker of each runs.
abbrev pub IsRunning : Router → Type 0
IsRunning r = Distinct r.ports × AllRun r.ports r.heap

pub AllRun-update :
    (is : List PortId) (heap : PortId → Port) (i : PortId) (p : Port)
    → contains i is ≡ false
    → AllRun is heap
    → AllRun is (update heap i p)
unfolding contains
AllRun-update [] heap i p h a = tt
AllRun-update (j ∷ js) heap i p h a = (
  (ground (arith, a.0, h), ground (arith, a.0, h)),
  AllRun-update js heap i p (ground (arith, h)) a.1,
)

pub AllRun-contains :
    (is : List PortId) (heap : PortId → Port) (i : PortId)
    → AllRun is heap
    → contains i is ≡ true
    → Runs (heap i)
unfolding contains
AllRun-contains [] heap i a h = ground (arith, h)
AllRun-contains (j ∷ js) heap i a h = elim (Bool-cases (j == i)) [
  | inl same ↦ subst (λ k. Runs (heap k)) ((==_iff j i).0 same) a.0
  | inr other ↦ AllRun-contains js heap i a.1 (ground (arith, h))
]

==-swap : (i j : ℕ) → (i == j) ≡ (j == i)
==-swap i j = ground arith

pub contains-append :
    (is js : List PortId) (i : PortId) → contains i (is ++ js) ≡ (contains i is || contains i js)
unfolding contains
contains-append [] js i = refl
contains-append (k ∷ ks) js i = ground (arith, contains-append ks js i)

pub Distinct-append :
    (is : List PortId) (i : PortId)
    → contains i is ≡ false
    → Distinct is
    → Distinct (is ++ (i ∷ []))
unfolding contains
Distinct-append [] i h d = (refl, tt)
Distinct-append (k ∷ ks) i h d = (
  ground (arith, contains-append ks (i ∷ []) k, ==-swap k i),
  Distinct-append ks i (ground (arith, h)) d.1,
)

pub AllRun-append :
    (is : List PortId) (heap : PortId → Port) (i : PortId)
    → AllRun is heap
    → Runs (heap i)
    → AllRun (is ++ (i ∷ [])) heap
AllRun-append [] heap i a r = (r, tt)
AllRun-append (k ∷ ks) heap i a r = (a.0, AllRun-append ks heap i a.1 r)

pub contains-remove :
    (is : List PortId) (i j : PortId)
    → Distinct is
    → contains j (remove i is) ≡ (contains j is && not (i == j))
unfolding contains remove
contains-remove [] i j d = refl
contains-remove (k ∷ ks) i j d = elim (Bool-cases (k == i)) [
  | inl same ↦
      let e = (==_iff k i).0 same in
      rw same (elim (Bool-cases (i == j)) [
        | inl here ↦ ground (arith, here, d.0, ap (λ m. contains m ks) (e ∙ (==_iff i j).0 here))
        | inr there ↦ ground (arith, there, e)
      ])
  | inr other ↦ rw other (ground (arith, contains-remove ks i j d.1, other))
]

pub Distinct-remove : (is : List PortId) (i : PortId) → Distinct is → Distinct (remove i is)
unfolding contains remove
Distinct-remove [] i d = tt
Distinct-remove (k ∷ ks) i d = elim (Bool-cases (k == i)) [
  | inl h ↦ rw h d.1
  | inr h ↦ rw h (ground (arith, contains-remove ks i k d.1), Distinct-remove ks i d.1)
]

pub AllRun-remove :
    (is : List PortId) (heap : PortId → Port) (i : PortId)
    → AllRun is heap
    → AllRun (remove i is) heap
unfolding remove
AllRun-remove [] heap i a = tt
AllRun-remove (k ∷ ks) heap i a = elim (Bool-cases (k == i)) [
  | inl h ↦ rw h a.1
  | inr h ↦ rw h (a.0, AllRun-remove ks heap i a.1)
]
