-- ===== src/Router/Pick.antt =====
-- ax25/router.go: lists of ports picked by a test, and delivery to two of them.
use go_ax.Base.{
  ==_iff, Bool, Bool-cases, List, Option, [], ap, arith, false, if◌then◌else◌, inl, inr, none, refl,
  some, sym, true, ◌&&◌, ◌++◌, ◌==◌, ◌||◌, ◌∙◌, ◌∷◌, ◌≡◌, ◌⊎◌,
}
use mathlib.Core.Path.{subst}
use go_ax.Types.{Frame}
use go_ax.Router.Port.{Port, deliver}
use go_ax.Router.Table.{PortId, contains}
use go_ax.Router.Dispatch.{deliver_all, or_defaults}
use go_ax.Router.Echo.{Distinct, deliver_all_lem}

abbrev pub one : (PortId → Bool) → PortId → List PortId
one q i = if q i then i ∷ [] else []

abbrev pub pick : (PortId → Bool) → List PortId → List PortId
pick q [] = []
pick q (i ∷ is) = one q i ++ pick q is

abbrev pub last_match : (PortId → Bool) → List PortId → Option PortId → Option PortId
last_match q [] o = o
last_match q (i ∷ is) o = last_match q is (if q i then some i else o)

contains-one :
    (q : PortId → Bool) (i : PortId) (js : List PortId) (j : PortId)
    → contains j (one q i ++ js) ≡ ((i == j) && q i || contains j js)
unfolding contains
contains-one q i js j = elim (Bool-cases (q i)) [
  | inl h ↦ rw h (ground arith)
  | inr h ↦ rw h (ground arith)
]

pub contains-pick :
    (q : PortId → Bool) (is : List PortId) (j : PortId)
    → contains j (pick q is) ≡ (contains j is && q j)
unfolding contains
contains-pick q [] j = refl
contains-pick q (i ∷ is) j = contains-one q i (pick q is) j ∙ elim (Bool-cases (i == j)) [
  | inl same ↦ ground (arith, contains-pick q is j, ap q ((==_iff i j).0 same))
  | inr other ↦ ground (arith, contains-pick q is j)
]

pub Distinct-pick : (q : PortId → Bool) (is : List PortId) → Distinct is → Distinct (pick q is)
Distinct-pick q [] d = tt
Distinct-pick q (i ∷ is) d = elim (Bool-cases (q i)) [
  | inl h ↦ rw h (ground (arith, contains-pick q is i), Distinct-pick q is d.1)
  | inr h ↦ rw h (Distinct-pick q is d.1)
]

pub last_match-some :
    (q : PortId → Bool) (is : List PortId) (o : Option PortId) {s : PortId}
    → last_match q is o ≡ some s
    → (o ≡ some s) ⊎ ((q s ≡ true) × (contains s is ≡ true))
unfolding contains
last_match-some q [] o h = inl h
last_match-some q (i ∷ is) o {s} h = elim (last_match-some q is (if q i then some i else o) h) [
  | inl e ↦ elim (Bool-cases (q i)) [
    | inl hit ↦
        let same : i ≡ s = cc (subst (λ b. (if b then some i else o) ≡ some s) hit e) in
        inr (sym (ap q same) ∙ hit, ground (arith, same))
    | inr miss ↦ inl (subst (λ b. (if b then some i else o) ≡ some s) miss e)
  ]
  | inr e ↦ inr (e.0, ground (arith, e.1))
]

-- Who takes a frame, by the port that matched, if one did.
abbrev pub takes : Option PortId → (PortId → Bool) → PortId → Bool
takes none rest j = rest j
takes (some s) rest j = s == j

pub deliver_two :
    (f : Frame) (is js : List PortId) (heap : PortId → Port) (j : PortId)
    → Distinct is
    → Distinct js
    → (contains j is && contains j js) ≡ false
    → deliver_all f js (deliver_all f is heap) j
      ≡ (if contains j is || contains j js then deliver f (heap j) else heap j)
deliver_two f is js heap j d e h =
    ground
      (arith, deliver_all_lem f is heap j d, deliver_all_lem f js (deliver_all f is heap) j e, h)

pub contains-or_defaults :
    (o : Option PortId) (rest : PortId → Bool) (ports : List PortId) (j : PortId)
    → ((s : PortId) → o ≡ some s → contains s ports ≡ true)
    → contains j (or_defaults o (pick rest ports)) ≡ (contains j ports && takes o rest j)
unfolding contains
contains-or_defaults none rest ports j h = contains-pick rest ports j
contains-or_defaults (some s) rest ports j h = elim (Bool-cases (s == j)) [
  | inl same ↦ ground (arith, ap (λ i. contains i ports) ((==_iff s j).0 same), h s refl)
  | inr other ↦ ground arith
]

pub Distinct-or_defaults :
    (o : Option PortId) (is : List PortId) → Distinct is → Distinct (or_defaults o is)
unfolding contains
Distinct-or_defaults none is d = d
Distinct-or_defaults (some s) is d = (refl, tt)
