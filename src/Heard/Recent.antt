-- ===== src/Heard/Recent.antt =====
-- cmd/bbs/heard/heard.go: the bound and the order of the heard list.
use mathlib.Core.Path.{subst}
use go_ax.Base.{
  All, Bool-cases, Bytes, List, Option, [], ap, arith, false, if◌then◌else◌, inl, inr, length,
  length-take, map, none, refl, some, suc, sym, take, true, zero, ℕ, ◌<◌, ◌∙◌, ◌∷◌, ◌≡◌, ◌≤◌,
}
use go_ax.Heard.{Heard, HeardList, add_heard, behind, equal_fold, put_first, without_heard}
use go_ax.AgwServer.Valid.Calls.{equal_bytes-eq}
use go_ax.Address.{equal_bytes, to_upper}

-- The entries of other stations.
abbrev pub others : Bytes → List Heard → List Heard
others callsign [] = []
others callsign (e ∷ es) =
    let rest = others callsign es in if equal_fold e.callsign callsign then rest else e ∷ rest

abbrev pub Differ : Bytes → List Heard → Type 0
Differ callsign es = All (λ d. equal_fold d.callsign callsign ≡ false) es

-- No station is listed twice.
abbrev pub EachOnce : List Heard → Type 0
EachOnce [] = Unit
EachOnce (e ∷ es) = Differ e.callsign es × EachOnce es

-- No station is listed twice, and the list is within its size.
pub record IsHeardList (l : HeardList) : Type 0 where
  pub once : EachOnce l.entries
  pub bounded : length l.entries ≤ l.max

others-Differ : (c : Bytes) (es : List Heard) → Differ c es → others c es ≡ es
others-Differ c [] d = refl
others-Differ c (e ∷ es) d = rw d.0 (ap (◌∷◌ e) (others-Differ c es d.1))

Differ-same : (a c : Bytes) (es : List Heard) → equal_fold a c ≡ true → Differ a es → Differ c es
Differ-same a c [] h d = tt
Differ-same a c (e ∷ es) h d = (
  subst (λ n. equal_bytes (map to_upper e.callsign) n ≡ false)
      (equal_bytes-eq (map to_upper a) (map to_upper c) h) d.0,
  Differ-same a c es h d.1,
)

others_same :
    (c : Bytes) (e : Heard) (es : List Heard)
    → equal_fold e.callsign c ≡ true
    → others c (e ∷ es) ≡ others c es
others_same c e es h = rw h refl

-- What the search for a station finds.
abbrev Removed : Bytes → List Heard → Option (List Heard) → Type 0
Removed c es none = Differ c es
Removed c es (some rest) = (rest ≡ others c es) × (length rest < length es)

behind-Removed :
    (c : Bytes) (e : Heard) (es : List Heard) (o : Option (List Heard))
    → equal_fold e.callsign c ≡ false
    → Removed c es o
    → Removed c (e ∷ es) (behind e o)
behind-Removed c e es none h r = (h, r)
behind-Removed c e es (some rest) h r = rw h (ap (◌∷◌ e) r.0, omega (arith, r.1))

without_heard-Removed :
    (c : Bytes) (es : List Heard) → EachOnce es → Removed c es (without_heard c es)
unfolding without_heard
without_heard-Removed c [] o = tt
without_heard-Removed c (e ∷ es) o = elim (Bool-cases (equal_fold e.callsign c)) [
  | inl h ↦ rw h (
    sym (others_same c e es h ∙ others-Differ c es (Differ-same e.callsign c es h o.0)),
    omega arith,
  )
  | inr h ↦ rw h (behind-Removed c e es (without_heard c es) h (without_heard-Removed c es o.1))
]

take_short {ℓ} : {A : Type ℓ} (n : ℕ) (xs : List A) → length xs ≤ n → take n xs ≡ xs
take_short zero [] h = refl
take_short zero (x ∷ xs) h = absurd (omega (arith, h))
take_short (suc n) [] h = refl
take_short (suc n) (x ∷ xs) h = ap (◌∷◌ x) (take_short n xs (omega (arith, h)))

put_first-take :
    (max : ℕ) (e : Heard) (es : List Heard) (o : Option (List Heard))
    → length es ≤ max
    → Removed e.callsign es o
    → put_first max e es o ≡ take max (e ∷ others e.callsign es)
put_first-take max e es none h r =
    ap (λ xs. take max (e ∷ xs)) (sym (others-Differ e.callsign es r))
put_first-take max e es (some rest) h r =
    rw (← r.0) (sym (take_short max (e ∷ rest) (omega (arith, h, r.1))))

-- Hearing a station, on a list that is within its size and names no station twice, puts the station in
-- front of the entries of all others, which keep their order, and cuts the list to its size.
pub add_heard_lem :
    (now : ℕ) (c : Bytes) (l : HeardList)
    → IsHeardList l
    → (add_heard now c l).entries
      ≡ take l.max
          (record { callsign = map to_upper c; time = now } ∷ others (map to_upper c) l.entries)
unfolding add_heard
add_heard_lem now c l h =
    put_first-take l.max (record { callsign = map to_upper c; time = now }) l.entries
      (without_heard (map to_upper c) l.entries) h.bounded
      (without_heard-Removed (map to_upper c) l.entries h.once)

Differ-others : (a c : Bytes) (es : List Heard) → Differ a es → Differ a (others c es)
Differ-others a c [] d = tt
Differ-others a c (e ∷ es) d = elim (Bool-cases (equal_fold e.callsign c)) [
  | inl h ↦ rw h (Differ-others a c es d.1)
  | inr h ↦ rw h (d.0, Differ-others a c es d.1)
]

Differ-self : (c : Bytes) (es : List Heard) → Differ c (others c es)
Differ-self c [] = tt
Differ-self c (e ∷ es) = elim (Bool-cases (equal_fold e.callsign c)) [
  | inl h ↦ rw h (Differ-self c es)
  | inr h ↦ rw h (h, Differ-self c es)
]

EachOnce-others : (c : Bytes) (es : List Heard) → EachOnce es → EachOnce (others c es)
EachOnce-others c [] o = tt
EachOnce-others c (e ∷ es) o = elim (Bool-cases (equal_fold e.callsign c)) [
  | inl h ↦ rw h (EachOnce-others c es o.1)
  | inr h ↦ rw h (Differ-others e.callsign c es o.0, EachOnce-others c es o.1)
]

take-All {ℓ κ} : {A : Type ℓ} (P : A → Type κ) (n : ℕ) (xs : List A) → All P xs → All P (take n xs)
take-All P zero xs a = tt
take-All P (suc n) [] a = tt
take-All P (suc n) (x ∷ xs) a = (a.0, take-All P n xs a.1)

EachOnce-take : (n : ℕ) (es : List Heard) → EachOnce es → EachOnce (take n es)
EachOnce-take zero es o = tt
EachOnce-take (suc n) [] o = tt
EachOnce-take (suc n) (e ∷ es) o =
    (take-All (λ d. equal_fold d.callsign e.callsign ≡ false) n es o.0, EachOnce-take n es o.1)

-- A list that is within its size and names no station twice stays so.
pub add_heard-IsHeardList :
    (now : ℕ) (c : Bytes) (l : HeardList) → IsHeardList l → IsHeardList (add_heard now c l)
unfolding add_heard
add_heard-IsHeardList now c l h =
    let e : Heard = record { callsign = map to_upper c; time = now } in
    let rest = others e.callsign l.entries in
    record {
      once = rw (add_heard_lem now c l h) (
          EachOnce-take l.max (e ∷ rest)
            (Differ-self e.callsign l.entries, EachOnce-others e.callsign l.entries h.once));
      bounded = rw (add_heard_lem now c l h) (omega (arith, length-take {0} l.max (e ∷ rest)));
    }
