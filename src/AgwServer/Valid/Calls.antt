-- ===== src/AgwServer/Valid/Calls.antt =====
-- agwpe/server.go: the registered callsigns and the table of the listeners.
use mathlib.Core.Path.{subst}
use go_ax.Base.{
  All, Bool-cases, Bytes, List, [], ap, arith, false, inl, inr, refl, true, ◌++◌, ◌||◌, ◌∷◌, ◌≡◌,
}
use go_ax.AgwServer.Listeners.{has_call, without_call, without_listener}
use go_ax.Address.{equal_bytes}
use go_ax.AgwServer.Lookup.{equal_bytes_refl}
use go_ax.Router.Table.{PortId}

pub equal_bytes-eq : (a b : Bytes) → equal_bytes a b ≡ true → a ≡ b
unfolding equal_bytes
equal_bytes-eq [] [] h = refl
equal_bytes-eq (x ∷ xs) (y ∷ ys) h = ground (arith, h, equal_bytes-eq xs ys)
equal_bytes-eq [] (y ∷ ys) h = cc
equal_bytes-eq (x ∷ xs) [] h = cc

abbrev pub Unrepeated : List Bytes → Type 0
Unrepeated [] = Unit
Unrepeated (c ∷ cs) = (has_call c cs ≡ false) × Unrepeated cs

abbrev pub Listed : List Bytes → Bytes × PortId → Type 0
Listed calls e = has_call e.0 calls ≡ true

-- No callsign is registered twice, and every listener's is registered.
pub record CallsOk (calls : List Bytes) (listeners : List (Bytes × PortId)) : Type 0 where
  pub unrepeated : Unrepeated calls
  pub all_listed : All (Listed calls) listeners

has_call-append :
    (c d : Bytes) (cs : List Bytes) → has_call c (cs ++ d ∷ []) ≡ (has_call c cs || equal_bytes d c)
unfolding has_call
has_call-append c d [] = ground arith
has_call-append c d (e ∷ cs) = ground (arith, has_call-append c d cs)

has_call-eq :
    (a b : Bytes) (cs : List Bytes) → equal_bytes a b ≡ true → has_call a cs ≡ has_call b cs
has_call-eq a b cs h = ap (λ c. has_call c cs) (equal_bytes-eq a b h)

equal_bytes-swap : (a b : Bytes) → equal_bytes a b ≡ true → equal_bytes b a ≡ true
equal_bytes-swap a b h =
    subst (λ c. equal_bytes c a ≡ true) (equal_bytes-eq a b h) (equal_bytes_refl a)

Unrepeated-append :
    (c : Bytes) (cs : List Bytes)
    → has_call c cs ≡ false
    → Unrepeated cs
    → Unrepeated (cs ++ c ∷ [])
unfolding has_call
Unrepeated-append c [] h u = (refl, tt)
Unrepeated-append c (d ∷ cs) h u = (
  ground (arith, has_call-append d c cs, equal_bytes-swap c d, h, u.0),
  Unrepeated-append c cs (ground (arith, h)) u.1,
)

has_call-without :
    (a c : Bytes) (cs : List Bytes) → has_call a cs ≡ false → has_call a (without_call c cs) ≡ false
unfolding has_call without_call
has_call-without a c [] h = refl
has_call-without a c (d ∷ cs) h = ground (arith, h, has_call-without a c cs)

Unrepeated-without : (c : Bytes) (cs : List Bytes) → Unrepeated cs → Unrepeated (without_call c cs)
unfolding without_call
Unrepeated-without c [] u = tt
Unrepeated-without c (d ∷ cs) u = elim (Bool-cases (equal_bytes d c)) [
  | inl same ↦ rw same u.1
  | inr other ↦ rw other (has_call-without d c cs u.0, Unrepeated-without c cs u.1)
]

-- A callsign that differs from the removed one stays registered.
still_listed :
    (a c : Bytes) (cs : List Bytes)
    → equal_bytes a c ≡ false
    → has_call a cs ≡ true
    → has_call a (without_call c cs) ≡ true
unfolding has_call without_call
still_listed a c [] n h = h
still_listed a c (d ∷ cs) n h = elim (Bool-cases (equal_bytes d c)) [
  | inl same ↦ rw same (elim (Bool-cases (equal_bytes d a)) [
    | inl hit ↦
        absurd
          (ground (arith, n, subst (λ b. equal_bytes b c ≡ true) (equal_bytes-eq d a hit) same))
    | inr miss ↦ ground (arith, h, miss)
  ])
  | inr other ↦ rw other (ground (arith, h, still_listed a c cs n))
]

All-Listed-append :
    (c : Bytes) (calls : List Bytes) (es : List (Bytes × PortId))
    → All (Listed calls) es
    → All (Listed (calls ++ c ∷ [])) es
All-Listed-append c calls [] a = tt
All-Listed-append c calls (e ∷ es) a =
    (ground (arith, has_call-append e.0 c calls, a.0), All-Listed-append c calls es a.1)

All-Listed-without :
    (c : Bytes) (calls : List Bytes) (es : List (Bytes × PortId))
    → All (Listed calls) es
    → All (Listed (without_call c calls)) (without_listener c es)
unfolding without_listener
All-Listed-without c calls [] a = tt
All-Listed-without c calls (e ∷ es) a = elim (Bool-cases (equal_bytes e.0 c)) [
  | inl same ↦ rw same (All-Listed-without c calls es a.1)
  | inr other ↦ rw other (still_listed e.0 c calls other a.0, All-Listed-without c calls es a.1)
]

All-without_listener :
    (P : Bytes × PortId → Type 0) (c : Bytes) (es : List (Bytes × PortId))
    → All P es
    → All P (without_listener c es)
unfolding without_listener
All-without_listener P c [] a = tt
All-without_listener P c (e ∷ es) a = elim (Bool-cases (equal_bytes e.0 c)) [
  | inl same ↦ rw same (All-without_listener P c es a.1)
  | inr other ↦ rw other (a.0, All-without_listener P c es a.1)
]

-- A new callsign is registered.
pub add_call-CallsOk :
    (c : Bytes) (calls : List Bytes) (es : List (Bytes × PortId))
    → has_call c calls ≡ false
    → CallsOk calls es
    → CallsOk (calls ++ c ∷ []) es
add_call-CallsOk c calls es new kept = record {
  unrepeated = Unrepeated-append c calls new kept.unrepeated;
  all_listed = All-Listed-append c calls es kept.all_listed;
}

pub has_call-last : (c : Bytes) (calls : List Bytes) → has_call c (calls ++ c ∷ []) ≡ true
has_call-last c calls = ground (arith, has_call-append c c calls, equal_bytes_refl c)

-- The listener of a registered callsign is put into the table.
pub add_listener-CallsOk :
    (c : Bytes) (id : PortId) (calls : List Bytes) (es : List (Bytes × PortId))
    → has_call c calls ≡ true
    → CallsOk calls es
    → CallsOk calls ((c, id) ∷ without_listener c es)
add_listener-CallsOk c id calls es there kept = record {
  unrepeated = kept.unrepeated;
  all_listed = (there, All-without_listener (Listed calls) c es kept.all_listed);
}

-- A callsign and its listener go together.
pub without-CallsOk :
    (c : Bytes) (calls : List Bytes) (es : List (Bytes × PortId))
    → CallsOk calls es
    → CallsOk (without_call c calls) (without_listener c es)
without-CallsOk c calls es kept = record {
  unrepeated = Unrepeated-without c calls kept.unrepeated;
  all_listed = All-Listed-without c calls es kept.all_listed;
}
