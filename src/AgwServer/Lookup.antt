-- ===== src/AgwServer/Lookup.antt =====
-- agwpe/server.go: what the table of the outgoing connections promises.
use go_ax.Base.{
  All, Bool-cases, Bytes, List, Option, [], ap, arith, false, inl, inr, length, none, refl, some,
  suc, true, ℕ, ◌+◌, ◌<◌, ◌∷◌, ◌≡◌, ◌≤◌,
}
use go_ax.AgwServer.Slots.{
  alloc_in, find_in, freed, in_use_count, next_place, one_further, serves, slot_at, taken,
  update_at,
}
use go_ax.AgwServer.{ConnSlot}
use go_ax.Address.{equal_bytes}

-- A slot that is not in use holds nothing but, it may be, a port.
abbrev pub IsClean : ConnSlot → Type 0
IsClean x = x.in_use ≡ false → freed x ≡ x

pub equal_bytes_refl : (a : Bytes) → equal_bytes a a ≡ true
unfolding equal_bytes
equal_bytes_refl [] = refl
equal_bytes_refl (x ∷ xs) = ground (arith, equal_bytes_refl xs)

abbrev pub OneMore : List ConnSlot → Option (ℕ × List ConnSlot) → Type 0
OneMore xs none = in_use_count xs ≡ length xs
OneMore xs (some (i, ys)) =
    (in_use_count ys ≡ in_use_count xs + 1) × (length ys ≡ length xs) × (i < length xs)

one_further-OneMore :
    (x : ConnSlot) (xs : List ConnSlot) (o : Option (ℕ × List ConnSlot))
    → x.in_use ≡ true
    → OneMore xs o
    → OneMore (x ∷ xs) (one_further x o)
unfolding in_use_count
one_further-OneMore x xs none h m = ground (arith, h, m)
one_further-OneMore x xs (some (i, ys)) h m = ground (arith, h, m.0, m.1, m.2)

-- Allocating a slot takes one more into use and keeps the size of the table; it fails only when
-- every slot is in use.
pub alloc_in-OneMore :
    (local remote : Bytes) (xs : List ConnSlot) → OneMore xs (alloc_in local remote xs)
unfolding alloc_in in_use_count
alloc_in-OneMore local remote [] = refl
alloc_in-OneMore local remote (x ∷ xs) = elim (Bool-cases x.in_use) [
  | inl used ↦
      simp used (
        one_further-OneMore x xs (alloc_in local remote xs) used (alloc_in-OneMore local remote xs))
  | inr free ↦ simp free (omega arith, refl, omega arith)
]

-- Freeing the slot that was allocated gives the table back.
abbrev pub GivesBack : List ConnSlot → Option (ℕ × List ConnSlot) → Type 0
GivesBack xs none = Unit
GivesBack xs (some (i, ys)) = update_at i freed ys ≡ xs

one_further-GivesBack :
    (x : ConnSlot) (xs : List ConnSlot) (o : Option (ℕ × List ConnSlot))
    → GivesBack xs o
    → GivesBack (x ∷ xs) (one_further x o)
unfolding update_at
one_further-GivesBack x xs none g = g
one_further-GivesBack x xs (some (i, ys)) g = ap (◌∷◌ x) g

pub alloc_in-GivesBack :
    (local remote : Bytes) (xs : List ConnSlot)
    → All IsClean xs
    → GivesBack xs (alloc_in local remote xs)
unfolding alloc_in update_at
alloc_in-GivesBack local remote [] c = tt
alloc_in-GivesBack local remote (x ∷ xs) c = elim (Bool-cases x.in_use) [
  | inl used ↦ simp used (
      one_further-GivesBack x xs (alloc_in local remote xs)
        (alloc_in-GivesBack local remote xs c.1))
  | inr free ↦ simp free (ap (λ y. y ∷ xs) (c.0 free))
]

-- A place that is found holds a slot that is in use and serves the pair.
abbrev Serving : Bytes → Bytes → List ConnSlot → Option ℕ → Type 0
Serving local remote xs none = All (λ x. serves local remote x ≡ false) xs
Serving local remote xs (some i) =
    (x : ConnSlot) × (slot_at i xs ≡ some x) × (serves local remote x ≡ true)

next_place-Serving :
    (local remote : Bytes) (x : ConnSlot) (xs : List ConnSlot) (o : Option ℕ)
    → serves local remote x ≡ false
    → Serving local remote xs o
    → Serving local remote (x ∷ xs) (next_place o)
next_place-Serving local remote x xs none h s = (h, s)
next_place-Serving local remote x xs (some i) h s = s

-- Looking a pair of callsigns up finds a slot that serves it, or no slot does.
pub find_in-Serving :
    (local remote : Bytes) (xs : List ConnSlot) → Serving local remote xs (find_in local remote xs)
unfolding find_in
find_in-Serving local remote [] = tt
find_in-Serving local remote (x ∷ xs) = elim (Bool-cases (serves local remote x)) [
  | inl h ↦ rw h (x, refl, h)
  | inr h ↦ rw h (
      next_place-Serving local remote x xs (find_in local remote xs) h
        (find_in-Serving local remote xs))
]

-- A pair that was just given a slot is found.
abbrev Found : Bytes → Bytes → Option (ℕ × List ConnSlot) → Type 0
Found local remote none = Unit
Found local remote (some (i, ys)) = (k : ℕ) × (find_in local remote ys ≡ some k) × (k ≤ i)

taken-serves :
    (local remote : Bytes) (x : ConnSlot) → serves local remote (taken local remote x) ≡ true
taken-serves local remote x = ground (arith, equal_bytes_refl local, equal_bytes_refl remote)

one_further-Found :
    (local remote : Bytes) (x : ConnSlot) (o : Option (ℕ × List ConnSlot))
    → Found local remote o
    → Found local remote (one_further x o)
unfolding find_in
one_further-Found local remote x none f = f
one_further-Found local remote x (some (i, ys)) (k, e, h) =
    elim (Bool-cases (serves local remote x)) [
      | inl here ↦ (0, rw here refl, omega arith)
      | inr there ↦ (suc k, rw (there, e) refl, omega arith)
    ]

alloc_in-Found :
    (local remote : Bytes) (xs : List ConnSlot) → Found local remote (alloc_in local remote xs)
unfolding alloc_in find_in
alloc_in-Found local remote [] = tt
alloc_in-Found local remote (x ∷ xs) = elim (Bool-cases x.in_use) [
  | inl used ↦
      simp used (
        one_further-Found local remote x (alloc_in local remote xs)
          (alloc_in-Found local remote xs))
  | inr free ↦ simp free (0, rw (taken-serves local remote x) refl, omega arith)
]

-- What `allocSlot` promises of a table.
pub record IsAllocated (local remote : Bytes) (xs : List ConnSlot) (o : Option (ℕ × List ConnSlot))
    : Type 0 where
  pub one_more : OneMore xs o
  pub gives_back : GivesBack xs o
  pub found : Found local remote o

-- In a table whose free slots are blank but for their ports, allocating a slot for two callsigns fails
-- only when every slot is in use. Else it takes one more slot into use, keeps the size of the table,
-- makes the pair be found at its place or before it, and freeing the slot gives the first table back.
pub alloc_in-IsAllocated :
    (local remote : Bytes) (xs : List ConnSlot)
    → All IsClean xs
    → IsAllocated local remote xs (alloc_in local remote xs)
alloc_in-IsAllocated local remote xs c = record {
  one_more = alloc_in-OneMore local remote xs;
  gives_back = alloc_in-GivesBack local remote xs c;
  found = alloc_in-Found local remote xs;
}
