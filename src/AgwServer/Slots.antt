-- ===== src/AgwServer/Slots.antt =====
-- agwpe/server.go: the table of the outgoing connections, `allocSlot`, `freeSlot`, `findSlot` and
-- `disconnectAllSlots`. A slot is known by its place in the table.
use go_ax.Base.{
  Bool, Bytes, List, Option, [], false, if◌then◌else◌, length, ltb, none, not, some, suc, true,
  zero, ℕ, ◌&&◌, ◌+◌, ◌∷◌,
}
use go_ax.AgwServer.{ConnSlot}
use go_ax.Address.{equal_bytes}

unfoldable pub update_at {ℓ} : {A : Type ℓ} → ℕ → (A → A) → List A → List A
update_at i f [] = []
update_at zero f (x ∷ xs) = f x ∷ xs
update_at (suc i) f (x ∷ xs) = x ∷ update_at i f xs

abbrev pub slot_at : ℕ → List ConnSlot → Option ConnSlot
slot_at i [] = none
slot_at zero (x ∷ xs) = some x
slot_at (suc i) (x ∷ xs) = slot_at i xs

abbrev pub taken : Bytes → Bytes → ConnSlot → ConnSlot
taken local remote x = record x {
  in_use = true;
  local_call = local;
  remote_call = remote;
  conn = none;
}

abbrev pub one_further : ConnSlot → Option (ℕ × List ConnSlot) → Option (ℕ × List ConnSlot)
one_further x none = none
one_further x (some (i, xs)) = some (suc i, x ∷ xs)

-- The loop of `allocSlot`.
unfoldable pub alloc_in : Bytes → Bytes → List ConnSlot → Option (ℕ × List ConnSlot)
alloc_in local remote [] = none
alloc_in local remote (x ∷ xs) =
    let later = alloc_in local remote xs in
    if not x.in_use then some (0, taken local remote x ∷ xs) else one_further x later

-- What `freeSlot` makes of a slot. The port of the router stays in it.
abbrev pub freed : ConnSlot → ConnSlot
freed x = record x { in_use = false; local_call = []; remote_call = []; conn = none }

abbrev pub serves : Bytes → Bytes → ConnSlot → Bool
serves local remote x =
    x.in_use && equal_bytes x.local_call local && equal_bytes x.remote_call remote

abbrev pub next_place : Option ℕ → Option ℕ
next_place none = none
next_place (some i) = some (suc i)

-- The loop of `findSlot`.
unfoldable pub find_in : Bytes → Bytes → List ConnSlot → Option ℕ
find_in local remote [] = none
find_in local remote (x ∷ xs) =
    let later = next_place (find_in local remote xs) in
    if serves local remote x then some 0 else later

-- `slotIndex`
abbrev pub slot_index : ℕ → List ConnSlot → Option ℕ
slot_index i xs = if ltb i (length xs) then some i else none

-- The slots that are in use.
unfoldable pub in_use_count : List ConnSlot → ℕ
in_use_count [] = 0
in_use_count (x ∷ xs) = (if x.in_use then 1 else 0) + in_use_count xs
