-- ===== src/Base/Bits.antt =====
-- Single bits of a byte, written with `/` and `%` so that arithmetic reads them, and the tables that
-- tie them to the native bit operations.
use Prim.Native.Nat.{bit_and, bit_or, suc, zero, ℕ, ◌%◌, ◌*◌, ◌+◌, ◌-◌, ◌/◌, ◌<◌, ◌^◌}
use mathlib.Core.Path.{refl, ◌≡◌}
use mathlib.Core.Bool.{Bool, true, ◌&&◌}
use native.Mathlib.Omega.{arith}
use go_ax.Base.Tests.{==_iff, if◌then◌else◌, ◌==◌}

-- `b & (1 << k) != 0`
abbrev pub test_bit : ℕ → ℕ → Bool
test_bit k b = (b / 2 ^ k) % 2 == 1

-- `b | (1 << k)`
abbrev pub set_bit : ℕ → ℕ → ℕ
set_bit k b = if test_bit k b then b else b + 2 ^ k

-- `b &^ (1 << k)`
abbrev pub clear_bit : ℕ → ℕ → ℕ
clear_bit k b = if test_bit k b then b - 2 ^ k else b

-- `b | (1 << k)` under a condition
abbrev pub set_bit_if : Bool → ℕ → ℕ → ℕ
set_bit_if c k b = if c then set_bit k b else b

-- The test holds of every number below the bound.
unfoldable pub all_below : ℕ → (ℕ → Bool) → Bool
all_below zero test = true
all_below (suc bound) test = all_below bound test && test bound

pub all_below_sound :
    (bound : ℕ) (test : ℕ → Bool) (k : ℕ) → all_below bound test ≡ true → k < bound → test k ≡ true
unfolding all_below
all_below_sound zero test k passed small = absurd (omega arith)
all_below_sound (suc bound) test k passed small = ground (arith, all_below_sound bound test k)

-- The masks of the source, over every byte.
mask_table :
    all_below 256 (λ b.
      bit_and b 0xEF == clear_bit 4 b
      && bit_or b 0x10 == set_bit 4 b
      && bit_or b 0x80 == set_bit 7 b
      && bit_and b 0x7F == clear_bit 7 b
      && bit_or b 0x01 == set_bit 0 b
      && bit_and b 0xFE == clear_bit 0 b
      && bit_and b 0x0F == b % 16
      && bit_and b 0x07 == b % 8)
    ≡ true
unfolding all_below
mask_table = refl

-- `(port << 4) | cmd`, for a port and a command of four bits each.
nibble_table : all_below 16 (λ p. all_below 16 (λ c. bit_or (p * 16 % 256) c == p * 16 + c)) ≡ true
unfolding all_below
nibble_table = refl

pub bit_or_nibbles : (p c : ℕ) → p < 16 → c < 16 → bit_or (p * 16 % 256) c ≡ p * 16 + c
bit_or_nibbles p c hp hc = (==_iff _ _).0 (
    all_below_sound 16 (λ d. bit_or (p * 16 % 256) d == p * 16 + d) c
      (all_below_sound 16 (λ q. all_below 16 (λ d. bit_or (q * 16 % 256) d == q * 16 + d)) p
        nibble_table hp)
      hc)
