-- ===== src/Bbs/Granted/Right.antt =====
-- cmd/bbs/bbs/sysop.go: the responses that `verifyResponse` takes.
use mathlib.Core.Path.{subst}
use go_ax.Base.{
  ==_iff, Bool, Bool-cases, Bytes, Option, [], ap, arith, false, if◌then◌else◌, inl, inr, length,
  none, refl, some, true, ℕ, ◌+◌, ◌==◌, ◌↔◌, ◌∷◌, ◌≡◌, ◌≤◌,
}
use go_ax.Bbs.Sysop.{all_used, has_all, kept_char, required, use_char, verify_response}
use go_ax.Bbs.{SysopState}

abbrev one_if : Bool → ℕ
one_if c = if c then 1 else 0

-- How often a character stands in a text.
abbrev pub occurrences : ℕ → Bytes → ℕ
occurrences c [] = 0
occurrences c (b ∷ bs) = one_if (b == c) + occurrences c bs

-- What the use of a character makes of the counts.
abbrev Uses : ℕ → Bytes → Option Bytes → Type 0
Uses c bs none = occurrences c bs ≡ 0
Uses c bs (some rest) = (d : ℕ) → occurrences d bs ≡ one_if (c == d) + occurrences d rest

kept_char-Uses :
    (c b : ℕ) (bs : Bytes) (o : Option Bytes)
    → (b == c) ≡ false
    → Uses c bs o
    → Uses c (b ∷ bs) (kept_char b o)
kept_char-Uses c b bs none h u = simp h (omega (arith, u))
kept_char-Uses c b bs (some rest) h u = λ d. omega (arith, u d)

use_char-Uses : (c : ℕ) (bs : Bytes) → Uses c bs (use_char c bs)
unfolding use_char
use_char-Uses c [] = refl
use_char-Uses c (b ∷ bs) = elim (Bool-cases (b == c)) [
  | inl hit ↦ simp hit (λ d. ap (λ a. one_if (a == d) + occurrences d bs) ((==_iff b c).0 hit))
  | inr miss ↦ simp miss (kept_char-Uses c b bs (use_char c bs) miss (use_char-Uses c bs))
]

all_used-none : (cs : Bytes) → all_used cs none ≡ false
unfolding all_used
all_used-none [] = refl
all_used-none (c ∷ cs) = refl

-- Every character stands in the reply as often as it is required, or more often.
abbrev pub Covers : Bytes → Bytes → Type 0
Covers cs reply = (d : ℕ) → occurrences d cs ≤ occurrences d reply

used_then :
    (c : ℕ) (cs reply : Bytes) (o : Option Bytes)
    → Uses c reply o
    → ((rest : Bytes) → (all_used cs (some rest) ≡ true) ↔ Covers cs rest)
    → (all_used cs o ≡ true) ↔ Covers (c ∷ cs) reply
used_then c cs reply none u again = (
  λ h. absurd (cc (h, all_used-none cs)),
  λ k. let same : (c == c) ≡ true = ground arith in absurd (omega (arith, simp same at (k c), u)),
)
used_then c cs reply (some rest) u again = (
  λ h d. omega (arith, u d, (again rest).0 h d),
  λ k. (again rest).1 (λ d. omega (arith, u d, k d)),
)

all_used_iff : (cs reply : Bytes) → (all_used cs (some reply) ≡ true) ↔ Covers cs reply
unfolding all_used
all_used_iff [] reply = (λ h d. omega arith, λ k. refl)
all_used_iff (c ∷ cs) reply =
    used_then c cs reply (use_char c reply) (use_char-Uses c reply) (all_used_iff cs)

has_all_iff :
    (o : Option Bytes) (reply : Bytes)
    → (has_all o reply ≡ true) ↔ ((cs : Bytes) × (o ≡ some cs) × Covers cs reply)
has_all_iff none reply = (λ h. absurd (cc h), λ k. absurd (cc (k.1)))
has_all_iff (some cs) reply = (
  λ h. (cs, refl, (all_used_iff cs reply).0 h),
  λ k.
      let same : k.0 ≡ cs = cc (k.1) in
      (all_used_iff cs reply).1 (subst (λ a. Covers a reply) same k.2),
)

test_then : (c u : Bool) → (if c then u else false) ≡ true → (c ≡ true) × (u ≡ true)
test_then true u h = (refl, h)
test_then false u h = absurd (cc h)

-- A reply is right just when it has six characters, the places asked for lie in the secret, and every
-- character stands in the reply at least as often as it stands at these places.
pub verify_response_lem :
    (reply : Bytes) (s : SysopState)
    → (verify_response reply s ≡ true) ↔ (
        (length reply ≡ 6)
        × (cs : Bytes) × (required s.secret s.indices ≡ some cs)
        × Covers cs reply)
unfolding verify_response
verify_response_lem reply s = (
  λ h.
      let p = test_then (length reply == 6) (has_all (required s.secret s.indices) reply) h in
      let k = (has_all_iff (required s.secret s.indices) reply).0 p.1 in
      ((==_iff (length reply) 6).0 p.0, k.0, k.1, k.2),
  λ k.
      simp ((==_iff (length reply) 6).1 k.0)
        ((has_all_iff (required s.secret s.indices) reply).1 (k.1, k.2, k.3)),
)
