-- ===== src/Address/Text.antt =====
-- ax25/address.go: the text form of an address, and its reading.
use mathlib.Core.List.{map-append}
use go_ax.Base.{
  All, All-append, Bool, Bool-cases, Bytes, Option, [], ap, append-nil, arith, false, inl, inr,
  length, ltb, map, none, refl, some, suc, true, zero, ℕ, ◌%◌, ◌++◌, ◌+◌, ◌/◌, ◌<◌, ◌==◌, ◌∙◌, ◌∷◌,
  ◌≡◌, ◌≢◌, ◌≤◌,
}
use go_ax.Types.{>>=-eq-ok, Address, ok}
use go_ax.Address.{
  all_call_chars, check_callsign, check_ssid, cut_dash, decimal, is_call_char, parse_address,
  parse_uint8, parse_upper, split_ssid, string, to_upper,
}
use go_ax.Address.Wire.{IsStation, map-to_upper}
use go_ax.Base.Bits.{all_below, all_below_sound}

-- What `parse_address` may return: a station with a callsign, and neither flag set.
pub record IsPlain (a : Address) : Type 0 where
  pub station : IsStation a
  pub named : 0 < length a.callsign
  pub unrepeated : a.has_been_repeated ≡ false
  pub inner : a.is_last ≡ false

to_upper_twice : (c : ℕ) → to_upper (to_upper c) ≡ to_upper c
unfolding to_upper
to_upper_twice c = ground arith

map-to_upper_twice : (s : Bytes) → map to_upper (map to_upper s) ≡ map to_upper s
map-to_upper_twice [] = refl
map-to_upper_twice (c ∷ cs) = cc (to_upper_twice c, map-to_upper_twice cs)

-- Reading does not depend on the case of the letters.
pub parse_address-map-to_upper : (s : Bytes) → parse_address (map to_upper s) ≡ parse_address s
unfolding parse_address
parse_address-map-to_upper [] = refl
parse_address-map-to_upper (c ∷ cs) = ap parse_upper (map-to_upper_twice (c ∷ cs))

all_call_chars-All : (cs : Bytes) → all_call_chars cs ≡ true → All (λ c. is_call_char c ≡ true) cs
unfolding all_call_chars
all_call_chars-All [] h = tt
all_call_chars-All (c ∷ cs) h = (ground arith, all_call_chars-All cs (ground arith))

All-all_call_chars : (cs : Bytes) → All (λ c. is_call_char c ≡ true) cs → all_call_chars cs ≡ true
unfolding all_call_chars
All-all_call_chars [] h = refl
All-all_call_chars (c ∷ cs) h = ground (arith, All-all_call_chars cs h.1)

check_callsign-IsPlain :
    (call : Bytes) (n : ℕ) {a : Address} → n < 16 → check_callsign call n ≡ ok a → IsPlain a
unfolding check_callsign
check_callsign-IsPlain call n small h = ground (arith, all_call_chars-All call)

check_ssid-small :
    (call : Bytes) (o : Option ℕ) {r : Bytes × ℕ} → check_ssid call o ≡ ok r → r.1 < 16
check_ssid-small call none h = cc
check_ssid-small call (some n) h = ground arith

split_ssid-small :
    (s : Bytes) (o : Option (Bytes × Bytes)) {r : Bytes × ℕ} → split_ssid s o ≡ ok r → r.1 < 16
unfolding split_ssid
split_ssid-small s none h = ground arith
split_ssid-small s (some (call, digits)) h = check_ssid-small call (parse_uint8 digits) h

parse_upper-IsPlain : (s : Bytes) {a : Address} → parse_upper s ≡ ok a → IsPlain a
unfolding parse_upper
parse_upper-IsPlain s h =
    let (r, split, checked) =
      >>=-eq-ok (split_ssid s (cut_dash s)) (λ r. check_callsign r.0 r.1) h in
    check_callsign-IsPlain r.0 r.1 (split_ssid-small s (cut_dash s) split) checked

-- Whatever is read from a text is a station with one to six letters or digits, upper case, and an
-- SSID below 16, with both flags clear.
pub parse_address-IsPlain : (s : Bytes) {a : Address} → parse_address s ≡ ok a → IsPlain a
unfolding parse_address
parse_address-IsPlain [] h = cc
parse_address-IsPlain (c ∷ cs) h = parse_upper-IsPlain (map to_upper (c ∷ cs)) h

cut_dash-none : (cs : Bytes) → All (λ c. is_call_char c ≡ true) cs → cut_dash cs ≡ none
unfolding cut_dash
cut_dash-none [] h = refl
cut_dash-none (c ∷ cs) h = ground (arith, cut_dash-none cs h.1)

cut_dash-some :
    (cs ds : Bytes)
    → All (λ c. is_call_char c ≡ true) cs
    → cut_dash (cs ++ (b'-' ∷ ds)) ≡ some (cs, ds)
unfolding cut_dash
cut_dash-some [] ds h = refl
cut_dash-some (c ∷ cs) ds h = ground (arith, cut_dash-some cs ds h.1)

pub decimal-digits : (f n : ℕ) → All (λ c. is_call_char c ≡ true) (decimal f n)
unfolding decimal
decimal-digits zero n = tt
decimal-digits (suc f) n = elim (Bool-cases (ltb n 10)) [
  | inl small ↦ rw small (ground arith, tt)
  | inr large ↦ rw large (
      All-append (λ c. is_call_char c ≡ true) (decimal f (n / 10)) ((b'0' + n % 10) ∷ [])
        (decimal-digits f (n / 10)) (ground arith, tt))
]

abbrev reads_back : ℕ → Option ℕ → Bool
reads_back n none = false
reads_back n (some m) = m == n

decimal_table : all_below 256 (λ n. reads_back n (parse_uint8 (decimal 3 n))) ≡ true
unfolding all_below parse_uint8 decimal
decimal_table = refl

reads_back-some : (n : ℕ) (o : Option ℕ) → reads_back n o ≡ true → o ≡ some n
reads_back-some n none h = cc
reads_back-some n (some m) h = ground arith

parse_uint8-decimal : (n : ℕ) → n < 256 → parse_uint8 (decimal 3 n) ≡ some n
parse_uint8-decimal n h =
    reads_back-some n (parse_uint8 (decimal 3 n))
      (all_below_sound 256 (λ n. reads_back n (parse_uint8 (decimal 3 n))) n decimal_table h)

named_cases :
    (call : Bytes) (n : ℕ)
    → 0 < length call
    → length call ≤ 6
    → All (λ c. is_call_char c ≡ true) call
    → check_callsign call n
      ≡ ok (record { callsign = call; ssid = n; has_been_repeated = false; is_last = false })
unfolding check_callsign
named_cases call n pos fits chars = ground (arith, All-all_call_chars call chars)

parse_upper-plain :
    (call : Bytes)
    → 0 < length call
    → length call ≤ 6
    → All (λ c. is_call_char c ≡ true) call
    → parse_upper call
      ≡ ok (record { callsign = call; ssid = 0; has_been_repeated = false; is_last = false })
unfolding parse_upper split_ssid
parse_upper-plain call pos fits chars =
    rw (cut_dash-none call chars) (named_cases call 0 pos fits chars)

parse_upper-ssid :
    (call : Bytes) (n : ℕ)
    → 0 < length call
    → length call ≤ 6
    → All (λ c. is_call_char c ≡ true) call
    → n < 16
    → parse_upper (call ++ (b'-' ∷ decimal 3 n))
      ≡ ok (record { callsign = call; ssid = n; has_been_repeated = false; is_last = false })
unfolding parse_upper split_ssid
parse_upper-ssid call n pos fits chars small =
    rw (cut_dash-some call (decimal 3 n) chars, parse_uint8-decimal n (omega arith))
      (ground (arith, named_cases call n pos fits chars))

map-to_upper-string : (a : Address) → IsPlain a → map to_upper (string a) ≡ string a
unfolding string
map-to_upper-string a p = elim (Bool-cases (a.ssid == 0)) [
  | inl bare ↦ rw bare (map-to_upper a.callsign p.station.chars)
  | inr numbered ↦
      rw
        (
          numbered,
          map-append,
          map-to_upper a.callsign p.station.chars,
          map-to_upper (decimal 3 a.ssid) (decimal-digits 3 a.ssid),
        )
        (unfold to_upper in refl)
]

parse_upper-string : (a : Address) → IsPlain a → parse_upper (string a) ≡ ok a
unfolding string
parse_upper-string a p = elim (Bool-cases (a.ssid == 0)) [
  | inl bare ↦
      rw bare (ground (arith, parse_upper-plain a.callsign p.named p.station.fits p.station.chars))
  | inr numbered ↦ rw numbered (
      ground (
        arith,
        parse_upper-ssid a.callsign a.ssid p.named p.station.fits p.station.chars
            p.station.ssid_small,
      ))
]

parse_address-parse_upper : (s : Bytes) → s ≢ [] → parse_address s ≡ parse_upper (map to_upper s)
unfolding parse_address
parse_address-parse_upper [] h = absurd (h refl)
parse_address-parse_upper (c ∷ cs) h = refl

append-ne-nil : (xs ys : Bytes) → 0 < length xs → xs ++ ys ≢ []
append-ne-nil [] ys h = absurd (omega arith)
append-ne-nil (x ∷ xs) ys h = λ e. cc

ne-nil_of_length : (xs : Bytes) → 0 < length xs → xs ≢ []
ne-nil_of_length xs h = rw append-nil at (append-ne-nil xs [] h)

string-ne-nil : (a : Address) → 0 < length a.callsign → string a ≢ []
unfolding string
string-ne-nil a h =
    ground
      (arith, append-ne-nil a.callsign (b'-' ∷ decimal 3 a.ssid) h, ne-nil_of_length a.callsign h)

-- Printing a plain address, a named station with both flags clear, and reading the text gives the
-- address back.
pub parse_address-string : (a : Address) → IsPlain a → parse_address (string a) ≡ ok a
parse_address-string a p =
    parse_address-parse_upper (string a) (string-ne-nil a p.named)
    ∙ rw (map-to_upper-string a p) (parse_upper-string a p)
