-- ===== src/Address.antt =====
-- ax25/address.go: station addresses, their wire form and their text form. Texts are ASCII, so that
-- the upper-casing and the case folding of the strings package work byte by byte.
mod Tests
pub mod Wire
pub mod Text
use go_ax.Base.{
  Bool, Bytes, Option, [], false, get_or, if◌then◌else◌, leb, length, ltb, map, none, not, some,
  suc, take, true, zero, ℕ, ◌%◌, ◌&&◌, ◌*◌, ◌++◌, ◌+◌, ◌-◌, ◌/◌, ◌==◌, ◌||◌, ◌∷◌,
}
use go_ax.Base.Bits.{set_bit_if, test_bit}
use go_ax.Types.{
  Address, Result, address_len, callsign_empty, callsign_too_long, err, invalid_callsign,
  max_callsign, ok, short_address_data, ssid_out_of_range, ◌>>=◌,
}

-- `strings.ToUpper`, on one byte.
unfoldable pub to_upper : ℕ → ℕ
to_upper c = if leb b'a' c && leb c b'z' then c - 32 else c

-- The loop that fills the callsign bytes, with the rounds left: `call[i] << 1`, or a space.
unfoldable pub encode_call : ℕ → Bytes → Bytes
encode_call zero call = []
encode_call (suc n) [] = (b' ' * 2) ∷ encode_call n []
encode_call (suc n) (c ∷ cs) = (c * 2 % 256) ∷ encode_call n cs

unfoldable pub encode_ssid : Address → ℕ
encode_ssid a = set_bit_if a.is_last 0 (set_bit_if a.has_been_repeated 7 (a.ssid % 16 * 2))

unfoldable pub encode : Address → Bytes
unfolding encode_call encode_ssid to_upper
encode a = encode_call 6 (map to_upper a.callsign) ++ (encode_ssid a ∷ [])

abbrev pub trim_cons : ℕ → Bytes → Bytes
trim_cons c [] = if c == b' ' then [] else c ∷ []
trim_cons c (x ∷ xs) = c ∷ x ∷ xs

-- `strings.TrimRight(s, " ")`.
unfoldable pub trim_right : Bytes → Bytes
trim_right [] = []
trim_right (c ∷ cs) = trim_cons c (trim_right cs)

unfoldable pub decode_address : Bytes → Result Address
unfolding trim_right
decode_address b =
    if ltb (length b) address_len
    then err short_address_data
    else ok (record {
      callsign = trim_right (map (λ c. c / 2) (take 6 b));
      ssid = get_or b 6 0 / 2 % 16;
      has_been_repeated = test_bit 7 (get_or b 6 0);
      is_last = test_bit 0 (get_or b 6 0);
    })

abbrev pub is_digit : ℕ → Bool
is_digit c = leb b'0' c && leb c b'9'

abbrev pub is_call_char : ℕ → Bool
is_call_char c = (leb b'A' c && leb c b'Z') || is_digit c

unfoldable pub all_call_chars : Bytes → Bool
all_call_chars [] = true
all_call_chars (c ∷ cs) = is_call_char c && all_call_chars cs

-- `strings.IndexByte(s, '-')` with the two slices that are cut there.
unfoldable pub cut_dash : Bytes → Option (Bytes × Bytes)
cut_dash [] = none
cut_dash (c ∷ cs) =
    if c == b'-'
    then some ([], cs)
    else elim (cut_dash cs) [ none ↦ none | some (before, after) ↦ some (c ∷ before, after) ]

-- `strconv.ParseUint(s, 10, 8)`: digits only, and no value above 255.
unfoldable pub parse_digits : ℕ → Bytes → Option ℕ
parse_digits n [] = some n
parse_digits n (c ∷ cs) =
    let n' = n * 10 + (c - b'0') in
    let rest = parse_digits n' cs in
    if is_digit c then (if ltb 255 n' then none else rest) else none

unfoldable pub parse_uint8 : Bytes → Option ℕ
unfolding parse_digits
parse_uint8 [] = none
parse_uint8 (c ∷ cs) = parse_digits 0 (c ∷ cs)

abbrev pub check_ssid : Bytes → Option ℕ → Result (Bytes × ℕ)
check_ssid call none = err ssid_out_of_range
check_ssid call (some n) = if ltb 15 n then err ssid_out_of_range else ok (call, n)

unfoldable pub split_ssid : Bytes → Option (Bytes × Bytes) → Result (Bytes × ℕ)
unfolding parse_uint8
split_ssid s none = ok (s, 0)
split_ssid s (some (call, digits)) = check_ssid call (parse_uint8 digits)

unfoldable pub check_callsign : Bytes → ℕ → Result Address
unfolding all_call_chars
check_callsign call n =
    if length call == 0
    then err callsign_empty
    else if ltb max_callsign (length call)
    then err callsign_too_long
    else if not (all_call_chars call)
    then err invalid_callsign
    else ok (record { callsign = call; ssid = n; has_been_repeated = false; is_last = false })

unfoldable pub parse_upper : Bytes → Result Address
unfolding cut_dash split_ssid check_callsign
parse_upper s = split_ssid s (cut_dash s) >>= λ r. check_callsign r.0 r.1

unfoldable pub parse_address : Bytes → Result Address
unfolding to_upper parse_upper
parse_address [] = err callsign_empty
parse_address (c ∷ cs) = parse_upper (map to_upper (c ∷ cs))

-- `%d` of a uint8, which has at most three digits.
unfoldable pub decimal : ℕ → ℕ → Bytes
decimal zero n = []
decimal (suc f) n =
    let front = decimal f (n / 10) in
    if ltb n 10 then (b'0' + n) ∷ [] else front ++ ((b'0' + n % 10) ∷ [])

unfoldable pub string : Address → Bytes
unfolding decimal
string a = if a.ssid == 0 then a.callsign else a.callsign ++ (b'-' ∷ decimal 3 a.ssid)

unfoldable pub equal_bytes : Bytes → Bytes → Bool
equal_bytes [] [] = true
equal_bytes (x ∷ xs) (y ∷ ys) = x == y && equal_bytes xs ys
equal_bytes _ _ = false

-- `strings.EqualFold` compares under one case.
unfoldable pub equal : Address → Address → Bool
unfolding equal_bytes to_upper
equal a b = equal_bytes (map to_upper a.callsign) (map to_upper b.callsign) && a.ssid == b.ssid
