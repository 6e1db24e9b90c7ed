-- ===== src/Bbs/Text.antt =====
-- cmd/bbs: the texts that a station types and reads.
use go_ax.Base.{
  Bool, Bytes, Option, [], false, if◌then◌else◌, leb, length, ltb, map, none, replicate, some, suc,
  ℕ, ◌&&◌, ◌*◌, ◌++◌, ◌+◌, ◌-◌, ◌==◌, ◌^◌, ◌∷◌,
}
use go_ax.Beacon.{trim_end, trim_start}
use go_ax.Address.{is_digit, to_upper}

-- `strings.TrimSpace`
abbrev pub trim_space : Bytes → Bytes
trim_space s = trim_end (trim_start s)

unfoldable pub to_lower : ℕ → ℕ
to_lower c = if leb b'A' c && leb c b'Z' then c + 32 else c

-- A word and the trimmed rest of the line, as `strings.SplitN(line, " ", 2)` gives them.
abbrev pub word_first : ℕ → Bytes × Bytes → Bytes × Bytes
word_first c r = (c ∷ r.0, r.1)

unfoldable pub cut_space : Bytes → Bytes × Bytes
cut_space [] = ([], [])
cut_space (c ∷ cs) = let r = cut_space cs in if c == b' ' then ([], cs) else word_first c r

abbrev pub command_parts : Bytes → Bytes × Bytes
command_parts line = let r = cut_space line in (r.0, trim_space r.1)

-- The callsign up to the first dash.
unfoldable pub before_dash : Bytes → Bytes
before_dash [] = []
before_dash (c ∷ cs) = let rest = before_dash cs in if c == b'-' then [] else c ∷ rest

-- `BaseCallsign`
abbrev pub base_callsign : Bytes → Bytes
base_callsign s = map to_upper (before_dash s)

abbrev pub is_capital : ℕ → Bool
is_capital c = leb b'A' c && leb c b'Z'

-- The letters at the front, counted, and what is behind them.
abbrev pub one_letter : ℕ × Bytes → ℕ × Bytes
one_letter r = (suc r.0, r.1)

unfoldable pub letters : Bytes → ℕ × Bytes
letters [] = (0, [])
letters (c ∷ cs) = let r = letters cs in if is_capital c then one_letter r else (0, c ∷ cs)

abbrev pub ends_well : ℕ × Bytes → Bool
ends_well r = leb 1 r.0 && leb r.0 3 && length r.1 == 0

abbrev pub digit_then : Bytes → Bool
digit_then [] = false
digit_then (c ∷ cs) = is_digit c && ends_well (letters cs)

-- `IsValidCallsign`: one or two letters, a digit, and one to three letters.
unfoldable pub is_valid_callsign : Bytes → Bool
is_valid_callsign s =
    let base = base_callsign s in
    let prefix = letters base in
    leb 3 (length base)
    && leb (length base) 6
    && leb 1 prefix.0
    && leb prefix.0 2
    && digit_then prefix.1

-- `strconv.ParseUint(s, 10, bits)`, with the greatest value that it takes.
unfoldable pub number_from : ℕ → ℕ → Bytes → Option ℕ
number_from limit n [] = some n
number_from limit n (c ∷ cs) =
    let n' = n * 10 + (c - b'0') in
    let rest = number_from limit n' cs in if is_digit c && leb n' limit then rest else none

unfoldable pub parse_uint : ℕ → Bytes → Option ℕ
parse_uint limit [] = none
parse_uint limit (c ∷ cs) = number_from limit 0 (c ∷ cs)

-- `strconv.Atoi`, where only a positive value matters.
abbrev pub without_sign : Bytes → Bytes
without_sign [] = []
without_sign (c ∷ cs) = if c == b'+' then cs else c ∷ cs

abbrev pub positive_or : ℕ → Option ℕ → ℕ
positive_or d none = d
positive_or d (some n) = if ltb 0 n then n else d

abbrev pub positive_int : ℕ → Bytes → ℕ
positive_int d s = positive_or d (parse_uint (2 ^ 63 - 1) (without_sign s))

-- `%-15s` and `%4d`.
abbrev pub pad_right : ℕ → Bytes → Bytes
pad_right n s = s ++ replicate (n - length s) b' '

abbrev pub pad_left : ℕ → Bytes → Bytes
pad_left n s = replicate (n - length s) b' ' ++ s
