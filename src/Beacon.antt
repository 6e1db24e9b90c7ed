-- ===== src/Beacon.antt =====
-- ax25/beacon.go: the text of a beacon and its frame. The ticker that sends it is not modelled; what
-- `send` gives to `sendFn` is its result. Text is ASCII.
mod Tests
pub mod Sent
use go_ax.Base.{
  Bool, Bytes, List, Option, [], false, if◌then◌else◌, leb, none, not, some, take, true, ℕ, ◌%◌,
  ◌&&◌, ◌*◌, ◌++◌, ◌+◌, ◌-◌, ◌==◌, ◌||◌, ◌∷◌,
}
use go_ax.Types.{Address, Frame, Result, ctrl_ui, err, frame_ui, max_info_len, ok, pid_none, ◌>>=◌}
use go_ax.Address.{parse_address}

pub record BeaconConfig : Type 0 where
  pub source : Bytes
  pub destination : Bytes
  pub via : Bytes
  pub text : Bytes

-- `hexNibble`; -1 is `none`.
unfoldable pub hex_nibble : ℕ → Option ℕ
hex_nibble c =
    if leb 48 c && leb c 57
    then some (c - 48)
    else if leb 97 c && leb c 102
    then some (c - 97 + 10)
    else if leb 65 c && leb c 70
    then some (c - 65 + 10)
    else none

-- What stands for a backslash and one more byte, but for `x`.
abbrev pub expand : ℕ → Bytes
expand e =
    if e == 114
    then 13 ∷ []
    else if e == 110
    then 10 ∷ []
    else if e == 116
    then 9 ∷ []
    else if e == 92
    then 92 ∷ []
    else 92 ∷ e ∷ []

-- The two bytes behind `x`, when both are digits.
abbrev pub hex_byte : Option ℕ → Option ℕ → Option ℕ
hex_byte (some hi) (some lo) = some ((hi * 16 + lo) % 256)
hex_byte _ _ = none

abbrev pub hex_or : Option ℕ → Bytes → Bytes → Bytes
hex_or (some b) rest kept = b ∷ rest
hex_or none rest kept = 92 ∷ 120 ∷ kept

-- `unescapeText`
unfoldable pub unescape_text : Bytes → Bytes
unescape_text [] = []
unescape_text (c ∷ []) = c ∷ []
unescape_text (c ∷ e ∷ []) = if c == 92 then expand e else c ∷ e ∷ []
unescape_text (c ∷ e ∷ h ∷ []) =
    let plain = unescape_text (e ∷ h ∷ []) in if c == 92 then expand e ++ (h ∷ []) else c ∷ plain
unescape_text (c ∷ e ∷ h ∷ l ∷ rest) =
    let plain = unescape_text (e ∷ h ∷ l ∷ rest) in
    let kept = unescape_text (h ∷ l ∷ rest) in
    let behind = unescape_text rest in
    if not (c == 92)
    then c ∷ plain
    else if e == 120
    then hex_or (hex_byte (hex_nibble h) (hex_nibble l)) behind kept
    else expand e ++ kept

-- `strings.Split` on one byte, and `strings.TrimSpace`.
abbrev pub onto_first : ℕ → List Bytes → List Bytes
onto_first b [] = (b ∷ []) ∷ []
onto_first b (part ∷ parts) = (b ∷ part) ∷ parts

unfoldable pub split_on : ℕ → Bytes → List Bytes
split_on sep [] = [] ∷ []
split_on sep (b ∷ bs) =
    let parts = split_on sep bs in if b == sep then [] ∷ parts else onto_first b parts

abbrev pub is_space : ℕ → Bool
is_space b = b == 32 || (leb 9 b && leb b 13)

unfoldable pub trim_start : Bytes → Bytes
trim_start [] = []
trim_start (b ∷ bs) = let rest = trim_start bs in if is_space b then rest else b ∷ bs

abbrev pub space_or : ℕ → Bytes → Bytes
space_or b [] = if is_space b then [] else b ∷ []
space_or b (x ∷ xs) = b ∷ x ∷ xs

unfoldable pub trim_end : Bytes → Bytes
trim_end [] = []
trim_end (b ∷ bs) = space_or b (trim_end bs)

-- The loop over the parts of `via`: empty ones and wrong ones are passed over.
abbrev pub with_part : Result Address → List Address → List Address
with_part (ok a) ds = a ∷ ds
with_part (err e) ds = ds

abbrev pub is_nil : Bytes → Bool
is_nil [] = true
is_nil (b ∷ bs) = false

unfoldable pub parse_via : List Bytes → List Address
parse_via [] = []
parse_via (part ∷ parts) =
    let name = trim_end (trim_start part) in
    let rest = parse_via parts in if is_nil name then rest else with_part (parse_address name) rest

abbrev pub via_path : Bytes → List Address
via_path via = if is_nil via then [] else parse_via (split_on 44 via)

-- `send`; no frame is `none`.
unfoldable pub beacon_frame : BeaconConfig → Result (Option Frame)
beacon_frame cfg =
    let made = parse_address cfg.source >>= λ src. parse_address cfg.destination >>= λ dst. ok (
      some (record {
        destination = dst;
        source = src;
        digipeaters = via_path cfg.via;
        is_command = true;
        frame_type = frame_ui;
        control = ctrl_ui;
        pid = pid_none;
        payload = take max_info_len (unescape_text cfg.text);
      })) in
    if is_nil cfg.source then ok none else made
