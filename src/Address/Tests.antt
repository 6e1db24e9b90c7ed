-- ===== src/Address/Tests.antt =====
-- Addresses at concrete inputs.
use go_ax.Base.{Bytes, [], arith, false, refl, ◌++◌, ◌∷◌, ◌≡◌}
use go_ax.Types.{Address, ok}
use go_ax.Address.{decode_address, encode, parse_address, string}
use go_ax.Address.Wire.{IsStation, decode-encode}
use go_ax.Address.Text.{IsPlain, parse_address-string}

-- `N0CALL-7`
abbrev text : Bytes
text = 78 ∷ 48 ∷ 67 ∷ 65 ∷ 76 ∷ 76 ∷ 45 ∷ 55 ∷ []

-- `n0call-7`
abbrev lower_text : Bytes
lower_text = 110 ∷ 48 ∷ 99 ∷ 97 ∷ 108 ∷ 108 ∷ 45 ∷ 55 ∷ []

abbrev n0call : Address
n0call = record {
  callsign = 78 ∷ 48 ∷ 67 ∷ 65 ∷ 76 ∷ 76 ∷ [];
  ssid = 7;
  has_been_repeated = false;
  is_last = false;
}

n0call-IsStation : IsStation n0call
n0call-IsStation = record {
  fits = omega arith;
  chars = (refl, (refl, (refl, (refl, (refl, (refl, tt))))));
  ssid_small = omega arith;
}

n0call-IsPlain : IsPlain n0call
n0call-IsPlain = record {
  station = n0call-IsStation;
  named = omega arith;
  unrepeated = refl;
  inner = refl;
}

read_text : parse_address text ≡ ok n0call
unfolding parse_address
read_text = refl

decode-encode_example : decode_address (encode n0call ++ (3 ∷ 240 ∷ [])) ≡ ok n0call
decode-encode_example = decode-encode n0call (3 ∷ 240 ∷ []) n0call-IsStation

parse_address-string_example : parse_address (string n0call) ≡ ok n0call
parse_address-string_example = parse_address-string n0call n0call-IsPlain
