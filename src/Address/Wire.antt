-- ===== src/Address/Wire.antt =====
-- ax25/address.go: the seven-byte wire form of an address, and its reading.
use go_ax.Base.{
  All, Bytes, [], ap, append_assoc, arith, get_or_exact, length, length-append, map, refl, suc,
  take_exact, true, zero, ℕ, ◌%◌, ◌*◌, ◌++◌, ◌/◌, ◌<◌, ◌∷◌, ◌≡◌, ◌≤◌,
}
use go_ax.Base.Bits.{test_bit}
use go_ax.Types.{Address, ok}
use go_ax.Address.{
  decode_address, encode, encode_call, encode_ssid, is_call_char, to_upper, trim_cons, trim_right,
}

-- A callsign of letters and digits that fits, and an SSID of four bits.
pub record IsStation (a : Address) : Type 0 where
  pub fits : length a.callsign ≤ 6
  pub chars : All (λ c. is_call_char c ≡ true) a.callsign
  pub ssid_small : a.ssid < 16

pub to_upper_call_char : (c : ℕ) → is_call_char c ≡ true → to_upper c ≡ c
unfolding to_upper
to_upper_call_char c h = ground arith

pub map-to_upper : (cs : Bytes) → All (λ c. is_call_char c ≡ true) cs → map to_upper cs ≡ cs
map-to_upper [] h = refl
map-to_upper (c ∷ cs) h = cc (to_upper_call_char c h.0, map-to_upper cs h.1)

pub length-encode_call : (n : ℕ) (call : Bytes) → length (encode_call n call) ≡ n
unfolding encode_call
length-encode_call zero call = refl
length-encode_call (suc n) [] = ap suc (length-encode_call n [])
length-encode_call (suc n) (c ∷ cs) = ap suc (length-encode_call n cs)

pub length-encode : (a : Address) → length (encode a) ≡ 7
unfolding encode
length-encode a = omega (
  arith,
  length-append {0} (encode_call 6 (map to_upper a.callsign)) (encode_ssid a ∷ []),
  length-encode_call 6 (map to_upper a.callsign),
)

trim_cons_call_char : (c : ℕ) (cs : Bytes) → is_call_char c ≡ true → trim_cons c cs ≡ c ∷ cs
trim_cons_call_char c [] h = ground arith
trim_cons_call_char c (x ∷ xs) h = refl

half_double : (c : ℕ) → is_call_char c ≡ true → c * 2 % 256 / 2 ≡ c
half_double c h = ground arith

-- The padding of `encode` is what `decode_address` trims.
trim_right-encode_call :
    (n : ℕ) (cs : Bytes)
    → length cs ≤ n
    → All (λ c. is_call_char c ≡ true) cs
    → trim_right (map (λ c. c / 2) (encode_call n cs)) ≡ cs
unfolding encode_call trim_right
trim_right-encode_call zero [] h k = refl
trim_right-encode_call zero (c ∷ cs) h k = absurd (omega arith)
trim_right-encode_call (suc n) [] h k = rw (trim_right-encode_call n [] (omega arith) tt)
trim_right-encode_call (suc n) (c ∷ cs) h k =
    rw (half_double c k.0, trim_right-encode_call n cs (omega arith) k.1)
      (trim_cons_call_char c cs k.0)

ssid-encode_ssid : (a : Address) → a.ssid < 16 → encode_ssid a / 2 % 16 ≡ a.ssid
unfolding encode_ssid
ssid-encode_ssid a h = ground arith

repeated-encode_ssid : (a : Address) → test_bit 7 (encode_ssid a) ≡ a.has_been_repeated
unfolding encode_ssid
repeated-encode_ssid a = ground arith

last-encode_ssid : (a : Address) → test_bit 0 (encode_ssid a) ≡ a.is_last
unfolding encode_ssid
last-encode_ssid a = ground arith

-- Bytes as `encode` makes them, with any last byte `b`, are read back field by field.
pub decode-encode_call :
    (call : Bytes) (b : ℕ) (rest : Bytes)
    → length call ≤ 6
    → All (λ c. is_call_char c ≡ true) call
    → decode_address (encode_call 6 (map to_upper call) ++ (b ∷ rest))
      ≡ ok (record {
        callsign = call;
        ssid = b / 2 % 16;
        has_been_repeated = test_bit 7 b;
        is_last = test_bit 0 b;
      })
unfolding decode_address
decode-encode_call call b rest h k =
    let n = length-encode_call 6 call in
    rw
      (
        map-to_upper call k,
        take_exact 6 (encode_call 6 call) (b ∷ rest) n,
        trim_right-encode_call 6 call h k,
        get_or_exact 6 (encode_call 6 call) (b ∷ rest) 0 n,
      )
      (ground (arith, length-append {0} (encode_call 6 call) (b ∷ rest), n))

-- Encoding the address of a station, six letters or digits at most and an SSID below 16, and decoding
-- the seven bytes, whatever follows them, gives the address back, with both its flags.
pub decode-encode :
    (a : Address) (rest : Bytes) → IsStation a → decode_address (encode a ++ rest) ≡ ok a
unfolding encode
decode-encode a rest s =
    rw (append_assoc, decode-encode_call a.callsign (encode_ssid a) rest s.fits s.chars)
      (cc (ssid-encode_ssid a s.ssid_small, repeated-encode_ssid a, last-encode_ssid a))
