-- ===== src/Frame/Path.antt =====
-- ax25/frame.go: the addresses of a frame on the wire, with the bits that `Encode` sets.
use go_ax.Base.{
  All, Bool, Bytes, List, [], ap, append_assoc, arith, drop_exact, false, get_or, length,
  length-append, ltb, map, not, refl, suc, true, zero, ℕ, ◌%◌, ◌++◌, ◌/◌, ◌<◌, ◌==◌, ◌∙◌, ◌∷◌, ◌≡◌,
  ◌≤◌,
}
use go_ax.Base.Bits.{test_bit}
use go_ax.Types.{Address, Frame, ok}
use go_ax.Address.{decode_address, encode, encode_call, encode_ssid, to_upper}
use go_ax.Address.Wire.{IsStation, decode-encode_call, length-encode, length-encode_call}
use go_ax.Frame.{
  encode_destination, encode_digi, encode_digis, encode_source, modify, parse_digis, put_bit,
}

length-modify : (i : ℕ) (f : ℕ → ℕ) (bs : Bytes) → length (modify i f bs) ≡ length bs
unfolding modify
length-modify i f [] = refl
length-modify zero f (b ∷ bs) = refl
length-modify (suc i) f (b ∷ bs) = ap suc (length-modify i f bs)

modify-append_length :
    (xs : Bytes) (f : ℕ → ℕ) (b : ℕ) (ys : Bytes)
    → modify (length xs) f (xs ++ (b ∷ ys)) ≡ xs ++ (f b ∷ ys)
unfolding modify
modify-append_length [] f b ys = refl
modify-append_length (x ∷ xs) f b ys = ap (◌∷◌ x) (modify-append_length xs f b ys)

-- The address with byte 6 put to `b`.
abbrev wire : Address → ℕ → Bytes
wire a b = encode_call 6 (map to_upper a.callsign) ++ (b ∷ [])

modify-wire : (a : Address) (f : ℕ → ℕ) (b : ℕ) → modify 6 f (wire a b) ≡ wire a (f b)
modify-wire a f b =
    let call = encode_call 6 (map to_upper a.callsign) in
    let n = length-encode_call 6 (map to_upper a.callsign) in
    rw n at (modify-append_length call f b [])

length-wire : (a : Address) (b : ℕ) → length (wire a b) ≡ 7
length-wire a b = omega (
  arith,
  length-append {0} (encode_call 6 (map to_upper a.callsign)) (b ∷ []),
  length-encode_call 6 (map to_upper a.callsign),
)

pub length-encode_destination : (f : Frame) → length (encode_destination f) ≡ 7
unfolding encode_destination
length-encode_destination f = length-modify 6 _ _ ∙ length-encode f.destination

pub length-encode_source : (f : Frame) → length (encode_source f) ≡ 7
unfolding encode_source
length-encode_source f = length-modify 6 _ _ ∙ length-modify 6 _ _ ∙ length-encode f.source

pub length-encode_digi : (last : Bool) (d : Address) → length (encode_digi last d) ≡ 7
unfolding encode_digi
length-encode_digi last d = length-modify 6 _ _ ∙ length-encode d

decode-wire :
    (a : Address) (b : ℕ) (rest : Bytes)
    → IsStation a
    → decode_address (wire a b ++ rest)
      ≡ ok (record {
        callsign = a.callsign;
        ssid = b / 2 % 16;
        has_been_repeated = test_bit 7 b;
        is_last = test_bit 0 b;
      })
decode-wire a b rest s = rw append_assoc (decode-encode_call a.callsign b rest s.fits s.chars)

module _ (a : Address) (small : a.ssid < 16) where
  destination_bits :
      (cmd : Bool)
      → let b = put_bit cmd 7 (encode_ssid a) in
        (b / 2 % 16 ≡ a.ssid) × (test_bit 7 b ≡ cmd) × (test_bit 0 b ≡ a.is_last)
  unfolding encode_ssid
  destination_bits cmd = ground arith

  source_bits :
      (alone response : Bool)
      → let b = put_bit alone 0 (put_bit response 7 (encode_ssid a)) in
        (b / 2 % 16 ≡ a.ssid) × (test_bit 7 b ≡ response) × (test_bit 0 b ≡ alone)
  unfolding encode_ssid
  source_bits alone response = ground arith

  digi_bits :
      (last : Bool)
      → let b = put_bit last 0 (encode_ssid a) in
        (b / 2 % 16 ≡ a.ssid) × (test_bit 7 b ≡ a.has_been_repeated) × (test_bit 0 b ≡ last)
  unfolding encode_ssid
  digi_bits last = ground arith

-- On the wire the C bit of the destination says whether the frame is a command; its end bit is that
-- of the address itself.
pub decode-encode_destination :
    (f : Frame) (rest : Bytes)
    → IsStation f.destination
    → decode_address (encode_destination f ++ rest)
      ≡ ok (record (f.destination) { has_been_repeated = f.is_command })
unfolding encode_destination encode
decode-encode_destination f rest s =
    let a = f.destination in
    let bits = destination_bits a s.ssid_small f.is_command in
    rw
      (
        modify-wire a (put_bit f.is_command 7) (encode_ssid a),
        decode-wire a (put_bit f.is_command 7 (encode_ssid a)) rest s,
      )
      (cc (bits.0, bits.1, bits.2))

-- The source has the opposite C bit, and the end bit exactly if there are no digipeaters.
pub decode-encode_source :
    (f : Frame) (rest : Bytes)
    → IsStation f.source
    → decode_address (encode_source f ++ rest)
      ≡ ok (record (f.source) {
        has_been_repeated = not f.is_command;
        is_last = length f.digipeaters == 0;
      })
unfolding encode_source encode
decode-encode_source f rest s =
    let a = f.source in
    let alone = length f.digipeaters == 0 in
    let b = put_bit (not f.is_command) 7 (encode_ssid a) in
    let bits = source_bits a s.ssid_small alone (not f.is_command) in
    rw
      (
        modify-wire a (put_bit (not f.is_command) 7) (encode_ssid a),
        modify-wire a (put_bit alone 0) b,
        decode-wire a (put_bit alone 0 b) rest s,
      )
      (cc (bits.0, bits.1, bits.2))

-- A digipeater keeps its H bit, and has the end bit exactly if it is the last.
pub decode-encode_digi :
    (last : Bool) (d : Address) (rest : Bytes)
    → IsStation d
    → decode_address (encode_digi last d ++ rest) ≡ ok (record d { is_last = last })
unfolding encode_digi encode
decode-encode_digi last d rest s =
    let bits = digi_bits d s.ssid_small last in
    rw
      (
        modify-wire d (put_bit last 0) (encode_ssid d),
        decode-wire d (put_bit last 0 (encode_ssid d)) rest s,
      )
      (cc (bits.0, bits.1, bits.2))

-- The path with the end bit on its last address alone.
unfoldable pub mark_last : List Address → List Address
mark_last [] = []
mark_last (d ∷ []) = record d { is_last = true } ∷ []
mark_last (d ∷ e ∷ ds) = record d { is_last = false } ∷ mark_last (e ∷ ds)

long_enough : (xs ys : Bytes) → length xs ≡ 7 → ltb (length (xs ++ ys)) 7 ≡ false
long_enough xs ys h = ground (arith, length-append {0} xs ys)

-- The digipeaters of a frame are read back, the end bit on the last one, and what follows them is
-- left over.
pub parse_digis-encode_digis :
    (room : ℕ) (d : Address) (ds : List Address) (rest : Bytes)
    → length (d ∷ ds) ≤ room
    → All IsStation (d ∷ ds)
    → parse_digis room (encode_digis (d ∷ ds) ++ rest) ≡ ok (mark_last (d ∷ ds), rest)
unfolding parse_digis encode_digis mark_last
parse_digis-encode_digis zero d ds rest h s = absurd (omega arith)
parse_digis-encode_digis (suc room) d [] rest h s =
    let n = length-encode_digi true d in
    rw (
      long_enough (encode_digi true d) rest n,
      decode-encode_digi true d rest s.0,
      drop_exact 7 (encode_digi true d) rest n,
    )
parse_digis-encode_digis (suc room) d (e ∷ ds) rest h s =
    let n = length-encode_digi false d in
    let more = encode_digis (e ∷ ds) ++ rest in
    rw (
      append_assoc,
      long_enough (encode_digi false d) more n,
      decode-encode_digi false d more s.0,
      drop_exact 7 (encode_digi false d) more n,
      parse_digis-encode_digis room e ds rest (omega arith) s.1,
    )

-- The C bit of the first address is its H bit.
pub command_bit :
    (b : Bytes) {a : Address}
    → decode_address b ≡ ok a
    → test_bit 7 (get_or b 6 0) ≡ a.has_been_repeated
unfolding decode_address
command_bit b h = ground arith
