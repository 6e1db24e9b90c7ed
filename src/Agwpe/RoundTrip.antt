-- ===== src/Agwpe/RoundTrip.antt =====
-- agwpe/frame.go: a message encoded and then read, from a slice or from a stream.
use go_ax.Base.{
  Bytes, [], ap, append-nil, append_assoc, arith, drop-append_length, drop_exact, length,
  length-append, refl, take, take-append_length, take_exact, ◌++◌, ◌+◌, ◌∙◌, ◌∷◌, ◌≡◌, ◌≤◌,
}
use go_ax.Agwpe.{
  AgwFrame, decode_message, done, encode_message, header_data_len, header_of, read_header,
  read_message,
}
use go_ax.Agwpe.Wire.{
  IsMessage, get-put_uint32, header_data_len-header, length-header_of, read_header-header,
}

pub encode_message-ok :
    (f : AgwFrame) → length f.payload ≤ 4096 → encode_message f ≡ done (header_of f ++ f.payload)
unfolding encode_message
encode_message-ok f h = ground arith

pub header_data_len-message :
    (f : AgwFrame) (rest : Bytes)
    → IsMessage f
    → header_data_len (header_of f ++ rest) ≡ length f.payload
header_data_len-message f rest m =
    header_data_len-header f rest ∙ get-put_uint32 (length f.payload) (omega (arith, m.short))

length-message : (f : AgwFrame) (rest : Bytes) → length (header_of f ++ rest) ≡ 36 + length rest
length-message f rest = omega (arith, length-append {0} (header_of f) rest, length-header_of f)

pub header_data_len-alone :
    (f : AgwFrame) → IsMessage f → header_data_len (header_of f) ≡ length f.payload
header_data_len-alone f m = rw (append-nil (header_of f)) at (header_data_len-message f [] m)

pub read_header-alone : (f : AgwFrame) → IsMessage f → read_header (header_of f) f.payload ≡ f
read_header-alone f m = rw (append-nil (header_of f)) at (read_header-header f [] f.payload m)

pub take_all : (xs : Bytes) → take (length xs) xs ≡ xs
take_all [] = refl
take_all (x ∷ xs) = ap (◌∷◌ x) (take_all xs)

-- A message whose callsigns have at most ten bytes and no zero byte, with at most 4096 bytes of data
-- and a user number of 32 bits, is encoded, and decoding the bytes gives the message back.
pub decode_message-encode_message :
    (f : AgwFrame)
    → IsMessage f
    → (bytes : Bytes) × (encode_message f ≡ done bytes) × (decode_message bytes ≡ done f)
unfolding decode_message
decode_message-encode_message f m =
    let size = length-message f f.payload in
    (
      header_of f ++ f.payload,
      encode_message-ok f m.short,
      rw
          (
            header_data_len-message f f.payload m,
            size,
            drop_exact 36 (header_of f) f.payload (length-header_of f),
            take_all f.payload,
            read_header-header f f.payload f.payload m,
          )
          (ground (arith, m.short)),
    )

-- A stream that begins with an encoded message gives the message and leaves the rest of the stream.
pub read_message-encode_message :
    (f : AgwFrame) (rest : Bytes)
    → IsMessage f
    → (bytes : Bytes) × (encode_message f ≡ done bytes)
      × (read_message (bytes ++ rest) ≡ done (f, rest))
unfolding read_message
read_message-encode_message f rest m = (
  header_of f ++ f.payload,
  encode_message-ok f m.short,
  rw
      (
        append_assoc (header_of f) f.payload rest,
        length-message f (f.payload ++ rest),
        take_exact 36 (header_of f) (f.payload ++ rest) (length-header_of f),
        drop_exact 36 (header_of f) (f.payload ++ rest) (length-header_of f),
        header_data_len-alone f m,
        length-append {0} f.payload rest,
        take-append_length f.payload rest,
        drop-append_length f.payload rest,
        read_header-alone f m,
      )
      (ground (arith, m.short)),
)
