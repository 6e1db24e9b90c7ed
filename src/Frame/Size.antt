-- ===== src/Frame/Size.antt =====
-- ax25/frame.go: the length of an encoded frame.
use go_ax.Base.{
  Bytes, List, [], arith, false, length, length-append, refl, true, ◌*◌, ◌++◌, ◌+◌, ◌∷◌, ◌≡◌, ◌≤◌,
}
use go_ax.Types.{Address, Frame, ok}
use go_ax.Frame.{
  encode_destination, encode_digi, encode_digis, encode_frame, encode_source, encode_tail,
}
use go_ax.Frame.Path.{length-encode_destination, length-encode_digi, length-encode_source}

length-encode_digis : (ds : List Address) → length (encode_digis ds) ≡ 7 * length ds
unfolding encode_digis
length-encode_digis [] = refl
length-encode_digis (d ∷ []) = length-encode_digi true d
length-encode_digis (d ∷ e ∷ ds) = omega (
  arith,
  length-append {0} (encode_digi false d) (encode_digis (e ∷ ds)),
  length-encode_digi false d,
  length-encode_digis (e ∷ ds),
)

encode_tail-bounds :
    (f : Frame) → (1 ≤ length (encode_tail f)) × (length (encode_tail f) ≤ 2 + length f.payload)
unfolding encode_tail
encode_tail-bounds f = ground arith

length-parts :
    (f : Frame)
    → length
        (encode_destination f ++ (encode_source f ++ (encode_digis f.digipeaters ++ encode_tail f)))
      ≡ 14 + 7 * length f.digipeaters + length (encode_tail f)
length-parts f = omega (
  arith,
  length-append {0} (encode_destination f)
      (encode_source f ++ (encode_digis f.digipeaters ++ encode_tail f)),
  length-append {0} (encode_source f) (encode_digis f.digipeaters ++ encode_tail f),
  length-append {0} (encode_digis f.digipeaters) (encode_tail f),
  length-encode_destination f,
  length-encode_source f,
  length-encode_digis f.digipeaters,
)

-- A frame that is encoded takes 15 bytes at least and 328 at most, and so fits the buffer of 338 that
-- `Encode` makes for it.
pub length-encode_frame :
    (f : Frame) {bytes : Bytes}
    → encode_frame f ≡ ok bytes
    → (15 ≤ length bytes) × (length bytes ≤ 328)
unfolding encode_frame
length-encode_frame f h =
    ground (arith, length-parts f, (encode_tail-bounds f).0, (encode_tail-bounds f).1)
