-- ===== src/Frame/RoundTrip.antt =====
-- ax25/frame.go: `Encode` and then `ParseFrame`.
use go_ax.Base.{
  All, Bool, Bytes, List, [], append_assoc, arith, drop, drop_exact, false, if◌then◌else◌, length,
  length-append, ltb, not, refl, true, ◌&&◌, ◌++◌, ◌<◌, ◌==◌, ◌∷◌, ◌≡◌, ◌≤◌,
}
use go_ax.Types.{Address, Frame, max_digipeaters, ok}
use go_ax.Address.Wire.{IsStation}
use go_ax.Frame.{
  encode_destination, encode_digis, encode_frame, encode_source, encode_tail, has_info,
  identify_frame_type, parse_digis, parse_frame, parse_tail,
}
use go_ax.Frame.Path.{
  command_bit, decode-encode_destination, decode-encode_source, length-encode_destination,
  length-encode_source, mark_last, parse_digis-encode_digis,
}

-- A frame that `encode_frame` takes and whose parts fit their fields. `inner` is the end bit of the
-- destination, which `encode_frame` sends as it is.
pub record IsSendable (f : Frame) : Type 0 where
  pub to_station : IsStation f.destination
  pub from_station : IsStation f.source
  pub via_stations : All IsStation f.digipeaters
  pub few : length f.digipeaters ≤ 8
  pub short : length f.payload ≤ 256
  pub inner : f.destination.is_last ≡ false
  pub typed : f.frame_type ≡ identify_frame_type f.control

-- What a receiver sees of a frame: the bits of the address fields as the frame's position and its
-- direction set them, and information only where the type has it.
pub on_wire : Frame → Frame
on_wire f = record f {
  destination = record (f.destination) { has_been_repeated = f.is_command };
  source = record (f.source) {
    has_been_repeated = not f.is_command;
    is_last = length f.digipeaters == 0;
  };
  digipeaters = mark_last f.digipeaters;
  pid = if has_info f.frame_type then f.pid else 0;
  payload = if has_info f.frame_type then f.payload else [];
}

-- The bytes of a frame.
abbrev bytes_of : Frame → Bytes
bytes_of f =
    encode_destination f ++ (encode_source f ++ (encode_digis f.digipeaters ++ encode_tail f))

pub encode_frame-ok :
    (f : Frame)
    → length f.digipeaters ≤ 8
    → length f.payload ≤ 256
    → encode_frame f ≡ ok (bytes_of f)
unfolding encode_frame
encode_frame-ok f few short = ground arith

parse_tail-encode_tail :
    (f : Frame) (dst src : Address) (cmd : Bool) (ds : List Address)
    → f.frame_type ≡ identify_frame_type f.control
    → parse_tail dst src cmd ds (encode_tail f)
      ≡ ok (record {
        destination = dst;
        source = src;
        digipeaters = ds;
        is_command = cmd;
        frame_type = f.frame_type;
        control = f.control;
        pid = if has_info f.frame_type then f.pid else 0;
        payload = if has_info f.frame_type then f.payload else [];
      })
unfolding parse_tail encode_tail
parse_tail-encode_tail f dst src cmd ds typed = rw (← typed) (ground arith)

-- The branch of `parse_frame` on the end bits takes the path, whether it is empty or not.
parse_path :
    (ds : List Address) (last : Bool) (rest : Bytes)
    → last ≡ false
    → length ds ≤ 8
    → All IsStation ds
    → (if not (length ds == 0) && not last
        then parse_digis max_digipeaters (encode_digis ds ++ rest)
        else ok ([], encode_digis ds ++ rest))
      ≡ ok (mark_last ds, rest)
unfolding encode_digis mark_last
parse_path [] last rest inner few s = refl
parse_path (d ∷ ds) last rest inner few s =
    ground (arith, parse_digis-encode_digis 8 d ds rest few s)

length-bytes_of : (f : Frame) → ltb (length (bytes_of f)) 15 ≡ false
unfolding encode_tail
length-bytes_of f =
    let tail = encode_digis f.digipeaters ++ encode_tail f in
    ground (
      arith,
      length-append {0} (encode_destination f) (encode_source f ++ tail),
      length-append {0} (encode_source f) tail,
      length-append {0} (encode_digis f.digipeaters) (encode_tail f),
      length-encode_destination f,
      length-encode_source f,
    )

drop-bytes_of :
    (f : Frame) (rest : Bytes) → drop 14 (encode_destination f ++ (encode_source f ++ rest)) ≡ rest
drop-bytes_of f rest =
    let both = encode_destination f ++ encode_source f in
    rw (← append_assoc) (
      drop_exact 14 both rest (
        omega (
          arith,
          length-append {0} (encode_destination f) (encode_source f),
          length-encode_destination f,
          length-encode_source f,
        )))

-- A sendable frame, one whose addresses are stations, with at most eight digipeaters and 256 bytes of
-- information, the destination's end bit clear and the type of its control byte, is encoded, and
-- parsing the bytes gives the frame as it is on the wire: the command bit is where the destination and
-- the source have their repeated bit, inverted in the source, the end bit is set in the last address and
-- in no other, and a frame that is no I and no UI frame has PID 0 and no information, whatever was given;
-- all else is as it was.
pub parse_frame-encode_frame :
    (f : Frame)
    → IsSendable f
    → (bytes : Bytes) × (encode_frame f ≡ ok bytes) × (parse_frame bytes ≡ ok (on_wire f))
unfolding parse_frame on_wire
parse_frame-encode_frame f s =
    let tail = encode_digis f.digipeaters ++ encode_tail f in
    let read = decode-encode_destination f (encode_source f ++ tail) s.to_station in
    (
      bytes_of f,
      encode_frame-ok f s.few s.short,
      rw
          (
            length-bytes_of f,
            command_bit (bytes_of f) read,
            read,
            drop_exact 7 (encode_destination f) (encode_source f ++ tail)
                (length-encode_destination f),
            decode-encode_source f tail s.from_station,
            drop-bytes_of f tail,
            parse_path f.digipeaters f.destination.is_last (encode_tail f) s.inner s.few
                s.via_stations,
          )
          (parse_tail-encode_tail f _ _ f.is_command (mark_last f.digipeaters) s.typed),
    )

parse_tail-digis :
    (dst src : Address) (cmd : Bool) (b : Bytes)
    → 0 < length b
    → (g : Frame) × (parse_tail dst src cmd [] b ≡ ok g) × (g.digipeaters ≡ [])
unfolding parse_tail
parse_tail-digis dst src cmd [] h = absurd (omega arith)
parse_tail-digis dst src cmd (c ∷ rest) h = (_, refl, refl)

-- The end bit of the destination is sent as it is: a frame of at most eight digipeaters and 256 bytes
-- of information, from a station to a station, with that bit set, is encoded, and what is parsed
-- from the bytes has no digipeater, whatever the frame had.
pub parse_frame-encode_frame_end_bit :
    (f : Frame)
    → IsStation f.destination
    → IsStation f.source
    → length f.digipeaters ≤ 8
    → length f.payload ≤ 256
    → f.destination.is_last ≡ true
    → (bytes : Bytes) × (g : Frame) × (encode_frame f ≡ ok bytes)
      × (parse_frame bytes ≡ ok g)
      × (g.digipeaters ≡ [])
unfolding parse_frame encode_tail
parse_frame-encode_frame_end_bit f to from few short set =
    let tail = encode_digis f.digipeaters ++ encode_tail f in
    let read = decode-encode_destination f (encode_source f ++ tail) to in
    let (g, parsed, lost) =
      parse_tail-digis (record (f.destination) { has_been_repeated = f.is_command })
        (record (f.source) {
          has_been_repeated = not f.is_command;
          is_last = length f.digipeaters == 0;
        })
        f.is_command tail
        (ground (arith, length-append {0} (encode_digis f.digipeaters) (encode_tail f))) in
    (
      bytes_of f,
      g,
      encode_frame-ok f few short,
      rw
          (
            length-bytes_of f,
            command_bit (bytes_of f) read,
            read,
            drop_exact 7 (encode_destination f) (encode_source f ++ tail)
                (length-encode_destination f),
            decode-encode_source f tail from,
            drop-bytes_of f tail,
          )
          (ground (arith, parsed)),
      lost,
    )
