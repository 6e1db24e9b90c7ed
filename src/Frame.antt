-- ===== src/Frame.antt =====
-- ax25/frame.go: control bytes, and the wire form of a frame. A control byte's fields share no bit,
-- so that `|` between them is a sum.
mod Tests
pub mod Control
pub mod Path
pub mod RoundTrip
pub mod Parsed
pub mod Size
use Prim.Native.String.{String}
use go_ax.Base.{
  Bool, Bytes, List, [], drop, false, get_or, if◌then◌else◌, length, ltb, not, suc, true, zero, ℕ,
  ◌%◌, ◌&&◌, ◌*◌, ◌++◌, ◌+◌, ◌/◌, ◌==◌, ◌||◌, ◌∷◌,
}
use go_ax.Base.Bits.{clear_bit, set_bit, set_bit_if, test_bit}
use go_ax.Types.{
  Address, Frame, FrameType, Result, address_len, ctrl_disc, ctrl_dm, ctrl_frmr, ctrl_rej_mask,
  ctrl_rnr_mask, ctrl_rr_mask, ctrl_sabm, ctrl_ua, ctrl_ui, err, frame_i, frame_s, frame_too_short,
  frame_u, frame_ui, frame_unknown, invalid_address, max_digipeaters, max_info_len, ok,
  payload_too_long, too_many_digis, ◌>>=◌,
}
use go_ax.Address.{decode_address, encode}
use go_ax.Kiss.{kiss_encode}

-- `ControlName`
unfoldable pub control_name : ℕ → String
control_name ctrl =
    if ctrl == ctrl_ui
    then "UI"
    else if clear_bit 4 ctrl == ctrl_sabm
    then "SABM"
    else if clear_bit 4 ctrl == ctrl_disc
    then "DISC"
    else if clear_bit 4 ctrl == ctrl_dm
    then "DM"
    else if clear_bit 4 ctrl == ctrl_ua
    then "UA"
    else if clear_bit 4 ctrl == ctrl_frmr
    then "FRMR"
    else if ctrl % 2 == 0
    then "I"
    else if ctrl % 16 == ctrl_rr_mask
    then "RR"
    else if ctrl % 16 == ctrl_rnr_mask
    then "RNR"
    else if ctrl % 16 == ctrl_rej_mask
    then "REJ"
    else "?"

-- The cases of the inner switch of `IdentifyFrameType`, on the control byte without its P/F bit.
abbrev pub is_u_control : ℕ → Bool
is_u_control c = c == ctrl_sabm || c == ctrl_disc || c == ctrl_dm || c == ctrl_ua || c == ctrl_frmr

-- `IdentifyFrameType`
unfoldable pub identify_frame_type : ℕ → FrameType
identify_frame_type ctrl =
    if ctrl == ctrl_ui
    then frame_ui
    else if ctrl % 2 == 0
    then frame_i
    else if ctrl % 4 == 1
    then frame_s
    else if is_u_control (clear_bit 4 ctrl)
    then frame_u
    else frame_unknown

abbrev pub extract_ns : ℕ → ℕ
extract_ns ctrl = ctrl / 2 % 8

abbrev pub extract_nr : ℕ → ℕ
extract_nr ctrl = ctrl / 32 % 8

abbrev pub has_pf : ℕ → Bool
has_pf = test_bit 4

unfoldable pub build_i_control : ℕ → ℕ → Bool → ℕ
build_i_control ns nr pf = set_bit_if pf 4 (nr % 8 * 32 + ns % 8 * 2)

unfoldable pub build_rr_control : ℕ → Bool → ℕ
build_rr_control nr pf = set_bit_if pf 4 (nr % 8 * 32 + ctrl_rr_mask)

unfoldable pub build_rnr_control : ℕ → Bool → ℕ
build_rnr_control nr pf = set_bit_if pf 4 (nr % 8 * 32 + ctrl_rnr_mask)

unfoldable pub build_rej_control : ℕ → Bool → ℕ
build_rej_control nr pf = set_bit_if pf 4 (nr % 8 * 32 + ctrl_rej_mask)

-- `fmt.Errorf("%w: …", ErrInvalidAddress)` in place of the cause.
abbrev pub as_invalid {ℓ} : {A : Type ℓ} → Result A → Result A
as_invalid (ok a) = ok a
as_invalid (err e) = err invalid_address

-- The loop over the digipeaters. `room` is `MaxDigipeaters - len(digis)`, the bytes are
-- `data[pos:]`; the loop ends by its `break` alone, since `src` and `dst` do not change in it.
unfoldable pub parse_digis : ℕ → Bytes → Result (List Address × Bytes)
parse_digis zero bytes =
    if ltb (length bytes) address_len then err frame_too_short else err too_many_digis
parse_digis (suc room) bytes =
    if ltb (length bytes) address_len
    then err frame_too_short
    else as_invalid (decode_address bytes) >>= λ d.
        let rest = parse_digis room (drop 7 bytes) in
        if d.is_last then ok (d ∷ [], drop 7 bytes) else rest >>= λ r. ok (d ∷ r.0, r.1)

abbrev pub has_info : FrameType → Bool
has_info frame_ui = true
has_info frame_i = true
has_info _ = false

-- From the control byte on.
unfoldable pub parse_tail : Address → Address → Bool → List Address → Bytes → Result Frame
parse_tail dst src is_command digis [] = err frame_too_short
parse_tail dst src is_command digis (ctrl ∷ rest) =
    let ft = identify_frame_type ctrl in
    ok (record {
      destination = dst;
      source = src;
      digipeaters = digis;
      is_command = is_command;
      frame_type = ft;
      control = ctrl;
      pid = if has_info ft then get_or rest 0 0 else 0;
      payload = if has_info ft then drop 1 rest else [];
    })

-- `ParseFrame`. The C bit of the destination decides between command and response.
unfoldable pub parse_frame : Bytes → Result Frame
parse_frame bytes =
    if ltb (length bytes) (address_len * 2 + 1)
    then err frame_too_short
    else as_invalid (decode_address bytes) >>= λ dst.
        as_invalid (decode_address (drop 7 bytes)) >>= λ src.
        (if not src.is_last && not dst.is_last
          then parse_digis max_digipeaters (drop 14 bytes)
          else ok ([], drop 14 bytes))
        >>= λ r. parse_tail dst src (test_bit 7 (get_or bytes 6 0)) r.0 r.1

-- `b[i] = f(b[i])`
unfoldable pub modify : ℕ → (ℕ → ℕ) → Bytes → Bytes
modify i f [] = []
modify zero f (b ∷ bs) = f b ∷ bs
modify (suc i) f (b ∷ bs) = b ∷ modify i f bs

-- `b |= 1 << k` or `b &^= 1 << k`
abbrev pub put_bit : Bool → ℕ → ℕ → ℕ
put_bit c k b = if c then set_bit k b else clear_bit k b

unfoldable pub encode_destination : Frame → Bytes
encode_destination f = modify 6 (put_bit f.is_command 7) (encode f.destination)

unfoldable pub encode_source : Frame → Bytes
encode_source f =
    modify 6 (put_bit (length f.digipeaters == 0) 0)
      (modify 6 (put_bit (not f.is_command) 7) (encode f.source))

-- The flag is `i == len(f.Digipeaters)-1`.
unfoldable pub encode_digi : Bool → Address → Bytes
encode_digi last d = modify 6 (put_bit last 0) (encode d)

unfoldable pub encode_digis : List Address → Bytes
encode_digis [] = []
encode_digis (d ∷ []) = encode_digi true d
encode_digis (d ∷ e ∷ ds) = encode_digi false d ++ encode_digis (e ∷ ds)

unfoldable pub encode_tail : Frame → Bytes
encode_tail f = f.control ∷ (if has_info f.frame_type then f.pid ∷ f.payload else [])

-- `Frame.Encode`
unfoldable pub encode_frame : Frame → Result Bytes
encode_frame f =
    if ltb max_digipeaters (length f.digipeaters)
    then err too_many_digis
    else if ltb max_info_len (length f.payload)
    then err payload_too_long
    else ok
        (encode_destination f ++ (encode_source f ++ (encode_digis f.digipeaters ++ encode_tail f)))

-- `EncodeFrameKISS`
unfoldable pub encode_frame_kiss : ℕ → Frame → Result Bytes
encode_frame_kiss port f = encode_frame f >>= λ raw. ok (kiss_encode port 0 raw)
