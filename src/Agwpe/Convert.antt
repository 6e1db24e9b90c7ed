-- ===== src/Agwpe/Convert.antt =====
-- agwpe/frame.go: AX.25 frames inside messages, `FromAX25Raw`, `FromAX25Unproto` and `ToAX25`.
use go_ax.Base.{
  Bytes, List, Option, [], arith, drop, false, if◌then◌else◌, length, ltb, none, not, refl, some, ℕ,
  ◌%◌, ◌++◌, ◌==◌, ◌∷◌, ◌≡◌,
}
use go_ax.Types.{Address, Frame, Result, err, ok}
use go_ax.Frame.{encode_frame, parse_frame}
use go_ax.Address.{string}
use go_ax.Frame.RoundTrip.{IsSendable, on_wire, parse_frame-encode_frame}
use go_ax.Agwpe.{
  AgwFrame, AgwResult, callsign_len, data_too_long, done, failed, max_data_len, message_too_short,
  nil_message, set_callsign, wrapped, wrong_kind,
}
use go_ax.Frame.Size.{length-encode_frame}

abbrev pub kind_raw : ℕ
kind_raw = 75

abbrev pub kind_unproto : ℕ
kind_unproto = 77

abbrev pub kind_unproto_via : ℕ
kind_unproto_via = 86

abbrev raw_message : Frame → ℕ → Result Bytes → AgwResult AgwFrame
raw_message f port (err e) = failed (wrapped e)
raw_message f port (ok raw) =
    if ltb max_data_len (length (0 ∷ raw))
    then failed data_too_long
    else done (record {
      port = port;
      kind = kind_raw;
      pid = 0;
      call_from = string f.source;
      call_to = string f.destination;
      payload = 0 ∷ raw;
      user = 0;
    })

-- `FromAX25Raw`; a nil frame is `none`.
unfoldable pub from_ax25_raw : Option Frame → ℕ → AgwResult AgwFrame
from_ax25_raw none port = failed nil_message
from_ax25_raw (some f) port = raw_message f port (encode_frame f)

-- The callsigns of the path, in ten bytes each.
unfoldable pub via_fields : List Address → Bytes
via_fields [] = []
via_fields (d ∷ ds) = set_callsign callsign_len (string d) ++ via_fields ds

abbrev pub unproto_payload : Frame → Bytes
unproto_payload f =
    let n = length f.digipeaters in
    if ltb 0 n then n % 256 ∷ (via_fields f.digipeaters ++ f.payload) else f.payload

-- `FromAX25Unproto`
unfoldable pub from_ax25_unproto : Option Frame → ℕ → AgwResult AgwFrame
from_ax25_unproto none port = failed nil_message
from_ax25_unproto (some f) port =
    let payload = unproto_payload f in
    if ltb max_data_len (length payload)
    then failed data_too_long
    else done (record {
      port = port;
      kind = if ltb 0 (length f.digipeaters) then kind_unproto_via else kind_unproto;
      pid = f.pid;
      call_from = string f.source;
      call_to = string f.destination;
      payload = payload;
      user = 0;
    })

abbrev pub parsed : Result Frame → AgwResult Frame
parsed (err e) = failed (wrapped e)
parsed (ok f) = done f

-- `ToAX25`
unfoldable pub to_ax25 : Option AgwFrame → AgwResult Frame
to_ax25 none = failed nil_message
to_ax25 (some m) =
    if not (m.kind == kind_raw)
    then failed wrong_kind
    else if ltb (length m.payload) 2
    then failed message_too_short
    else parsed (parse_frame (drop 1 m.payload))

-- A sendable frame goes into a raw message, and what is taken out of the message is the frame as it is
-- on the wire.
pub to_ax25-from_ax25_raw :
    (f : Frame) (port : ℕ)
    → IsSendable f
    → (m : AgwFrame) × (from_ax25_raw (some f) port ≡ done m)
      × (to_ax25 (some m) ≡ done (on_wire f))
unfolding from_ax25_raw to_ax25
to_ax25-from_ax25_raw f port s =
    let (bytes, encoded, parses) = parse_frame-encode_frame f s in
    let (long, short) = length-encode_frame f encoded in
    let room : ltb 4096 (length (0 ∷ bytes)) ≡ false = ground (arith, short) in
    let enough : ltb (length (0 ∷ bytes)) 2 ≡ false = ground (arith, long) in
    (
      record {
        port = port;
        kind = kind_raw;
        pid = 0;
        call_from = string f.source;
        call_to = string f.destination;
        payload = 0 ∷ bytes;
        user = 0;
      },
      rw (encoded, room) refl,
      rw (enough, parses) refl,
    )
