-- ===== src/Agwpe.antt =====
-- agwpe/frame.go: the messages of the AGW packet engine, their wire form and their readers.
mod Tests
pub mod Wire
pub mod RoundTrip
pub mod Stream
pub mod Convert
pub mod Unproto
pub mod Builders
pub mod Via
pub mod Responses
pub mod Monitor
pub mod Requests
use go_ax.Types.{Error}
use go_ax.Base.{
  Bool, Bytes, List, [], drop, false, get_or, if◌then◌else◌, leb, length, ltb, suc, take, true,
  zero, ℕ, ◌%◌, ◌*◌, ◌++◌, ◌+◌, ◌/◌, ◌==◌, ◌^◌, ◌∷◌,
}

abbrev pub header_size : ℕ
header_size = 36

abbrev pub callsign_len : ℕ
callsign_len = 10

abbrev pub max_data_len : ℕ
max_data_len = 4096

-- `Frame`; the field `Data` is `payload`.
pub record AgwFrame : Type 0 where
  pub port : ℕ
  pub kind : ℕ
  pub pid : ℕ
  pub call_from : Bytes
  pub call_to : Bytes
  pub payload : Bytes
  pub user : ℕ

-- The errors, without their texts.
pub data AgwError : Type 0 where
  data_too_long message_too_short frame_truncated read_failed nil_message wrong_kind : AgwError
  wrapped : Error → AgwError

pub data AgwResult {ℓ} (A : Type ℓ) : Type ℓ where
  done : A → AgwResult A
  failed : AgwError → AgwResult A

-- `binary.LittleEndian.PutUint32` and `Uint32`.
abbrev pub put_uint32 : ℕ → Bytes
put_uint32 n = n % 256 ∷ (n / 256) % 256 ∷ (n / 65536) % 256 ∷ (n / 16777216) % 256 ∷ []

abbrev pub get_uint32 : Bytes → ℕ
get_uint32 bs =
    get_or bs 0 0 + 256 * get_or bs 1 0 + 65536 * get_or bs 2 0 + 16777216 * get_or bs 3 0

-- `setCallsign` on a slice of n bytes.
unfoldable pub set_callsign : ℕ → Bytes → Bytes
set_callsign zero s = []
set_callsign (suc n) [] = 0 ∷ set_callsign n []
set_callsign (suc n) (c ∷ cs) = c ∷ set_callsign n cs

-- `getCallsign`
unfoldable pub get_callsign : Bytes → Bytes
get_callsign [] = []
get_callsign (b ∷ bs) = if b == 0 then [] else b ∷ get_callsign bs

-- The header. The bytes that are not set are zero.
unfoldable pub header_of : AgwFrame → Bytes
header_of f =
    f.port
    ∷ 0
    ∷ 0
    ∷ 0
    ∷ f.kind
    ∷ 0
    ∷ f.pid
    ∷ 0
    ∷ (set_callsign callsign_len f.call_from
        ++ (set_callsign callsign_len f.call_to
            ++ (put_uint32 (length f.payload) ++ put_uint32 f.user)))

-- `Encode`
unfoldable pub encode_message : AgwFrame → AgwResult Bytes
encode_message f =
    if ltb max_data_len (length f.payload)
    then failed data_too_long
    else done (header_of f ++ f.payload)

-- The data length and the frame that a header stands for.
abbrev pub header_data_len : Bytes → ℕ
header_data_len header = get_uint32 (take 4 (drop 28 header))

unfoldable pub read_header : Bytes → Bytes → AgwFrame
read_header header payload = record {
  port = get_or header 0 0;
  kind = get_or header 4 0;
  pid = get_or header 6 0;
  call_from = get_callsign (take 10 (drop 8 header));
  call_to = get_callsign (take 10 (drop 18 header));
  payload = payload;
  user = get_uint32 (take 4 (drop 32 header));
}

-- `DecodeFrame`
unfoldable pub decode_message : Bytes → AgwResult AgwFrame
decode_message bytes =
    let data_len = header_data_len bytes in
    if ltb (length bytes) header_size
    then failed message_too_short
    else if ltb max_data_len data_len
    then failed data_too_long
    else if ltb (length bytes % 2 ^ 32) (header_size + data_len)
    then failed frame_truncated
    else done (read_header bytes (take data_len (drop header_size bytes)))

-- `ReadFrame` from a stream of bytes, with what is left of it. A stream that ends within a frame is a
-- failed read.
unfoldable pub read_message : Bytes → AgwResult (AgwFrame × Bytes)
read_message stream =
    let header = take header_size stream in
    let data_len = header_data_len header in
    let rest = drop header_size stream in
    if ltb (length stream) header_size
    then failed read_failed
    else if ltb max_data_len data_len
    then failed data_too_long
    else if ltb (length rest) data_len
    then failed read_failed
    else done (read_header header (take data_len rest), drop data_len rest)

-- `Decoder`. `header` holds the first `hdrN` bytes of the array, `payload` the first `dataN` of the
-- data; what the callback is given stands in `delivered`.
pub data DecoderState : Type 0 where
  in_header in_payload : DecoderState

pub record Decoder : Type 0 where
  pub has_callback : Bool
  pub state : DecoderState
  pub header : Bytes
  pub data_len : ℕ
  pub payload : Bytes
  pub delivered : List AgwFrame

abbrev pub reset_decoder : Decoder → Decoder
reset_decoder d = record d { state = in_header; header = []; payload = [] }

-- `deliver`
unfoldable pub deliver_message : Decoder → Decoder
deliver_message d =
    let f = read_header d.header (take d.data_len d.payload) in
    record (reset_decoder d) {
      delivered = if d.has_callback then d.delivered ++ (f ∷ []) else d.delivered;
    }

-- A header that is complete. The flag says that the data length is too large.
abbrev pub header_complete : Decoder → Decoder × Bool
header_complete d =
    let sized = record d { data_len = header_data_len d.header } in
    if ltb max_data_len sized.data_len
    then (reset_decoder sized, true)
    else if ltb 0 sized.data_len
    then (record sized { payload = []; state = in_payload }, false)
    else (deliver_message sized, false)

-- One round of the loop of `Write`.
abbrev pub take_byte : DecoderState → Decoder → ℕ → Decoder × Bool
take_byte in_header d b =
    let more = record d { header = d.header ++ (b ∷ []) } in
    if length more.header == header_size then header_complete more else (more, false)
take_byte in_payload d b =
    let more = record d { payload = d.payload ++ (b ∷ []) } in
    if leb more.data_len (length more.payload) then (deliver_message more, false) else (more, false)

-- `Write`. An error ends the loop; the bytes behind it are lost.
unfoldable pub write_messages : Decoder → Bytes → Decoder × Bool
write_messages d [] = (d, false)
write_messages d (b ∷ bs) =
    let r = take_byte d.state d b in
    let rest = write_messages r.0 bs in if r.1 then (r.0, true) else rest
