-- ===== src/Kiss.antt =====
-- ax25/kiss.go: KISS framing and the streaming decoder. The callback appends to `delivered`.
mod Tests
pub mod RoundTrip
use Prim.Native.Nat.{bit_or}
use go_ax.Base.{
  Bool, Bytes, List, [], false, if◌then◌else◌, not, true, ℕ, ◌%◌, ◌*◌, ◌++◌, ◌/◌, ◌==◌, ◌∷◌,
}
use go_ax.Types.{kiss_fend, kiss_fesc, kiss_tfend, kiss_tfesc}

-- What one byte of the data becomes.
unfoldable pub escape_byte : ℕ → Bytes
escape_byte b =
    if b == kiss_fend
    then kiss_fesc ∷ kiss_tfend ∷ []
    else if b == kiss_fesc
    then kiss_fesc ∷ kiss_tfesc ∷ []
    else b ∷ []

unfoldable pub escape : Bytes → Bytes
unfolding escape_byte
escape [] = []
escape (b ∷ bs) = escape_byte b ++ escape bs

-- `(port << 4) | cmd`
abbrev pub header_byte : ℕ → ℕ → ℕ
header_byte port cmd = bit_or (port * 16 % 256) cmd

-- `KISSEncode`
unfoldable pub kiss_encode : ℕ → ℕ → Bytes → Bytes
unfolding escape
kiss_encode port cmd bytes = kiss_fend ∷ header_byte port cmd ∷ (escape bytes ++ (kiss_fend ∷ []))

pub data KissState : Type 0 where
  hunt in_data in_escape : KissState

-- The arguments of one call of the callback.
pub record KissFrame : Type 0 where
  pub port : ℕ
  pub cmd : ℕ
  pub payload : Bytes

pub record KissDecoder : Type 0 where
  pub has_callback : Bool
  pub state : KissState
  pub buf : Bytes
  pub port : ℕ
  pub cmd : ℕ
  pub have_header : Bool
  pub delivered : List KissFrame

-- `NewKISSDecoder`; the flag says whether the callback is there.
unfoldable pub new_decoder : Bool → KissDecoder
new_decoder has_callback = record {
  has_callback = has_callback;
  state = hunt;
  buf = [];
  port = 0;
  cmd = 0;
  have_header = false;
  delivered = [];
}

unfoldable pub append_data_byte : KissDecoder → ℕ → KissDecoder
append_data_byte d b =
    if not d.have_header
    then record d { port = b / 16 % 16; cmd = b % 16; have_header = true }
    else record d { buf = d.buf ++ (b ∷ []) }

unfoldable pub dispatch : KissDecoder → KissDecoder
dispatch d =
    if d.has_callback
    then record d {
      delivered = d.delivered ++ (record { port = d.port; cmd = d.cmd; payload = d.buf } ∷ []);
    }
    else d

-- One round of the loop of `Write`, by the decoder's state.
unfoldable pub step_in : KissState → KissDecoder → ℕ → KissDecoder
unfolding append_data_byte dispatch
step_in hunt d b =
    if b == kiss_fend then record d { state = in_data; buf = []; have_header = false } else d
step_in in_data d b =
    if b == kiss_fend
    then record (if d.have_header then dispatch d else d) { buf = []; have_header = false }
    else if b == kiss_fesc
    then record d { state = in_escape }
    else append_data_byte d b
step_in in_escape d b =
    let d' = record d { state = in_data } in
    append_data_byte d'
      (if b == kiss_tfend then kiss_fend else if b == kiss_tfesc then kiss_fesc else b)

-- `Write`. It reads all its bytes and never fails.
unfoldable pub write : KissDecoder → Bytes → KissDecoder
unfolding step_in
write d [] = d
write d (b ∷ bs) = write (step_in d.state d b) bs

-- `Reset`
unfoldable pub reset : KissDecoder → KissDecoder
reset d = record d { state = hunt; buf = []; have_header = false }
