-- ===== src/Kiss/RoundTrip.antt =====
-- ax25/kiss.go: `KISSEncode` and then the decoder.
use go_ax.Base.{
  All, All-append, Bytes, List, [], append-nil, append_assoc, arith, false, inr, refl, sym, true, ℕ,
  ◌%◌, ◌*◌, ◌++◌, ◌+◌, ◌/◌, ◌<◌, ◌∙◌, ◌∷◌, ◌≡◌, ◌≢◌, ◌⊎◌,
}
use go_ax.Types.{kiss_fend, kiss_fesc}
use go_ax.Kiss.{
  KissDecoder, KissFrame, append_data_byte, dispatch, escape, escape_byte, hunt, in_data,
  kiss_encode, step_in, write,
}
use go_ax.Base.Bits.{bit_or_nibbles}

-- Writing two pieces one after the other is writing them joined: how a stream is cut does not matter.
pub write-append : (d : KissDecoder) (xs ys : Bytes) → write d (xs ++ ys) ≡ write (write d xs) ys
unfolding write
write-append d [] ys = refl
write-append d (x ∷ xs) ys = write-append (step_in d.state d x) xs ys

-- Inside a frame, behind its header, an escaped byte adds the byte to the buffer.
write-escape_byte :
    (d : KissDecoder) (b : ℕ) (rest : Bytes)
    → d.state ≡ in_data
    → d.have_header ≡ true
    → write d (escape_byte b ++ rest) ≡ write (record d { buf = d.buf ++ (b ∷ []) }) rest
unfolding write escape_byte
write-escape_byte d b rest s h = ground arith

write-escape :
    (d : KissDecoder) (bs rest : Bytes)
    → d.state ≡ in_data
    → d.have_header ≡ true
    → write d (escape bs ++ rest) ≡ write (record d { buf = d.buf ++ bs }) rest
unfolding escape
write-escape d [] rest s h = rw append-nil
write-escape d (b ∷ bs) rest s h = rw append_assoc (
    write-escape_byte d b (escape bs ++ rest) s h
    ∙ write-escape (record d { buf = d.buf ++ (b ∷ []) }) bs rest s h
    ∙ rw append_assoc)

-- Between two frames: hunting, or behind a FEND with nothing read yet.
pub record IsIdle (d : KissDecoder) : Type 0 where
  pub between : (d.state ≡ hunt) ⊎ ((d.state ≡ in_data) × (d.have_header ≡ false))

-- The port and the command fit in four bits each, and their byte is none of the two marks.
pub record IsSendable (port cmd : ℕ) : Type 0 where
  pub port_small : port < 16
  pub cmd_small : cmd < 16
  pub ne_fend : port * 16 + cmd ≢ kiss_fend
  pub ne_fesc : port * 16 + cmd ≢ kiss_fesc

-- The decoder behind a frame: the frame is delivered and nothing else is pending.
abbrev pub after : KissDecoder → ℕ → ℕ → Bytes → KissDecoder
after d port cmd bytes = record d {
  state = in_data;
  buf = [];
  port = port;
  cmd = cmd;
  have_header = false;
  delivered = d.delivered ++ (record { port = port; cmd = cmd; payload = bytes } ∷ []);
}

-- What the decoder is inside a frame, behind its header.
abbrev inside : KissDecoder → ℕ → ℕ → KissDecoder
inside d port cmd = record d {
  state = in_data;
  buf = [];
  port = port;
  cmd = cmd;
  have_header = true;
}

write_header :
    (d : KissDecoder) (port cmd : ℕ) (rest : Bytes)
    → IsIdle d
    → IsSendable port cmd
    → write d (kiss_fend ∷ (port * 16 + cmd) ∷ rest) ≡ write (inside d port cmd) rest
unfolding write step_in append_data_byte
write_header d port cmd rest i s = ground arith

write_end :
    (d : KissDecoder) (port cmd : ℕ) (bytes : Bytes)
    → d.has_callback ≡ true
    → write (record (inside d port cmd) { buf = bytes }) (kiss_fend ∷ []) ≡ after d port cmd bytes
unfolding write dispatch
write_end d port cmd bytes h = ground arith

-- A decoder between frames that is given one encoded frame delivers exactly its port, command and
-- data, whatever bytes the data holds, and is between frames again.
pub write-kiss_encode :
    (d : KissDecoder) (port cmd : ℕ) (bytes : Bytes)
    → IsIdle d
    → d.has_callback ≡ true
    → IsSendable port cmd
    → write d (kiss_encode port cmd bytes) ≡ after d port cmd bytes
unfolding kiss_encode
write-kiss_encode d port cmd bytes i c s = rw (bit_or_nibbles port cmd s.port_small s.cmd_small) (
    write_header d port cmd (escape bytes ++ (kiss_fend ∷ [])) i s
    ∙ write-escape (inside d port cmd) bytes (kiss_fend ∷ []) refl refl
    ∙ write_end d port cmd bytes c)

-- The bytes of several frames, one behind the other.
pub kiss_encode_all : List KissFrame → Bytes
kiss_encode_all [] = []
kiss_encode_all (f ∷ fs) = kiss_encode f.port f.cmd f.payload ++ kiss_encode_all fs

-- A decoder between frames, with a callback, that is given a stream of encoded frames delivers these
-- frames, in their order, and nothing else, if the port and the command of each are four bits wide
-- and their byte is neither FEND nor FESC.
pub delivered-kiss_encode_all :
    (d : KissDecoder) (fs : List KissFrame)
    → IsIdle d
    → d.has_callback ≡ true
    → All (λ (f : KissFrame). IsSendable f.port f.cmd) fs
    → (write d (kiss_encode_all fs)).delivered ≡ d.delivered ++ fs
unfolding kiss_encode_all
delivered-kiss_encode_all d [] i c h = unfold write in sym (append-nil d.delivered)
delivered-kiss_encode_all d (f ∷ fs) i c h =
    rw
      (
        write-append d (kiss_encode f.port f.cmd f.payload) (kiss_encode_all fs),
        write-kiss_encode d f.port f.cmd f.payload i c h.0,
      )
      (delivered-kiss_encode_all (after d f.port f.cmd f.payload) fs
          (record { between = inr (refl, refl) }) c h.1
        ∙ append_assoc d.delivered (f ∷ []) fs)

-- No FEND stands between the first and the last byte of the data's encoding.
escape-ne-fend : (bs : Bytes) → All (λ b. b ≢ kiss_fend) (escape bs)
unfolding escape
escape-ne-fend [] = tt
escape-ne-fend (b ∷ bs) =
    All-append (λ b. b ≢ kiss_fend) (escape_byte b) (escape bs) (ground arith) (escape-ne-fend bs)

port_12_start :
    (d : KissDecoder) (b : ℕ) (rest : Bytes)
    → IsIdle d
    → b ≢ kiss_fend
    → b ≢ kiss_fesc
    → write d (kiss_fend ∷ kiss_fend ∷ (escape_byte b ++ rest))
      ≡ write (inside d (b / 16 % 16) (b % 16)) rest
unfolding write step_in append_data_byte escape_byte
port_12_start d b rest i n m = ground arith

-- Port 12 with command 0 makes the header byte a FEND: a decoder between frames, with a callback, then
-- takes the first byte of the data, if it is neither FEND nor FESC, for the header, and delivers the
-- rest under that byte's port and command.
pub write-kiss_encode_port_12 :
    (d : KissDecoder) (b : ℕ) (bytes : Bytes)
    → IsIdle d
    → d.has_callback ≡ true
    → b ≢ kiss_fend
    → b ≢ kiss_fesc
    → write d (kiss_encode 12 0 (b ∷ bytes)) ≡ after d (b / 16 % 16) (b % 16) bytes
unfolding kiss_encode
write-kiss_encode_port_12 d b bytes i c n m = rw append_assoc (
    port_12_start d b (escape bytes ++ (kiss_fend ∷ [])) i n m
    ∙ write-escape (inside d (b / 16 % 16) (b % 16)) bytes (kiss_fend ∷ []) refl refl
    ∙ write_end d (b / 16 % 16) (b % 16) bytes c)
