-- ===== src/Agwpe/Stream.antt =====
-- agwpe/frame.go: the streaming decoder over a stream of encoded messages.
use go_ax.Base.{
  All, Bool, Bytes, List, [], ap, append-nil, append_assoc, arith, false, if◌then◌else◌, leb,
  length, length-append, ltb, refl, suc, sym, true, ℕ, ◌++◌, ◌+◌, ◌<◌, ◌==◌, ◌∙◌, ◌∷◌, ◌≡◌,
}
use go_ax.Agwpe.{
  AgwFrame, AgwResult, Decoder, deliver_message, done, encode_message, failed, header_complete,
  header_data_len, header_of, in_header, in_payload, read_header, write_messages,
}
use go_ax.Agwpe.Wire.{IsMessage, length-header_of}
use go_ax.Agwpe.RoundTrip.{encode_message-ok, header_data_len-alone, read_header-alone, take_all}

-- The loop of `Write` behind a byte.
abbrev continue : Decoder × Bool → Bytes → Decoder × Bool
continue r bs = if r.1 then (r.0, true) else write_messages r.0 bs

write-early :
    (x : ℕ) (ys : Bytes) (d : Decoder)
    → d.state ≡ in_header
    → length d.header + 1 < 36
    → write_messages d (x ∷ ys) ≡ write_messages (record d { header = d.header ++ (x ∷ []) }) ys
unfolding write_messages
write-early x ys d s h =
    let early : (length (d.header ++ (x ∷ [])) == 36) ≡ false =
      ground (arith, length-append {0} d.header (x ∷ [])) in
    simp (s, early) refl

write-header :
    (x : ℕ) (xs ys : Bytes) (d : Decoder)
    → d.state ≡ in_header
    → length d.header + length (x ∷ xs) ≡ 36
    → write_messages d ((x ∷ xs) ++ ys)
      ≡ continue (header_complete (record d { header = d.header ++ (x ∷ xs) })) ys
unfolding write_messages
write-header x [] ys d s h = rw (s, length-append {0} d.header (x ∷ []), h) refl
write-header x (x' ∷ xs) ys d s h =
    let more = record d { header = d.header ++ (x ∷ []) } in
    let size = length-append {0} d.header (x ∷ []) in
    write-early x (x' ∷ xs ++ ys) d s (omega (arith, h))
    ∙ write-header x' xs ys more s (omega (arith, size, h))
    ∙ simp append_assoc refl

write-part :
    (x : ℕ) (ys : Bytes) (d : Decoder)
    → d.state ≡ in_payload
    → length d.payload + 1 < d.data_len
    → write_messages d (x ∷ ys) ≡ write_messages (record d { payload = d.payload ++ (x ∷ []) }) ys
unfolding write_messages
write-part x ys d s h =
    let early : leb d.data_len (length (d.payload ++ (x ∷ []))) ≡ false =
      ground (arith, length-append {0} d.payload (x ∷ [])) in
    simp (s, early) refl

write-payload :
    (x : ℕ) (xs ys : Bytes) (d : Decoder)
    → d.state ≡ in_payload
    → length d.payload + length (x ∷ xs) ≡ d.data_len
    → write_messages d ((x ∷ xs) ++ ys)
      ≡ write_messages (deliver_message (record d { payload = d.payload ++ (x ∷ xs) })) ys
unfolding write_messages
write-payload x [] ys d s h =
    let last : leb d.data_len (length (d.payload ++ (x ∷ []))) ≡ true =
      ground (arith, length-append {0} d.payload (x ∷ [])) in
    simp (s, last) refl
write-payload x (x' ∷ xs) ys d s h =
    let more = record d { payload = d.payload ++ (x ∷ []) } in
    let size = length-append {0} d.payload (x ∷ []) in
    write-part x (x' ∷ xs ++ ys) d s (omega (arith, h))
    ∙ write-payload x' xs ys more s (omega (arith, size, h))
    ∙ simp append_assoc refl

-- Between two messages.
pub record IsBetween (d : Decoder) : Type 0 where
  pub at_header : d.state ≡ in_header
  pub nothing_read : d.header ≡ []
  pub no_payload : d.payload ≡ []

-- The decoder behind a message.
abbrev past : Decoder → AgwFrame → Decoder
past d f = record d {
  state = in_header;
  header = [];
  data_len = length f.payload;
  payload = [];
  delivered = d.delivered ++ (f ∷ []);
}

header-alone :
    (f : AgwFrame) (d : Decoder)
    → f.payload ≡ []
    → IsMessage f
    → d.has_callback ≡ true
    → d.header ≡ header_of f
    → header_complete d ≡ (past d f, false)
unfolding deliver_message
header-alone f d e m cb h =
    let none_left : length f.payload ≡ 0 = ap length e in
    let size : header_data_len d.header ≡ 0 =
      ap header_data_len h ∙ header_data_len-alone f m ∙ none_left in
    let frame : read_header d.header [] ≡ f = rw h (rw (sym e) (read_header-alone f m)) in
    simp (size, cb, none_left, frame) refl

header-sized :
    (f : AgwFrame) (x : ℕ) (xs : Bytes) (d : Decoder)
    → f.payload ≡ x ∷ xs
    → IsMessage f
    → d.header ≡ header_of f
    → header_complete d
      ≡ (record d { data_len = length f.payload; payload = []; state = in_payload }, false)
header-sized f x xs d e m h =
    let some_left : length f.payload ≡ suc (length xs) = ap length e in
    let size : header_data_len d.header ≡ length f.payload =
      ap header_data_len h ∙ header_data_len-alone f m in
    let small : ltb 4096 (length f.payload) ≡ false = ground (arith, m.short) in
    let more : ltb 0 (length f.payload) ≡ true = ground (arith, some_left) in
    simp (size, small, more) refl

payload-delivered :
    (f : AgwFrame) (d : Decoder)
    → IsMessage f
    → d.has_callback ≡ true
    → d.header ≡ header_of f
    → deliver_message
        (record d { data_len = length f.payload; payload = f.payload; state = in_payload })
      ≡ past d f
unfolding deliver_message
payload-delivered f d m cb h =
    let frame : read_header d.header f.payload ≡ f = rw h (read_header-alone f m) in
    simp (take_all f.payload, cb, frame) refl

-- The bytes of the payload, behind a header that has been read.
write-rest :
    (f : AgwFrame) (p ys : Bytes) (d : Decoder)
    → f.payload ≡ p
    → IsMessage f
    → d.has_callback ≡ true
    → d.header ≡ header_of f
    → continue (header_complete d) (p ++ ys) ≡ write_messages (past d f) ys
write-rest f [] ys d e m cb h = ap (λ r. continue r ys) (header-alone f d e m cb h)
write-rest f (x ∷ xs) ys d e m cb h =
    let sized = record d { data_len = length f.payload; payload = []; state = in_payload } in
    ap (λ r. continue r (x ∷ xs ++ ys)) (header-sized f x xs d e m h)
    ∙ write-payload x xs ys sized refl (omega (arith, ap length e))
    ∙ ap (λ q. write_messages (deliver_message (record sized { payload = q })) ys) (sym e)
    ∙ ap (λ r. write_messages r ys) (payload-delivered f d m cb h)

-- A decoder between messages that is given an encoded message is between messages again, and has
-- given the message to its callback.
write-message :
    (f : AgwFrame) (ys : Bytes) (d : Decoder)
    → IsBetween d
    → d.has_callback ≡ true
    → IsMessage f
    → write_messages d (header_of f ++ (f.payload ++ ys)) ≡ write_messages (past d f) ys
unfolding header_of
write-message f ys d b cb m =
    write-header f.port _ (f.payload ++ ys) d b.at_header
      (omega (arith, length-header_of f, ap length b.nothing_read))
    ∙ write-rest f f.payload ys (record d { header = d.header ++ header_of f }) refl m cb
        (ap (λ h. h ++ header_of f) b.nothing_read)

write_messages-nil : (d : Decoder) → write_messages d [] ≡ (d, false)
unfolding write_messages
write_messages-nil d = refl

abbrev pub joined : AgwResult Bytes → AgwResult Bytes → AgwResult Bytes
joined (done xs) (done ys) = done (xs ++ ys)
joined (done xs) (failed e) = failed e
joined (failed e) r = failed e

-- `encode_message` of some messages, one behind the other.
unfoldable pub encode_messages : List AgwFrame → AgwResult Bytes
encode_messages [] = done []
encode_messages (f ∷ fs) = joined (encode_message f) (encode_messages fs)

-- Messages that fit their fields are encoded, and a decoder between messages, with a callback, that is
-- given the bytes delivers these messages, in their order and nothing else, and fails nowhere.
pub write_messages-encode_messages :
    (d : Decoder) (fs : List AgwFrame)
    → IsBetween d
    → d.has_callback ≡ true
    → All IsMessage fs
    → (bytes : Bytes) × (encode_messages fs ≡ done bytes)
      × ((write_messages d bytes).0.delivered ≡ d.delivered ++ fs)
      × ((write_messages d bytes).1 ≡ false)
unfolding encode_messages
write_messages-encode_messages d [] b cb m = (
  [],
  refl,
  rw (write_messages-nil d) (sym (append-nil d.delivered)),
  rw (write_messages-nil d) refl,
)
write_messages-encode_messages d (f ∷ fs) b cb m =
    let next : IsBetween (past d f) = record {
      at_header = refl;
      nothing_read = refl;
      no_payload = refl;
    } in
    let (bytes, encoded, delivered, fine) =
      write_messages-encode_messages (past d f) fs next cb m.1 in
    let here = append_assoc (header_of f) f.payload bytes in
    let written = write-message f bytes d b cb m.0 in
    (
      (header_of f ++ f.payload) ++ bytes,
      rw (encode_message-ok f m.0.short, encoded) refl,
      rw (here, written) (delivered ∙ append_assoc d.delivered (f ∷ []) fs),
      rw (here, written) fine,
    )
