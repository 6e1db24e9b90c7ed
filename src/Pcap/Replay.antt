-- ===== src/Pcap/Replay.antt =====
-- pcap/pcap.go: what was written to a capture file is read back.
use mathlib.Core.Path.{subst}
use go_ax.Base.{
  All, Bool, Bytes, List, Option, [], ap, append-nil, append_assoc, arith, drop_exact, false,
  if◌then◌else◌, leb, length, length-append, ltb, map, none, not, refl, some, suc, sym, take_exact,
  true, ℕ, ◌%◌, ◌*◌, ◌++◌, ◌+◌, ◌/◌, ◌<◌, ◌∙◌, ◌∷◌, ◌≡◌, ◌≤◌,
}
use go_ax.Pcap.{
  Capture, PcapError, Time, create, end_of_file, global_header, got, is_link_type, max_snap_len,
  pcap_failed, record_header, record_too_large, unsupported_link_type, write_data, write_record,
  written,
}
use go_ax.Pcap.Reader.{
  PcapReader, full, new_reader, read_behind, read_data, read_full, read_global, read_record,
  record_time, unix_time,
}
use go_ax.Agwpe.{get_uint32, put_uint32}
use go_ax.Agwpe.Wire.{get-put_uint32}

-- A record that a file can hold: its time is before 2106, and its data is not too long.
pub record IsCapture (r : Capture) : Type 0 where
  pub early : r.timestamp.seconds < 4294967296
  pub below_second : r.timestamp.nanos < 1000000000
  pub fits : length r.bytes ≤ 65535

-- The record with its time cut to microseconds.
abbrev pub micro : Capture → Capture
micro r = record r {
  timestamp = record { seconds = r.timestamp.seconds; nanos = r.timestamp.nanos / 1000 * 1000 };
}

-- A sink that takes everything, and records that are written one by one to a sink, up to an error.
abbrev pub onto : Bytes → Bytes → Bytes × Bool
onto bs s = (s ++ bs, true)

abbrev pub write_then :
    (Bytes → Bytes × Option PcapError) → Bytes × Option PcapError → Bytes × Option PcapError
write_then next (s, none) = next s
write_then next (s, some e) = (s, some e)

unfoldable pub write_captures : List Capture → Bytes → Bytes × Option PcapError
write_captures [] s = (s, none)
write_captures (r ∷ rs) s = write_then (write_captures rs) (write_record onto r s)

-- The reader gives just these records, and then the end of the file.
unfoldable pub Reads : PcapReader → List Capture → Type 0
Reads pr [] = (read_record pr).1 ≡ pcap_failed end_of_file
Reads pr (r ∷ rs) = ((read_record pr).1 ≡ got r) × Reads (read_record pr).0 rs

-- The bytes of records.
abbrev captures_bytes : List Capture → Bytes
captures_bytes [] = []
captures_bytes (r ∷ rs) = record_header r ++ (r.bytes ++ captures_bytes rs)

pub read_full-append : (n : ℕ) (xs ys : Bytes) → length xs ≡ n → read_full n (xs ++ ys) ≡ full xs ys
unfolding read_full
read_full-append n xs ys h =
    let enough : leb n (length (xs ++ ys)) ≡ true = ground (arith, length-append {0} xs ys, h) in
    rw (enough, take_exact n xs ys h, drop_exact n xs ys h) refl

behind_header :
    (h bs s : Bytes)
    → (if ltb 0 (length bs) then written onto (onto bs (s ++ h)) else (s ++ h, none))
      ≡ (s ++ (h ++ bs), none)
behind_header h [] s = ap (λ t. (s ++ t, none)) (sym (append-nil h))
behind_header h (b ∷ bs) s =
    let more : ltb 0 (suc (length bs)) ≡ true = ground arith in
    simp more (ap (λ t. (t, none)) (append_assoc s h (b ∷ bs)))

write_record-onto :
    (r : Capture) (s : Bytes)
    → length r.bytes ≤ 65535
    → write_record onto r s ≡ (s ++ (record_header r ++ r.bytes), none)
unfolding write_record
write_record-onto r s small =
    let no : ltb 65535 (length r.bytes) ≡ false = ground (arith, small) in
    ap
      (λ c.
        if c
        then (s, some (record_too_large (length r.bytes)))
        else write_data onto r (onto (record_header r) s))
      no
    ∙ behind_header (record_header r) r.bytes s

write_captures-onto :
    (rs : List Capture) (s : Bytes)
    → All IsCapture rs
    → write_captures rs s ≡ (s ++ captures_bytes rs, none)
unfolding write_captures
write_captures-onto [] s v = ap (λ t. (t, none)) (sym (append-nil s))
write_captures-onto (r ∷ rs) s v =
    ap (write_then (write_captures rs)) (write_record-onto r s v.0.fits)
    ∙ write_captures-onto rs (s ++ (record_header r ++ r.bytes)) v.1
    ∙ ap (λ t. (t, none))
        (append_assoc s (record_header r ++ r.bytes) (captures_bytes rs)
          ∙ ap (◌++◌ s) (append_assoc (record_header r) r.bytes (captures_bytes rs)))

-- A reader of a little-endian file with microseconds.
abbrev pub reader_of : ℕ → Bytes → PcapReader
reader_of link bs = record { link_type = link; big_endian = false; nano = false; rest = bs }

unix_time_small : (s n : ℕ) → n < 1000000000 → unix_time s n ≡ record { seconds = s; nanos = n }
unix_time_small s n small =
    let sec : s + n / 1000000000 ≡ s = omega (arith, small) in
    let sub : n % 1000000000 ≡ n = omega (arith, small) in
    ap (λ a. record { seconds = a; nanos = n % 1000000000 }) sec
    ∙ ap (λ a. record { seconds = s; nanos = a }) sub

record_time-header :
    (link : ℕ) (bs : Bytes) (r : Capture)
    → IsCapture r
    → record_time (reader_of link bs) (record_header r) ≡ (micro r).timestamp
record_time-header link bs r v =
    let sec : get_uint32 (put_uint32 (r.timestamp.seconds % 4294967296)) ≡ r.timestamp.seconds =
      get-put_uint32 (r.timestamp.seconds % 4294967296) (omega arith) ∙ omega (arith, v.early) in
    let sub : get_uint32 (put_uint32 (r.timestamp.nanos / 1000)) ≡ r.timestamp.nanos / 1000 =
      get-put_uint32 (r.timestamp.nanos / 1000) (omega (arith, v.below_second)) in
    ap (λ n. unix_time n (get_uint32 (put_uint32 (r.timestamp.nanos / 1000)) * 1000)) sec
    ∙ ap (λ n. unix_time r.timestamp.seconds (n * 1000)) sub
    ∙ unix_time_small r.timestamp.seconds (r.timestamp.nanos / 1000 * 1000)
        (omega (arith, v.below_second))

read_data-append :
    (pr : PcapReader) (t : Time) (len : ℕ) (bs tail : Bytes)
    → len ≡ length bs
    → length bs ≤ 65535
    → (if ltb max_snap_len len
        then (record pr { rest = bs ++ tail }, pcap_failed (record_too_large len))
        else read_data (record pr { rest = bs ++ tail }) t (read_full len (bs ++ tail)))
      ≡ (record pr { rest = tail }, got (record { timestamp = t; bytes = bs }))
read_data-append pr t len bs tail h small =
    let no : ltb 65535 len ≡ false = ground (arith, h, small) in
    simp no
      (ap (read_data (record pr { rest = bs ++ tail }) t) (read_full-append len bs tail (sym h)))

pub read_record-header :
    (link : ℕ) (r : Capture) (tail : Bytes)
    → IsCapture r
    → read_record (reader_of link (record_header r ++ (r.bytes ++ tail)))
      ≡ (reader_of link tail, got (micro r))
unfolding read_record
read_record-header link r tail v =
    let pr = reader_of link (record_header r ++ (r.bytes ++ tail)) in
    ap (read_behind pr) (read_full-append 16 (record_header r) (r.bytes ++ tail) refl)
    ∙ read_data-append pr (record_time pr (record_header r))
        (get_uint32 (put_uint32 (length r.bytes))) r.bytes tail
        (get-put_uint32 (length r.bytes) (omega (arith, v.fits))) v.fits
    ∙ ap (λ t. (reader_of link tail, got (record { timestamp = t; bytes = r.bytes })))
        (record_time-header link pr.rest r v)

Reads-captures :
    (link : ℕ) (rs : List Capture)
    → All IsCapture rs
    → Reads (reader_of link (captures_bytes rs)) (map micro rs)
unfolding Reads read_record read_full
Reads-captures link [] v = refl
Reads-captures link (r ∷ rs) v =
    let first = read_record-header link r (captures_bytes rs) v.0 in
    (
      ap (λ p. p.1) first,
      subst (λ p. Reads p.0 (map micro rs)) (sym first) (Reads-captures link rs v.1),
    )

is_link_type-small : (link : ℕ) → is_link_type link ≡ true → link < 4294967296
is_link_type-small link h = ground (arith, h)

new_reader-header :
    (link : ℕ) (bs : Bytes)
    → is_link_type link ≡ true
    → new_reader (global_header link ++ bs) ≡ got (reader_of link bs)
unfolding new_reader
new_reader-header link bs h =
    ap read_global (read_full-append 24 (global_header link) bs refl)
    ∙ ap
        (λ n.
          if is_link_type n then got (reader_of n bs) else pcap_failed (unsupported_link_type n))
        (get-put_uint32 link (is_link_type-small link h))
    ∙ ap (λ c. if c then got (reader_of link bs) else pcap_failed (unsupported_link_type link)) h

-- A capture file that Create and WriteRecord have written, with a link type of the package and any number
-- of records whose seconds fit 32 bits, whose nanoseconds are less than a second and whose data has at
-- most 65535 bytes, is written without an error, and a reader of it has the link type and gives just these
-- records, in order and with their times cut to microseconds, and then the end of the file.
pub new_reader-create :
    (link : ℕ) (rs : List Capture)
    → is_link_type link ≡ true
    → All IsCapture rs
    → (s : Bytes) × (pr : PcapReader) × (write_then (write_captures rs) (create onto link [])
        ≡ (s, none))
      × (new_reader s ≡ got pr)
      × (pr.link_type ≡ link)
      × Reads pr (map micro rs)
unfolding create
new_reader-create link rs h v = (
  global_header link ++ captures_bytes rs,
  reader_of link (captures_bytes rs),
  ap
        (λ c.
          write_then (write_captures rs)
            (if not c then ([], some (unsupported_link_type link)) else (global_header link, none)))
        h
      ∙ write_captures-onto rs (global_header link) v,
  new_reader-header link (captures_bytes rs) h,
  refl,
  Reads-captures link rs v,
)
