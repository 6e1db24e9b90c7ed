-- ===== src/Pcap/Cut.antt =====
-- pcap/pcap.go: a capture file that ends within a record.
use go_ax.Base.{
  Bool-cases, Bytes, [], ap, arith, drop, false, if◌then◌else◌, inl, inr, leb, length, length-take,
  ltb, ltb→lt, refl, suc, take, zero, ℕ, ◌++◌, ◌+◌, ◌-◌, ◌<◌, ◌==◌, ◌∙◌, ◌∷◌, ◌≡◌, ◌≤◌,
}
use go_ax.Agwpe.{get_uint32, put_uint32}
use go_ax.Agwpe.Wire.{get-put_uint32}
use go_ax.Pcap.{
  Capture, Time, data_cut, header_cut, max_snap_len, pcap_failed, record_header, record_too_large,
}
use go_ax.Pcap.Reader.{
  PcapReader, full, read_behind, read_data, read_full, read_record, record_time, short_read,
}
use go_ax.Pcap.Replay.{IsCapture, read_full-append, reader_of}

take_past : (m k : ℕ) (xs ys : Bytes) → m ≡ length xs + k → take m (xs ++ ys) ≡ xs ++ take k ys
take_past m k [] ys h = ap (λ n. take n ys) (omega (arith, h))
take_past zero k (x ∷ xs) ys h = absurd (omega arith)
take_past (suc m) k (x ∷ xs) ys h = ap (◌∷◌ x) (take_past m k xs ys (omega (arith, h)))

read_full-short :
    (n k : ℕ) (xs : Bytes) → k < n → length xs ≡ k → read_full n xs ≡ short_read (k == 0)
unfolding read_full
read_full-short n k xs h e =
    let few : leb n (length xs) ≡ false = ground (arith, h, e) in
    ap (λ c. if c then full (take n xs) (drop n xs) else short_read (length xs == 0)) few
    ∙ ap (λ m. short_read (m == 0)) e

read_data-short :
    (pr past : PcapReader) (t : Time) (len k : ℕ) (xs : Bytes)
    → len ≤ 65535
    → k < len
    → length xs ≡ k
    → (if ltb max_snap_len len
        then (past, pcap_failed (record_too_large len))
        else read_data pr t (read_full len xs))
      ≡ (record pr { rest = [] }, pcap_failed (data_cut (k == 0)))
read_data-short pr past t len k xs small h e =
    let no : ltb 65535 len ≡ false = ground (arith, small) in
    simp no (ap (read_data pr t) (read_full-short len k xs h e))

read_record-header_cut :
    (link k : ℕ) (bs : Bytes)
    → 0 < k
    → k < 16
    → length bs ≡ k
    → (read_record (reader_of link bs)).1 ≡ pcap_failed header_cut
unfolding read_record
read_record-header_cut link k bs h l e =
    let some_there : (k == 0) ≡ false = ground (arith, h) in
    ap (λ f. (read_behind (reader_of link bs) f).1) (read_full-short 16 k bs l e)
    ∙ ap (λ c. (read_behind (reader_of link bs) (short_read c)).1) some_there

read_record-data_cut :
    (link j : ℕ) (r : Capture)
    → IsCapture r
    → j < length r.bytes
    → (read_record (reader_of link (record_header r ++ take j r.bytes))).1
      ≡ pcap_failed (data_cut (j == 0))
unfolding read_record
read_record-data_cut link j r v h =
    let part = take j r.bytes in
    let pr = reader_of link (record_header r ++ part) in
    let past = reader_of link part in
    let len = get-put_uint32 (length r.bytes) (omega (arith, v.fits)) in
    ap (λ f. (read_behind pr f).1) (read_full-append 16 (record_header r) part refl)
    ∙ ap (λ p. p.1)
        (read_data-short past past (record_time pr (record_header r))
          (get_uint32 (put_uint32 (length r.bytes))) j part (omega (arith, len, v.fits))
          (omega (arith, len, h)) (omega (arith, length-take j r.bytes, h)))

-- Of a record as `WriteRecord` writes it, in a little-endian file with microseconds, of at most 65535
-- bytes: if the file has only its beginning, but not nothing, reading it is an error other than the end
-- of the file, which says whether the header of the record or its data is cut. Where just the header is
-- there, the error wraps the end of the file.
pub read_record-cut :
    (link k : ℕ) (r : Capture)
    → IsCapture r
    → 0 < k
    → k < 16 + length r.bytes
    → (read_record (reader_of link (take k (record_header r ++ r.bytes)))).1
      ≡ pcap_failed (if ltb k 16 then header_cut else data_cut (k == 16))
read_record-cut link k r v h l = elim (Bool-cases (ltb k 16)) [
  | inl cut ↦ simp cut (
      read_record-header_cut link k (take k (record_header r ++ r.bytes)) h (ltb→lt k 16 cut)
        (omega (arith, length-take k (record_header r ++ r.bytes), l)))
  | inr more ↦
      let j = k - 16 in
      let same : (j == 0) ≡ (k == 16) = ground (arith, more) in
      simp more (
        ap (λ bs. (read_record (reader_of link bs)).1)
          (take_past k j (record_header r) r.bytes (ground (arith, more)))
        ∙ read_record-data_cut link j r v (ground (arith, more, l, h))
        ∙ ap (λ c. pcap_failed (data_cut c)) same)
]
