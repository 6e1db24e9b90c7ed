-- ===== src/Pcap/Tests.antt =====
-- Capture files at concrete inputs.
use go_ax.Base.{Bytes, [], arith, map, none, refl, replicate, some, take, true, ◌++◌, ◌∷◌, ◌≡◌}
use go_ax.Pcap.{
  Capture, create, data_cut, got, invalid_pcap, pcap_failed, record_header, unsupported_link_type,
}
use go_ax.Pcap.Cut.{read_record-cut}
use go_ax.Pcap.Reader.{PcapReader, new_reader, read_full, read_record}
use go_ax.Pcap.Replay.{
  IsCapture, Reads, micro, new_reader-create, onto, reader_of, write_captures, write_then,
}

abbrev capture : Capture
capture = record {
  timestamp = record { seconds = 1_700_000_000; nanos = 123_456_789 };
  bytes = 1 ∷ 2 ∷ 3 ∷ [];
}

abbrev empty_capture : Capture
empty_capture = record { timestamp = record { seconds = 5; nanos = 0 }; bytes = [] }

capture-IsCapture : IsCapture capture
capture-IsCapture = record { early = omega arith; below_second = omega arith; fits = omega arith }

empty_capture-IsCapture : IsCapture empty_capture
empty_capture-IsCapture = record {
  early = omega arith;
  below_second = omega arith;
  fits = omega arith;
}

-- A big-endian file with nanoseconds, and a link type that is not of the package.
pcap_runs :
    (new_reader (0xa1 ∷ 0xb2 ∷ 0x3c ∷ 0x4d ∷ (replicate 16 0 ++ 0 ∷ 0 ∷ 0 ∷ 202 ∷ 7 ∷ []))
      ≡ got (record { link_type = 202; big_endian = true; nano = true; rest = 7 ∷ [] }))
    × (new_reader (replicate 30 0) ≡ pcap_failed invalid_pcap)
    × ((create onto 1 []).1 ≡ some (unsupported_link_type 1))
unfolding new_reader read_full create
pcap_runs = (refl, refl, refl)

new_reader-create_example :
    (s : Bytes) × (pr : PcapReader) × (write_then
        (write_captures (capture ∷ empty_capture ∷ []))
        (create onto 3 [])
      ≡ (s, none))
    × (new_reader s ≡ got pr)
    × (pr.link_type ≡ 3)
    × Reads pr (map micro (capture ∷ empty_capture ∷ []))
new_reader-create_example =
    new_reader-create 3 (capture ∷ empty_capture ∷ []) refl
      (capture-IsCapture, (empty_capture-IsCapture, tt))

read_record-cut_example :
    (read_record (reader_of 3 (take 16 (record_header capture ++ capture.bytes)))).1
    ≡ pcap_failed (data_cut true)
read_record-cut_example = read_record-cut 3 16 capture capture-IsCapture (omega arith) (omega arith)
