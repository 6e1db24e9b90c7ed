-- ===== src/Pcap/Reader.antt =====
-- pcap/pcap.go: reading a capture file.
use go_ax.Base.{
  Bool, Bytes, Option, [], drop, false, if◌then◌else◌, leb, length, ltb, none, reverse, some, take,
  true, ℕ, ◌%◌, ◌*◌, ◌+◌, ◌/◌, ◌==◌,
}
use go_ax.Agwpe.{get_uint32}
use go_ax.Pcap.{
  Capture, PcapResult, Time, data_cut, end_of_file, got, header_cut, invalid_pcap, is_link_type,
  magic_microsec_be, magic_microsec_le, magic_nanosec_be, magic_nanosec_le, max_snap_len,
  pcap_failed, record_too_large, unsupported_link_type,
}

-- The byte order of a file is whether it is big-endian.
pub record PcapReader : Type 0 where
  pub link_type : ℕ
  pub big_endian : Bool
  pub nano : Bool
  pub rest : Bytes

-- `io.ReadFull`: what was read and the rest, or whether nothing was there.
pub data FullRead : Type 0 where
  full : Bytes → Bytes → FullRead
  short_read : Bool → FullRead

unfoldable pub read_full : ℕ → Bytes → FullRead
read_full n bs =
    if leb n (length bs) then full (take n bs) (drop n bs) else short_read (length bs == 0)

-- `Uint32` of the byte order, at the front of a slice.
abbrev pub uint32_in : Bool → Bytes → ℕ
uint32_in big bs = get_uint32 (if big then reverse (take 4 bs) else take 4 bs)

-- The byte order and the precision that a magic number tells.
abbrev pub variant_of : ℕ → Option (Bool × Bool)
variant_of magic =
    if magic == magic_microsec_le
    then some (false, false)
    else if magic == magic_nanosec_le
    then some (false, true)
    else if magic == magic_microsec_be
    then some (true, false)
    else if magic == magic_nanosec_be
    then some (true, true)
    else none

abbrev pub read_network : Bytes → Bytes → Option (Bool × Bool) → PcapResult PcapReader
read_network header rest none = pcap_failed invalid_pcap
read_network header rest (some (big, nano)) =
    let network = uint32_in big (drop 20 header) in
    if is_link_type network
    then got (record { link_type = network; big_endian = big; nano = nano; rest = rest })
    else pcap_failed (unsupported_link_type network)

abbrev pub read_global : FullRead → PcapResult PcapReader
read_global (short_read nothing) = pcap_failed invalid_pcap
read_global (full header rest) = read_network header rest (variant_of (uint32_in false header))

-- `NewReader`
unfoldable pub new_reader : Bytes → PcapResult PcapReader
new_reader bs = read_global (read_full 24 bs)

-- `time.Unix`
abbrev pub unix_time : ℕ → ℕ → Time
unix_time sec nsec = record { seconds = sec + nsec / 1_000_000_000; nanos = nsec % 1_000_000_000 }

abbrev pub record_time : PcapReader → Bytes → Time
record_time pr header =
    let sub = uint32_in pr.big_endian (drop 4 header) in
    unix_time (uint32_in pr.big_endian header) (if pr.nano then sub else sub * 1000)

-- A read that comes short takes all that is left.
abbrev pub read_data : PcapReader → Time → FullRead → PcapReader × PcapResult Capture
read_data pr time (short_read nothing) = (record pr { rest = [] }, pcap_failed (data_cut nothing))
read_data pr time (full bytes rest) =
    (record pr { rest = rest }, got (record { timestamp = time; bytes = bytes }))

abbrev pub read_behind : PcapReader → FullRead → PcapReader × PcapResult Capture
read_behind pr (short_read true) = (record pr { rest = [] }, pcap_failed end_of_file)
read_behind pr (short_read false) = (record pr { rest = [] }, pcap_failed header_cut)
read_behind pr (full header rest) =
    let len = uint32_in pr.big_endian (drop 8 header) in
    let past = record pr { rest = rest } in
    if ltb max_snap_len len
    then (past, pcap_failed (record_too_large len))
    else read_data past (record_time pr header) (read_full len rest)

-- `ReadRecord`
unfoldable pub read_record : PcapReader → PcapReader × PcapResult Capture
read_record pr = read_behind pr (read_full 16 pr.rest)
