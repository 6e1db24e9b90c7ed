-- ===== src/Pcap.antt =====
-- pcap/pcap.go: capture files.
--
-- What is written goes to a sink, a parameter that says of every write whether it worked. What is read
-- is the rest of a stream of bytes, which ends and does not fail otherwise. A time is counted from 1970.
mod Tests
pub mod Reader
pub mod Replay
pub mod Cut
use go_ax.Base.{
  Bool, Bytes, Option, false, if◌then◌else◌, length, ltb, none, not, some, true, ℕ, ◌%◌, ◌++◌, ◌/◌,
  ◌==◌, ◌^◌, ◌||◌, ◌∷◌,
}
use go_ax.Agwpe.{put_uint32}

pub record Time : Type 0 where
  pub seconds : ℕ
  pub nanos : ℕ

pub record Capture : Type 0 where
  pub timestamp : Time
  pub bytes : Bytes

abbrev pub link_type_ax25 : ℕ
link_type_ax25 = 3

abbrev pub link_type_kiss : ℕ
link_type_kiss = 202

abbrev pub is_link_type : ℕ → Bool
is_link_type n = n == link_type_ax25 || n == link_type_kiss

abbrev pub max_snap_len : ℕ
max_snap_len = 65535

-- The errors of the package, that of a sink, and the end of the stream. `data_cut` says whether none of
-- the data was there, in which case the error wraps `io.EOF`.
pub data PcapError : Type 0 where
  invalid_pcap end_of_file header_cut sink_failed : PcapError
  unsupported_link_type record_too_large : ℕ → PcapError
  data_cut : Bool → PcapError

pub data PcapResult (A : Type 0) : Type 0 where
  got : A → PcapResult A
  pcap_failed : PcapError → PcapResult A

-- The magic numbers, read as little-endian.
abbrev pub magic_microsec_le : ℕ
magic_microsec_le = 0xa1b2c3d4

abbrev pub magic_nanosec_le : ℕ
magic_nanosec_le = 0xa1b23c4d

abbrev pub magic_microsec_be : ℕ
magic_microsec_be = 0xd4c3b2a1

abbrev pub magic_nanosec_be : ℕ
magic_nanosec_be = 0x4d3cb2a1

-- The global header: version 2.4, no zone, no figures.
abbrev pub global_header : ℕ → Bytes
global_header link =
    put_uint32 magic_microsec_le
    ++ 2
      ∷ 0
      ∷ 4
      ∷ 0
      ∷ (put_uint32 0 ++ (put_uint32 0 ++ (put_uint32 max_snap_len ++ put_uint32 link)))

abbrev pub record_header : Capture → Bytes
record_header r =
    put_uint32 (r.timestamp.seconds % 2 ^ 32)
    ++ (put_uint32 (r.timestamp.nanos / 1000)
        ++ (put_uint32 (length r.bytes) ++ put_uint32 (length r.bytes)))

module _ {S : Type 0} (sink : Bytes → S → S × Bool) where
  abbrev pub written : S × Bool → S × Option PcapError
  written (s, true) = (s, none)
  written (s, false) = (s, some sink_failed)

  -- `Create`; the writer is the sink and nothing more that matters.
  unfoldable pub create : ℕ → S → S × Option PcapError
  create link s =
      if not (is_link_type link)
      then (s, some (unsupported_link_type link))
      else written (sink (global_header link) s)

  abbrev pub write_data : Capture → S × Bool → S × Option PcapError
  write_data r (s, false) = (s, some sink_failed)
  write_data r (s, true) = if ltb 0 (length r.bytes) then written (sink r.bytes s) else (s, none)

  -- `WriteRecord`
  unfoldable pub write_record : Capture → S → S × Option PcapError
  write_record r s =
      if ltb max_snap_len (length r.bytes)
      then (s, some (record_too_large (length r.bytes)))
      else write_data r (sink (record_header r) s)
