-- ===== src/Frame/Tests.antt =====
-- Frames at concrete inputs.
use go_ax.Base.{Bytes, [], arith, false, refl, true, ◌∷◌, ◌≡◌}
use go_ax.Types.{Address, Frame, frame_u, frame_ui, ok}
use go_ax.Address.Wire.{IsStation}
use go_ax.Frame.{
  encode_destination, encode_digis, encode_frame, encode_source, encode_tail, identify_frame_type,
  modify, parse_frame, parse_tail,
}
use go_ax.Frame.RoundTrip.{
  IsSendable, on_wire, parse_frame-encode_frame, parse_frame-encode_frame_end_bit,
}
use go_ax.Frame.Parsed.{IsParsed, parse_frame-IsParsed}
use go_ax.Address.{decode_address, encode}

abbrev beacon_addr : Address
beacon_addr = record {
  callsign = 66 ∷ 69 ∷ 65 ∷ 67 ∷ 79 ∷ 78 ∷ [];
  ssid = 0;
  has_been_repeated = false;
  is_last = false;
}

abbrev ended_addr : Address
ended_addr = record beacon_addr { is_last = true }

abbrev sender_addr : Address
sender_addr = record {
  callsign = 79 ∷ 75 ∷ 49 ∷ 65 ∷ [];
  ssid = 5;
  has_been_repeated = false;
  is_last = false;
}

abbrev relay_addr : Address
relay_addr = record {
  callsign = 87 ∷ 73 ∷ 68 ∷ 69 ∷ [];
  ssid = 1;
  has_been_repeated = true;
  is_last = false;
}

abbrev ui_frame : Address → Frame
ui_frame to = record {
  destination = to;
  source = sender_addr;
  digipeaters = relay_addr ∷ [];
  is_command = true;
  frame_type = frame_ui;
  control = 0x03;
  pid = 0xF0;
  payload = 72 ∷ 105 ∷ [];
}

beacon-IsStation : IsStation beacon_addr
beacon-IsStation = record {
  fits = omega arith;
  chars = (refl, (refl, (refl, (refl, (refl, (refl, tt))))));
  ssid_small = omega arith;
}

ended-IsStation : IsStation ended_addr
ended-IsStation = record {
  fits = omega arith;
  chars = (refl, (refl, (refl, (refl, (refl, (refl, tt))))));
  ssid_small = omega arith;
}

sender-IsStation : IsStation sender_addr
sender-IsStation = record {
  fits = omega arith;
  chars = (refl, (refl, (refl, (refl, tt))));
  ssid_small = omega arith;
}

relay-IsStation : IsStation relay_addr
relay-IsStation = record {
  fits = omega arith;
  chars = (refl, (refl, (refl, (refl, tt))));
  ssid_small = omega arith;
}

ui-IsSendable : IsSendable (ui_frame beacon_addr)
unfolding identify_frame_type
ui-IsSendable = record {
  to_station = beacon-IsStation;
  from_station = sender-IsStation;
  via_stations = (relay-IsStation, tt);
  few = omega arith;
  short = omega arith;
  inner = refl;
  typed = refl;
}

parse_frame-encode_frame_example :
    (bytes : Bytes) × (encode_frame (ui_frame beacon_addr) ≡ ok bytes)
    × (parse_frame bytes ≡ ok (on_wire (ui_frame beacon_addr)))
parse_frame-encode_frame_example = parse_frame-encode_frame (ui_frame beacon_addr) ui-IsSendable

parse_frame-encode_frame_end_bit_example :
    (bytes : Bytes) × (g : Frame) × (encode_frame (ui_frame ended_addr) ≡ ok bytes)
    × (parse_frame bytes ≡ ok g)
    × (g.digipeaters ≡ [])
parse_frame-encode_frame_end_bit_example =
    parse_frame-encode_frame_end_bit (ui_frame ended_addr) ended-IsStation sender-IsStation
      (omega arith) (omega arith) refl

-- `A>B`, a frame with no path.
abbrev short_bytes : Bytes
short_bytes =
    0x84 ∷ 0x40 ∷ 0x40 ∷ 0x40 ∷ 0x40 ∷ 0x40 ∷ 0xE0 ∷ 0x82 ∷ 0x40 ∷ 0x40 ∷ 0x40 ∷ 0x40 ∷ 0x40 ∷ 0x61
    ∷ 0x3F ∷ []

abbrev short_frame : Frame
short_frame = record {
  destination = record { callsign = 66 ∷ []; ssid = 0; has_been_repeated = true; is_last = false };
  source = record { callsign = 65 ∷ []; ssid = 0; has_been_repeated = false; is_last = true };
  digipeaters = [];
  is_command = true;
  frame_type = frame_u;
  control = 0x3F;
  pid = 0;
  payload = [];
}

short_parsed : parse_frame short_bytes ≡ ok short_frame
unfolding parse_frame parse_tail identify_frame_type decode_address
short_parsed = refl

parse_frame-IsParsed_example : IsParsed short_bytes short_frame
parse_frame-IsParsed_example = parse_frame-IsParsed short_bytes short_parsed

abbrev encoded_short : Frame
encoded_short = record (ui_frame beacon_addr) { digipeaters = []; payload = [] }

abbrev encoded_bytes : Bytes
encoded_bytes =
    0x84 ∷ 0x8A ∷ 0x82 ∷ 0x86 ∷ 0x9E ∷ 0x9C ∷ 0x80 ∷ 0x9E ∷ 0x96 ∷ 0x62 ∷ 0x82 ∷ 0x40 ∷ 0x40 ∷ 0x0B
    ∷ 0x03 ∷ 0xF0 ∷ []

encoded : encode_frame encoded_short ≡ ok encoded_bytes
unfolding encode_frame encode_destination encode_source encode_digis encode_tail encode modify
encoded = refl
