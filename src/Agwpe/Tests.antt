-- ===== src/Agwpe/Tests.antt =====
-- Messages at concrete inputs.
use go_ax.Base.{Bytes, List, [], arith, false, map, refl, some, true, ℕ, ◌++◌, ◌∷◌, ◌≡◌}
use go_ax.Types.{Address, Frame, frame_ui}
use go_ax.Address.Wire.{IsStation}
use go_ax.Frame.RoundTrip.{IsSendable, on_wire}
use go_ax.Agwpe.{AgwFrame, Decoder, done, in_header, write_messages}
use go_ax.Agwpe.Wire.{IsMessage}
use go_ax.Agwpe.Stream.{encode_messages, write_messages-encode_messages}
use go_ax.Agwpe.Unproto.{IsUnproto, to_ax25_unproto, to_ax25_unproto-from_ax25_unproto}
use go_ax.Agwpe.Builders.{build_connect_via_req}
use go_ax.Agwpe.Convert.{from_ax25_raw, from_ax25_unproto, to_ax25, to_ax25-from_ax25_raw}
use go_ax.Frame.{identify_frame_type}
use go_ax.Address.{is_call_char, string}
use go_ax.Address.Text.{IsPlain}
use go_ax.Agwpe.Via.{parse_digi_path, parse_digi_path-build_connect_via_req}

abbrev data_message : AgwFrame
data_message = record {
  port = 1;
  kind = 68;
  pid = 0xF0;
  call_from = 65 ∷ 66 ∷ [];
  call_to = 67 ∷ [];
  payload = 1 ∷ 0 ∷ 2 ∷ [];
  user = 70000;
}

abbrev query : AgwFrame
query = record data_message { kind = 82; payload = [] }

data_message-IsMessage : IsMessage data_message
data_message-IsMessage = record {
  from_fits = record { fits = omega arith; no_zero = (refl, (refl, tt)) };
  to_fits = record { fits = omega arith; no_zero = (refl, tt) };
  short = omega arith;
  user_small = omega arith;
}

query-IsMessage : IsMessage query
query-IsMessage = record {
  from_fits = record { fits = omega arith; no_zero = (refl, (refl, tt)) };
  to_fits = record { fits = omega arith; no_zero = (refl, tt) };
  short = omega arith;
  user_small = omega arith;
}

abbrev empty_decoder : Decoder
empty_decoder = record {
  has_callback = true;
  state = in_header;
  header = [];
  data_len = 0;
  payload = [];
  delivered = [];
}

write_messages-encode_messages_example :
    (bytes : Bytes) × (encode_messages (data_message ∷ query ∷ []) ≡ done bytes)
    × ((write_messages empty_decoder bytes).0.delivered ≡ [] ++ (data_message ∷ query ∷ []))
    × ((write_messages empty_decoder bytes).1 ≡ false)
write_messages-encode_messages_example =
    write_messages-encode_messages empty_decoder (data_message ∷ query ∷ [])
      (record { at_header = refl; nothing_read = refl; no_payload = refl }) refl
      (data_message-IsMessage, (query-IsMessage, tt))

abbrev place : ℕ → Address
place n = record { callsign = n ∷ []; ssid = 3; has_been_repeated = false; is_last = false }

abbrev beacon : Frame
beacon = record {
  destination = place 66;
  source = place 65;
  digipeaters = place 82 ∷ [];
  is_command = true;
  frame_type = frame_ui;
  control = 0x03;
  pid = 0xF0;
  payload = 72 ∷ [];
}

place-IsStation : (n : ℕ) → is_call_char n ≡ true → IsStation (place n)
place-IsStation n h = record { fits = omega arith; chars = (h, tt); ssid_small = omega arith }

beacon-IsSendable : IsSendable beacon
unfolding identify_frame_type
beacon-IsSendable = record {
  to_station = place-IsStation 66 refl;
  from_station = place-IsStation 65 refl;
  via_stations = (place-IsStation 82 refl, tt);
  few = omega arith;
  short = omega arith;
  inner = refl;
  typed = refl;
}

beacon-IsUnproto : IsUnproto beacon
beacon-IsUnproto = record {
  to_plain = record {
    station = place-IsStation 66 refl;
    named = omega arith;
    unrepeated = refl;
    inner = refl;
  };
  from_plain = record {
    station = place-IsStation 65 refl;
    named = omega arith;
    unrepeated = refl;
    inner = refl;
  };
  via_plain = (
    record {
      station = place-IsStation 82 refl;
      named = omega arith;
      unrepeated = refl;
      inner = refl;
    },
    tt,
  );
  few = omega arith;
  short = omega arith;
  typed = refl;
  unnumbered = refl;
  has_pid = refl;
}

to_ax25-from_ax25_raw_example :
    (m : AgwFrame) × (from_ax25_raw (some beacon) 2 ≡ done m)
    × (to_ax25 (some m) ≡ done (on_wire beacon))
to_ax25-from_ax25_raw_example = to_ax25-from_ax25_raw beacon 2 beacon-IsSendable

to_ax25_unproto-from_ax25_unproto_example :
    (m : AgwFrame) × (from_ax25_unproto (some beacon) 2 ≡ done m)
    × (to_ax25_unproto (some m) ≡ done (record beacon { is_command = false }))
to_ax25_unproto-from_ax25_unproto_example =
    to_ax25_unproto-from_ax25_unproto beacon 2 beacon-IsUnproto

abbrev two_places : List Address
two_places = place 82 ∷ place 83 ∷ []

place-IsPlain : (n : ℕ) → is_call_char n ≡ true → IsPlain (place n)
place-IsPlain n h = record {
  station = place-IsStation n h;
  named = omega arith;
  unrepeated = refl;
  inner = refl;
}

parse_digi_path-build_connect_via_req_example :
    parse_digi_path (build_connect_via_req 0 (65 ∷ []) (66 ∷ []) (map string two_places)).payload
    ≡ two_places
parse_digi_path-build_connect_via_req_example =
    parse_digi_path-build_connect_via_req 0 (65 ∷ []) (66 ∷ []) two_places
      (place-IsPlain 82 refl, (place-IsPlain 83 refl, tt)) (omega arith)
