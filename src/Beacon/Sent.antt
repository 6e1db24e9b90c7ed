-- ===== src/Beacon/Sent.antt =====
-- ax25/beacon.go: the frame of a beacon as `encode_frame` takes it.
use go_ax.Base.{take, true, ◌≡◌}
use go_ax.Types.{Address, Frame, ctrl_ui, frame_ui, max_info_len, ok, pid_none}
use go_ax.Address.{parse_address}
use go_ax.Beacon.{BeaconConfig, unescape_text, via_path}

-- The frame of `send`, when both addresses are read.
abbrev frame_between : BeaconConfig → Address → Address → Frame
frame_between cfg src dst = record {
  destination = dst;
  source = src;
  digipeaters = via_path cfg.via;
  is_command = true;
  frame_type = frame_ui;
  control = ctrl_ui;
  pid = pid_none;
  payload = take max_info_len (unescape_text cfg.text);
}

-- The UI frame that the configuration of a beacon asks for: between the addresses that it names, by way
-- of those of its path that can be read, with its text, escapes replaced, cut to 256 bytes.
pub record IsBeacon (cfg : BeaconConfig) (f : Frame) : Type 0 where
  pub from : parse_address cfg.source ≡ ok f.source
  pub to : parse_address cfg.destination ≡ ok f.destination
  pub by_way : f.digipeaters ≡ via_path cfg.via
  pub commands : f.is_command ≡ true
  pub unnumbered : f.frame_type ≡ frame_ui
  pub controls : f.control ≡ ctrl_ui
  pub no_layer_3 : f.pid ≡ 0xf0
  pub says : f.payload ≡ take 256 (unescape_text cfg.text)
