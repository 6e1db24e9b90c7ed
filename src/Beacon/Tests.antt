-- ===== src/Beacon/Tests.antt =====
-- A beacon at a concrete configuration.
use go_ax.Base.{[], false, true, ℕ, ◌∷◌}
use go_ax.Types.{Address, Frame, frame_ui}
use go_ax.Beacon.{BeaconConfig}

-- From `A-1` to `B` by way of `R` and of a name that is none, with the text `h\x41\n\q`.
abbrev config : BeaconConfig
config = record {
  source = 97 ∷ 45 ∷ 49 ∷ [];
  destination = 66 ∷ [];
  via = 32 ∷ 82 ∷ 44 ∷ 43 ∷ [];
  text = 104 ∷ 92 ∷ 120 ∷ 52 ∷ 49 ∷ 92 ∷ 110 ∷ 92 ∷ 113 ∷ [];
}

abbrev named : ℕ → ℕ → Address
named c n = record { callsign = c ∷ []; ssid = n; has_been_repeated = false; is_last = false }

abbrev frame : Frame
frame = record {
  destination = named 66 0;
  source = named 65 1;
  digipeaters = named 82 0 ∷ [];
  is_command = true;
  frame_type = frame_ui;
  control = 0x03;
  pid = 0xF0;
  payload = 104 ∷ 65 ∷ 10 ∷ 92 ∷ 113 ∷ [];
}
