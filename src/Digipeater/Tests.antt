-- ===== src/Digipeater/Tests.antt =====
-- A digipeater at a concrete frame.
use go_ax.Base.{Bool, [], false, true, ℕ, ◌++◌, ◌+◌, ◌∷◌, ◌≡◌, ◌⊎◌}
use go_ax.Types.{Address, Frame, frame_ui}
use go_ax.Digipeater.{Digipeater, is_next_digi_hop, on_digi_frame}
use go_ax.Digipeater.Relay.{advance, hops_left, on_digi_frame_lem}

abbrev hop : ℕ → Bool → Address
hop n repeated = record {
  callsign = 82 ∷ 76 ∷ 89 ∷ [];
  ssid = n;
  has_been_repeated = repeated;
  is_last = false;
}

abbrev two_hops : Frame
two_hops = record {
  destination = hop 9 false;
  source = hop 8 false;
  digipeaters = hop 1 true ∷ hop 2 false ∷ [];
  is_command = true;
  frame_type = frame_ui;
  control = 0x03;
  pid = 0xF0;
  payload = 72 ∷ [];
}

abbrev second : Digipeater
second = record { addr = hop 2 false; enabled = true; relayed = [] }

on_digi_frame_lem_example :
    ((is_next_digi_hop two_hops.digipeaters second.addr ≡ true)
      × ((on_digi_frame two_hops second).relayed
          ≡ second.relayed ++ (record two_hops { digipeaters = advance two_hops.digipeaters } ∷ []))
      × (hops_left two_hops.digipeaters ≡ hops_left (advance two_hops.digipeaters) + 1))
    ⊎ ((is_next_digi_hop two_hops.digipeaters second.addr ≡ false)
        × (on_digi_frame two_hops second ≡ second))
on_digi_frame_lem_example = on_digi_frame_lem two_hops second
