-- ===== src/DigiPort/Tests.antt =====
-- A digipeater opened and closed at a concrete router.
use go_ax.Base.{List, [], false, refl, true, ◌∷◌, ◌≡◌}
use go_ax.Address.{parse_address}
use go_ax.Base.Texts.{codes}
use go_ax.DigiPort.{
  DigiMade, close_digipeater, crashed, digi_port, hung, made, new_digipeater, refused,
}
use go_ax.Router.Table.{
  PortId, Router, contains, mode_switch, register_port, remove, unregister_port,
}
use go_ax.Router.Port.{start, stop}

abbrev no_ports : Router
no_ports = record {
  mode = mode_switch;
  ports = [];
  closed = false;
  heap = λ i.
      digi_port (record { callsign = []; ssid = 0; has_been_repeated = false; is_last = false });
}

-- The ports of the router that a call leaves behind.
abbrev ports_of : DigiMade → List PortId
ports_of (made d port r) = r.ports
ports_of (refused e r) = r.ports
ports_of (hung r) = r.ports
ports_of crashed = []

abbrev closed_again : DigiMade → DigiMade
closed_again (made d port r) = close_digipeater d port r
closed_again m = m

digipeater_runs :
    (ports_of (new_digipeater (codes "WIDE-1") true 4 no_ports) ≡ 4 ∷ [])
    × (ports_of (closed_again (new_digipeater (codes "WIDE-1") true 4 no_ports)) ≡ [])
    × (ports_of (new_digipeater (codes "WI_E") true 4 no_ports) ≡ [])
unfolding new_digipeater close_digipeater parse_address register_port unregister_port contains
    remove start stop
digipeater_runs = (refl, refl, refl)
