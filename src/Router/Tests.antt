-- ===== src/Router/Tests.antt =====
-- A router at concrete ports and frames.
use go_ax.Base.{
  List, [], arith, false, if◌then◌else◌, none, not, refl, some, suc, true, zero, ℕ, ◌&&◌, ◌∷◌, ◌≡◌,
}
use go_ax.Types.{Address, Frame, frame_ui}
use go_ax.Router.Port.{Port, PortMode, deliver, mode_default, mode_promiscuous, mode_static}
use go_ax.Router.Table.{
  PortId, Router, contains, mode_hub, mode_switch, panicked, register_port, returned,
  unregister_port, update,
}
use go_ax.Router.Dispatch.{bind_source, is_default, send, send_bridge, send_switch}
use go_ax.Router.Queue.{AllSound, IsSound, send-AllSound}
use go_ax.Router.Select.{gets, send_switch_lem}
use go_ax.Router.Bridge.{on_side, send_bridge_lem}
use go_ax.Router.Lifecycle.{
  Behind, Call, calls-IsRunning, closing, register, register_port-again, registered, sending,
  unregister,
}
use go_ax.Digipeater.{has_unrepeated_digi}
use go_ax.Router.Echo.{Distinct}
use go_ax.Router.Running.{IsRunning}

abbrev named : ℕ → Address
named n = record { callsign = n ∷ []; ssid = 0; has_been_repeated = false; is_last = false }

abbrev message : Frame
message = record {
  destination = named 66;
  source = named 65;
  digipeaters = [];
  is_command = true;
  frame_type = frame_ui;
  control = 0x03;
  pid = 0xF0;
  payload = 72 ∷ [];
}

abbrev new_port : PortMode → Address → Port
new_port m a = record {
  mode = m;
  destination = a;
  has_on_rx = true;
  queue_depth = 2;
  stats = record { rx_frames = 0; tx_frames = 0; dropped = 0 };
  tx_ch = [];
  capacity = 0;
  started = false;
  quit = false;
  busy = false;
  handled = [];
}

abbrev running_port : PortMode → Address → Port
running_port m a = record (new_port m a) { capacity = 2; started = true }

-- Port 0 is the default port, port 1 the station B, every other one is promiscuous.
abbrev new_ports : PortId → Port
new_ports zero = new_port mode_default (named 0)
new_ports (suc zero) = new_port mode_static (named 66)
new_ports (suc (suc n)) = new_port mode_promiscuous (named 0)

abbrev running_ports : PortId → Port
running_ports zero = running_port mode_default (named 0)
running_ports (suc zero) = running_port mode_static (named 66)
running_ports (suc (suc n)) = running_port mode_promiscuous (named 0)

abbrev table : List PortId
table = 0 ∷ 1 ∷ 2 ∷ []

table-Distinct : Distinct table
unfolding contains
table-Distinct = (refl, (refl, (refl, tt)))

abbrev router : Router
router = record { mode = mode_switch; ports = table; closed = false; heap = running_ports }

running-IsSound : (m : PortMode) (a : Address) → IsSound (running_port m a)
running-IsSound m a = record { bounded = omega arith; counted = refl; channel = λ h. cc }

running_ports-AllSound : AllSound running_ports
running_ports-AllSound zero = running-IsSound mode_default (named 0)
running_ports-AllSound (suc zero) = running-IsSound mode_static (named 66)
running_ports-AllSound (suc (suc n)) = running-IsSound mode_promiscuous (named 0)

send-AllSound_example : AllSound (send (some message) (some 0) router).0.heap
send-AllSound_example = send-AllSound (some message) (some 0) router running_ports-AllSound

send_switch_lem_example :
    let bound = update running_ports 0 (bind_source message (running_ports 0)) in
    send_switch message 0 table running_ports 1 ≡ (
      if gets (has_unrepeated_digi []) message 0 table bound 1
      then deliver message (bound 1)
      else bound 1)
send_switch_lem_example = send_switch_lem message 0 table running_ports 1 table-Distinct

send_bridge_lem_example : send_bridge message 0 table running_ports 1 ≡ (
    if contains 1 table && on_side (not (is_default (running_ports 0).mode)) 0 running_ports 1
    then deliver message (running_ports 1)
    else running_ports 1)
send_bridge_lem_example = send_bridge_lem message 0 table running_ports 1 table-Distinct

abbrev empty_router : Router
empty_router = record { mode = mode_hub; ports = []; closed = false; heap = new_ports }

abbrev day : List Call
day =
    register 0
    ∷ register 1
    ∷ sending (some message) (some 0)
    ∷ unregister 0
    ∷ unregister 0
    ∷ closing
    ∷ register 2
    ∷ []

day-Distinct : Distinct (registered day)
unfolding contains
day-Distinct = (refl, (refl, (refl, tt)))

calls-IsRunning_example : Behind IsRunning day empty_router
calls-IsRunning_example =
    calls-IsRunning day empty_router (tt, tt) day-Distinct (refl, (refl, (refl, tt)))

abbrev stopped_ports : PortId → Port
stopped_ports i = record (running_ports i) { quit = true }

abbrev emptied : Router
emptied = record empty_router { heap = stopped_ports }

not_there : contains 1 [] ≡ false
unfolding contains
not_there = refl

register_port-again_example :
    (r' : Router) × ((register_port 1 emptied ≡ returned r' none)
      × (unregister_port 1 r' ≡ panicked))
register_port-again_example = register_port-again 1 emptied refl not_there refl refl
