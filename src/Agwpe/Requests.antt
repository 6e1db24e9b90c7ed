-- ===== src/Agwpe/Requests.antt =====
-- agwpe/frame.go: the messages of a client, and the names of the kinds.
use Prim.Native.String.{String}
use go_ax.Base.{Bool, Bytes, List, [], if◌then◌else◌, ℕ, ◌++◌, ◌==◌, ◌||◌, ◌∷◌}
use go_ax.Agwpe.{AgwFrame}
use go_ax.Agwpe.Builders.{blank}
use go_ax.Base.Texts.{codes, hex_pair}

-- `BuildVersionReq`, `BuildPortInfoReq` and `BuildPortCapReq`.
abbrev pub build_version_req : AgwFrame
build_version_req = record blank { kind = b'R' }

abbrev pub build_port_info_req : AgwFrame
build_port_info_req = record blank { kind = b'G' }

abbrev pub build_port_cap_req : ℕ → AgwFrame
build_port_cap_req port = record blank { port = port; kind = b'g' }

-- `BuildToggleMonitor` and `BuildToggleRaw`, with their deprecated names.
abbrev pub build_toggle_monitor : AgwFrame
build_toggle_monitor = record blank { kind = b'm' }

abbrev pub build_toggle_raw : AgwFrame
build_toggle_raw = record blank { kind = b'k' }

abbrev pub build_register_call : ℕ → Bytes → AgwFrame
build_register_call port callsign = record blank { port = port; kind = b'X'; call_from = callsign }

abbrev pub build_unregister_call : ℕ → Bytes → AgwFrame
build_unregister_call port callsign = record blank {
  port = port;
  kind = b'x';
  call_from = callsign;
}

abbrev pub build_connect_req : ℕ → Bytes → Bytes → AgwFrame
build_connect_req port from to = record blank {
  port = port;
  kind = b'C';
  call_from = from;
  call_to = to;
}

abbrev pub build_disconnect_req : ℕ → Bytes → Bytes → AgwFrame
build_disconnect_req port from to = record blank {
  port = port;
  kind = b'd';
  call_from = from;
  call_to = to;
}

abbrev pub build_send_data : ℕ → Bytes → Bytes → ℕ → Bytes → AgwFrame
build_send_data port from to pid payload = record blank {
  port = port;
  kind = b'D';
  pid = pid;
  call_from = from;
  call_to = to;
  payload = payload;
}

abbrev pub build_heard_req : ℕ → AgwFrame
build_heard_req port = record blank { port = port; kind = b'H' }

-- The names of `KindString`, in the order of its switch.
abbrev pub kind_names : List (ℕ × String)
kind_names =
    (b'R', "Version")
    ∷ (b'G', "PortInfo")
    ∷ (b'g', "PortCap")
    ∷ (b'P', "Login")
    ∷ (b'X', "RegisterCall")
    ∷ (b'x', "UnregisterCall")
    ∷ (b'H', "HeardReq")
    ∷ (b'C', "Connect")
    ∷ (b'v', "ConnectVia")
    ∷ (b'c', "ConnectPID")
    ∷ (b'D', "Data")
    ∷ (b'd', "Disconnect")
    ∷ (b'M', "SendUnproto")
    ∷ (b'V', "SendUnprotoVia")
    ∷ (b'U', "RecvUnproto")
    ∷ (b'S', "RecvSupervisory")
    ∷ (b'I', "RecvIFrame")
    ∷ (b'T', "RecvOwn")
    ∷ (b'K', "Raw")
    ∷ (b'k', "ToggleRaw")
    ∷ (b'm', "ToggleMonitor")
    ∷ (b'Y', "OutstandingConn")
    ∷ (b'y', "OutstandingPort")
    ∷ []

unfoldable pub name_in : List (ℕ × String) → ℕ → Bytes
name_in [] kind = codes "Unknown(0x" ++ hex_pair kind ++ codes ")"
name_in (n ∷ ns) kind = let later = name_in ns kind in if kind == n.0 then codes n.1 else later

-- `KindString`
abbrev pub kind_string : ℕ → Bytes
kind_string kind = name_in kind_names kind

-- `IsMonitored`
abbrev pub is_monitored : ℕ → Bool
is_monitored kind = kind == b'U' || kind == b'S' || kind == b'I' || kind == b'T'
