-- ===== src/Agwpe/Responses.antt =====
-- agwpe/builders.go: the messages that the server makes for its client.
use go_ax.Base.{Bool, Bytes, [], if◌then◌else◌, replicate, ℕ, ◌%◌, ◌++◌, ◌∷◌}
use go_ax.Agwpe.{AgwFrame, put_uint32}
use go_ax.Address.{decimal}
use go_ax.Agwpe.Builders.{blank}
use go_ax.Base.Texts.{codes}
use go_ax.Router.Lifecycle.{call}

-- A decimal number of the type int.
abbrev pub int_text : ℕ → Bytes
int_text n = decimal 20 n

abbrev pub kind_port_info : ℕ
kind_port_info = b'G'

abbrev pub kind_port_cap : ℕ
kind_port_cap = b'g'

abbrev pub kind_register_call : ℕ
kind_register_call = b'X'

abbrev pub kind_connect_resp : ℕ
kind_connect_resp = b'C'

abbrev pub kind_disconnect_resp : ℕ
kind_disconnect_resp = b'd'

abbrev pub kind_recv_data : ℕ
kind_recv_data = b'D'

abbrev pub kind_outstanding_req : ℕ
kind_outstanding_req = b'Y'

-- `BuildPortInfoResp`
abbrev pub build_port_info_resp : ℕ → ℕ → Bytes → AgwFrame
build_port_info_resp port num_ports desc = record blank {
  port = port % 256;
  kind = kind_port_info;
  payload = int_text num_ports ++ b';' ∷ (desc ++ b';' ∷ 0 ∷ []);
}

-- `BuildPortCapResp`
abbrev pub build_port_cap_resp : ℕ → AgwFrame
build_port_cap_resp port = record blank {
  port = port % 256;
  kind = kind_port_cap;
  payload = replicate 12 0;
}

-- `BuildRegisterCallResp`
abbrev pub build_register_call_resp : Bytes → Bool → ℕ → AgwFrame
build_register_call_resp call success port = record blank {
  port = port;
  kind = kind_register_call;
  call_from = call;
  payload = (if success then 1 else 0) ∷ [];
}

-- `BuildConnectedResp`
abbrev pub build_connected_resp : ℕ → Bytes → Bytes → Bool → AgwFrame
build_connected_resp port local_call remote_call local_initiated = record blank {
  port = port % 256;
  kind = kind_connect_resp;
  call_from = remote_call;
  call_to = local_call;
  payload =
      codes (if local_initiated then "*** CONNECTED With Station " else "*** CONNECTED To Station ")
      ++ remote_call
      ++ 13 ∷ 0 ∷ [];
}

-- `BuildDisconnectedResp`
abbrev pub build_disconnected_resp : ℕ → Bytes → Bytes → AgwFrame
build_disconnected_resp port local_call remote_call = record blank {
  port = port % 256;
  kind = kind_disconnect_resp;
  call_from = remote_call;
  call_to = local_call;
  payload = codes "*** DISCONNECTED From Station " ++ remote_call ++ 13 ∷ 0 ∷ [];
}

-- `BuildDisconnectedTimeoutResp`
abbrev pub build_disconnected_timeout_resp : ℕ → Bytes → Bytes → AgwFrame
build_disconnected_timeout_resp port local_call remote_call = record blank {
  port = port % 256;
  kind = kind_disconnect_resp;
  call_from = remote_call;
  call_to = local_call;
  payload = codes "*** DISCONNECTED RETRYOUT With " ++ remote_call ++ 13 ∷ 0 ∷ [];
}

-- `BuildConnectedData`
abbrev pub build_connected_data : ℕ → Bytes → Bytes → Bytes → AgwFrame
build_connected_data port local_call remote_call payload = record blank {
  port = port % 256;
  kind = kind_recv_data;
  call_from = remote_call;
  call_to = local_call;
  payload = payload;
}

-- `BuildOutstandingConn`
abbrev pub build_outstanding_conn : ℕ → Bytes → Bytes → ℕ → AgwFrame
build_outstanding_conn port local_call remote_call count = record blank {
  port = port % 256;
  kind = kind_outstanding_req;
  call_from = local_call;
  call_to = remote_call;
  payload = put_uint32 count;
}
