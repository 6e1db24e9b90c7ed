-- ===== src/AgwClient/Calls.antt =====
-- agwpe/client.go: the calls that build a message and send it. Each takes what other goroutines do
-- in the middle of its `SendFrame`.
use go_ax.Base.{Bytes, Option, some, ℕ}
use go_ax.AgwClient.{Client, ClientError, not_encoded, send_frame}
use go_ax.Agwpe.{AgwFrame, AgwResult, done, failed}
use go_ax.Agwpe.Builders.{build_login}
use go_ax.Agwpe.Convert.{from_ax25_raw, from_ax25_unproto}
use go_ax.Agwpe.Requests.{
  build_port_cap_req, build_port_info_req, build_toggle_monitor, build_toggle_raw,
  build_version_req,
}
use go_ax.Types.{Frame}

-- What is sent if a message was made of a frame, and the error if not.
abbrev pub send_made : AgwResult AgwFrame → (Client → Client) → Client → Client × Option ClientError
send_made (failed e) meanwhile c = (c, some (not_encoded e))
send_made (done m) meanwhile c = send_frame (some m) meanwhile c

abbrev pub request_version : (Client → Client) → Client → Client × Option ClientError
request_version meanwhile c = send_frame (some build_version_req) meanwhile c

abbrev pub request_port_info : (Client → Client) → Client → Client × Option ClientError
request_port_info meanwhile c = send_frame (some build_port_info_req) meanwhile c

abbrev pub request_port_cap : ℕ → (Client → Client) → Client → Client × Option ClientError
request_port_cap port meanwhile c = send_frame (some (build_port_cap_req port)) meanwhile c

-- `ToggleMonitor` and `EnableMonitor`, `ToggleRaw` and `EnableRaw`.
abbrev pub toggle_monitor : (Client → Client) → Client → Client × Option ClientError
toggle_monitor meanwhile c = send_frame (some build_toggle_monitor) meanwhile c

abbrev pub toggle_raw : (Client → Client) → Client → Client × Option ClientError
toggle_raw meanwhile c = send_frame (some build_toggle_raw) meanwhile c

abbrev pub login : Bytes → Bytes → (Client → Client) → Client → Client × Option ClientError
login username password meanwhile c = send_frame (some (build_login username password)) meanwhile c

-- `SendUnproto` and `SendRaw`
abbrev pub client_send_unproto :
    Option Frame → ℕ → (Client → Client) → Client → Client × Option ClientError
client_send_unproto f port meanwhile c = send_made (from_ax25_unproto f port) meanwhile c

abbrev pub client_send_raw :
    Option Frame → ℕ → (Client → Client) → Client → Client × Option ClientError
client_send_raw f port meanwhile c = send_made (from_ax25_raw f port) meanwhile c
