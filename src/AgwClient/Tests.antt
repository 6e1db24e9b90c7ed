-- ===== src/AgwClient/Tests.antt =====
-- A client at concrete inputs.
use go_ax.Base.{[], arith, false, length, refl, some, true, ◌∷◌, ◌≡◌}
use go_ax.AgwClient.{
  Client, ClientConfig, client_defaults, dialing, fresh_decoder, joining, made_client, new_client,
  no_writer, not_connected_yet, port_zero, reading, refused_client, send_frame, test_conn, writing,
}
use go_ax.AgwClient.Steps.{
  ClientReach-IsClient, IsClient, and_then, asks, at_once, comes, loses, offers,
}
use go_ax.AgwClient.Stuck.{loses-never_again}
use go_ax.Agwpe.{encode_message}
use go_ax.Agwpe.Requests.{build_version_req}
use go_ax.Base.Texts.{codes}

abbrev client_config : ClientConfig
client_config = record {
  host = codes "localhost";
  port = 8000;
  connect_timeout = 0;
  reconnect_delay = 0;
  tx_queue_depth = 0;
  read_buf_size = 0;
  has_on_rx_frame = true;
}

-- A client that reads, with nothing to write.
abbrev client : Client
client = record {
  cfg = client_defaults client_config;
  tx_ch = [];
  in_flight = [];
  has_conn = true;
  cancelled = false;
  rx_phase = reading;
  tx_phase = writing;
  decoder = fresh_decoder;
  rx_calls = [];
  sent = [];
}

-- A call of `SendFrame` up to its test, and to its end.
abbrev asked : Client
asked = comes (asks (some build_version_req)) client

abbrev offered : Client
offered = comes (offers [] build_version_req []) asked

client_runs :
    (new_client client_config
      ≡ made_client (record client { has_conn = false; rx_phase = dialing; tx_phase = no_writer }))
    × (new_client (record client_config { port = 0 }) ≡ refused_client port_zero)
    × (asked.in_flight ≡ build_version_req ∷ [])
    × (length offered.tx_ch ≡ 1)
    × (offered.in_flight ≡ [])
    × ((send_frame (some build_version_req) (λ c. c) (comes loses client)).1
        ≡ some not_connected_yet)
    × (length (send_frame (some build_version_req) (comes loses) client).0.tx_ch ≡ 1)
unfolding new_client comes test_conn encode_message
client_runs = (refl, refl, refl, refl, refl, refl, refl)

ClientReach-IsClient_example : IsClient offered
unfolding comes test_conn
ClientReach-IsClient_example =
    ClientReach-IsClient {c = client} (record { bounded = omega arith; matches = refl })
      (and_then (and_then at_once (asks (some build_version_req)) tt)
        (offers [] build_version_req []) refl)

loses-never_again_example :
    ((comes (asks (some build_version_req)) (comes loses client)).has_conn ≡ false)
    × ((comes (asks (some build_version_req)) (comes loses client)).rx_phase ≡ joining)
unfolding comes test_conn
loses-never_again_example =
    loses-never_again client refl refl refl refl
      (and_then at_once (asks (some build_version_req)) tt) refl
