-- ===== src/AgwClient.antt =====
-- agwpe/client.go: the client of the AGW packet engine.
--
-- The network is what a step chooses: whether a dial succeeds, what a read gives, whether a write
-- fails. `rx_phase` is where the goroutine of `rxLoop` stands and `tx_phase` where that of `txLoop`
-- does. Durations are nanoseconds.
mod Tests
pub mod Calls
pub mod Steps
pub mod Stuck
use go_ax.Base.{
  Bool, Bytes, List, Option, [], drop, false, if◌then◌else◌, length, ltb, none, not, some, true, ℕ,
  ◌++◌, ◌+◌, ◌==◌, ◌∷◌,
}
use go_ax.Agwpe.{
  AgwError, AgwFrame, AgwResult, Decoder, done, encode_message, failed, header_size, in_header,
  max_data_len, write_messages,
}

pub record ClientConfig : Type 0 where
  pub host : Bytes
  pub port : ℕ
  pub connect_timeout : ℕ
  pub reconnect_delay : ℕ
  pub tx_queue_depth : ℕ
  pub read_buf_size : ℕ
  pub has_on_rx_frame : Bool

pub data ClientError : Type 0 where
  host_empty port_zero rx_frame_missing : ClientError
  frame_missing not_connected_yet tx_queue_full : ClientError
  not_encoded : AgwError → ClientError

-- Where `rxLoop` stands: before a dial, reading, waiting for `txLoop` to end, waiting for the delay
-- before the next dial, or at its end.
pub data RxPhase : Type 0 where
  dialing reading joining sleeping ended : RxPhase

-- Where the last `txLoop` stands, if there is one: at its `select`, before its write of a packet, or at
-- its end.
pub data TxPhase : Type 0 where
  no_writer writing written_off : TxPhase
  holding : Bytes → TxPhase

-- `has_conn` says that `conn` is set, and `cancelled` that the context is. `txCh` holds encoded
-- messages. `in_flight` holds the messages of the calls of `SendFrame` that are past their test of
-- `conn` and have not come to their `select`. `rx_calls` is the trace of the calls of `OnRxFrame`.
pub record Client : Type 0 where
  pub cfg : ClientConfig
  pub tx_ch : List Bytes
  pub in_flight : List AgwFrame
  pub has_conn : Bool
  pub cancelled : Bool
  pub rx_phase : RxPhase
  pub tx_phase : TxPhase
  pub decoder : Decoder
  pub rx_calls : List AgwFrame
  pub sent : List Bytes

-- `NewDecoder`, with a callback.
abbrev pub fresh_decoder : Decoder
fresh_decoder = record {
  has_callback = true;
  state = in_header;
  header = [];
  data_len = 0;
  payload = [];
  delivered = [];
}

pub data ClientMade : Type 0 where
  made_client : Client → ClientMade
  refused_client : ClientError → ClientMade

abbrev pub or_default : ℕ → ℕ → ℕ
or_default d n = if n == 0 then d else n

-- The defaults of `NewClient`.
abbrev pub client_defaults : ClientConfig → ClientConfig
client_defaults cfg = record cfg {
  connect_timeout = or_default 6_000_000_000 cfg.connect_timeout;
  reconnect_delay = or_default 5_000_000_000 cfg.reconnect_delay;
  tx_queue_depth = or_default 8 cfg.tx_queue_depth;
  read_buf_size = or_default (header_size + max_data_len) cfg.read_buf_size;
}

-- `NewClient` and `Start`.
unfoldable pub new_client : ClientConfig → ClientMade
new_client cfg =
    if length cfg.host == 0
    then refused_client host_empty
    else if cfg.port == 0
    then refused_client port_zero
    else if not cfg.has_on_rx_frame
    then refused_client rx_frame_missing
    else made_client (record {
      cfg = client_defaults cfg;
      tx_ch = [];
      in_flight = [];
      has_conn = false;
      cancelled = false;
      rx_phase = dialing;
      tx_phase = no_writer;
      decoder = fresh_decoder;
      rx_calls = [];
      sent = [];
    })

-- The `select` of `SendFrame`.
abbrev pub offer : AgwResult Bytes → Client → Client × Option ClientError
offer (failed e) c = (c, some (not_encoded e))
offer (done bytes) c =
    if ltb (length c.tx_ch) c.cfg.tx_queue_depth
    then (record c { tx_ch = c.tx_ch ++ bytes ∷ [] }, none)
    else (c, some tx_queue_full)

-- `SendFrame` up to where it gives back its lock: it has an error to return, or goes on with the
-- message. A nil frame is `none`.
pub data Tested : Type 0 where
  refuses : ClientError → Tested
  passes : AgwFrame → Tested

unfoldable pub test_conn : Option AgwFrame → Client → Tested
test_conn none c = refuses frame_missing
test_conn (some m) c = if not c.has_conn then refuses not_connected_yet else passes m

-- The rest of `SendFrame`.
abbrev pub after_test : Tested → Client → Client × Option ClientError
after_test (refuses e) c = (c, some e)
after_test (passes m) c = offer (encode_message m) c

-- `SendFrame`. The function is what other goroutines do once the lock is given back.
abbrev pub send_frame : Option AgwFrame → (Client → Client) → Client → Client × Option ClientError
send_frame m meanwhile c = after_test (test_conn m c) (meanwhile c)

abbrev pub put_in_flight : Tested → Client → Client
put_in_flight (refuses e) c = c
put_in_flight (passes m) c = record c { in_flight = c.in_flight ++ m ∷ [] }

-- `Stop`, up to its wait for the goroutines.
unfoldable pub stop_client : Client → Client
stop_client c = record c { cancelled = true }

-- A chunk that was read goes to the decoder.
unfoldable pub take_chunk : Bytes → Client → Client
take_chunk bytes c =
    let d = (write_messages c.decoder bytes).0 in
    record c { decoder = d; rx_calls = c.rx_calls ++ drop (length c.decoder.delivered) d.delivered }
