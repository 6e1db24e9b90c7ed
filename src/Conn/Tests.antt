-- ===== src/Conn/Tests.antt =====
-- Sessions at concrete events.
use go_ax.Base.{Bytes, List, [], arith, drop, false, inl, none, refl, some, true, ℕ, ◌++◌, ◌∷◌, ◌≡◌}
use go_ax.Types.{Address, Frame, FrameType, frame_i, frame_s}
use go_ax.Conn.State.{
  Conn, ConnCallbacks, ConnState, connected, default_conn_config, disconnected, new_conn,
  timer_recovery,
}
use go_ax.Conn.Events.{Event, received, run, send_call, t1_expired, t2_expired}
use go_ax.Conn.Valid.{IsValid}
use go_ax.Conn.Delivery.{passed}
use go_ax.Conn.Alive.{IsAlive}
use go_ax.Conn.Alive.Run.{run-IsAlive}
use go_ax.Conn.Calls.{on_t3_expired}
use go_ax.Conn.Receive.{ack_loop, is_valid_nr, on_frame}
use go_ax.Conn.Retries.{recovery_stuck, silence, silence-gives_up}
use go_ax.Conn.Valid.Run.{run-IsValid}
use go_ax.Conn.Window.{ack_loop-eq}
use go_ax.Conn.Held.{on_frame-held}
use go_ax.Conn.Delivery.Run.{brought_by, run-passed}

abbrev addr : ℕ → Address
addr n = record { callsign = n ∷ []; ssid = 0; has_been_repeated = false; is_last = false }

abbrev all_callbacks : ConnCallbacks
all_callbacks = record {
  has_on_connect = true;
  has_on_disconnect = true;
  has_on_link_reset = true;
  has_on_error = true;
  has_on_data = true;
  has_on_tx_frame = true;
  has_on_tx_ack = true;
}

-- A session in a state, with one frame outstanding: V(S) is 3, V(A) is 2.
abbrev session : ConnState → Conn
session s = record {
  cfg = default_conn_config;
  cbs = all_callbacks;
  local_addr = addr 65;
  remote_addr = addr 66;
  path = [];
  state = s;
  is_local_initiated = true;
  refuse_pending = false;
  vs = 3;
  vr = 1;
  va = 2;
  peer_busy = false;
  local_busy = false;
  rej_sent = false;
  ack_pending = false;
  retry_count = 8;
  tx_queue = record { payload = 1 ∷ []; ns = 2; transmitted = true } ∷ [];
  t1_active = true;
  t2_active = false;
  t3_active = false;
  pending_actions = [];
  ran = [];
}

session-IsValid : (s : ConnState) → IsValid (session s)
session-IsValid s = record {
  window_pos = omega arith;
  window_small = omega arith;
  vs_small = omega arith;
  vr_small = omega arith;
  va_small = omega arith;
  room = omega arith;
  sent = (1, (refl, refl, (refl, tt)));
}

abbrev same_conn : Conn → Conn
same_conn c = c

abbrev frame_of : FrameType → ℕ → Bytes → Frame
frame_of t control payload = record {
  destination = addr 65;
  source = addr 66;
  digipeaters = [];
  is_command = true;
  frame_type = t;
  control = control;
  pid = 0xF0;
  payload = payload;
}

-- An RR that acknowledges the outstanding frame, an I frame in sequence, a call, and an expiry.
abbrev events : List Event
events =
    received (frame_of frame_s 0x61 [])
    ∷ received (frame_of frame_i 0x62 (7 ∷ []))
    ∷ send_call (1 ∷ 2 ∷ [])
    ∷ t2_expired
    ∷ t1_expired
    ∷ []

run-IsValid_example : IsValid (run same_conn events (session connected))
run-IsValid_example =
    run-IsValid same_conn events (session connected) (λ c v. v) (session-IsValid connected)

run-IsAlive_example : IsAlive (run same_conn events (session connected))
run-IsAlive_example =
    run-IsAlive same_conn events (session connected) (λ c v. v) (λ c v. v)
      (session-IsValid connected) (inl refl)

silence-gives_up_example : (silence 3 (session timer_recovery)).state ≡ disconnected
silence-gives_up_example = silence-gives_up 2 (session timer_recovery) (λ e. cc) (omega arith)

ack_loop-eq_example : ack_loop 8 2 6 [] 0 ≡ (2, drop 4 [], 4)
ack_loop-eq_example =
    ack_loop-eq 4 8 2 6 [] 0 (omega arith) (omega arith) (omega arith) (omega arith)

abbrev made : Conn
made = record (session disconnected) {
  remote_addr = record { callsign = []; ssid = 0; has_been_repeated = false; is_last = false };
  is_local_initiated = false;
  vs = 0;
  vr = 0;
  va = 0;
  retry_count = 0;
  tx_queue = [];
  t1_active = false;
}

new_conn-made : new_conn (addr 65) all_callbacks none ≡ some made
unfolding new_conn
new_conn-made = refl

nr_valid : is_valid_nr 2 3 3 ≡ true
unfolding is_valid_nr
nr_valid = refl

-- An RNR with F set and N(R) 3.
recovery_stuck_example :
    let waiting = on_frame same_conn (frame_of frame_s 0x75 []) (session timer_recovery) in
    let stuck = on_t3_expired waiting in
    (stuck.state ≡ timer_recovery)
    × (stuck.t1_active ≡ false)
    × (stuck.t3_active ≡ false)
    × (stuck.ran ≡ waiting.ran)
recovery_stuck_example =
    recovery_stuck same_conn (frame_of frame_s 0x75 []) (session timer_recovery) refl refl refl refl
      nr_valid

-- Everything is acknowledged, and a frame was held back while the peer was busy.
abbrev holding : Conn
holding = record (session connected) {
  va = 3;
  peer_busy = true;
  tx_queue = record { payload = 9 ∷ []; ns = 0; transmitted = false } ∷ [];
  t1_active = false;
  t3_active = true;
}

on_frame-held_example :
    let after_rr = on_frame same_conn (frame_of frame_s 0x61 []) holding in
    (after_rr.state ≡ connected)
    × (after_rr.peer_busy ≡ false)
    × (after_rr.tx_queue ≡ holding.tx_queue)
    × (after_rr.ran ≡ [] ++ [])
on_frame-held_example =
    on_frame-held same_conn (frame_of frame_s 0x61 []) holding 3 refl refl refl (omega arith) refl
      refl refl refl

run-passed_example :
    passed (run same_conn events (session connected))
    ≡ passed (session connected) ++ brought_by same_conn events (session connected)
run-passed_example = run-passed same_conn events (session connected) (λ c. refl)
