-- ===== src/Conn/State.antt =====
-- ax25/conn.go: the state of a session, its timers and its queue of actions.
--
-- A call of a callback is an `Action`. `pending_actions` is the field of the source; `ran` is the
-- trace of the actions that have been run, in their order. Slices are values here, so the copies
-- that the source makes of a payload or a path are the values themselves. `n2` and `window` are
-- natural numbers: a negative N2 acts as 0 does, and a negative window is replaced as 0 is.
use Prim.Native.String.{String}
use go_ax.Base.{
  Bool, Bytes, List, Option, [], false, if◌then◌else◌, ltb, none, not, some, true, ℕ, ◌%◌, ◌++◌,
  ◌||◌, ◌∷◌,
}
use go_ax.Types.{Address, Frame}

pub data ConnState : Type 0 where
  disconnected awaiting_connection awaiting_release connected timer_recovery : ConnState

-- The `Code` of a `ConnError`.
pub data ErrorCode : Type 0 where
  not_connected connection_timeout disconnect_timeout link_failure dm_received nr_error : ErrorCode

pub record ConnError : Type 0 where
  pub code : ErrorCode
  pub message : String
  pub retry_count : ℕ

-- What the methods return: `nil` is `none`.
pub data CallError : Type 0 where
  conn_not_connected conn_already_active conn_send_buf_full : CallError

pub data Action : Type 0 where
  on_connect : Address → Bool → Action
  on_disconnect on_link_reset : Action
  on_error : ConnError → Action
  on_data : Bytes → Action
  on_tx_frame : Frame → Action
  on_tx_ack : ℕ → Action

-- `ConnCallbacks`: which of them are there.
pub record ConnCallbacks : Type 0 where
  pub has_on_connect : Bool
  pub has_on_disconnect : Bool
  pub has_on_link_reset : Bool
  pub has_on_error : Bool
  pub has_on_data : Bool
  pub has_on_tx_frame : Bool
  pub has_on_tx_ack : Bool

-- `ConnConfig`, with durations in nanoseconds.
pub record ConnConfig : Type 0 where
  pub t1 : ℕ
  pub t2 : ℕ
  pub t3 : ℕ
  pub n2 : ℕ
  pub window : ℕ

abbrev pub default_conn_config : ConnConfig
default_conn_config = record {
  t1 = 10_000_000_000;
  t2 = 1_000_000_000;
  t3 = 180_000_000_000;
  n2 = 10;
  window = 4;
}

pub record PendingFrame : Type 0 where
  pub payload : Bytes
  pub ns : ℕ
  pub transmitted : Bool

pub record Conn : Type 0 where
  pub cfg : ConnConfig
  pub cbs : ConnCallbacks
  pub local_addr : Address
  pub remote_addr : Address
  pub path : List Address
  pub state : ConnState
  pub is_local_initiated : Bool
  pub refuse_pending : Bool
  pub vs : ℕ
  pub vr : ℕ
  pub va : ℕ
  pub peer_busy : Bool
  pub local_busy : Bool
  pub rej_sent : Bool
  pub ack_pending : Bool
  pub retry_count : ℕ
  pub tx_queue : List PendingFrame
  pub t1_active : Bool
  pub t2_active : Bool
  pub t3_active : Bool
  pub pending_actions : List Action
  pub ran : List Action

abbrev pub mod8 : ℕ → ℕ
mod8 n = n % 8

-- Timers. A timer is stopped and started under the lock; its callback may still run later.
abbrev pub start_t1 : Conn → Conn
start_t1 c = record c { t1_active = true }

abbrev pub stop_t1 : Conn → Conn
stop_t1 c = record c { t1_active = false }

abbrev pub start_t2 : Conn → Conn
start_t2 c = record c { t2_active = if c.t2_active then c.t2_active else true }

abbrev pub stop_t2 : Conn → Conn
stop_t2 c = record c { t2_active = false }

abbrev pub start_t3 : Conn → Conn
start_t3 c = record c { t3_active = true }

abbrev pub stop_t3 : Conn → Conn
stop_t3 c = record c { t3_active = false }

abbrev pub stop_all_timers : Conn → Conn
stop_all_timers c = stop_t3 (stop_t2 (stop_t1 c))

-- `enqueueAction` under a test.
abbrev pub enqueue_if : Bool → Action → Conn → Conn
enqueue_if b a c = record c {
  pending_actions = if b then c.pending_actions ++ (a ∷ []) else c.pending_actions;
}

-- `takePendingActions` and `runPendingActions`.
abbrev pub run_pending_actions : Conn → Conn
run_pending_actions c = record c { ran = c.ran ++ c.pending_actions; pending_actions = [] }

abbrev pub reset_state_vars : Conn → Conn
reset_state_vars c = record c {
  vs = 0;
  vr = 0;
  va = 0;
  peer_busy = false;
  local_busy = false;
  rej_sent = false;
  ack_pending = false;
  tx_queue = [];
}

abbrev pub enter_disconnected : Conn → Conn
enter_disconnected c =
    enqueue_if c.cbs.has_on_disconnect on_disconnect
      (record (stop_all_timers c) { state = disconnected })

abbrev pub fire_error : ErrorCode → String → ℕ → Conn → Conn
fire_error code message retry c =
    enqueue_if c.cbs.has_on_error
      (on_error (record { code = code; message = message; retry_count = retry })) c

-- `NewConn`. A missing configuration is `none`.
unfoldable pub new_conn : Address → ConnCallbacks → Option ConnConfig → Option Conn
new_conn local cbs cfg =
    let given : ConnConfig = elim cfg [ none ↦ default_conn_config | some k ↦ k ] in
    let checked =
      if ltb given.window 1 || ltb 7 given.window then record given { window = 4 } else given in
    let nobody : Address = record {
      callsign = [];
      ssid = 0;
      has_been_repeated = false;
      is_last = false;
    } in
    if not cbs.has_on_data || not cbs.has_on_tx_frame
    then none
    else some (record {
      cfg = checked;
      cbs = cbs;
      local_addr = local;
      remote_addr = nobody;
      path = [];
      state = disconnected;
      is_local_initiated = false;
      refuse_pending = false;
      vs = 0;
      vr = 0;
      va = 0;
      peer_busy = false;
      local_busy = false;
      rej_sent = false;
      ack_pending = false;
      retry_count = 0;
      tx_queue = [];
      t1_active = false;
      t2_active = false;
      t3_active = false;
      pending_actions = [];
      ran = [];
    })
