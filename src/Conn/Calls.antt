-- ===== src/Conn/Calls.antt =====
-- ax25/conn.go: the application's calls and the timers' callbacks. A method returns the session
-- and its error, where it has one.
use go_ax.Base.{
  Bool, Bytes, List, Option, [], false, if◌then◌else◌, leb, length, none, not, some, true, ◌&&◌,
  ◌++◌, ◌+◌, ◌∷◌,
}
use go_ax.Types.{Address}
use go_ax.Conn.State.{
  CallError, Conn, ConnState, ErrorCode, awaiting_connection, awaiting_release, conn_already_active,
  conn_not_connected, conn_send_buf_full, connected, connection_timeout, disconnect_timeout,
  disconnected, enter_disconnected, fire_error, link_failure, reset_state_vars, run_pending_actions,
  start_t1, stop_all_timers, stop_t2, timer_recovery,
}
use go_ax.Conn.Send.{
  send_ack, send_disc, send_dm, send_pending_i_frames, send_rnr, send_rr, send_sabm,
}

-- `Close`. The context is cancelled; nothing is reported.
unfoldable pub close : Conn → Conn
close c = record (stop_all_timers c) { state = disconnected }

abbrev pub is_disconnected : ConnState → Bool
is_disconnected disconnected = true
is_disconnected _ = false

-- `IsConnected`
abbrev pub is_connected_state : ConnState → Bool
is_connected_state connected = true
is_connected_state timer_recovery = true
is_connected_state _ = false

abbrev pub is_connected : Conn → Bool
is_connected c = is_connected_state c.state

unfoldable pub connect : Address → List Address → Conn → Conn × Option CallError
connect remote via c =
    let asked =
      record (reset_state_vars
        (record c { remote_addr = remote; path = via; is_local_initiated = true })) {
          state = awaiting_connection;
          retry_count = 0;
        } in
    if not (is_disconnected c.state)
    then (c, some conn_already_active)
    else (run_pending_actions (send_sabm true (start_t1 asked)), none)

unfoldable pub shutdown : Conn → Conn × Option CallError
shutdown c =
    let asked = record (stop_all_timers c) { state = awaiting_release; retry_count = 0 } in
    if is_disconnected c.state
    then (c, some conn_not_connected)
    else (run_pending_actions (send_disc true (start_t1 asked)), none)

unfoldable pub send_data : Bytes → Conn → Conn × Option CallError
send_data payload c =
    let queued = record c {
      tx_queue = c.tx_queue ++ (record { payload = payload; ns = 0; transmitted = false } ∷ []);
    } in
    if not (is_connected c)
    then (c, some conn_not_connected)
    else if leb c.cfg.window (length c.tx_queue)
    then (c, some conn_send_buf_full)
    else (run_pending_actions (send_pending_i_frames queued), none)

-- `Refuse`
unfoldable pub refuse : Conn → Conn
refuse c = record c { refuse_pending = true }

abbrev pub same_bool : Bool → Bool → Bool
same_bool true b = b
same_bool false b = not b

unfoldable pub set_busy : Bool → Conn → Conn
set_busy busy c =
    let set = record c { local_busy = busy } in
    let told =
      if busy
      then send_rnr false false (stop_t2 (record set { ack_pending = false }))
      else send_rr false false set in
    if same_bool c.local_busy busy
    then c
    else run_pending_actions (if is_connected set then told else set)

-- One try more, or the end of the session: the branches of `onT1Expired` on the retry count.
abbrev pub give_up_or : (Conn → Conn) → (Conn → Conn) → Conn → Conn
give_up_or give_up again c =
    if leb c.cfg.n2 c.retry_count
    then enter_disconnected (give_up c)
    else start_t1 (again (record c { retry_count = c.retry_count + 1 }))

abbrev pub n2_exceeded : ErrorCode → Conn → Conn
n2_exceeded code c = fire_error code "N2 exceeded" c.retry_count c

abbrev pub poll_again : Conn → Conn
poll_again = give_up_or (λ c. send_dm true (n2_exceeded link_failure c)) (send_rr true true)

-- The switch of `onT1Expired`; a connected session falls through to the recovery.
unfoldable pub t1_expired_in : ConnState → Conn → Conn
t1_expired_in disconnected c = c
t1_expired_in awaiting_connection c = give_up_or (n2_exceeded connection_timeout) (send_sabm true) c
t1_expired_in awaiting_release c = give_up_or (n2_exceeded disconnect_timeout) (send_disc true) c
t1_expired_in connected c = poll_again (record c { state = timer_recovery; retry_count = 0 })
t1_expired_in timer_recovery c = poll_again c

unfoldable pub on_t1_expired : Conn → Conn
on_t1_expired c = run_pending_actions (t1_expired_in c.state (record c { t1_active = false }))

unfoldable pub on_t2_expired : Conn → Conn
on_t2_expired c =
    let off = record c { t2_active = false } in
    run_pending_actions (
      if is_connected off && off.ack_pending
      then record (send_ack false false off) { ack_pending = false }
      else off)

abbrev pub t3_expired_in : ConnState → Conn → Conn
t3_expired_in connected c =
    start_t1 (record (send_rr true true c) { state = timer_recovery; retry_count = 0 })
t3_expired_in _ c = c

unfoldable pub on_t3_expired : Conn → Conn
on_t3_expired c = run_pending_actions (t3_expired_in c.state (record c { t3_active = false }))
