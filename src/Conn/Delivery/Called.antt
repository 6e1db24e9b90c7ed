-- ===== src/Conn/Delivery/Called.antt =====
-- ax25/conn.go: the data passed up by the calls and the timers.
use go_ax.Base.{
  Bool, Bytes, List, Option, [], false, if◌then◌else◌, leb, length, not, refl, true, ◌&&◌, ◌++◌,
  ◌∙◌, ◌∷◌, ◌≡◌,
}
use go_ax.Types.{Address}
use go_ax.Conn.State.{
  CallError, Conn, ConnState, awaiting_connection, awaiting_release, connected, connection_timeout,
  disconnect_timeout, disconnected, link_failure, reset_state_vars, start_t1, stop_all_timers,
  stop_t2, timer_recovery,
}
use go_ax.Conn.Delivery.{
  error-passed, if_passed, left-passed, passed, ran_pending, send_pending-passed, tx-passed,
}
use go_ax.Conn.Calls.{
  connect, is_connected, is_disconnected, n2_exceeded, on_t2_expired, poll_again, same_bool,
  send_data, set_busy, shutdown, t1_expired_in, t3_expired_in,
}
use go_ax.Conn.Send.{
  send_ack, send_disc, send_dm, send_pending_i_frames, send_rnr, send_rr, send_sabm,
}

call_passed :
    (b : Bool) (x y : Conn × Option CallError) {ds : List Bytes}
    → passed x.0 ≡ ds
    → passed y.0 ≡ ds
    → passed (if b then x else y).0 ≡ ds
call_passed true x y h k = h
call_passed false x y h k = k

pub connect-passed :
    (a : Address) (via : List Address) (c : Conn) → passed (connect a via c).0 ≡ passed c
unfolding connect
connect-passed a via c =
    let asked =
      start_t1
        (record (reset_state_vars
          (record c { remote_addr = a; path = via; is_local_initiated = true })) {
            state = awaiting_connection;
            retry_count = 0;
          }) in
    call_passed (not (is_disconnected c.state)) _ _ refl
      (ran_pending (send_sabm true asked) ∙ tx-passed _ asked)

pub shutdown-passed : (c : Conn) → passed (shutdown c).0 ≡ passed c
unfolding shutdown
shutdown-passed c =
    let asked =
      start_t1 (record (stop_all_timers c) { state = awaiting_release; retry_count = 0 }) in
    call_passed (is_disconnected c.state) _ _ refl
      (ran_pending (send_disc true asked) ∙ tx-passed _ asked)

pub send_data-passed : (payload : Bytes) (c : Conn) → passed (send_data payload c).0 ≡ passed c
unfolding send_data
send_data-passed payload c =
    let queued = record c {
      tx_queue = c.tx_queue ++ (record { payload = payload; ns = 0; transmitted = false } ∷ []);
    } in
    call_passed (not (is_connected c)) _ _ refl (
      call_passed (leb c.cfg.window (length c.tx_queue)) _ _ refl
        (ran_pending (send_pending_i_frames queued) ∙ send_pending-passed queued))

pub set_busy-passed : (busy : Bool) (c : Conn) → passed (set_busy busy c) ≡ passed c
unfolding set_busy
set_busy-passed busy c =
    let set = record c { local_busy = busy } in
    let told =
      if busy
      then send_rnr false false (stop_t2 (record set { ack_pending = false }))
      else send_rr false false set in
    if_passed (same_bool c.local_busy busy) _ _ refl (
      ran_pending (if is_connected set then told else set)
      ∙ if_passed (is_connected set) told set
          (if_passed busy _ _ (tx-passed _ (stop_t2 (record set { ack_pending = false })))
            (tx-passed _ set))
          refl)

poll-passed : (c : Conn) → passed (poll_again c) ≡ passed c
poll-passed c =
    let reported = n2_exceeded link_failure c in
    if_passed (leb c.cfg.n2 c.retry_count) _ _
      (left-passed (send_dm true reported)
        ∙ tx-passed _ reported
        ∙ error-passed link_failure _ c.retry_count c)
      (tx-passed _ c)

pub t1_expired-passed : (s : ConnState) (c : Conn) → passed (t1_expired_in s c) ≡ passed c
unfolding t1_expired_in
t1_expired-passed disconnected c = refl
t1_expired-passed awaiting_connection c =
    if_passed (leb c.cfg.n2 c.retry_count) _ _
      (left-passed (n2_exceeded connection_timeout c)
        ∙ error-passed connection_timeout _ c.retry_count c)
      (tx-passed _ c)
t1_expired-passed awaiting_release c =
    if_passed (leb c.cfg.n2 c.retry_count) _ _
      (left-passed (n2_exceeded disconnect_timeout c)
        ∙ error-passed disconnect_timeout _ c.retry_count c)
      (tx-passed _ c)
t1_expired-passed connected c = poll-passed (record c { state = timer_recovery; retry_count = 0 })
t1_expired-passed timer_recovery c = poll-passed c

pub t3_expired-passed : (s : ConnState) (c : Conn) → passed (t3_expired_in s c) ≡ passed c
t3_expired-passed connected c = tx-passed _ c
t3_expired-passed _ c = refl

pub t2_expired-passed : (c : Conn) → passed (on_t2_expired c) ≡ passed c
unfolding on_t2_expired
t2_expired-passed c =
    let off = record c { t2_active = false } in
    let told = record (send_ack false false off) { ack_pending = false } in
    ran_pending (if is_connected off && off.ack_pending then told else off)
    ∙ if_passed (is_connected off && off.ack_pending) told off (tx-passed _ off) refl
