-- ===== src/Conn/Receive.antt =====
-- ax25/conn.go: the receiving side. The handlers run under the lock, and return no error.
use Prim.Native.String.{String}
use go_ax.Base.{
  Bool, List, [], drop, false, if◌then◌else◌, leb, length, ltb, not, reverse, suc, true, zero, ℕ,
  ◌%◌, ◌&&◌, ◌++◌, ◌+◌, ◌==◌, ◌||◌, ◌∷◌,
}
use go_ax.Base.Bits.{clear_bit}
use go_ax.Types.{
  Address, Frame, FrameType, ctrl_disc, ctrl_dm, ctrl_rej_mask, ctrl_rnr_mask, ctrl_rr_mask,
  ctrl_sabm, ctrl_ua, frame_i, frame_s, frame_u, frame_ui,
}
use go_ax.Frame.{extract_nr, extract_ns, has_pf}
use go_ax.Conn.State.{
  Conn, ConnState, PendingFrame, awaiting_connection, awaiting_release, connected, disconnected,
  dm_received, enqueue_if, enter_disconnected, fire_error, mod8, not_connected, nr_error,
  on_connect, on_data, on_link_reset, on_tx_ack, reset_state_vars, run_pending_actions, start_t2,
  start_t3, stop_t1, timer_recovery,
}
use go_ax.Conn.Send.{
  retransmit_from, send_ack, send_dm, send_pending_i_frames, send_rej, send_rnr, send_rr, send_ua,
}

-- `extractReturnPath`: the hops behind the frame, their H bits cleared, in the opposite order.
unfoldable pub traversed : List Address → List Address
traversed [] = []
traversed (d ∷ ds) =
    if d.has_been_repeated
    then record d { has_been_repeated = false } ∷ traversed ds
    else traversed ds

abbrev pub extract_return_path : Frame → List Address
extract_return_path f = reverse (traversed f.digipeaters)

-- `isValidNR`: nr lies between va and vs, modulo 8.
unfoldable pub is_valid_nr : ℕ → ℕ → ℕ → Bool
is_valid_nr va vs nr = if leb va vs then leb va nr && leb nr vs else leb va nr || leb nr vs

-- The loop of `handleReceivedNR`, with the count of the frames acknowledged. It runs at most eight
-- rounds, since va goes round modulo 8.
unfoldable pub ack_loop : ℕ → ℕ → ℕ → List PendingFrame → ℕ → ℕ × List PendingFrame × ℕ
ack_loop zero nr va queue acked = (va, queue, acked)
ack_loop (suc fuel) nr va queue acked =
    let rest = ack_loop fuel nr (mod8 (va + 1)) (drop 1 queue) (acked + 1) in
    if va == nr then (va, queue, acked) else rest

unfoldable pub handle_received_nr : ℕ → Conn → Conn
handle_received_nr nr c =
    let (va, queue, acked) = ack_loop 8 nr c.va c.tx_queue 0 in
    let acknowledged =
      enqueue_if (ltb 0 acked && c.cbs.has_on_tx_ack) (on_tx_ack acked)
        (record c { va = va; tx_queue = queue }) in
    record acknowledged {
      t1_active = if va == c.vs then false else if not c.t1_active then true else c.t1_active;
      t3_active = if va == c.vs then true else c.t3_active;
    }

-- `startNRErrorRecovery`
abbrev pub start_nr_error_recovery : String → Conn → Conn
start_nr_error_recovery msg c =
    enter_disconnected (send_dm true (fire_error nr_error msg c.retry_count c))

-- `f.Type == FrameU && f.Control&0xEF == ctrl`
abbrev pub is_u_type : FrameType → Bool
is_u_type frame_u = true
is_u_type _ = false

abbrev pub is_u : ℕ → Frame → Bool
is_u ctrl f = is_u_type f.frame_type && clear_bit 4 f.control == ctrl

-- An incoming SABM has set up the session; `OnConnect` has run.
abbrev pub answer_sabm : Bool → Conn → Conn
answer_sabm pf c =
    if c.refuse_pending then enter_disconnected (send_dm pf c) else start_t3 (send_ua pf c)

-- `OnConnect` runs with the lock released: `during` is what its calls, and those of other
-- goroutines meanwhile, make of the session.
unfoldable pub handle_disconnected : (Conn → Conn) → Frame → Conn → Conn
handle_disconnected during f c =
    let addressed = record c { remote_addr = f.source; path = extract_return_path f } in
    let accepted = record (reset_state_vars (record addressed { is_local_initiated = false })) {
      state = connected;
      refuse_pending = false;
    } in
    let told =
      if c.cbs.has_on_connect
      then during (record accepted { ran = accepted.ran ++ (on_connect f.source false ∷ []) })
      else accepted in
    if is_u ctrl_sabm f
    then answer_sabm (has_pf f.control) told
    else send_dm (has_pf f.control) addressed

unfoldable pub handle_awaiting_connection : Frame → Conn → Conn
handle_awaiting_connection f c =
    let accepted = record (reset_state_vars (stop_t1 c)) { state = connected } in
    if is_u ctrl_ua f
    then send_pending_i_frames
        (start_t3 (enqueue_if c.cbs.has_on_connect (on_connect c.remote_addr true) accepted))
    else if is_u ctrl_dm f
    then enter_disconnected
        (fire_error not_connected "connection refused (DM received)" 0 (stop_t1 c))
    else c

unfoldable pub handle_awaiting_release : Frame → Conn → Conn
handle_awaiting_release f c =
    if is_u ctrl_ua f || is_u ctrl_dm f then enter_disconnected (stop_t1 c) else c

-- An I frame whose N(S) is the one awaited.
unfoldable pub in_sequence : Frame → Conn → Conn
in_sequence f c =
    let next = record c { vr = mod8 (c.vr + 1); rej_sent = false } in
    let told =
      enqueue_if (c.cbs.has_on_data && ltb 0 (length f.payload)) (on_data f.payload) next in
    if has_pf f.control
    then record (send_ack true false told) { ack_pending = false }
    else start_t2 (record told { ack_pending = true })

unfoldable pub out_of_sequence : Frame → Conn → Conn
out_of_sequence f c =
    if not c.rej_sent
    then send_rej (has_pf f.control) false (record c { rej_sent = true })
    else if has_pf f.control
    then send_rr true false c
    else c

unfoldable pub handle_i_frame : Frame → Conn → Conn
handle_i_frame f c =
    let nr = extract_nr f.control in
    let acknowledged = handle_received_nr nr c in
    if c.local_busy
    then send_rnr false false c
    else if not (is_valid_nr c.va c.vs nr)
    then start_nr_error_recovery "invalid N(R) in I-frame" c
    else if extract_ns f.control == acknowledged.vr
    then in_sequence f acknowledged
    else out_of_sequence f acknowledged

abbrev pub is_timer_recovery : ConnState → Bool
is_timer_recovery timer_recovery = true
is_timer_recovery _ = false

unfoldable pub on_rr : ℕ → Bool → Conn → Conn
on_rr nr pf c =
    let acked = handle_received_nr nr (record c { peer_busy = false }) in
    let back = record (stop_t1 acked) { state = connected } in
    if pf && is_timer_recovery acked.state
    then (if not (back.va == back.vs) then retransmit_from back.va back else back)
    else if pf
    then send_rr true false acked
    else acked

unfoldable pub on_rnr : ℕ → Bool → Conn → Conn
on_rnr nr pf c =
    let acked = handle_received_nr nr (record c { peer_busy = true }) in
    if pf then start_t3 (stop_t1 acked) else acked

unfoldable pub on_rej : ℕ → Bool → Conn → Conn
on_rej nr pf c =
    let acked = handle_received_nr nr (record c { peer_busy = false }) in
    let again =
      retransmit_from nr (record (stop_t1 acked) { retry_count = 0; state = connected }) in
    if pf then send_rr true false again else again

unfoldable pub handle_s_frame : Frame → Conn → Conn
handle_s_frame f c =
    let nr = extract_nr f.control in
    let pf = has_pf f.control in
    if not (is_valid_nr c.va c.vs nr)
    then start_nr_error_recovery "invalid N(R) in S-frame" c
    else if f.control % 16 == ctrl_rr_mask
    then on_rr nr pf c
    else if f.control % 16 == ctrl_rnr_mask
    then on_rnr nr pf c
    else if f.control % 16 == ctrl_rej_mask
    then on_rej nr pf c
    else c

unfoldable pub handle_u_frame_connected : Frame → Conn → Conn
handle_u_frame_connected f c =
    let kind = clear_bit 4 f.control in
    let pf = has_pf f.control in
    if kind == ctrl_sabm
    then enqueue_if c.cbs.has_on_link_reset on_link_reset (send_ua pf (reset_state_vars c))
    else if kind == ctrl_disc
    then enter_disconnected (send_ua pf c)
    else if kind == ctrl_dm
    then enter_disconnected (fire_error dm_received "remote disconnected" c.retry_count c)
    else c

abbrev pub by_type : FrameType → Frame → Conn → Conn
by_type frame_i f c = handle_i_frame f c
by_type frame_s f c = handle_s_frame f c
by_type frame_u f c = handle_u_frame_connected f c
by_type _ f c = c

-- `handleConnected`, and `handleTimerRecovery`, which calls it.
abbrev pub handle_connected : Frame → Conn → Conn
handle_connected f c = by_type f.frame_type f c

abbrev pub by_state : ConnState → (Conn → Conn) → Frame → Conn → Conn
by_state disconnected during f c = handle_disconnected during f c
by_state awaiting_connection during f c = handle_awaiting_connection f c
by_state awaiting_release during f c = handle_awaiting_release f c
by_state connected during f c = handle_connected f c
by_state timer_recovery during f c = handle_connected f c

abbrev pub is_ui : FrameType → Bool
is_ui frame_ui = true
is_ui _ = false

-- `OnFrame`
unfoldable pub on_frame : (Conn → Conn) → Frame → Conn → Conn
on_frame during f c =
    if is_ui f.frame_type then c else run_pending_actions (by_state c.state during f c)
