-- ===== src/Conn/Send.antt =====
-- ax25/conn.go: frame builders, and the sending side of the window.
use go_ax.Base.{
  Bool, Bytes, List, [], false, if◌then◌else◌, leb, map, not, true, ℕ, ◌%◌, ◌+◌, ◌-◌, ◌||◌, ◌∷◌,
}
use go_ax.Base.Bits.{set_bit_if}
use go_ax.Types.{Frame, ctrl_disc, ctrl_dm, ctrl_sabm, ctrl_ua, frame_i, pid_none}
use go_ax.Frame.{
  build_i_control, build_rej_control, build_rnr_control, build_rr_control, identify_frame_type,
}
use go_ax.Conn.State.{Conn, PendingFrame, enqueue_if, mod8, on_tx_frame}

unfoldable pub build_frame : Conn → ℕ → ℕ → Bytes → Frame
build_frame c ctrl pid payload = record {
  destination = c.remote_addr;
  source = c.local_addr;
  digipeaters = c.path;
  is_command = true;
  frame_type = identify_frame_type ctrl;
  control = ctrl;
  pid = pid;
  payload = payload;
}

abbrev pub tx : Frame → Conn → Conn
tx f c = enqueue_if c.cbs.has_on_tx_frame (on_tx_frame f) c

abbrev pub response : Conn → ℕ → Bool → Frame
response c ctrl is_cmd = record (build_frame c ctrl 0 []) { is_command = is_cmd }

abbrev pub send_sabm : Bool → Conn → Conn
send_sabm poll c = tx (build_frame c (set_bit_if poll 4 ctrl_sabm) 0 []) c

abbrev pub send_disc : Bool → Conn → Conn
send_disc poll c = tx (build_frame c (set_bit_if poll 4 ctrl_disc) 0 []) c

abbrev pub send_ua : Bool → Conn → Conn
send_ua final c = tx (response c (set_bit_if final 4 ctrl_ua) false) c

abbrev pub send_dm : Bool → Conn → Conn
send_dm final c = tx (response c (set_bit_if final 4 ctrl_dm) false) c

abbrev pub send_rr : Bool → Bool → Conn → Conn
send_rr pf is_cmd c = tx (response c (build_rr_control c.vr pf) is_cmd) c

abbrev pub send_rnr : Bool → Bool → Conn → Conn
send_rnr pf is_cmd c = tx (response c (build_rnr_control c.vr pf) is_cmd) c

abbrev pub send_rej : Bool → Bool → Conn → Conn
send_rej pf is_cmd c = tx (response c (build_rej_control c.vr pf) is_cmd) c

abbrev pub send_ack : Bool → Bool → Conn → Conn
send_ack pf is_cmd c =
    let ctrl = if c.local_busy then build_rnr_control c.vr pf else build_rr_control c.vr pf in
    tx (response c ctrl is_cmd) c

-- `mod8(c.vs - c.va)`, in uint8.
abbrev pub outstanding : ℕ → ℕ → ℕ
outstanding vs va = mod8 ((vs + 256 - va) % 256)

-- The I frame of a queued payload.
abbrev pub i_frame : Conn → PendingFrame → Frame
i_frame c p = record (build_frame c (build_i_control c.vs c.vr false) pid_none p.payload) {
  frame_type = frame_i;
}

-- What a round of `sendPendingIFrames` that sends does to the session.
unfoldable pub transmit : Conn → PendingFrame → Conn
transmit c p =
    let sent = tx (i_frame c p) (record c { vs = mod8 (c.vs + 1) }) in
    record sent { t1_active = if not sent.t1_active then true else sent.t1_active }

-- The test that ends the loop.
abbrev pub is_held : Conn → Bool
is_held c = leb c.cfg.window (outstanding c.vs c.va) || c.peer_busy

-- The loop of `sendPendingIFrames` over the queue, with the queue as it becomes.
unfoldable pub send_from : Conn → List PendingFrame → Conn × List PendingFrame
send_from c [] = (c, [])
send_from c (p ∷ ps) =
    let kept = send_from c ps in
    let sent = send_from (transmit c p) ps in
    if p.transmitted
    then (kept.0, p ∷ kept.1)
    else if is_held c
    then (c, p ∷ ps)
    else (sent.0, record p { ns = c.vs; transmitted = true } ∷ sent.1)

unfoldable pub send_pending_i_frames : Conn → Conn
send_pending_i_frames c = let (c', queue) = send_from c c.tx_queue in record c' { tx_queue = queue }

abbrev pub untransmit : PendingFrame → PendingFrame
untransmit p = record p { transmitted = false }

unfoldable pub retransmit_from : ℕ → Conn → Conn
retransmit_from nr c =
    send_pending_i_frames (record c { vs = nr; tx_queue = map untransmit c.tx_queue })
