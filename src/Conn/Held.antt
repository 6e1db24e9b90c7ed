-- ===== src/Conn/Held.antt =====
-- ax25/conn.go: data that is queued while the peer is busy.
use go_ax.Base.{List, arith, false, refl, true, ℕ, ◌%◌, ◌++◌, ◌<◌, ◌≡◌}
use go_ax.Types.{Frame, ctrl_rr_mask, frame_s}
use go_ax.Conn.State.{Conn, PendingFrame, connected}
use go_ax.Conn.Receive.{ack_loop, handle_received_nr, handle_s_frame, is_valid_nr, on_frame, on_rr}
use go_ax.Frame.{extract_nr, has_pf}
use go_ax.Conn.Window.{ack_loop-eq}

ack_loop-here : (nr : ℕ) (q : List PendingFrame) → nr < 8 → ack_loop 8 nr nr q 0 ≡ (nr, q, 0)
ack_loop-here nr q small =
    ack_loop-eq 0 8 nr nr q 0 (omega arith) (omega arith) small (omega (arith, small))

valid_here : (nr : ℕ) → is_valid_nr nr nr nr ≡ true
unfolding is_valid_nr
valid_here nr = ground arith

-- Nothing is acknowledged when nothing is outstanding.
handle_received_nr-here :
    (nr : ℕ) (c : Conn)
    → c.va ≡ nr
    → c.vs ≡ nr
    → nr < 8
    → handle_received_nr nr c ≡ record c { va = nr; t1_active = false; t3_active = true }
unfolding handle_received_nr
handle_received_nr-here nr c va vs small =
    simp (va, vs, ack_loop-here nr c.tx_queue small) (ground arith)

on_rr-here :
    (nr : ℕ) (c : Conn)
    → c.va ≡ nr
    → c.vs ≡ nr
    → nr < 8
    → on_rr nr false c
      ≡ record c { va = nr; peer_busy = false; t1_active = false; t3_active = true }
unfolding on_rr
on_rr-here nr c va vs small =
    handle_received_nr-here nr (record c { peer_busy = false }) va vs small

-- A connected session with nothing outstanding that gets an RR with N(R) at V(A) and the P/F bit
-- clear takes the peer for ready again, but sends nothing of what it held back while the peer was
-- busy: its queue is as it was and only the actions that were pending are run.
pub on_frame-held :
    (during : Conn → Conn) (f : Frame) (c : Conn) (n : ℕ)
    → c.state ≡ connected
    → c.va ≡ n
    → c.vs ≡ n
    → n < 8
    → f.frame_type ≡ frame_s
    → f.control % 16 ≡ ctrl_rr_mask
    → has_pf f.control ≡ false
    → extract_nr f.control ≡ n
    → let after_rr = on_frame during f c in
      (after_rr.state ≡ connected)
      × (after_rr.peer_busy ≡ false)
      × (after_rr.tx_queue ≡ c.tx_queue)
      × (after_rr.ran ≡ c.ran ++ c.pending_actions)
unfolding on_frame handle_s_frame
on_frame-held during f c n s va vs small t k pf nr =
    let valid : is_valid_nr c.va c.vs n ≡ true = rw va (rw vs (valid_here n)) in
    simp (t, s, k, pf, nr, valid, on_rr-here n c va vs small) (refl, refl, refl, refl)
