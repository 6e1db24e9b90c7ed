-- ===== src/Conn/Retries.antt =====
-- ax25/conn.go: the retries of T1, and the timers of the recovery.
use go_ax.Base.{
  [], append-nil, arith, false, inl, inr, suc, true, zero, ℕ, ◌%◌, ◌+◌, ◌<◌, ◌≡◌, ◌≢◌, ◌≤◌, ◌⊎◌,
}
use go_ax.Types.{Frame, ctrl_rnr_mask, frame_s}
use go_ax.Frame.{extract_nr, has_pf}
use go_ax.Conn.State.{Conn, connected, disconnected, timer_recovery}
use go_ax.Conn.Receive.{handle_received_nr, handle_s_frame, is_valid_nr, on_frame, on_rnr}
use go_ax.Conn.Calls.{on_t1_expired, on_t3_expired, t1_expired_in}

-- T1 expires `n` times, and nothing else happens.
pub silence : ℕ → Conn → Conn
silence zero c = c
silence (suc n) c = silence n (on_t1_expired c)

t1-disconnected : (c : Conn) → c.state ≡ disconnected → (on_t1_expired c).state ≡ disconnected
unfolding on_t1_expired t1_expired_in
t1-disconnected c h = ground arith

silence-disconnected :
    (n : ℕ) (c : Conn) → c.state ≡ disconnected → (silence n c).state ≡ disconnected
unfolding silence
silence-disconnected zero c h = h
silence-disconnected (suc n) c h = silence-disconnected n (on_t1_expired c) (t1-disconnected c h)

-- One expiry ends the session, or counts one retry more in the same state.
t1_counts :
    (c : Conn)
    → c.state ≢ connected
    → ((on_t1_expired c).state ≡ disconnected)
      ⊎ ((c.retry_count < c.cfg.n2)
          × ((on_t1_expired c).state ≡ c.state)
          × ((on_t1_expired c).retry_count ≡ c.retry_count + 1)
          × ((on_t1_expired c).cfg ≡ c.cfg))
unfolding on_t1_expired t1_expired_in
t1_counts c h = ground arith

-- A peer that never answers is given up: a session that is in any state but the connected one and
-- has at most n of its N2 retries left is disconnected when T1 has expired n + 1 times in a row.
pub silence-gives_up :
    (n : ℕ) (c : Conn)
    → c.state ≢ connected
    → c.cfg.n2 ≤ c.retry_count + n
    → (silence (suc n) c).state ≡ disconnected
unfolding silence
silence-gives_up zero c h e = elim (t1_counts c h) [
  | inl done ↦ done
  | inr more ↦ absurd (omega (arith, more.0))
]
silence-gives_up (suc n) c h e = elim (t1_counts c h) [
  | inl done ↦ silence-disconnected (suc n) (on_t1_expired c) done
  | inr more ↦
      silence-gives_up n (on_t1_expired c) (rw more.1 h) (rw (more.3, more.2) (omega arith))
]

recovery_rnr :
    (during : Conn → Conn) (f : Frame) (c : Conn)
    → c.state ≡ timer_recovery
    → f.frame_type ≡ frame_s
    → f.control % 16 ≡ ctrl_rnr_mask
    → has_pf f.control ≡ true
    → is_valid_nr c.va c.vs (extract_nr f.control) ≡ true
    → let w = on_frame during f c in
      (w.state ≡ timer_recovery) × (w.t1_active ≡ false) × (w.pending_actions ≡ [])
unfolding on_frame handle_s_frame on_rnr handle_received_nr
recovery_rnr during f c s t k pf valid = rw (t, s) (simp (valid, k, pf) (ground arith))

t3-recovery :
    (w : Conn)
    → w.state ≡ timer_recovery
    → w.t1_active ≡ false
    → w.pending_actions ≡ []
    → let stuck = on_t3_expired w in
      (stuck.state ≡ timer_recovery)
      × (stuck.t1_active ≡ false)
      × (stuck.t3_active ≡ false)
      × (stuck.ran ≡ w.ran)
unfolding on_t3_expired
t3-recovery w s t1 quiet = ground (arith, append-nil w.ran)

-- In the timer recovery, when an RNR with a valid N(R) and its final bit set has come and T3 has then
-- expired, the session is still in the recovery, neither T1 nor T3 runs, and the expiry ran no
-- action, so that nothing finds out any more that the peer is gone.
pub recovery_stuck :
    (during : Conn → Conn) (f : Frame) (c : Conn)
    → c.state ≡ timer_recovery
    → f.frame_type ≡ frame_s
    → f.control % 16 ≡ ctrl_rnr_mask
    → has_pf f.control ≡ true
    → is_valid_nr c.va c.vs (extract_nr f.control) ≡ true
    → let waiting = on_frame during f c in
      let stuck = on_t3_expired waiting in
      (stuck.state ≡ timer_recovery)
      × (stuck.t1_active ≡ false)
      × (stuck.t3_active ≡ false)
      × (stuck.ran ≡ waiting.ran)
recovery_stuck during f c s t k pf valid =
    let (state, t1, quiet) = recovery_rnr during f c s t k pf valid in
    t3-recovery (on_frame during f c) state t1 quiet
