-- ===== src/Bbs/Locked/State.antt =====
-- cmd/bbs/bbs/sysop.go: what a lockout makes of the calls of `SysopState`.
use go_ax.Base.{Bytes, ap, arith, false, ltb, refl, true, ℕ, ◌≡◌, ◌≤◌}
use go_ax.Bbs.{BbsSession, InputMode, SysopState, locked_out}
use go_ax.Bbs.Sysop.{
  expire_if_idle, is_authenticated, is_awaiting_response, is_locked_out, is_mode_authenticated,
  is_mode_awaiting, note_activity, submit_response, verify_no_active,
}
use go_ax.Conn.Send.{response}

-- The session is locked out up to a time, and its station is not the operator.
pub record IsLocked (until : ℕ) (s : BbsSession) : Type 0 where
  pub locked : s.sysop.mode ≡ locked_out
  pub ends_at : s.sysop.lockout_until ≡ until
  pub no_sysop : s.is_sysop ≡ false

pub mode-IsLocked :
    (until : ℕ) (m : InputMode) (s : BbsSession)
    → IsLocked until s
    → IsLocked until (record s { input_mode = m })
mode-IsLocked until m s l = record { locked = l.locked; ends_at = l.ends_at; no_sysop = l.no_sysop }

pub pending-IsLocked :
    (until : ℕ) (to subject text : Bytes) (flags : ℕ) (m : InputMode) (s : BbsSession)
    → IsLocked until s
    → IsLocked until (record s {
      input_mode = m;
      pending_to = to;
      pending_subject = subject;
      pending_body = text;
      pending_flags = flags;
    })
pending-IsLocked until to subject text flags m s l = record {
  locked = l.locked;
  ends_at = l.ends_at;
  no_sysop = l.no_sysop;
}

pub is_locked_out-early :
    (now : ℕ) (s : SysopState)
    → s.mode ≡ locked_out
    → now ≤ s.lockout_until
    → is_locked_out now s ≡ (true, s)
unfolding is_locked_out
is_locked_out-early now s h early =
    let late : ltb s.lockout_until now ≡ false = ground (arith, early) in simp (h, late) refl

pub not_awaiting : (s : SysopState) → s.mode ≡ locked_out → is_awaiting_response s ≡ false
not_awaiting s h = ap is_mode_awaiting h

pub not_authenticated : (s : SysopState) → s.mode ≡ locked_out → is_authenticated s ≡ false
not_authenticated s h = ap is_mode_authenticated h

pub submit_response-locked :
    (now : ℕ) (response : Bytes) (s : SysopState)
    → s.mode ≡ locked_out
    → submit_response now response s ≡ (verify_no_active, s)
unfolding submit_response
submit_response-locked now response s h = rw (not_awaiting s h) refl

pub expire_if_idle-locked :
    (now : ℕ) (s : SysopState) → s.mode ≡ locked_out → expire_if_idle now s ≡ (false, s)
unfolding expire_if_idle
expire_if_idle-locked now s h = rw (not_authenticated s h) refl

pub note_activity-locked :
    (now : ℕ) (s : SysopState) → s.mode ≡ locked_out → note_activity now s ≡ s
note_activity-locked now s h = rw (not_authenticated s h) refl
