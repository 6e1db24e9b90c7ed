-- ===== src/Bbs/Granted.antt =====
-- cmd/bbs/bbs/sysop.go: how a station becomes the operator.
pub mod Answer
pub mod Right
use go_ax.Bbs.Granted.Answer.{Answers, submit_response-Answers}
use go_ax.Base.{
  Bool, Bytes, List, Option, false, if◌then◌else◌, length, map, none, not, refl, some, true, ℕ,
  ◌&&◌, ◌==◌, ◌≡◌,
}
use go_ax.Bbs.{
  BbsEnv, BbsSession, Desk, InputMode, SysopState, body_mode, command_mode, config_mode, send_line,
  send_prompt, send_text, set_sysop, subject_mode, sysop_mode, text_line,
}
use go_ax.Bbs.Kept.{
  Keeps, either-Keeps, enter_config_mode-Keeps, process_body-Keeps, process_config_command-Keeps,
  process_subject-Keeps, send_text-Keeps,
}
use go_ax.Bbs.Sysop.{
  VerifyResult, expire_if_idle, is_awaiting_response, is_locked_out, issue_challenge,
  submit_response, verify_expired, verify_failed, verify_locked_out, verify_no_active,
  verify_success,
}
use go_ax.Bbs.Text.{trim_space}
use go_ax.Address.{equal_bytes, to_upper}
use go_ax.Base.Texts.{codes}
use go_ax.Bbs.Admin.{
  answered, challenge_sent, challenge_unless, cmd_config, cmd_sysop, config_unless,
  enter_config_mode, expired, issue_sysop_challenge, lockout_text, no_challenge, note_desk_activity,
  process_sysop_response, renew_challenge, renew_or_prompt, set_config_entry, set_is_sysop,
  submitted, sysop_expire_if_idle,
}
use go_ax.Bbs.Kept.Line.{process_command-Keeps}
use go_ax.Bbs.Lines.{line_in, process_line}
use go_ax.Heard.{equal_fold}
use go_ax.Bbs.Access.Line.{told}

-- A station that is the operator has the right to be.
abbrev pub Entitled : Type 0 → BbsSession → Type 0
Entitled G s = s.is_sysop ≡ true → G

module _ {S : Type 0} (G : Type 0) (b : BbsEnv S) (now : ℕ) (random : List ℕ) where
  mode-Entitled :
      (m : InputMode) (s : BbsSession) → Entitled G s → Entitled G (record s { input_mode = m })
  mode-Entitled m s l = l

  pending-Entitled :
      (to subject text : Bytes) (flags : ℕ) (m : InputMode) (s : BbsSession)
      → Entitled G s
      → Entitled G (record s {
        input_mode = m;
        pending_to = to;
        pending_subject = subject;
        pending_body = text;
        pending_flags = flags;
      })
  pending-Entitled to subject text flags m s l = l

  spoken :
      (text : Bytes) (d : Desk S) → Keeps (Entitled G) d → Keeps (Entitled G) (send_text b text d)
  spoken text d l = send_text-Keeps (Entitled G) mode-Entitled pending-Entitled b text d l

  chosen :
      (c : Bool) (x y : Desk S)
      → Keeps (Entitled G) x
      → Keeps (Entitled G) y
      → Keeps (Entitled G) (if c then x else y)
  chosen c x y l k = either-Keeps (Entitled G) mode-Entitled pending-Entitled c x y l k

  sent-Entitled :
      (o : Option Bytes) (d : Desk S)
      → Keeps (Entitled G) d
      → Keeps (Entitled G) (challenge_sent b o d)
  sent-Entitled none d l = spoken _ d l
  sent-Entitled (some text) d l = spoken text _ (record { kept = l.kept })

  issue-Entitled :
      (d : Desk S)
      → Keeps (Entitled G) d
      → Keeps (Entitled G) (issue_sysop_challenge b now random d)
  unfolding issue_sysop_challenge
  issue-Entitled d l =
      let r = issue_challenge now random d.session.sysop in
      sent-Entitled r.1 (set_sysop r.0 d) (record { kept = l.kept })

  renew-Entitled :
      (w : Bool) (d : Desk S)
      → Keeps (Entitled G) d
      → Keeps (Entitled G) (renew_challenge b now random w d)
  renew-Entitled true d l = issue-Entitled d l
  renew-Entitled false d l = spoken _ d l

  unless-Entitled :
      (r : Bool × SysopState) (d : Desk S)
      → Keeps (Entitled G) d
      → Keeps (Entitled G) (challenge_unless b now random r d)
  unless-Entitled (true, s) d l = spoken _ (set_sysop s d) (record { kept = l.kept })
  unless-Entitled (false, s) d l = issue-Entitled (set_sysop s d) (record { kept = l.kept })

  cmd_sysop-Entitled :
      (arg : Bytes) (d : Desk S)
      → Keeps (Entitled G) d
      → Keeps (Entitled G) (cmd_sysop b now random arg d)
  unfolding cmd_sysop
  cmd_sysop-Entitled arg d l =
      chosen (length b.cfg.sysop_secret == 0) (send_line b (codes "*** SYSOP not configured") d) _
        (spoken _ d l)
        (chosen (equal_bytes (map to_upper (trim_space arg)) (codes "NEW"))
          (renew_challenge b now random (is_awaiting_response d.session.sysop) d)
          (challenge_unless b now random (is_locked_out now d.session.sysop) d)
          (renew-Entitled (is_awaiting_response d.session.sysop) d l)
          (unless-Entitled (is_locked_out now d.session.sysop) d l))

  config-Entitled :
      (r : Bool × SysopState) (d : Desk S)
      → Keeps (Entitled G) d
      → Keeps (Entitled G) (config_unless b now random r d)
  config-Entitled (true, s) d l =
      spoken _ _ (spoken (text_line (lockout_text s)) (set_sysop s d) (record { kept = l.kept }))
  config-Entitled (false, s) d l = issue-Entitled _ (record { kept = l.kept })

  cmd_config-Entitled :
      (d : Desk S) → Keeps (Entitled G) d → Keeps (Entitled G) (cmd_config b now random d)
  unfolding cmd_config
  cmd_config-Entitled d l =
      chosen (not (length b.cfg.sysop_secret == 0) && not d.session.is_sysop)
        (config_unless b now random (is_locked_out now d.session.sysop) d) (enter_config_mode b d)
        (config-Entitled (is_locked_out now d.session.sysop) d l)
        (enter_config_mode-Keeps (Entitled G) mode-Entitled pending-Entitled b d l)

  expired-Entitled :
      (r : Bool × SysopState) (d : Desk S)
      → Keeps (Entitled G) d
      → Keeps (Entitled G) (expired b r d)
  expired-Entitled (true, s) d l =
      spoken _ (set_is_sysop false (set_sysop s d)) (record { kept = λ h. cc })
  expired-Entitled (false, s) d l = record { kept = l.kept }

  expiry-Entitled :
      (d : Desk S)
      → Keeps (Entitled G) d
      → Keeps (Entitled G) (note_desk_activity now (sysop_expire_if_idle b now d))
  unfolding sysop_expire_if_idle
  expiry-Entitled d l = record {
    kept = (expired-Entitled (expire_if_idle now d.session.sysop) d l).kept;
  }

  answered-Entitled :
      (r : VerifyResult) (d : Desk S)
      → (r ≡ verify_success → G)
      → Keeps (Entitled G) d
      → Keeps (Entitled G) (answered b r d)
  answered-Entitled verify_success d g l =
      let told = send_line b (codes "*** SYSOP authenticated") (set_is_sysop true d) in
      let k : Keeps (Entitled G) told =
        spoken _ (set_is_sysop true d) (record { kept = λ h. g refl }) in
      chosen told.session.pending_config_entry (enter_config_mode b (set_config_entry false told))
        (send_prompt b told)
        (enter_config_mode-Keeps (Entitled G) mode-Entitled pending-Entitled b
          (set_config_entry false told) (record { kept = k.kept }))
        (spoken _ told k)
  answered-Entitled verify_locked_out d g l =
      spoken _ _ (spoken _ (set_is_sysop false d) (record { kept = λ h. cc }))
  answered-Entitled verify_expired d g l =
      spoken _ _ (spoken _ (set_is_sysop false d) (record { kept = λ h. cc }))
  answered-Entitled verify_no_active d g l = spoken _ _ (spoken _ d l)
  answered-Entitled verify_failed d g l = spoken _ _ (spoken _ d l)

  renew_or_prompt-Entitled :
      (w : Bool) (d : Desk S)
      → Keeps (Entitled G) d
      → Keeps (Entitled G) (renew_or_prompt b now random w d)
  renew_or_prompt-Entitled true d l = issue-Entitled d l
  renew_or_prompt-Entitled false d l = spoken _ (no_challenge b d) (spoken _ d l)

  response-Entitled :
      (text : Bytes) (d : Desk S)
      → (Answers now text d.session → G)
      → Keeps (Entitled G) d
      → Keeps (Entitled G) (process_sysop_response b now random text d)
  unfolding process_sysop_response
  response-Entitled text d g l =
      let r = submit_response now (trim_space text) d.session.sysop in
      chosen (equal_fold (trim_space text) (codes "SYSOP NEW"))
        (renew_or_prompt b now random (is_awaiting_response d.session.sysop) d) (submitted b r d)
        (renew_or_prompt-Entitled (is_awaiting_response d.session.sysop) d l)
        (answered-Entitled r.0 _ (λ h. g (submit_response-Answers now text d.session h))
          (record { kept = l.kept }))

  line_in-Entitled :
      (m : InputMode) (line : Bytes) (d : Desk S)
      → (m ≡ sysop_mode → Answers now line d.session → G)
      → Keeps (Entitled G) d
      → Keeps (Entitled G) (line_in m b now random line d)
  line_in-Entitled command_mode line d g l =
      process_command-Keeps (Entitled G) mode-Entitled pending-Entitled b now random
        cmd_sysop-Entitled cmd_config-Entitled expiry-Entitled line d l
  line_in-Entitled subject_mode line d g l =
      process_subject-Keeps (Entitled G) mode-Entitled pending-Entitled b line d l
  line_in-Entitled body_mode line d g l =
      process_body-Keeps (Entitled G) mode-Entitled pending-Entitled b line d l
  line_in-Entitled sysop_mode line d g l = response-Entitled line d (g refl) l
  line_in-Entitled config_mode line d g l =
      process_config_command-Keeps (Entitled G) mode-Entitled pending-Entitled b line d l

-- How a station that is the operator behind a line came to be it: it was the operator before, or the
-- line answers the challenge of its session.
pub data Grant (now : ℕ) (line : Bytes) (s : BbsSession) : Type 0 where
  already : s.is_sysop ≡ true → Grant now line s
  answers : s.input_mode ≡ sysop_mode → Answers now line s → Grant now line s

-- A station that is the operator behind a line was the operator before it, or the line came in the mode
-- that waits for a response and gives the right response to the session's challenge in time.
pub process_line-Grant :
    {S : Type 0} (b : BbsEnv S) (now : ℕ) (random : List ℕ) (line : Bytes) (d : Desk S)
    → (process_line b now random line d).session.is_sysop ≡ true
    → Grant now line d.session
unfolding process_line
process_line-Grant b now random line d h =
    (line_in-Entitled (Grant now line d.session) b now random d.session.input_mode line d answers
        (record { kept = already })).kept
      h
