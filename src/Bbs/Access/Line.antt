-- ===== src/Bbs/Access/Line.antt =====
-- cmd/bbs/bbs/bbs.go: what the commands and the other lines leave of the message store.
use go_ax.Bbs.{
  BbsEnv, BbsSession, Desk, SysopState, command_mode, config_mode, send_line, send_prompt,
  send_text, set_mode, set_sysop, text_line,
}
use go_ax.Base.{
  Bool, Bytes, List, Option, false, if◌then◌else◌, length, map, none, not, some, true, ℕ, ◌&&◌,
  ◌==◌, ◌≡◌,
}
use go_ax.Address.{equal_bytes, to_upper}
use go_ax.Base.Texts.{codes}
use go_ax.Bbs.Access.{Leaves, one_or_other, then_said}
use go_ax.Bbs.Admin.{
  answered, challenge_sent, challenge_unless, cmd_config, cmd_sysop, config_unless,
  enter_config_mode, issue_sysop_challenge, lockout_text, no_challenge, process_config_command,
  process_sysop_response, renew_challenge, renew_or_prompt, send_config_prompt, set_config_entry,
  set_is_sysop, submitted,
}
use go_ax.Bbs.Lines.{cmd_bye}
use go_ax.Bbs.Reading.{cmd_list}
use go_ax.Bbs.Sysop.{
  VerifyResult, is_awaiting_response, is_locked_out, issue_challenge, submit_response,
  verify_expired, verify_failed, verify_locked_out, verify_no_active, verify_success,
}
use go_ax.Bbs.Text.{command_parts, to_lower, trim_space}
use go_ax.Bbs.Writing.{cmd_send, process_subject}
use go_ax.Heard.{equal_fold}

pub contradiction {ℓ} : {A : Type ℓ} → true ≡ false → A
contradiction h = absurd (cc)

module _ {S : Type 0} (b : BbsEnv S) (now : ℕ) (random : List ℕ) (s : BbsSession) (x : S) where
  pub told : (text : Bytes) (d : Desk S) → Leaves b s x d → Leaves b s x (send_text b text d)
  told text d l = then_said b s text x d l

  pub either :
      (c : Bool) (d e : Desk S)
      → Leaves b s x d
      → Leaves b s x e
      → Leaves b s x (if c then d else e)
  either c d e l k = one_or_other b s c x d e (λ h. l) (λ h. k)

  sent-Leaves :
      (o : Option Bytes) (d : Desk S) → Leaves b s x d → Leaves b s x (challenge_sent b o d)
  sent-Leaves none d l = told _ d l
  sent-Leaves (some text) d l = told text _ (record { left = l.left })

  issue-Leaves : (d : Desk S) → Leaves b s x d → Leaves b s x (issue_sysop_challenge b now random d)
  unfolding issue_sysop_challenge
  issue-Leaves d l =
      let r = issue_challenge now random d.session.sysop in
      sent-Leaves r.1 (set_sysop r.0 d) (record { left = l.left })

  renew-Leaves :
      (w : Bool) (d : Desk S) → Leaves b s x d → Leaves b s x (renew_challenge b now random w d)
  renew-Leaves true d l = issue-Leaves d l
  renew-Leaves false d l = told _ d l

  unless-Leaves :
      (r : Bool × SysopState) (d : Desk S)
      → Leaves b s x d
      → Leaves b s x (challenge_unless b now random r d)
  unless-Leaves (true, t) d l = told _ (set_sysop t d) (record { left = l.left })
  unless-Leaves (false, t) d l = issue-Leaves (set_sysop t d) (record { left = l.left })

  pub cmd_sysop-Leaves :
      (arg : Bytes) (d : Desk S) → Leaves b s x d → Leaves b s x (cmd_sysop b now random arg d)
  unfolding cmd_sysop
  cmd_sysop-Leaves arg d l =
      either (length b.cfg.sysop_secret == 0) (send_line b (codes "*** SYSOP not configured") d) _
        (told _ d l)
        (either (equal_bytes (map to_upper (trim_space arg)) (codes "NEW"))
          (renew_challenge b now random (is_awaiting_response d.session.sysop) d)
          (challenge_unless b now random (is_locked_out now d.session.sysop) d)
          (renew-Leaves (is_awaiting_response d.session.sysop) d l)
          (unless-Leaves (is_locked_out now d.session.sysop) d l))

  enter-Leaves : (d : Desk S) → Leaves b s x d → Leaves b s x (enter_config_mode b d)
  enter-Leaves d l = told _ _ (told _ (set_mode config_mode d) (record { left = l.left }))

  config-Leaves :
      (r : Bool × SysopState) (d : Desk S)
      → Leaves b s x d
      → Leaves b s x (config_unless b now random r d)
  config-Leaves (true, t) d l =
      told _ _ (told (text_line (lockout_text t)) (set_sysop t d) (record { left = l.left }))
  config-Leaves (false, t) d l = issue-Leaves _ (record { left = l.left })

  pub cmd_config-Leaves : (d : Desk S) → Leaves b s x d → Leaves b s x (cmd_config b now random d)
  unfolding cmd_config
  cmd_config-Leaves d l =
      either (not (length b.cfg.sysop_secret == 0) && not d.session.is_sysop)
        (config_unless b now random (is_locked_out now d.session.sysop) d) (enter_config_mode b d)
        (config-Leaves (is_locked_out now d.session.sysop) d l) (enter-Leaves d l)

  pub cmd_send-Leaves :
      (arg : Bytes) (forced : ℕ) (d : Desk S)
      → Leaves b s x d
      → Leaves b s x (cmd_send b arg forced d)
  unfolding cmd_send
  cmd_send-Leaves arg forced d l =
      either (length (trim_space arg) == 0)
        (send_line b (codes "*** Usage: S <callsign or topic>") d) _ (told _ d l)
        (told _ _ (record { left = l.left }))

  pub cmd_list-Leaves :
      (limit : ℕ) (mine : Bool) (d : Desk S)
      → Leaves b s x d
      → Leaves b s x (cmd_list b limit mine d)
  unfolding cmd_list
  cmd_list-Leaves limit mine d l = told _ d l

  pub cmd_bye-Leaves : (d : Desk S) → Leaves b s x d → Leaves b s x (cmd_bye b d)
  cmd_bye-Leaves d l =
      let bye = send_line b (codes "*** Goodbye") d in
      either b.has_client (record bye { sent = _ }) bye (record { left = (told _ d l).left })
        (told _ d l)

  pub process_subject-Leaves :
      (line : Bytes) (d : Desk S) → Leaves b s x d → Leaves b s x (process_subject b line d)
  unfolding process_subject
  process_subject-Leaves line d l =
      either (length (trim_space line) == 0) _ _ (told _ _ (record { left = (told _ d l).left }))
        (told _ _ (record { left = l.left }))

  answered-Leaves : (r : VerifyResult) (d : Desk S) → Leaves b s x d → Leaves b s x (answered b r d)
  answered-Leaves verify_success d l =
      let done_so = send_line b (codes "*** SYSOP authenticated") (set_is_sysop true d) in
      let k : Leaves b s x done_so = told _ (set_is_sysop true d) (record { left = l.left }) in
      either done_so.session.pending_config_entry
        (enter_config_mode b (set_config_entry false done_so)) (send_prompt b done_so)
        (enter-Leaves (set_config_entry false done_so) (record { left = k.left }))
        (told _ done_so k)
  answered-Leaves verify_locked_out d l =
      told _ _ (told _ (set_is_sysop false d) (record { left = l.left }))
  answered-Leaves verify_expired d l =
      told _ _ (told _ (set_is_sysop false d) (record { left = l.left }))
  answered-Leaves verify_no_active d l = told _ _ (told _ d l)
  answered-Leaves verify_failed d l = told _ _ (told _ d l)

  renew_or_prompt-Leaves :
      (w : Bool) (d : Desk S) → Leaves b s x d → Leaves b s x (renew_or_prompt b now random w d)
  renew_or_prompt-Leaves true d l = issue-Leaves d l
  renew_or_prompt-Leaves false d l = told _ (no_challenge b d) (told _ d l)

  pub response-Leaves :
      (text : Bytes) (d : Desk S)
      → Leaves b s x d
      → Leaves b s x (process_sysop_response b now random text d)
  unfolding process_sysop_response
  response-Leaves text d l =
      let r = submit_response now (trim_space text) d.session.sysop in
      either (equal_fold (trim_space text) (codes "SYSOP NEW"))
        (renew_or_prompt b now random (is_awaiting_response d.session.sysop) d) (submitted b r d)
        (renew_or_prompt-Leaves (is_awaiting_response d.session.sysop) d l)
        (answered-Leaves r.0 _ (record { left = l.left }))

  pub config_command-Leaves :
      (text : Bytes) (d : Desk S) → Leaves b s x d → Leaves b s x (process_config_command b text d)
  unfolding process_config_command
  config_command-Leaves text d l =
      let line = trim_space text in
      let cmd = map to_lower (command_parts line).0 in
      either (length line == 0) (send_config_prompt b d) _ (told _ d l) (
        either (equal_bytes cmd (codes "get")) _ _ (told _ _ (told _ d l)) (
          either (equal_bytes cmd (codes "exit")) _ _
            (told _ _ (told _ (set_mode command_mode d) (record { left = l.left })))
            (told _ _ (told _ d l))))
