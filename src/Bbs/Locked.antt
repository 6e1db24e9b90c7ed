-- ===== src/Bbs/Locked.antt =====
-- cmd/bbs/bbs/sysop.go: a station that is locked out.
pub mod State
use go_ax.Bbs.Locked.State.{
  IsLocked, expire_if_idle-locked, is_locked_out-early, mode-IsLocked, not_awaiting,
  note_activity-locked, pending-IsLocked, submit_response-locked,
}
use go_ax.Bbs.Kept.{Keeps, either-Keeps, enter_config_mode-Keeps, send_text-Keeps}
use mathlib.Core.Path.{subst}
use go_ax.Base.{
  Bool, Bytes, List, [], ap, arith, false, if◌then◌else◌, length, map, not, sym, true, ℕ, ◌&&◌,
  ◌++◌, ◌+◌, ◌==◌, ◌∙◌, ◌∷◌, ◌≡◌, ◌≤◌,
}
use go_ax.Bbs.{BbsEnv, Desk, command_mode, send_line, send_text, set_mode, set_sysop, text_line}
use go_ax.Bbs.Sysop.{is_awaiting_response, is_locked_out, submit_response}
use go_ax.Bbs.Admin.{
  challenge_unless, cmd_config, cmd_sysop, config_unless, enter_config_mode, expired, lockout_text,
  no_challenge, note_desk_activity, process_sysop_response, renew_challenge, renew_or_prompt,
  set_config_entry, submitted, sysop_expire_if_idle,
}
use go_ax.Bbs.Text.{trim_space}
use go_ax.Address.{equal_bytes, to_upper}
use go_ax.Base.Texts.{codes}
use go_ax.Bbs.Kept.Line.{process_line-Keeps}
use go_ax.Bbs.Lines.{process_line, set_line, take_char, take_chars}
use go_ax.Heard.{equal_fold}

module _ {S : Type 0} (until : ℕ) (b : BbsEnv S) (now : ℕ) (random : List ℕ)
    (early : now ≤ until) where
  say :
      (text : Bytes) (d : Desk S)
      → Keeps (IsLocked until) d
      → Keeps (IsLocked until) (send_text b text d)
  say text d l =
      send_text-Keeps (IsLocked until) (mode-IsLocked until) (pending-IsLocked until) b text d l

  choose :
      (c : Bool) (x y : Desk S)
      → Keeps (IsLocked until) x
      → Keeps (IsLocked until) y
      → Keeps (IsLocked until) (if c then x else y)
  choose c x y l k =
      either-Keeps (IsLocked until) (mode-IsLocked until) (pending-IsLocked until) c x y l k

  still_locked :
      (d : Desk S)
      → Keeps (IsLocked until) d
      → is_locked_out now d.session.sysop ≡ (true, d.session.sysop)
  still_locked d l =
      is_locked_out-early now d.session.sysop l.kept.locked (omega (arith, l.kept.ends_at, early))

  renew-IsLocked :
      (d : Desk S)
      → Keeps (IsLocked until) d
      → Keeps
          (IsLocked until)
          (renew_challenge b now random (is_awaiting_response d.session.sysop) d)
  renew-IsLocked d l =
      subst (λ w. Keeps (IsLocked until) (renew_challenge b now random w d))
        (sym (not_awaiting d.session.sysop l.kept.locked)) (say _ d l)

  challenge-IsLocked :
      (d : Desk S)
      → Keeps (IsLocked until) d
      → Keeps (IsLocked until) (challenge_unless b now random (is_locked_out now d.session.sysop) d)
  challenge-IsLocked d l =
      subst (λ r. Keeps (IsLocked until) (challenge_unless b now random r d))
        (sym (still_locked d l)) (say (text_line (lockout_text d.session.sysop)) d l)

  cmd_sysop-IsLocked :
      (arg : Bytes) (d : Desk S)
      → Keeps (IsLocked until) d
      → Keeps (IsLocked until) (cmd_sysop b now random arg d)
  unfolding cmd_sysop
  cmd_sysop-IsLocked arg d l =
      choose (length b.cfg.sysop_secret == 0) (send_line b (codes "*** SYSOP not configured") d) _
        (say _ d l)
        (choose (equal_bytes (map to_upper (trim_space arg)) (codes "NEW"))
          (renew_challenge b now random (is_awaiting_response d.session.sysop) d)
          (challenge_unless b now random (is_locked_out now d.session.sysop) d) (renew-IsLocked d l)
          (challenge-IsLocked d l))

  config-IsLocked :
      (d : Desk S)
      → Keeps (IsLocked until) d
      → Keeps (IsLocked until) (config_unless b now random (is_locked_out now d.session.sysop) d)
  config-IsLocked d l =
      subst (λ r. Keeps (IsLocked until) (config_unless b now random r d)) (sym (still_locked d l))
        (say (text_line b.cfg.prompt) _ (say (text_line (lockout_text d.session.sysop)) d l))

  cmd_config-IsLocked :
      (d : Desk S) → Keeps (IsLocked until) d → Keeps (IsLocked until) (cmd_config b now random d)
  unfolding cmd_config
  cmd_config-IsLocked d l =
      choose (not (length b.cfg.sysop_secret == 0) && not d.session.is_sysop)
        (config_unless b now random (is_locked_out now d.session.sysop) d) (enter_config_mode b d)
        (config-IsLocked d l)
        (enter_config_mode-Keeps (IsLocked until) (mode-IsLocked until) (pending-IsLocked until) b d
          l)

  renew_or_prompt-IsLocked :
      (d : Desk S)
      → Keeps (IsLocked until) d
      → Keeps
          (IsLocked until)
          (renew_or_prompt b now random (is_awaiting_response d.session.sysop) d)
  renew_or_prompt-IsLocked d l =
      subst (λ w. Keeps (IsLocked until) (renew_or_prompt b now random w d))
        (sym (not_awaiting d.session.sysop l.kept.locked))
        (say (text_line b.cfg.prompt) (no_challenge b d) (say _ d l))

  submitted-IsLocked :
      (line : Bytes) (d : Desk S)
      → Keeps (IsLocked until) d
      → Keeps (IsLocked until) (submitted b (submit_response now line d.session.sysop) d)
  submitted-IsLocked line d l =
      let back = set_config_entry false (set_mode command_mode d) in
      let here : Keeps (IsLocked until) back = record {
        kept = record {
          locked = l.kept.locked;
          ends_at = l.kept.ends_at;
          no_sysop = l.kept.no_sysop;
        };
      } in
      subst (λ r. Keeps (IsLocked until) (submitted b r d))
        (sym (submit_response-locked now line d.session.sysop l.kept.locked))
        (say (text_line b.cfg.prompt) (no_challenge b back) (say _ back here))

  response-IsLocked :
      (text : Bytes) (d : Desk S)
      → Keeps (IsLocked until) d
      → Keeps (IsLocked until) (process_sysop_response b now random text d)
  unfolding process_sysop_response
  response-IsLocked text d l =
      choose (equal_fold (trim_space text) (codes "SYSOP NEW"))
        (renew_or_prompt b now random (is_awaiting_response d.session.sysop) d)
        (submitted b (submit_response now (trim_space text) d.session.sysop) d)
        (renew_or_prompt-IsLocked d l) (submitted-IsLocked (trim_space text) d l)

  expire-same : (d : Desk S) → Keeps (IsLocked until) d → sysop_expire_if_idle b now d ≡ d
  unfolding sysop_expire_if_idle
  expire-same d l =
      ap (λ r. expired b r d) (expire_if_idle-locked now d.session.sysop l.kept.locked)

  note-same : (d : Desk S) → Keeps (IsLocked until) d → note_desk_activity now d ≡ d
  note-same d l = ap (λ s. set_sysop s d) (note_activity-locked now d.session.sysop l.kept.locked)

  expiry-IsLocked :
      (d : Desk S)
      → Keeps (IsLocked until) d
      → Keeps (IsLocked until) (note_desk_activity now (sysop_expire_if_idle b now d))
  expiry-IsLocked d l =
      subst (Keeps (IsLocked until))
        (sym (ap (note_desk_activity now) (expire-same d l) ∙ note-same d l)) l

  line-IsLocked :
      (line : Bytes) (d : Desk S)
      → Keeps (IsLocked until) d
      → Keeps (IsLocked until) (process_line b now random line d)
  line-IsLocked line d l =
      process_line-Keeps (IsLocked until) (mode-IsLocked until) (pending-IsLocked until) b now
        random cmd_sysop-IsLocked cmd_config-IsLocked expiry-IsLocked response-IsLocked line d l

  set_line-IsLocked :
      (buf : Bytes) (cr : Bool) (d : Desk S)
      → Keeps (IsLocked until) d
      → Keeps (IsLocked until) (set_line buf cr d)
  set_line-IsLocked buf cr d l = record {
    kept = record { locked = l.kept.locked; ends_at = l.kept.ends_at; no_sysop = l.kept.no_sysop };
  }

  char-IsLocked :
      (c : ℕ) (d : Desk S)
      → Keeps (IsLocked until) d
      → Keeps (IsLocked until) (take_char b now random c d)
  unfolding take_char
  char-IsLocked c d l =
      let line = d.session.line_buf in
      let again = set_line line false d in
      choose (c == 13) (process_line b now random line (set_line [] true d)) _
        (line-IsLocked line (set_line [] true d) (set_line-IsLocked [] true d l))
        (choose (c == 10)
          (if d.session.last_was_cr
            then again
            else process_line b now random line (set_line [] false d))
          (set_line (line ++ c ∷ []) false d)
          (choose d.session.last_was_cr again (process_line b now random line (set_line [] false d))
            (set_line-IsLocked line false d l)
            (line-IsLocked line (set_line [] false d) (set_line-IsLocked [] false d l)))
          (set_line-IsLocked (line ++ c ∷ []) false d l))

-- A station that is locked out and is not the operator stays so, whatever bytes it sends while the
-- lockout lasts.
pub take_chars-IsLocked :
    {S : Type 0} (until : ℕ) (b : BbsEnv S) (now : ℕ) (draws : ℕ → List ℕ) (payload : Bytes)
    (d : Desk S)
    → now ≤ until
    → IsLocked until d.session
    → IsLocked until (take_chars b now draws payload d).session
unfolding take_chars
take_chars-IsLocked until b now draws [] d early l = l
take_chars-IsLocked until b now draws (c ∷ cs) d early l =
    take_chars-IsLocked until b now (λ n. draws (n + 1)) cs (take_char b now (draws 0) c d) early
      (char-IsLocked until b now (draws 0) early c d (record { kept = l })).kept
