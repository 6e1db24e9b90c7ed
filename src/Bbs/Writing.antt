-- ===== src/Bbs/Writing.antt =====
-- cmd/bbs/bbs/commands.go: composing a message.
use go_ax.Base.{
  Bytes, Option, [], if◌then◌else◌, length, ltb, map, none, some, take, ℕ, ◌++◌, ◌+◌, ◌==◌,
}
use go_ax.Bbs.{
  BbsEnv, Desk, body_mode, command_mode, send_line, send_prompt, set_mode, subject_mode, text_line,
}
use go_ax.Address.{to_upper}
use go_ax.Agwpe.Responses.{int_text}
use go_ax.Base.Texts.{codes}
use go_ax.Bbs.Text.{base_callsign, is_valid_callsign, trim_space}
use go_ax.Heard.{equal_fold}

-- The flags `FlagPrivate` and `FlagBulletin`; 0 asks for the one that fits the addressee.
abbrev pub flag_private : ℕ
flag_private = 1

abbrev pub flag_bulletin : ℕ
flag_bulletin = 2

abbrev pub stored_text : Option ℕ → Bytes
stored_text none = codes "*** Store failed"
stored_text (some id) = codes "*** Stored as message " ++ int_text id

module _ {S : Type 0} where
  abbrev pub compose_to : BbsEnv S → Bytes → ℕ → Desk S → Desk S
  compose_to b to forced d =
      let auto = if is_valid_callsign to then flag_private else flag_bulletin in
      send_line b (codes "Subject: ") (record d {
        session = record (d.session) {
          pending_to = base_callsign to;
          pending_flags = if forced == 0 then auto else forced;
          pending_body = [];
          pending_subject = [];
          input_mode = subject_mode;
        };
      })

  -- `cmdSend`
  unfoldable pub cmd_send : BbsEnv S → Bytes → ℕ → Desk S → Desk S
  cmd_send b arg forced d =
      let to = trim_space arg in
      if length to == 0
      then send_line b (codes "*** Usage: S <callsign or topic>") d
      else compose_to b (map to_upper to) forced d

  -- `processSubject`
  unfoldable pub process_subject : BbsEnv S → Bytes → Desk S → Desk S
  process_subject b line d =
      let subject = trim_space line in
      if length subject == 0
      then send_prompt b (set_mode command_mode (send_line b (codes "*** Aborted") d))
      else send_line b (codes "Enter body, use /EX to finish:") (record d {
        session = record (d.session) {
          pending_subject = if ltb 48 (length subject) then take 48 subject else subject;
          input_mode = body_mode;
        };
      })

  -- `finishPost`
  unfoldable pub finish_post : BbsEnv S → Desk S → Desk S
  finish_post b d =
      let s = d.session in
      let r =
        b.ms.put s.base_call s.pending_to s.pending_subject s.pending_body s.pending_flags
          d.store in
      let told = send_line b (stored_text r.1) (record d { store = r.0 }) in
      send_prompt b (record told {
        session = record (told.session) {
          input_mode = command_mode;
          pending_body = [];
          pending_subject = [];
          pending_to = [];
          pending_flags = 0;
        };
      })

  -- `processBody`
  unfoldable pub process_body : BbsEnv S → Bytes → Desk S → Desk S
  process_body b line d =
      if equal_fold (trim_space line) (codes "/EX")
      then finish_post b d
      else if ltb b.cfg.max_body_len (length d.session.pending_body + (length line + 1))
      then finish_post b (send_line b (codes "*** Message too large, truncated. Sending now.") d)
      else record d {
        session = record (d.session) { pending_body = d.session.pending_body ++ text_line line };
      }
