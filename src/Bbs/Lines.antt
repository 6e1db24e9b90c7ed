-- ===== src/Bbs/Lines.antt =====
-- cmd/bbs/bbs/bbs.go and session.go: the lines of a station and what they ask for.
use go_ax.Base.{
  Bool, Bytes, List, [], false, if◌then◌else◌, length, map, true, ℕ, ◌++◌, ◌+◌, ◌==◌, ◌||◌, ◌∷◌,
}
use go_ax.Bbs.{
  BbsEnv, Desk, InputMode, body_mode, command_mode, config_mode, send_disconnect, send_line,
  send_prompt, send_text, subject_mode, sysop_mode,
}
use go_ax.Address.{equal_bytes, to_upper}
use go_ax.Base.Texts.{codes}
use go_ax.Bbs.Admin.{
  cmd_config, cmd_sysop, note_desk_activity, process_config_command, process_sysop_response,
  sysop_expire_if_idle,
}
use go_ax.Bbs.Reading.{cmd_heard, cmd_info, cmd_kill, cmd_list, cmd_list_last, cmd_read, help_text}
use go_ax.Bbs.Text.{command_parts, trim_space}
use go_ax.Bbs.Writing.{cmd_send, flag_bulletin, flag_private, process_body, process_subject}

module _ {S : Type 0} where
  -- `cmdBye`
  abbrev pub cmd_bye : BbsEnv S → Desk S → Desk S
  cmd_bye b d = send_disconnect b (send_line b (codes "*** Goodbye") d)

  -- The switch of `processCommand`, with the prompt behind it where there is one.
  unfoldable pub run_command : BbsEnv S → ℕ → List ℕ → Bytes → Bytes → Desk S → Desk S
  run_command b now random cmd arg d =
      if equal_bytes cmd (codes "H") || equal_bytes cmd (codes "?")
      then send_prompt b (send_text b help_text d)
      else if equal_bytes cmd (codes "I")
      then send_prompt b (cmd_info b d)
      else if equal_bytes cmd (codes "J")
      then send_prompt b (cmd_heard b now d)
      else if equal_bytes cmd (codes "L")
      then send_prompt b (cmd_list b 0 false d)
      else if equal_bytes cmd (codes "LL")
      then send_prompt b (cmd_list_last b arg d)
      else if equal_bytes cmd (codes "LM")
      then send_prompt b (cmd_list b 0 true d)
      else if equal_bytes cmd (codes "R")
      then send_prompt b (cmd_read b arg d)
      else if equal_bytes cmd (codes "S")
      then send_prompt b (cmd_send b arg 0 d)
      else if equal_bytes cmd (codes "SP")
      then send_prompt b (cmd_send b arg flag_private d)
      else if equal_bytes cmd (codes "SB")
      then send_prompt b (cmd_send b arg flag_bulletin d)
      else if equal_bytes cmd (codes "K")
      then send_prompt b (cmd_kill b arg d)
      else if equal_bytes cmd (codes "SYSOP")
      then send_prompt b (cmd_sysop b now random arg d)
      else if equal_bytes cmd (codes "CONFIG")
      then cmd_config b now random d
      else if equal_bytes cmd (codes "B")
      then cmd_bye b d
      else send_prompt b (send_line b (codes "*** Unknown command. Type H for help.") d)

  -- `processCommand`
  unfoldable pub process_command : BbsEnv S → ℕ → List ℕ → Bytes → Desk S → Desk S
  process_command b now random text d =
      let line = trim_space text in
      let parts = command_parts line in
      if length line == 0
      then send_prompt b d
      else run_command b now random (map to_upper parts.0) parts.1
          (note_desk_activity now (sysop_expire_if_idle b now d))

  abbrev pub line_in : InputMode → BbsEnv S → ℕ → List ℕ → Bytes → Desk S → Desk S
  line_in command_mode b now random line d = process_command b now random line d
  line_in subject_mode b now random line d = process_subject b line d
  line_in body_mode b now random line d = process_body b line d
  line_in sysop_mode b now random line d = process_sysop_response b now random line d
  line_in config_mode b now random line d = process_config_command b line d

  -- `processLine`
  unfoldable pub process_line : BbsEnv S → ℕ → List ℕ → Bytes → Desk S → Desk S
  process_line b now random line d = line_in d.session.input_mode b now random line d

  abbrev pub set_line : Bytes → Bool → Desk S → Desk S
  set_line buf cr d = record d { session = record (d.session) { line_buf = buf; last_was_cr = cr } }

  -- A byte in the loop of `OnData`. A line feed behind a carriage return is passed over.
  unfoldable pub take_char : BbsEnv S → ℕ → List ℕ → ℕ → Desk S → Desk S
  take_char b now random c d =
      let line = d.session.line_buf in
      if c == 13
      then process_line b now random line (set_line [] true d)
      else if c == 10
      then (if d.session.last_was_cr
          then set_line line false d
          else process_line b now random line (set_line [] false d))
      else set_line (line ++ c ∷ []) false d

  -- The loop of `OnData`; every byte has its own draws of `crypto/rand`.
  unfoldable pub take_chars : BbsEnv S → ℕ → (ℕ → List ℕ) → Bytes → Desk S → Desk S
  take_chars b now draws [] d = d
  take_chars b now draws (c ∷ cs) d =
      take_chars b now (λ n. draws (n + 1)) cs (take_char b now (draws 0) c d)
