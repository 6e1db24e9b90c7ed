-- ===== src/Bbs/Kept/Line.antt =====
-- cmd/bbs/bbs/bbs.go: what a line keeps of a session, if the operator's handlers keep it.
use Prim.Native.String.{String}
use go_ax.Base.{Bool, Bytes, List, false, if◌then◌else◌, length, map, true, ℕ, ◌==◌, ◌||◌}
use go_ax.Bbs.{
  BbsEnv, BbsSession, Desk, InputMode, body_mode, command_mode, config_mode, send_line, send_prompt,
  send_text, subject_mode, sysop_mode, text_line,
}
use go_ax.Bbs.Kept.{
  Keeps, cmd_send-Keeps, either-Keeps, kill_number-Keeps, process_body-Keeps,
  process_config_command-Keeps, process_subject-Keeps, read_number-Keeps, send_disconnect-Keeps,
  send_text-Keeps,
}
use go_ax.Address.{equal_bytes, to_upper}
use go_ax.Bbs.Admin.{
  cmd_config, cmd_sysop, note_desk_activity, process_sysop_response, sysop_expire_if_idle,
}
use go_ax.Bbs.Lines.{cmd_bye, line_in, process_command, process_line, run_command}
use go_ax.Bbs.Reading.{cmd_heard, cmd_info, cmd_kill, cmd_list, cmd_list_last, cmd_read, help_text}
use go_ax.Bbs.Text.{command_parts, parse_uint, positive_int, trim_space}
use go_ax.Base.Texts.{codes}
use go_ax.Bbs.Writing.{cmd_send, flag_bulletin, flag_private}

module _ {S : Type 0} (Q : BbsSession → Type 0)
    (mode_keeps : (m : InputMode) (s : BbsSession) → Q s → Q (record s { input_mode = m }))
    (pending_keeps : (to subject text : Bytes) (flags : ℕ) (m : InputMode) (s : BbsSession)
      → Q s
      → Q (record s {
        input_mode = m;
        pending_to = to;
        pending_subject = subject;
        pending_body = text;
        pending_flags = flags;
      }))
    (b : BbsEnv S) (now : ℕ) (random : List ℕ)
    (sysop_keeps : (arg : Bytes) (d : Desk S) → Keeps Q d → Keeps Q (cmd_sysop b now random arg d))
    (config_keeps : (d : Desk S) → Keeps Q d → Keeps Q (cmd_config b now random d))
    (expiry_keeps : (d : Desk S)
      → Keeps Q d
      → Keeps Q (note_desk_activity now (sysop_expire_if_idle b now d))) where
  said : (text : Bytes) (d : Desk S) → Keeps Q d → Keeps Q (send_text b text d)
  said text d l = send_text-Keeps Q mode_keeps pending_keeps b text d l

  one_of : (c : Bool) (x y : Desk S) → Keeps Q x → Keeps Q y → Keeps Q (if c then x else y)
  one_of c x y l k = either-Keeps Q mode_keeps pending_keeps c x y l k

  prompted : (d : Desk S) → Keeps Q d → Keeps Q (send_prompt b d)
  prompted d l = said _ d l

  listed-Keeps :
      (limit : ℕ) (mine : Bool) (d : Desk S) → Keeps Q d → Keeps Q (cmd_list b limit mine d)
  unfolding cmd_list
  listed-Keeps limit mine d l = said _ d l

  read-Keeps : (arg : Bytes) (d : Desk S) → Keeps Q d → Keeps Q (cmd_read b arg d)
  unfolding cmd_read
  read-Keeps arg d l =
      read_number-Keeps Q mode_keeps pending_keeps b (parse_uint 4294967295 (trim_space arg)) d l

  kill-Keeps : (arg : Bytes) (d : Desk S) → Keeps Q d → Keeps Q (cmd_kill b arg d)
  unfolding cmd_kill
  kill-Keeps arg d l =
      kill_number-Keeps Q mode_keeps pending_keeps b (parse_uint 4294967295 (trim_space arg)) d l

  run_command-Keeps :
      (cmd arg : Bytes) (d : Desk S) → Keeps Q d → Keeps Q (run_command b now random cmd arg d)
  unfolding run_command
  run_command-Keeps cmd arg d l =
      let is : String → Bool = λ w. equal_bytes cmd (codes w) in
      one_of (is "H" || is "?") (send_prompt b (send_text b help_text d)) _
        (prompted (send_text b help_text d) (said help_text d l))
        (one_of (is "I") (send_prompt b (cmd_info b d)) _ (prompted (cmd_info b d) (said _ d l)) (
          one_of (is "J") (send_prompt b (cmd_heard b now d)) _
            (prompted (cmd_heard b now d) (said _ d l))
            (one_of (is "L") (send_prompt b (cmd_list b 0 false d)) _
              (prompted (cmd_list b 0 false d) (listed-Keeps 0 false d l))
              (one_of (is "LL") (send_prompt b (cmd_list_last b arg d)) _
                (prompted (cmd_list_last b arg d) (listed-Keeps (positive_int 10 arg) false d l))
                (one_of (is "LM") (send_prompt b (cmd_list b 0 true d)) _
                  (prompted (cmd_list b 0 true d) (listed-Keeps 0 true d l))
                  (one_of (is "R") (send_prompt b (cmd_read b arg d)) _
                    (prompted (cmd_read b arg d) (read-Keeps arg d l))
                    (one_of (is "S") (send_prompt b (cmd_send b arg 0 d)) _
                      (prompted (cmd_send b arg 0 d)
                        (cmd_send-Keeps Q mode_keeps pending_keeps b arg 0 d l))
                      (one_of (is "SP") (send_prompt b (cmd_send b arg flag_private d)) _
                        (prompted (cmd_send b arg flag_private d)
                          (cmd_send-Keeps Q mode_keeps pending_keeps b arg flag_private d l))
                        (one_of (is "SB") (send_prompt b (cmd_send b arg flag_bulletin d)) _
                          (prompted (cmd_send b arg flag_bulletin d)
                            (cmd_send-Keeps Q mode_keeps pending_keeps b arg flag_bulletin d l))
                          (one_of (is "K") (send_prompt b (cmd_kill b arg d)) _
                            (prompted (cmd_kill b arg d) (kill-Keeps arg d l))
                            (one_of (is "SYSOP") (send_prompt b (cmd_sysop b now random arg d)) _
                              (prompted (cmd_sysop b now random arg d) (sysop_keeps arg d l))
                              (one_of (is "CONFIG") (cmd_config b now random d) _ (config_keeps d l)
                                (one_of (is "B") (cmd_bye b d) _
                                  (send_disconnect-Keeps Q mode_keeps pending_keeps b _
                                    (said (text_line (codes "*** Goodbye")) d l))
                                  (prompted
                                    (send_line b (codes "*** Unknown command. Type H for help.") d)
                                    (said _ d l)))))))))))))))

  pub process_command-Keeps :
      (text : Bytes) (d : Desk S) → Keeps Q d → Keeps Q (process_command b now random text d)
  unfolding process_command
  process_command-Keeps text d l =
      let parts = command_parts (trim_space text) in
      let ready = note_desk_activity now (sysop_expire_if_idle b now d) in
      one_of (length (trim_space text) == 0) (send_prompt b d)
        (run_command b now random (map to_upper parts.0) parts.1 ready) (said _ d l)
        (run_command-Keeps (map to_upper parts.0) parts.1 ready (expiry_keeps d l))

module _ {S : Type 0} (Q : BbsSession → Type 0)
    (mode_keeps : (m : InputMode) (s : BbsSession) → Q s → Q (record s { input_mode = m }))
    (pending_keeps : (to subject text : Bytes) (flags : ℕ) (m : InputMode) (s : BbsSession)
      → Q s
      → Q (record s {
        input_mode = m;
        pending_to = to;
        pending_subject = subject;
        pending_body = text;
        pending_flags = flags;
      }))
    (b : BbsEnv S) (now : ℕ) (random : List ℕ)
    (sysop_keeps : (arg : Bytes) (d : Desk S) → Keeps Q d → Keeps Q (cmd_sysop b now random arg d))
    (config_keeps : (d : Desk S) → Keeps Q d → Keeps Q (cmd_config b now random d))
    (expiry_keeps : (d : Desk S)
      → Keeps Q d
      → Keeps Q (note_desk_activity now (sysop_expire_if_idle b now d)))
    (response_keeps : (text : Bytes) (d : Desk S)
      → Keeps Q d
      → Keeps Q (process_sysop_response b now random text d)) where
  line_in-Keeps :
      (m : InputMode) (line : Bytes) (d : Desk S)
      → Keeps Q d
      → Keeps Q (line_in m b now random line d)
  line_in-Keeps command_mode line d l =
      process_command-Keeps Q mode_keeps pending_keeps b now random sysop_keeps config_keeps
        expiry_keeps line d l
  line_in-Keeps subject_mode line d l = process_subject-Keeps Q mode_keeps pending_keeps b line d l
  line_in-Keeps body_mode line d l = process_body-Keeps Q mode_keeps pending_keeps b line d l
  line_in-Keeps sysop_mode line d l = response_keeps line d l
  line_in-Keeps config_mode line d l =
      process_config_command-Keeps Q mode_keeps pending_keeps b line d l

  -- A line, in whatever mode.
  pub process_line-Keeps :
      (line : Bytes) (d : Desk S) → Keeps Q d → Keeps Q (process_line b now random line d)
  unfolding process_line
  process_line-Keeps line d l = line_in-Keeps d.session.input_mode line d l
