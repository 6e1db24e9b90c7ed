-- ===== src/Bbs/Access/Run.antt =====
-- cmd/bbs/bbs/bbs.go: what a whole line does to the message store.
use Prim.Native.String.{String}
use mathlib.Core.Path.{subst}
use go_ax.Bbs.{
  BbsEnv, BbsSession, Desk, InputMode, SysopState, body_mode, command_mode, config_mode, send_line,
  send_prompt, send_text, set_sysop, subject_mode, sysop_mode, text_line,
}
use go_ax.Base.{
  Bool, Bytes, List, ap, false, if◌then◌else◌, length, ltb, map, refl, sym, true, ℕ, ◌+◌, ◌==◌,
  ◌||◌, ◌∙◌, ◌≡◌,
}
use go_ax.Address.{equal_bytes, to_upper}
use go_ax.Base.Texts.{codes}
use go_ax.Bbs.Access.{
  Access, Leaves, SameBut, Weaker, kill_number-Leaves, posts, read_number-Leaves, sent_same,
  untouched,
}
use go_ax.Bbs.Access.Line.{
  cmd_bye-Leaves, cmd_config-Leaves, cmd_list-Leaves, cmd_send-Leaves, cmd_sysop-Leaves,
  config_command-Leaves, either, process_subject-Leaves, response-Leaves, told, contradiction,
}
use go_ax.Bbs.Admin.{
  cmd_config, cmd_sysop, expired, note_desk_activity, set_is_sysop, sysop_expire_if_idle,
}
use go_ax.Bbs.Lines.{cmd_bye, line_in, process_command, process_line, run_command}
use go_ax.Bbs.Reading.{cmd_heard, cmd_info, cmd_kill, cmd_list, cmd_list_last, cmd_read, help_text}
use go_ax.Bbs.Sysop.{expire_if_idle}
use go_ax.Bbs.Text.{command_parts, parse_uint, positive_int, trim_space}
use go_ax.Bbs.Writing.{cmd_send, finish_post, flag_bulletin, flag_private, process_body}
use go_ax.Heard.{equal_fold}

-- The store is the same, and the session no more than before.
record Expires {S : Type 0} (d e : Desk S) : Type 0 where
  same_store : e.store ≡ d.store
  weaker : Weaker e.session d.session

module _ {S : Type 0} (b : BbsEnv S) (now : ℕ) (random : List ℕ) where
  expired-Expires : (r : Bool × SysopState) (d : Desk S) → Expires d (expired b r d)
  expired-Expires (true, t) d =
      let k =
        sent_same b (text_line (codes "*** SYSOP session expired"))
          (set_is_sysop false (set_sysop t d)) in
      record {
        same_store = k.store_same;
        weaker = record {
          same_call = ap (λ u. u.base_call) k.session_same;
          no_more = λ h. contradiction (sym h ∙ ap (λ u. u.is_sysop) k.session_same);
        };
      }
  expired-Expires (false, t) d = record {
    same_store = refl;
    weaker = record { same_call = refl; no_more = λ h. h };
  }

  expiry-Expires : (d : Desk S) → Expires d (note_desk_activity now (sysop_expire_if_idle b now d))
  unfolding sysop_expire_if_idle
  expiry-Expires d =
      let e = expired-Expires (expire_if_idle now d.session.sysop) d in
      record {
        same_store = e.same_store;
        weaker = record { same_call = e.weaker.same_call; no_more = e.weaker.no_more };
      }

  read-Leaves :
      (s : BbsSession) (arg : Bytes) (d : Desk S)
      → Weaker d.session s
      → Leaves b s d.store (cmd_read b arg d)
  unfolding cmd_read
  read-Leaves s arg d w = read_number-Leaves b s (parse_uint 4294967295 (trim_space arg)) d w

  kill-Leaves :
      (s : BbsSession) (arg : Bytes) (d : Desk S)
      → Weaker d.session s
      → Leaves b s d.store (cmd_kill b arg d)
  unfolding cmd_kill
  kill-Leaves s arg d w = kill_number-Leaves b s (parse_uint 4294967295 (trim_space arg)) d w

  run_command-Leaves :
      (s : BbsSession) (cmd arg : Bytes) (d : Desk S)
      → Weaker d.session s
      → Leaves b s d.store (run_command b now random cmd arg d)
  unfolding run_command
  run_command-Leaves s cmd arg d w =
      let is : String → Bool = λ name. equal_bytes cmd (codes name) in
      let x = d.store in
      let l : Leaves b s x d = record { left = untouched } in
      let asked : (e : Desk S) → Leaves b s x e → Leaves b s x (send_prompt b e) =
        λ e k. told b now random s x (text_line b.cfg.prompt) e k in
      let also : (c : Bool) (e g : Desk S)
          → Leaves b s x e
          → Leaves b s x g
          → Leaves b s x (if c then e else g) =
        λ c e g k m. either b now random s x c e g k m in
      also (is "H" || is "?") (send_prompt b (send_text b help_text d)) _
        (asked (send_text b help_text d) (told b now random s x help_text d l))
        (also (is "I") (send_prompt b (cmd_info b d)) _
          (asked (cmd_info b d) (told b now random s x _ d l))
          (also (is "J") (send_prompt b (cmd_heard b now d)) _
            (asked (cmd_heard b now d) (told b now random s x _ d l))
            (also (is "L") (send_prompt b (cmd_list b 0 false d)) _
              (asked (cmd_list b 0 false d) (cmd_list-Leaves b now random s x 0 false d l))
              (also (is "LL") (send_prompt b (cmd_list_last b arg d)) _
                (asked (cmd_list_last b arg d)
                  (cmd_list-Leaves b now random s x (positive_int 10 arg) false d l))
                (also (is "LM") (send_prompt b (cmd_list b 0 true d)) _
                  (asked (cmd_list b 0 true d) (cmd_list-Leaves b now random s x 0 true d l))
                  (also (is "R") (send_prompt b (cmd_read b arg d)) _
                    (asked (cmd_read b arg d) (read-Leaves s arg d w))
                    (also (is "S") (send_prompt b (cmd_send b arg 0 d)) _
                      (asked (cmd_send b arg 0 d) (cmd_send-Leaves b now random s x arg 0 d l))
                      (also (is "SP") (send_prompt b (cmd_send b arg flag_private d)) _
                        (asked (cmd_send b arg flag_private d)
                          (cmd_send-Leaves b now random s x arg flag_private d l))
                        (also (is "SB") (send_prompt b (cmd_send b arg flag_bulletin d)) _
                          (asked (cmd_send b arg flag_bulletin d)
                            (cmd_send-Leaves b now random s x arg flag_bulletin d l))
                          (also (is "K") (send_prompt b (cmd_kill b arg d)) _
                            (asked (cmd_kill b arg d) (kill-Leaves s arg d w))
                            (also (is "SYSOP") (send_prompt b (cmd_sysop b now random arg d)) _
                              (asked (cmd_sysop b now random arg d)
                                (cmd_sysop-Leaves b now random s x arg d l))
                              (also (is "CONFIG") (cmd_config b now random d) _
                                (cmd_config-Leaves b now random s x d l)
                                (also (is "B") (cmd_bye b d) _ (cmd_bye-Leaves b now random s x d l)
                                  (asked
                                    (send_line b (codes "*** Unknown command. Type H for help.") d)
                                    (told b now random s x _ d l)))))))))))))))

  process_command-Leaves :
      (text : Bytes) (d : Desk S) → Leaves b d.session d.store (process_command b now random text d)
  unfolding process_command
  process_command-Leaves text d =
      let s = d.session in
      let parts = command_parts (trim_space text) in
      let ready = note_desk_activity now (sysop_expire_if_idle b now d) in
      let e = expiry-Expires d in
      either b now random s d.store (length (trim_space text) == 0) (send_prompt b d)
        (run_command b now random (map to_upper parts.0) parts.1 ready)
        (told b now random s d.store _ d (record { left = untouched }))
        (subst (λ y. Leaves b s y (run_command b now random (map to_upper parts.0) parts.1 ready))
          e.same_store (run_command-Leaves s (map to_upper parts.0) parts.1 ready e.weaker))

  finish_post-Leaves :
      (d e : Desk S)
      → d.session.input_mode ≡ body_mode
      → SameBut b d e
      → Leaves b d.session d.store (finish_post b e)
  unfolding finish_post
  finish_post-Leaves d e h k =
      let post : BbsSession → S → S = λ t y.
        (b.ms.put t.base_call t.pending_to t.pending_subject t.pending_body t.pending_flags y).0 in
      let posted : post d.session d.store ≡ post e.session e.store =
        ap (λ t. post t d.store) (sym k.session_same) ∙ ap (post e.session) (sym k.store_same) in
      told b now random d.session d.store _ _ (record {
        left =
            (told b now random d.session d.store _ (record e { store = post e.session e.store })
              (record { left = subst (Access b d.session d.store) posted (posts h) })).left;
      })

  process_body-Leaves :
      (line : Bytes) (d : Desk S)
      → d.session.input_mode ≡ body_mode
      → Leaves b d.session d.store (process_body b line d)
  unfolding process_body
  process_body-Leaves line d h =
      let here : SameBut b d d = record { session_same = refl; store_same = refl } in
      either b now random d.session d.store (equal_fold (trim_space line) (codes "/EX"))
        (finish_post b d) _ (finish_post-Leaves d d h here)
        (either b now random d.session d.store
          (ltb b.cfg.max_body_len (length d.session.pending_body + (length line + 1))) _ _
          (finish_post-Leaves d _ h (sent_same b _ d)) (record { left = untouched }))

  line_in-Leaves :
      (m : InputMode) (line : Bytes) (d : Desk S)
      → d.session.input_mode ≡ m
      → Leaves b d.session d.store (line_in m b now random line d)
  line_in-Leaves command_mode line d h = process_command-Leaves line d
  line_in-Leaves subject_mode line d h =
      process_subject-Leaves b now random d.session d.store line d (record { left = untouched })
  line_in-Leaves body_mode line d h = process_body-Leaves line d h
  line_in-Leaves sysop_mode line d h =
      response-Leaves b now random d.session d.store line d (record { left = untouched })
  line_in-Leaves config_mode line d h =
      config_command-Leaves b now random d.session d.store line d (record { left = untouched })

-- A line leaves the message store as it is, or changes it in one of these ways: it posts the message
-- that its session has composed, under the session's callsign; it deletes a message that the session may
-- kill, as the operator, its sender or its addressee; or it sets the session's own mark of the last
-- message read, for a message that the session may read.
pub process_line-Access :
    {S : Type 0} (b : BbsEnv S) (now : ℕ) (random : List ℕ) (line : Bytes) (d : Desk S)
    → Access b d.session d.store (process_line b now random line d).store
unfolding process_line
process_line-Access b now random line d =
    (line_in-Leaves b now random d.session.input_mode line d refl).left
