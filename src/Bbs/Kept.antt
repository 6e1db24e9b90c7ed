-- ===== src/Bbs/Kept.antt =====
-- cmd/bbs/bbs: what the handlers of a line keep of a session: what does not depend on the fields that
-- they change.
pub mod Line
use go_ax.Base.{
  Bool, Bool-cases, Bytes, Option, false, if◌then◌else◌, inl, inr, length, map, none, some, true, ℕ,
  ◌==◌,
}
use go_ax.Bbs.{
  BbsEnv, BbsSession, Desk, InputMode, Message, MessageIndex, command_mode, config_mode,
  send_disconnect, send_line, send_prompt, send_text, set_mode,
}
use go_ax.Bbs.Admin.{
  config_values, enter_config_mode, process_config_command, send_config_prompt, value_of,
  value_text,
}
use go_ax.Bbs.Reading.{kill_message, kill_number, note_read, read_number, show_message}
use go_ax.Bbs.Writing.{cmd_send, compose_to, finish_post, process_body, process_subject}
use go_ax.Address.{equal_bytes}
use go_ax.Base.Texts.{codes}
use go_ax.Bbs.Text.{command_parts, to_lower, trim_space}

-- The session of a desk has the property.
pub record Keeps {S : Type 0} (Q : BbsSession → Type 0) (d : Desk S) : Type 0 where
  pub kept : Q d.session

module _ {S : Type 0} (Q : BbsSession → Type 0)
    (mode_keeps : (m : InputMode) (s : BbsSession) → Q s → Q (record s { input_mode = m }))
    (pending_keeps : (to subject text : Bytes) (flags : ℕ) (m : InputMode) (s : BbsSession)
      → Q s
      → Q (record s {
        input_mode = m;
        pending_to = to;
        pending_subject = subject;
        pending_body = text;
        pending_flags = flags;
      })) where
  pub send_text-Keeps :
      (b : BbsEnv S) (text : Bytes) (d : Desk S) → Keeps Q d → Keeps Q (send_text b text d)
  send_text-Keeps b text d l = elim (Bool-cases b.has_client) [
    | inl on ↦ simp on (record { kept = l.kept })
    | inr off ↦ simp off l
  ]

  pub send_disconnect-Keeps :
      (b : BbsEnv S) (d : Desk S) → Keeps Q d → Keeps Q (send_disconnect b d)
  send_disconnect-Keeps b d l = elim (Bool-cases b.has_client) [
    | inl on ↦ simp on (record { kept = l.kept })
    | inr off ↦ simp off l
  ]

  -- One of two desks.
  pub either-Keeps :
      (c : Bool) (x y : Desk S) → Keeps Q x → Keeps Q y → Keeps Q (if c then x else y)
  either-Keeps true x y l k = l
  either-Keeps false x y l k = k

  note_read-Keeps : (b : BbsEnv S) (id : ℕ) (d : Desk S) → Keeps Q d → Keeps Q (note_read b id d)
  note_read-Keeps b id d l = either-Keeps _ _ d (record { kept = l.kept }) l

  show_message-Keeps :
      (b : BbsEnv S) (id : ℕ) (o : Option Message) (d : Desk S)
      → Keeps Q d
      → Keeps Q (show_message b id o d)
  show_message-Keeps b id none d l = send_text-Keeps b _ d l
  show_message-Keeps b id (some m) d l = either-Keeps _ _ _ (send_text-Keeps b _ d l) (
      note_read-Keeps b id _ (
        send_text-Keeps b _ _
          (send_text-Keeps b _ _ (send_text-Keeps b _ _ (send_text-Keeps b _ d l)))))

  pub read_number-Keeps :
      (b : BbsEnv S) (o : Option ℕ) (d : Desk S) → Keeps Q d → Keeps Q (read_number b o d)
  read_number-Keeps b none d l = send_text-Keeps b _ d l
  read_number-Keeps b (some id) d l =
      either-Keeps _ _ _ (send_text-Keeps b _ d l)
        (show_message-Keeps b id (b.ms.read id d.store) d l)

  kill_message-Keeps :
      (b : BbsEnv S) (id : ℕ) (o : Option (Option MessageIndex)) (d : Desk S)
      → Keeps Q d
      → Keeps Q (kill_message b id o d)
  kill_message-Keeps b id none d l = send_text-Keeps b _ d l
  kill_message-Keeps b id (some none) d l = send_text-Keeps b _ d l
  kill_message-Keeps b id (some (some m)) d l = either-Keeps _ _ _ (send_text-Keeps b _ d l) (
      send_text-Keeps b _ (record d { store = (b.ms.delete id d.store).0 })
        (record { kept = l.kept }))

  pub kill_number-Keeps :
      (b : BbsEnv S) (o : Option ℕ) (d : Desk S) → Keeps Q d → Keeps Q (kill_number b o d)
  kill_number-Keeps b none d l = send_text-Keeps b _ d l
  kill_number-Keeps b (some id) d l =
      either-Keeps _ _ _ (send_text-Keeps b _ d l)
        (kill_message-Keeps b id (b.ms.find id d.store) d l)

  compose_to-Keeps :
      (b : BbsEnv S) (to : Bytes) (forced : ℕ) (d : Desk S)
      → Keeps Q d
      → Keeps Q (compose_to b to forced d)
  compose_to-Keeps b to forced d l =
      send_text-Keeps b _ _ (record { kept = pending_keeps _ _ _ _ _ d.session l.kept })

  pub cmd_send-Keeps :
      (b : BbsEnv S) (arg : Bytes) (forced : ℕ) (d : Desk S)
      → Keeps Q d
      → Keeps Q (cmd_send b arg forced d)
  unfolding cmd_send
  cmd_send-Keeps b arg forced d l =
      either-Keeps _ _ _ (send_text-Keeps b _ d l) (compose_to-Keeps b _ forced d l)

  pub process_subject-Keeps :
      (b : BbsEnv S) (line : Bytes) (d : Desk S) → Keeps Q d → Keeps Q (process_subject b line d)
  unfolding process_subject
  process_subject-Keeps b line d l =
      either-Keeps _ _ _
        (send_text-Keeps b _ _
          (record { kept = mode_keeps command_mode _ (send_text-Keeps b _ d l).kept }))
        (send_text-Keeps b _ _ (record { kept = pending_keeps _ _ _ _ _ d.session l.kept }))

  finish_post-Keeps : (b : BbsEnv S) (d : Desk S) → Keeps Q d → Keeps Q (finish_post b d)
  unfolding finish_post
  finish_post-Keeps b d l = send_text-Keeps b _ _ (record {
    kept =
        pending_keeps _ _ _ _ _ _
          (send_text-Keeps b _ (record d { store = _ }) (record { kept = l.kept })).kept;
  })

  pub process_body-Keeps :
      (b : BbsEnv S) (line : Bytes) (d : Desk S) → Keeps Q d → Keeps Q (process_body b line d)
  unfolding process_body
  process_body-Keeps b line d l = either-Keeps _ _ _ (finish_post-Keeps b d l) (
      either-Keeps _ _ _ (finish_post-Keeps b _ (send_text-Keeps b _ d l))
        (record { kept = pending_keeps _ _ _ _ _ d.session l.kept }))

  pub enter_config_mode-Keeps :
      (b : BbsEnv S) (d : Desk S) → Keeps Q d → Keeps Q (enter_config_mode b d)
  enter_config_mode-Keeps b d l =
      send_text-Keeps b _ _
        (send_text-Keeps b _ _ (record { kept = mode_keeps config_mode d.session l.kept }))

  pub process_config_command-Keeps :
      (b : BbsEnv S) (line : Bytes) (d : Desk S)
      → Keeps Q d
      → Keeps Q (process_config_command b line d)
  unfolding process_config_command
  process_config_command-Keeps b text d l =
      let line = trim_space text in
      let parts = command_parts line in
      let cmd = map to_lower parts.0 in
      let told_value =
        send_line b (value_text parts.1 (value_of parts.1 (config_values b.cfg))) d in
      let wrong = send_line b (codes "*** Unknown config command") d in
      let out = send_line b (codes "*** Exiting config mode") (set_mode command_mode d) in
      either-Keeps (length line == 0) (send_config_prompt b d) _ (send_text-Keeps b _ d l) (
        either-Keeps (equal_bytes cmd (codes "get")) (send_config_prompt b told_value) _
          (send_text-Keeps b _ told_value (send_text-Keeps b _ d l))
          (either-Keeps (equal_bytes cmd (codes "exit")) (send_prompt b out)
            (send_config_prompt b wrong)
            (send_text-Keeps b _ out (
              send_text-Keeps b _ (set_mode command_mode d)
                (record { kept = mode_keeps command_mode d.session l.kept })))
            (send_text-Keeps b _ wrong (send_text-Keeps b _ d l))))
