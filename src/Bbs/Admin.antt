-- ===== src/Bbs/Admin.antt =====
-- cmd/bbs/bbs/sysop.go and commands.go: the operator's login and the mode that shows the configuration.
use go_ax.Base.{
  Bool, Bytes, List, Option, [], false, if◌then◌else◌, length, map, none, not, some, true, ℕ, ◌&&◌,
  ◌++◌, ◌==◌, ◌∷◌,
}
use go_ax.Bbs.{
  BbsConfig, BbsEnv, Desk, SysopState, command_mode, config_mode, send_line, send_prompt, send_text,
  set_mode, set_sysop, sysop_mode,
}
use go_ax.Address.{equal_bytes, to_upper}
use go_ax.Agwpe.Responses.{int_text}
use go_ax.Base.Texts.{codes}
use go_ax.Bbs.Sysop.{
  VerifyResult, expire_if_idle, is_awaiting_response, is_locked_out, issue_challenge,
  lockout_minutes, note_activity, submit_response, verify_expired, verify_failed, verify_locked_out,
  verify_no_active, verify_success,
}
use go_ax.Bbs.Text.{command_parts, to_lower, trim_space}
use go_ax.Heard.{equal_fold}

-- `configValues`
abbrev pub config_values : BbsConfig → List (Bytes × Bytes)
config_values c =
    (codes "bbs.callsign", c.callsign)
    ∷ (codes "bbs.greeting", c.greeting)
    ∷ (codes "bbs.prompt", c.prompt)
    ∷ (codes "bbs.sysop_name", c.sysop_name)
    ∷ (codes "bbs.version", c.version)
    ∷ (codes "bbs.max_messages", int_text c.max_messages)
    ∷ (codes "bbs.max_body_len", int_text c.max_body_len)
    ∷ (codes "bbs.sysop_challenge_timeout_s", int_text c.sysop_challenge_timeout)
    ∷ (codes "bbs.sysop_session_timeout_s", int_text c.sysop_session_timeout)
    ∷ (codes "bbs.sysop_lockout_s", int_text c.sysop_lockout)
    ∷ (codes "bbs.sysop_max_attempts", int_text c.sysop_max_attempts)
    ∷ (codes "bbs.db_path", c.db_path)
    ∷ (codes "bbs.host", c.agwpe_host)
    ∷ (codes "bbs.port", int_text c.agwpe_port)
    ∷ []

unfoldable pub value_of : Bytes → List (Bytes × Bytes) → Option Bytes
value_of key [] = none
value_of key (e ∷ es) =
    let later = value_of key es in if equal_bytes e.0 key then some e.1 else later

abbrev pub value_text : Bytes → Option Bytes → Bytes
value_text key none = codes "*** Unknown key: " ++ key
value_text key (some v) = key ++ b'=' ∷ v

abbrev pub lockout_text : SysopState → Bytes
lockout_text s =
    codes "*** SYSOP locked out for " ++ int_text (lockout_minutes s) ++ codes " minutes"

abbrev pub attempts_text : SysopState → Bytes
attempts_text s =
    codes "*** SYSOP auth failed ("
    ++ int_text s.failed_attempts
    ++ b'/' ∷ (int_text s.max_attempts ++ b')' ∷ [])

module _ {S : Type 0} where
  abbrev pub challenge_sent : BbsEnv S → Option Bytes → Desk S → Desk S
  challenge_sent b none d = send_line b (codes "*** SYSOP challenge unavailable") d
  challenge_sent b (some text) d = send_text b text (set_mode sysop_mode d)

  -- `issueSysopChallenge`
  unfoldable pub issue_sysop_challenge : BbsEnv S → ℕ → List ℕ → Desk S → Desk S
  issue_sysop_challenge b now random d =
      let r = issue_challenge now random d.session.sysop in challenge_sent b r.1 (set_sysop r.0 d)

  abbrev pub no_challenge : BbsEnv S → Desk S → Desk S
  no_challenge b d = send_line b (codes "*** No active SYSOP challenge") d

  -- A new challenge in place of one that waits for its response.
  abbrev pub renew_challenge : BbsEnv S → ℕ → List ℕ → Bool → Desk S → Desk S
  renew_challenge b now random true d = issue_sysop_challenge b now random d
  renew_challenge b now random false d = no_challenge b d

  -- A challenge, unless the station is locked out.
  abbrev pub challenge_unless : BbsEnv S → ℕ → List ℕ → Bool × SysopState → Desk S → Desk S
  challenge_unless b now random (true, s) d = send_line b (lockout_text s) (set_sysop s d)
  challenge_unless b now random (false, s) d = issue_sysop_challenge b now random (set_sysop s d)

  -- `cmdSysop`
  unfoldable pub cmd_sysop : BbsEnv S → ℕ → List ℕ → Bytes → Desk S → Desk S
  cmd_sysop b now random arg d =
      if length b.cfg.sysop_secret == 0
      then send_line b (codes "*** SYSOP not configured") d
      else if equal_bytes (map to_upper (trim_space arg)) (codes "NEW")
      then renew_challenge b now random (is_awaiting_response d.session.sysop) d
      else challenge_unless b now random (is_locked_out now d.session.sysop) d

  abbrev pub set_is_sysop : Bool → Desk S → Desk S
  set_is_sysop on d = record d { session = record (d.session) { is_sysop = on } }

  abbrev pub set_config_entry : Bool → Desk S → Desk S
  set_config_entry on d = record d { session = record (d.session) { pending_config_entry = on } }

  -- `sendConfigPrompt` and `enterConfigMode`.
  abbrev pub send_config_prompt : BbsEnv S → Desk S → Desk S
  send_config_prompt b d = send_line b (codes "CONFIG READY>") d

  abbrev pub enter_config_mode : BbsEnv S → Desk S → Desk S
  enter_config_mode b d =
      send_config_prompt b (send_line b (codes "*** Entering config mode") (set_mode config_mode d))

  -- The switch of `processSysopResponse`. The wish for the configuration is tested behind the line
  -- that has forgotten it.
  abbrev pub answered : BbsEnv S → VerifyResult → Desk S → Desk S
  answered b verify_success d =
      let told = send_line b (codes "*** SYSOP authenticated") (set_is_sysop true d) in
      if told.session.pending_config_entry
      then enter_config_mode b (set_config_entry false told)
      else send_prompt b told
  answered b verify_locked_out d =
      send_prompt b (send_line b (lockout_text d.session.sysop) (set_is_sysop false d))
  answered b verify_expired d =
      send_prompt b (send_line b (codes "*** SYSOP challenge expired") (set_is_sysop false d))
  answered b verify_no_active d = send_prompt b (no_challenge b d)
  answered b verify_failed d = send_prompt b (send_line b (attempts_text d.session.sysop) d)

  abbrev pub submitted : BbsEnv S → VerifyResult × SysopState → Desk S → Desk S
  submitted b r d =
      answered b r.0 (set_config_entry false (set_mode command_mode (set_sysop r.1 d)))

  abbrev pub renew_or_prompt : BbsEnv S → ℕ → List ℕ → Bool → Desk S → Desk S
  renew_or_prompt b now random true d = issue_sysop_challenge b now random d
  renew_or_prompt b now random false d = send_prompt b (no_challenge b d)

  -- `processSysopResponse`
  unfoldable pub process_sysop_response : BbsEnv S → ℕ → List ℕ → Bytes → Desk S → Desk S
  process_sysop_response b now random text d =
      let line = trim_space text in
      if equal_fold line (codes "SYSOP NEW")
      then renew_or_prompt b now random (is_awaiting_response d.session.sysop) d
      else submitted b (submit_response now line d.session.sysop) d

  abbrev pub expired : BbsEnv S → Bool × SysopState → Desk S → Desk S
  expired b (true, s) d =
      send_line b (codes "*** SYSOP session expired") (set_is_sysop false (set_sysop s d))
  expired b (false, s) d = set_sysop s d

  -- `sysopExpireIfIdle`, and the note of activity behind it in `processCommand`.
  unfoldable pub sysop_expire_if_idle : BbsEnv S → ℕ → Desk S → Desk S
  sysop_expire_if_idle b now d = expired b (expire_if_idle now d.session.sysop) d

  abbrev pub note_desk_activity : ℕ → Desk S → Desk S
  note_desk_activity now d = set_sysop (note_activity now d.session.sysop) d

  abbrev pub config_unless : BbsEnv S → ℕ → List ℕ → Bool × SysopState → Desk S → Desk S
  config_unless b now random (true, s) d =
      send_prompt b (send_line b (lockout_text s) (set_sysop s d))
  config_unless b now random (false, s) d =
      issue_sysop_challenge b now random (set_config_entry true (set_sysop s d))

  -- `cmdConfig`
  unfoldable pub cmd_config : BbsEnv S → ℕ → List ℕ → Desk S → Desk S
  cmd_config b now random d =
      if not (length b.cfg.sysop_secret == 0) && not d.session.is_sysop
      then config_unless b now random (is_locked_out now d.session.sysop) d
      else enter_config_mode b d

  -- `processConfigCommand`
  unfoldable pub process_config_command : BbsEnv S → Bytes → Desk S → Desk S
  process_config_command b text d =
      let line = trim_space text in
      let parts = command_parts line in
      let cmd = map to_lower parts.0 in
      if length line == 0
      then send_config_prompt b d
      else if equal_bytes cmd (codes "get")
      then send_config_prompt b
          (send_line b (value_text parts.1 (value_of parts.1 (config_values b.cfg))) d)
      else if equal_bytes cmd (codes "exit")
      then send_prompt b (send_line b (codes "*** Exiting config mode") (set_mode command_mode d))
      else send_config_prompt b (send_line b (codes "*** Unknown config command") d)
