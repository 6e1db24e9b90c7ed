-- ===== src/Bbs.antt =====
-- cmd/bbs: a bulletin board over connected-mode sessions. The state of a session and of the board, the
-- interface of the message store, and what is sent to the station.
--
-- The store is cmd/bbs/store/store.go, an interface, whose operations are a parameter here: the one
-- behind it in cmd/bbs/store/sqlite.go is a database. What is sent is a trace of the messages that are
-- given to `SendFrame` of the client, whose error is only logged. Times and durations are nanoseconds,
-- and a line is handled at one instant.
mod Tests
pub mod Text
pub mod Sysop
pub mod Reading
pub mod Writing
pub mod Admin
pub mod Lines
pub mod Board
pub mod Kept
pub mod Access
pub mod Locked
pub mod Granted
use go_ax.Base.{Bool, Bytes, List, Option, [], if◌then◌else◌, ℕ, ◌++◌, ◌∷◌}
use go_ax.Agwpe.{AgwFrame}
use go_ax.Agwpe.Requests.{build_disconnect_req, build_send_data}
use go_ax.Heard.{Heard}

pub data InputMode : Type 0 where
  command_mode subject_mode body_mode sysop_mode config_mode : InputMode

pub data SysopMode : Type 0 where
  sysop_idle awaiting_response authenticated locked_out : SysopMode

-- `SysopState`. `indices` are the positions asked for by the last challenge, counted from 1.
pub record SysopState : Type 0 where
  pub mode : SysopMode
  pub secret : Bytes
  pub indices : List ℕ
  pub challenge_expires : ℕ
  pub last_activity : ℕ
  pub lockout_until : ℕ
  pub failed_attempts : ℕ
  pub challenge_timeout : ℕ
  pub session_timeout : ℕ
  pub lockout_duration : ℕ
  pub max_attempts : ℕ

-- The values of the type int stand for what is 0 or more; timeouts are seconds here.
pub record BbsConfig : Type 0 where
  pub callsign : Bytes
  pub greeting : Bytes
  pub prompt : Bytes
  pub sysop_name : Bytes
  pub version : Bytes
  pub max_messages : ℕ
  pub max_body_len : ℕ
  pub sysop_secret : Bytes
  pub sysop_challenge_timeout : ℕ
  pub sysop_session_timeout : ℕ
  pub sysop_lockout : ℕ
  pub sysop_max_attempts : ℕ
  pub db_path : Bytes
  pub agwpe_host : Bytes
  pub agwpe_port : ℕ

pub record MessageIndex : Type 0 where
  pub id : ℕ
  pub from : Bytes
  pub to : Bytes
  pub subject : Bytes
  pub flags : ℕ

pub record Message : Type 0 where
  pub index : MessageIndex
  pub body : Bytes

-- `MessageStore`. A failure is `none` or `false`; `find` fails, finds nothing, or finds a message.
pub record MessageStore (S : Type 0) : Type 0 where
  pub put : Bytes → Bytes → Bytes → Bytes → ℕ → S → S × Option ℕ
  pub read : ℕ → S → Option Message
  pub delete : ℕ → S → S × Bool
  pub find : ℕ → S → Option (Option MessageIndex)
  pub list : ℕ → Bool → Bytes → Bool → S → Option (List MessageIndex)
  pub last_read : Bytes → S → ℕ
  pub set_last_read : Bytes → ℕ → S → S

-- `Session` of session.go.
pub record BbsSession : Type 0 where
  pub remote_call : Bytes
  pub base_call : Bytes
  pub local_call : Bytes
  pub port : ℕ
  pub input_mode : InputMode
  pub is_sysop : Bool
  pub pending_to : Bytes
  pub pending_subject : Bytes
  pub pending_body : Bytes
  pub pending_flags : ℕ
  pub line_buf : Bytes
  pub last_was_cr : Bool
  pub sysop : SysopState
  pub pending_config_entry : Bool

-- What the handlers of a session have of the session manager.
pub record BbsEnv (S : Type 0) : Type 0 where
  pub cfg : BbsConfig
  pub ms : MessageStore S
  pub heard : List Heard
  pub has_client : Bool

-- What the handlers of a session change.
pub record Desk (S : Type 0) : Type 0 where
  pub session : BbsSession
  pub store : S
  pub sent : List AgwFrame

-- A text and a carriage return.
abbrev pub text_line : Bytes → Bytes
text_line s = s ++ 13 ∷ []

module _ {S : Type 0} where
  -- `sendText` and `sendBytes`.
  abbrev pub send_text : BbsEnv S → Bytes → Desk S → Desk S
  send_text b text d =
      if b.has_client
      then record d {
        sent =
            d.sent
            ++ build_send_data d.session.port d.session.local_call d.session.remote_call 0xF0 text
              ∷ [];
      }
      else d

  abbrev pub send_line : BbsEnv S → Bytes → Desk S → Desk S
  send_line b text d = send_text b (text_line text) d

  -- `sendDisconnect`
  abbrev pub send_disconnect : BbsEnv S → Desk S → Desk S
  send_disconnect b d =
      if b.has_client
      then record d {
        sent =
            d.sent
            ++ build_disconnect_req d.session.port d.session.local_call d.session.remote_call ∷ [];
      }
      else d

  -- `sendPrompt`
  abbrev pub send_prompt : BbsEnv S → Desk S → Desk S
  send_prompt b d = send_line b b.cfg.prompt d

  abbrev pub set_mode : InputMode → Desk S → Desk S
  set_mode m d = record d { session = record (d.session) { input_mode = m } }

  abbrev pub set_sysop : SysopState → Desk S → Desk S
  set_sysop s d = record d { session = record (d.session) { sysop = s } }
