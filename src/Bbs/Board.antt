-- ===== src/Bbs/Board.antt =====
-- cmd/bbs/bbs/session.go and cmd/bbs/main.go: the session manager, and the messages of the client.
use go_ax.Base.{
  Bool, Bytes, List, Option, [], false, if◌then◌else◌, length, none, not, some, ℕ, ◌&&◌, ◌++◌, ◌==◌,
  ◌||◌, ◌∷◌,
}
use go_ax.Bbs.{
  BbsConfig, BbsEnv, BbsSession, Desk, command_mode, send_disconnect, send_line, send_prompt,
  send_text,
}
use go_ax.Agwpe.{AgwFrame}
use go_ax.Address.{equal_bytes}
use go_ax.Bbs.Lines.{take_chars}
use go_ax.Bbs.Reading.{banner_summary}
use go_ax.Bbs.Sysop.{new_sysop_state}
use go_ax.Bbs.Text.{base_callsign}
use go_ax.Heard.{HeardList, add_heard}

-- `SessionManager`, with the store and the trace of what was sent; `sessions` is keyed by the two
-- callsigns with a colon between them.
pub record Board (S : Type 0) : Type 0 where
  pub sessions : List (Bytes × BbsSession)
  pub store : S
  pub sent : List AgwFrame

-- `sessionKey`
abbrev pub session_key : Bytes → Bytes → Bytes
session_key remote local = remote ++ b':' ∷ local

unfoldable pub session_at : Bytes → List (Bytes × BbsSession) → Option BbsSession
session_at key [] = none
session_at key (e ∷ es) =
    let later = session_at key es in if equal_bytes e.0 key then some e.1 else later

-- `delete` of a key, and what a session that is changed makes of the table.
unfoldable pub without_session : Bytes → List (Bytes × BbsSession) → List (Bytes × BbsSession)
without_session key [] = []
without_session key (e ∷ es) =
    let rest = without_session key es in if equal_bytes e.0 key then rest else e ∷ rest

unfoldable pub with_session_at :
    Bytes → BbsSession → List (Bytes × BbsSession) → List (Bytes × BbsSession)
with_session_at key s [] = []
with_session_at key s (e ∷ es) =
    let rest = with_session_at key s es in if equal_bytes e.0 key then (e.0, s) ∷ rest else e ∷ rest

-- The session that `OnConnect` makes.
abbrev pub new_session : BbsConfig → Bytes → Bytes → ℕ → BbsSession
new_session c remote local port = record {
  remote_call = remote;
  base_call = base_callsign remote;
  local_call = local;
  port = port;
  input_mode = command_mode;
  is_sysop = false;
  pending_to = [];
  pending_subject = [];
  pending_body = [];
  pending_flags = 0;
  line_buf = [];
  last_was_cr = false;
  sysop =
      new_sysop_state c.sysop_secret c.sysop_challenge_timeout c.sysop_session_timeout
        c.sysop_lockout c.sysop_max_attempts;
  pending_config_entry = false;
}

module _ {S : Type 0} where
  -- `NewSessionManager` and `SetAGWPEClient`; the flag says whether the client is there.
  abbrev pub new_board : S → Board S
  new_board store = record { sessions = []; store = store; sent = [] }

  abbrev pub set_agwpe_client : Bool → BbsEnv S → BbsEnv S
  set_agwpe_client here b = record b { has_client = here }

  abbrev pub desk_of : BbsSession → Board S → Desk S
  desk_of s m = record { session = s; store = m.store; sent = m.sent }

  abbrev pub greeted : BbsEnv S → Desk S → Desk S
  greeted b d =
      let hello = send_line b b.cfg.greeting d in
      send_prompt b (send_text b (banner_summary b hello.session hello.store) hello)

  -- `OnConnect`; a session that is there is left alone.
  unfoldable pub board_connect : BbsEnv S → Bytes → Bytes → ℕ → Board S → Board S
  board_connect b remote local port m =
      let key = session_key remote local in
      let d = greeted b (desk_of (new_session b.cfg remote local port) m) in
      elim (session_at key m.sessions) [
        | some s ↦ m
        | none ↦ record { sessions = (key, d.session) ∷ m.sessions; store = d.store; sent = d.sent }
      ]

  -- `OnData`
  unfoldable pub board_data :
      BbsEnv S → ℕ → (ℕ → List ℕ) → Bytes → Bytes → Bytes → Board S → Board S
  board_data b now draws remote local payload m =
      let key = session_key remote local in
      elim (session_at key m.sessions) [
        | none ↦ m
        | some s ↦
            let d = take_chars b now draws payload (desk_of s m) in
            record {
              sessions = with_session_at key d.session m.sessions;
              store = d.store;
              sent = d.sent;
            }
      ]

  -- `OnDisconnect`
  unfoldable pub board_disconnect : Bytes → Bytes → Board S → Board S
  board_disconnect remote local m = record m {
    sessions = without_session (session_key remote local) m.sessions;
  }

  -- `DisconnectAll`
  unfoldable pub disconnect_each : BbsEnv S → List (Bytes × BbsSession) → Board S → Board S
  disconnect_each b [] m = m
  disconnect_each b (e ∷ es) m =
      disconnect_each b es (record m { sent = (send_disconnect b (desk_of e.1 m)).sent })

  unfoldable pub disconnect_all : BbsEnv S → Board S → Board S
  disconnect_all b m = disconnect_each b m.sessions (record m { sessions = [] })

  -- `handleAGWPEFrame`; the heard list stands beside the board.
  unfoldable pub handle_agwpe_frame :
      BbsEnv S → ℕ → (ℕ → List ℕ) → Option AgwFrame → Board S → HeardList → Board S × HeardList
  handle_agwpe_frame b now draws none m l = (m, l)
  handle_agwpe_frame b now draws (some f) m l =
      if f.kind == b'C'
      then (board_connect (record b { heard = l.entries }) f.call_from f.call_to f.port m, l)
      else if f.kind == b'D'
      then (
        board_data (record b { heard = l.entries }) now draws f.call_from f.call_to f.payload m,
        l,
      )
      else if f.kind == b'd'
      then (board_disconnect f.call_from f.call_to m, l)
      else if f.kind == b'U' || f.kind == b'I' || f.kind == b'S'
      then (if not (length f.call_from == 0) && not (equal_bytes f.call_from b.cfg.callsign)
          then (m, add_heard now f.call_from l)
          else (m, l))
      else (m, l)
