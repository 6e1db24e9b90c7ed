-- ===== src/Bbs/Tests.antt =====
-- A board over a small store, at concrete inputs.
use Prim.Native.String.{String}
use go_ax.Bbs.Locked.State.{IsLocked}
use go_ax.Bbs.{
  BbsConfig, BbsEnv, Desk, Message, MessageIndex, MessageStore, awaiting_response, locked_out,
  sysop_mode, text_line,
}
use go_ax.Bbs.Sysop.{
  all_used, char_at, draw_indices, expire_if_idle, has_index, is_locked_out, issue_challenge,
  number_words, required, submit_response, use_char, verify_response,
}
use go_ax.Base.{
  Bytes, List, Option, [], arith, if◌then◌else◌, length, map, none, refl, some, true, ℕ, ◌++◌, ◌+◌,
  ◌==◌, ◌↔◌, ◌∷◌, ◌≡◌,
}
use go_ax.Base.Texts.{codes}
use go_ax.Bbs.Board.{new_session}
use go_ax.Bbs.Lines.{process_command, process_line, run_command, take_char, take_chars}
use go_ax.Address.{equal_bytes, to_upper}
use go_ax.Bbs.Admin.{cmd_sysop, issue_sysop_challenge, process_sysop_response, sysop_expire_if_idle}
use go_ax.Bbs.Granted.{Grant, process_line-Grant}
use go_ax.Bbs.Locked.{take_chars-IsLocked}
use go_ax.Bbs.Reading.{cmd_kill}
use go_ax.Bbs.Text.{
  before_dash, cut_space, is_valid_callsign, letters, number_from, parse_uint, to_lower,
}
use go_ax.Bbs.Writing.{cmd_send, finish_post, process_body, process_subject}
use go_ax.Beacon.{trim_end, trim_start}
use go_ax.Bbs.Access.{Access}
use go_ax.Bbs.Access.Run.{process_line-Access}
use go_ax.Bbs.Granted.Right.{Covers, verify_response_lem}

-- A store that keeps its messages in a list, the newest first.
abbrev Shelf : Type 0
Shelf = List Message

abbrev message_at : ℕ → Shelf → Option Message
message_at id [] = none
message_at id (m ∷ ms) = let later = message_at id ms in if m.index.id == id then some m else later

abbrev shelf_without : ℕ → Shelf → Shelf
shelf_without id [] = []
shelf_without id (m ∷ ms) =
    let rest = shelf_without id ms in if m.index.id == id then rest else m ∷ rest

abbrev found_index : Option Message → Option (Option MessageIndex)
found_index none = some none
found_index (some m) = some (some m.index)

abbrev shelf_store : MessageStore Shelf
shelf_store = record {
  put = λ from to subject text flags ms.
      let id = length ms + 1 in
      (
        record {
          index = record { id = id; from = from; to = to; subject = subject; flags = flags };
          body = text;
        }
            ∷ ms,
        some id,
      );
  read = λ id ms. message_at id ms;
  delete = λ id ms. (shelf_without id ms, true);
  find = λ id ms. found_index (message_at id ms);
  list = λ limit mine who is_op ms. some (map (λ m. m.index) ms);
  last_read = λ who ms. 0;
  set_last_read = λ who id ms. ms;
}

abbrev board_config : BbsConfig
board_config = record {
  callsign = codes "N7GET-1";
  greeting = codes "Welcome";
  prompt = codes ">";
  sysop_name = codes "Bob";
  version = codes "1.0";
  max_messages = 100;
  max_body_len = 20;
  sysop_secret = codes "ABCDEFGH";
  sysop_challenge_timeout = 60;
  sysop_session_timeout = 600;
  sysop_lockout = 900;
  sysop_max_attempts = 1;
  db_path = codes "bbs.db";
  agwpe_host = codes "localhost";
  agwpe_port = 8000;
}

abbrev shelf_env : BbsEnv Shelf
shelf_env = record { cfg = board_config; ms = shelf_store; heard = []; has_client = true }

abbrev desk : Desk Shelf
desk = record {
  session = new_session board_config (codes "W1AW-2") (codes "N7GET-1") 0;
  store = [];
  sent = [];
}

abbrev sends : List ℕ → String → Desk Shelf → Desk Shelf
sends random text d = take_chars shelf_env 5 (λ n. random) (codes text ++ 13 ∷ []) d

-- A session that waits for the characters A, B, C and D.
abbrev challenged_desk : Desk Shelf
challenged_desk = sends (0 ∷ 1 ∷ 2 ∷ 3 ∷ 9 ∷ []) "SYSOP" desk

-- A wrong response locks the station out, and the right one, with two characters more, makes it the
-- operator.
login_runs :
    (challenged_desk.session.sysop.indices ≡ 1 ∷ 2 ∷ 3 ∷ 4 ∷ [])
    × ((sends [] "XDCBAX" challenged_desk).session.is_sysop ≡ true)
    × ((sends [] "ABCD" challenged_desk).session.sysop.mode ≡ locked_out)
unfolding take_chars take_char process_line process_command run_command cmd_sysop
    issue_sysop_challenge issue_challenge draw_indices has_index process_sysop_response
    submit_response verify_response required char_at use_char all_used number_words is_locked_out
    expire_if_idle sysop_expire_if_idle cut_space equal_bytes to_upper to_lower before_dash
    is_valid_callsign letters number_from trim_end trim_start cmd_send process_subject process_body
    finish_post cmd_kill parse_uint
login_runs = (refl, refl, refl)

-- A message that is posted, and killed by its sender.
abbrev posted_desk : Desk Shelf
posted_desk = sends [] "/EX" (sends [] "Hello" (sends [] "News" (sends [] "S ALL" desk)))

post_runs :
    (map (λ m. m.body) posted_desk.store ≡ text_line (codes "Hello") ∷ [])
    × ((sends [] "K 1" posted_desk).store ≡ [])
unfolding take_chars take_char process_line process_command run_command cmd_sysop
    issue_sysop_challenge issue_challenge draw_indices has_index process_sysop_response
    submit_response verify_response required char_at use_char all_used number_words is_locked_out
    expire_if_idle sysop_expire_if_idle cut_space equal_bytes to_upper to_lower before_dash
    is_valid_callsign letters number_from trim_end trim_start cmd_send process_subject process_body
    finish_post cmd_kill parse_uint
post_runs = (refl, refl)

-- A session that is locked out up to time 900.
abbrev locked_desk : Desk Shelf
locked_desk = record desk {
  session = record (desk.session) {
    sysop = record (desk.session.sysop) {
      mode = locked_out;
      lockout_until = 900;
      failed_attempts = 1;
    };
  };
}

take_chars-IsLocked_example : IsLocked 900 (sends [] "SYSOP" locked_desk).session
take_chars-IsLocked_example =
    take_chars-IsLocked 900 shelf_env 5 (λ n. []) (codes "SYSOP" ++ 13 ∷ []) locked_desk
      (omega arith) (record { locked = refl; ends_at = refl; no_sysop = refl })

-- A session whose challenge asks for the first four characters.
abbrev asked_desk : Desk Shelf
asked_desk = record desk {
  session = record (desk.session) {
    input_mode = sysop_mode;
    sysop = record (desk.session.sysop) {
      mode = awaiting_response;
      indices = 1 ∷ 2 ∷ 3 ∷ 4 ∷ [];
      challenge_expires = 60;
    };
  };
}

right_response : (process_line shelf_env 5 [] (codes "XDCBAX") asked_desk).session.is_sysop ≡ true
unfolding take_chars take_char process_line process_command run_command cmd_sysop
    issue_sysop_challenge issue_challenge draw_indices has_index process_sysop_response
    submit_response verify_response required char_at use_char all_used number_words is_locked_out
    expire_if_idle sysop_expire_if_idle cut_space equal_bytes to_upper to_lower before_dash
    is_valid_callsign letters number_from trim_end trim_start cmd_send process_subject process_body
    finish_post cmd_kill parse_uint
right_response = refl

process_line-Grant_example : Grant 5 (codes "XDCBAX") asked_desk.session
process_line-Grant_example =
    process_line-Grant shelf_env 5 [] (codes "XDCBAX") asked_desk right_response

process_line-Access_example :
    Access shelf_env posted_desk.session posted_desk.store
      (process_line shelf_env 5 [] (codes "K 1") posted_desk).store
process_line-Access_example = process_line-Access shelf_env 5 [] (codes "K 1") posted_desk

verify_response_lem_example : (verify_response (codes "XDCBAX") asked_desk.session.sysop ≡ true) ↔ (
    (length (codes "XDCBAX") ≡ 6)
    × (cs : Bytes) × (required asked_desk.session.sysop.secret asked_desk.session.sysop.indices
        ≡ some cs)
    × Covers cs (codes "XDCBAX"))
verify_response_lem_example = verify_response_lem (codes "XDCBAX") asked_desk.session.sysop
