-- ===== src/Bbs/Reading.antt =====
-- cmd/bbs/bbs/commands.go: the commands that read the board: the banner, the help, the heard list, the
-- lists of messages, and a message.
use go_ax.Base.{
  Bool, Bytes, List, Option, [], false, if◌then◌else◌, length, ltb, none, not, some, true, ℕ, ◌%◌,
  ◌&&◌, ◌++◌, ◌+◌, ◌-◌, ◌/◌, ◌==◌, ◌||◌, ◌∷◌,
}
use go_ax.Bbs.{BbsEnv, BbsSession, Desk, Message, MessageIndex, send_line, send_text, text_line}
use go_ax.Address.{equal_bytes}
use go_ax.Agwpe.Monitor.{two_digits}
use go_ax.Agwpe.Responses.{int_text}
use go_ax.Base.Texts.{codes}
use go_ax.Bbs.Text.{pad_left, pad_right, parse_uint, positive_int, trim_space}
use go_ax.Heard.{Heard}
use go_ax.Router.Lifecycle.{call}

abbrev pub has_private : ℕ → Bool
has_private flags = flags % 2 == 1

abbrev pub has_bulletin : ℕ → Bool
has_bulletin flags = flags / 2 % 2 == 1

-- `isReadableForUser`
abbrev pub is_readable_for_user : BbsSession → MessageIndex → Bool
is_readable_for_user s m =
    if has_bulletin m.flags
    then true
    else if s.is_sysop
    then true
    else if has_private m.flags
    then equal_bytes m.to s.base_call || equal_bytes m.from s.base_call
    else false

unfoldable pub count_new : ℕ → List MessageIndex → ℕ
count_new last [] = 0
count_new last (m ∷ ms) = (if ltb last m.id then 1 else 0) + count_new last ms

abbrev pub summary_text : Bytes → ℕ → Option (List MessageIndex) → Bytes
summary_text call last none = codes "*** No messages for " ++ call
summary_text call last (some []) = codes "*** No messages for " ++ call
summary_text call last (some (m ∷ ms)) =
    codes "*** You have "
    ++ int_text (length (m ∷ ms))
    ++ codes " messages ("
    ++ int_text (count_new last (m ∷ ms))
    ++ codes " new)"

-- The text of `cmdHelp`.
abbrev pub help_text : Bytes
help_text =
    text_line (codes "Commands:")
    ++ text_line (codes "  B           Disconnect")
    ++ text_line (codes "  H           Show this help text")
    ++ text_line (codes "  I           Show BBS station information")
    ++ text_line (codes "  J           Show heard list")
    ++ text_line (codes "  K <n>       Delete message n")
    ++ text_line (codes "  L           List readable messages")
    ++ text_line (codes "  LL [n]      List newest n readable messages")
    ++ text_line (codes "  LM          List only my sent/received messages")
    ++ text_line (codes "  R <n>       Read message n")
    ++ text_line (codes "  S <to>      Send message (auto private/bulletin)")
    ++ text_line (codes "  SB <topic>  Send bulletin message")
    ++ text_line (codes "  SP <call>   Send private message")
    ++ text_line (codes "  SYSOP       Start SYSOP challenge login")
    ++ text_line (codes "  SYSOP NEW   Refresh active SYSOP challenge")

abbrev pub hour_ns : ℕ
hour_ns = 3_600_000_000_000

-- A line of `cmdHeard`. The hours and minutes, which the source takes as floating-point numbers, are
-- whole here.
abbrev pub heard_line : ℕ → Heard → Bytes
heard_line now e =
    let elapsed = now - e.time in
    text_line (
      codes "  "
      ++ pad_right 10 e.callsign
      ++ b' '
        ∷ (int_text (elapsed / hour_ns / 24)
            ++ codes "d "
            ++ two_digits (elapsed / hour_ns % 24)
            ++ b':' ∷ (two_digits (elapsed / 60_000_000_000 % 60) ++ codes " ago")))

unfoldable pub heard_lines : ℕ → List Heard → Bytes
heard_lines now [] = []
heard_lines now (e ∷ es) = heard_line now e ++ heard_lines now es

abbrev pub heard_text : ℕ → List Heard → Bytes
heard_text now [] = text_line (codes "*** No stations heard")
heard_text now (e ∷ es) = text_line (codes "Heard:") ++ heard_lines now (e ∷ es)

-- A line of `cmdList`.
abbrev pub list_line : MessageIndex → Bytes
list_line m = text_line (
    pad_left 4 (int_text m.id)
    ++ b' '
      ∷ (pad_right 15 m.from
          ++ b' '
            ∷ (pad_right 15 m.to
                ++ b' '
                  ∷ (if has_private m.flags then b'P' else b'-')
                  ∷ (if has_bulletin m.flags then b'B' else b'-')
                  ∷ (codes "    " ++ m.subject))))

unfoldable pub list_lines : Bool → BbsSession → List MessageIndex → Bytes
list_lines mine s [] = []
list_lines mine s (m ∷ ms) =
    let rest = list_lines mine s ms in
    if not mine && not (is_readable_for_user s m) then rest else list_line m ++ rest

abbrev pub list_text : Bool → BbsSession → Option (List MessageIndex) → Bytes
list_text mine s none = text_line (codes "*** List failed")
list_text mine s (some []) =
    text_line (codes (if mine then "*** No messages for you" else "*** No readable messages"))
list_text mine s (some (m ∷ ms)) =
    text_line (codes "   # From            To              Flags Subject")
    ++ list_lines mine s (m ∷ ms)

abbrev pub separator : Bytes
separator = codes "----------------------------------------"

abbrev pub header_text : MessageIndex → Bytes
header_text i =
    codes "Msg "
    ++ int_text i.id
    ++ codes " From:"
    ++ i.from
    ++ codes " To:"
    ++ i.to
    ++ codes " Subj:"
    ++ i.subject

abbrev pub may_kill : BbsSession → MessageIndex → Bool
may_kill s m = s.is_sysop || equal_bytes m.from s.base_call || equal_bytes m.to s.base_call

module _ {S : Type 0} where
  -- `bannerSummary`
  abbrev pub banner_summary : BbsEnv S → BbsSession → S → Bytes
  banner_summary b s store = text_line (
      summary_text s.base_call (b.ms.last_read s.base_call store)
        (b.ms.list 0 false s.base_call s.is_sysop store))

  -- `cmdInfo`
  abbrev pub cmd_info : BbsEnv S → Desk S → Desk S
  cmd_info b d =
      send_text b
        (text_line (codes "Call:    " ++ b.cfg.callsign)
          ++ text_line (codes "Sysop:   " ++ b.cfg.sysop_name)
          ++ text_line (codes "Version: " ++ b.cfg.version))
        d

  -- `cmdHeard`
  abbrev pub cmd_heard : BbsEnv S → ℕ → Desk S → Desk S
  cmd_heard b now d = send_text b (heard_text now b.heard) d

  -- `cmdList`
  unfoldable pub cmd_list : BbsEnv S → ℕ → Bool → Desk S → Desk S
  cmd_list b limit mine d =
      let s = d.session in
      send_text b (list_text mine s (b.ms.list limit mine s.base_call s.is_sysop d.store)) d

  -- `cmdListLast`
  abbrev pub cmd_list_last : BbsEnv S → Bytes → Desk S → Desk S
  cmd_list_last b arg d = cmd_list b (positive_int 10 arg) false d

  abbrev pub note_read : BbsEnv S → ℕ → Desk S → Desk S
  note_read b id d =
      let call = d.session.base_call in
      if ltb (b.ms.last_read call d.store) id
      then record d { store = b.ms.set_last_read call id d.store }
      else d

  abbrev pub show_message : BbsEnv S → ℕ → Option Message → Desk S → Desk S
  show_message b id none d = send_line b (codes "*** Message not found") d
  show_message b id (some m) d =
      if not (is_readable_for_user d.session m.index)
      then send_line b (codes "*** Access denied") d
      else note_read b id (
          send_line b separator
            (send_text b m.body (send_line b separator (send_line b (header_text m.index) d))))

  abbrev pub read_number : BbsEnv S → Option ℕ → Desk S → Desk S
  read_number b none d = send_line b (codes "*** Usage: R <message number>") d
  read_number b (some id) d =
      if id == 0
      then send_line b (codes "*** Usage: R <message number>") d
      else show_message b id (b.ms.read id d.store) d

  -- `cmdRead`
  unfoldable pub cmd_read : BbsEnv S → Bytes → Desk S → Desk S
  cmd_read b arg d = read_number b (parse_uint 4294967295 (trim_space arg)) d

  abbrev pub deleted : BbsEnv S → Bool → Desk S → Desk S
  deleted b gone d =
      send_line b (codes (if gone then "*** Message deleted" else "*** Delete failed")) d

  abbrev pub kill_message : BbsEnv S → ℕ → Option (Option MessageIndex) → Desk S → Desk S
  kill_message b id (some (some m)) d =
      let r = b.ms.delete id d.store in
      if not (may_kill d.session m)
      then send_line b (codes "*** Kill denied") d
      else deleted b r.1 (record d { store = r.0 })
  kill_message b id _ d = send_line b (codes "*** Message not found") d

  abbrev pub kill_number : BbsEnv S → Option ℕ → Desk S → Desk S
  kill_number b none d = send_line b (codes "*** Usage: K <message number>") d
  kill_number b (some id) d =
      if id == 0
      then send_line b (codes "*** Usage: K <message number>") d
      else kill_message b id (b.ms.find id d.store) d

  -- `cmdKill`
  unfoldable pub cmd_kill : BbsEnv S → Bytes → Desk S → Desk S
  cmd_kill b arg d = kill_number b (parse_uint 4294967295 (trim_space arg)) d
