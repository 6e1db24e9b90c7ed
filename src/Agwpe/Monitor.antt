-- ===== src/Agwpe/Monitor.antt =====
-- agwpe/builders.go: the messages that show a frame to a client that monitors the channel.
use go_ax.Base.{
  Bytes, Option, [], if◌then◌else◌, length, ltb, map, none, some, ℕ, ◌%◌, ◌++◌, ◌+◌, ◌/◌, ◌==◌, ◌∷◌,
}
use go_ax.Types.{
  Address, Frame, FrameType, ctrl_rej_mask, ctrl_rnr_mask, ctrl_rr_mask, frame_i, frame_ui,
}
use go_ax.Address.{string}
use go_ax.Agwpe.{AgwFrame, AgwResult, done, failed, nil_message}
use go_ax.Agwpe.Builders.{blank}
use go_ax.Agwpe.Responses.{int_text}
use go_ax.Base.Texts.{codes, hex_pair, join}
use go_ax.Frame.{control_name, extract_nr, extract_ns, has_pf}

abbrev starred : Address → Bytes
starred d = if d.has_been_repeated then string d ++ b'*' ∷ [] else string d

-- `FormatMonitorAddrs`
unfoldable pub format_monitor_addrs : ℕ → Frame → Bytes
format_monitor_addrs port f =
    let ends =
      b' '
      ∷ (int_text (port + 1)
          ++ codes ":Fm "
          ++ string f.source
          ++ codes " To "
          ++ string f.destination) in
    if ltb 0 (length f.digipeaters)
    then ends ++ codes " Via " ++ join (b',' ∷ []) (map starred f.digipeaters) ++ b' ' ∷ []
    else ends ++ b' ' ∷ []

-- `%s=%d>` of the poll bit, `P` in a command and `F` in a response.
abbrev poll_text : Frame → Bytes
poll_text f =
    (if f.is_command then b'P' else b'F')
    ∷ b'='
    ∷ (if has_pf f.control then b'1' else b'0')
    ∷ b'>'
    ∷ []

abbrev pid_text : Frame → Bytes
pid_text f =
    codes " pid=" ++ hex_pair f.pid ++ codes " Len=" ++ int_text (length f.payload) ++ b' ' ∷ []

abbrev numbered_text : Bytes → Frame → Bytes
numbered_text name f =
    b'<' ∷ (name ++ codes " R" ++ int_text (extract_nr f.control) ++ b' ' ∷ poll_text f)

-- The default case of the switch on the type.
abbrev supervisory_text : Frame → Bytes
supervisory_text f =
    if f.control % 16 == ctrl_rr_mask
    then numbered_text (codes "RR") f
    else if f.control % 16 == ctrl_rnr_mask
    then numbered_text (codes "RNR") f
    else if f.control % 16 == ctrl_rej_mask
    then numbered_text (codes "REJ") f
    else b'<' ∷ (codes (control_name f.control) ++ b' ' ∷ poll_text f)

abbrev monitor_text : FrameType → Frame → ℕ × Bytes
monitor_text frame_ui f = (b'U', codes "<UI" ++ pid_text f ++ poll_text f)
monitor_text frame_i f = (
  b'I',
  codes "<I S"
      ++ int_text (extract_ns f.control)
      ++ codes " R"
      ++ int_text (extract_nr f.control)
      ++ pid_text f
      ++ poll_text f,
)
monitor_text _ f = (b'S', supervisory_text f)

-- `FormatMonitorDesc`
unfoldable pub format_monitor_desc : Frame → ℕ × Bytes
format_monitor_desc f = monitor_text f.frame_type f

-- The hour, the minute and the second that `time.Now` tells.
pub record Clock : Type 0 where
  pub hour : ℕ
  pub minute : ℕ
  pub second : ℕ

-- `%02d` of a number below 100.
abbrev pub two_digits : ℕ → Bytes
two_digits n = (b'0' + n / 10) ∷ (b'0' + n % 10) ∷ []

abbrev stamp : Clock → Bytes
stamp t =
    b'['
    ∷ (two_digits t.hour
        ++ b':' ∷ (two_digits t.minute ++ b':' ∷ (two_digits t.second ++ b']' ∷ 13 ∷ [])))

-- `FromAX25Monitor`; a nil frame is `none`.
unfoldable pub from_ax25_monitor : Clock → Option Frame → ℕ → AgwResult AgwFrame
from_ax25_monitor now none port = failed nil_message
from_ax25_monitor now (some f) port = done (record blank {
  port = port % 256;
  kind = (format_monitor_desc f).0;
  call_from = string f.source;
  call_to = string f.destination;
  payload =
      format_monitor_addrs port f
      ++ (format_monitor_desc f).1
      ++ stamp now
      ++ (if ltb 0 (length f.payload) then f.payload ++ 13 ∷ [] else [])
      ++ 0 ∷ [];
})
