-- ===== src/Bbs/Sysop.antt =====
-- cmd/bbs/bbs/sysop.go: the challenge and the response of the system operator.
use go_ax.Base.{
  Bool, Bytes, List, Option, [], drop, false, if◌then◌else◌, leb, length, ltb, none, not, replicate,
  some, suc, true, zero, ℕ, ◌%◌, ◌&&◌, ◌*◌, ◌++◌, ◌+◌, ◌-◌, ◌/◌, ◌==◌, ◌||◌, ◌∷◌,
}
use go_ax.Bbs.{
  SysopMode, SysopState, authenticated, awaiting_response, locked_out, sysop_idle, text_line,
}
use go_ax.Agwpe.Responses.{int_text}
use go_ax.Base.Texts.{codes}
use go_ax.Conn.Send.{response}

pub data VerifyResult : Type 0 where
  verify_success verify_failed verify_locked_out verify_expired verify_no_active : VerifyResult

-- `NewSysopState`, with durations in seconds.
abbrev pub new_sysop_state : Bytes → ℕ → ℕ → ℕ → ℕ → SysopState
new_sysop_state secret challenge session lockout attempts = record {
  mode = sysop_idle;
  secret = secret;
  indices = replicate 4 0;
  challenge_expires = 0;
  last_activity = 0;
  lockout_until = 0;
  failed_attempts = 0;
  challenge_timeout = challenge * 1_000_000_000;
  session_timeout = session * 1_000_000_000;
  lockout_duration = lockout * 1_000_000_000;
  max_attempts = attempts;
}

-- `IsAuthenticated` and `IsAwaitingResponse`.
abbrev pub is_mode_authenticated : SysopMode → Bool
is_mode_authenticated authenticated = true
is_mode_authenticated _ = false

abbrev pub is_mode_awaiting : SysopMode → Bool
is_mode_awaiting awaiting_response = true
is_mode_awaiting _ = false

abbrev pub is_authenticated : SysopState → Bool
is_authenticated s = is_mode_authenticated s.mode

abbrev pub is_awaiting_response : SysopState → Bool
is_awaiting_response s = is_mode_awaiting s.mode

-- `IsLockedOut`: a lockout that is over is forgotten.
abbrev pub locked_in : SysopMode → ℕ → SysopState → Bool × SysopState
locked_in locked_out now s =
    if ltb s.lockout_until now
    then (false, record s { mode = sysop_idle; failed_attempts = 0 })
    else (true, s)
locked_in _ now s = (false, s)

unfoldable pub is_locked_out : ℕ → SysopState → Bool × SysopState
is_locked_out now s = locked_in s.mode now s

-- `NoteActivity`
abbrev pub note_activity : ℕ → SysopState → SysopState
note_activity now s = if is_authenticated s then record s { last_activity = now } else s

-- `ExpireIfIdle`
unfoldable pub expire_if_idle : ℕ → SysopState → Bool × SysopState
expire_if_idle now s =
    if is_authenticated s && ltb s.session_timeout (now - s.last_activity)
    then (true, record s { mode = sysop_idle })
    else (false, s)

-- `LockoutMinutes`
abbrev pub lockout_minutes : SysopState → ℕ
lockout_minutes s = let mins = s.lockout_duration / 60_000_000_000 in if ltb mins 1 then 1 else mins

unfoldable pub has_index : ℕ → List ℕ → Bool
has_index i [] = false
has_index i (j ∷ js) = j == i || has_index i js

-- The loops of `IssueChallenge`: `crypto/rand` gives the draws, each any number, taken below the length
-- of the secret. It fails where the draws end.
unfoldable pub draw_indices : ℕ → ℕ → List ℕ → List ℕ → List ℕ × Bool
draw_indices left n used [] = (used, left == 0)
draw_indices zero n used (r ∷ rs) = (used, true)
draw_indices (suc left) n used (r ∷ rs) =
    let i = r % n + 1 in
    let again = draw_indices (suc left) n used rs in
    let further = draw_indices left n (used ++ i ∷ []) rs in
    if has_index i used then again else further

abbrev pub number_word : ℕ → Bytes
number_word n = b' ' ∷ int_text n

unfoldable pub number_words : List ℕ → Bytes
number_words [] = []
number_words (n ∷ ns) = number_word n ++ number_words ns

abbrev pub challenged : ℕ → SysopState → List ℕ × Bool → SysopState × Option Bytes
challenged now s (picked, enough) =
    let asked = record s { indices = picked ++ drop (length picked) s.indices } in
    if enough
    then (
      record asked { mode = awaiting_response; challenge_expires = now + s.challenge_timeout },
      some (text_line (codes "CHAL" ++ number_words picked)),
    )
    else (asked, none)

-- `IssueChallenge`
unfoldable pub issue_challenge : ℕ → List ℕ → SysopState → SysopState × Option Bytes
issue_challenge now random s =
    if ltb (length s.secret) 4
    then (s, none)
    else challenged now s (draw_indices 4 (length s.secret) [] random)

-- The character at a place that is counted from 1.
unfoldable pub char_at : ℕ → Bytes → Option ℕ
char_at i [] = none
char_at zero (c ∷ cs) = none
char_at (suc i) (c ∷ cs) = let later = char_at i cs in if i == 0 then some c else later

abbrev pub with_char : Option ℕ → Option Bytes → Option Bytes
with_char (some c) (some cs) = some (c ∷ cs)
with_char _ _ = none

-- The characters of the secret that the challenge asks for; a place outside of it fails.
unfoldable pub required : Bytes → List ℕ → Option Bytes
required secret [] = some []
required secret (i ∷ is) = with_char (char_at i secret) (required secret is)

-- A character of the response is used for one required character only: the one that is used leaves the
-- list, where the source marks it.
abbrev pub kept_char : ℕ → Option Bytes → Option Bytes
kept_char c none = none
kept_char c (some cs) = some (c ∷ cs)

unfoldable pub use_char : ℕ → Bytes → Option Bytes
use_char c [] = none
use_char c (r ∷ rs) = let later = kept_char r (use_char c rs) in if r == c then some rs else later

unfoldable pub all_used : Bytes → Option Bytes → Bool
all_used cs none = false
all_used [] (some response) = true
all_used (c ∷ cs) (some response) = all_used cs (use_char c response)

abbrev pub has_all : Option Bytes → Bytes → Bool
has_all none response = false
has_all (some cs) response = all_used cs (some response)

-- `verifyResponse`
unfoldable pub verify_response : Bytes → SysopState → Bool
verify_response response s =
    if length response == 6 then has_all (required s.secret s.indices) response else false

abbrev pub failed_once : ℕ → SysopState → VerifyResult × SysopState
failed_once now s =
    let more = record s { failed_attempts = s.failed_attempts + 1; mode = sysop_idle } in
    if leb s.max_attempts (s.failed_attempts + 1)
    then (
      verify_locked_out,
      record more { mode = locked_out; lockout_until = now + s.lockout_duration },
    )
    else (verify_failed, more)

-- `SubmitResponse`
unfoldable pub submit_response : ℕ → Bytes → SysopState → VerifyResult × SysopState
submit_response now response s =
    if not (is_awaiting_response s)
    then (verify_no_active, s)
    else if ltb s.challenge_expires now
    then (verify_expired, record s { mode = sysop_idle })
    else if verify_response response s
    then (
      verify_success,
      record s { mode = authenticated; failed_attempts = 0; last_activity = now },
    )
    else failed_once now s
