-- ===== src/Heard.antt =====
-- cmd/bbs/heard/heard.go: the stations that were heard, the last one first. Times are nanoseconds.
mod Tests
pub mod Recent
use go_ax.Base.{Bool, Bytes, List, Option, [], if◌then◌else◌, ltb, map, none, some, take, ℕ, ◌∷◌}
use go_ax.Address.{equal_bytes, to_upper}

pub record Heard : Type 0 where
  pub callsign : Bytes
  pub time : ℕ

-- `List`; the mutex makes every method one step.
pub record HeardList : Type 0 where
  pub entries : List Heard
  pub max : ℕ

-- `New`; a negative size acts as 0 does.
unfoldable pub new_heard_list : ℕ → HeardList
new_heard_list max = record { entries = []; max = if ltb 0 max then max else 20 }

-- `strings.EqualFold`
abbrev pub equal_fold : Bytes → Bytes → Bool
equal_fold a b = equal_bytes (map to_upper a) (map to_upper b)

-- The list without the first entry of a callsign, if there is one.
abbrev pub behind : Heard → Option (List Heard) → Option (List Heard)
behind e none = none
behind e (some es) = some (e ∷ es)

unfoldable pub without_heard : Bytes → List Heard → Option (List Heard)
without_heard callsign [] = none
without_heard callsign (e ∷ es) =
    let later = without_heard callsign es in
    if equal_fold e.callsign callsign then some es else behind e later

-- A callsign that is there moves to the front; a new one is put there, and the list cut to its size.
abbrev pub put_first : ℕ → Heard → List Heard → Option (List Heard) → List Heard
put_first max e es (some rest) = e ∷ rest
put_first max e es none = take max (e ∷ es)

-- `Add`, at a time.
unfoldable pub add_heard : ℕ → Bytes → HeardList → HeardList
add_heard now callsign l =
    let name = map to_upper callsign in
    let e : Heard = record { callsign = name; time = now } in
    record l { entries = put_first l.max e l.entries (without_heard name l.entries) }
