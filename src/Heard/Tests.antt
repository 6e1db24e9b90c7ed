-- ===== src/Heard/Tests.antt =====
-- Heard lists at concrete inputs.
use go_ax.Base.{[], arith, map, refl, take, ◌∷◌, ◌≡◌}
use go_ax.Address.{equal_bytes, to_upper}
use go_ax.Base.Texts.{codes}
use go_ax.Heard.{HeardList, add_heard, new_heard_list, without_heard}
use go_ax.Heard.Recent.{IsHeardList, add_heard_lem, others}

abbrev three : HeardList
three = record {
  entries =
      record { callsign = codes "W1AW"; time = 3 }
      ∷ record { callsign = codes "K2XX"; time = 2 }
      ∷ record { callsign = codes "N7GET"; time = 1 }
      ∷ [];
  max = 3;
}

three-IsHeardList : IsHeardList three
unfolding equal_bytes to_upper
three-IsHeardList = record {
  once = ((refl, (refl, tt)), ((refl, tt), (tt, tt)));
  bounded = omega arith;
}

-- A new station pushes the oldest out, and a known one moves.
heard_runs :
    (map (λ e. e.time) (add_heard 4 (codes "ve3x") three).entries ≡ 4 ∷ 3 ∷ 2 ∷ [])
    × (map (λ e. e.time) (add_heard 4 (codes "k2xx") three).entries ≡ 4 ∷ 3 ∷ 1 ∷ [])
    × ((new_heard_list 0).max ≡ 20)
unfolding add_heard without_heard equal_bytes to_upper new_heard_list
heard_runs = (refl, refl, refl)

add_heard_lem_example :
    (add_heard 4 (codes "k2xx") three).entries
    ≡ take 3 (
        record { callsign = map to_upper (codes "k2xx"); time = 4 }
        ∷ others (map to_upper (codes "k2xx")) three.entries)
add_heard_lem_example = add_heard_lem 4 (codes "k2xx") three three-IsHeardList
