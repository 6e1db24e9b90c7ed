-- ===== src/Digipeater/Relay.antt =====
-- ax25/digipeater.go: the hops that a frame has left, and the relay.
use go_ax.Base.{
  Bool-cases, List, [], arith, false, if◌then◌else◌, inl, inr, not, refl, true, ℕ, ◌++◌, ◌+◌, ◌<◌,
  ◌↔◌, ◌∷◌, ◌≡◌, ◌⊎◌,
}
use go_ax.Types.{Address, Frame}
use go_ax.Digipeater.{
  Digipeater, has_unrepeated_digi, is_next_digi_hop, mark_digi_hop, on_digi_frame,
}

-- The path with its first unrepeated hop repeated: what one hop does to a frame.
pub advance : List Address → List Address
advance [] = []
advance (d ∷ ds) =
    if not d.has_been_repeated then record d { has_been_repeated = true } ∷ ds else d ∷ advance ds

-- The hops still to go.
pub hops_left : List Address → ℕ
hops_left [] = 0
hops_left (d ∷ ds) = (if not d.has_been_repeated then 1 else 0) + hops_left ds

mark-advance :
    (ds : List Address) (a : Address)
    → is_next_digi_hop ds a ≡ true
    → mark_digi_hop ds a ≡ advance ds
unfolding is_next_digi_hop mark_digi_hop advance
mark-advance [] a h = refl
mark-advance (d ∷ ds) a h = ground (arith, mark-advance ds a)

advance-hops_left :
    (ds : List Address) (a : Address)
    → is_next_digi_hop ds a ≡ true
    → hops_left ds ≡ hops_left (advance ds) + 1
unfolding is_next_digi_hop hops_left advance
advance-hops_left [] a h = cc
advance-hops_left (d ∷ ds) a h = ground (arith, advance-hops_left ds a)

-- A digipeater that is the next hop of a frame sends exactly one frame more: the same but for the
-- path, in which the first hop that was left, and no other, is marked, so that one hop less is left.
-- A frame of which it is not the next hop is not sent.
pub on_digi_frame_lem :
    (f : Frame) (d : Digipeater)
    → ((is_next_digi_hop f.digipeaters d.addr ≡ true)
        × ((on_digi_frame f d).relayed
            ≡ d.relayed ++ (record f { digipeaters = advance f.digipeaters } ∷ []))
        × (hops_left f.digipeaters ≡ hops_left (advance f.digipeaters) + 1))
      ⊎ ((is_next_digi_hop f.digipeaters d.addr ≡ false) × (on_digi_frame f d ≡ d))
unfolding on_digi_frame
on_digi_frame_lem f d = elim (Bool-cases (is_next_digi_hop f.digipeaters d.addr)) [
  | inl next ↦ inl (
    next,
    simp (next, mark-advance f.digipeaters d.addr next),
    advance-hops_left f.digipeaters d.addr next,
  )
  | inr other ↦ inr (other, simp other)
]

-- The router offers a frame to digipeaters exactly if a hop is left.
pub has_unrepeated_digi_iff :
    (ds : List Address) → (has_unrepeated_digi ds ≡ true) ↔ (0 < hops_left ds)
unfolding has_unrepeated_digi hops_left
has_unrepeated_digi_iff [] = (λ h. cc, λ h. absurd (omega arith))
has_unrepeated_digi_iff (d ∷ ds) = ground (arith, has_unrepeated_digi_iff ds)
