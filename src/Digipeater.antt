-- ===== src/Digipeater.antt =====
-- ax25/digipeater.go: the hops of a frame's path, and the relay. What `sendFn` is given stands in
-- `relayed`. The digipeater's port in the router is in DigiPort.antt.
mod Tests
pub mod Relay
use go_ax.Base.{Bool, List, [], false, if◌then◌else◌, not, true, ◌&&◌, ◌++◌, ◌∷◌}
use go_ax.Types.{Address, Frame}
use go_ax.Address.{equal}

-- `hasUnrepeatedDigi`
unfoldable pub has_unrepeated_digi : List Address → Bool
has_unrepeated_digi [] = false
has_unrepeated_digi (d ∷ ds) = if not d.has_been_repeated then true else has_unrepeated_digi ds

-- `isNextDigiHop`
unfoldable pub is_next_digi_hop : List Address → Address → Bool
is_next_digi_hop [] addr = false
is_next_digi_hop (d ∷ ds) addr =
    if not d.has_been_repeated then equal d addr else is_next_digi_hop ds addr

-- `markDigiHop`
unfoldable pub mark_digi_hop : List Address → Address → List Address
mark_digi_hop [] addr = []
mark_digi_hop (d ∷ ds) addr =
    if not d.has_been_repeated && equal d addr
    then record d { has_been_repeated = true } ∷ ds
    else d ∷ mark_digi_hop ds addr

-- A digipeater: its address, whether it is enabled, and the frames it has sent on, in their order.
pub record Digipeater : Type 0 where
  pub addr : Address
  pub enabled : Bool
  pub relayed : List Frame

-- `onFrame`. The frame that is sent is a clone, so the one received is not changed.
unfoldable pub on_digi_frame : Frame → Digipeater → Digipeater
on_digi_frame f d =
    let clone = record f { digipeaters = mark_digi_hop f.digipeaters d.addr } in
    if not (is_next_digi_hop f.digipeaters d.addr)
    then d
    else record d { relayed = d.relayed ++ (clone ∷ []) }
