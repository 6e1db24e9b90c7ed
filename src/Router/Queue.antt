-- ===== src/Router/Queue.antt =====
-- ax25/router.go: the queue of a port, its bound and its counters.
use go_ax.Base.{
  Bool-cases, List, Option, [], arith, false, inl, inr, length, length-append, refl, ℕ, ◌+◌, ◌∷◌,
  ◌≡◌, ◌≤◌, ◌⊎◌,
}
use go_ax.Types.{Frame}
use go_ax.Router.Port.{Port, deliver, start, take_from, u64, worker_round}
use go_ax.Router.Table.{PortId, Router}
use go_ax.Router.Throughout.{send-Throughout}
use go_ax.Router.Dispatch.{bind_source, send}

-- The queue fits its channel, which a port that is not started has not, and what was put into it is what was taken out and what is left,
-- counted modulo 2^64.
pub record IsSound (p : Port) : Type 0 where
  pub bounded : length p.tx_ch ≤ p.capacity
  pub counted : u64 p.stats.tx_frames ≡ u64 (p.stats.rx_frames + length p.tx_ch)
  pub channel : p.started ≡ false → p.capacity ≡ 0

pub deliver-IsSound : (f : Frame) (p : Port) → IsSound p → IsSound (deliver f p)
unfolding deliver
deliver-IsSound f p s = ground (arith, length-append {0} p.tx_ch (f ∷ []))

take_from-IsSound :
    (fs : List Frame) (p : Port) → p.tx_ch ≡ fs → IsSound p → IsSound (take_from fs p)
take_from-IsSound [] p e s = s
take_from-IsSound (f ∷ fs) p e s = record {
  bounded = omega (arith, rw e at (s.bounded));
  counted = omega (arith, rw e at (s.counted));
  channel = s.channel;
}

-- A round of the worker keeps the queue sound.
pub worker_round-IsSound : (p : Port) → IsSound p → IsSound (worker_round p)
unfolding worker_round
worker_round-IsSound p s = take_from-IsSound p.tx_ch p refl s

-- A new port, before it is started.
pub record IsNew (p : Port) : Type 0 where
  pub empty : p.tx_ch ≡ []
  pub rx_zero : p.stats.rx_frames ≡ 0
  pub tx_zero : p.stats.tx_frames ≡ 0
  pub not_started : p.started ≡ false
  pub no_channel : p.capacity ≡ 0

-- Starting a new port makes its queue, and never fails a sound one.
pub start-IsSound : (n : ℕ) (p : Port) → IsNew p ⊎ IsSound p → IsSound (start n p)
unfolding start
start-IsSound n p (inl new) = ground arith
start-IsSound n p (inr sound) = elim (Bool-cases p.started) [
  | inl started ↦ simp started sound
  | inr fresh ↦ ground (arith, sound.channel fresh)
]

bind_source-IsSound : (f : Frame) (p : Port) → IsSound p → IsSound (bind_source f p)
unfolding bind_source
bind_source-IsSound f p s = ground arith

-- Every port of the heap is sound.
abbrev pub AllSound : (PortId → Port) → Type 0
AllSound heap = (i : PortId) → IsSound (heap i)

-- If every port's queue fits its channel and its counters agree with its queue, so it is behind
-- `send`, whatever is sent, from whatever port, in whatever mode.
pub send-AllSound :
    (f : Option Frame) (src : Option PortId) (r : Router)
    → AllSound r.heap
    → AllSound (send f src r).0.heap
send-AllSound f src r a =
    send-Throughout (λ i p. IsSound p) (λ g i p s. deliver-IsSound g p s)
      (λ g i p s. bind_source-IsSound g p s) f src r a
