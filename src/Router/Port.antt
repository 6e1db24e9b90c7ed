-- ===== src/Router/Port.antt =====
-- ax25/router.go: a port, its bounded queue and its counters. The worker's rounds are steps of their
-- own; the frames given to `OnRxFrame` stand in `handled`.
use go_ax.Base.{
  Bool, List, [], false, if◌then◌else◌, length, ltb, not, true, ℕ, ◌%◌, ◌++◌, ◌+◌, ◌^◌, ◌∷◌,
}
use go_ax.Types.{Address, Frame}

pub data PortMode : Type 0 where
  mode_static mode_default mode_promiscuous mode_digipeater mode_dynamic : PortMode

-- The counters are uint64.
pub record PortStats : Type 0 where
  pub rx_frames : ℕ
  pub tx_frames : ℕ
  pub dropped : ℕ

-- `tx_ch` holds the frames in the channel and `capacity` its size, 0 before `start` makes it.
-- `quit` says that `quitCh` is closed, and `busy` that the worker is in a call of `OnRxFrame`.
pub record Port : Type 0 where
  pub mode : PortMode
  pub destination : Address
  pub has_on_rx : Bool
  pub queue_depth : ℕ
  pub stats : PortStats
  pub tx_ch : List Frame
  pub capacity : ℕ
  pub started : Bool
  pub quit : Bool
  pub busy : Bool
  pub handled : List Frame

abbrev pub u64 : ℕ → ℕ
u64 n = n % 2 ^ 64

unfoldable pub start : ℕ → Port → Port
start depth p = if p.started then p else record p {
  tx_ch = [];
  capacity = if ltb 0 p.queue_depth then p.queue_depth else depth;
  quit = false;
  busy = false;
  started = true;
}

-- A call that stops workers ends with what it leaves, panics on a closed channel, or waits for ever.
pub data Stopped (A : Type 0) : Type 0 where
  stop_ends stop_waits : A → Stopped A
  stop_panics : Stopped A

-- `stop`. A call of `OnRxFrame` is one step, so a worker that is busy when its port is stopped is the
-- goroutine that stops it, or one that never comes back from its call: `Wait` then never ends.
unfoldable pub stop : Port → Stopped Port
stop p =
    let quitting = record p { quit = true } in
    if not p.started
    then stop_ends p
    else if p.quit
    then stop_panics
    else if p.busy
    then stop_waits quitting
    else stop_ends quitting

-- A round of `worker` that takes a frame, whose call of `OnRxFrame` comes back.
abbrev pub take_from : List Frame → Port → Port
take_from [] p = p
take_from (f ∷ fs) p = record p {
  tx_ch = fs;
  handled = if p.has_on_rx then p.handled ++ (f ∷ []) else p.handled;
  stats = record (p.stats) { rx_frames = u64 (p.stats.rx_frames + 1) };
}

-- The parts of a round before the call of `OnRxFrame` and behind it.
abbrev pub take_up : Frame → List Frame → Port → Port
take_up f fs p = record p {
  tx_ch = fs;
  busy = true;
  handled = if p.has_on_rx then p.handled ++ (f ∷ []) else p.handled;
}

abbrev pub put_down : Port → Port
put_down p = record p {
  busy = false;
  stats = record (p.stats) { rx_frames = u64 (p.stats.rx_frames + 1) };
}

unfoldable pub worker_round : Port → Port
worker_round p = take_from p.tx_ch p

unfoldable pub deliver : Frame → Port → Port
deliver f p =
    if ltb (length p.tx_ch) p.capacity
    then record p {
      tx_ch = p.tx_ch ++ (f ∷ []);
      stats = record (p.stats) { tx_frames = u64 (p.stats.tx_frames + 1) };
    }
    else record p { stats = record (p.stats) { dropped = u64 (p.stats.dropped + 1) } }
