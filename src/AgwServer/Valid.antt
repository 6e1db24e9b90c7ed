-- ===== src/AgwServer/Valid.antt =====
-- agwpe/server.go: what holds of the server between any two steps, and that the small steps keep it.
pub mod Ports
pub mod Calls
pub mod Handlers
pub mod Setup
pub mod Commands
pub mod Run
use go_ax.Base.{
  All, Bool, Bool-cases, List, Option, [], ap, arith, false, if◌then◌else◌, inl, inr, length,
  length-append, ltb, none, refl, some, suc, true, zero, ℕ, ◌++◌, ◌∙◌, ◌∷◌, ◌≡◌, ◌≤◌,
}
use go_ax.AgwServer.{
  ConnSlot, Server, ServerConfig, enqueue, router_send, router_unregister, with_router, ◌>>>◌,
}
use go_ax.AgwServer.Valid.Calls.{CallsOk}
use go_ax.AgwServer.Valid.Ports.{RouterOk, send-RouterOk, unregister_port-RouterOk}
use go_ax.AgwServer.Callbacks.{free_slot}
use go_ax.AgwServer.Lookup.{IsClean}
use go_ax.AgwServer.Slots.{freed, update_at}
use go_ax.Agwpe.{AgwFrame}
use go_ax.Router.Ready.{Goes}
use go_ax.Router.Table.{Outcome, PortId, panicked, returned, unregister_port, waiting}
use go_ax.Types.{Frame}

pub record QueueOk (cfg : ServerConfig) (queue : List AgwFrame) (shut : Bool) : Type 0 where
  pub bounded : length queue ≤ cfg.tx_queue_depth
  pub is_open : shut ≡ false

pub record TableOk (cfg : ServerConfig) (slots : List ConnSlot) (pending : List ℕ) : Type 0 where
  pub size : length slots ≡ cfg.max_conns
  pub counters : length pending ≡ cfg.max_conns
  pub clean : All IsClean slots

-- Between steps, the router runs and its table names no pointer that is not allocated yet; the queue
-- is open and within its depth; there are as many slots and counters as connections are allowed, and
-- a slot that is not in use holds nothing but, it may be, a port; no callsign is registered twice, and
-- every listener's is registered.
abbrev pub IsServer : Server → Type 0
IsServer s =
    RouterOk s.next_port s.router
    × QueueOk s.cfg s.tx_ch s.tx_closed
    × TableOk s.cfg s.slots s.pending_frames
    × CallsOk s.calls s.listeners

-- A step does not panic, and what it gives back, or leaves where it waits, has the property.
abbrev pub Holds : (Server → Type 0) → Option Server → Type 0
Holds P none = ⊥
Holds P (some s) = P s

pub Holds-then :
    (P : Server → Type 0) (o : Option Server) (next : Server → Option Server)
    → Holds P o
    → ((s : Server) → P s → Holds P (next s))
    → Holds P (o >>> next)
Holds-then P none next h k = h
Holds-then P (some s) next h k = elim (Bool-cases s.waits) [
  | inl on ↦ simp on h
  | inr off ↦ simp off (k s h)
]

pub Holds-if :
    (P : Server → Type 0) (b : Bool) (x y : Option Server)
    → Holds P x
    → Holds P y
    → Holds P (if b then x else y)
Holds-if P true x y h k = h
Holds-if P false x y h k = k

push-bounded :
    (cfg : ServerConfig) (q : List AgwFrame) (m : AgwFrame)
    → ltb (length q) cfg.tx_queue_depth ≡ true
    → length (q ++ m ∷ []) ≤ cfg.tx_queue_depth
push-bounded cfg q m h = ground (arith, length-append {0} q (m ∷ []), h)

pub enqueue-IsServer : (m : AgwFrame) (s : Server) → IsServer s → Holds IsServer (enqueue m s)
unfolding enqueue
enqueue-IsServer m s (r, q, t, c) = elim (Bool-cases (ltb (length s.tx_ch) s.cfg.tx_queue_depth)) [
  | inl room ↦
      simp (q.is_open, room)
        (r, record { bounded = push-bounded s.cfg s.tx_ch m room; is_open = refl }, t, c)
  | inr crowded ↦
      simp (q.is_open, crowded) (r, record { bounded = q.bounded; is_open = refl }, t, c)
]

pub router_send-IsServer : (f : Frame) (s : Server) → IsServer s → Holds IsServer (router_send f s)
unfolding router_send
router_send-IsServer f s (r, q, t, c) =
    (send-RouterOk s.next_port (some f) (some s.router_port) s.router r, q, t, c)

pub with_router-IsServer :
    (s : Server) (o : Outcome)
    → IsServer s
    → Goes (RouterOk s.next_port) o
    → Holds IsServer (with_router s o)
with_router-IsServer s (returned r e) v g = (g, v.1, v.2, v.3)
with_router-IsServer s (waiting r) v g = (g, v.1, v.2, v.3)
with_router-IsServer s panicked v g = g

pub router_unregister-IsServer :
    (i : PortId) (s : Server) → IsServer s → Holds IsServer (router_unregister i s)
unfolding router_unregister
router_unregister-IsServer i s v =
    with_router-IsServer s (unregister_port i s.router) v
      (unregister_port-RouterOk s.next_port i s.router v.0)

pub length-update_at {ℓ} :
    {A : Type ℓ} (i : ℕ) (f : A → A) (xs : List A) → length (update_at i f xs) ≡ length xs
unfolding update_at
length-update_at i f [] = refl
length-update_at zero f (x ∷ xs) = refl
length-update_at (suc i) f (x ∷ xs) = ap suc (length-update_at i f xs)

update_at-All {ℓ κ} :
    {A : Type ℓ} (P : A → Type κ) (i : ℕ) (f : A → A) (xs : List A)
    → ((x : A) → P x → P (f x))
    → All P xs
    → All P (update_at i f xs)
unfolding update_at
update_at-All P i f [] h a = tt
update_at-All P zero f (x ∷ xs) h a = (h x a.0, a.1)
update_at-All P (suc i) f (x ∷ xs) h a = (a.0, update_at-All P i f xs h a.1)

-- A change of a slot that keeps it clean, and a change of a counter.
pub update_slot-IsServer :
    (i : ℕ) (f : ConnSlot → ConnSlot) (s : Server)
    → ((x : ConnSlot) → IsClean x → IsClean (f x))
    → IsServer s
    → IsServer (record s { slots = update_at i f s.slots })
update_slot-IsServer i f s h (r, q, t, c) = (
  r,
  q,
  record {
    size = length-update_at i f s.slots ∙ t.size;
    counters = t.counters;
    clean = update_at-All IsClean i f s.slots h t.clean;
  },
  c,
)

pub update_counter-IsServer :
    (i : ℕ) (f : ℕ → ℕ) (s : Server)
    → IsServer s
    → IsServer (record s { pending_frames = update_at i f s.pending_frames })
update_counter-IsServer i f s (r, q, t, c) = (
  r,
  q,
  record {
    size = t.size;
    counters = length-update_at i f s.pending_frames ∙ t.counters;
    clean = t.clean;
  },
  c,
)

pub freed-IsClean : (x : ConnSlot) → IsClean x → IsClean (freed x)
freed-IsClean x h _ = refl

pub free_slot-IsServer : (i : ℕ) (s : Server) → IsServer s → IsServer (free_slot i s)
free_slot-IsServer i s v = update_slot-IsServer i freed s freed-IsClean v

pub set_port-IsClean :
    (p : Option PortId) (x : ConnSlot) → IsClean x → IsClean (record x { router_port = p })
set_port-IsClean p x h free =
    ap {A = ConnSlot} {B = ConnSlot} (λ y. record y { router_port = p }) (h free)
