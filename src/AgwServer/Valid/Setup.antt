-- ===== src/AgwServer/Valid/Setup.antt =====
-- agwpe/server.go: registering callsigns and connecting keep the server in order.
use go_ax.Base.{
  All, Bool-cases, Bytes, List, Option, [], if◌then◌else◌, inl, inr, length, none, refl, some, true,
  ℕ, ◌++◌, ◌∙◌, ◌∷◌, ◌≡◌,
}
use go_ax.AgwServer.{ConnSlot, Server, ServerConfig, listening, outgoing}
use go_ax.AgwServer.Valid.{
  Holds, Holds-then, IsServer, QueueOk, TableOk, enqueue-IsServer, free_slot-IsServer,
  length-update_at, router_unregister-IsServer, set_port-IsClean, update_slot-IsServer,
}
use go_ax.AgwServer.Valid.Calls.{
  CallsOk, add_call-CallsOk, add_listener-CallsOk, has_call-last, without-CallsOk,
}
use go_ax.Address.{parse_address}
use go_ax.AgwServer.Callbacks.{listener_callbacks, on_session, slot_callbacks}
use go_ax.AgwServer.Connect.{
  after_connect, connect_in, connect_registered, connect_to, connect_with, handle_connect,
}
use go_ax.AgwServer.Listeners.{
  add_session, handle_register_call, handle_unregister_call, has_call, listed, listen_at,
  listen_with, server_port, setup_listener, stop_listener, stop_listeners, teardown_all_listeners,
  teardown_listener,
}
use go_ax.AgwServer.Slots.{alloc_in, one_further, taken, update_at}
use go_ax.AgwServer.Valid.Handlers.{on_session-IsServer}
use go_ax.AgwServer.Valid.Ports.{RouterOk, register_port-RouterOk}
use go_ax.Agwpe.{AgwFrame}
use go_ax.Agwpe.Monitor.{Clock}
use go_ax.Conn.Calls.{close, connect}
use go_ax.Conn.State.{CallError, Conn, new_conn}
use go_ax.Router.Port.{mode_static}
use go_ax.Router.Ready.{Goes}
use go_ax.Router.Table.{Outcome, PortId, panicked, returned, waiting}
use go_ax.Types.{Address, Result, err, ok}
use go_ax.AgwServer.Lookup.{IsClean, OneMore, alloc_in-OneMore}

-- What holds of a server whose table of callsigns has an entry.
abbrev WithCall : Bytes → Server → Type 0
WithCall c s = IsServer s × (has_call c s.calls ≡ true)

listed-IsServer :
    (c : Bytes) (id : PortId) (s : Server) (o : Outcome)
    → QueueOk s.cfg s.tx_ch s.tx_closed
    → TableOk s.cfg s.slots s.pending_frames
    → CallsOk s.calls s.listeners
    → has_call c s.calls ≡ true
    → Goes (RouterOk s.next_port) o
    → Holds IsServer (listed c id s o)
listed-IsServer c id s (returned r none) q t k there g =
    (g, q, t, add_listener-CallsOk c id s.calls s.listeners there k)
listed-IsServer c id s (returned r (some e)) q t k there g = (g, q, t, k)
listed-IsServer c id s (waiting r) q t k there g = (g, q, t, k)
listed-IsServer c id s panicked q t k there g = g

listen_with-IsServer :
    (c : Bytes) (a : Address) (o : Option Conn) (s : Server)
    → WithCall c s
    → Holds IsServer (listen_with c s.next_port a o s)
listen_with-IsServer c a none s (v, there) = v
listen_with-IsServer c a (some x) s ((r, q, t, k), there) =
    let known =
      add_session (record { role = listening; local_call = c; remote_call = []; conn = x }) a s in
    listed-IsServer c s.next_port known _ q t k there
      (register_port-RouterOk s.next_port (server_port mode_static a) s.router refl r)

listen_at-IsServer :
    (c : Bytes) (a : Result Address) (s : Server) → WithCall c s → Holds IsServer (listen_at c a s)
listen_at-IsServer c (err e) s v = v.0
listen_at-IsServer c (ok a) s v = listen_with-IsServer c a (new_conn a listener_callbacks none) s v

setup_listener-IsServer :
    (c : Bytes) (s : Server) → WithCall c s → Holds IsServer (setup_listener c s)
unfolding setup_listener
setup_listener-IsServer c s v = listen_at-IsServer c (parse_address c) s v

registering-IsServer :
    (c : Bytes) (s : Server)
    → IsServer s
    → Holds IsServer (
        if has_call c s.calls
        then some s
        else setup_listener c (record s { calls = s.calls ++ c ∷ [] }))
registering-IsServer c s (r, q, t, k) = elim (Bool-cases (has_call c s.calls)) [
  | inl old ↦ rw old (r, q, t, k)
  | inr new ↦ rw new (
      setup_listener-IsServer c (record s { calls = s.calls ++ c ∷ [] })
        ((r, q, t, add_call-CallsOk c s.calls s.listeners new k), has_call-last c s.calls))
]

pub handle_register_call-IsServer :
    (m : AgwFrame) (s : Server) → IsServer s → Holds IsServer (handle_register_call m s)
unfolding handle_register_call
handle_register_call-IsServer m s v =
    Holds-then IsServer _ _ (registering-IsServer m.call_from s v) λ t w. enqueue-IsServer _ t w

stop_listener-IsServer :
    (now : Clock) (o : Option PortId) (s : Server)
    → IsServer s
    → Holds IsServer (stop_listener now o s)
stop_listener-IsServer now none s v = v
stop_listener-IsServer now (some id) s v =
    Holds-then IsServer _ (on_session now id close) (router_unregister-IsServer id s v)
      (on_session-IsServer now id close)

stop_listeners-IsServer :
    (now : Clock) (es : List (Bytes × PortId)) (s : Server)
    → IsServer s
    → Holds IsServer (stop_listeners now es s)
unfolding stop_listeners
stop_listeners-IsServer now [] s v = v
stop_listeners-IsServer now (e ∷ es) s v =
    Holds-then IsServer _ (stop_listeners now es) (stop_listener-IsServer now (some e.1) s v)
      (stop_listeners-IsServer now es)

pub handle_unregister_call-IsServer :
    (now : Clock) (m : AgwFrame) (s : Server)
    → IsServer s
    → Holds IsServer (handle_unregister_call now m s)
unfolding handle_unregister_call teardown_listener
handle_unregister_call-IsServer now m s (r, q, t, k) =
    stop_listener-IsServer now _ _ (r, q, t, without-CallsOk m.call_from s.calls s.listeners k)

pub teardown_all_listeners-IsServer :
    (now : Clock) (s : Server) → IsServer s → Holds IsServer (teardown_all_listeners now s)
unfolding teardown_all_listeners
teardown_all_listeners-IsServer now s (r, q, t, k) =
    stop_listeners-IsServer now s.listeners _ (r, q, t, record { unrepeated = tt; all_listed = tt })

after_connect-IsServer :
    (i : ℕ) (id : PortId) (e : Option CallError) (s : Server)
    → IsServer s
    → Holds IsServer (after_connect i id e s)
after_connect-IsServer i id none s v = v
after_connect-IsServer i id (some e) s v =
    Holds-then IsServer _ _ (router_unregister-IsServer id s v) (free_slot-IsServer i)

connect_registered-IsServer :
    (now : Clock) (i : ℕ) (id : PortId) (a : Address) (ds : List Address) (c : Conn) (s : Server)
    (o : Outcome)
    → QueueOk s.cfg s.tx_ch s.tx_closed
    → TableOk s.cfg s.slots s.pending_frames
    → CallsOk s.calls s.listeners
    → Goes (RouterOk s.next_port) o
    → Holds IsServer (connect_registered now i id a ds c s o)
connect_registered-IsServer now i id a ds c s (returned r none) q t k g =
    Holds-then IsServer _ (after_connect i id (connect a ds c).1)
      (on_session-IsServer now id _ _ (
        update_slot-IsServer i (λ y. record y { router_port = some id }) (record s { router = r })
          (set_port-IsClean (some id)) (g, q, t, k)))
      (after_connect-IsServer i id (connect a ds c).1)
connect_registered-IsServer now i id a ds c s (returned r (some e)) q t k g =
    free_slot-IsServer i (record s { router = r }) (g, q, t, k)
connect_registered-IsServer now i id a ds c s (waiting r) q t k g = (g, q, t, k)
connect_registered-IsServer now i id a ds c s panicked q t k g = g

-- The table is in order, also when the slot at a place, which is in use, gets a session.
abbrev Filled : ℕ → ServerConfig → List ConnSlot → List ℕ → Type 0
Filled i cfg slots pending =
    TableOk cfg slots pending
    × ((id : PortId) → TableOk cfg (update_at i (λ y. record y { conn = some id }) slots) pending)

connect_with-IsServer :
    (now : Clock) (i : ℕ) (m : AgwFrame) (l a : Address) (ds : List Address) (o : Option Conn)
    (s : Server)
    → IsServer s
    → Filled i s.cfg s.slots s.pending_frames
    → Holds IsServer (connect_with now i m l a ds o s)
connect_with-IsServer now i m l a ds none s v f = free_slot-IsServer i s v
connect_with-IsServer now i m l a ds (some c) s (r, q, t, k) f =
    let known =
      add_session
        (record { role = outgoing i; local_call = m.call_from; remote_call = m.call_to; conn = c })
        l (record s { slots = update_at i (λ y. record y { conn = some s.next_port }) s.slots }) in
    connect_registered-IsServer now i s.next_port a ds c known _ q (f.1 s.next_port) k
      (register_port-RouterOk s.next_port (server_port mode_static l) s.router refl r)

connect_to-IsServer :
    (now : Clock) (i : ℕ) (m : AgwFrame) (l a : Result Address) (ds : List Address) (s : Server)
    → IsServer s
    → Filled i s.cfg s.slots s.pending_frames
    → Holds IsServer (connect_to now i m l a ds s)
connect_to-IsServer now i m (err e) a ds s v f = free_slot-IsServer i s v
connect_to-IsServer now i m (ok l) (err e) ds s v f = free_slot-IsServer i s v
connect_to-IsServer now i m (ok l) (ok a) ds s v f =
    connect_with-IsServer now i m l a ds (new_conn l slot_callbacks none) s v f

-- What allocating a slot makes of a table in order.
abbrev AllocOk : ServerConfig → List ℕ → Option (ℕ × List ConnSlot) → Type 0
AllocOk cfg pending none = Unit
AllocOk cfg pending (some (i, ys)) = Filled i cfg ys pending

connect_in-IsServer :
    (now : Clock) (m : AgwFrame) (ds : List Address) (s : Server) (o : Option (ℕ × List ConnSlot))
    → IsServer s
    → AllocOk s.cfg s.pending_frames o
    → Holds IsServer (connect_in now m ds s o)
connect_in-IsServer now m ds s none v f = v
connect_in-IsServer now m ds s (some (i, ys)) (r, q, t, k) f =
    connect_to-IsServer now i m _ _ ds (record s { slots = ys }) (r, q, f.0, k) f

-- The two tables that a new slot makes hold clean slots.
abbrev CleanBoth : Option (ℕ × List ConnSlot) → Type 0
CleanBoth none = Unit
CleanBoth (some (i, ys)) =
    All IsClean ys
    × ((id : PortId) → All IsClean (update_at i (λ y. record y { conn = some id }) ys))

one_further-CleanBoth :
    (x : ConnSlot) (o : Option (ℕ × List ConnSlot))
    → IsClean x
    → CleanBoth o
    → CleanBoth (one_further x o)
unfolding update_at
one_further-CleanBoth x none c b = b
one_further-CleanBoth x (some (i, ys)) c b = ((c, b.0), λ id. (c, b.1 id))

in_use-IsClean : (x : ConnSlot) → x.in_use ≡ true → IsClean x
in_use-IsClean x h free = cc

alloc_in-CleanBoth :
    (l r : Bytes) (xs : List ConnSlot) → All IsClean xs → CleanBoth (alloc_in l r xs)
unfolding alloc_in update_at
alloc_in-CleanBoth l r [] c = tt
alloc_in-CleanBoth l r (x ∷ xs) c = elim (Bool-cases x.in_use) [
  | inl used ↦
      simp used (one_further-CleanBoth x (alloc_in l r xs) c.0 (alloc_in-CleanBoth l r xs c.1))
  | inr free ↦ simp free (
    (in_use-IsClean (taken l r x) refl, c.1),
    λ id. (in_use-IsClean (record (taken l r x) { conn = some id }) refl, c.1),
  )
]

make-AllocOk :
    (cfg : ServerConfig) (pending : List ℕ) (xs : List ConnSlot) (o : Option (ℕ × List ConnSlot))
    → TableOk cfg xs pending
    → OneMore xs o
    → CleanBoth o
    → AllocOk cfg pending o
make-AllocOk cfg pending xs none t m c = tt
make-AllocOk cfg pending xs (some (i, ys)) t m c =
    let sized : length ys ≡ cfg.max_conns = m.1 ∙ t.size in
    (
      record { size = sized; counters = t.counters; clean = c.0 },
      λ id. record {
        size = length-update_at i (λ y. record y { conn = some id }) ys ∙ sized;
        counters = t.counters;
        clean = c.1 id;
      },
    )

pub handle_connect-IsServer :
    (now : Clock) (m : AgwFrame) (ds : List Address) (s : Server)
    → IsServer s
    → Holds IsServer (handle_connect now m ds s)
unfolding handle_connect
handle_connect-IsServer now m ds s (r, q, t, k) =
    let o = alloc_in m.call_from m.call_to s.slots in
    connect_in-IsServer now m ds s o (r, q, t, k)
      (make-AllocOk s.cfg s.pending_frames s.slots o t
        (alloc_in-OneMore m.call_from m.call_to s.slots)
        (alloc_in-CleanBoth m.call_from m.call_to s.slots t.clean))
