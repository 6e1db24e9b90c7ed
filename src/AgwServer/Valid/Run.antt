-- ===== src/AgwServer/Valid/Run.antt =====
-- agwpe/server.go: every step of the server and its client keeps the server in order, and so does a run.
use mathlib.Core.Path.{subst}
use go_ax.Base.{
  ==_iff, All, Bool-cases, List, Option, [], ap, arith, inl, inr, length, map, none, refl,
  replicate, some, suc, zero, ℕ, ◌==◌, ◌∙◌, ◌∷◌, ◌≡◌,
}
use go_ax.AgwServer.{ConnSlot, Server, ServerConfig, Session, empty_slot, new_server, with_defaults}
use go_ax.AgwServer.Valid.{Holds, Holds-if, Holds-then, IsServer}
use go_ax.AgwServer.Valid.Handlers.{
  on_session-IsServer, send_monitor_to_client-IsServer, send_raw_to_client-IsServer,
}
use go_ax.Agwpe.{AgwFrame}
use go_ax.Agwpe.Monitor.{Clock}
use go_ax.Router.Table.{PortId, Router, update}
use go_ax.Types.{Frame}
use go_ax.Address.{equal}
use go_ax.AgwServer.Client.{
  ServerEvent, close_slot, close_slots, end_round, for_session, handle_messages, messages,
  on_router_frame, port_round, port_worker, pump, pump_from, reader_left, server_run, server_step,
  set_port, t1_fires, t2_fires, t3_fires, take_frame, timer_left, tx_pump_round,
}
use go_ax.Conn.Receive.{on_frame}
use go_ax.Router.Port.{Port, put_down, take_up}
use go_ax.Router.Running.{AllRun, Runs}
use go_ax.AgwServer.Lookup.{IsClean}
use go_ax.AgwServer.Slots.{freed}
use go_ax.AgwServer.Valid.Commands.{handle_kind-IsServer, on_listener-IsServer}
use go_ax.Conn.Calls.{close, on_t1_expired, on_t2_expired, on_t3_expired}
use go_ax.AgwServer.Valid.Ports.{RouterOk}

handle_messages-IsServer :
    (now : Clock) (ms : List AgwFrame) (s : Server)
    → IsServer s
    → Holds IsServer (handle_messages now ms s)
unfolding handle_messages
handle_messages-IsServer now [] s v = v
handle_messages-IsServer now (m ∷ ms) s v =
    Holds-then IsServer _ (handle_messages now ms) (handle_kind-IsServer now m s v)
      (handle_messages-IsServer now ms)

on_router_frame-IsServer :
    (now : Clock) (f : Frame) (s : Server) → IsServer s → Holds IsServer (on_router_frame now f s)
unfolding on_router_frame
on_router_frame-IsServer now f s v =
    Holds-then IsServer _ _
      (Holds-if IsServer s.raw_enabled _ (some s) (send_raw_to_client-IsServer f s v) v)
      λ t w.
        Holds-if IsServer t.monitor_enabled _ (some t) (send_monitor_to_client-IsServer now f t w) w

for_session-IsServer :
    (o : Option Session) (now : Clock) (id : PortId) (f : Frame) (s : Server)
    → IsServer s
    → Holds IsServer (for_session o now id f s)
for_session-IsServer none now id f s v = v
for_session-IsServer (some x) now id f s v =
    Holds-if IsServer (equal f.destination x.conn.local_addr) _ (some s)
      (on_session-IsServer now id (on_frame (λ c. c) f) s v) v

-- A port that runs, in place of a port that runs, leaves the ports of the table running.
set-AllRun :
    (is : List PortId) (heap : PortId → Port) (id : PortId) (p : Port)
    → (Runs (heap id) → Runs p)
    → AllRun is heap
    → AllRun is (update heap id p)
set-AllRun [] heap id p h a = tt
set-AllRun (j ∷ js) heap id p h a = elim (Bool-cases (j == id)) [
  | inl same ↦
      rw same
        (h (subst (λ k. Runs (heap k)) ((==_iff j id).0 same) a.0), set-AllRun js heap id p h a.1)
  | inr other ↦ rw other (a.0, set-AllRun js heap id p h a.1)
]

set_port-IsServer :
    (id : PortId) (p : Port) (s : Server)
    → (Runs (s.router.heap id) → Runs p)
    → IsServer s
    → IsServer (set_port id p s)
set_port-IsServer id p s h (((d, a), b), q, t, k) =
    (((d, set-AllRun s.router.ports s.router.heap id p h a), b), q, t, k)

end_round-IsServer :
    (id : PortId) (o : Option Server) → Holds IsServer o → Holds IsServer (end_round id o)
end_round-IsServer id none h = h
end_round-IsServer id (some s) v =
    Holds-if IsServer s.waits _ _ v
      (set_port-IsServer id (put_down (s.router.heap id)) s (λ r. r) v)

take_frame-IsServer :
    (fs : List Frame) (now : Clock) (id : PortId) (s : Server)
    → IsServer s
    → Holds IsServer (take_frame fs now id s)
take_frame-IsServer [] now id s v = v
take_frame-IsServer (f ∷ fs) now id s v =
    let p = take_up f fs (s.router.heap id) in
    let still = set_port-IsServer id p s (λ r. r) v in
    end_round-IsServer id _ (
      Holds-if IsServer (id == s.router_port) _ _
        (on_router_frame-IsServer now f (set_port id p s) still)
        (for_session-IsServer (s.sessions id) now id f (set_port id p s) still))

port_round-IsServer :
    (now : Clock) (id : PortId) (s : Server) → IsServer s → Holds IsServer (port_round now id s)
unfolding port_round
port_round-IsServer now id s v =
    Holds-if IsServer (s.router.heap id).busy (some s) _ v (take_frame-IsServer _ now id s v)

close_slot-IsServer :
    (now : Clock) (x : ConnSlot) (s : Server) → IsServer s → Holds IsServer (close_slot now x s)
close_slot-IsServer now x s v =
    Holds-if IsServer x.in_use _ (some s) (on_listener-IsServer now x.conn close s v) v

pub close_slots-IsServer :
    (now : Clock) (xs : List ConnSlot) (s : Server)
    → IsServer s
    → Holds IsServer (close_slots now xs s)
unfolding close_slots
close_slots-IsServer now [] s v = v
close_slots-IsServer now (x ∷ xs) s v =
    Holds-then IsServer _ (close_slots now xs) (close_slot-IsServer now x s v)
      (close_slots-IsServer now xs)

All-map-IsClean : (xs : List ConnSlot) → All IsClean (map freed xs)
All-map-IsClean [] = tt
All-map-IsClean (x ∷ xs) = (λ _. refl, All-map-IsClean xs)

length-map-freed : (xs : List ConnSlot) → length (map freed xs) ≡ length xs
length-map-freed [] = refl
length-map-freed (x ∷ xs) = ap suc (length-map-freed xs)

pub freed-IsServer : (s : Server) → IsServer s → IsServer (record s { slots = map freed s.slots })
freed-IsServer s (r, q, k, c) = (
  r,
  q,
  record {
    size = length-map-freed s.slots ∙ k.size;
    counters = k.counters;
    clean = All-map-IsClean s.slots;
  },
  c,
)

pump_from-IsServer :
    (ms : List AgwFrame) (s : Server) → s.tx_ch ≡ ms → IsServer s → IsServer (pump_from ms s).0
pump_from-IsServer [] s e v = v
pump_from-IsServer (m ∷ ms) s e (r, q, k, c) =
    (r, record { bounded = omega (arith, rw e at (q.bounded)); is_open = q.is_open }, k, c)

tx_pump_round-IsServer : (s : Server) → IsServer s → IsServer (tx_pump_round s).0
unfolding tx_pump_round
tx_pump_round-IsServer s v = pump_from-IsServer s.tx_ch s refl v

left-IsServer :
    (o : Option Server)
    → Holds IsServer o
    → Holds IsServer (reader_left o) × Holds IsServer (timer_left o)
left-IsServer none h = (h, h)
left-IsServer (some s) v = (v, v)

step-IsServer :
    (now : Clock) (e : ServerEvent) (s : Server) → IsServer s → Holds IsServer (server_step now e s)
unfolding server_step
step-IsServer now (messages ms) s v =
    Holds-if IsServer s.reader_waits (some s) _ v
      (left-IsServer _ (handle_messages-IsServer now ms s v)).0
step-IsServer now (port_worker id) s v = port_round-IsServer now id s v
step-IsServer now pump s v = tx_pump_round-IsServer s v
step-IsServer now (t1_fires id) s v =
    (left-IsServer _ (on_session-IsServer now id on_t1_expired s v)).1
step-IsServer now (t2_fires id) s v =
    (left-IsServer _ (on_session-IsServer now id on_t2_expired s v)).1
step-IsServer now (t3_fires id) s v =
    (left-IsServer _ (on_session-IsServer now id on_t3_expired s v)).1

-- From a server that is in order, whatever messages the client sends, whatever frames the workers of
-- the ports take, and whatever timers fire, in whatever order, each as a whole: nothing panics, and the
-- server is in order again. That is: the router runs; the queue to the client stays within its depth;
-- the numbers of slots and counters stay what the configuration says, and a slot that is not in use
-- holds nothing but, it may be, a port; no callsign is registered twice, and every listener's callsign
-- is registered. It does not say that every step ends: one that waits for ever for a worker, as a
-- worker does that takes the end of its own session and unregisters its port, stays where it waits, and
-- the server as it is there is in order and goes on with its other goroutines.
pub server_run-IsServer :
    (es : List (Clock × ServerEvent)) (s : Server) → IsServer s → Holds IsServer (server_run es s)
unfolding server_run
server_run-IsServer [] s v = v
server_run-IsServer ((now, e) ∷ es) s v =
    Holds-then IsServer _ (server_run es) (step-IsServer now e s v) (server_run-IsServer es)

replicate-IsClean : (n : ℕ) → All IsClean (replicate n empty_slot)
replicate-IsClean zero = tt
replicate-IsClean (suc n) = (λ _. refl, replicate-IsClean n)

length-replicate {ℓ} : {A : Type ℓ} (n : ℕ) (a : A) → length (replicate n a) ≡ n
length-replicate zero a = refl
length-replicate (suc n) a = ap suc (length-replicate n a)

-- A new server is in order, whatever its configuration, over a router that runs and whose ports all
-- have pointers before the next one.
pub new_server-IsServer :
    (cfg : ServerConfig) (r : Router) (own next : PortId)
    → RouterOk next r
    → IsServer (new_server cfg r own next)
unfolding new_server
new_server-IsServer cfg r own next ready =
    let n = (with_defaults cfg).max_conns in
    (
      ready,
      record { bounded = omega arith; is_open = refl },
      record {
        size = length-replicate n empty_slot;
        counters = length-replicate n 0;
        clean = replicate-IsClean n;
      },
      record { unrepeated = tt; all_listed = tt },
    )
