-- ===== src/AgwServer/Left.antt =====
-- agwpe/server.go: what is left of a client when it has gone, whatever happens meanwhile.
use go_ax.AgwServer.{ConnSlot, Server, Session, router_unregister, with_router, ◌>>>◌}
use go_ax.AgwServer.Callbacks.{on_session, run_callbacks, set_session, with_session}
use go_ax.AgwServer.Client.{
  Gap, close_tx, disconnect_all_slots, leave_client, listeners_gone, queue_closed, queue_made,
  reopen_tx, slots_freed,
}
use go_ax.AgwServer.Listeners.{stop_listeners, teardown_all_listeners}
use go_ax.AgwServer.Slots.{freed}
use go_ax.AgwServer.Valid.{Holds, IsServer, router_unregister-IsServer}
use go_ax.AgwServer.Valid.Run.{close_slots-IsServer, freed-IsServer}
use go_ax.AgwServer.Valid.Setup.{teardown_all_listeners-IsServer}
use go_ax.Agwpe.Monitor.{Clock}
use go_ax.Base.{
  All, Bool, Bytes, List, Option, [], arith, drop, false, if◌then◌else◌, length, map, none, refl,
  some, sym, true, ◌∙◌, ◌∷◌, ◌≡◌,
}
use go_ax.Conn.Calls.{close}
use go_ax.Router.Table.{Outcome, PortId, Router, panicked, returned, unregister_port, waiting}

-- What a step gives back, if it does not panic.
abbrev IfGiven : (Server → Type 0) → Option Server → Type 0
IfGiven P none = Unit
IfGiven P (some s) = P s

IfGiven-if :
    (P : Server → Type 0) (b : Bool) (o p : Option Server)
    → IfGiven P o
    → IfGiven P p
    → IfGiven P (if b then o else p)
IfGiven-if P true o p h k = h
IfGiven-if P false o p h k = k

IfGiven-then :
    (P : Server → Type 0) (o : Option Server) (next : Server → Option Server)
    → IfGiven P o
    → ((s : Server) → P s → IfGiven P (next s))
    → IfGiven P (o >>> next)
IfGiven-then P none next h k = tt
IfGiven-then P (some s) next h k = IfGiven-if P s.waits (some s) (next s) h (k s h)

both_given :
    (P Q : Server → Type 0) (o : Option Server) → Holds P o → IfGiven Q o → Holds (λ s. P s × Q s) o
both_given P Q none h k = h
both_given P Q (some s) h k = (h, k)

-- The server has the property, unless the goroutine waits.
abbrev pub Going : (Server → Type 0) → Server → Type 0
Going P s = s.waits ≡ false → P s

pub Holds-Going : (P : Server → Type 0) (o : Option Server) → Holds P o → Holds (Going P) o
Holds-Going P none h = h
Holds-Going P (some s) h = λ _. h

waits_not : true ≡ false → ⊥
waits_not h = cc

Holds-cases :
    (P : Server → Type 0) (b : Bool) (o p : Option Server)
    → (b ≡ true → Holds P o)
    → (b ≡ false → Holds P p)
    → Holds P (if b then o else p)
Holds-cases P true o p h k = h refl
Holds-cases P false o p h k = k refl

Going-then :
    (P Q : Server → Type 0) (o : Option Server) (next : Server → Option Server)
    → Holds (Going P) o
    → ((s : Server) → P s → Holds (Going Q) (next s))
    → Holds (Going Q) (o >>> next)
Going-then P Q none next h k = h
Going-then P Q (some s) next h k =
    Holds-cases (Going Q) s.waits (some s) (next s) (λ on off. absurd (waits_not (sym on ∙ off)))
      (λ off. k s (h off))

pub drop_all {ℓ} : {A : Type ℓ} (xs : List A) → drop (length xs) xs ≡ []
drop_all [] = refl
drop_all (x ∷ xs) = drop_all xs

-- No slot is in use.
abbrev pub Unused : Server → Type 0
Unused s = All (λ x. x.in_use ≡ false) s.slots

-- No slot is in use, and no callsign and no listener is registered.
abbrev pub Idle : Server → Type 0
Idle s = Unused s × (s.calls ≡ []) × (s.listeners ≡ [])

-- In order but for the queue, which may be closed.
abbrev pub Shut : Server → Type 0
Shut s = IsServer (reopen_tx s)

-- What a client leaves behind.
abbrev pub Cleared : Server → Type 0
Cleared s = Idle s × (s.raw_enabled ≡ false) × (s.monitor_enabled ≡ false) × (s.has_client ≡ false)

-- What has to be true behind each step of the end of `HandleConn`.
abbrev pub Behind : Gap → Server → Type 0
Behind queue_closed s = Shut s
Behind queue_made s = IsServer s
Behind slots_freed s = IsServer s × Unused s
Behind listeners_gone s = IsServer s × Idle s

module _ (P : Server → Type 0)
    (set_P : (id : PortId) (x : Option Session) (s : Server) → P s → P (set_session id x s))
    (router_P : (r : Router) (b : Bool) (s : Server)
      → P s
      → P (record s { router = r; waits = b })) where
  with_router-IfGiven : (s : Server) (o : Outcome) → P s → IfGiven P (with_router s o)
  with_router-IfGiven s (returned r e) h = router_P r s.waits s h
  with_router-IfGiven s (waiting r) h = router_P r true s h
  with_router-IfGiven s panicked h = tt

  router_unregister-IfGiven : (i : PortId) (s : Server) → P s → IfGiven P (router_unregister i s)
  unfolding router_unregister
  router_unregister-IfGiven i s h = with_router-IfGiven s (unregister_port i s.router) h

  -- Closing a session runs no callback.
  with_session-close :
      (o : Option Session) (now : Clock) (id : PortId) (s : Server)
      → P s
      → IfGiven P (with_session o now id close s)
  unfolding close run_callbacks
  with_session-close none now id s h = h
  with_session-close (some x) now id s h =
      rw (drop_all x.conn.ran) (set_P id (some (record x { conn = close x.conn })) s h)

  on_session-close :
      (now : Clock) (id : PortId) (s : Server) → P s → IfGiven P (on_session now id close s)
  unfolding on_session
  on_session-close now id s h = with_session-close (s.sessions id) now id s h

  stop_listeners-IfGiven :
      (now : Clock) (es : List (Bytes × PortId)) (s : Server)
      → P s
      → IfGiven P (stop_listeners now es s)
  unfolding stop_listeners
  stop_listeners-IfGiven now [] s h = h
  stop_listeners-IfGiven now (e ∷ es) s h =
      IfGiven-then P _ (stop_listeners now es)
        (IfGiven-then P _ (on_session now e.1 close) (router_unregister-IfGiven e.1 s h)
          (on_session-close now e.1))
        (stop_listeners-IfGiven now es)

All-map-freed : (xs : List ConnSlot) → All (λ x. x.in_use ≡ false) (map freed xs)
All-map-freed [] = tt
All-map-freed (x ∷ xs) = (refl, All-map-freed xs)

reopen_tx-IsServer : (s : Server) → IsServer s → Shut s
unfolding reopen_tx
reopen_tx-IsServer s (r, q, t, c) = (r, record { bounded = omega arith; is_open = refl }, t, c)

close_tx-Shut : (s : Server) → IsServer s → Holds (Going Shut) (close_tx s)
unfolding close_tx reopen_tx
close_tx-Shut s v =
    Going-then IsServer Shut _ _
      (Holds-Going IsServer _ (router_unregister-IsServer s.router_port s v))
      λ t w _. reopen_tx-IsServer t w

disconnect_all_slots-Unused :
    (now : Clock) (s : Server)
    → IsServer s
    → Holds (Going (Behind slots_freed)) (disconnect_all_slots now s)
unfolding disconnect_all_slots
disconnect_all_slots-Unused now s v =
    Going-then IsServer (Behind slots_freed) _ _
      (Holds-Going IsServer _ (close_slots-IsServer now s.slots s v))
      λ t w _. (freed-IsServer t w, All-map-freed t.slots)

teardown_all_listeners-Idle :
    (now : Clock) (s : Server)
    → Behind slots_freed s
    → Holds (Behind listeners_gone) (teardown_all_listeners now s)
unfolding teardown_all_listeners
teardown_all_listeners-Idle now s (v, u) =
    both_given IsServer Idle _ (teardown_all_listeners-IsServer now s v)
      (stop_listeners-IfGiven Idle (λ id x t k. k) (λ r b t k. k) now s.listeners _ (u, refl, refl))

-- When a client leaves a server that is in order, nothing panics, and unless `HandleConn` waits for
-- ever for a worker, the server is in order for the next client: no slot is in use, no callsign and no
-- listener is registered, and neither raw frames nor monitoring is on. Other goroutines may go on in
-- between: whatever they do, as long as they themselves panic nowhere, and keep a server in order that
-- is so; that includes, while the queue is closed, that nobody sends the client a message. Behind
-- `disconnectAllSlots` they take no slot, and behind `teardownAllListeners` register no callsign.
pub leave_client_lem :
    (now : Clock) (meanwhile : Gap → Server → Option Server) (s : Server)
    → ((g : Gap) (t : Server) → Behind g t → Holds (Going (Behind g)) (meanwhile g t))
    → IsServer s
    → Holds (Going (λ t. IsServer t × Cleared t)) (leave_client now meanwhile s)
unfolding leave_client
leave_client_lem now meanwhile s keeps v =
    Going-then _ _ _ _
      (Going-then _ _ _ _
        (Going-then _ _ _ _
          (Going-then _ _ _ _
            (Going-then _ _ _ _
              (Going-then _ _ _ _
                (Going-then _ _ _ _ (Going-then _ _ _ _ (close_tx-Shut s v) (keeps queue_closed))
                  λ t w _. w)
                (keeps queue_made))
              (disconnect_all_slots-Unused now))
            (keeps slots_freed))
          λ t w. Holds-Going _ _ (teardown_all_listeners-Idle now t w))
        (keeps listeners_gone))
      λ t (w, i) _. (w, (i, refl, refl, refl))
