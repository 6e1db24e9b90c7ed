-- ===== src/Router/Lifecycle.antt =====
-- ax25/router.go: the life of the ports of a router: registered, removed, stopped.
use go_ax.Base.{
  Bool-cases, List, Option, [], arith, false, inl, inr, none, refl, some, true, ℕ, ◌++◌, ◌==◌, ◌∙◌,
  ◌∷◌, ◌≡◌,
}
use go_ax.Types.{Frame}
use go_ax.Router.Port.{Port, deliver, start, stop, stop_panics}
use go_ax.Router.Table.{
  Outcome, PortId, Router, RouterError, RouterMode, close_router, contains,
  default_port_queue_depth, mode_bridge, mode_hub, mode_other, mode_switch, panicked, register_port,
  returned, unregister_port, update, waiting,
}
use go_ax.Router.Running.{AllRun, IsRunning, contains-append}
use go_ax.Router.Throughout.{send-Throughout}
use go_ax.Router.Dispatch.{bind_source, send, send_in}
use go_ax.Router.Echo.{Distinct}
use go_ax.Router.Ready.{
  AllFresh, AllFresh-cong, Goes, IsReady, close_router-IsReady, register_port-IsReady,
  unregister_port-IsReady,
}

-- A call of the router.
pub data Call : Type 0 where
  register unregister : PortId → Call
  sending : Option Frame → Option PortId → Call
  closing : Call

abbrev pub returning : Router × Option RouterError → Outcome
returning re = returned re.0 re.1

unfoldable pub call : Call → Router → Outcome
call (register i) r = register_port i r
call (unregister i) r = unregister_port i r
call (sending f src) r = returning (send f src r)
call closing r = close_router r

abbrev pub registered : List Call → List PortId
registered [] = []
registered (register i ∷ cs) = i ∷ registered cs
registered (unregister i ∷ cs) = registered cs
registered (sending f src ∷ cs) = registered cs
registered (closing ∷ cs) = registered cs

-- What holds of the router behind some calls; nothing holds behind a panic.
abbrev pub Behind : (Router → Type 0) → List Call → Router → Type 0
Behind Q [] r = Q r
Behind Q (c ∷ cs) r = Goes (Behind Q cs) (call c r)

AllRun-cong :
    (is : List PortId) (heap heap' : PortId → Port)
    → ((j : PortId) → ((heap' j).started ≡ (heap j).started) × ((heap' j).quit ≡ (heap j).quit))
    → AllRun is heap
    → AllRun is heap'
AllRun-cong [] heap heap' h a = tt
AllRun-cong (j ∷ js) heap heap' h a =
    (((h j).0 ∙ a.0.0, (h j).1 ∙ a.0.1), AllRun-cong js heap heap' h a.1)

send_in-ports :
    (m : RouterMode) (f : Frame) (src : PortId) (r : Router) → (send_in m f src r).0.ports ≡ r.ports
unfolding send_in
send_in-ports mode_switch f src r = refl
send_in-ports mode_bridge f src r = refl
send_in-ports mode_hub f src r = refl
send_in-ports mode_other f src r = refl

pub send-ports :
    (f : Option Frame) (src : Option PortId) (r : Router) → (send f src r).0.ports ≡ r.ports
unfolding send
send-ports none src r = refl
send-ports (some f) none r = refl
send-ports (some f) (some src) r = elim (Bool-cases r.closed) [
  | inl closed ↦ simp closed refl
  | inr ready ↦ simp ready (send_in-ports r.mode f src r)
]

deliver-started : (f : Frame) (p : Port) → (deliver f p).started ≡ p.started
unfolding deliver
deliver-started f p = ground arith

deliver-quit : (f : Frame) (p : Port) → (deliver f p).quit ≡ p.quit
unfolding deliver
deliver-quit f p = ground arith

bind_source-started : (f : Frame) (p : Port) → (bind_source f p).started ≡ p.started
unfolding bind_source
bind_source-started f p = ground arith

bind_source-quit : (f : Frame) (p : Port) → (bind_source f p).quit ≡ p.quit
unfolding bind_source
bind_source-quit f p = ground arith

pub send-IsReady :
    (f : Option Frame) (src : Option PortId) (ids : List PortId) (r : Router)
    → IsReady ids r
    → IsReady ids (send f src r).0
send-IsReady f src ids r h =
    let same =
      send-Throughout (λ j p. (p.started ≡ (r.heap j).started) × (p.quit ≡ (r.heap j).quit))
        (λ g j p k. (deliver-started g p ∙ k.0, deliver-quit g p ∙ k.1))
        (λ g j p k. (bind_source-started g p ∙ k.0, bind_source-quit g p ∙ k.1)) f src r
        (λ j. (refl, refl)) in
    (
      (
        rw (send-ports f src r) h.0.0,
        rw (send-ports f src r) (AllRun-cong r.ports r.heap _ same h.0.1),
      ),
      AllFresh-cong ids r.heap _ (λ j. (same j).0) h.1,
    )

call-IsReady :
    (c : Call) (cs : List Call) (r : Router)
    → Distinct (registered (c ∷ cs))
    → IsReady (registered (c ∷ cs)) r
    → Goes (IsReady (registered cs)) (call c r)
unfolding call
call-IsReady (register i) cs r d h = register_port-IsReady i (registered cs) r d.0 h
call-IsReady (unregister i) cs r d h = unregister_port-IsReady i (registered cs) r h
call-IsReady (sending f src) cs r d h = send-IsReady f src (registered cs) r h
call-IsReady closing cs r d h = close_router-IsReady (registered cs) r h

Distinct-registered :
    (c : Call) (cs : List Call) → Distinct (registered (c ∷ cs)) → Distinct (registered cs)
Distinct-registered (register i) cs d = d.1
Distinct-registered (unregister i) cs d = d
Distinct-registered (sending f src) cs d = d
Distinct-registered closing cs d = d

pub Goes-map :
    {P Q : Router → Type 0} (o : Outcome) → ((r : Router) → P r → Q r) → Goes P o → Goes Q o
Goes-map (returned r e) h g = h r g
Goes-map (waiting r) h g = h r g
Goes-map panicked h g = g

-- A router whose table names no port twice and whose ports' workers run goes through any sequence of
-- calls without a panic and stays such a router, if the ports that the calls register were never
-- started before and none of them is registered twice, not even after its removal. A call that waits for
-- ever, for a worker that never comes back, stays where it waits, and the others go on from there.
pub calls-IsRunning :
    (cs : List Call) (r : Router)
    → IsRunning r
    → Distinct (registered cs)
    → AllFresh (registered cs) r.heap
    → Behind IsRunning cs r
calls-IsRunning [] r h d f = h
calls-IsRunning (c ∷ cs) r h d f =
    Goes-map (call c r)
      (λ r' ready. calls-IsRunning cs r' ready.0 (Distinct-registered c cs d) ready.1)
      (call-IsReady c cs r d (h, f))

start-started : (n : ℕ) (p : Port) → p.started ≡ true → start n p ≡ p
unfolding start
start-started n p h = simp h refl

stop-stopped : (p : Port) → p.started ≡ true → p.quit ≡ true → stop p ≡ stop_panics
unfolding stop
stop-stopped p h k = simp (h, k) refl

==-refl : (i : ℕ) → (i == i) ≡ true
==-refl i = ground arith

contains-last : (is : List PortId) (i : PortId) → contains i (is ++ (i ∷ [])) ≡ true
unfolding contains
contains-last is i = contains-append is (i ∷ []) i ∙ ground arith

-- A port whose worker was stopped is registered again without an error, and the call that removes it
-- again panics: `start` makes a new quit channel only for a port that was never started.
pub register_port-again :
    (i : PortId) (r : Router)
    → r.closed ≡ false
    → contains i r.ports ≡ false
    → (r.heap i).started ≡ true
    → (r.heap i).quit ≡ true
    → (r' : Router) × ((register_port i r ≡ returned r' none) × (unregister_port i r' ≡ panicked))
unfolding register_port unregister_port
register_port-again i r ready absent started quit =
    let r' : Router = record r {
      ports = r.ports ++ (i ∷ []);
      heap = update r.heap i (start default_port_queue_depth (r.heap i));
    } in
    (
      r',
      (
        simp (ready, absent) refl,
        simp
            (
              contains-last r.ports i,
              ==-refl i,
              start-started default_port_queue_depth (r.heap i) started,
              stop-stopped (r.heap i) started quit,
            )
            refl,
      ),
    )
