-- ===== src/AgwServer/Valid/Ports.antt =====
-- agwpe/server.go: the router behind the server, whose ports all go by pointers that were allocated.
use go_ax.Base.{
  Bool-cases, List, Option, [], arith, false, inl, inr, refl, suc, ◌++◌, ◌<◌, ◌∷◌, ◌≡◌,
}
use go_ax.Conn.Events.{run}
use go_ax.Router.Dispatch.{send}
use go_ax.Router.Lifecycle.{Goes-map, send-IsReady, send-ports}
use go_ax.Router.Port.{Port, Stopped, stop, stop_ends, stop_panics, stop_waits}
use go_ax.Router.Ready.{Goes, IsReady, register_port-IsReady, unregister_port-IsReady}
use go_ax.Router.Running.{AllRun-update, IsRunning}
use go_ax.Router.Table.{
  Outcome, PortId, Router, contains, panicked, register_port, remove, returned, stopped,
  unregister_port, update, waiting,
}
use go_ax.Types.{Frame}

abbrev pub AllBelow : PortId → List PortId → Type 0
AllBelow n [] = Unit
AllBelow n (i ∷ is) = (i < n) × AllBelow n is

-- The router runs, and no port of its table has the next pointer or a later one.
abbrev pub RouterOk : PortId → Router → Type 0
RouterOk n r = IsRunning r × AllBelow n r.ports

AllBelow-suc : (n : PortId) (is : List PortId) → AllBelow n is → AllBelow (suc n) is
AllBelow-suc n [] b = tt
AllBelow-suc n (i ∷ is) b = (omega arith, AllBelow-suc n is b.1)

AllBelow-append : (n : PortId) (is : List PortId) → AllBelow n is → AllBelow (suc n) (is ++ n ∷ [])
AllBelow-append n [] b = (omega arith, tt)
AllBelow-append n (i ∷ is) b = (omega arith, AllBelow-append n is b.1)

AllBelow-remove : (n i : PortId) (is : List PortId) → AllBelow n is → AllBelow n (remove i is)
unfolding remove
AllBelow-remove n i [] b = tt
AllBelow-remove n i (j ∷ is) b = ground (arith, b.0, b.1, AllBelow-remove n i is b.1)

contains_next : (n : PortId) (is : List PortId) → AllBelow n is → contains n is ≡ false
unfolding contains
contains_next n [] b = refl
contains_next n (i ∷ is) b = ground (arith, b.0, contains_next n is b.1)

-- What holds of the table behind a call, if it returns.
abbrev IfReturned : (Router → Type 0) → Outcome → Type 0
IfReturned Q (returned r e) = Q r
IfReturned Q (waiting r) = Q r
IfReturned Q panicked = Unit

both_go :
    (P Q : Router → Type 0) (o : Outcome) → Goes P o → IfReturned Q o → Goes (λ r. P r × Q r) o
both_go P Q (returned r e) p q = (p, q)
both_go P Q (waiting r) p q = (p, q)
both_go P Q panicked p q = p

-- No pointer is registered before, in a list that names none.
pub no_ids : (i : PortId) → contains i [] ≡ false
unfolding contains
no_ids i = refl

register_port-AllBelow :
    (n : PortId) (r : Router)
    → AllBelow n r.ports
    → IfReturned (λ q. AllBelow (suc n) q.ports) (register_port n r)
unfolding register_port
register_port-AllBelow n r b = elim (Bool-cases r.closed) [
  | inl closed ↦ simp closed (AllBelow-suc n r.ports b)
  | inr ready ↦ simp (ready, contains_next n r.ports b) (AllBelow-append n r.ports b)
]

fresh_heap :
    (heap : PortId → Port) (i : PortId) (p : Port)
    → p.started ≡ false
    → (update heap i p i).started ≡ false
fresh_heap heap i p h = ground (arith, h)

-- Registering the next pointer, over a port that was never started, does not panic.
pub register_port-RouterOk :
    (n : PortId) (p : Port) (r : Router)
    → p.started ≡ false
    → RouterOk n r
    → Goes (RouterOk (suc n)) (register_port n (record r { heap = update r.heap n p }))
register_port-RouterOk n p r fresh (run, b) =
    let held = record r { heap = update r.heap n p } in
    let kept : IsReady (n ∷ []) held = (
      (run.0, AllRun-update r.ports r.heap n p (contains_next n r.ports b) run.1),
      (fresh_heap r.heap n p fresh, tt),
    ) in
    both_go IsRunning (λ q. AllBelow (suc n) q.ports) (register_port n held)
      (Goes-map (register_port n held) (λ q ready. ready.0)
        (register_port-IsReady n [] held (no_ids n) kept))
      (register_port-AllBelow n held b)

stopped-AllBelow :
    (n i : PortId) (r : Router) (o : Stopped Port)
    → AllBelow n r.ports
    → IfReturned (λ q. AllBelow n q.ports) (stopped i r o)
stopped-AllBelow n i r stop_panics b = tt
stopped-AllBelow n i r (stop_ends p) b = b
stopped-AllBelow n i r (stop_waits p) b = b

unregister_port-AllBelow :
    (n i : PortId) (r : Router)
    → AllBelow n r.ports
    → IfReturned (λ q. AllBelow n q.ports) (unregister_port i r)
unfolding unregister_port
unregister_port-AllBelow n i r b = elim (Bool-cases (contains i r.ports)) [
  | inl found ↦ rw found (
      stopped-AllBelow n i (record r { ports = remove i r.ports }) (stop (r.heap i))
        (AllBelow-remove n i r.ports b))
  | inr absent ↦ rw absent b
]

pub unregister_port-RouterOk :
    (n i : PortId) (r : Router) → RouterOk n r → Goes (RouterOk n) (unregister_port i r)
unregister_port-RouterOk n i r (run, b) =
    both_go IsRunning (λ q. AllBelow n q.ports) (unregister_port i r)
      (Goes-map (unregister_port i r) (λ q ready. ready.0)
        (unregister_port-IsReady i [] r (run, tt)))
      (unregister_port-AllBelow n i r b)

pub send-RouterOk :
    (n : PortId) (f : Option Frame) (src : Option PortId) (r : Router)
    → RouterOk n r
    → RouterOk n (send f src r).0
send-RouterOk n f src r (run, b) =
    ((send-IsReady f src [] r (run, tt)).0, rw (send-ports f src r) b)

AllBelow-append_old :
    (n i : PortId) (is : List PortId) → i < n → AllBelow n is → AllBelow n (is ++ i ∷ [])
AllBelow-append_old n i [] h b = (h, tt)
AllBelow-append_old n i (j ∷ is) h b = (b.0, AllBelow-append_old n i is h b.1)

register_own-AllBelow :
    (n i : PortId) (r : Router)
    → i < n
    → AllBelow n r.ports
    → IfReturned (λ q. AllBelow n q.ports) (register_port i r)
unfolding register_port
register_own-AllBelow n i r h b = elim (Bool-cases r.closed) [
  | inl closed ↦ simp closed b
  | inr ready ↦ elim (Bool-cases (contains i r.ports)) [
    | inl found ↦ simp (ready, found) b
    | inr absent ↦ simp (ready, absent) (AllBelow-append_old n i r.ports h b)
  ]
]

-- Registering a port that is made anew behind an old pointer, which is not registered, does not panic.
pub register_own-RouterOk :
    (n i : PortId) (p : Port) (r : Router)
    → p.started ≡ false
    → i < n
    → contains i r.ports ≡ false
    → RouterOk n r
    → Goes (RouterOk n) (register_port i (record r { heap = update r.heap i p }))
register_own-RouterOk n i p r fresh h absent (run, b) =
    let held = record r { heap = update r.heap i p } in
    both_go IsRunning (λ q. AllBelow n q.ports) (register_port i held)
      (Goes-map (register_port i held) (λ q ready. ready.0)
        (register_port-IsReady i [] held (no_ids i) (
          (run.0, AllRun-update r.ports r.heap i p absent run.1),
          (fresh_heap r.heap i p fresh, tt),
        )))
      (register_own-AllBelow n i held h b)
