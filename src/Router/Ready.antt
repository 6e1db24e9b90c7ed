-- ===== src/Router/Ready.antt =====
-- ax25/router.go: routers that are ready for ports that were never started, call by call.
use go_ax.Base.{
  ==_iff, Bool, Bool-cases, List, [], ap, arith, false, if◌then◌else◌, inl, inr, refl, sym, true, ℕ,
  ◌==◌, ◌∙◌, ◌∷◌, ◌≡◌,
}
use go_ax.Router.Port.{Port, Stopped, start, stop, stop_ends, stop_panics, stop_waits}
use go_ax.Router.Table.{
  Outcome, PortId, Router, close_router, closed_with, contains, default_port_queue_depth, panicked,
  register_port, remove, returned, stop_ports, stopped, unregister_port, update, waiting,
}
use go_ax.Router.Running.{
  AllRun, AllRun-append, AllRun-contains, AllRun-remove, AllRun-update, Distinct-append,
  Distinct-remove, IsRunning, Runs, contains-remove,
}
use go_ax.Router.Echo.{Distinct}

-- What holds of the router behind a call, whatever error it returns, or where a call waits; nothing
-- holds behind a panic.
abbrev pub Goes : (Router → Type 0) → Outcome → Type 0
Goes Q (returned r e) = Q r
Goes Q (waiting r) = Q r
Goes Q panicked = ⊥

-- Ports that were never started.
abbrev pub AllFresh : List PortId → (PortId → Port) → Type 0
AllFresh [] heap = Unit
AllFresh (i ∷ is) heap = ((heap i).started ≡ false) × AllFresh is heap

AllFresh-update :
    (is : List PortId) (heap : PortId → Port) (i : PortId) (p : Port)
    → contains i is ≡ false
    → AllFresh is heap
    → AllFresh is (update heap i p)
unfolding contains
AllFresh-update [] heap i p h a = tt
AllFresh-update (j ∷ js) heap i p h a =
    (ground (arith, a.0, h), AllFresh-update js heap i p (ground (arith, h)) a.1)

pub AllFresh-cong :
    (is : List PortId) (heap heap' : PortId → Port)
    → ((j : PortId) → (heap' j).started ≡ (heap j).started)
    → AllFresh is heap
    → AllFresh is heap'
AllFresh-cong [] heap heap' h a = tt
AllFresh-cong (j ∷ js) heap heap' h a = (h j ∙ a.0, AllFresh-cong js heap heap' h a.1)

update-started :
    (heap : PortId → Port) (i : PortId) (p : Port)
    → p.started ≡ (heap i).started
    → (j : PortId) → (update heap i p j).started ≡ (heap j).started
update-started heap i p h j = elim (Bool-cases (j == i)) [
  | inl same ↦ rw same (h ∙ ap (λ k. (heap k).started) (sym ((==_iff j i).0 same)))
  | inr other ↦ rw other refl
]

-- The router runs, and the ports that are to be registered were never started.
abbrev pub IsReady : List PortId → Router → Type 0
IsReady ids r = IsRunning r × AllFresh ids r.heap

pub start-Runs : (n : ℕ) (p : Port) → p.started ≡ false → Runs (start n p)
unfolding start
start-Runs n p h = ground (arith, h)

-- What `stop` does to a port that runs.
abbrev told_to_stop : Port → Stopped Port
told_to_stop p =
    if p.busy then stop_waits (record p { quit = true }) else stop_ends (record p { quit = true })

stop-running : (p : Port) → Runs p → stop p ≡ told_to_stop p
unfolding stop
stop-running p h = simp (h.0, h.1) refl

stopped-Goes :
    (Q : Router → Type 0) (i : PortId) (r : Router) (p : Port) (b : Bool)
    → Q (record r { heap = update r.heap i p })
    → Goes Q (stopped i r (if b then stop_waits p else stop_ends p))
stopped-Goes Q i r p true h = h
stopped-Goes Q i r p false h = h

update-Runs : (heap : PortId → Port) (i : PortId) (p : Port) → Runs p → Runs (update heap i p i)
update-Runs heap i p r = ground (arith, r.0, r.1)

pub register_port-IsReady :
    (i : PortId) (ids : List PortId) (r : Router)
    → contains i ids ≡ false
    → IsReady (i ∷ ids) r
    → Goes (IsReady ids) (register_port i r)
unfolding register_port
register_port-IsReady i ids r new h = elim (Bool-cases r.closed) [
  | inl closed ↦ simp closed (h.0, h.1.1)
  | inr ready ↦ elim (Bool-cases (contains i r.ports)) [
    | inl found ↦ simp (ready, found) (h.0, h.1.1)
    | inr absent ↦
        let p = start default_port_queue_depth (r.heap i) in
        simp (ready, absent)
          (
            (
              Distinct-append r.ports i absent h.0.0,
              AllRun-append r.ports (update r.heap i p) i
                  (AllRun-update r.ports r.heap i p absent h.0.1)
                  (update-Runs r.heap i p (start-Runs default_port_queue_depth (r.heap i) h.1.0)),
            ),
            AllFresh-update ids r.heap i p new h.1.1,
          )
  ]
]

pub unregister_port-IsReady :
    (i : PortId) (ids : List PortId) (r : Router)
    → IsReady ids r
    → Goes (IsReady ids) (unregister_port i r)
unfolding unregister_port
unregister_port-IsReady i ids r h = elim (Bool-cases (contains i r.ports)) [
  | inl found ↦
      let p = record (r.heap i) { quit = true } in
      simp (found, stop-running (r.heap i) (AllRun-contains r.ports r.heap i h.0.1 found))
        (stopped-Goes (IsReady ids) i (record r { ports = remove i r.ports }) p (r.heap i).busy
          (
            (
              Distinct-remove r.ports i h.0.0,
              AllRun-update (remove i r.ports) r.heap i p
                  (contains-remove r.ports i i h.0.0 ∙ ground arith)
                  (AllRun-remove r.ports r.heap i h.0.1),
            ),
            AllFresh-cong ids r.heap (update r.heap i p) (update-started r.heap i p refl) h.1,
          ))
  | inr absent ↦ simp absent h
]

-- Stopping some ports does not panic and starts none.
abbrev Stops : List PortId → Stopped (PortId → Port) → Type 0
Stops ids stop_panics = ⊥
Stops ids (stop_ends heap) = AllFresh ids heap
Stops ids (stop_waits heap) = AllFresh ids heap

Stops-one :
    (ids is : List PortId) (heap : PortId → Port) (i : PortId) (p : Port) (b : Bool)
    → AllFresh ids (update heap i p)
    → Stops ids (stop_ports is (update heap i p))
    → Stops ids (elim (if b then stop_waits p else stop_ends p) [
      | stop_panics ↦ stop_panics
      | stop_waits q ↦ stop_waits (update heap i q)
      | stop_ends q ↦ stop_ports is (update heap i q)
    ])
Stops-one ids is heap i p true h k = h
Stops-one ids is heap i p false h k = k

stop_ports-Stops :
    (is ids : List PortId) (heap : PortId → Port)
    → Distinct is
    → AllRun is heap
    → AllFresh ids heap
    → Stops ids (stop_ports is heap)
unfolding stop_ports contains
stop_ports-Stops [] ids heap d a h = h
stop_ports-Stops (i ∷ is) ids heap d a h =
    let p = record (heap i) { quit = true } in
    let fresh = AllFresh-cong ids heap (update heap i p) (update-started heap i p refl) h in
    let later =
      stop_ports-Stops is ids (update heap i p) d.1 (AllRun-update is heap i p d.0 a.1) fresh in
    rw (stop_ports, stop-running (heap i) a.0) (Stops-one ids is heap i p (heap i).busy fresh later)

pub close_router-IsReady :
    (ids : List PortId) (r : Router) → IsReady ids r → Goes (IsReady ids) (close_router r)
unfolding close_router
close_router-IsReady ids r h =
    elim (stop_ports r.ports r.heap) as (λ o. Stops ids o → Goes (IsReady ids) (closed_with r o)) [
      | stop_panics ↦ λ s. s
      | stop_ends heap ↦ λ s. ((tt, tt), s)
      | stop_waits heap ↦ λ s. ((tt, tt), s)
    ]
      (stop_ports-Stops r.ports ids r.heap h.0.0 h.0.1 h.1)
