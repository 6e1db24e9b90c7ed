-- ===== src/Conn/Alive.antt =====
-- ax25/conn.go: the timers of a session. What must run in a state, and how sending bears on it.
pub mod Numbered
pub mod Handlers
pub mod Run
use go_ax.Base.{
  Bool, List, [], arith, false, inl, inr, map, refl, suc, true, zero, ℕ, ◌<◌, ◌∷◌, ◌≡◌, ◌≢◌, ◌≤◌,
  ◌⊎◌,
}
use go_ax.Conn.State.{
  Conn, ConnState, PendingFrame, awaiting_connection, awaiting_release, connected, disconnected,
  timer_recovery,
}
use go_ax.Conn.Send.{
  is_held, retransmit_from, send_from, send_pending_i_frames, transmit, untransmit,
}
use go_ax.Conn.Valid.{IsValid, send_from-Kept}
use go_ax.Conn.Receive.{handle_received_nr}
use go_ax.Conn.Window.{Window}

-- What the timers must be in a state. Nothing is asked in the recovery, on which see
-- Conn/Retries.antt.
abbrev pub Alive : ConnState → Bool → Bool → Type 0
Alive disconnected t1 t3 = Unit
Alive awaiting_connection t1 t3 = t1 ≡ true
Alive awaiting_release t1 t3 = t1 ≡ true
Alive connected t1 t3 = (t1 ≡ true) ⊎ (t3 ≡ true)
Alive timer_recovery t1 t3 = Unit

abbrev pub IsAlive : Conn → Type 0
IsAlive c = Alive c.state c.t1_active c.t3_active

-- The same with nothing asked of a connected session.
abbrev pub Awaits : ConnState → Bool → Type 0
Awaits awaiting_connection t1 = t1 ≡ true
Awaits awaiting_release t1 = t1 ≡ true
Awaits _ t1 = Unit

abbrev pub IsWaiting : Conn → Type 0
IsWaiting c = IsValid c × Awaits c.state c.t1_active

-- Sending never stops T1.
send_from-t1 :
    (c : Conn) (q : List PendingFrame) → c.t1_active ≡ true → (send_from c q).0.t1_active ≡ true
unfolding send_from transmit
send_from-t1 c [] h = h
send_from-t1 c (p ∷ ps) h = ground (arith, send_from-t1 c ps h, send_from-t1 (transmit c p) ps)

Alive-mono :
    (s : ConnState) (t1 t1' t3 : Bool) → (t1 ≡ true → t1' ≡ true) → Alive s t1 t3 → Alive s t1' t3
Alive-mono disconnected t1 t1' t3 f h = h
Alive-mono awaiting_connection t1 t1' t3 f h = f h
Alive-mono awaiting_release t1 t1' t3 f h = f h
Alive-mono connected t1 t1' t3 f (inl h) = inl (f h)
Alive-mono connected t1 t1' t3 f (inr h) = inr h
Alive-mono timer_recovery t1 t1' t3 f h = h

pub send_pending-IsAlive : (c : Conn) → IsAlive c → IsAlive (send_pending_i_frames c)
unfolding send_pending_i_frames
send_pending-IsAlive c h =
    let k = send_from-Kept c c.tx_queue in
    rw (k.state, k.t3) (Alive-mono c.state c.t1_active _ c.t3_active (send_from-t1 c c.tx_queue) h)

send_from_first :
    (c : Conn) (p : PendingFrame) (ps : List PendingFrame)
    → p.transmitted ≡ false
    → is_held c ≡ false
    → (send_from c (p ∷ ps)).0.t1_active ≡ true
unfolding send_from transmit
send_from_first c p ps waits free = ground (arith, send_from-t1 (transmit c p) ps)

retransmitted-t1 :
    (c : Conn) (q : List PendingFrame)
    → q ≢ []
    → is_held c ≡ false
    → (send_from c (map untransmit q)).0.t1_active ≡ true
retransmitted-t1 c [] some_left free = absurd (some_left refl)
retransmitted-t1 c (p ∷ ps) some_left free =
    send_from_first c (untransmit p) (map untransmit ps) refl free

-- With a frame to send again, T1 runs.
retransmit-t1 :
    (c : Conn) (nr : ℕ)
    → c.va ≡ nr
    → nr < 8
    → c.peer_busy ≡ false
    → 1 ≤ c.cfg.window
    → c.tx_queue ≢ []
    → (retransmit_from nr c).t1_active ≡ true
unfolding retransmit_from send_pending_i_frames
retransmit-t1 c nr e small free pos some_left =
    retransmitted-t1 (record c { vs = nr; tx_queue = map untransmit c.tx_queue }) c.tx_queue
      some_left (ground arith)

pub Alive-t1 : (s : ConnState) (t3 : Bool) → Alive s true t3
Alive-t1 disconnected t3 = tt
Alive-t1 awaiting_connection t3 = refl
Alive-t1 awaiting_release t3 = refl
Alive-t1 connected t3 = inl refl
Alive-t1 timer_recovery t3 = tt

queue-ne-nil : (n va vs : ℕ) (q : List PendingFrame) → va ≢ vs → Window n va vs q → q ≢ []
queue-ne-nil zero va vs q left w = absurd (left w.0)
queue-ne-nil (suc n) va vs [] left w = absurd w
queue-ne-nil (suc n) va vs (p ∷ q) left w = λ e. cc

-- A session that goes back to a connected state is alive: nothing is outstanding and T3 runs, or the
-- frames left are sent again under T1.
pub retransmit-IsAlive :
    (c : Conn) (nr : ℕ)
    → IsValid c
    → c.va ≡ nr
    → c.peer_busy ≡ false
    → (c.va ≢ c.vs) ⊎ IsAlive c
    → IsAlive (retransmit_from nr c)
unfolding retransmit_from send_pending_i_frames
retransmit-IsAlive c nr v e free (inl left) =
    let again = record c { vs = nr; tx_queue = map untransmit c.tx_queue } in
    let k = send_from-Kept again again.tx_queue in
    let some_left = queue-ne-nil v.sent.0 c.va c.vs c.tx_queue left v.sent.1 in
    rw (k.state, k.t3, retransmit-t1 c nr e (omega (arith, v.va_small)) free v.window_pos some_left)
      (Alive-t1 c.state c.t3_active)
retransmit-IsAlive c nr v e free (inr alive) =
    send_pending-IsAlive (record c { vs = nr; tx_queue = map untransmit c.tx_queue }) alive

pub handle_received_nr-Alive :
    (nr : ℕ) (c : Conn)
    → (((handle_received_nr nr c).va ≢ c.vs) ⊎ ((handle_received_nr nr c).t3_active ≡ true))
      × Alive connected (handle_received_nr nr c).t1_active (handle_received_nr nr c).t3_active
unfolding handle_received_nr
handle_received_nr-Alive nr c = ground arith
