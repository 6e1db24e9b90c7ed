-- ===== src/Conn/Window.antt =====
-- ax25/conn.go: the sending window, that is what the queue, V(A) and V(S) say of one another.
use go_ax.Base.{
  All, Bool-cases, List, [], arith, drop, drop-nil, false, inl, inr, length, refl, suc, true, zero,
  ℕ, ◌%◌, ◌+◌, ◌-◌, ◌<◌, ◌↔◌, ◌∷◌, ◌≡◌, ◌≤◌,
}
use go_ax.Conn.State.{Conn, PendingFrame, mod8}
use go_ax.Conn.Receive.{ack_loop, is_valid_nr}
use go_ax.Conn.Send.{is_held, send_from, transmit}

abbrev pub AllWaiting : List PendingFrame → Type 0
AllWaiting q = All (λ (p : PendingFrame). p.transmitted ≡ false) q

-- The first `n` frames are sent and numbered from `va` on, up to `vs`; the others wait.
abbrev pub Window : ℕ → ℕ → ℕ → List PendingFrame → Type 0
Window zero va vs q = (va ≡ vs) × AllWaiting q
Window (suc n) va vs [] = ⊥
Window (suc n) va vs (p ∷ ps) =
    (p.transmitted ≡ true) × (p.ns ≡ va) × Window n (mod8 (va + 1)) vs ps

-- The steps from `va` to `nr`, modulo 8.
abbrev pub distance : ℕ → ℕ → ℕ
distance va nr = (nr + 8 - va) % 8

pub Window-le_length : (n va vs : ℕ) (q : List PendingFrame) → Window n va vs q → n ≤ length q
Window-le_length zero va vs q w = omega arith
Window-le_length (suc n) va vs [] w = absurd w
Window-le_length (suc n) va vs (p ∷ ps) w =
    omega (arith, Window-le_length n (mod8 (va + 1)) vs ps w.2)

pub Window-vs :
    (n va vs : ℕ) (q : List PendingFrame) → va < 8 → Window n va vs q → vs ≡ (va + n) % 8
Window-vs zero va vs q h w = omega (arith, w.0)
Window-vs (suc n) va vs [] h w = absurd w
Window-vs (suc n) va vs (p ∷ ps) h w =
    omega (arith, Window-vs n (mod8 (va + 1)) vs ps (omega arith) w.2)

-- A shorter window begins later.
pub Window-drop :
    (k m n va vs : ℕ) (q : List PendingFrame)
    → m ≡ k + n
    → va < 8
    → Window m va vs q
    → Window n ((va + k) % 8) vs (drop k q)
Window-drop zero m n va vs q e h w =
    let same : (va + 0) % 8 ≡ va = omega arith in
    let count : n ≡ m = omega arith in rw (same, count) w
Window-drop (suc k) zero n va vs q e h w = absurd (omega arith)
Window-drop (suc k) (suc m) n va vs [] e h w = absurd w
Window-drop (suc k) (suc m) n va vs (p ∷ ps) e h w =
    let step : (va + suc k) % 8 ≡ (mod8 (va + 1) + k) % 8 = omega arith in
    rw step (Window-drop k m n (mod8 (va + 1)) vs ps (omega arith) (omega arith) w.2)

-- With more fuel than the k steps, fewer than eight, from va up to nr modulo 8, the loop ends with
-- va at nr, has dropped one frame for each step, and has counted them.
pub ack_loop-eq :
    (k fuel nr va : ℕ) (q : List PendingFrame) (acked : ℕ)
    → k < fuel
    → k < 8
    → va < 8
    → nr ≡ (va + k) % 8
    → ack_loop fuel nr va q acked ≡ (nr, drop k q, acked + k)
unfolding ack_loop
ack_loop-eq k zero nr va q acked f small h e = absurd (omega arith)
ack_loop-eq zero (suc fuel) nr va q acked f small h e = ground arith
ack_loop-eq (suc k) (suc fuel) nr va [] acked f small h e =
    ground
      (arith, ack_loop-eq k fuel nr (mod8 (va + 1)) [] (acked + 1), drop-nil {A = PendingFrame} k)
ack_loop-eq (suc k) (suc fuel) nr va (p ∷ q) acked f small h e =
    ground (arith, ack_loop-eq k fuel nr (mod8 (va + 1)) q (acked + 1))

-- For three-bit numbers, an N(R) is valid exactly if it lies at most as far behind V(A), modulo 8, as
-- V(S) does.
pub is_valid_nr_iff :
    (va vs nr : ℕ)
    → va < 8
    → vs < 8
    → nr < 8
    → (is_valid_nr va vs nr ≡ true) ↔ (distance va nr ≤ distance va vs)
unfolding is_valid_nr
is_valid_nr_iff va vs nr a b c = (λ h. ground arith, λ h. ground arith)

-- What the loop of `send_pending_i_frames` makes of a queue.
pub length-send_from : (c : Conn) (q : List PendingFrame) → length (send_from c q).1 ≡ length q
unfolding send_from
length-send_from c [] = refl
length-send_from c (p ∷ ps) =
    ground (arith, length-send_from c ps, length-send_from (transmit c p) ps)

-- It changes V(S), T1 and the pending actions alone.
pub send_from-eq :
    (c : Conn) (q : List PendingFrame)
    → let c' = (send_from c q).0 in
      c' ≡ record c { vs = c'.vs; t1_active = c'.t1_active; pending_actions = c'.pending_actions }
unfolding send_from transmit
send_from-eq c [] = refl
send_from-eq c (p ∷ ps) = elim (Bool-cases p.transmitted) [
  | inl sent ↦ rw sent (send_from-eq c ps)
  | inr waits ↦ rw waits (elim (Bool-cases (is_held c)) [
    | inl held ↦ rw held
    | inr free ↦ rw free (send_from-eq (transmit c p) ps)
  ])
]

-- The frames that wait are sent from V(S) on, up to some of them.
send_from-waiting :
    (c : Conn) (q : List PendingFrame)
    → c.vs < 8
    → AllWaiting q
    → (n : ℕ) × Window n c.vs (send_from c q).0.vs (send_from c q).1 × ((send_from c q).0.vs < 8)
unfolding send_from transmit
send_from-waiting c [] h w = (0, (refl, tt), h)
send_from-waiting c (p ∷ ps) h w = rw (w.0) (elim (Bool-cases (is_held c)) [
  | inl held ↦ rw held (0, (refl, (refl, w.1)), h)
  | inr free ↦
      let (n, sent, small) = send_from-waiting (transmit c p) ps (omega arith) w.1 in
      rw free (suc n, (refl, refl, sent), small)
])

-- A window stays a window, at the same V(A), and none of its frames is taken back.
pub send_from-Window :
    (n : ℕ) (c : Conn) (va : ℕ) (q : List PendingFrame)
    → c.vs < 8
    → Window n va c.vs q
    → (m : ℕ) × (n ≤ m)
      × Window m va (send_from c q).0.vs (send_from c q).1
      × ((send_from c q).0.vs < 8)
unfolding send_from
send_from-Window zero c va q h w =
    let (m, sent, small) = send_from-waiting c q h w.1 in (m, omega arith, rw w.0 sent, small)
send_from-Window (suc n) c va [] h w = absurd w
send_from-Window (suc n) c va (p ∷ ps) h w =
    let (m, more, sent, small) = send_from-Window n c (mod8 (va + 1)) ps h w.2 in
    rw (w.0) (suc m, omega arith, (refl, w.1, sent), small)
