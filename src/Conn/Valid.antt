-- ===== src/Conn/Valid.antt =====
-- ax25/conn.go: the invariant of a session on its sequence variables and its queue, and the helpers.
pub mod Handlers
pub mod Run
use go_ax.Base.{
  List, [], ap, arith, drop, length, length-drop, map, refl, suc, true, ℕ, ◌%◌, ◌+◌, ◌-◌, ◌<◌, ◌∷◌,
  ◌≡◌, ◌≤◌,
}
use go_ax.Conn.State.{Conn, PendingFrame}
use go_ax.Conn.Send.{outstanding, retransmit_from, send_from, send_pending_i_frames, untransmit}
use go_ax.Conn.Receive.{ack_loop, handle_received_nr, is_valid_nr}
use go_ax.Conn.Window.{
  AllWaiting, Window, Window-drop, Window-le_length, Window-vs, ack_loop-eq, distance,
  is_valid_nr_iff, length-send_from, send_from-Window, send_from-eq,
}

pub record IsOpenWindow (window vs vr va : ℕ) (queue : List PendingFrame) : Type 0 where
  pub window_pos : 1 ≤ window
  pub window_small : window ≤ 7
  pub vs_small : vs < 8
  pub vr_small : vr < 8
  pub va_small : va < 8
  pub room : length queue ≤ window
  pub sent : (n : ℕ) × Window n va vs queue

abbrev pub IsValid : Conn → Type 0
IsValid c = IsOpenWindow c.cfg.window c.vs c.vr c.va c.tx_queue

-- What sending leaves alone.
pub record Kept (c c' : Conn) : Type 0 where
  pub cfg : c'.cfg ≡ c.cfg
  pub cbs : c'.cbs ≡ c.cbs
  pub state : c'.state ≡ c.state
  pub va : c'.va ≡ c.va
  pub vr : c'.vr ≡ c.vr
  pub t3 : c'.t3_active ≡ c.t3_active

pub send_from-Kept : (c : Conn) (q : List PendingFrame) → Kept c (send_from c q).0
send_from-Kept c q =
    let e = send_from-eq c q in
    record {
      cfg = ap (λ (c : Conn). c.cfg) e;
      cbs = ap (λ (c : Conn). c.cbs) e;
      state = ap (λ (c : Conn). c.state) e;
      va = ap (λ (c : Conn). c.va) e;
      vr = ap (λ (c : Conn). c.vr) e;
      t3 = ap (λ (c : Conn). c.t3_active) e;
    }

pub send_pending_i_frames-IsValid : (c : Conn) → IsValid c → IsValid (send_pending_i_frames c)
unfolding send_pending_i_frames
send_pending_i_frames-IsValid c v =
    let k = send_from-Kept c c.tx_queue in
    let (m, more, w, small) = send_from-Window v.sent.0 c c.va c.tx_queue v.vs_small v.sent.1 in
    record {
      window_pos = rw k.cfg v.window_pos;
      window_small = rw k.cfg v.window_small;
      vs_small = small;
      vr_small = rw k.vr v.vr_small;
      va_small = rw k.va v.va_small;
      room = rw k.cfg (omega (arith, v.room, length-send_from c c.tx_queue));
      sent = rw k.va (m, w);
    }

untransmit-AllWaiting : (q : List PendingFrame) → AllWaiting (map untransmit q)
untransmit-AllWaiting [] = tt
untransmit-AllWaiting (p ∷ ps) = (refl, untransmit-AllWaiting ps)

length-untransmit : (q : List PendingFrame) → length (map untransmit q) ≡ length q
length-untransmit [] = refl
length-untransmit (p ∷ ps) = ap suc (length-untransmit ps)

-- Going back to V(A) keeps the invariant.
pub retransmit_from-IsValid :
    (nr : ℕ) (c : Conn) → IsValid c → c.va ≡ nr → IsValid (retransmit_from nr c)
unfolding retransmit_from
retransmit_from-IsValid nr c v e =
    send_pending_i_frames-IsValid (record c { vs = nr; tx_queue = map untransmit c.tx_queue })
      (record {
        window_pos = v.window_pos;
        window_small = v.window_small;
        vs_small = rw (← e) v.va_small;
        vr_small = v.vr_small;
        va_small = v.va_small;
        room = omega (arith, v.room, length-untransmit c.tx_queue);
        sent = (0, (e, untransmit-AllWaiting c.tx_queue));
      })

-- The outstanding frames are those that are sent.
pub outstanding_lem : (c : Conn) (v : IsValid c) → outstanding c.vs c.va ≡ v.sent.0
outstanding_lem c v = omega (
  arith,
  Window-vs v.sent.0 c.va c.vs c.tx_queue v.va_small v.sent.1,
  Window-le_length v.sent.0 c.va c.vs c.tx_queue v.sent.1,
  v.room,
  v.window_small,
  v.va_small,
)

-- A session that meets the invariant has at most `window` frames outstanding.
pub outstanding-le-window : (c : Conn) → IsValid c → outstanding c.vs c.va ≤ c.cfg.window
outstanding-le-window c v =
    omega
      (arith, outstanding_lem c v, Window-le_length v.sent.0 c.va c.vs c.tx_queue v.sent.1, v.room)

-- The closed form of the loop of `handle_received_nr`.
pub ack_loop-distance :
    (c : Conn) (nr : ℕ)
    → IsValid c
    → nr < 8
    → ack_loop 8 nr c.va c.tx_queue 0
      ≡ (nr, drop (distance c.va nr) c.tx_queue, 0 + distance c.va nr)
ack_loop-distance c nr v small =
    ack_loop-eq (distance c.va nr) 8 nr c.va c.tx_queue 0 (omega arith) (omega arith) v.va_small
      (omega (arith, v.va_small))

pub handle_received_nr-IsValid :
    (nr : ℕ) (c : Conn)
    → IsValid c
    → nr < 8
    → is_valid_nr c.va c.vs nr ≡ true
    → IsValid (handle_received_nr nr c) × ((handle_received_nr nr c).va ≡ nr)
unfolding handle_received_nr
handle_received_nr-IsValid nr c v small valid =
    let k = distance c.va nr in
    let n = v.sent.0 in
    let near = (is_valid_nr_iff c.va c.vs nr v.va_small v.vs_small small).0 valid in
    let e = ack_loop-distance c nr v small in
    let fits : n ≡ k + (n - k) = omega (arith, outstanding_lem c v, near, v.va_small, v.vs_small) in
    let here : (c.va + k) % 8 ≡ nr = omega (arith, v.va_small) in
    rw e (
      record {
        window_pos = v.window_pos;
        window_small = v.window_small;
        vs_small = v.vs_small;
        vr_small = v.vr_small;
        va_small = small;
        room = omega (arith, v.room, length-drop {0} k c.tx_queue);
        sent = (
          n - k,
          rw here at (Window-drop k n (n - k) c.va c.vs c.tx_queue fits v.va_small v.sent.1),
        );
      },
      refl,
    )
