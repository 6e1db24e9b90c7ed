-- ===== src/AgwServer/Refusals.antt =====
-- agwpe/server.go: what the server does with requests that it cannot carry out.
use go_ax.Base.{
  Bool, Bool-cases, Bytes, List, Option, [], ap, arith, false, get_or, if◌then◌else◌, inl, inr, leb,
  length, none, refl, some, suc, zero, ℕ, ◌%◌, ◌+◌, ◌<◌, ◌^◌, ◌∙◌, ◌∷◌, ◌≡◌, ◌⊎◌,
}
use go_ax.AgwServer.{ConnSlot, Server, Session}
use go_ax.AgwServer.Valid.{IsServer}
use go_ax.Types.{Address, Error, Result, err, ok}
use go_ax.Address.{parse_address}
use go_ax.AgwServer.Callbacks.{
  add_pending, free_slot, on_session, run_callbacks, set_session, with_session,
}
use go_ax.AgwServer.Commands.{handle_send_data}
use go_ax.AgwServer.Connect.{connect_in, connect_to, handle_connect}
use go_ax.AgwServer.Lookup.{GivesBack, alloc_in-GivesBack}
use go_ax.AgwServer.Slots.{alloc_in, find_in, slot_at, update_at}
use go_ax.Agwpe.{AgwFrame}
use go_ax.Agwpe.Monitor.{Clock}
use go_ax.Conn.Calls.{is_connected, send_data}
use go_ax.Conn.State.{CallError, Conn}
use go_ax.Router.Table.{PortId}
use go_ax.Bbs.Access.Line.{told}
use go_ax.AgwServer.Left.{drop_all}

-- A callsign that is no address.
abbrev pub IsWrong : Bytes → Type 0
IsWrong c = (e : Error) × (parse_address c ≡ err e)

connect_to-refused :
    (now : Clock) (i : ℕ) (m : AgwFrame) (l r : Result Address) (ds : List Address) (s : Server)
    → ((e : Error) × (l ≡ err e)) ⊎ ((e : Error) × (r ≡ err e))
    → connect_to now i m l r ds s ≡ some (free_slot i s)
connect_to-refused now i m (err e) r ds s h = refl
connect_to-refused now i m (ok l) (err e) ds s h = refl
connect_to-refused now i m (ok l) (ok r) ds s (inl (e, h)) = cc
connect_to-refused now i m (ok l) (ok r) ds s (inr (e, h)) = cc

connect_in-refused :
    (now : Clock) (m : AgwFrame) (ds : List Address) (s : Server) (o : Option (ℕ × List ConnSlot))
    → GivesBack s.slots o
    → IsWrong m.call_from ⊎ IsWrong m.call_to
    → connect_in now m ds s o ≡ some s
connect_in-refused now m ds s none g w = refl
connect_in-refused now m ds s (some (i, ys)) g w =
    connect_to-refused now i m (parse_address m.call_from) (parse_address m.call_to) ds
      (record s { slots = ys }) w
    ∙ ap (λ xs. some (record s { slots = xs })) g

-- A connect request with a callsign that is no address, the own or the remote one, leaves a server
-- that is in order exactly as it was: the slot that was taken for it is given back.
pub handle_connect-refused :
    (now : Clock) (m : AgwFrame) (ds : List Address) (s : Server)
    → IsServer s
    → IsWrong m.call_from ⊎ IsWrong m.call_to
    → handle_connect now m ds s ≡ some s
unfolding handle_connect
handle_connect-refused now m ds s (r, q, t, k) w =
    connect_in-refused now m ds s (alloc_in m.call_from m.call_to s.slots)
      (alloc_in-GivesBack m.call_from m.call_to s.slots t.clean) w

goes_on {ℓ} : {A : Type ℓ} (b : Bool) (x y : A) → b ≡ false → (if b then x else y) ≡ y
goes_on b x y h = rw h refl

none_is_no_error : {e : CallError} → none ≡ some e → ⊥
none_is_no_error h = cc

nothing_is_no_slot : {x : ConnSlot} → none ≡ some x → ⊥
nothing_is_no_slot h = cc

send_data-refused :
    (payload : Bytes) (c : Conn) (e : CallError)
    → (send_data payload c).1 ≡ some e
    → (send_data payload c).0 ≡ c
unfolding send_data
send_data-refused payload c e h = elim (Bool-cases (is_connected c)) [
  | inr off ↦ simp off refl
  | inl on ↦ elim (Bool-cases (leb c.cfg.window (length c.tx_queue))) [
    | inl crowded ↦ simp (on, crowded) refl
    | inr room ↦ absurd (none_is_no_error (simp (on, room) at h))
  ]
]

slot_at-bounded :
    (i : ℕ) (xs : List ConnSlot) (x : ConnSlot) → slot_at i xs ≡ some x → i < length xs
slot_at-bounded i [] x h = absurd (nothing_is_no_slot h)
slot_at-bounded zero (y ∷ ys) x h = omega arith
slot_at-bounded (suc i) (y ∷ ys) x h = omega (arith, slot_at-bounded i ys x h)

get_or-update_at :
    (i d : ℕ) (f : ℕ → ℕ) (xs : List ℕ)
    → i < length xs
    → get_or (update_at i f xs) i d ≡ f (get_or xs i d)
unfolding update_at
get_or-update_at i d f [] h = omega (arith, h)
get_or-update_at zero d f (x ∷ xs) h = refl
get_or-update_at (suc i) d f (x ∷ xs) h = get_or-update_at i d f xs (omega (arith, h))

with_session-same :
    (x : Session) (now : Clock) (id : PortId) (method : Conn → Conn) (s : Server)
    → method x.conn ≡ x.conn
    → with_session (some x) now id method s ≡ some (set_session id (some x) s)
unfolding run_callbacks
with_session-same x now id method s h = rw (h, drop_all x.conn.ran) refl

-- Data for a connection, in a server that is in order, that the session's `SendData` refuses, with
-- whatever error: the client is told nothing and no frame is sent, for the queue to the client and the
-- router are as they were, but the counter of the connection's outstanding frames is one more than it
-- was, modulo `2 ^ 64`. (The slot of the connection has a session, and the goroutine does not wait.)
pub handle_send_data-refused :
    (now : Clock) (m : AgwFrame) (s : Server) (i : ℕ) (x : ConnSlot) (id : PortId) (y : Session)
    (e : CallError)
    → IsServer s
    → s.waits ≡ false
    → find_in m.call_from m.call_to s.slots ≡ some i
    → slot_at i s.slots ≡ some x
    → x.conn ≡ some id
    → s.sessions id ≡ some y
    → (send_data m.payload y.conn).1 ≡ some e
    → (t : Server) × (handle_send_data now m s ≡ some t)
      × (get_or t.pending_frames i 0 ≡ (get_or s.pending_frames i 0 + 1) % 2 ^ 64)
      × (t.tx_ch ≡ s.tx_ch)
      × (t.router ≡ s.router)
unfolding handle_send_data on_session
handle_send_data-refused now m s i x id y e (r, q, k, c) runs found at here there told = (
  add_pending i 1 (set_session id (some y) s),
  simp
      (
        found,
        at,
        here,
        there,
        with_session-same y now id (λ c. (send_data m.payload c).0) s
            (send_data-refused m.payload y.conn e told),
      )
      (goes_on s.waits _ _ runs),
  get_or-update_at i 0 (λ p. (p + 1) % 2 ^ 64) s.pending_frames
      (omega (arith, slot_at-bounded i s.slots x at, k.size, k.counters)),
  refl,
  refl,
)
