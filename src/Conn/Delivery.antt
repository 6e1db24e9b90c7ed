-- ===== src/Conn/Delivery.antt =====
-- ax25/conn.go: the data that is passed up to the application, and what sending does to it.
pub mod Received
pub mod Called
pub mod Run
use Prim.Native.String.{String}
use go_ax.Base.{
  Bool, Bool-cases, Bytes, List, [], ap, append-nil, append_assoc, false, if◌then◌else◌, inl, inr,
  refl, sym, true, ℕ, ◌++◌, ◌∙◌, ◌∷◌, ◌≡◌,
}
use go_ax.Types.{Frame}
use go_ax.Conn.State.{
  Action, Conn, ErrorCode, PendingFrame, enter_disconnected, fire_error, on_data, on_disconnect,
  on_error, on_tx_ack, on_tx_frame, run_pending_actions,
}
use go_ax.Conn.Send.{
  i_frame, is_held, retransmit_from, send_from, send_pending_i_frames, transmit, tx,
}
use go_ax.Conn.Receive.{handle_received_nr}

abbrev pub data_of : Action → List Bytes
data_of (on_data d) = d ∷ []
data_of _ = []

-- The payloads that some actions pass up.
unfoldable pub data_in : List Action → List Bytes
data_in [] = []
data_in (a ∷ later) = data_of a ++ data_in later

pub data_in-append :
    (now later : List Action) → data_in (now ++ later) ≡ data_in now ++ data_in later
unfolding data_in
data_in-append [] later = refl
data_in-append (a ∷ now) later =
    ap (λ ds. data_of a ++ ds) (data_in-append now later)
    ∙ sym (append_assoc (data_of a) (data_in now) (data_in later))

pub data_in-one : (a : Action) → data_in (a ∷ []) ≡ data_of a
unfolding data_in
data_in-one a = append-nil (data_of a)

-- The payloads passed up so far, those of the pending actions included.
abbrev pub passed : Conn → List Bytes
passed c = data_in (c.ran ++ c.pending_actions)

pub enqueued :
    (b : Bool) (a : Action) (ran pending : List Action)
    → data_in (ran ++ (if b then pending ++ (a ∷ []) else pending))
      ≡ data_in (ran ++ pending) ++ (if b then data_of a else [])
enqueued true a ran pending =
    ap data_in (sym (append_assoc ran pending (a ∷ [])))
    ∙ data_in-append (ran ++ pending) (a ∷ [])
    ∙ ap (λ ds. data_in (ran ++ pending) ++ ds) (data_in-one a)
enqueued false a ran pending = sym (append-nil (data_in (ran ++ pending)))

-- An action that passes nothing up.
pub quiet :
    (b : Bool) (a : Action) (ran pending : List Action)
    → data_of a ≡ []
    → data_in (ran ++ (if b then pending ++ (a ∷ []) else pending)) ≡ data_in (ran ++ pending)
quiet true a ran pending h =
    enqueued true a ran pending ∙ rw h (append-nil (data_in (ran ++ pending)))
quiet false a ran pending h = refl

pub if_passed :
    (b : Bool) (x y : Conn) {ds : List Bytes}
    → passed x ≡ ds
    → passed y ≡ ds
    → passed (if b then x else y) ≡ ds
if_passed true x y h k = h
if_passed false x y h k = k

-- Running the pending actions passes up nothing new.
pub ran_pending : (c : Conn) → passed (run_pending_actions c) ≡ passed c
ran_pending c = ap data_in (append-nil (c.ran ++ c.pending_actions))

transmit-passed : (c : Conn) (p : PendingFrame) → passed (transmit c p) ≡ passed c
unfolding transmit
transmit-passed c p =
    quiet c.cbs.has_on_tx_frame (on_tx_frame (i_frame c p)) c.ran c.pending_actions refl

send_from-passed : (c : Conn) (q : List PendingFrame) → passed (send_from c q).0 ≡ passed c
unfolding send_from transmit
send_from-passed c [] = refl
send_from-passed c (p ∷ ps) = elim (Bool-cases p.transmitted) [
  | inl sent ↦ rw sent (send_from-passed c ps)
  | inr waits ↦ rw waits (elim (Bool-cases (is_held c)) [
    | inl held ↦ rw held refl
    | inr free ↦ rw free (send_from-passed (transmit c p) ps ∙ transmit-passed c p)
  ])
]

pub send_pending-passed : (c : Conn) → passed (send_pending_i_frames c) ≡ passed c
unfolding send_pending_i_frames
send_pending-passed c = send_from-passed c c.tx_queue

pub retransmit-passed : (nr : ℕ) (c : Conn) → passed (retransmit_from nr c) ≡ passed c
unfolding retransmit_from
retransmit-passed nr c = send_pending-passed _

pub received_nr-passed : (nr : ℕ) (c : Conn) → passed (handle_received_nr nr c) ≡ passed c
unfolding handle_received_nr
received_nr-passed nr c = quiet _ (on_tx_ack _) c.ran c.pending_actions refl

pub tx-passed : (f : Frame) (c : Conn) → passed (tx f c) ≡ passed c
tx-passed f c = quiet c.cbs.has_on_tx_frame (on_tx_frame f) c.ran c.pending_actions refl

pub left-passed : (c : Conn) → passed (enter_disconnected c) ≡ passed c
left-passed c = quiet c.cbs.has_on_disconnect on_disconnect c.ran c.pending_actions refl

pub error-passed :
    (code : ErrorCode) (m : String) (n : ℕ) (c : Conn) → passed (fire_error code m n c) ≡ passed c
error-passed code m n c =
    quiet c.cbs.has_on_error (on_error (record { code = code; message = m; retry_count = n })) c.ran
      c.pending_actions refl
