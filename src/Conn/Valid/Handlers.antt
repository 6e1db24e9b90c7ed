-- ===== src/Conn/Valid/Handlers.antt =====
-- ax25/conn.go: the invariant in the handlers of received frames.
use go_ax.Base.{Bool, Bool-cases, [], arith, false, inl, inr, refl, true, ℕ, ◌++◌, ◌<◌, ◌∷◌, ◌≡◌}
use go_ax.Types.{Frame, FrameType, frame_i, frame_s, frame_u, frame_ui, frame_unknown}
use go_ax.Frame.{extract_nr, has_pf}
use go_ax.Conn.State.{
  Conn, ConnState, awaiting_connection, awaiting_release, connected, disconnected, enqueue_if,
  on_connect, reset_state_vars, start_t3, stop_t1, timer_recovery,
}
use go_ax.Conn.Receive.{
  by_state, by_type, extract_return_path, handle_awaiting_connection, handle_awaiting_release,
  handle_disconnected, handle_i_frame, handle_received_nr, handle_s_frame, handle_u_frame_connected,
  in_sequence, is_ui, is_valid_nr, on_frame, on_rej, on_rnr, on_rr, out_of_sequence,
}
use go_ax.Conn.Valid.{
  IsValid, handle_received_nr-IsValid, retransmit_from-IsValid, send_pending_i_frames-IsValid,
}

pub reset-IsValid : (c : Conn) → IsValid c → IsValid (reset_state_vars c)
reset-IsValid c v = record {
  window_pos = v.window_pos;
  window_small = v.window_small;
  vs_small = omega arith;
  vr_small = omega arith;
  va_small = omega arith;
  room = omega (arith, v.window_pos);
  sent = (0, (refl, tt));
}

in_sequence-IsValid : (f : Frame) (c : Conn) → IsValid c → IsValid (in_sequence f c)
unfolding in_sequence
in_sequence-IsValid f c v = ground arith

out_of_sequence-IsValid : (f : Frame) (c : Conn) → IsValid c → IsValid (out_of_sequence f c)
unfolding out_of_sequence
out_of_sequence-IsValid f c v = ground arith

handle_i_frame-IsValid : (f : Frame) (c : Conn) → IsValid c → IsValid (handle_i_frame f c)
unfolding handle_i_frame
handle_i_frame-IsValid f c v =
    let nr = extract_nr f.control in
    let acked = handle_received_nr nr c in
    ground (
      arith,
      handle_received_nr-IsValid nr c v (omega arith),
      in_sequence-IsValid f acked,
      out_of_sequence-IsValid f acked,
    )

module _ (nr : ℕ) (small : nr < 8) (pf : Bool) (c : Conn) (v : IsValid c)
    (valid : is_valid_nr c.va c.vs nr ≡ true) where
  on_rr-IsValid : IsValid (on_rr nr pf c)
  unfolding on_rr
  on_rr-IsValid =
      let acked = handle_received_nr nr (record c { peer_busy = false }) in
      let back = record acked { t1_active = false; state = connected } in
      ground (
        arith,
        handle_received_nr-IsValid nr (record c { peer_busy = false }) v small valid,
        retransmit_from-IsValid back.va back,
      )

  on_rnr-IsValid : IsValid (on_rnr nr pf c)
  unfolding on_rnr
  on_rnr-IsValid =
      ground (arith, handle_received_nr-IsValid nr (record c { peer_busy = true }) v small valid)

  on_rej-IsValid : IsValid (on_rej nr pf c)
  unfolding on_rej
  on_rej-IsValid =
      let acked = handle_received_nr nr (record c { peer_busy = false }) in
      let back = record acked { t1_active = false; retry_count = 0; state = connected } in
      ground (
        arith,
        handle_received_nr-IsValid nr (record c { peer_busy = false }) v small valid,
        retransmit_from-IsValid nr back,
      )

handle_s_frame-IsValid : (f : Frame) (c : Conn) → IsValid c → IsValid (handle_s_frame f c)
unfolding handle_s_frame
handle_s_frame-IsValid f c v =
    let nr = extract_nr f.control in
    let pf = has_pf f.control in
    ground (
      arith,
      λ (h : is_valid_nr c.va c.vs nr ≡ true). on_rr-IsValid nr (omega arith) pf c v h,
      λ (h : is_valid_nr c.va c.vs nr ≡ true). on_rnr-IsValid nr (omega arith) pf c v h,
      λ (h : is_valid_nr c.va c.vs nr ≡ true). on_rej-IsValid nr (omega arith) pf c v h,
    )

handle_u_frame-IsValid : (f : Frame) (c : Conn) → IsValid c → IsValid (handle_u_frame_connected f c)
unfolding handle_u_frame_connected
handle_u_frame-IsValid f c v = ground (arith, reset-IsValid c v)

handle_connected-IsValid :
    (t : FrameType) (f : Frame) (c : Conn) → IsValid c → IsValid (by_type t f c)
handle_connected-IsValid frame_i f c v = handle_i_frame-IsValid f c v
handle_connected-IsValid frame_s f c v = handle_s_frame-IsValid f c v
handle_connected-IsValid frame_u f c v = handle_u_frame-IsValid f c v
handle_connected-IsValid frame_ui f c v = v
handle_connected-IsValid frame_unknown f c v = v

handle_awaiting-IsValid :
    (f : Frame) (c : Conn) → IsValid c → IsValid (handle_awaiting_connection f c)
unfolding handle_awaiting_connection
handle_awaiting-IsValid f c v =
    let accepted = record (reset_state_vars (stop_t1 c)) { state = connected } in
    ground (
      arith,
      reset-IsValid c v,
      send_pending_i_frames-IsValid
          (start_t3 (enqueue_if c.cbs.has_on_connect (on_connect c.remote_addr true) accepted))
          (reset-IsValid c v),
    )

handle_release-IsValid : (f : Frame) (c : Conn) → IsValid c → IsValid (handle_awaiting_release f c)
unfolding handle_awaiting_release
handle_release-IsValid f c v = ground arith

-- The application's callback and what other goroutines do while it runs keep the invariant.
abbrev pub Keeps : (Conn → Type 0) → (Conn → Conn) → Type 0
Keeps P during = (c : Conn) → P c → P (during c)

handle_disconnected-IsValid :
    (during : Conn → Conn) (f : Frame) (c : Conn)
    → Keeps IsValid during
    → IsValid c
    → IsValid (handle_disconnected during f c)
unfolding handle_disconnected
handle_disconnected-IsValid during f c keeps v =
    let fresh =
      record (reset_state_vars (record c {
        remote_addr = f.source;
        path = extract_return_path f;
        is_local_initiated = false;
      })) {
        state = connected;
        refuse_pending = false;
        ran = c.ran ++ (on_connect f.source false ∷ []);
      } in
    ground (arith, reset-IsValid c v, keeps fresh)

by_state-IsValid :
    (s : ConnState) (during : Conn → Conn) (f : Frame) (c : Conn)
    → Keeps IsValid during
    → IsValid c
    → IsValid (by_state s during f c)
by_state-IsValid disconnected during f c k v = handle_disconnected-IsValid during f c k v
by_state-IsValid awaiting_connection during f c k v = handle_awaiting-IsValid f c v
by_state-IsValid awaiting_release during f c k v = handle_release-IsValid f c v
by_state-IsValid connected during f c k v = handle_connected-IsValid f.frame_type f c v
by_state-IsValid timer_recovery during f c k v = handle_connected-IsValid f.frame_type f c v

pub on_frame-IsValid :
    (during : Conn → Conn) (f : Frame) (c : Conn)
    → Keeps IsValid during
    → IsValid c
    → IsValid (on_frame during f c)
unfolding on_frame
on_frame-IsValid during f c k v = elim (Bool-cases (is_ui f.frame_type)) [
  | inl ui ↦ rw ui v
  | inr other ↦ rw other (by_state-IsValid c.state during f c k v)
]
