-- ===== src/Conn/Delivery/Received.antt =====
-- ax25/conn.go: the data passed up by the handlers of received frames.
use go_ax.Base.{
  Bool, Bool-cases, Bytes, List, [], append-nil, false, if◌then◌else◌, inl, inr, length, ltb, not,
  refl, sym, true, ℕ, ◌%◌, ◌&&◌, ◌++◌, ◌+◌, ◌==◌, ◌||◌, ◌∙◌, ◌∷◌, ◌≡◌,
}
use Prim.Native.String.{String}
use go_ax.Types.{
  Frame, ctrl_disc, ctrl_dm, ctrl_rej_mask, ctrl_rnr_mask, ctrl_rr_mask, ctrl_sabm, ctrl_ua,
}
use go_ax.Conn.State.{
  Conn, connected, dm_received, enqueue_if, fire_error, mod8, not_connected, nr_error, on_connect,
  on_data, on_link_reset, reset_state_vars, start_t3, stop_t1,
}
use go_ax.Conn.Receive.{
  handle_awaiting_connection, handle_awaiting_release, handle_i_frame, handle_received_nr,
  handle_s_frame, handle_u_frame_connected, in_sequence, is_timer_recovery, is_u, is_valid_nr,
  on_rej, on_rnr, on_rr, out_of_sequence, start_nr_error_recovery,
}
use go_ax.Conn.Delivery.{
  enqueued, error-passed, if_passed, left-passed, passed, quiet, received_nr-passed,
  retransmit-passed, send_pending-passed, tx-passed,
}
use go_ax.Base.Bits.{clear_bit}
use go_ax.Conn.Send.{build_frame, retransmit_from, send_dm, send_ua}
use go_ax.Frame.{extract_nr, extract_ns, has_pf}

module _ (f : Frame) (c : Conn) where
  -- What an I frame in sequence passes up.
  abbrev pub offered : List Bytes
  offered = if c.cbs.has_on_data && ltb 0 (length f.payload) then f.payload ∷ [] else []

  in_sequence-passed : passed (in_sequence f c) ≡ passed c ++ offered
  unfolding in_sequence
  in_sequence-passed =
      let next = record c { vr = mod8 (c.vr + 1); rej_sent = false } in
      let told =
        enqueue_if (c.cbs.has_on_data && ltb 0 (length f.payload)) (on_data f.payload) next in
      let up =
        enqueued (c.cbs.has_on_data && ltb 0 (length f.payload)) (on_data f.payload) c.ran
          c.pending_actions in
      elim (Bool-cases (has_pf f.control)) [
        | inl poll ↦ simp poll (tx-passed _ told ∙ up)
        | inr none_asked ↦ simp none_asked up
      ]

  out_of_sequence-passed : passed (out_of_sequence f c) ≡ passed c
  unfolding out_of_sequence
  out_of_sequence-passed = elim (Bool-cases c.rej_sent) [
    | inl sent ↦ elim (Bool-cases (has_pf f.control)) [
      | inl poll ↦ simp (sent, poll) (tx-passed _ c)
      | inr none_asked ↦ simp (sent, none_asked) refl
    ]
    | inr first ↦ simp first (tx-passed _ (record c { rej_sent = true }))
  ]

nr_error-passed : (m : String) (c : Conn) → passed (start_nr_error_recovery m c) ≡ passed c
nr_error-passed m c =
    left-passed (send_dm true (fire_error nr_error m c.retry_count c))
    ∙ tx-passed _ (fire_error nr_error m c.retry_count c)
    ∙ error-passed nr_error m c.retry_count c

-- Whether an I frame is taken in a connected state: it is in sequence, and its N(R) is valid.
abbrev pub in_order : Frame → Conn → Bool
in_order f c =
    not c.local_busy
    && (is_valid_nr c.va c.vs (extract_nr f.control) && extract_ns f.control == c.vr)

received_nr-vr : (nr : ℕ) (c : Conn) → (handle_received_nr nr c).vr ≡ c.vr
unfolding handle_received_nr
received_nr-vr nr c = refl

received_nr-offered :
    (f : Frame) (nr : ℕ) (c : Conn) → offered f (handle_received_nr nr c) ≡ offered f c
unfolding handle_received_nr
received_nr-offered f nr c = refl

pub i_frame-passed :
    (f : Frame) (c : Conn)
    → passed (handle_i_frame f c) ≡ passed c ++ (if in_order f c then offered f c else [])
unfolding handle_i_frame build_frame
i_frame-passed f c =
    let nr = extract_nr f.control in
    let acked = handle_received_nr nr c in
    let before = received_nr-passed nr c in
    let same = received_nr-vr nr c in
    let nothing = sym (append-nil (passed c)) in
    elim (Bool-cases c.local_busy) [
      | inl busy ↦ simp busy (tx-passed _ c ∙ nothing)
      | inr free ↦ elim (Bool-cases (is_valid_nr c.va c.vs nr)) [
        | inr wrong ↦ simp (free, wrong) (nr_error-passed "invalid N(R) in I-frame" c ∙ nothing)
        | inl valid ↦ elim (Bool-cases (extract_ns f.control == c.vr)) [
          | inl next ↦
              simp (free, valid, same, next)
                (in_sequence-passed f acked ∙ cc (before, received_nr-offered f nr c))
          | inr other ↦
              simp (free, valid, same, other) (out_of_sequence-passed f acked ∙ before ∙ nothing)
        ]
      ]
    ]

on_rr-passed : (nr : ℕ) (pf : Bool) (c : Conn) → passed (on_rr nr pf c) ≡ passed c
unfolding on_rr
on_rr-passed nr pf c =
    let acked = handle_received_nr nr (record c { peer_busy = false }) in
    let back = record (stop_t1 acked) { state = connected } in
    let before = received_nr-passed nr (record c { peer_busy = false }) in
    if_passed (pf && is_timer_recovery acked.state) _ _
      (if_passed (not (back.va == back.vs)) _ _ (retransmit-passed back.va back ∙ before) before)
      (if_passed pf _ _ (tx-passed _ acked ∙ before) before)

on_rnr-passed : (nr : ℕ) (pf : Bool) (c : Conn) → passed (on_rnr nr pf c) ≡ passed c
unfolding on_rnr
on_rnr-passed nr pf c =
    let before = received_nr-passed nr (record c { peer_busy = true }) in
    if_passed pf _ _ before before

on_rej-passed : (nr : ℕ) (pf : Bool) (c : Conn) → passed (on_rej nr pf c) ≡ passed c
unfolding on_rej
on_rej-passed nr pf c =
    let acked = handle_received_nr nr (record c { peer_busy = false }) in
    let idle = record (stop_t1 acked) { retry_count = 0; state = connected } in
    let before =
      retransmit-passed nr idle ∙ received_nr-passed nr (record c { peer_busy = false }) in
    if_passed pf _ _ (tx-passed _ (retransmit_from nr idle) ∙ before) before

pub s_frame-passed : (f : Frame) (c : Conn) → passed (handle_s_frame f c) ≡ passed c
unfolding handle_s_frame
s_frame-passed f c =
    let nr = extract_nr f.control in
    let pf = has_pf f.control in
    if_passed (not (is_valid_nr c.va c.vs nr)) _ _ (nr_error-passed _ c) (
      if_passed (f.control % 16 == ctrl_rr_mask) _ _ (on_rr-passed nr pf c) (
        if_passed (f.control % 16 == ctrl_rnr_mask) _ _ (on_rnr-passed nr pf c)
          (if_passed (f.control % 16 == ctrl_rej_mask) _ _ (on_rej-passed nr pf c) refl)))

pub u_frame-passed : (f : Frame) (c : Conn) → passed (handle_u_frame_connected f c) ≡ passed c
unfolding handle_u_frame_connected
u_frame-passed f c =
    let kind = clear_bit 4 f.control in
    let pf = has_pf f.control in
    let again = send_ua pf (reset_state_vars c) in
    if_passed (kind == ctrl_sabm) _ _
      (quiet again.cbs.has_on_link_reset on_link_reset again.ran again.pending_actions refl
        ∙ tx-passed _ (reset_state_vars c))
      (if_passed (kind == ctrl_disc) _ _ (left-passed (send_ua pf c) ∙ tx-passed _ c) (
        if_passed (kind == ctrl_dm) _ _
          (left-passed (fire_error dm_received "remote disconnected" c.retry_count c)
            ∙ error-passed dm_received "remote disconnected" c.retry_count c)
          refl))

pub waiting-passed : (f : Frame) (c : Conn) → passed (handle_awaiting_connection f c) ≡ passed c
unfolding handle_awaiting_connection
waiting-passed f c =
    let accepted = record (reset_state_vars (stop_t1 c)) { state = connected } in
    let told =
      start_t3 (enqueue_if c.cbs.has_on_connect (on_connect c.remote_addr true) accepted) in
    if_passed (is_u ctrl_ua f) _ _
      (send_pending-passed told
        ∙ quiet c.cbs.has_on_connect (on_connect c.remote_addr true) c.ran c.pending_actions refl)
      (if_passed (is_u ctrl_dm f) _ _
        (left-passed (fire_error not_connected "connection refused (DM received)" 0 (stop_t1 c))
          ∙ error-passed not_connected "connection refused (DM received)" 0 (stop_t1 c))
        refl)

pub release-passed : (f : Frame) (c : Conn) → passed (handle_awaiting_release f c) ≡ passed c
unfolding handle_awaiting_release
release-passed f c = if_passed (is_u ctrl_ua f || is_u ctrl_dm f) _ _ (left-passed (stop_t1 c)) refl
