-- ===== src/Conn/Delivery/Run.antt =====
-- ax25/conn.go: the data passed up over events and runs of events.
use go_ax.Base.{
  Bool, Bool-cases, Bytes, List, [], ap, append-nil, append_assoc, arith, false, if◌then◌else◌, inl,
  inr, refl, sym, true, ◌++◌, ◌∙◌, ◌∷◌, ◌≡◌,
}
use go_ax.Types.{Frame, FrameType, ctrl_sabm, frame_i, frame_s, frame_u, frame_ui, frame_unknown}
use go_ax.Conn.State.{
  Action, Conn, ConnState, awaiting_connection, awaiting_release, connected, disconnected,
  on_connect, reset_state_vars, timer_recovery,
}
use go_ax.Conn.Receive.{
  by_state, by_type, extract_return_path, handle_disconnected, is_u, is_ui, on_frame,
}
use go_ax.Conn.Calls.{
  close, is_connected_state, on_t1_expired, on_t3_expired, refuse, t1_expired_in, t3_expired_in,
}
use go_ax.Conn.Delivery.Received.{
  i_frame-passed, in_order, offered, release-passed, s_frame-passed, u_frame-passed, waiting-passed,
}
use go_ax.Conn.Delivery.{
  data_in, data_in-append, data_in-one, data_of, if_passed, left-passed, passed, ran_pending,
  tx-passed,
}
use go_ax.Conn.Send.{send_dm}
use go_ax.Frame.{has_pf}
use go_ax.Conn.Events.{
  Event, busy_call, close_call, connect_call, received, refuse_call, run, send_call, shutdown_call,
  step, t1_expired, t2_expired, t3_expired,
}
use go_ax.Conn.Delivery.Called.{
  connect-passed, send_data-passed, set_busy-passed, shutdown-passed, t1_expired-passed,
  t2_expired-passed, t3_expired-passed,
}

-- What runs during `OnConnect` passes no data up.
abbrev pub IsSilent : (Conn → Conn) → Type 0
IsSilent during = (c : Conn) → passed (during c) ≡ passed c

connecting-passed :
    (a : Action) (now pending : List Action)
    → data_of a ≡ []
    → data_in ((now ++ (a ∷ [])) ++ pending) ≡ data_in (now ++ pending)
connecting-passed a now pending h =
    data_in-append (now ++ (a ∷ [])) pending
    ∙ ap (λ ds. ds ++ data_in pending)
        (data_in-append now (a ∷ [])
          ∙ ap (λ ds. data_in now ++ ds) (data_in-one a ∙ h)
          ∙ append-nil (data_in now))
    ∙ sym (data_in-append now pending)

disconnected-passed :
    (during : Conn → Conn) (f : Frame) (c : Conn)
    → IsSilent during
    → passed (handle_disconnected during f c) ≡ passed c
unfolding handle_disconnected
disconnected-passed during f c k =
    let known = record c { remote_addr = f.source; path = extract_return_path f } in
    let accepted = record (reset_state_vars (record known { is_local_initiated = false })) {
      state = connected;
      refuse_pending = false;
    } in
    let told =
      if c.cbs.has_on_connect
      then during (record accepted { ran = accepted.ran ++ (on_connect f.source false ∷ []) })
      else accepted in
    let quiet_so_far : passed told ≡ passed c =
      if_passed c.cbs.has_on_connect _ _
        (k _ ∙ connecting-passed (on_connect f.source false) c.ran c.pending_actions refl) refl in
    if_passed (is_u ctrl_sabm f) _ _
      (if_passed told.refuse_pending _ _
        (left-passed (send_dm (has_pf f.control) told) ∙ tx-passed _ told ∙ quiet_so_far)
        (tx-passed _ told ∙ quiet_so_far))
      (tx-passed _ known)

abbrev pub is_i : FrameType → Bool
is_i frame_i = true
is_i _ = false

by_type-passed :
    (t : FrameType) (f : Frame) (c : Conn)
    → passed (by_type t f c)
      ≡ passed c ++ (if is_i t then (if in_order f c then offered f c else []) else [])
by_type-passed frame_i f c = i_frame-passed f c
by_type-passed frame_s f c = s_frame-passed f c ∙ sym (append-nil (passed c))
by_type-passed frame_u f c = u_frame-passed f c ∙ sym (append-nil (passed c))
by_type-passed frame_ui f c = sym (append-nil (passed c))
by_type-passed frame_unknown f c = sym (append-nil (passed c))

by_state-passed :
    (s : ConnState) (during : Conn → Conn) (f : Frame) (c : Conn)
    → IsSilent during
    → passed (by_state s during f c)
      ≡ passed c
        ++ (if is_connected_state s
            then (if is_i f.frame_type then (if in_order f c then offered f c else []) else [])
            else [])
by_state-passed disconnected during f c k =
    disconnected-passed during f c k ∙ sym (append-nil (passed c))
by_state-passed awaiting_connection during f c k = waiting-passed f c ∙ sym (append-nil (passed c))
by_state-passed awaiting_release during f c k = release-passed f c ∙ sym (append-nil (passed c))
by_state-passed connected during f c k = by_type-passed f.frame_type f c
by_state-passed timer_recovery during f c k = by_type-passed f.frame_type f c

-- What a frame brings to the application: the information of an I frame that comes in sequence, with a
-- valid N(R), while the session is connected and not busy, if there is any and a callback for it.
abbrev pub brings : Frame → Conn → List Bytes
brings f c =
    if is_connected_state c.state
    then (if is_i f.frame_type then (if in_order f c then offered f c else []) else [])
    else []

nothing_by :
    (s : ConnState) (b : Bool) (x : List Bytes)
    → b ≡ false
    → (if is_connected_state s then (if b then x else []) else []) ≡ []
nothing_by s b x h = ground (arith, h)

ui-not_i : (t : FrameType) → is_ui t ≡ true → is_i t ≡ false
ui-not_i frame_ui h = refl
ui-not_i frame_i h = cc
ui-not_i frame_s h = refl
ui-not_i frame_u h = refl
ui-not_i frame_unknown h = refl

on_frame-passed :
    (during : Conn → Conn) (f : Frame) (c : Conn)
    → IsSilent during
    → passed (on_frame during f c) ≡ passed c ++ brings f c
unfolding on_frame
on_frame-passed during f c k = elim (Bool-cases (is_ui f.frame_type)) [
  | inl ui ↦ simp ui (
      sym (
        ap (λ ds. passed c ++ ds)
          (nothing_by c.state (is_i f.frame_type) _ (ui-not_i f.frame_type ui))
        ∙ append-nil (passed c)))
  | inr other ↦
      simp other (ran_pending (by_state c.state during f c) ∙ by_state-passed c.state during f c k)
]

-- What an event brings.
abbrev pub brought : Event → Conn → List Bytes
brought (received f) c = brings f c
brought _ c = []

step-passed :
    (during : Conn → Conn) (e : Event) (c : Conn)
    → IsSilent during
    → passed (step during e c) ≡ passed c ++ brought e c
unfolding step refuse close on_t1_expired on_t3_expired
step-passed during (received f) c k = on_frame-passed during f c k
step-passed during (connect_call a via) c k = connect-passed a via c ∙ sym (append-nil (passed c))
step-passed during shutdown_call c k = shutdown-passed c ∙ sym (append-nil (passed c))
step-passed during refuse_call c k = sym (append-nil (passed c))
step-passed during close_call c k = sym (append-nil (passed c))
step-passed during (send_call payload) c k =
    send_data-passed payload c ∙ sym (append-nil (passed c))
step-passed during (busy_call busy) c k = set_busy-passed busy c ∙ sym (append-nil (passed c))
step-passed during t1_expired c k =
    ran_pending (t1_expired_in c.state (record c { t1_active = false }))
    ∙ t1_expired-passed c.state (record c { t1_active = false })
    ∙ sym (append-nil (passed c))
step-passed during t2_expired c k = t2_expired-passed c ∙ sym (append-nil (passed c))
step-passed during t3_expired c k =
    ran_pending (t3_expired_in c.state (record c { t3_active = false }))
    ∙ t3_expired-passed c.state (record c { t3_active = false })
    ∙ sym (append-nil (passed c))

-- What the events of a run bring, in their order.
pub brought_by : (Conn → Conn) → List Event → Conn → List Bytes
brought_by during [] c = []
brought_by during (e ∷ es) c = brought e c ++ brought_by during es (step during e c)

-- Whatever events come in whatever order, what is passed up to the application is the information of
-- the I frames that came in sequence, with a valid N(R), while the session was connected and not
-- busy: each once, in their order, and nothing else, provided that there is information and a
-- callback for it, and that what runs during `OnConnect` passes nothing up.
pub run-passed :
    (during : Conn → Conn) (es : List Event) (c : Conn)
    → IsSilent during
    → passed (run during es c) ≡ passed c ++ brought_by during es c
unfolding run brought_by
run-passed during [] c k = sym (append-nil (passed c))
run-passed during (e ∷ es) c k =
    run-passed during es (step during e c) k
    ∙ ap (λ ds. ds ++ brought_by during es (step during e c)) (step-passed during e c k)
    ∙ append_assoc (passed c) (brought e c) (brought_by during es (step during e c))
