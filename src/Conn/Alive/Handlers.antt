-- ===== src/Conn/Alive/Handlers.antt =====
-- ax25/conn.go: the timers of a session in the handlers of received frames.
use go_ax.Base.{Bool, Bool-cases, [], false, inl, inr, refl, true, ◌++◌, ◌==◌, ◌||◌, ◌∷◌, ◌≡◌}
use go_ax.Types.{
  Frame, FrameType, ctrl_disc, ctrl_dm, ctrl_sabm, ctrl_ua, frame_i, frame_s, frame_u, frame_ui,
  frame_unknown,
}
use go_ax.Conn.State.{
  Conn, ConnState, awaiting_connection, awaiting_release, connected, disconnected, enqueue_if,
  on_connect, reset_state_vars, start_t3, stop_t1, timer_recovery,
}
use go_ax.Conn.Receive.{
  answer_sabm, by_state, by_type, extract_return_path, handle_awaiting_connection,
  handle_awaiting_release, handle_disconnected, handle_u_frame_connected, is_u, is_ui, on_frame,
}
use go_ax.Conn.Valid.{IsValid}
use go_ax.Conn.Alive.{Alive, Awaits, IsAlive, IsWaiting, send_pending-IsAlive}
use go_ax.Frame.{has_pf}
use go_ax.Base.Bits.{clear_bit}
use go_ax.Conn.Valid.Handlers.{Keeps, reset-IsValid}
use go_ax.Conn.Alive.Numbered.{InSession, handle_i_frame-IsAlive, handle_s_frame-IsAlive}

handle_u_frame-IsAlive : (f : Frame) (c : Conn) → IsAlive c → IsAlive (handle_u_frame_connected f c)
unfolding handle_u_frame_connected
handle_u_frame-IsAlive f c h =
    let kind = clear_bit 4 f.control in
    elim (Bool-cases (kind == ctrl_sabm)) [
      | inl sabm ↦ rw sabm h
      | inr not_sabm ↦ rw not_sabm (elim (Bool-cases (kind == ctrl_disc)) [
        | inl disc ↦ rw disc tt
        | inr not_disc ↦
            rw not_disc
              (elim (Bool-cases (kind == ctrl_dm)) [ inl dm ↦ rw dm tt | inr other ↦ rw other h ])
      ])
    ]

handle_connected-IsAlive :
    (t : FrameType) (f : Frame) (c : Conn)
    → IsValid c
    → InSession c.state
    → IsAlive c
    → IsAlive (by_type t f c)
handle_connected-IsAlive frame_i f c v i h = handle_i_frame-IsAlive f c i h
handle_connected-IsAlive frame_s f c v i h = handle_s_frame-IsAlive f c v i h
handle_connected-IsAlive frame_u f c v i h = handle_u_frame-IsAlive f c h
handle_connected-IsAlive frame_ui f c v i h = h
handle_connected-IsAlive frame_unknown f c v i h = h

handle_awaiting-IsAlive :
    (f : Frame) (c : Conn) → IsAlive c → IsAlive (handle_awaiting_connection f c)
unfolding handle_awaiting_connection
handle_awaiting-IsAlive f c h =
    let accepted = record (reset_state_vars (stop_t1 c)) { state = connected } in
    let told =
      start_t3 (enqueue_if c.cbs.has_on_connect (on_connect c.remote_addr true) accepted) in
    elim (Bool-cases (is_u ctrl_ua f)) [
      | inl ua ↦ rw ua (send_pending-IsAlive told (inr refl))
      | inr not_ua ↦
          rw not_ua
            (elim (Bool-cases (is_u ctrl_dm f)) [ inl dm ↦ rw dm tt | inr other ↦ rw other h ])
    ]

handle_release-IsAlive : (f : Frame) (c : Conn) → IsAlive c → IsAlive (handle_awaiting_release f c)
unfolding handle_awaiting_release
handle_release-IsAlive f c h = elim (Bool-cases (is_u ctrl_ua f || is_u ctrl_dm f)) [
  | inl done ↦ rw done tt
  | inr other ↦ rw other h
]

-- Whatever the callback made of the session, T3 runs behind the answer if it is still connected.
Alive-t3 : (s : ConnState) (t1 : Bool) → Awaits s t1 → Alive s t1 true
Alive-t3 disconnected t1 h = tt
Alive-t3 awaiting_connection t1 h = h
Alive-t3 awaiting_release t1 h = h
Alive-t3 connected t1 h = inr refl
Alive-t3 timer_recovery t1 h = tt

answer-IsAlive : (pf : Bool) (c : Conn) → Awaits c.state c.t1_active → IsAlive (answer_sabm pf c)
answer-IsAlive pf c h = elim (Bool-cases c.refuse_pending) [
  | inl refused ↦ simp refused tt
  | inr taken ↦ simp taken (Alive-t3 c.state c.t1_active h)
]

handle_disconnected-IsAlive :
    (during : Conn → Conn) (f : Frame) (c : Conn)
    → Keeps IsWaiting during
    → IsValid c
    → IsAlive c
    → IsAlive (handle_disconnected during f c)
unfolding handle_disconnected
handle_disconnected-IsAlive during f c keeps v h =
    let addressed = record c { remote_addr = f.source; path = extract_return_path f } in
    let fresh = record (reset_state_vars (record addressed { is_local_initiated = false })) {
      state = connected;
      refuse_pending = false;
    } in
    let told = record fresh { ran = c.ran ++ (on_connect f.source false ∷ []) } in
    elim (Bool-cases (is_u ctrl_sabm f)) [
      | inl sabm ↦ rw sabm (elim (Bool-cases c.cbs.has_on_connect) [
        | inl called ↦
            simp called (
              answer-IsAlive (has_pf f.control) (during told)
                (keeps told (reset-IsValid c v, tt)).1)
        | inr silent ↦ simp silent (answer-IsAlive (has_pf f.control) fresh tt)
      ])
      | inr other ↦ rw other h
    ]

by_state-IsAlive :
    (s : ConnState) (during : Conn → Conn) (f : Frame) (c : Conn)
    → c.state ≡ s
    → Keeps IsWaiting during
    → IsValid c
    → IsAlive c
    → IsAlive (by_state s during f c)
by_state-IsAlive disconnected during f c e k v h = handle_disconnected-IsAlive during f c k v h
by_state-IsAlive awaiting_connection during f c e k v h = handle_awaiting-IsAlive f c h
by_state-IsAlive awaiting_release during f c e k v h = handle_release-IsAlive f c h
by_state-IsAlive connected during f c e k v h =
    handle_connected-IsAlive f.frame_type f c v (rw e tt) h
by_state-IsAlive timer_recovery during f c e k v h =
    handle_connected-IsAlive f.frame_type f c v (rw e tt) h

pub on_frame-IsAlive :
    (during : Conn → Conn) (f : Frame) (c : Conn)
    → Keeps IsWaiting during
    → IsValid c
    → IsAlive c
    → IsAlive (on_frame during f c)
unfolding on_frame
on_frame-IsAlive during f c k v h = elim (Bool-cases (is_ui f.frame_type)) [
  | inl ui ↦ rw ui h
  | inr other ↦ rw other (by_state-IsAlive c.state during f c refl k v h)
]
