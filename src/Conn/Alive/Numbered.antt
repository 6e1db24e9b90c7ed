-- ===== src/Conn/Alive/Numbered.antt =====
-- ax25/conn.go: the timers of a session in the handlers of I frames and S frames.
use go_ax.Base.{
  Bool, Bool-cases, arith, false, if◌then◌else◌, inl, inr, not, refl, true, ℕ, ◌%◌, ◌&&◌, ◌<◌, ◌==◌,
  ◌≡◌, ◌≢◌, ◌⊎◌,
}
use go_ax.Types.{Frame, ctrl_rej_mask, ctrl_rnr_mask, ctrl_rr_mask}
use go_ax.Conn.State.{
  Conn, ConnState, awaiting_connection, awaiting_release, connected, disconnected, stop_t1,
  timer_recovery,
}
use go_ax.Conn.Receive.{
  handle_i_frame, handle_received_nr, handle_s_frame, in_sequence, is_timer_recovery, is_valid_nr,
  on_rej, on_rnr, on_rr, out_of_sequence,
}
use go_ax.Conn.Valid.{IsValid, handle_received_nr-IsValid}
use go_ax.Conn.Alive.{Alive, IsAlive, handle_received_nr-Alive, retransmit-IsAlive}
use go_ax.Conn.Send.{retransmit_from}
use go_ax.Frame.{extract_nr, extract_ns, has_pf}

-- A handler of the connected states is asked about a session in one of these.
abbrev pub InSession : ConnState → Type 0
InSession connected = Unit
InSession timer_recovery = Unit
InSession _ = ⊥

Alive-session : (s : ConnState) (t1 t3 : Bool) → InSession s → Alive connected t1 t3 → Alive s t1 t3
Alive-session connected t1 t3 i h = h
Alive-session timer_recovery t1 t3 i h = tt
Alive-session disconnected t1 t3 i h = tt
Alive-session awaiting_connection t1 t3 i h = absurd i
Alive-session awaiting_release t1 t3 i h = absurd i

received-IsAlive : (nr : ℕ) (c : Conn) → InSession c.state → IsAlive (handle_received_nr nr c)
unfolding handle_received_nr
received-IsAlive nr c i = Alive-session c.state _ _ i (handle_received_nr-Alive nr c).1

in_sequence-IsAlive : (f : Frame) (c : Conn) → IsAlive c → IsAlive (in_sequence f c)
unfolding in_sequence
in_sequence-IsAlive f c h = elim (Bool-cases (has_pf f.control)) [
  | inl pf ↦ rw pf h
  | inr pf ↦ rw pf h
]

out_of_sequence-IsAlive : (f : Frame) (c : Conn) → IsAlive c → IsAlive (out_of_sequence f c)
unfolding out_of_sequence
out_of_sequence-IsAlive f c h = elim (Bool-cases (not c.rej_sent)) [
  | inl new ↦ rw new h
  | inr old ↦ rw old (elim (Bool-cases (has_pf f.control)) [ inl pf ↦ rw pf h | inr pf ↦ rw pf h ])
]

pub handle_i_frame-IsAlive :
    (f : Frame) (c : Conn) → InSession c.state → IsAlive c → IsAlive (handle_i_frame f c)
unfolding handle_i_frame
handle_i_frame-IsAlive f c i h =
    let nr = extract_nr f.control in
    let acked = handle_received_nr nr c in
    elim (Bool-cases c.local_busy) [
      | inl busy ↦ simp busy h
      | inr ready ↦ simp ready (elim (Bool-cases (not (is_valid_nr c.va c.vs nr))) [
        | inl bad ↦ rw bad tt
        | inr good ↦ rw good (elim (Bool-cases (extract_ns f.control == acked.vr)) [
          | inl next ↦ rw next (in_sequence-IsAlive f acked (received-IsAlive nr c i))
          | inr other ↦ rw other (out_of_sequence-IsAlive f acked (received-IsAlive nr c i))
        ])
      ])
    ]

module _ (nr : ℕ) (small : nr < 8) (pf : Bool) (c : Conn) (v : IsValid c) (i : InSession c.state)
    (valid : is_valid_nr c.va c.vs nr ≡ true) where
  -- The session that goes back to the connected state, with T1 stopped.
  final_rr :
      (c' : Conn)
      → IsValid c'
      → c'.peer_busy ≡ false
      → c'.state ≡ connected
      → (c'.va ≢ c'.vs) ⊎ (c'.t3_active ≡ true)
      → IsAlive (if not (c'.va == c'.vs) then retransmit_from c'.va c' else c')
  final_rr c' v' free s left = elim (Bool-cases (c'.va == c'.vs)) [
    | inl same ↦ simp same (rw s (ground arith))
    | inr apart ↦ simp apart (retransmit-IsAlive c' c'.va v' refl free (inl (λ e. ground arith)))
  ]

  on_rr-IsAlive : IsAlive (on_rr nr pf c)
  unfolding on_rr handle_received_nr
  on_rr-IsAlive =
      let free = record c { peer_busy = false } in
      let acked = handle_received_nr nr free in
      elim (Bool-cases (pf && is_timer_recovery c.state)) [
        | inl back ↦ rw back (
            final_rr (record (stop_t1 acked) { state = connected })
              (handle_received_nr-IsValid nr free v small valid).0 refl refl
              (handle_received_nr-Alive nr free).0)
        | inr stays ↦ rw stays (elim (Bool-cases pf) [
          | inl poll ↦ rw poll (received-IsAlive nr free i)
          | inr quiet ↦ rw quiet (received-IsAlive nr free i)
        ])
      ]

  on_rnr-IsAlive : IsAlive (on_rnr nr pf c)
  unfolding on_rnr handle_received_nr
  on_rnr-IsAlive =
      let busy = record c { peer_busy = true } in
      elim (Bool-cases pf) [
        | inl poll ↦ rw poll (Alive-session c.state false true i (inr refl))
        | inr quiet ↦ rw quiet (received-IsAlive nr busy i)
      ]

  on_rej-IsAlive : IsAlive (on_rej nr pf c)
  unfolding on_rej handle_received_nr
  on_rej-IsAlive =
      let free = record c { peer_busy = false } in
      let acked = handle_received_nr nr free in
      let (acked_valid, at) = handle_received_nr-IsValid nr free v small valid in
      let again =
        retransmit-IsAlive (record (stop_t1 acked) { retry_count = 0; state = connected }) nr
          acked_valid at refl
          (elim (handle_received_nr-Alive nr free).0 [
            | inl apart ↦ inl apart
            | inr t3 ↦ inr (inr t3)
          ]) in
      elim (Bool-cases pf) [ inl poll ↦ rw poll again | inr quiet ↦ rw quiet again ]

pub handle_s_frame-IsAlive :
    (f : Frame) (c : Conn)
    → IsValid c
    → InSession c.state
    → IsAlive c
    → IsAlive (handle_s_frame f c)
unfolding handle_s_frame
handle_s_frame-IsAlive f c v i h =
    let nr = extract_nr f.control in
    let pf = has_pf f.control in
    let kind = f.control % 16 in
    elim (Bool-cases (is_valid_nr c.va c.vs nr)) [
      | inr bad ↦ rw bad tt
      | inl good ↦ rw good (elim (Bool-cases (kind == ctrl_rr_mask)) [
        | inl rr ↦ rw rr (on_rr-IsAlive nr (omega arith) pf c v i good)
        | inr not_rr ↦ rw not_rr (elim (Bool-cases (kind == ctrl_rnr_mask)) [
          | inl rnr ↦ rw rnr (on_rnr-IsAlive nr (omega arith) pf c v i good)
          | inr not_rnr ↦ rw not_rnr (elim (Bool-cases (kind == ctrl_rej_mask)) [
            | inl rej ↦ rw rej (on_rej-IsAlive nr (omega arith) pf c v i good)
            | inr other ↦ rw other h
          ])
        ])
      ])
    ]
