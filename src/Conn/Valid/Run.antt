-- ===== src/Conn/Valid/Run.antt =====
-- ax25/conn.go: the invariant over the calls, the timers and runs of events.
use go_ax.Base.{
  All-append, Bool, Bytes, List, Option, [], arith, false, length, length-append, none, refl, some,
  suc, sym, zero, ℕ, ◌++◌, ◌+◌, ◌<◌, ◌∙◌, ◌∷◌, ◌≡◌, ◌≤◌,
}
use go_ax.Types.{Address}
use go_ax.Conn.State.{
  Conn, ConnCallbacks, ConnConfig, ConnState, PendingFrame, connected, disconnected, mod8, new_conn,
}
use go_ax.Conn.Calls.{
  close, connect, on_t1_expired, on_t2_expired, on_t3_expired, refuse, send_data, set_busy,
  shutdown, t1_expired_in, t3_expired_in,
}
use go_ax.Conn.Events.{
  Event, busy_call, close_call, connect_call, received, refuse_call, run, send_call, shutdown_call,
  step, t1_expired, t2_expired, t3_expired,
}
use go_ax.Conn.Window.{Window}
use go_ax.Conn.Valid.{IsOpenWindow, IsValid, send_pending_i_frames-IsValid}
use go_ax.Conn.Valid.Handlers.{Keeps, on_frame-IsValid, reset-IsValid}

new_conn_fresh :
    (local : Address) (cbs : ConnCallbacks) (cfg : Option ConnConfig) {c : Conn}
    → new_conn local cbs cfg ≡ some c
    → (c.vs ≡ 0)
      × (c.vr ≡ 0)
      × (c.va ≡ 0)
      × (c.tx_queue ≡ [])
      × (1 ≤ c.cfg.window)
      × (c.cfg.window ≤ 7)
unfolding new_conn
new_conn_fresh local cbs none h = ground arith
new_conn_fresh local cbs (some cfg) h = ground arith

-- A session that `new_conn` makes meets the invariant, whatever configuration was asked for.
pub new_conn-IsValid :
    (local : Address) (cbs : ConnCallbacks) (cfg : Option ConnConfig) {c : Conn}
    → new_conn local cbs cfg ≡ some c
    → IsValid c
new_conn-IsValid local cbs cfg h =
    let (vs, vr, va, queue, pos, small) = new_conn_fresh local cbs cfg h in
    record {
      window_pos = pos;
      window_small = small;
      vs_small = omega (arith, vs);
      vr_small = omega (arith, vr);
      va_small = omega (arith, va);
      room = rw queue (omega (arith, pos));
      sent = (0, (va ∙ sym vs, rw queue tt));
    }

connect-IsValid :
    (a : Address) (via : List Address) (c : Conn) → IsValid c → IsValid (connect a via c).0
unfolding connect
connect-IsValid a via c v = ground (arith, reset-IsValid c v)

shutdown-IsValid : (c : Conn) → IsValid c → IsValid (shutdown c).0
unfolding shutdown
shutdown-IsValid c v = ground arith

set_busy-IsValid : (b : Bool) (c : Conn) → IsValid c → IsValid (set_busy b c)
unfolding set_busy
set_busy-IsValid b c v = ground arith

-- One more waiting frame at the end of the queue.
pub Window-queue :
    (n va vs : ℕ) (q : List PendingFrame) (p : PendingFrame)
    → p.transmitted ≡ false
    → Window n va vs q
    → Window n va vs (q ++ (p ∷ []))
Window-queue zero va vs q p h w =
    (w.0, All-append (λ (p : PendingFrame). p.transmitted ≡ false) q (p ∷ []) w.1 (h, tt))
Window-queue (suc n) va vs [] p h w = absurd w
Window-queue (suc n) va vs (x ∷ q) p h w = (w.0, w.1, Window-queue n (mod8 (va + 1)) vs q p h w.2)

queued-IsValid :
    (payload : Bytes) (c : Conn)
    → IsValid c
    → length c.tx_queue < c.cfg.window
    → IsOpenWindow c.cfg.window c.vs c.vr c.va
        (c.tx_queue ++ (record { payload = payload; ns = 0; transmitted = false } ∷ []))
queued-IsValid payload c v h =
    let p : PendingFrame = record { payload = payload; ns = 0; transmitted = false } in
    record {
      window_pos = v.window_pos;
      window_small = v.window_small;
      vs_small = v.vs_small;
      vr_small = v.vr_small;
      va_small = v.va_small;
      room = omega (arith, length-append {0} c.tx_queue (p ∷ []), h);
      sent = (v.sent.0, Window-queue v.sent.0 c.va c.vs c.tx_queue p refl v.sent.1);
    }

send_data-IsValid : (payload : Bytes) (c : Conn) → IsValid c → IsValid (send_data payload c).0
unfolding send_data
send_data-IsValid payload c v =
    let p : PendingFrame = record { payload = payload; ns = 0; transmitted = false } in
    ground (
      arith,
      λ (h : length c.tx_queue < c.cfg.window).
          send_pending_i_frames-IsValid (record c { tx_queue = c.tx_queue ++ (p ∷ []) })
            (queued-IsValid payload c v h),
    )

t1_expired-IsValid : (s : ConnState) (c : Conn) → IsValid c → IsValid (t1_expired_in s c)
unfolding t1_expired_in
t1_expired-IsValid disconnected c v = v
t1_expired-IsValid _ c v = ground arith

t3_expired-IsValid : (s : ConnState) (c : Conn) → IsValid c → IsValid (t3_expired_in s c)
t3_expired-IsValid connected c v = v
t3_expired-IsValid _ c v = v

on_t2_expired-IsValid : (c : Conn) → IsValid c → IsValid (on_t2_expired c)
unfolding on_t2_expired
on_t2_expired-IsValid c v = ground arith

-- Every event keeps the invariant.
pub step-IsValid :
    (during : Conn → Conn) (e : Event) (c : Conn)
    → Keeps IsValid during
    → IsValid c
    → IsValid (step during e c)
unfolding step refuse close on_t1_expired on_t3_expired
step-IsValid during (received f) c k v = on_frame-IsValid during f c k v
step-IsValid during (connect_call remote via) c k v = connect-IsValid remote via c v
step-IsValid during shutdown_call c k v = shutdown-IsValid c v
step-IsValid during refuse_call c k v = v
step-IsValid during close_call c k v = v
step-IsValid during (send_call payload) c k v = send_data-IsValid payload c v
step-IsValid during (busy_call busy) c k v = set_busy-IsValid busy c v
step-IsValid during t1_expired c k v = t1_expired-IsValid c.state (record c { t1_active = false }) v
step-IsValid during t2_expired c k v = on_t2_expired-IsValid c v
step-IsValid during t3_expired c k v = t3_expired-IsValid c.state (record c { t3_active = false }) v

-- Whatever events come in whatever order, a session that meets the invariant keeps it, provided that
-- what runs during `OnConnect` does: the sequence variables are below eight, the queue holds at most
-- `window` frames, and those sent are at its front, numbered from V(A) to V(S) without a gap.
pub run-IsValid :
    (during : Conn → Conn) (es : List Event) (c : Conn)
    → Keeps IsValid during
    → IsValid c
    → IsValid (run during es c)
unfolding run
run-IsValid during [] c k v = v
run-IsValid during (e ∷ es) c k v =
    run-IsValid during es (step during e c) k (step-IsValid during e c k v)
