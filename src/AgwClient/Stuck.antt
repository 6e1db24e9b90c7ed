-- ===== src/AgwClient/Stuck.antt =====
-- agwpe/client.go: a client whose connection is lost while it has nothing to write.
use go_ax.Base.{
  Bytes, List, Option, [], arith, false, none, refl, some, sym, true, ◌++◌, ◌∙◌, ◌∷◌, ◌≡◌, ◌≢◌,
}
use go_ax.AgwClient.{
  Client, Tested, dialing, holding, joining, offer, passes, put_in_flight, reading, refuses,
  sleeping, stop_client, take_chunk, test_conn, writing, written_off,
}
use go_ax.AgwClient.Steps.{
  ClientEvent, ClientReach, Ready, and_then, asks, at_once, comes, dial_fails, dial_works, ends,
  joins, loses, offers, reads, stops, takes, wakes, write_fails, writer_ends, writes,
}
use go_ax.Agwpe.{AgwFrame, AgwResult, done, encode_message, failed}
use go_ax.Heard.{behind}

-- `rxLoop` waits for `txLoop`, which waits for a message, which `SendFrame` refuses.
pub record IsStuck (c : Client) : Type 0 where
  pub waits : c.rx_phase ≡ joining
  pub idles : c.tx_phase ≡ writing
  pub empty : c.tx_ch ≡ []
  pub apart : c.has_conn ≡ false
  pub alone : c.in_flight ≡ []

offer-cancelled : (o : AgwResult Bytes) (c : Client) → (offer o c).0.cancelled ≡ c.cancelled
offer-cancelled (failed e) c = refl
offer-cancelled (done bytes) c = ground arith

put_in_flight-cancelled : (t : Tested) (c : Client) → (put_in_flight t c).cancelled ≡ c.cancelled
put_in_flight-cancelled (refuses e) c = refl
put_in_flight-cancelled (passes m) c = refl

comes-cancelled :
    (e : ClientEvent) (c : Client) → (comes e c).cancelled ≡ false → c.cancelled ≡ false
unfolding comes take_chunk stop_client
comes-cancelled (asks m) c h = sym (put_in_flight-cancelled (test_conn m c) c) ∙ h
comes-cancelled (offers before m behind) c h =
    sym (offer-cancelled (encode_message m) (record c { in_flight = before ++ behind })) ∙ h
comes-cancelled stops c h = cc
comes-cancelled dial_fails c h = h
comes-cancelled dial_works c h = h
comes-cancelled (reads bytes) c h = h
comes-cancelled loses c h = h
comes-cancelled joins c h = h
comes-cancelled wakes c h = h
comes-cancelled ends c h = h
comes-cancelled (takes p ps) c h = h
comes-cancelled (writes p) c h = h
comes-cancelled (write_fails p) c h = h
comes-cancelled writer_ends c h = h

asks-apart :
    (m : Option AgwFrame) (c : Client) → c.has_conn ≡ false → put_in_flight (test_conn m c) c ≡ c
unfolding test_conn
asks-apart none c h = refl
asks-apart (some m) c h = simp h refl

not_alone :
    (before : List AgwFrame) (m : AgwFrame) (behind : List AgwFrame) → (before ++ m ∷ behind) ≢ []
not_alone [] m behind h = cc
not_alone (x ∷ xs) m behind h = cc

not_dial : dialing ≢ joining
not_dial h = cc

not_read : reading ≢ joining
not_read h = cc

not_sleep : sleeping ≢ joining
not_sleep h = cc

not_holding : {p : Bytes} → holding p ≢ writing
not_holding h = cc

not_off : written_off ≢ writing
not_off h = cc

not_more : {p : Bytes} {ps : List Bytes} → (p ∷ ps) ≢ []
not_more h = cc

not_both : true ≢ false
not_both h = cc

comes-IsStuck :
    (e : ClientEvent) (c : Client)
    → Ready e c
    → (comes e c).cancelled ≡ false
    → IsStuck c
    → IsStuck (comes e c)
unfolding comes take_chunk stop_client
comes-IsStuck (asks m) c r h s = rw (asks-apart m c s.apart) s
comes-IsStuck (offers before m behind) c r h s =
    absurd (not_alone before m behind (sym r ∙ s.alone))
comes-IsStuck stops c r h s = cc
comes-IsStuck dial_fails c r h s = absurd (not_dial (sym r.0 ∙ s.waits))
comes-IsStuck dial_works c r h s = absurd (not_dial (sym r.0 ∙ s.waits))
comes-IsStuck (reads bytes) c r h s = absurd (not_read (sym r ∙ s.waits))
comes-IsStuck loses c r h s = absurd (not_read (sym r ∙ s.waits))
comes-IsStuck joins c r h s = absurd (not_off (sym r.1 ∙ s.idles))
comes-IsStuck wakes c r h s = absurd (not_sleep (sym r ∙ s.waits))
comes-IsStuck ends c r h s = absurd (not_both (sym r.1 ∙ h))
comes-IsStuck (takes p ps) c r h s = absurd (not_more (sym r.1 ∙ s.empty))
comes-IsStuck (writes p) c r h s = absurd (not_holding (sym r ∙ s.idles))
comes-IsStuck (write_fails p) c r h s = absurd (not_holding (sym r ∙ s.idles))
comes-IsStuck writer_ends c r h s = absurd (not_both (sym r.1 ∙ h))

reach-IsStuck : {c d : Client} → IsStuck c → ClientReach c d → d.cancelled ≡ false → IsStuck d
reach-IsStuck s at_once h = s
reach-IsStuck s (and_then r e k) h =
    comes-IsStuck e _ k h (reach-IsStuck s r (comes-cancelled e _ h))

-- If a client that reads from its connection loses it while its writer waits for a message, none is in
-- the queue, and no call of `SendFrame` is past its test of the connection, then whatever happens
-- afterwards, it is never connected again, unless it is stopped: the goroutine that would dial waits
-- for the one that writes, and that one for a message.
pub loses-never_again :
    (c : Client) {d : Client}
    → c.rx_phase ≡ reading
    → c.tx_phase ≡ writing
    → c.tx_ch ≡ []
    → c.in_flight ≡ []
    → ClientReach (comes loses c) d
    → d.cancelled ≡ false
    → (d.has_conn ≡ false) × (d.rx_phase ≡ joining)
unfolding comes
loses-never_again c h k e a r n =
    let s =
      reach-IsStuck (record { waits = refl; idles = k; empty = e; apart = refl; alone = a }) r n in
    (s.apart, s.waits)
