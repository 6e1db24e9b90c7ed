-- ===== src/AgwClient/Steps.antt =====
-- agwpe/client.go: the steps of the client's goroutines and of its callers.
use go_ax.Base.{
  Bool, Bool-cases, Bytes, List, Option, [], ap, arith, false, inl, inr, length, length-append, ltb,
  refl, true, ◌++◌, ◌∙◌, ◌∷◌, ◌≡◌, ◌≤◌, ◌⊎◌,
}
use go_ax.AgwClient.{
  Client, RxPhase, Tested, dialing, ended, fresh_decoder, holding, joining, offer, passes,
  put_in_flight, reading, refuses, sleeping, stop_client, take_chunk, test_conn, writing,
  written_off,
}
use go_ax.Agwpe.{AgwFrame, AgwResult, done, encode_message, failed}
use go_ax.Heard.{behind}

-- A step of the client. `ready` says that it can be taken where it stands, and `comes` what it makes.
--   asks, offers: `SendFrame` up to where it gives back its lock, and the rest of it, for a message that
--     is on its way
--   stops: `Stop`
--   dial_fails, dial_works, reads, loses, joins, wakes, ends: `rxLoop`; a connection may be lost, or
--     the context cancelled, at any time
--   takes, writes, write_fails, writer_ends: `txLoop`
pub data ClientEvent : Type 0 where
  asks : Option AgwFrame → ClientEvent
  offers : List AgwFrame → AgwFrame → List AgwFrame → ClientEvent
  stops dial_fails dial_works loses joins wakes ends writer_ends : ClientEvent
  reads : Bytes → ClientEvent
  takes : Bytes → List Bytes → ClientEvent
  writes write_fails : Bytes → ClientEvent

abbrev pub Ready : ClientEvent → Client → Type 0
Ready (asks m) c = Unit
Ready (offers before m behind) c = c.in_flight ≡ before ++ m ∷ behind
Ready stops c = Unit
Ready dial_fails c = (c.rx_phase ≡ dialing) × (c.cancelled ≡ false)
Ready dial_works c = (c.rx_phase ≡ dialing) × (c.cancelled ≡ false)
Ready (reads bytes) c = c.rx_phase ≡ reading
Ready loses c = c.rx_phase ≡ reading
Ready joins c = (c.rx_phase ≡ joining) × (c.tx_phase ≡ written_off)
Ready wakes c = c.rx_phase ≡ sleeping
Ready ends c = ((c.rx_phase ≡ dialing) ⊎ (c.rx_phase ≡ sleeping)) × (c.cancelled ≡ true)
Ready (takes p ps) c = (c.tx_phase ≡ writing) × (c.tx_ch ≡ p ∷ ps)
Ready (writes p) c = c.tx_phase ≡ holding p
Ready (write_fails p) c = c.tx_phase ≡ holding p
Ready writer_ends c = (c.tx_phase ≡ writing) × (c.cancelled ≡ true)

unfoldable pub comes : ClientEvent → Client → Client
comes (asks m) c = put_in_flight (test_conn m c) c
comes (offers before m behind) c =
    (offer (encode_message m) (record c { in_flight = before ++ behind })).0
comes stops c = stop_client c
comes dial_fails c = record c { rx_phase = sleeping }
comes dial_works c = record c {
  has_conn = true;
  rx_phase = reading;
  tx_phase = writing;
  decoder = fresh_decoder;
}
comes (reads bytes) c = take_chunk bytes c
comes loses c = record c { has_conn = false; rx_phase = joining }
comes joins c = record c { rx_phase = sleeping }
comes wakes c = record c { rx_phase = dialing }
comes ends c = record c { rx_phase = ended }
comes (takes p ps) c = record c { tx_ch = ps; tx_phase = holding p }
comes (writes p) c = record c { tx_phase = writing; sent = c.sent ++ p ∷ [] }
comes (write_fails p) c = record c { tx_phase = written_off }
comes writer_ends c = record c { tx_phase = written_off }

-- The clients that steps lead to.
pub data ClientReach (c : Client) : Client → Type 0 where
  at_once : ClientReach c c
  and_then :
      {d : Client} → ClientReach c d → (e : ClientEvent) → Ready e d → ClientReach c (comes e d)

abbrev is_reading : RxPhase → Bool
is_reading reading = true
is_reading _ = false

-- The queue is within its size, and the connection is set while it is read.
pub record IsClient (c : Client) : Type 0 where
  pub bounded : length c.tx_ch ≤ c.cfg.tx_queue_depth
  pub matches : c.has_conn ≡ is_reading c.rx_phase

offer-IsClient : (o : AgwResult Bytes) (c : Client) → IsClient c → IsClient (offer o c).0
offer-IsClient (failed e) c v = v
offer-IsClient (done bytes) c v = elim (Bool-cases (ltb (length c.tx_ch) c.cfg.tx_queue_depth)) [
  | inl room ↦ simp room (record {
    bounded = ground (arith, length-append {0} c.tx_ch (bytes ∷ []), room);
    matches = v.matches;
  })
  | inr crowded ↦ simp crowded v
]

put_in_flight-IsClient : (t : Tested) (c : Client) → IsClient c → IsClient (put_in_flight t c)
put_in_flight-IsClient (refuses e) c v = v
put_in_flight-IsClient (passes m) c v = record { bounded = v.bounded; matches = v.matches }

comes-IsClient : (e : ClientEvent) (c : Client) → Ready e c → IsClient c → IsClient (comes e c)
unfolding comes take_chunk stop_client
comes-IsClient (asks m) c r v = put_in_flight-IsClient (test_conn m c) c v
comes-IsClient (offers before m behind) c r v =
    offer-IsClient (encode_message m) (record c { in_flight = before ++ behind })
      (record { bounded = v.bounded; matches = v.matches })
comes-IsClient stops c r v = record { bounded = v.bounded; matches = v.matches }
comes-IsClient dial_fails c r v = record {
  bounded = v.bounded;
  matches = v.matches ∙ ap is_reading r.0;
}
comes-IsClient dial_works c r v = record { bounded = v.bounded; matches = refl }
comes-IsClient (reads bytes) c r v = record { bounded = v.bounded; matches = v.matches }
comes-IsClient loses c r v = record { bounded = v.bounded; matches = refl }
comes-IsClient joins c r v = record { bounded = v.bounded; matches = v.matches ∙ ap is_reading r.0 }
comes-IsClient wakes c r v = record { bounded = v.bounded; matches = v.matches ∙ ap is_reading r }
comes-IsClient ends c (inl r, k) v = record {
  bounded = v.bounded;
  matches = v.matches ∙ ap is_reading r;
}
comes-IsClient ends c (inr r, k) v = record {
  bounded = v.bounded;
  matches = v.matches ∙ ap is_reading r;
}
comes-IsClient (takes p ps) c r v = record {
  bounded = omega (arith, rw r.1 at (v.bounded));
  matches = v.matches;
}
comes-IsClient (writes p) c r v = record { bounded = v.bounded; matches = v.matches }
comes-IsClient (write_fails p) c r v = record { bounded = v.bounded; matches = v.matches }
comes-IsClient writer_ends c r v = record { bounded = v.bounded; matches = v.matches }

-- Whatever the network does and whatever is called, with the test and the `select` of `SendFrame` as
-- steps of their own, the queue of a client stays within its size, and
-- the client takes itself for connected just while it reads from its connection.
pub ClientReach-IsClient : {c d : Client} → IsClient c → ClientReach c d → IsClient d
ClientReach-IsClient v at_once = v
ClientReach-IsClient v (and_then r e k) = comes-IsClient e _ k (ClientReach-IsClient v r)
