-- ===== src/Kiss/Tests.antt =====
-- The KISS layer at concrete inputs.
use go_ax.Base.{Bytes, List, [], arith, inl, refl, true, ◌++◌, ◌∷◌, ◌≡◌}
use go_ax.Kiss.{KissFrame, kiss_encode, new_decoder, write}
use go_ax.Kiss.RoundTrip.{
  IsIdle, IsSendable, after, delivered-kiss_encode_all, kiss_encode_all, write-kiss_encode_port_12,
}

-- Both marks stand in the data.
abbrev marked : Bytes
marked = 0xC0 ∷ 0xDB ∷ 7 ∷ []

abbrev two_frames : List KissFrame
two_frames =
    record { port = 0; cmd = 0; payload = marked } ∷ record { port = 3; cmd = 6; payload = [] } ∷ []

new_decoder-IsIdle : IsIdle (new_decoder true)
unfolding new_decoder
new_decoder-IsIdle = record { between = inl refl }

new_decoder-callback : (new_decoder true).has_callback ≡ true
unfolding new_decoder
new_decoder-callback = refl

zero_IsSendable : IsSendable 0 0
zero_IsSendable = record {
  port_small = omega arith;
  cmd_small = omega arith;
  ne_fend = omega arith;
  ne_fesc = omega arith;
}

three_IsSendable : IsSendable 3 6
three_IsSendable = record {
  port_small = omega arith;
  cmd_small = omega arith;
  ne_fend = omega arith;
  ne_fesc = omega arith;
}

delivered-kiss_encode_all_example :
    (write (new_decoder true) (kiss_encode_all two_frames)).delivered
    ≡ (new_decoder true).delivered ++ two_frames
delivered-kiss_encode_all_example =
    delivered-kiss_encode_all (new_decoder true) two_frames new_decoder-IsIdle new_decoder-callback
      (zero_IsSendable, (three_IsSendable, tt))

write-kiss_encode_port_12_example :
    write (new_decoder true) (kiss_encode 12 0 (0x82 ∷ 7 ∷ []))
    ≡ after (new_decoder true) 8 2 (7 ∷ [])
write-kiss_encode_port_12_example =
    write-kiss_encode_port_12 (new_decoder true) 0x82 (7 ∷ []) new_decoder-IsIdle
      new_decoder-callback (omega arith) (omega arith)
