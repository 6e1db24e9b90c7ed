-- ===== src/Agwpe/Unproto.antt =====
-- agwpe/server.go: `toAX25Unproto`, over what `FromAX25Unproto` of agwpe/frame.go makes.
use go_ax.Base.{
  All, All-append, Bool-cases, Bytes, List, Option, [], append_assoc, arith, drop, drop_exact,
  false, if◌then◌else◌, inl, inr, leb, leb→le, length, length-append, ltb, none, refl, some, suc,
  sym, take, take_exact, true, zero, ℕ, ◌%◌, ◌*◌, ◌++◌, ◌+◌, ◌<◌, ◌==◌, ◌∷◌, ◌≡◌, ◌≤◌,
}
use go_ax.Types.{Address, Frame, Result, ctrl_ui, frame_ui, ok, pid_none, ◌>>=◌}
use go_ax.Address.{decimal, is_call_char, parse_address, string}
use go_ax.Address.Text.{IsPlain, decimal-digits, parse_address-string}
use go_ax.Agwpe.{
  AgwFrame, AgwResult, callsign_len, done, failed, get_callsign, nil_message, set_callsign,
}
use go_ax.Agwpe.Wire.{FitsField, get-set_callsign, length-set_callsign}
use go_ax.Agwpe.Convert.{
  from_ax25_unproto, kind_unproto, kind_unproto_via, parsed, unproto_payload, via_fields,
}
use go_ax.Base.Bits.{all_below, all_below_sound}

-- The loop over the fields of the path.
unfoldable pub read_fields : ℕ → Bytes → Result (List Address)
read_fields zero bs = ok []
read_fields (suc n) bs = parse_address (get_callsign (take callsign_len bs)) >>= λ a.
    read_fields n (drop callsign_len bs) >>= λ ds. ok (a ∷ ds)

-- The path and what is behind it. A path that is cut off is taken for information.
unfoldable pub via_part : Bytes → Result (List Address × Bytes)
via_part [] = ok ([], [])
via_part (n ∷ bs) =
    if ltb (length (n ∷ bs)) (1 + n * callsign_len)
    then ok ([], n ∷ bs)
    else read_fields n bs >>= λ ds. ok (ds, drop (n * callsign_len) bs)

-- `toAX25Unproto`
unfoldable pub to_ax25_unproto : Option AgwFrame → AgwResult Frame
to_ax25_unproto none = failed nil_message
to_ax25_unproto (some m) = parsed (
    parse_address m.call_from >>= λ src. parse_address m.call_to >>= λ dst.
    (if m.kind == kind_unproto_via then via_part m.payload else ok ([], m.payload)) >>= λ r.
    ok (record {
      destination = dst;
      source = src;
      digipeaters = r.0;
      is_command = false;
      frame_type = frame_ui;
      control = ctrl_ui;
      pid = if m.pid == 0 then pid_none else m.pid;
      payload = r.1;
    }))

length_table : all_below 16 (λ n. leb (length (decimal 3 n)) 2) ≡ true
unfolding all_below decimal
length_table = refl

length-decimal : (n : ℕ) → n < 16 → length (decimal 3 n) ≤ 2
length-decimal n h =
    leb→le (length (decimal 3 n)) 2
      (all_below_sound 16 (λ k. leb (length (decimal 3 k)) 2) n length_table h)

call_chars-no_zero :
    (cs : Bytes) → All (λ c. is_call_char c ≡ true) cs → All (λ c. (c == 0) ≡ false) cs
call_chars-no_zero [] h = tt
call_chars-no_zero (c ∷ cs) h = (ground (arith, h.0), call_chars-no_zero cs h.1)

pub string-FitsField : (a : Address) → IsPlain a → FitsField (string a)
unfolding string
string-FitsField a p =
    let named = call_chars-no_zero a.callsign p.station.chars in
    let digits = call_chars-no_zero (decimal 3 a.ssid) (decimal-digits 3 a.ssid) in
    elim (Bool-cases (a.ssid == 0)) [
      | inl zero_ssid ↦
          simp zero_ssid (record { fits = omega (arith, p.station.fits); no_zero = named })
      | inr some_ssid ↦ simp some_ssid (record {
        fits = omega (
          arith,
          p.station.fits,
          length-append {0} a.callsign (45 ∷ decimal 3 a.ssid),
          length-decimal a.ssid p.station.ssid_small,
        );
        no_zero =
            All-append (λ c. (c == 0) ≡ false) a.callsign (45 ∷ decimal 3 a.ssid) named
              (refl, digits);
      })
    ]

field-string :
    (a : Address) (rest : Bytes)
    → IsPlain a
    → parse_address (get_callsign (take 10 (set_callsign 10 (string a) ++ rest))) ≡ ok a
field-string a rest p =
    let s = string-FitsField a p in
    rw
      (
        take_exact 10 (set_callsign 10 (string a)) rest (length-set_callsign 10 (string a)),
        get-set_callsign 10 (string a) s.fits s.no_zero,
      )
      (parse_address-string a p)

-- The fields of a path are read as the path.
read_fields-via_fields :
    (ds : List Address) (rest : Bytes)
    → All IsPlain ds
    → read_fields (length ds) (via_fields ds ++ rest) ≡ ok ds
unfolding read_fields via_fields
read_fields-via_fields [] rest p = refl
read_fields-via_fields (d ∷ ds) rest p =
    rw
      (
        append_assoc (set_callsign 10 (string d)) (via_fields ds) rest,
        field-string d (via_fields ds ++ rest) p.0,
        drop_exact 10 (set_callsign 10 (string d)) (via_fields ds ++ rest)
            (length-set_callsign 10 (string d)),
        read_fields-via_fields ds rest p.1,
      )
      refl

length-via_fields : (ds : List Address) → length (via_fields ds) ≡ length ds * 10
unfolding via_fields
length-via_fields [] = refl
length-via_fields (d ∷ ds) = omega (
  arith,
  length-append {0} (set_callsign 10 (string d)) (via_fields ds),
  length-set_callsign 10 (string d),
  length-via_fields ds,
)

via_part-via_fields :
    (ds : List Address) (info : Bytes)
    → All IsPlain ds
    → via_part (length ds ∷ (via_fields ds ++ info)) ≡ ok (ds, info)
unfolding via_part
via_part-via_fields ds info p =
    let size = length-append {0} (via_fields ds) info in
    let n = length-via_fields ds in
    let whole : ltb (length (length ds ∷ (via_fields ds ++ info))) (1 + length ds * 10) ≡ false =
      ground (arith, size, n) in
    rw (whole, read_fields-via_fields ds info p, drop_exact (length ds * 10) (via_fields ds) info n)
      refl

abbrev payload_of : List Address → Bytes → Bytes
payload_of ds info = if ltb 0 (length ds) then length ds % 256 ∷ (via_fields ds ++ info) else info

path-read :
    (ds : List Address) (info : Bytes)
    → All IsPlain ds
    → length ds < 256
    → (if (if ltb 0 (length ds) then kind_unproto_via else kind_unproto) == kind_unproto_via
        then via_part (payload_of ds info)
        else ok ([], payload_of ds info))
      ≡ ok (ds, info)
path-read [] info p few = refl
path-read (d ∷ ds) info p few =
    let count : length (d ∷ ds) % 256 ≡ length (d ∷ ds) = omega (arith, few) in
    let some_left : ltb 0 (length (d ∷ ds)) ≡ true = ground arith in
    rw (some_left, count) (via_part-via_fields (d ∷ ds) info p)

payload_of-fits :
    (ds : List Address) (info : Bytes)
    → length ds * 10 + length info < 4096
    → ltb 4096 (length (payload_of ds info)) ≡ false
payload_of-fits [] info h = ground arith
payload_of-fits (d ∷ ds) info h =
    ground (arith, length-append {0} (via_fields (d ∷ ds)) info, length-via_fields (d ∷ ds))

-- A frame that an unproto message can carry whole.
pub record IsUnproto (f : Frame) : Type 0 where
  pub to_plain : IsPlain f.destination
  pub from_plain : IsPlain f.source
  pub via_plain : All IsPlain f.digipeaters
  pub few : length f.digipeaters < 256
  pub short : length f.digipeaters * 10 + length f.payload < 4096
  pub typed : f.frame_type ≡ frame_ui
  pub unnumbered : f.control ≡ ctrl_ui
  pub has_pid : (f.pid == 0) ≡ false

-- A UI frame with plain addresses, fewer than 256 digipeaters, a PID and few enough bytes goes into an
-- unproto message, and the server takes out of the message the same frame, but always as a response.
pub to_ax25_unproto-from_ax25_unproto :
    (f : Frame) (port : ℕ)
    → IsUnproto f
    → (m : AgwFrame) × (from_ax25_unproto (some f) port ≡ done m)
      × (to_ax25_unproto (some m) ≡ done (record f { is_command = false }))
unfolding from_ax25_unproto to_ax25_unproto
to_ax25_unproto-from_ax25_unproto f port u = (
  record {
    port = port;
    kind = if ltb 0 (length f.digipeaters) then kind_unproto_via else kind_unproto;
    pid = f.pid;
    call_from = string f.source;
    call_to = string f.destination;
    payload = unproto_payload f;
    user = 0;
  },
  rw (payload_of-fits f.digipeaters f.payload u.short) refl,
  rw
      (
        parse_address-string f.source u.from_plain,
        parse_address-string f.destination u.to_plain,
        path-read f.digipeaters f.payload u.via_plain u.few,
        u.has_pid,
        sym u.typed,
        sym u.unnumbered,
      )
      refl,
)
