-- ===== src/Agwpe/Via.antt =====
-- agwpe/server.go: `parseDigiPath`, over what `BuildConnectViaReq` of agwpe/frame.go makes.
use go_ax.Base.{
  All, Bytes, List, [], ap, arith, drop, drop_exact, false, if◌then◌else◌, length, length-append,
  ltb, map, refl, suc, sym, take, take_exact, zero, ℕ, ◌%◌, ◌*◌, ◌+◌, ◌<◌, ◌==◌, ◌||◌, ◌∙◌, ◌∷◌,
  ◌≡◌, ◌≤◌,
}
use mathlib.Core.Path.{subst}
use go_ax.Types.{Address, Result, err, ok}
use go_ax.Address.{parse_address, string}
use go_ax.Address.Text.{IsPlain, parse_address-string}
use go_ax.Agwpe.{callsign_len, set_callsign}
use go_ax.Agwpe.Wire.{length-set_callsign}
use go_ax.Agwpe.Builders.{build_connect_via_req, text_fields}
use go_ax.Agwpe.Unproto.{string-FitsField}

-- `strings.TrimRight(s, "\x00")`
abbrev zero_or : ℕ → Bytes → Bytes
zero_or b [] = if b == 0 then [] else b ∷ []
zero_or b (x ∷ xs) = b ∷ x ∷ xs

unfoldable pub trim_zeros : Bytes → Bytes
trim_zeros [] = []
trim_zeros (b ∷ bs) = zero_or b (trim_zeros bs)

abbrev read_or_skip : Result Address → List Address → List Address
read_or_skip (ok a) ds = a ∷ ds
read_or_skip (err e) ds = ds

-- The loop over the fields; a wrong callsign is passed over.
unfoldable pub read_path : ℕ → Bytes → List Address
read_path zero bs = []
read_path (suc n) bs =
    read_or_skip (parse_address (trim_zeros (take callsign_len bs)))
      (read_path n (drop callsign_len bs))

-- `parseDigiPath`
unfoldable pub parse_digi_path : Bytes → List Address
parse_digi_path [] = []
parse_digi_path (n ∷ bs) =
    if n == 0 || ltb (length (n ∷ bs)) (1 + n * callsign_len) then [] else read_path n bs

trim_zeros-padding : (n : ℕ) → trim_zeros (set_callsign n []) ≡ []
unfolding trim_zeros set_callsign
trim_zeros-padding zero = refl
trim_zeros-padding (suc n) = ap (zero_or 0) (trim_zeros-padding n)

zero_or-kept : (c : ℕ) (cs : Bytes) → (c == 0) ≡ false → zero_or c cs ≡ c ∷ cs
zero_or-kept c [] h = rw h refl
zero_or-kept c (x ∷ xs) h = refl

trim-set_callsign :
    (n : ℕ) (s : Bytes)
    → length s ≤ n
    → All (λ c. (c == 0) ≡ false) s
    → trim_zeros (set_callsign n s) ≡ s
unfolding trim_zeros set_callsign
trim-set_callsign n [] h z = trim_zeros-padding n
trim-set_callsign zero (c ∷ cs) h z = absurd (omega arith)
trim-set_callsign (suc n) (c ∷ cs) h z =
    ap (zero_or c) (trim-set_callsign n cs (omega arith) z.1) ∙ zero_or-kept c cs z.0

read_path-text_fields :
    (ds : List Address) → All IsPlain ds → read_path (length ds) (text_fields (map string ds)) ≡ ds
unfolding read_path text_fields
read_path-text_fields [] p = refl
read_path-text_fields (d ∷ ds) p =
    let field = set_callsign 10 (string d) in
    let fits = string-FitsField d p.0 in
    let rest = text_fields (map string ds) in
    rw
      (
        take_exact 10 field rest (length-set_callsign 10 (string d)),
        drop_exact 10 field rest (length-set_callsign 10 (string d)),
        trim-set_callsign 10 (string d) fits.fits fits.no_zero,
        parse_address-string d p.0,
        read_path-text_fields ds p.1,
      )
      refl

length-text_fields : (ds : List Bytes) → length (text_fields ds) ≡ length ds * 10
unfolding text_fields
length-text_fields [] = refl
length-text_fields (d ∷ ds) = omega (
  arith,
  length-append {0} (set_callsign 10 d) (text_fields ds),
  length-set_callsign 10 d,
  length-text_fields ds,
)

parse_counted :
    (n : ℕ) (bs : Bytes) (ds : List Address)
    → (n == 0) ≡ false
    → ltb (length (n ∷ bs)) (1 + n * 10) ≡ false
    → read_path n bs ≡ ds
    → parse_digi_path (n ∷ bs) ≡ ds
unfolding parse_digi_path
parse_counted n bs ds h k e = simp (h, k) e

length-map-string : (ds : List Address) → length (map string ds) ≡ length ds
length-map-string [] = refl
length-map-string (d ∷ ds) = ap suc (length-map-string ds)

-- The path of a connect request that is built for fewer than 256 plain digipeaters is read by the
-- server as these digipeaters, in their order.
pub parse_digi_path-build_connect_via_req :
    (port : ℕ) (from to : Bytes) (ds : List Address)
    → All IsPlain ds
    → length ds < 256
    → parse_digi_path (build_connect_via_req port from to (map string ds)).payload ≡ ds
unfolding parse_digi_path
parse_digi_path-build_connect_via_req port from to [] p few = refl
parse_digi_path-build_connect_via_req port from to (d ∷ ds) p few =
    let names = map string (d ∷ ds) in
    let count : length names % 256 ≡ length (d ∷ ds) = omega (arith, length-map-string ds, few) in
    let some_left : (length (d ∷ ds) == 0) ≡ false = ground arith in
    let n = length (d ∷ ds) in
    let whole : ltb (length (n ∷ text_fields names)) (1 + length (d ∷ ds) * 10) ≡ false =
      ground (arith, length-text_fields names, length-map-string ds) in
    subst (λ k. parse_digi_path (k ∷ text_fields names) ≡ d ∷ ds) (sym count)
      (parse_counted n (text_fields names) (d ∷ ds) some_left whole
        (read_path-text_fields (d ∷ ds) p))
