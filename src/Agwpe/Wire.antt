-- ===== src/Agwpe/Wire.antt =====
-- agwpe/frame.go: the header of a message, field by field.
use go_ax.Base.{
  All, Bytes, [], ap, append_assoc, arith, drop, false, length, length-append, refl, suc, take,
  take_exact, zero, ℕ, ◌++◌, ◌+◌, ◌<◌, ◌==◌, ◌∙◌, ◌∷◌, ◌≡◌, ◌≤◌,
}
use go_ax.Agwpe.{
  AgwFrame, get_callsign, get_uint32, header_data_len, header_of, put_uint32, read_header,
  set_callsign,
}

-- A callsign that fits its field and has no zero byte.
pub record FitsField (s : Bytes) : Type 0 where
  pub fits : length s ≤ 10
  pub no_zero : All (λ c. (c == 0) ≡ false) s

-- A message whose parts fit their fields.
pub record IsMessage (f : AgwFrame) : Type 0 where
  pub from_fits : FitsField f.call_from
  pub to_fits : FitsField f.call_to
  pub short : length f.payload ≤ 4096
  pub user_small : f.user < 4294967296

pub length-set_callsign : (n : ℕ) (s : Bytes) → length (set_callsign n s) ≡ n
unfolding set_callsign
length-set_callsign zero s = refl
length-set_callsign (suc n) [] = ap suc (length-set_callsign n [])
length-set_callsign (suc n) (c ∷ cs) = ap suc (length-set_callsign n cs)

get_callsign-padding : (n : ℕ) → get_callsign (set_callsign n []) ≡ []
unfolding set_callsign get_callsign
get_callsign-padding zero = refl
get_callsign-padding (suc n) = refl

pub get-set_callsign :
    (n : ℕ) (s : Bytes)
    → length s ≤ n
    → All (λ c. (c == 0) ≡ false) s
    → get_callsign (set_callsign n s) ≡ s
unfolding set_callsign get_callsign
get-set_callsign n [] h z = get_callsign-padding n
get-set_callsign zero (c ∷ cs) h z = absurd (omega arith)
get-set_callsign (suc n) (c ∷ cs) h z =
    rw (z.0) (ap (◌∷◌ c) (get-set_callsign n cs (omega arith) z.1))

pub get-put_uint32 : (n : ℕ) → n < 4294967296 → get_uint32 (put_uint32 n) ≡ n
get-put_uint32 n h = omega (arith, h)

drop_past : (m k : ℕ) (xs ys : Bytes) → m ≡ length xs + k → drop m (xs ++ ys) ≡ drop k ys
drop_past m k [] ys h = ap (λ n. drop n ys) (omega (arith, h))
drop_past zero k (x ∷ xs) ys h = absurd (omega arith)
drop_past (suc m) k (x ∷ xs) ys h = drop_past m k xs ys (omega (arith, h))

-- The layout of a header, with what follows it.
abbrev layout : AgwFrame → Bytes → Bytes
layout f rest =
    f.port
    ∷ 0
    ∷ 0
    ∷ 0
    ∷ f.kind
    ∷ 0
    ∷ f.pid
    ∷ 0
    ∷ (set_callsign 10 f.call_from
        ++ (set_callsign 10 f.call_to
            ++ (put_uint32 (length f.payload) ++ (put_uint32 f.user ++ rest))))

header-layout : (f : AgwFrame) (rest : Bytes) → header_of f ++ rest ≡ layout f rest
unfolding header_of
header-layout f rest = simp append_assoc refl

pub length-header_of : (f : AgwFrame) → length (header_of f) ≡ 36
unfolding header_of
length-header_of f =
    let sizes = put_uint32 (length f.payload) ++ put_uint32 f.user in
    let to = set_callsign 10 f.call_to in
    omega (
      arith,
      length-append {0} (set_callsign 10 f.call_from) (to ++ sizes),
      length-append {0} to sizes,
      length-set_callsign 10 f.call_from,
      length-set_callsign 10 f.call_to,
    )

module _ (f : AgwFrame) (rest : Bytes) where
  from_part : take 10 (drop 8 (layout f rest)) ≡ set_callsign 10 f.call_from
  from_part = take_exact 10 (set_callsign 10 f.call_from) _ (length-set_callsign 10 f.call_from)

  to_part : take 10 (drop 18 (layout f rest)) ≡ set_callsign 10 f.call_to
  to_part =
      ap (take 10) (
        drop_past 10 0 (set_callsign 10 f.call_from) _
          (omega (arith, length-set_callsign 10 f.call_from)))
      ∙ take_exact 10 (set_callsign 10 f.call_to) _ (length-set_callsign 10 f.call_to)

  behind_calls :
      (k : ℕ)
      → drop (20 + k) (
          set_callsign 10 f.call_from
          ++ (set_callsign 10 f.call_to
              ++ (put_uint32 (length f.payload) ++ (put_uint32 f.user ++ rest))))
        ≡ drop k (put_uint32 (length f.payload) ++ (put_uint32 f.user ++ rest))
  behind_calls k =
      drop_past (20 + k) (10 + k) (set_callsign 10 f.call_from) _
        (omega (arith, length-set_callsign 10 f.call_from))
      ∙ drop_past (10 + k) k (set_callsign 10 f.call_to) _
          (omega (arith, length-set_callsign 10 f.call_to))

  len_part :
      get_uint32 (take 4 (drop 28 (layout f rest))) ≡ get_uint32 (put_uint32 (length f.payload))
  len_part = ap (λ bs. get_uint32 (take 4 bs)) (behind_calls 0)

  user_part : get_uint32 (take 4 (drop 32 (layout f rest))) ≡ get_uint32 (put_uint32 f.user)
  user_part = ap (λ bs. get_uint32 (take 4 bs)) (behind_calls 4)

  pub header_data_len-header :
      header_data_len (header_of f ++ rest) ≡ get_uint32 (put_uint32 (length f.payload))
  header_data_len-header = rw (header-layout f rest) len_part

  pub read_header-header :
      (payload : Bytes)
      → IsMessage f
      → read_header (header_of f ++ rest) payload ≡ record f { payload = payload }
  unfolding read_header
  read_header-header payload m =
      rw (header-layout f rest, from_part, to_part, user_part)
        (cc (
          get-set_callsign 10 f.call_from m.from_fits.fits m.from_fits.no_zero,
          get-set_callsign 10 f.call_to m.to_fits.fits m.to_fits.no_zero,
          get-put_uint32 f.user m.user_small,
        ))
