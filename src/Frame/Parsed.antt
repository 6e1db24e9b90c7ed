-- ===== src/Frame/Parsed.antt =====
-- ax25/frame.go: what `ParseFrame` accepts.
use mathlib.Core.Path.{subst}
use go_ax.Base.{
  Bool, Bool-cases, Bytes, List, [], arith, drop, false, if◌then◌else◌, inl, inr, length,
  length-drop, ltb, not, refl, suc, true, zero, ℕ, ◌&&◌, ◌*◌, ◌+◌, ◌∷◌, ◌≡◌, ◌≤◌, ◌⊎◌,
}
use go_ax.Types.{>>=-eq-ok, Address, Frame, Result, err, max_digipeaters, ok, ok-injective, ◌>>=◌}
use go_ax.Frame.{as_invalid, has_info, identify_frame_type, parse_digis, parse_frame, parse_tail}
use go_ax.Address.{decode_address}
use go_ax.Frame.Path.{command_bit}

-- A path whose last address, and no other, has the end bit.
abbrev pub EndsPath : List Address → Type 0
EndsPath [] = ⊥
EndsPath (d ∷ []) = d.is_last ≡ true
EndsPath (d ∷ e ∷ ds) = (d.is_last ≡ false) × EndsPath (e ∷ ds)

pub record IsParsed (bytes : Bytes) (f : Frame) : Type 0 where
  pub few : length f.digipeaters ≤ 8
  pub path :
      ((f.digipeaters ≡ []) × ((f.source.is_last ≡ true) ⊎ (f.destination.is_last ≡ true)))
      ⊎ EndsPath f.digipeaters
  pub typed : f.frame_type ≡ identify_frame_type f.control
  pub direction : f.is_command ≡ f.destination.has_been_repeated
  pub inside : 15 + 7 * length f.digipeaters + length f.payload ≤ length bytes

EndsPath-cons :
    (d : Address) (ds : List Address) → d.is_last ≡ false → EndsPath ds → EndsPath (d ∷ ds)
EndsPath-cons d [] h e = absurd e
EndsPath-cons d (x ∷ ds) h e = (h, e)

-- The result, if there is one, has the property.
abbrev Ensures {ℓ} : {A : Type ℓ} → (A → Type 0) → Result A → Type 0
Ensures P (ok a) = P a
Ensures P (err e) = Unit

abbrev PathRead : ℕ → ℕ → List Address × Bytes → Type 0
PathRead room size r = (length r.0 ≤ room) × EndsPath r.0 × (7 * length r.0 + length r.1 ≤ size)

-- One round of the loop, given what the later rounds read.
round :
    (room : ℕ) (bytes : Bytes) (o : Result Address) (rest : Result (List Address × Bytes))
    → 7 ≤ length bytes
    → Ensures (PathRead room (length (drop 7 bytes))) rest
    → Ensures (PathRead (suc room) (length bytes)) (
        as_invalid o >>= λ d.
        if d.is_last then ok (d ∷ [], drop 7 bytes) else rest >>= λ r. ok (d ∷ r.0, r.1))
round room bytes (err e) rest h k = tt
round room bytes (ok d) (err e) h k = elim (Bool-cases d.is_last) [
  | inl last ↦ rw last (omega arith, refl, omega (arith, length-drop {0} 7 bytes))
  | inr inner ↦ rw inner tt
]
round room bytes (ok d) (ok (ds, left)) h k = elim (Bool-cases d.is_last) [
  | inl last ↦ rw last (omega arith, refl, omega (arith, length-drop {0} 7 bytes))
  | inr inner ↦ rw inner (
    omega arith,
    EndsPath-cons (record d { is_last = false }) ds refl k.1,
    omega (arith, k.2, length-drop {0} 7 bytes),
  )
]

parse_digis-PathRead :
    (room : ℕ) (bytes : Bytes) → Ensures (PathRead room (length bytes)) (parse_digis room bytes)
unfolding parse_digis
parse_digis-PathRead zero bytes = elim (Bool-cases (ltb (length bytes) 7)) [
  | inl few ↦ rw few tt
  | inr many ↦ rw many tt
]
parse_digis-PathRead (suc room) bytes = elim (Bool-cases (ltb (length bytes) 7)) [
  | inl few ↦ rw few tt
  | inr many ↦ rw many (
      round room bytes (decode_address bytes) (parse_digis room (drop 7 bytes)) (ground arith)
        (parse_digis-PathRead room (drop 7 bytes)))
]

info_fits : (b : Bool) (rest : Bytes) → length (if b then drop 1 rest else []) ≤ length rest
info_fits true rest = omega (arith, length-drop {0} 1 rest)
info_fits false rest = omega arith

tail-IsParsed :
    (bytes : Bytes) (dst src : Address) (cmd : Bool) (ds : List Address) (left : Bytes) {f : Frame}
    → cmd ≡ dst.has_been_repeated
    → length ds ≤ 8
    → ((ds ≡ []) × ((src.is_last ≡ true) ⊎ (dst.is_last ≡ true))) ⊎ EndsPath ds
    → 14 + 7 * length ds + length left ≤ length bytes
    → parse_tail dst src cmd ds left ≡ ok f
    → IsParsed bytes f
unfolding parse_tail
tail-IsParsed bytes dst src cmd ds [] dir few path fits h = cc
tail-IsParsed bytes dst src cmd ds (c ∷ rest) dir few path fits h =
    subst (IsParsed bytes) (ok-injective h) (record {
      few = few;
      path = path;
      typed = refl;
      direction = dir;
      inside = omega (arith, info_fits (has_info (identify_frame_type c)) rest);
    })

as_invalid-eq-ok {ℓ} : {A : Type ℓ} (o : Result A) {a : A} → as_invalid o ≡ ok a → o ≡ ok a
as_invalid-eq-ok (ok a) h = h
as_invalid-eq-ok (err e) h = cc

ensured : {A : Type 0} (P : A → Type 0) (o : Result A) {a : A} → Ensures P o → o ≡ ok a → P a
ensured P (ok b) k h = subst P (ok-injective h) k
ensured P (err e) k h = cc

Ensures-map :
    {A : Type 0} {P Q : A → Type 0}
    → ((a : A) → P a → Q a)
    → (o : Result A) → Ensures P o
    → Ensures Q o
Ensures-map f (ok a) k = f a k
Ensures-map f (err e) k = tt

abbrev PathOf : Address → Address → ℕ → List Address × Bytes → Type 0
PathOf dst src size r =
    (length r.0 ≤ 8)
    × (((r.0 ≡ []) × ((src.is_last ≡ true) ⊎ (dst.is_last ≡ true))) ⊎ EndsPath r.0)
    × (14 + 7 * length r.0 + length r.1 ≤ size)

some_end : (a b : Bool) → (not a && not b) ≡ false → (a ≡ true) ⊎ (b ≡ true)
some_end a b h = ground arith

-- The digipeaters that are read, by the branch on the end bits.
path-PathOf :
    (dst src : Address) (bytes : Bytes)
    → 15 ≤ length bytes
    → Ensures (PathOf dst src (length bytes)) (
        if not src.is_last && not dst.is_last
        then parse_digis max_digipeaters (drop 14 bytes)
        else ok ([], drop 14 bytes))
path-PathOf dst src bytes h = elim (Bool-cases (not src.is_last && not dst.is_last)) [
  | inl more ↦ rw more (
      Ensures-map (λ r k. (k.0, inr k.1, omega (arith, k.2, length-drop {0} 14 bytes)))
        (parse_digis 8 (drop 14 bytes)) (parse_digis-PathRead 8 (drop 14 bytes)))
  | inr ended ↦ rw ended (
    omega arith,
    inl (refl, some_end src.is_last dst.is_last ended),
    omega (arith, length-drop {0} 14 bytes),
  )
]

-- What is parsed has at most eight digipeaters, with the end bit on the last of them alone, or on an
-- address before them; its type is that of its control byte, its direction the destination's C bit,
-- and the bytes are at least as many as its parts take.
pub parse_frame-IsParsed : (bytes : Bytes) {f : Frame} → parse_frame bytes ≡ ok f → IsParsed bytes f
unfolding parse_frame
parse_frame-IsParsed bytes h = elim (Bool-cases (ltb (length bytes) 15)) [
  | inl few ↦ cc (rw few at h)
  | inr many ↦
      let e = rw many at h in
      let (dst, got_dst, later) = >>=-eq-ok (as_invalid (decode_address bytes)) _ e in
      let (src, got_src, later') = >>=-eq-ok (as_invalid (decode_address (drop 7 bytes))) _ later in
      let (r, got_path, tail) = >>=-eq-ok _ _ later' in
      let path =
        ensured (PathOf dst src (length bytes)) _ (path-PathOf dst src bytes (ground arith))
          got_path in
      let direction = command_bit bytes (as_invalid-eq-ok (decode_address bytes) got_dst) in
      tail-IsParsed bytes dst src _ r.0 r.1 direction path.0 path.1 path.2 tail
]
