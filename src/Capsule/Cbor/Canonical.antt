-- ===== src/Capsule/Cbor/Canonical.antt =====
-- The decoder accepts no head but the one that the encoder writes.
use ket.Common.{
  ℕ, zero, suc, append_assoc, append_nil, ◌+◌, ◌*◌, ◌/◌, ◌%◌, ◌^◌, ◌≤◌, ◌<◌, ◌≡◌, refl, sym, ◌∙◌,
  ap, [], ◌∷◌, ◌++◌, arith, length, take, drop, All, ok, Result-cases, subst, ◌⊎◌, inl, inr,
}
use native.Mathlib.Nat.{mul-le-mul_right, mul_assoc}
use ket.Capsule.Cbor.{
  Bytes, byte, take_bytes, from_be_bytes, fixed, argument, length_of, to_be_bytes, encode_head,
}

abbrev IsBytes : Bytes → Type 0
IsBytes bs = All (λ b. b < 256) bs

-- The bytes of an integer, read and written again, are the same bytes.
to_be_bytes-from_be_bytes :
    (k high : ℕ) (xs : Bytes)
    → IsBytes xs
    → to_be_bytes (k + length xs) (from_be_bytes high xs) ≡ to_be_bytes k high ++ xs
unfolding to_be_bytes from_be_bytes
to_be_bytes-from_be_bytes k high [] h =
    let n : k + 0 ≡ k = omega arith in rw n (sym (append_nil (to_be_bytes k high)))
to_be_bytes-from_be_bytes k high (x ∷ xs) (h, hs) =
    let n : k + suc (length xs) ≡ suc k + length xs = omega arith in
    let i = to_be_bytes-from_be_bytes (suc k) (high * 256 + x) xs hs in
    let q : (high * 256 + x) / 256 ≡ high = omega arith in
    let r : (high * 256 + x) % 256 ≡ x = omega arith in
    rw n (i ∙ rw (q, r) (append_assoc (to_be_bytes k high) (x ∷ []) xs))

to_be_bytes-read : (xs : Bytes) → IsBytes xs → to_be_bytes (length xs) (from_be_bytes 0 xs) ≡ xs
unfolding to_be_bytes
to_be_bytes-read xs h =
    let z : 0 + length xs ≡ length xs = omega arith in
    subst (λ n. to_be_bytes n (from_be_bytes 0 xs) ≡ xs) z (to_be_bytes-from_be_bytes 0 0 xs h)

from_be_bytes_lt :
    (high : ℕ) (xs : Bytes) → IsBytes xs → from_be_bytes high xs < (high + 1) * 256 ^ length xs
unfolding from_be_bytes
from_be_bytes_lt high [] h = ground arith
from_be_bytes_lt high (x ∷ xs) (h, hs) =
    let i = from_be_bytes_lt (high * 256 + x) xs hs in
    let below : high * 256 + x + 1 ≤ (high + 1) * 256 = omega arith in
    let m = mul-le-mul_right (256 ^ length xs) below in
    let p : 256 ^ suc (length xs) ≡ 256 * 256 ^ length xs = omega arith in
    let a = mul_assoc (high + 1) 256 (256 ^ length xs) in rw p (omega arith)

take-drop :
    (n : ℕ) (xs : Bytes) → n ≤ length xs → (xs ≡ take n xs ++ drop n xs) × (length (take n xs) ≡ n)
take-drop zero xs h = (refl, refl)
take-drop (suc n) [] h = absurd (omega arith)
take-drop (suc n) (x ∷ xs) h =
    let (a, b) = take-drop n xs (omega arith) in (ap (λ l. x ∷ l) a, ap suc b)

-- What `take_bytes` returns is the start of the input.
take_bytes_ok :
    (count maximum : ℕ) (input xs rest : Bytes)
    → take_bytes count maximum input ≡ ok (xs, rest)
    → (input ≡ xs ++ rest) × (length xs ≡ count)
unfolding take_bytes
take_bytes_ok count maximum input xs rest h =
    let q : (count ≤ length input) × (take count input ≡ xs) × (drop count input ≡ rest) =
      ground arith in
    let (a, b) = take-drop count input q.0 in (rw⁻¹ (q.1, q.2) a, rw⁻¹ q.1 b)

All-append_left : (xs ys : Bytes) → IsBytes (xs ++ ys) → IsBytes xs
All-append_left [] ys h = tt
All-append_left (x ∷ xs) ys (h, hs) = (h, All-append_left xs ys hs)

fixed_ok :
    (w v : ℕ) (input rest : Bytes)
    → IsBytes input
    → fixed w input ≡ ok (v, rest)
    → (input ≡ to_be_bytes w v ++ rest) × (v < 256 ^ w)
unfolding fixed
fixed_ok w v input rest h e = elim (Result-cases (take_bytes w w input)) [
  | inr (x, n) ↦ absurd (ground arith)
  | inl ((xs, r), n) ↦
      let (from_xs, count) = take_bytes_ok w w input xs r n in
      let is : (from_be_bytes 0 xs ≡ v) × (r ≡ rest) = ground arith in
      let hx = All-append_left xs r (rw⁻¹ from_xs h) in
      let back = to_be_bytes-read xs hx in
      let lt = from_be_bytes_lt 0 xs hx in
      let same : to_be_bytes w v ≡ xs = rw⁻¹ (count, is.0) back in
      (rw (same, ← is.1) from_xs, rw⁻¹ (count, is.0) (omega arith))
]

module _ (major v : ℕ) where
  head2 : 0x100 ≤ v → v < 256 ^ 2 → encode_head major v ≡ (major * 32 + 25) ∷ to_be_bytes 2 v
  unfolding encode_head
  head2 lo hi = ground arith

  head4 : 0x10000 ≤ v → v < 256 ^ 4 → encode_head major v ≡ (major * 32 + 26) ∷ to_be_bytes 4 v
  unfolding encode_head
  head4 lo hi = ground arith

  head8 : 0x100000000 ≤ v → encode_head major v ≡ (major * 32 + 27) ∷ to_be_bytes 8 v
  unfolding encode_head
  head8 lo = ground arith

  head1 : 24 ≤ v → v < 256 → encode_head major v ≡ (major * 32 + 24) ∷ v ∷ []
  unfolding encode_head
  head1 lo hi = ground arith

  head0 : v ≤ 23 → encode_head major v ≡ (major * 32 + v) ∷ []
  unfolding encode_head
  head0 h = ground arith

-- The forms that `argument` accepts.
argument_ok :
    (a v : ℕ) (input rest : Bytes)
    → argument a input ≡ ok (v, rest)
    → ((a ≤ 23) × (v ≡ a) × (rest ≡ input))
      ⊎ ((a ≡ 24) × (24 ≤ v) × (input ≡ v ∷ rest))
      ⊎ ((a ≡ 25) × (0x100 ≤ v) × (fixed 2 input ≡ ok (v, rest)))
      ⊎ ((a ≡ 26) × (0x10000 ≤ v) × (fixed 4 input ≡ ok (v, rest)))
      ⊎ ((a ≡ 27) × (0x100000000 ≤ v) × (fixed 8 input ≡ ok (v, rest)))
unfolding argument byte
argument_ok a v input rest e = ground arith

argument-canonical :
    (major a v : ℕ) (input rest : Bytes)
    → IsBytes input
    → argument a input ≡ ok (v, rest)
    → (major * 32 + a) ∷ input ≡ encode_head major v ++ rest
argument-canonical major a v input rest h e = elim (argument_ok a v input rest e) [
  | inl (le, is, same) ↦ rw (head0 major v (omega arith), same, is) refl
  | inr (inl (is, lo, same)) ↦ let b = (rw same at h).0 in rw (head1 major v lo b, is, same) refl
  | inr (inr (inl (is, lo, read))) ↦
      let (from, hi) = fixed_ok 2 v input rest h read in
      rw (head2 major v lo hi, is) (ap (λ l. (major * 32 + 25) ∷ l) from)
  | inr (inr (inr (inl (is, lo, read)))) ↦
      let (from, hi) = fixed_ok 4 v input rest h read in
      rw (head4 major v lo hi, is) (ap (λ l. (major * 32 + 26) ∷ l) from)
  | inr (inr (inr (inr (is, lo, read)))) ↦
      let (from, hi) = fixed_ok 8 v input rest h read in
      rw (head8 major v lo, is) (ap (λ l. (major * 32 + 27) ∷ l) from)
]

-- A head that is read from bytes is the one that the encoder writes for what was read: no value
-- has a second form.
pub length_of-canonical :
    (major v : ℕ) (input rest : Bytes)
    → All (λ b. b < 256) input
    → length_of major input ≡ ok (v, rest)
    → input ≡ encode_head major v ++ rest
unfolding length_of byte
length_of-canonical major v [] rest h e = absurd (ground arith)
length_of-canonical major v (b ∷ input) rest (hb, h) e =
    let q : (b / 32 ≡ major) × (argument (b % 32) input ≡ ok (v, rest)) = ground arith in
    let is : b ≡ major * 32 + b % 32 = omega arith in
    ap (λ x. x ∷ input) is ∙ argument-canonical major (b % 32) v input rest h q.1
