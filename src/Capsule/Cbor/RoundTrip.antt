-- ===== src/Capsule/Cbor/RoundTrip.antt =====
-- What the encoder writes, the decoder reads back, and what the decoder reads is what the encoder
-- would have written: no other form is accepted.
use ket.Common.{
  ℕ, zero, suc, length-append, append_assoc, ◌+◌, ◌*◌, ◌/◌, ◌%◌, ◌^◌, ◌≤◌, ◌<◌, ◌≡◌, refl, ◌∙◌, ap,
  [], ◌∷◌, ◌++◌, Option, none, some, arith, OnSome, length, take, drop, ok,
}
use ket.Capsule.Cbor.{
  Bytes, byte, take_bytes, from_be_bytes, fixed, argument, length_of, uint, optional_uint, bytes,
  to_be_bytes, encode_head, encode_uint, encode_optional_uint, encode_bytes, major_bytes,
}

length-to_be_bytes : (w v : ℕ) → length (to_be_bytes w v) ≡ w
unfolding to_be_bytes
length-to_be_bytes zero v = refl
length-to_be_bytes (suc w) v =
    let n = length-append (to_be_bytes w (v / 256)) (v % 256 ∷ []) in
    omega (arith, length-to_be_bytes w (v / 256))

from_be_bytes-append :
    (high : ℕ) (bs : Bytes) (b : ℕ)
    → from_be_bytes high (bs ++ b ∷ []) ≡ from_be_bytes high bs * 256 + b
unfolding from_be_bytes
from_be_bytes-append high [] b = refl
from_be_bytes-append high (x ∷ bs) b = from_be_bytes-append (high * 256 + x) bs b

from_be_bytes-to_be_bytes : (w v : ℕ) → v < 256 ^ w → from_be_bytes 0 (to_be_bytes w v) ≡ v
unfolding from_be_bytes to_be_bytes
from_be_bytes-to_be_bytes zero v h = omega arith
from_be_bytes-to_be_bytes (suc w) v h =
    let e = from_be_bytes-append 0 (to_be_bytes w (v / 256)) (v % 256) in
    let i = from_be_bytes-to_be_bytes w (v / 256) (omega arith) in e ∙ rw i (omega arith)

take-drop-append :
    (xs rest : Bytes)
    → (take (length xs) (xs ++ rest) ≡ xs) × (drop (length xs) (xs ++ rest) ≡ rest)
take-drop-append [] rest = (refl, refl)
take-drop-append (x ∷ xs) rest = let (a, b) = take-drop-append xs rest in (ap (λ l. x ∷ l) a, b)

take_bytes-append :
    (count maximum : ℕ) (xs rest : Bytes)
    → length xs ≡ count
    → count ≤ maximum
    → take_bytes count maximum (xs ++ rest) ≡ ok (xs, rest)
unfolding take_bytes
take_bytes-append count maximum xs rest h le =
    let (a, b) = take-drop-append xs rest in let n = length-append xs rest in rw⁻¹ h (ground arith)

-- An integer of `w` bytes is read back, whatever follows.
fixed-to_be_bytes :
    (w v : ℕ) (rest : Bytes) → v < 256 ^ w → fixed w (to_be_bytes w v ++ rest) ≡ ok (v, rest)
unfolding fixed
fixed-to_be_bytes w v rest h =
    rw
      (
        take_bytes-append w w (to_be_bytes w v) rest (length-to_be_bytes w v) (omega arith),
        from_be_bytes-to_be_bytes w v h,
      )
      refl

-- The head of an item is read back, whatever follows.
pub length_of-encode_head :
    (major v : ℕ) (rest : Bytes)
    → v < 2 ^ 64
    → length_of major (encode_head major v ++ rest) ≡ ok (v, rest)
unfolding length_of argument byte encode_head
length_of-encode_head major v rest h =
    let a = fixed-to_be_bytes 2 v rest in
    let b = fixed-to_be_bytes 4 v rest in let c = fixed-to_be_bytes 8 v rest in ground arith

uint-encode_uint : (v : ℕ) (rest : Bytes) → v < 2 ^ 64 → uint (encode_uint v ++ rest) ≡ ok (v, rest)
unfolding uint encode_uint length_of
uint-encode_uint v rest h = length_of-encode_head 0 v rest h

-- An unsigned integer below 2 ^ 64, or `null`, is read back, whatever follows.
pub optional_uint-encode_optional_uint :
    (value : Option ℕ) (rest : Bytes)
    → OnSome (λ v. v < 2 ^ 64) value
    → optional_uint (encode_optional_uint value ++ rest) ≡ ok (value, rest)
unfolding optional_uint encode_optional_uint encode_uint encode_head
optional_uint-encode_optional_uint none rest h = refl
optional_uint-encode_optional_uint (some v) rest h =
    let e = uint-encode_uint v rest h in ground arith

-- A byte string shorter than 2 ^ 64 is read back, whatever follows, if it is no longer than the
-- reader allows.
pub bytes-encode_bytes :
    (maximum : ℕ) (value rest : Bytes)
    → length value ≤ maximum
    → length value < 2 ^ 64
    → bytes maximum (encode_bytes value ++ rest) ≡ ok (value, rest)
unfolding bytes encode_bytes
bytes-encode_bytes maximum value rest le h =
    let e = length_of-encode_head major_bytes (length value) (value ++ rest) h in
    let t = take_bytes-append (length value) maximum value rest refl le in
    let a = append_assoc (encode_head major_bytes (length value)) value rest in rw (a, e) t
