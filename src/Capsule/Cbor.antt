-- ===== src/Capsule/Cbor.antt =====
-- crates/invite-capsule/src/cbor.rs: deterministic CBOR, each item in its shortest form. A decoder is
-- the list of the bytes that it has not read yet.
pub mod RoundTrip
pub mod Canonical
use ket.Common.{
  ℕ, zero, suc, ◌+◌, ◌-◌, ◌*◌, ◌/◌, ◌%◌, ◌^◌, Bool, List, [], ◌∷◌, ◌++◌, Option, none, some, ltb,
  leb, ◌==◌, if◌then◌else◌, length, is_empty, take, drop, Result, ok, err, ◌>>=◌, ◌>>◌, guard,
}

pub data CapsuleError : Type 0 where
  invalid too_large unsupported_version wrong_application unsupported_capability invalid_signature
        expired unsupported_locator unsafe_locator invalid_node_key node_identity_mismatch
        invalid_checksum :
      CapsuleError

abbrev pub major_uint : ℕ
major_uint = 0

abbrev pub major_bytes : ℕ
major_bytes = 2

abbrev pub major_text : ℕ
major_text = 3

abbrev pub major_array : ℕ
major_array = 4

abbrev pub null : ℕ
null = 0xf6

abbrev pub Bytes : Type 0
Bytes = List ℕ

-- What an operation of `Decoder` returns, with the bytes left.
abbrev pub Decoded : Type 0 → Type 0
Decoded A = Result CapsuleError (A × Bytes)

-- `Decoder::finish`
unfoldable pub finish : Bytes → Result CapsuleError (Unit {0})
finish input = guard (is_empty input) invalid

-- `Decoder::byte`
unfoldable pub byte : Bytes → Decoded ℕ
byte [] = err invalid
byte (b ∷ input) = ok (b, input)

-- `Decoder::take`
unfoldable pub take_bytes : ℕ → ℕ → Bytes → Decoded Bytes
take_bytes count maximum input =
    if ltb maximum count
    then err too_large
    else (if leb count (length input) then ok (take count input, drop count input) else err invalid)

-- `from_be_bytes`, after the bytes of `high`.
unfoldable pub from_be_bytes : ℕ → Bytes → ℕ
from_be_bytes high [] = high
from_be_bytes high (b ∷ bs) = from_be_bytes (high * 256 + b) bs

-- `Decoder::fixed`, as the integer that it is read for.
unfoldable pub fixed : ℕ → Bytes → Decoded ℕ
unfolding take_bytes from_be_bytes
fixed count input = do
  (slice, rest) ← take_bytes count count input
  ok (from_be_bytes 0 slice, rest)

-- `(value >= minimum).then_some(value)`
abbrev shortest : ℕ → Decoded ℕ → Decoded ℕ
shortest minimum read = do (value, rest) ← read; guard (leb minimum value) invalid; ok (value, rest)

-- `Decoder::argument`
unfoldable pub argument : ℕ → Bytes → Decoded ℕ
unfolding byte fixed
argument additional input =
    if leb additional 23
    then ok (additional, input)
    else (if additional == 24
        then shortest 24 (byte input)
        else (if additional == 25
            then shortest 0x100 (fixed 2 input)
            else (if additional == 26
                then shortest 0x10000 (fixed 4 input)
                else (if additional == 27
                    then shortest 0x100000000 (fixed 8 input)
                    else err invalid))))

-- `Decoder::length`, on a target whose `usize` holds every `u64`.
unfoldable pub length_of : ℕ → Bytes → Decoded ℕ
unfolding byte argument
length_of major input = do
  (b, rest) ← byte input
  guard (b / 32 == major) invalid
  argument (b % 32) rest

-- `Decoder::array_len` and `Decoder::array`
unfoldable pub array_len : Bytes → Decoded ℕ
unfolding length_of
array_len input = length_of major_array input

unfoldable pub array : ℕ → Bytes → Decoded (Unit {0})
unfolding array_len
array expected input = do
  (count, rest) ← array_len input
  guard (count == expected) invalid
  ok (tt, rest)

-- `Decoder::uint`
unfoldable pub uint : Bytes → Decoded ℕ
unfolding byte argument
uint input = do (b, rest) ← byte input; guard (b / 32 == major_uint) invalid; argument (b % 32) rest

-- `Decoder::optional_uint`
unfoldable pub optional_uint : Bytes → Decoded (Option ℕ)
unfolding uint
optional_uint [] = uint [] >>= λ (value, rest). ok (some value, rest)
optional_uint (b ∷ input) =
    if b == null
    then ok (none, input)
    else (uint (b ∷ input) >>= λ (value, rest). ok (some value, rest))

-- `Decoder::bytes`
unfoldable pub bytes : ℕ → Bytes → Decoded Bytes
unfolding length_of take_bytes
bytes maximum input = do (count, rest) ← length_of major_bytes input; take_bytes count maximum rest

-- `to_be_bytes`, of an integer of the given number of bytes.
unfoldable pub to_be_bytes : ℕ → ℕ → Bytes
to_be_bytes zero value = []
to_be_bytes (suc width) value = to_be_bytes width (value / 256) ++ value % 256 ∷ []

-- `encode_head`: the bytes that it appends. The prefix `major << 5` and the low five bits do not
-- overlap, so `|` is a sum.
unfoldable pub encode_head : ℕ → ℕ → Bytes
unfolding to_be_bytes
encode_head major value =
    let prefix = major * 32 in
    if leb value 23
    then (prefix + value) ∷ []
    else (if leb value 0xff
        then (prefix + 24) ∷ value ∷ []
        else (if leb value 0xffff
            then (prefix + 25) ∷ to_be_bytes 2 value
            else (if leb value 0xffffffff
                then (prefix + 26) ∷ to_be_bytes 4 value
                else (prefix + 27) ∷ to_be_bytes 8 value)))

-- `encode_array`, `encode_uint`, `encode_optional_uint` and `encode_bytes`
unfoldable pub encode_array : ℕ → Bytes
unfolding encode_head
encode_array count = encode_head major_array count

unfoldable pub encode_uint : ℕ → Bytes
unfolding encode_head
encode_uint value = encode_head major_uint value

unfoldable pub encode_optional_uint : Option ℕ → Bytes
unfolding encode_uint
encode_optional_uint (some value) = encode_uint value
encode_optional_uint none = null ∷ []

unfoldable pub encode_bytes : Bytes → Bytes
unfolding encode_head
encode_bytes value = encode_head major_bytes (length value) ++ value
