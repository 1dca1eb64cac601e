-- ===== src/Share/Dns/Records.antt =====
-- The records of an answer, as dns.rs of crates/ket-share/src skips and reads them.
use ket.Common.{
  ℕ, zero, suc, ◌/◌, ◌%◌, ◌^◌, ◌<◌, ◌≤◌, ◌==◌, ◌≡◌, refl, sym, ◌∙◌, ap, arith, Bool, ◌&&◌, true,
  false, List, [], ◌∷◌, ◌++◌, none, some, length, length-append, append_assoc, drop, All,
  if◌then◌else◌,
}
use ket.Net.{ipv4}
use ket.Share.Dns.{from_be_bytes, split_at, skip_name, read_records, data_length, address_of}
use ket.Share.Dns.Message.{
  wire_labels, NameEnd, root, pointer, wire_end, ResourceRecord, wire_fixed, wire_records,
  IsPointer, Readable, four, kept, addresses_in,
}

pub split_at-append : (xs ys : List ℕ) → split_at (length xs) (xs ++ ys) ≡ some (xs, ys)
unfolding split_at
split_at-append [] ys = refl
split_at-append (x ∷ xs) ys = rw (split_at-append xs ys) refl

pub from_be_bytes-to_be_bytes : (n : ℕ) → from_be_bytes (n / 256) (n % 256) ≡ n
from_be_bytes-to_be_bytes n = omega arith

length-drop_le : (n : ℕ) (bytes : List ℕ) → length (drop n bytes) ≤ length bytes
length-drop_le zero bytes = omega arith
length-drop_le (suc n) [] = omega arith
length-drop_le (suc n) (b ∷ bytes) = omega (arith, length-drop_le n bytes)

-- Fuel for a step per byte is enough to skip a name: more fuel changes nothing.
pub skip_name-enough :
    (j k : ℕ) (bytes : List ℕ)
    → length bytes ≤ j
    → length bytes ≤ k
    → skip_name j bytes ≡ skip_name k bytes
unfolding skip_name
skip_name-enough zero zero [] h i = refl
skip_name-enough zero (suc k) [] h i = refl
skip_name-enough (suc j) zero [] h i = refl
skip_name-enough (suc j) (suc k) [] h i = refl
skip_name-enough zero k (b ∷ bytes) h i = absurd (omega arith)
skip_name-enough (suc j) zero (b ∷ bytes) h i = absurd (omega arith)
skip_name-enough (suc j) (suc k) (zero ∷ bytes) h i = refl
skip_name-enough (suc j) (suc k) (suc n ∷ bytes) h i =
    let shorter = length-drop_le (suc n) bytes in
    rw (skip_name-enough j k (drop (suc n) bytes) (omega arith) (omega arith)) refl

drop-append : (l rest : List ℕ) → drop (length l) (l ++ rest) ≡ rest
drop-append [] rest = refl
drop-append (b ∷ l) rest = drop-append l rest

skip_name-end :
    (k : ℕ) (ending : NameEnd) (rest : List ℕ)
    → IsPointer ending
    → skip_name (suc k) (wire_end ending ++ rest) ≡ some rest
unfolding skip_name
skip_name-end k root rest h = refl
skip_name-end k (pointer zero low) rest (h, i) = absurd (omega arith)
skip_name-end k (pointer (suc n) low) rest (h, i) =
    let high : (suc n / 64 == 3) ≡ true = ground arith in rw high refl

skip_name-label :
    (k n : ℕ) (bytes : List ℕ)
    → n < 63
    → skip_name (suc k) (suc n ∷ bytes) ≡ skip_name k (drop (suc n) bytes)
unfolding skip_name
skip_name-label k n bytes h =
    let low : (suc n / 64 == 3) ≡ false = ground arith in
    let zero_bits : (suc n / 64 == 0) ≡ true = ground arith in rw (low, zero_bits) refl

-- A name of any labels is skipped.
skip_name-wire :
    (k : ℕ) (ls : List (List ℕ)) (ending : NameEnd) (rest : List ℕ)
    → length (wire_labels ls) < k
    → All (λ l. (1 ≤ length l) × (length l ≤ 63)) ls
    → IsPointer ending
    → skip_name k (wire_labels ls ++ (wire_end ending ++ rest)) ≡ some rest
skip_name-wire zero ls ending rest h valid p = absurd (omega arith)
skip_name-wire (suc k) [] ending rest h valid p = skip_name-end k ending rest p
skip_name-wire (suc k) ([] ∷ ls) ending rest h ((least, most), valid) p = absurd (omega arith)
skip_name-wire (suc k) ((b ∷ l) ∷ ls) ending rest h ((least, most), valid) p =
    let sizes = length-append l (wire_labels ls) in
    let after = wire_end ending ++ rest in
    rw
      (
        skip_name-label k (length l) (((b ∷ l) ++ wire_labels ls) ++ after) (omega arith),
        append_assoc l (wire_labels ls) after,
        drop-append l (wire_labels ls ++ after),
      )
      (skip_name-wire k ls ending rest (omega arith) valid p)

wire_end-length : (ending : NameEnd) (rest : List ℕ) → 1 ≤ length (wire_end ending ++ rest)
wire_end-length root rest = omega arith
wire_end-length (pointer high low) rest = omega arith

split_at-fixed :
    (r : ResourceRecord) (rest : List ℕ)
    → split_at 10 (wire_fixed r ++ rest) ≡ some (wire_fixed r, rest)
unfolding split_at
split_at-fixed r rest = refl

if-none : (b : Bool) (found : List ℕ) → kept (if b then none else none) found ≡ found
if-none true found = refl
if-none false found = refl

if-some :
    (b : Bool) (a : ℕ) (found : List ℕ)
    → (if b then a ∷ found else found) ≡ kept (if b then some a else none) found
if-some true a found = refl
if-some false a found = refl

module _ (k c : ℕ) (fixed : List ℕ) where
  address_of-contents :
      (contents found : List ℕ)
      → address_of (k / 256 ∷ k % 256 ∷ c / 256 ∷ c % 256 ∷ fixed) contents found
        ≡ kept (if k == 1 && c == 1 then four contents else none) found
  address_of-contents [] found = sym (if-none (k == 1 && c == 1) found)
  address_of-contents (a ∷ []) found = sym (if-none (k == 1 && c == 1) found)
  address_of-contents (a ∷ b ∷ []) found = sym (if-none (k == 1 && c == 1) found)
  address_of-contents (a ∷ b ∷ d ∷ []) found = sym (if-none (k == 1 && c == 1) found)
  address_of-contents (a ∷ b ∷ d ∷ e ∷ []) found =
      rw (from_be_bytes-to_be_bytes k, from_be_bytes-to_be_bytes c)
        (if-some (k == 1 && c == 1) (ipv4 a b d e) found)
  address_of-contents (a ∷ b ∷ d ∷ e ∷ f ∷ more) found = sym (if-none (k == 1 && c == 1) found)

address_of-wire :
    (r : ResourceRecord) (rs : List ResourceRecord)
    → address_of (wire_fixed r) r.contents (addresses_in rs) ≡ addresses_in (r ∷ rs)
address_of-wire r rs =
    address_of-contents r.kind r.class
      (r.time_to_live / 2 ^ 24
        ∷ r.time_to_live / 2 ^ 16 % 256
        ∷ r.time_to_live / 256 % 256
        ∷ r.time_to_live % 256
        ∷ length r.contents / 256
        ∷ length r.contents % 256
        ∷ [])
      r.contents (addresses_in rs)

read_records-zero : (bytes : List ℕ) → read_records 0 bytes ≡ some []
unfolding read_records
read_records-zero bytes = refl

read_records-suc :
    (count : ℕ) (bytes after fixed after_fixed contents rest found : List ℕ)
    → skip_name (length bytes) bytes ≡ some after
    → split_at 10 after ≡ some (fixed, after_fixed)
    → split_at (data_length fixed) after_fixed ≡ some (contents, rest)
    → read_records count rest ≡ some found
    → read_records (suc count) bytes ≡ some (address_of fixed contents found)
unfolding read_records
read_records-suc count bytes after fixed after_fixed contents rest found e f g h =
    rw e (rw f (rw g (rw h refl)))

-- Of any records the addresses are read, and the others are skipped.
pub read_records-wire :
    (rs : List ResourceRecord) (more : List ℕ)
    → All Readable rs
    → read_records (length rs) (wire_records rs more) ≡ some (addresses_in rs)
read_records-wire [] more h = read_records-zero more
read_records-wire (r ∷ rs) more ((valid, p), h) =
    let rest = wire_records rs more in
    let after = wire_fixed r ++ (r.contents ++ rest) in
    let name = wire_labels r.labels ++ (wire_end r.ending ++ after) in
    let sizes = length-append (wire_labels r.labels) (wire_end r.ending ++ after) in
    let contents_length = from_be_bytes-to_be_bytes (length r.contents) in
    let size : length (wire_labels r.labels) < length name =
      omega (arith, sizes, wire_end-length r.ending after) in
    read_records-suc (length rs) name after (wire_fixed r) (r.contents ++ rest) r.contents rest
      (addresses_in rs) (skip_name-wire (length name) r.labels r.ending after size valid p)
      (split_at-fixed r (r.contents ++ rest)) (rw contents_length (split_at-append r.contents rest))
      (read_records-wire rs more h)
    ∙ ap some (address_of-wire r rs)
