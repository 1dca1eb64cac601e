-- ===== src/Share/Dns.antt =====
-- Lookups through the tunnel: dns.rs of crates/ket-share/src, but for the socket. Bytes are numbers
-- below 256, and what is left from an offset on is the rest of the list.
pub mod Message
pub mod Question
pub mod Records
pub mod RoundTrip
use ket.Common.{
  ℕ, zero, suc, ◌+◌, ◌*◌, ◌/◌, ◌%◌, ◌==◌, Bool, true, false, not, ◌&&◌, ◌||◌, List, [], ◌∷◌, ◌++◌,
  Option, none, some, Text, Text-discrete, ltb, leb, if◌then◌else◌, length, drop, map, same_text,
}
use ket.Common.Chars.{utf8_len, as_bytes}
use ket.Net.{ipv4}
use ket.Update.Header.{split}
use ket.Share.Target.{lower}

-- The operator `?` on options.
infixl 20 ◌>>=◌
abbrev pub ◌>>=◌ {ℓ} : {A B : Type ℓ} → Option A → (A → Option B) → Option B
none >>= f = none
some a >>= f = f a

-- `to_be_bytes` and `from_be_bytes` of a `u16`
abbrev pub to_be_bytes : ℕ → List ℕ
to_be_bytes n = n / 256 ∷ n % 256 ∷ []

abbrev pub from_be_bytes : ℕ → ℕ → ℕ
from_be_bytes a b = a * 256 + b

-- The labels of a name, each after its length as a byte.
unfoldable pub labels_of : List Text → List ℕ
unfolding utf8_len as_bytes
labels_of [] = []
labels_of (label ∷ labels) = utf8_len label % 256 ∷ (as_bytes label ++ labels_of labels)

-- What follows the header of `query`.
unfoldable pub question_of : Text → List ℕ
unfolding split labels_of
question_of name = labels_of (split b'.' name) ++ 0 ∷ 0 ∷ 1 ∷ 0 ∷ 1 ∷ []

-- `query`
unfoldable pub query : ℕ → Text → List ℕ
query id name = to_be_bytes id ++ 1 ∷ 0 ∷ 0 ∷ 1 ∷ 0 ∷ 0 ∷ 0 ∷ 0 ∷ 0 ∷ 0 ∷ question_of name

pub data Answer : Type 0 where
  addresses : List ℕ → Answer
  not_found : Answer
  ignored : Answer

-- `get(..count)?`, and what follows.
unfoldable pub split_at : ℕ → List ℕ → Option (List ℕ × List ℕ)
split_at zero bytes = some ([], bytes)
split_at (suc count) [] = none
split_at (suc count) (b ∷ bytes) = (elim (split_at count bytes) [
  | none ↦ none
  | some (taken, rest) ↦ some (b ∷ taken, rest)
])

-- `skip_name`: what follows the name; on fuel for a step per byte.
unfoldable pub skip_name : ℕ → List ℕ → Option (List ℕ)
skip_name zero bytes = none
skip_name (suc fuel) [] = none
skip_name (suc fuel) (zero ∷ bytes) = some bytes
skip_name (suc fuel) (suc n ∷ bytes) =
    let rest = skip_name fuel (drop (suc n) bytes) in
    if suc n / 64 == 3
    then (elim bytes [ [] ↦ none | _ ∷ after ↦ some after ])
    else if suc n / 64 == 0
    then rest
    else none

-- A record of the type A and the class IN with four bytes is an address.
abbrev pub address_of : List ℕ → List ℕ → List ℕ → List ℕ
address_of (k1 ∷ k2 ∷ c1 ∷ c2 ∷ _) (a ∷ b ∷ c ∷ d ∷ []) found =
    if from_be_bytes k1 k2 == 1 && from_be_bytes c1 c2 == 1 then ipv4 a b c d ∷ found else found
address_of _ _ found = found

abbrev pub data_length : List ℕ → ℕ
data_length (_ ∷ _ ∷ _ ∷ _ ∷ _ ∷ _ ∷ _ ∷ _ ∷ l1 ∷ l2 ∷ []) = from_be_bytes l1 l2
data_length _ = 0

-- The loop over the answers.
unfoldable pub read_records : ℕ → List ℕ → Option (List ℕ)
unfolding skip_name split_at
read_records zero bytes = some []
read_records (suc count) bytes = do
  after_name ← skip_name (length bytes) bytes
  (fixed, after_fixed) ← split_at 10 after_name
  (data_bytes, rest) ← split_at (data_length fixed) after_fixed
  found ← read_records count rest
  some (address_of fixed data_bytes found)

abbrev pub answered : List ℕ → Answer
answered [] = not_found
answered (a ∷ found) = addresses (a ∷ found)

-- What the code in the header allows: the answers, the refusal or nothing.
abbrev pub by_code : ℕ → ℕ → List ℕ → Option Answer
by_code code count bytes =
    if code == 0
    then (do found ← read_records count bytes; some (answered found))
    else if code == 3
    then some not_found
    else none

abbrev pub of_header : ℕ → Text → List ℕ → List ℕ → Option Answer
of_header id name (i1 ∷ i2 ∷ h2 ∷ h3 ∷ q1 ∷ q2 ∷ a1 ∷ a2 ∷ _ ∷ _ ∷ _ ∷ _ ∷ []) bytes =
    if not (from_be_bytes i1 i2 == id) || h2 / 128 % 2 == 0 || not (from_be_bytes q1 q2 == 1)
    then none
    else (do
      (asked, rest) ← split_at (length (question_of name)) bytes
      if same_text (map lower asked) (map lower (question_of name))
          then by_code (h3 % 16) (from_be_bytes a1 a2) rest
          else none)
of_header id name _ bytes = none

-- `read_answer`
unfoldable pub read_answer : ℕ → Text → List ℕ → Option Answer
read_answer id name response = do
  (header, bytes) ← split_at 12 response
  of_header id name header bytes

abbrev or_ignored : Option Answer → Answer
or_ignored none = ignored
or_ignored (some a) = a

-- `answer`
unfoldable pub answer : ℕ → Text → List ℕ → Answer
answer id name response = or_ignored (read_answer id name response)
