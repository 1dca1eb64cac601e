-- ===== src/Share/Dns/RoundTrip.antt =====
-- What resolvers answer, as dns.rs of crates/ket-share/src reads it.
use ket.Common.{
  ℕ, suc, ◌/◌, ◌%◌, ◌≤◌, ◌==◌, ◌≡◌, refl, sym, ◌∙◌, ap, arith, true, false, List, [], ◌∷◌, ◌++◌,
  some, Text, length, map, same_text, All,
}
use ket.Share.Target.{lower}
use ket.Share.Target.Labels.{join, Label}
use ket.Share.Dns.{ignored, split_at, answered, of_header, read_answer, answer}
use ket.Share.Dns.Message.{
  wire_question, ResourceRecord, wire_records, Readable, wire_header, addresses_in,
}
use ket.Share.Dns.Question.{question_of-wire}
use ket.Share.Dns.Records.{split_at-append, from_be_bytes-to_be_bytes, read_records-wire}

==-refl : (n : ℕ) → (n == n) ≡ true
==-refl n = ground arith

same_text_refl : (t : Text) → same_text t t ≡ true
same_text_refl t = ground arith

==-differs : (m n : ℕ) → ¬ (m ≡ n) → (m == n) ≡ false
==-differs m n h = ground arith

length-map : (f : ℕ → ℕ) (t : List ℕ) → length (map f t) ≡ length t
length-map f [] = refl
length-map f (c ∷ t) = ap suc (length-map f t)

of_header-wire :
    (id flags code : ℕ) (labels : List Text) (asked : List ℕ) (rs : List ResourceRecord)
    (a b c d : ℕ) (more : List ℕ)
    → 1 ≤ length labels
    → All Label labels
    → map lower asked ≡ map lower (wire_question labels)
    → All Readable rs
    → flags / 128 % 2 ≡ 1
    → code % 16 ≡ 0
    → of_header id
        (join labels)
        (wire_header id flags code (length rs) (a ∷ b ∷ c ∷ d ∷ []))
        (asked ++ wire_records rs more)
      ≡ some (answered (addresses_in rs))
of_header-wire id flags code labels asked rs a b c d more h k same readable response no_error =
    let size : length (wire_question labels) ≡ length asked =
      sym (length-map lower (wire_question labels))
      ∙ (ap length (sym same) ∙ length-map lower asked) in
    rw
      (
        from_be_bytes-to_be_bytes id,
        ==-refl id,
        response,
        no_error,
        question_of-wire labels h k,
        size,
        split_at-append asked (wire_records rs more),
        same,
        same_text_refl (map lower (wire_question labels)),
        from_be_bytes-to_be_bytes (length rs),
        read_records-wire rs more readable,
      )
      refl

split_at-wire_header :
    (id flags code count a b c d : ℕ) (rest : List ℕ)
    → split_at 12 (wire_header id flags code count (a ∷ b ∷ c ∷ d ∷ []) ++ rest)
      ≡ some (wire_header id flags code count (a ∷ b ∷ c ∷ d ∷ []), rest)
unfolding split_at
split_at-wire_header id flags code count a b c d rest = refl

-- An answer to the query for a name of valid labels is read, if it is a response without an error to
-- that one question, in any letter case, and the names of its records have labels of 1 to 63 bytes and
-- end in the root or a pointer: the addresses are those of its records of the type A and the class IN
-- with four bytes, in order, and the name is not found if there are none. Records of other types, the
-- sections that follow and the rest of the flags do not matter.
pub answer-wire :
    (id flags code : ℕ) (labels : List Text) (asked : List ℕ) (rs : List ResourceRecord)
    (a b c d : ℕ) (more : List ℕ)
    → 1 ≤ length labels
    → All Label labels
    → map lower asked ≡ map lower (wire_question labels)
    → All Readable rs
    → flags / 128 % 2 ≡ 1
    → code % 16 ≡ 0
    → answer id (join labels) (
        wire_header id flags code (length rs) (a ∷ b ∷ c ∷ d ∷ [])
        ++ (asked ++ wire_records rs more))
      ≡ answered (addresses_in rs)
unfolding answer read_answer
answer-wire id flags code labels asked rs a b c d more h k same readable response no_error =
    rw
      (
        split_at-wire_header id flags code (length rs) a b c d (asked ++ wire_records rs more),
        of_header-wire id flags code labels asked rs a b c d more h k same readable response
            no_error,
      )
      refl

-- An answer to a query with another number is not read.
pub answer-other :
    (id other flags code count a b c d : ℕ) (name : Text) (rest : List ℕ)
    → ¬ (other ≡ id)
    → answer id name (wire_header other flags code count (a ∷ b ∷ c ∷ d ∷ []) ++ rest) ≡ ignored
unfolding answer read_answer
answer-other id other flags code count a b c d name rest differs =
    rw
      (
        split_at-wire_header other flags code count a b c d rest,
        from_be_bytes-to_be_bytes other,
        ==-differs other id differs,
      )
      refl
