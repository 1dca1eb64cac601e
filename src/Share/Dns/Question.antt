-- ===== src/Share/Dns/Question.antt =====
-- The question that `query` of crates/ket-share/src/dns.rs asks about a name.
use ket.Common.{
  ℕ, ◌%◌, ◌<◌, ◌≤◌, ◌≡◌, refl, ◌∙◌, ap, arith, true, List, [], ◌∷◌, ◌++◌, Text, length, All, ltb,
}
use ket.Common.Chars.{utf8_char, utf8_len, as_bytes}
use ket.Update.Header.{split}
use ket.Share.Target.Labels.{join, NameChar, Label, nonempty}
use ket.Share.Dns.{labels_of, question_of}
use ket.Share.Dns.Message.{wire_labels, wire_question}

-- A name of plain labels is split into them.
split-label : (l : Text) → All NameChar l → split b'.' l ≡ l ∷ []
unfolding split
split-label [] h = refl
split-label (c ∷ l) (p, h) = rw (split, split-label l h) (ground arith)

split-dot : (l t : Text) → All NameChar l → split b'.' (l ++ b'.' ∷ t) ≡ l ∷ split b'.' t
unfolding split
split-dot [] t h = let (part, (parts, e)) = nonempty t in rw (split, e) refl
split-dot (c ∷ l) t (p, h) = rw (split, split-dot l t h) (ground arith)

split-join : (ls : List Text) → 1 ≤ length ls → All Label ls → split b'.' (join ls) ≡ ls
split-join [] h k = absurd (omega arith)
split-join (l ∷ []) h (k, ks) = split-label l k.chars
split-join (l ∷ m ∷ ms) h (k, ks) =
    split-dot l (join (m ∷ ms)) k.chars ∙ ap (λ r. l ∷ r) (split-join (m ∷ ms) (omega arith) ks)

ltb-true : (m n : ℕ) → m < n → ltb m n ≡ true
ltb-true m n h = ground arith

as_bytes-ascii : (l : Text) → All NameChar l → (as_bytes l ≡ l) × (utf8_len l ≡ length l)
unfolding as_bytes utf8_len utf8_char
as_bytes-ascii [] h = (refl, refl)
as_bytes-ascii (c ∷ l) (p, h) =
    let (same, count) = as_bytes-ascii l h in
    let ascii : c < 0x80 = ground arith in
    rw (same, count, ltb-true c 0x80 ascii) (refl, omega arith)

labels_of-wire : (ls : List Text) → All Label ls → labels_of ls ≡ wire_labels ls
unfolding labels_of
labels_of-wire [] h = refl
labels_of-wire (l ∷ ls) (k, ks) =
    let (same, count) = as_bytes-ascii l k.chars in
    let whole : length l % 256 ≡ length l = omega (arith, k.most) in
    rw (same, count, whole, labels_of-wire ls ks) refl

-- The question of the code is that of the name's labels.
pub question_of-wire :
    (ls : List Text) → 1 ≤ length ls → All Label ls → question_of (join ls) ≡ wire_question ls
unfolding question_of
question_of-wire ls h k = rw (split-join ls h k, labels_of-wire ls k) refl
