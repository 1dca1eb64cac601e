-- ===== src/Server/Validate/Exact.antt =====
-- `validate` accepts the well-formed states and no others.
use ket.Common.{
  ℕ, ◌≡◌, refl, ◌∙◌, sym, ap, List, [], ◌∷◌, ◌++◌, Option, none, Text, arith, map, All, Unique,
  Result, ok, err, ◌>>=◌, ◌≢◌, ◌↔◌,
}
use mathlib.Core.Option
use mathlib.Core.List.{append-nil, append_assoc}
use ket.Server.Model.{AccessGrantRecord, Crypto}
use ket.Server.Validate.{Expiries, get, check_grant, check_grants}
use ket.Server.Validate.WellFormed.{GrantOk, find_grant}

check_grant→ :
    (c : Crypto) (t : Expiries) (g : AccessGrantRecord)
    → check_grant c t g ≡ ok tt
    → GrantOk c g × (get t g.id ≡ none)
unfolding check_grant
check_grant→ c t g h = ground arith

check_grant← :
    (c : Crypto) (t : Expiries) (g : AccessGrantRecord)
    → GrantOk c g
    → get t g.id ≡ none
    → check_grant c t g ≡ ok tt
unfolding check_grant
check_grant← c t g h n = ground arith

get-snoc :
    (t : Expiries) (i : Text) (e : Option ℕ) (id : Text)
    → (get (t ++ (i, e) ∷ []) id ≡ none) ↔ ((get t id ≡ none) × (i ≢ id))
get-snoc [] i e id = (λ h. ground arith, λ h. ground arith)
get-snoc ((j, f) ∷ t) i e id =
    let ih = get-snoc t i e id in (λ h. ground (arith, ih.0), λ h. ground (arith, ih.1))

abbrev pub ids : List AccessGrantRecord → List Text
ids = map (λ g. g.id)

abbrev pub entries : List AccessGrantRecord → Expiries
entries [] = []
entries (g ∷ gs) = (g.id, g.expires_at_epoch_seconds) ∷ entries gs

abbrev pub Fresh : Expiries → List Text → Type 0
Fresh t is = All (λ id. get t id ≡ none) is

Fresh-snoc→ :
    (t : Expiries) (i : Text) (e : Option ℕ) (is : List Text)
    → Fresh (t ++ (i, e) ∷ []) is
    → Fresh t is × All (λ id. i ≢ id) is
Fresh-snoc→ t i e [] h = (tt, tt)
Fresh-snoc→ t i e (id ∷ is) (h, r) =
    let (a, b) = (get-snoc t i e id).0 h in let (x, y) = Fresh-snoc→ t i e is r in ((a, x), (b, y))

Fresh-snoc← :
    (t : Expiries) (i : Text) (e : Option ℕ) (is : List Text)
    → Fresh t is
    → All (λ id. i ≢ id) is
    → Fresh (t ++ (i, e) ∷ []) is
Fresh-snoc← t i e [] f n = tt
Fresh-snoc← t i e (id ∷ is) (f, fs) (n, ns) =
    ((get-snoc t i e id).1 (f, n), Fresh-snoc← t i e is fs ns)

pub then-ok :
    {E A : Type 0} (m : Result E (Unit {0})) (k : Result E A) {a : A}
    → (m >>= λ _. k) ≡ ok a
    → (m ≡ ok tt) × (k ≡ ok a)
then-ok (ok tt) k h = (refl, h)
then-ok (err e) k h = cc

pub check_grants→ :
    (c : Crypto) (t : Expiries) (gs : List AccessGrantRecord) {u : Expiries}
    → check_grants c t gs ≡ ok u
    → All (GrantOk c) gs × Unique (ids gs) × Fresh t (ids gs) × (u ≡ t ++ entries gs)
unfolding check_grants
check_grants→ c t [] h = (tt, tt, tt, ground (arith, append-nil t))
check_grants→ c t (g ∷ gs) h =
    let (first, rest) = then-ok (check_grant c t g) _ h in
    let (good, new) = check_grant→ c t g first in
    let (all_good, apart, fresh, whole) =
      check_grants→ c (t ++ (g.id, g.expires_at_epoch_seconds) ∷ []) gs rest in
    let (old, other) = Fresh-snoc→ t g.id g.expires_at_epoch_seconds (ids gs) fresh in
    ((good, all_good), (other, apart), (new, old), whole ∙ append_assoc t _ (entries gs))

pub check_grants← :
    (c : Crypto) (t : Expiries) (gs : List AccessGrantRecord)
    → All (GrantOk c) gs
    → Unique (ids gs)
    → Fresh t (ids gs)
    → check_grants c t gs ≡ ok (t ++ entries gs)
unfolding check_grants
check_grants← c t [] good apart fresh = ap ok (sym (append-nil t))
check_grants← c t (g ∷ gs) (good, all_good) (other, apart) (new, old) =
    rw (check_grant← c t g good new) (
      check_grants← c (t ++ (g.id, g.expires_at_epoch_seconds) ∷ []) gs all_good apart
        (Fresh-snoc← t g.id g.expires_at_epoch_seconds (ids gs) old other)
      ∙ ap ok (append_assoc t _ (entries gs)))

-- The table of the grants' expiries finds what the list of grants holds.
pub get-entries :
    (gs : List AccessGrantRecord) (id : Text)
    → get (entries gs) id ≡ Option.map (λ g. g.expires_at_epoch_seconds) (find_grant gs id)
get-entries [] id = refl
get-entries (g ∷ gs) id = ground (arith, get-entries gs id)
