-- ===== src/Server/Validate.antt =====
-- `PersistedState::validate` of crates/ket-server/src/model.rs. A hash map or set is the list of
-- its entries in the order of insertion.
pub mod WellFormed
pub mod Exact
pub mod Sessions
use ket.Common.{
  ℕ, Bool, true, false, not, ◌&&◌, ◌||◌, List, [], ◌∷◌, ◌++◌, Option, none, some, Text, ltb, leb,
  ◌==◌, same_text, if◌then◌else◌, any, find, Result, ok, err, ◌>>=◌, ◌>>◌, guard, ok_or,
}
use ket.Common.Chars.{valid_identifier, valid_text}
use ket.Allowance.Period.{DataAllowance, is_valid}
use ket.Server.Model.{AccessGrantRecord, SessionRecord, PersistedState, Crypto, protocols_valid}

-- The messages of `validate`, in the order of the source.
pub data StateFault : Type 0 where
  grant_id_invalid grant_ids_duplicated grant_hash_invalid grant_hash_unsupported
        grant_label_invalid grant_limit_invalid grant_allows_no_protocol grant_allowance_invalid
        grant_usage_without_allowance grant_expiry_invalid :
      StateFault
  session_id_invalid session_ids_duplicated slots_duplicated unknown_grant session_hash_invalid
        session_hash_unsupported session_hashes_many session_hash_missing session_name_invalid
        session_expiry_invalid session_outlives_grant :
      StateFault

abbrev pub access_grant_id_length : ℕ
access_grant_id_length = 10

abbrev pub session_id_length : ℕ
session_id_length = 12

abbrev pub max_secret_hash_length : ℕ
max_secret_hash_length = 512

abbrev pub max_label_length : ℕ
max_label_length = 64

abbrev pub max_client_name_length : ℕ
max_client_name_length = 96

abbrev pub is_some {ℓ} : {A : Type ℓ} → Option A → Bool
is_some none = false
is_some (some a) = true

-- `is_some_and(p)` and `is_none_or(p)`
abbrev pub is_some_and {ℓ} : {A : Type ℓ} → (A → Bool) → Option A → Bool
is_some_and p none = false
is_some_and p (some a) = p a

abbrev pub is_none_or {ℓ} : {A : Type ℓ} → (A → Bool) → Option A → Bool
is_none_or p none = true
is_none_or p (some a) = p a

-- `grants_by_id`: each grant's expiry.
abbrev pub Expiries : Type 0
Expiries = List (Text × Option ℕ)

abbrev pub get : Expiries → Text → Option (Option ℕ)
get [] id = none
get ((i, e) ∷ table) id = if same_text i id then some e else get table id

-- The body of the loop over grants, against the grants before.
unfoldable pub check_grant : Crypto → Expiries → AccessGrantRecord → Result StateFault (Unit {0})
unfolding is_valid protocols_valid
check_grant c table g = do
  guard (valid_identifier g.id access_grant_id_length) grant_id_invalid
  guard (not (is_some (get table g.id))) grant_ids_duplicated
  guard (valid_text g.secret_hash max_secret_hash_length) grant_hash_invalid
  guard (c.is_supported_secret_hash g.secret_hash) grant_hash_unsupported
  guard (valid_text g.label max_label_length) grant_label_invalid
  guard (not (g.max_connections == 0)) grant_limit_invalid
  guard (protocols_valid g.protocols) grant_allows_no_protocol
  guard (not (is_some_and (λ a. not (is_valid a)) g.allowance)) grant_allowance_invalid
  guard
      (not
        ((is_some g.usage || is_some g.allowance_since_epoch_seconds) && not (is_some g.allowance)))
      grant_usage_without_allowance
  guard (not (is_some_and (λ e. leb e g.created_at_epoch_seconds) g.expires_at_epoch_seconds))
      grant_expiry_invalid

unfoldable pub check_grants :
    Crypto → Expiries → List AccessGrantRecord → Result StateFault Expiries
check_grants c table [] = ok table
check_grants c table (g ∷ gs) =
    check_grant c table g >> check_grants c (table ++ ((g.id, g.expires_at_epoch_seconds) ∷ [])) gs

-- A set that refuses what it holds.
abbrev pub slot_free : Option ℕ → List ℕ → Bool
slot_free none slots = true
slot_free (some s) slots = not (any (λ t. t == s) slots)

abbrev pub insert_slot : Option ℕ → List ℕ → List ℕ
insert_slot none slots = slots
insert_slot (some s) slots = slots ++ (s ∷ [])

unfoldable pub check_hashes : Crypto → Option (List ℕ) → Option Text → Result StateFault (Unit {0})
check_hashes c (some control) none = ok tt
check_hashes c none (some hash) = do
  guard (valid_text hash max_secret_hash_length) session_hash_invalid
  guard (c.is_supported_secret_hash hash) session_hash_unsupported
check_hashes c (some control) (some hash) = err session_hashes_many
check_hashes c none none = err session_hash_missing

-- The body of the loop over sessions, against the sessions before.
unfoldable pub check_session :
    Crypto → Expiries → List Text → List ℕ → SessionRecord → Result StateFault (Unit {0})
unfolding check_hashes
check_session c table ids slots s = do
  guard (valid_identifier s.id session_id_length) session_id_invalid
  guard (not (any (λ i. same_text i s.id) ids)) session_ids_duplicated
  guard (slot_free s.resource_slot slots) slots_duplicated
  grant_expiry ← ok_or (get table s.grant_id) unknown_grant
  check_hashes c s.control_secret_hash s.secret_hash
  guard (valid_text s.client_name max_client_name_length) session_name_invalid
  guard (ltb s.issued_at_epoch_seconds s.expires_at_epoch_seconds) session_expiry_invalid
  guard (not (is_some_and (λ e. ltb e s.expires_at_epoch_seconds) grant_expiry))
      session_outlives_grant

unfoldable pub check_sessions :
    Crypto → Expiries → List Text → List ℕ → List SessionRecord → Result StateFault (Unit {0})
check_sessions c table ids slots [] = ok tt
check_sessions c table ids slots (s ∷ ss) =
    check_session c table ids slots s
    >> check_sessions c table (ids ++ (s.id ∷ [])) (insert_slot s.resource_slot slots) ss

-- `PersistedState::validate`
unfoldable pub validate : Crypto → PersistedState → Result StateFault (Unit {0})
unfolding check_grants check_sessions
validate c st = do
  grants_by_id ← check_grants c [] st.grants
  check_sessions c grants_by_id [] [] st.sessions
