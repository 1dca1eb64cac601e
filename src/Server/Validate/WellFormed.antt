-- ===== src/Server/Validate/WellFormed.antt =====
-- What a valid state is, independently of the order in which `validate` looks.
use ket.Common.{
  ℕ, ◌≤◌, ◌<◌, ◌≡◌, true, List, [], ◌∷◌, Option, none, some, Text, same_text, find, map, All,
  OnSome, Unique,
}
use ket.Common.Chars.{valid_identifier, valid_text}
use ket.Allowance.Period.{is_valid}
use ket.Server.Model.{AccessGrantRecord, SessionRecord, PersistedState, Crypto, protocols_valid}

pub record GrantOk (c : Crypto) (g : AccessGrantRecord) : Type 0 where
  pub id_shape : valid_identifier g.id 10 ≡ true
  pub hash_shape : valid_text g.secret_hash 512 ≡ true
  pub hash_profile : c.is_supported_secret_hash g.secret_hash ≡ true
  pub label_shape : valid_text g.label 64 ≡ true
  pub limit : 0 < g.max_connections
  pub some_protocol : protocols_valid g.protocols ≡ true
  pub allowance_range : OnSome (λ a. is_valid a ≡ true) g.allowance
  pub counts_nothing :
      g.allowance ≡ none → (g.usage ≡ none) × (g.allowance_since_epoch_seconds ≡ none)
  pub expiry : OnSome (λ e. g.created_at_epoch_seconds < e) g.expires_at_epoch_seconds

abbrev pub find_grant : List AccessGrantRecord → Text → Option AccessGrantRecord
find_grant grants id = find (λ g. same_text g.id id) grants

-- The session's grant is there, and its lease ends no later than the grant.
abbrev pub Covers : Option AccessGrantRecord → ℕ → Type 0
Covers none until = ⊥
Covers (some g) until = OnSome (λ e. until ≤ e) g.expires_at_epoch_seconds

-- Exactly one control-token hash, of a supported profile.
abbrev pub OneHash : Crypto → Option (List ℕ) → Option Text → Type 0
OneHash c (some control) none = Unit
OneHash c none (some hash) = (valid_text hash 512 ≡ true) × (c.is_supported_secret_hash hash ≡ true)
OneHash c _ _ = ⊥

pub record SessionOk (c : Crypto) (grants : List AccessGrantRecord) (s : SessionRecord)
    : Type 0 where
  pub id_shape : valid_identifier s.id 12 ≡ true
  pub covered : Covers (find_grant grants s.grant_id) s.expires_at_epoch_seconds
  pub one_hash : OneHash c s.control_secret_hash s.secret_hash
  pub name_shape : valid_text s.client_name 96 ≡ true
  pub lasts : s.issued_at_epoch_seconds < s.expires_at_epoch_seconds

-- The slots that sessions hold.
abbrev pub slots : List SessionRecord → List ℕ
slots [] = []
slots (s ∷ ss) = elim s.resource_slot [ none ↦ slots ss | some k ↦ k ∷ slots ss ]

pub record WellFormed (c : Crypto) (st : PersistedState) : Type 0 where
  pub grants_ok : All (GrantOk c) st.grants
  pub grant_ids : Unique (map (λ g. g.id) st.grants)
  pub sessions_ok : All (SessionOk c st.grants) st.sessions
  pub session_ids : Unique (map (λ s. s.id) st.sessions)
  pub slots_apart : Unique (slots st.sessions)
