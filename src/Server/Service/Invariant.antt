-- ===== src/Server/Service/Invariant.antt =====
-- The invariant of the service: the state in memory and the state file are valid, and every session
-- holds a slot of its own below the capacity. Every call keeps it.
use ket.Common.{ℕ, ◌≡◌, List, [], ◌∷◌, Text, arith, Result-cases, inl, inr, All, ok}
use ket.Server.Model.{SessionRecord, PersistedState, Crypto}
use ket.Server.Validate.WellFormed.{WellFormed}
use ket.Server.Validate.Sessions.{validate_iff}
use ket.Server.Activity.{GrantActivityEvent, Activity, session}
use ket.Server.Slots.Free.{Slotted}
use ket.Server.Service.State.{AccessService, Outside, store_file, commit, note, note_ended}

-- What a successful store says: the state was checked.
pub store_file_ok :
    (c : Crypto) (out : Outside) (st : PersistedState)
    → store_file c out.disk st ≡ ok tt
    → WellFormed c st
unfolding store_file
store_file_ok c out st h = (validate_iff c st).0 (ground arith)

pub commit_ok :
    (c : Crypto) (out : Outside) (svc svc' : AccessService) (next : PersistedState)
    → commit c out svc next ≡ ok svc'
    → (svc' ≡ record svc { state = next; file = next }) × WellFormed c next
unfolding commit
commit_ok c out svc svc' next h = elim (Result-cases (store_file c out.disk next)) [
  | inl (u, e) ↦ (ground arith, store_file_ok c out next (ground arith))
  | inr (x, e) ↦ absurd (cc (rw e at h))
]

pub record Inv (c : Crypto) (svc : AccessService) : Type 0 where
  pub valid : WellFormed c svc.state
  pub file_valid : WellFormed c svc.file
  pub slotted : All (Slotted svc.max_sessions) svc.state.sessions

-- Two services that differ in their activity log at most.
pub record Core (s t : AccessService) : Type 0 where
  pub state : s.state ≡ t.state
  pub file : s.file ≡ t.file
  pub max_sessions : s.max_sessions ≡ t.max_sessions
  pub session_ttl : s.session_ttl ≡ t.session_ttl
  pub usage_stored_at : s.usage_stored_at ≡ t.usage_stored_at

pub Core-trans : {s t u : AccessService} → Core s t → Core t u → Core s u
Core-trans h k = ground arith

pub note-Core :
    (svc : AccessService) (at : ℕ) (id : Text) (a : Activity) → Core (note svc at id a) svc
unfolding note
note-Core svc at id a = ground arith

pub note_ended-Core :
    (svc : AccessService) (at : ℕ) (ss : List SessionRecord) (e : GrantActivityEvent)
    → Core (note_ended svc at ss e) svc
unfolding note_ended
note_ended-Core svc at [] e = ground arith
note_ended-Core svc at (s ∷ ss) e =
    Core-trans (note_ended-Core (note svc at s.grant_id (session e s.id s.client_name)) at ss e)
      (note-Core svc at s.grant_id (session e s.id s.client_name))

pub Inv-Core : (c : Crypto) (s t : AccessService) → Core s t → Inv c t → Inv c s
Inv-Core c s t e v = record {
  valid = rw e.state v.valid;
  file_valid = rw e.file v.file_valid;
  slotted = rw (e.state, e.max_sessions) v.slotted;
}

-- A store of a state whose sessions hold slots below the capacity.
pub commit-Inv :
    (c : Crypto) (out : Outside) (svc svc' : AccessService) (next : PersistedState)
    → All (Slotted svc.max_sessions) next.sessions
    → commit c out svc next ≡ ok svc'
    → Inv c svc'
commit-Inv c out svc svc' next h e =
    let (q, w) = commit_ok c out svc svc' next e in
    rw q (record { valid = w; file_valid = w; slotted = h })
