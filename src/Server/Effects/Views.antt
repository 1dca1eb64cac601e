-- ===== src/Server/Effects/Views.antt =====
-- What the views of the state show.
use ket.Common.{
  ℕ, ◌≡◌, refl, ◌∙◌, arith, ◌&&◌, List, [], ◌∷◌, some, Text, inl, inr, Option-cases, find,
  find-holds, retain, same_text, length, All, All-retain, Sorted, sort_by, sort_by-Sorted,
  length-sort_by, IsOrder, ok,
}
use ket.Server.Model.{AccessGrantRecord, SessionRecord, Crypto}
use ket.Server.Slots.{is_live, session_allocation, required_resource_slot}
use ket.Server.Slots.Free.{Slotted}
use ket.Server.Service.State.{AccessService}
use ket.Server.Service.Grants.{AccessGrantSummary, grant_summary}
use ket.Server.Service.Invariant.{Inv}
use ket.Server.Service.Views.{GrantDevice, devices_of, connected_before, grant_details}

devices_of-ok :
    (max : ℕ) (ss : List SessionRecord)
    → All (Slotted max) ss
    → (devices : List GrantDevice) × (devices_of ss ≡ ok devices) × (length devices ≡ length ss)
unfolding devices_of session_allocation required_resource_slot
devices_of-ok max [] h = ([], refl, refl)
devices_of-ok max (s ∷ ss) (h, hs) = elim (Option-cases s.resource_slot) [
  | inl e ↦ absurd (rw e at h)
  | inr (slot, e) ↦
      let (devices, f, size) = devices_of-ok max ss hs in
      (
        record {
          allocation = record { id = s.id; resource_slot = slot };
          client_name = s.client_name;
          connected_at_epoch_seconds = s.issued_at_epoch_seconds;
          session_expires_at_epoch_seconds = s.expires_at_epoch_seconds;
        }
            ∷ devices,
        rw (e, f) refl,
        omega arith,
      )
]

connected_before-IsOrder : IsOrder connected_before
connected_before-IsOrder = record {
  total = λ a b h. ground arith;
  trans = λ a b c h k. ground arith;
}

-- Where the service keeps its invariant, the details of a grant that is there show its devices, as
-- many as its summary counts, in the order in which they connected.
pub grant_details-devices :
    (c : Crypto) (svc : AccessService) (id : Text) (now : ℕ) (g : AccessGrantRecord)
    → Inv c svc
    → find (λ g. same_text g.id id) svc.state.grants ≡ some g
    → (summary : AccessGrantSummary) × (devices : List GrantDevice) × (grant_details svc.state id
          now
        ≡ ok (summary, devices))
      × (length devices ≡ summary.active_connections)
      × Sorted connected_before devices
unfolding grant_details grant_summary
grant_details-devices c svc id now g v found =
    let passes = find-holds (λ g. same_text g.id id) svc.state.grants found in
    let named : g.id ≡ id = ground arith in
    let live = retain (λ s. same_text s.grant_id id && is_live now s) svc.state.sessions in
    let (devices, made, size) = devices_of-ok svc.max_sessions live (
      All-retain (Slotted svc.max_sessions) (λ s. same_text s.grant_id id && is_live now s)
        svc.state.sessions v.slotted) in
    (
      grant_summary svc.state g now,
      sort_by connected_before devices,
      rw (grant_details, found, made) refl,
      rw named (length-sort_by connected_before devices ∙ size),
      sort_by-Sorted connected_before connected_before-IsOrder devices,
    )
