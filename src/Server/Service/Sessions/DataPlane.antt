-- ===== src/Server/Service/Sessions/DataPlane.antt =====
-- Sign-ins to a protocol engine: `authenticate_data_plane` of crates/ket-server/src/service.rs.
use ket.Common.{
  ℕ, Bool, true, Option, none, some, Text, same_text, Result, ok, err, ◌>>=◌, ◌>>◌, guard, ok_or,
}
use ket.Server.Model.{PersistedState, TransportProtocol, Crypto, allows}
use ket.Server.Errors.{ServiceError, unauthorized, forbidden, SessionView}
use ket.Server.Activity.{
  GrantActivityEvent, session, over, signed_in, sign_in_refused, sign_in_refused_protocol,
}
use ket.Server.Secrets.{Parts, split_session_token, verify_token_secret}
use ket.Server.Slots.{required_resource_slot, admits}
use ket.Server.Service.State.{AccessService, Outside, note}
use ket.Server.Service.Sessions.Tokens.{find_session, session_and_grant, view}

abbrev names : Option Text → Text → Bool
names none id = true
names (some username) id = same_text username id

-- `verify_data_plane`
unfoldable pub verify_data_plane :
    Crypto
    → ℕ
    → PersistedState
    → Parts
    → TransportProtocol
    → Option Text
    → Result ServiceError SessionView
unfolding session_and_grant verify_token_secret admits allows required_resource_slot
verify_data_plane c now st parts protocol username = do
  guard (names username parts.id) unauthorized
  (s, g) ← session_and_grant st parts.id
  expected ← ok_or s.data_plane_secret_hash unauthorized
  guard (verify_token_secret c parts.secret expected) unauthorized
  guard (admits s g now) unauthorized
  guard (allows g.protocols protocol) forbidden
  slot ← required_resource_slot s
  ok (view s g slot s.expires_at_epoch_seconds now)

abbrev pub sign_in_event : Result ServiceError SessionView → GrantActivityEvent
sign_in_event (ok view) = signed_in
sign_in_event (err forbidden) = sign_in_refused_protocol
sign_in_event (err _) = sign_in_refused

abbrev as_unauthorized : Result ServiceError SessionView → Result ServiceError SessionView
as_unauthorized (ok view) = ok view
as_unauthorized (err _) = err unauthorized

-- `authenticate_data_plane`: `seen` is the state at its first lock, for the check, and `svc` the service
-- at its second, where the outcome is noted against the session's grant. Other calls may come between.
unfoldable pub authenticate_data_plane :
    Crypto
    → Outside
    → PersistedState
    → AccessService
    → Text
    → TransportProtocol
    → Option Text
    → AccessService × Result ServiceError SessionView
unfolding split_session_token verify_data_plane note
authenticate_data_plane c out seen svc token protocol username = elim (split_session_token token) [
  | none ↦ (svc, err unauthorized)
  | some parts ↦
      let result = verify_data_plane c out.now seen parts protocol username in
      (
        elim (find_session svc.state.sessions parts.id) [
          | none ↦ svc
          | some s ↦
              note svc out.noted_at s.grant_id
                (over (session (sign_in_event result) s.id s.client_name) protocol)
        ],
        as_unauthorized result,
      )
]
