-- ===== src/Oauth/Lifecycle/Renew/Tests.antt =====
-- A refresh that is asked for while an authorization runs.
use mcp_gw.Common.{true, false, none, some, [], ◌∷◌, ◌≡◌, refl}
use mcp_gw.Common.Dict.{insert, lookup}
use mcp_gw.Oauth.Types.{generation_conflict}
use mcp_gw.Oauth.Store.{TokenStore, Authorization, empty_store}
use mcp_gw.Oauth.Store.Connections.{mark_authorizing, live}
use mcp_gw.Oauth.Retry.{thrown}
use mcp_gw.Oauth.Scopes.{scopes_satisfied, scopes, scope_requirement_satisfied}
use mcp_gw.Oauth.Tests.{adapter}
use mcp_gw.Oauth.Lifecycle.Steps.{principal_key}
use mcp_gw.Oauth.Lifecycle.Activate.{activation_transaction}
use mcp_gw.Oauth.Lifecycle.Renew.{RenewalRequest, request_renewal}
use mcp_gw.Oauth.Lifecycle.Renew.Refresh.{request_renewal-activation_transaction}
use mcp_gw.Oauth.Lifecycle.Tests.{l, who, answer, attestation, custody}

abbrev running : Authorization
running = record { required_scopes = "mail" ∷ []; expires_at = 600; updated_at = 20 }

abbrev running_store : TokenStore
running_store = mark_authorizing 20 "google" "iss" "sub" ("mail" ∷ []) 600 empty_store

abbrev refresh : RenewalRequest
refresh = record {
  required_scopes = scopes ("mail" ∷ []);
  manual = true;
  credential_known_invalid = false;
  observed_generation = none;
  renews = true;
  renewal_safety_window_ms = 60;
}

authorization-runs : lookup (principal_key l who) running_store.authorizations ≡ some running
unfolding lookup mark_authorizing insert
authorization-runs = refl

nothing-stored : {V : Type 0} → lookup {V = V} (principal_key l who) [] ≡ none
unfolding lookup
nothing-stored = refl

still-live : live 30 (some running) ≡ true
unfolding live
still-live = refl

live_later : live 40 (some running) ≡ true
unfolding live
live_later = refl

scopes-missing : scope_requirement_satisfied adapter [] (scopes ("mail" ∷ [])) ≡ false
unfolding scope_requirement_satisfied scopes_satisfied
scopes-missing = refl

request_renewal-activation_transaction_example :
    (activation_transaction
      (record l { now = 40 })
      who
      ("mail" ∷ [])
      answer
      attestation
      custody
      none
      (request_renewal l who refresh running_store).1).0
    ≡ thrown (some generation_conflict)
unfolding mark_authorizing
request_renewal-activation_transaction_example =
    request_renewal-activation_transaction l who 40 refresh running ("mail" ∷ []) answer attestation
      custody none running_store nothing-stored nothing-stored authorization-runs still-live
      live_later refl scopes-missing
