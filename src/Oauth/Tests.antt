-- ===== src/Oauth/Tests.antt =====
-- States, connections and credentials of one principal.
use mcp_gw.Common.{
  ℕ, zero, suc, ◌≤◌, String, true, none, some, [], ◌∷◌, ◌≡◌, refl, ◌↔◌, ◌⊎◌, inl, sym, ◌∙◌,
  eq_of_some-eq, false,
}
use mathlib.Core.Path.{subst}
use mcp_gw.Common.Text.{◌<>◌}
use mcp_gw.Common.Lists.{All, In, length}
use mcp_gw.Common.Dict.{lookup, insert}
use mcp_gw.Oauth.Types.{
  connected, cleanup_pending, RevocationState, ConnectionRecord, CredentialGenerationRecord,
  OauthStateRecord, transient_provider_failure,
}
use mcp_gw.Oauth.Guard.{is_bare, connection_write_guard, absent_guard}
use mcp_gw.Oauth.States.{refused, States, consume, invalidate_principal}
use mcp_gw.Oauth.States.Laws.{
  WasUsable, consume-WasUsable, consume_once, consume-invalidate_principal,
}
use mcp_gw.Oauth.Store.{TokenStore, empty_store, account_key}
use mcp_gw.Oauth.Store.Connections.{get_connection, save_connection, written}
use mcp_gw.Oauth.Store.Cleanup.{
  update_credential_generation, list_credential_generations_for_cleanup, is_due,
}
use mcp_gw.Oauth.Store.Consistent.{
  Reachable, start, next, saved_connection, Consistent, Backed, Reachable-Consistent,
}
use mcp_gw.Oauth.Store.Writes.{get_connection-save_connection, save_connection_once}
use mcp_gw.Oauth.Store.Queue.{due_for, list_credential_generations_complete}
use mcp_gw.Oauth.Scopes.{DownstreamConnectionAdapter}
use mcp_gw.Oauth.Status.{status_from_record}
use mcp_gw.Oauth.Status.Laws.{IsUsable, status_from_record_iff}
use mcp_gw.Oauth.Retry.{Outcome, returned, thrown, retry_transient}
use mcp_gw.Oauth.Retry.Laws.{Ends, retry_transient-Ends}

abbrev state : OauthStateRecord
state = record {
  provider = some "google";
  state_hash = "h:s";
  hop1_issuer = "iss";
  hop1_subject = "sub";
  email = "a@example.com";
  requested_scopes = [];
  redirect_after = none;
  expires_at = 100;
  consumed_at = none;
  connection_generation = some 1;
  connection_locally_disabled = some false;
  connection_updated_at = some 10;
}

abbrev hash : String → String
hash s = "h:" <> s

abbrev used : OauthStateRecord
used = record state { consumed_at = some 50 }

abbrev states : States
states = ("h:s", state) ∷ []

abbrev used_states : States
used_states = ("h:s", used) ∷ []

state-consumed : consume hash "google" "s" 50 states ≡ (some used, used_states)
unfolding consume lookup refused insert
state-consumed = refl

consume-WasUsable_example : WasUsable hash "google" "s" 50 states used used_states
consume-WasUsable_example =
    consume-WasUsable hash "google" "s" 50 states used_states used state-consumed

consume_once_example : consume hash "github" "s" 60 used_states ≡ (none, used_states)
consume_once_example =
    consume_once hash "google" "github" "s" 50 60 states used_states used state-consumed

state-stored : lookup (hash "s") states ≡ some state
unfolding lookup
state-stored = refl

consume-invalidate_principal_example :
    (consume hash "google" "s" 60 (invalidate_principal "google" "iss" "sub" 50 states)).0 ≡ none
consume-invalidate_principal_example =
    consume-invalidate_principal hash "google" "iss" "sub" "s" 50 60 states state state-stored refl
      refl

abbrev pub connection : ConnectionRecord
connection = record {
  provider = "google";
  hop1_issuer = "iss";
  hop1_subject = "sub";
  display_account_identity = "a@example.com";
  provider_account_id = none;
  provider_account_login = none;
  encrypted_credential_envelope = some "e";
  credential_schema_version = some 1;
  credential_generation_id = none;
  generation = 1;
  required_scopes = [];
  granted_scopes = "mail" ∷ [];
  active_credential_present = true;
  renewal_credential_present = true;
  active_credential_expires_at = some 90;
  renewal_credential_expires_at = none;
  last_authorized_at = some 10;
  last_renewed_at = none;
  last_validated_at = none;
  local_disabled_at = none;
  phase = connected;
  revocation_state = RevocationState.none;
  revocation_started_at = none;
  revocation_completed_at = none;
  lifecycle_error_category = none;
  created_at = 10;
  updated_at = 10;
  encrypted_legacy_credential = "l";
}

abbrev renewed : ConnectionRecord
renewed = record connection { generation = 2; updated_at = 20 }

abbrev pub store : TokenStore
store = (save_connection connection absent_guard empty_store).1

pub connection-stored : is_bare connection ≡ false
unfolding is_bare
connection-stored = refl

pub store-Reachable : Reachable store
store-Reachable = next start (saved_connection connection absent_guard empty_store)

store-held : lookup (account_key "google" "iss" "sub") store.connections ≡ some connection
unfolding lookup save_connection insert
store-held = refl

store-Backed : Backed (account_key "google" "iss" "sub") store
store-Backed c h =
    subst (λ d. is_bare d ≡ false) (eq_of_some-eq (sym store-held ∙ h)) connection-stored

Reachable-Consistent_example : Consistent store
Reachable-Consistent_example = Reachable-Consistent store-Reachable

get_connection-save_connection_example :
    save_connection renewed
      (connection_write_guard (get_connection 15 "google" "iss" "sub" store))
      store
    ≡ (true, written renewed store)
get_connection-save_connection_example =
    get_connection-save_connection 15 "google" "iss" "sub" renewed store
      (Reachable-Consistent store-Reachable) store-Backed refl

first-saved : save_connection connection absent_guard empty_store ≡ (true, store)
unfolding save_connection lookup
first-saved = refl

save_connection_once_example : save_connection renewed absent_guard store ≡ (false, store)
save_connection_once_example =
    save_connection_once connection renewed absent_guard empty_store store first-saved (inl refl)
      refl

abbrev pub generation : CredentialGenerationRecord
generation = record {
  id = "g-1";
  provider = "google";
  hop1_issuer = "iss";
  hop1_subject = "sub";
  display_account_identity = "a@example.com";
  encrypted_credential_envelope = some "e";
  encrypted_legacy_credential = none;
  credential_schema_version = 1;
  generation = 1;
  state = cleanup_pending;
  granted_scopes = [];
  active_credential_expires_at = none;
  renewal_credential_expires_at = none;
  cleanup_attempts = 0;
  next_cleanup_attempt_at = none;
  last_cleanup_error_category = none;
  created_at = 10;
  updated_at = 10;
}

abbrev tried : CredentialGenerationRecord
tried = record generation { cleanup_attempts = 1; next_cleanup_attempt_at = some 5000 }

abbrev pub waiting : TokenStore
waiting = record empty_store { credential_generations = ("g-1", generation) ∷ [] }

abbrev claimed : TokenStore
claimed = record empty_store { credential_generations = ("g-1", tried) ∷ [] }

generation-claimed : update_credential_generation tried cleanup_pending 0 waiting ≡ (true, claimed)
unfolding update_credential_generation lookup insert
generation-claimed = refl

generation-due : due_for "google" 20 generation ≡ true
unfolding is_due
generation-due = refl

list_credential_generations_complete_example :
    In generation (list_credential_generations_for_cleanup "google" 1 20 waiting)
    ⊎ ((length (list_credential_generations_for_cleanup "google" 1 20 waiting) ≡ 1)
        × All
            (λ s. s.updated_at ≤ 10)
            (list_credential_generations_for_cleanup "google" 1 20 waiting))
list_credential_generations_complete_example =
    list_credential_generations_complete "google" 1 20 waiting generation (inl refl) generation-due

abbrev pub adapter : DownstreamConnectionAdapter
adapter = record {
  provider_id = "google";
  capabilities = record {
    interactive_authorization = true;
    active_credential_expiry = true;
    automatic_renewal = true;
    manual_renewal = true;
    rotating_renewal_credential = false;
    provider_validation = true;
    provider_revocation = true;
    scope_reporting = true;
    identity_verification = true;
    account_identity_reporting = none;
    authorization_requires_renewal_credential = none;
  };
  status_actions = none;
  has_required_scopes = none;
}

status_from_record_iff_example :
    ((status_from_record (some connection) ("mail" ∷ []) adapter 95).connected ≡ true)
    ↔ IsUsable adapter ("mail" ∷ []) 95 connection
status_from_record_iff_example = status_from_record_iff connection ("mail" ∷ []) adapter 95

abbrev flaky : ℕ → Outcome ℕ
flaky zero = thrown (some transient_provider_failure)
flaky (suc n) = returned 7

retry_transient-Ends_example :
    Ends flaky 1 0 (length (retry_transient flaky 1).1) (retry_transient flaky 1).0
retry_transient-Ends_example = retry_transient-Ends flaky 1
