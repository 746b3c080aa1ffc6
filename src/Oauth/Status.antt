-- ===== src/Oauth/Status.antt =====
-- shared/oauth/connection-lifecycle.ts: statusFromRecord and disconnectedStatus. Times stay numbers
-- here, where the source writes them as ISO texts.
pub mod Laws
use mcp_gw.Common.{
  ℕ, String, Bool, true, false, not, ◌&&◌, ◌||◌, Option, none, some, is_some, List, [], ◌∷◌, leb,
  truthy, truthy?, if◌then◌else◌,
}
use mcp_gw.Common.Lists.{keep, is_empty}
use mcp_gw.Oauth.Types.{
  ConnectionPhase, disconnected, authorizing, connected, reauthorization_required, unavailable,
  RevocationState, LifecycleErrorCategory, insufficient_scope, renewal_expired,
  invalid_active_credential, ConnectionRecord,
}
use mcp_gw.Oauth.Guard.{is_authorizing}
use mcp_gw.Oauth.Scopes.{
  ProviderConnectionCapabilities, DownstreamConnectionAdapter, scopes_satisfied,
}

pub record StatusAccount : Type 0 where
  pub provider : String
  pub display_name : Option String
  pub id : Option String
  pub login : Option String

pub record ConnectionStatusV2 : Type 0 where
  pub provider : String
  pub phase : ConnectionPhase
  pub connected : Bool
  pub account : Option StatusAccount
  pub required_scopes : List String
  pub granted_scopes : List String
  pub missing_scopes : List String
  pub active_credential_present : Bool
  pub renewal_credential_present : Bool
  pub active_credential_expires_at : Option ℕ
  pub renewal_credential_expires_at : Option ℕ
  pub last_authorized_at : Option ℕ
  pub last_renewed_at : Option ℕ
  pub last_validated_at : Option ℕ
  pub status_updated_at : Option ℕ
  pub capabilities : ProviderConnectionCapabilities
  pub actions : Option (List String)
  pub error_category : Option LifecycleErrorCategory

unfoldable pub disconnected_status : DownstreamConnectionAdapter → List String → ConnectionStatusV2
disconnected_status adapter required_scopes = record {
  provider = adapter.provider_id;
  phase = disconnected;
  connected = false;
  account = none;
  required_scopes = required_scopes;
  granted_scopes = [];
  missing_scopes = required_scopes;
  active_credential_present = false;
  renewal_credential_present = false;
  active_credential_expires_at = none;
  renewal_credential_expires_at = none;
  last_authorized_at = none;
  last_renewed_at = none;
  last_validated_at = none;
  status_updated_at = none;
  capabilities = adapter.capabilities;
  actions = adapter.status_actions;
  error_category = none;
}

-- `expiresAt && expiresAt.getTime() <= now.getTime()`
abbrev pub has_expired : ℕ → Option ℕ → Bool
has_expired now none = false
has_expired now (some expires_at) = leb expires_at now

-- No credential is left that works, or that could be renewed into one.
unfoldable pub needs_reauthorization : Bool → ℕ → ConnectionRecord → Bool
needs_reauthorization automatic_renewal now c =
    not c.active_credential_present && not c.renewal_credential_present
    || not c.active_credential_present
      && (not automatic_renewal || has_expired now c.renewal_credential_expires_at)
    || has_expired now c.active_credential_expires_at
      && (not automatic_renewal
          || not c.renewal_credential_present
          || has_expired now c.renewal_credential_expires_at)

unfoldable pub disabled_phase : RevocationState → ConnectionPhase → ConnectionPhase
disabled_phase RevocationState.pending phase = phase
disabled_phase RevocationState.permanent_failure phase = unavailable
disabled_phase _ phase = disconnected

-- The phase and the error that are reported.
unfoldable pub reported :
    Bool → ℕ → List String → ConnectionRecord → ConnectionPhase × Option LifecycleErrorCategory
unfolding disabled_phase
reported automatic_renewal now missing_scopes c =
    if is_authorizing c.phase
    then (authorizing, c.lifecycle_error_category)
    else if is_some c.local_disabled_at
    then (disabled_phase c.revocation_state c.phase, c.lifecycle_error_category)
    else if not (is_empty missing_scopes)
    then (reauthorization_required, some insufficient_scope)
    else if needs_reauthorization automatic_renewal now c
    then (
      reauthorization_required,
      if has_expired now c.renewal_credential_expires_at
          then some renewal_expired
          else some invalid_active_credential,
    )
    else (c.phase, c.lifecycle_error_category)

abbrev pub is_connected : ConnectionPhase → Bool
is_connected connected = true
is_connected _ = false

-- An empty text is left out.
abbrev pub filled : String → Option String
filled s = if truthy s then some s else none

abbrev pub filled? : Option String → Option String
filled? none = none
filled? (some s) = filled s

unfoldable pub status_account : ConnectionRecord → Option StatusAccount
status_account c =
    if truthy c.display_account_identity
      || truthy? c.provider_account_id
      || truthy? c.provider_account_login
    then some (record {
      provider = c.provider;
      display_name = filled c.display_account_identity;
      id = filled? c.provider_account_id;
      login = filled? c.provider_account_login;
    })
    else none

unfoldable pub missing_of : DownstreamConnectionAdapter → List String → List String → List String
missing_of adapter granted required =
    keep (λ scope. not (scopes_satisfied adapter granted (scope ∷ []))) required

unfoldable pub status_from_record :
    Option ConnectionRecord → List String → DownstreamConnectionAdapter → ℕ → ConnectionStatusV2
status_from_record none required_scopes adapter now = disconnected_status adapter required_scopes
status_from_record (some c) required_scopes adapter now =
    let missing_scopes = missing_of adapter c.granted_scopes required_scopes in
    let (phase, error_category) =
      reported adapter.capabilities.automatic_renewal now missing_scopes c in
    record {
      provider = adapter.provider_id;
      phase = phase;
      connected =
          not (is_some c.local_disabled_at) && is_connected phase && is_empty missing_scopes;
      account = status_account c;
      required_scopes = required_scopes;
      granted_scopes = c.granted_scopes;
      missing_scopes = missing_scopes;
      active_credential_present = c.active_credential_present;
      renewal_credential_present = c.renewal_credential_present;
      active_credential_expires_at = c.active_credential_expires_at;
      renewal_credential_expires_at = c.renewal_credential_expires_at;
      last_authorized_at = c.last_authorized_at;
      last_renewed_at = c.last_renewed_at;
      last_validated_at = c.last_validated_at;
      status_updated_at = some c.updated_at;
      capabilities = adapter.capabilities;
      actions = adapter.status_actions;
      error_category = error_category;
    }
