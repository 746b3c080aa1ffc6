-- ===== src/Oauth/Scopes.antt =====
-- shared/oauth/connection-lifecycle.ts and connection-types.ts: an adapter, as far as the connection's
-- state depends on it, and the tests of a grant against what is required. A test that throws in the
-- source is the category of the error that it throws.
use mcp_gw.Common.{
  ℕ, String, Bool, false, not, ◌&&◌, ◌||◌, Option, none, some, is_some, List, [], ◌∷◌, nat_eq,
  if◌then◌else◌,
}
use mcp_gw.Common.Lists.{any, every, includes, is_empty, length}
use mcp_gw.Policy.{ScopeGroup, ScopeRequirement}
use mcp_gw.Oauth.Types.{
  LifecycleErrorCategory, insufficient_scope, generation_conflict, ConnectionRecord,
}
use mcp_gw.Oauth.Guard.{synthetic_authorization}

pub record ProviderConnectionCapabilities : Type 0 where
  pub interactive_authorization : Bool
  pub active_credential_expiry : Bool
  pub automatic_renewal : Bool
  pub manual_renewal : Bool
  pub rotating_renewal_credential : Bool
  pub provider_validation : Bool
  pub provider_revocation : Bool
  pub scope_reporting : Bool
  pub identity_verification : Bool
  pub account_identity_reporting : Option Bool
  pub authorization_requires_renewal_credential : Option Bool

pub record DownstreamConnectionAdapter : Type 0 where
  pub provider_id : String
  pub capabilities : ProviderConnectionCapabilities
  pub status_actions : Option (List String)
  pub has_required_scopes : Option (List String → List String → Bool)

pub record AuthorizationActivationGuard : Type 0 where
  pub generation : Option ℕ
  pub locally_disabled : Option Bool
  pub updated_at : Option ℕ

abbrev pub is_at_rest : Option ℕ → Option Bool → Bool
is_at_rest (some generation) (some locally_disabled) = nat_eq generation 0 && not locally_disabled
is_at_rest _ _ = false

unfoldable pub is_complete_authorization_activation_guard : AuthorizationActivationGuard → Bool
is_complete_authorization_activation_guard guard =
    is_some guard.generation
    && is_some guard.locally_disabled
    && (is_some guard.updated_at || is_at_rest guard.generation guard.locally_disabled)

abbrev pub rest_guard : AuthorizationActivationGuard
rest_guard = record { generation = some 0; locally_disabled = some false; updated_at = none }

abbrev pub stored_guard : ConnectionRecord → AuthorizationActivationGuard
stored_guard c = record {
  generation = some c.generation;
  locally_disabled = some (is_some c.local_disabled_at);
  updated_at = some c.updated_at;
}

unfoldable pub snapshot_authorization_guard : Option ConnectionRecord → AuthorizationActivationGuard
snapshot_authorization_guard none = rest_guard
snapshot_authorization_guard (some c) =
    if synthetic_authorization c then rest_guard else stored_guard c

unfoldable pub satisfied_by :
    Option (List String → List String → Bool) → List String → List String → Bool
satisfied_by none granted required = every (includes granted) required
satisfied_by (some test) granted required = test granted required

unfoldable pub scopes_satisfied : DownstreamConnectionAdapter → List String → List String → Bool
unfolding satisfied_by
scopes_satisfied adapter granted required =
    satisfied_by adapter.has_required_scopes granted required

-- `ScopeRequirementInput`: a list of scopes, or a requirement in groups.
pub data ScopeRequirementInput : Type 0 where
  scopes : List String → ScopeRequirementInput
  groups : ScopeRequirement → ScopeRequirementInput

unfoldable pub group_satisfied : DownstreamConnectionAdapter → List String → ScopeGroup → Bool
group_satisfied adapter granted group =
    not (is_empty group.any_of)
    && any (λ scope. scopes_satisfied adapter granted (scope ∷ [])) group.any_of

unfoldable pub scope_requirement_satisfied :
    DownstreamConnectionAdapter → List String → ScopeRequirementInput → Bool
unfolding group_satisfied
scope_requirement_satisfied adapter granted (scopes required) =
    scopes_satisfied adapter granted required
scope_requirement_satisfied adapter granted (groups required) =
    every (group_satisfied adapter granted) required.all_of

unfoldable pub require_scopes :
    DownstreamConnectionAdapter → List String → List String → Option LifecycleErrorCategory
require_scopes adapter granted required =
    if scopes_satisfied adapter granted required then none else some insufficient_scope

unfoldable pub require_scope_requirement :
    DownstreamConnectionAdapter
    → List String
    → ScopeRequirementInput
    → Option LifecycleErrorCategory
require_scope_requirement adapter granted required =
    if scope_requirement_satisfied adapter granted required then none else some insufficient_scope

unfoldable pub require_unchanged_grant :
    List String → Option (List String) → Option LifecycleErrorCategory
require_unchanged_grant actual none = none
require_unchanged_grant actual (some expected) =
    if not (nat_eq (length actual) (length expected))
      || any (λ scope. not (includes expected scope)) actual
    then some generation_conflict
    else none
