-- ===== src/Oauth/Lifecycle/Active.antt =====
-- shared/oauth/connection-lifecycle.ts: getActiveCredential before and after the renewal that it may
-- ask for, and repairLegacyScopePoison.
pub mod Laws
pub mod Repaired
mod Tests
use mcp_gw.Common.{
  ℕ, ◌+◌, String, Bool, true, false, not, ◌&&◌, ◌||◌, Option, none, some, is_some, or_default, List,
  truthy, truthy?, leb, ◌==◌, if◌then◌else◌,
}
use mathlib.Core.List
use mcp_gw.Common.Lists.{is_empty}
use mcp_gw.Oauth.Types.{
  ConnectionPhase, connected, reauthorization_required, LifecycleErrorCategory, insufficient_scope,
  invalid_active_credential, ConnectionRecord,
}
use mcp_gw.Oauth.Guard.{connection_write_guard}
use mcp_gw.Oauth.Retry.{Outcome, returned, thrown}
use mcp_gw.Oauth.Scopes.{
  ScopeRequirementInput, scopes_satisfied, scope_requirement_satisfied, require_unchanged_grant,
}
use mcp_gw.Oauth.Lifecycle.{
  Lifecycle, ProviderCredentialEnvelope, DecryptedCredentialGeneration, Hop1Identity, Tx, pure,
  raise_if, continue, ◌>>=◌, ◌>>◌, read, save,
}
use mcp_gw.Oauth.Lifecycle.Envelope.{decrypt_generation}

abbrev pub needs_reauthorizing : ConnectionPhase → Bool
needs_reauthorizing reauthorization_required = true
needs_reauthorizing _ = false

abbrev is_scope_error : Option LifecycleErrorCategory → Bool
is_scope_error (some insufficient_scope) = true
is_scope_error _ = false

-- The connection was closed for want of a scope, which one tool's call used to do.
unfoldable pub is_poisoned : ConnectionRecord → Bool
is_poisoned c = needs_reauthorizing c.phase && is_scope_error c.lifecycle_error_category

-- There is no such time, or it is later.
abbrev pub is_later : ℕ → Option ℕ → Bool
is_later now none = true
is_later now (some at_) = not (leb at_ now)

unfoldable pub is_repairable : Lifecycle → DecryptedCredentialGeneration → Bool
is_repairable l g =
    truthy? g.credential.active_credential && is_later l.now g.active_credential_expires_at
    || l.adapter.capabilities.automatic_renewal
      && truthy? g.credential.renewal_credential
      && is_later l.now g.renewal_credential_expires_at

abbrev later_of : ℕ → ℕ → ℕ
later_of a b = if leb a b then b else a

unfoldable pub repaired : ℕ → ConnectionRecord → ConnectionRecord
repaired now c = record c {
  phase = connected;
  lifecycle_error_category = none;
  updated_at = later_of now (c.updated_at + 1);
}

module _ (l : Lifecycle) (identity : Hop1Identity) where
  unfoldable pub repair_opened :
      ConnectionRecord → DecryptedCredentialGeneration → Tx (Option ConnectionRecord)
  unfolding is_repairable repaired
  repair_opened c g =
      if is_repairable l g
      then (do
        saved ← save (repaired l.now c) (connection_write_guard (some c))
        if saved then pure (some (repaired l.now c)) else read l identity)
      else pure (some c)

  abbrev repair_current : List String → Option ConnectionRecord → Tx (Option ConnectionRecord)
  repair_current consent_scopes none = pure none
  repair_current consent_scopes (some c) =
      if is_some c.local_disabled_at
        || not (is_poisoned c)
        || not (scopes_satisfied l.adapter c.granted_scopes consent_scopes)
      then pure (some c)
      else (do g ← (λ store. (decrypt_generation l c, store)); repair_opened c g)

  abbrev has_scopes : Option (List String) → Bool
  has_scopes none = false
  has_scopes (some scopes) = not (is_empty scopes)

  unfoldable pub repair_legacy_scope_poison : Option (List String) → Tx (Option ConnectionRecord)
  unfolding repair_opened is_poisoned
  repair_legacy_scope_poison consent_scopes = do
    current ← read l identity
    if has_scopes consent_scopes
        then repair_current (or_default consent_scopes List.[]) current
        else pure current

  abbrev poisoned : Option ConnectionRecord → Bool
  poisoned none = false
  poisoned (some c) = is_poisoned c

  -- The connection whose credential is asked for
  unfoldable pub read_repaired : Option (List String) → Tx (Option ConnectionRecord)
  unfolding repair_legacy_scope_poison is_poisoned
  read_repaired consent_scopes = do
    current ← read l identity
    if poisoned current then repair_legacy_scope_poison consent_scopes else pure current

  abbrev pub failed_or : {A : Type 0} → Option LifecycleErrorCategory → Outcome A → Outcome A
  failed_or none rest = rest
  failed_or (some category) rest = thrown (some category)

  abbrev pub fresh_credential : ℕ → Outcome DecryptedCredentialGeneration → Outcome (Option String)
  fresh_credential window (thrown category) = thrown category
  fresh_credential window (returned g) = returned (
      if truthy? g.credential.active_credential
        && is_later (l.now + window) g.active_credential_expires_at
      then g.credential.active_credential
      else none)

  -- The credential of a connection, or nothing where it has to be renewed first.
  unfoldable pub credential_of :
      ℕ
      → ScopeRequirementInput
      → Option (List String)
      → Option ConnectionRecord
      → Outcome (Option String)
  credential_of window required expected none = thrown (some invalid_active_credential)
  credential_of window required expected (some c) =
      if is_some c.local_disabled_at
      then thrown (some invalid_active_credential)
      else failed_or (require_unchanged_grant c.granted_scopes expected) (
          if needs_reauthorizing c.phase
          then thrown (some (or_default c.lifecycle_error_category invalid_active_credential))
          else if scope_requirement_satisfied l.adapter c.granted_scopes required
          then fresh_credential window (decrypt_generation l c)
          else thrown (some insufficient_scope))

  abbrev any_credential : Outcome DecryptedCredentialGeneration → Outcome String
  any_credential (thrown category) = thrown category
  any_credential (returned g) =
      if truthy? g.credential.active_credential
      then returned (or_default g.credential.active_credential "")
      else thrown (some invalid_active_credential)

  -- After the renewal
  unfoldable pub renewed_credential_of :
      ScopeRequirementInput → Option (List String) → Option ConnectionRecord → Outcome String
  renewed_credential_of required expected none = thrown (some invalid_active_credential)
  renewed_credential_of required expected (some c) =
      if is_some c.local_disabled_at
      then thrown (some invalid_active_credential)
      else failed_or (require_unchanged_grant c.granted_scopes expected) (
          if scope_requirement_satisfied l.adapter c.granted_scopes required
          then any_credential (decrypt_generation l c)
          else thrown (some insufficient_scope))

  unfoldable pub active_credential :
      ℕ → Option (List String) → ScopeRequirementInput → Option (List String) → Tx (Option String)
  unfolding read_repaired credential_of
  active_credential window consent_scopes required expected = do
    c ← read_repaired consent_scopes
    (λ store. (credential_of window required expected c, store))
