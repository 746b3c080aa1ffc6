-- ===== src/Oauth/Lifecycle/Activate.antt =====
-- shared/oauth/connection-lifecycle.ts: activateAuthorizedGeneration, the checks of what the provider
-- issued and the transaction that makes it the connection's. `validateIdentity` is a parameter: the
-- answer for the credential, or the category of its error.
pub mod Laws
pub mod Succeeds
use mcp_gw.Common.{
  ℕ, ◌+◌, String, Bool, true, false, not, ◌&&◌, ◌||◌, Option, none, some, is_some, or_default,
  or_else, List, truthy, truthy?, nat_eq, ◌==◌, if◌then◌else◌,
}
use mcp_gw.Common.Lists.{any}
use mcp_gw.Oauth.Types.{
  connected, RevocationState, CredentialGenerationState, candidate, active, cleanup_pending,
  cleanup_permanent_failure, LifecycleErrorCategory, identity_mismatch, insufficient_scope,
  provider_configuration_error, malformed_provider_response, generation_conflict,
  ProviderAccountIdentity, ConnectionRecord, CredentialGenerationRecord,
}
use mcp_gw.Oauth.Guard.{connection_write_guard}
use mcp_gw.Oauth.Store.Connections.{bool_eq, opt_eq}
use mcp_gw.Oauth.Store.Cleanup.{is_pending}
use mcp_gw.Oauth.Retry.{Outcome, returned, thrown}
use mcp_gw.Oauth.Scopes.{
  AuthorizationActivationGuard, is_complete_authorization_activation_guard, scopes_satisfied,
}
use mcp_gw.Oauth.Lifecycle.{
  Lifecycle, ProviderCredentialEnvelope, DecryptedCredentialGeneration, Hop1Identity, Tx, pure,
  raise, raise_if, continue, ◌>>=◌, ◌>>◌, read, generations, save_or_conflict, update_or_conflict,
  credential_schema_version, encrypt_envelope, legacy_credential, credential_custody_record,
}
use mcp_gw.Oauth.Lifecycle.Envelope.{decrypt_credential_custody}

pub record IssuedCredentialGeneration : Type 0 where
  pub credential : ProviderCredentialEnvelope
  pub display_account_identity : String
  pub provider_account : Option ProviderAccountIdentity
  pub granted_scopes : List String
  pub active_credential_expires_at : Option ℕ
  pub renewal_credential_expires_at : Option ℕ
  pub validated_at : Option ℕ

pub record ValidatedIdentity : Type 0 where
  pub display_account_identity : String
  pub provider_account : Option ProviderAccountIdentity

abbrev pub Validator : Type 0
Validator = DecryptedCredentialGeneration → Outcome ValidatedIdentity

-- What is known of the account, and when it was validated.
pub record Attestation : Type 0 where
  pub display_account_identity : String
  pub provider_account : Option ProviderAccountIdentity
  pub validated_at : Option ℕ

abbrev flag : Option Bool → Bool
flag o = or_default o false

abbrev account_id_of : Option ProviderAccountIdentity → Option String
account_id_of none = none
account_id_of (some account) = some account.id

abbrev account_login_of : Option ProviderAccountIdentity → Option String
account_login_of none = none
account_login_of (some account) = account.login

-- A field of a connection that may be absent
abbrev field_of : {A : Type 0} → (ConnectionRecord → Option A) → Option ConnectionRecord → Option A
field_of f none = none
field_of f (some c) = f c

abbrev pub generation_or_0 : Option ConnectionRecord → ℕ
generation_or_0 none = 0
generation_or_0 (some c) = c.generation

abbrev pub is_disabled : Option ConnectionRecord → Bool
is_disabled none = false
is_disabled (some c) = is_some c.local_disabled_at

abbrev updated : Option ConnectionRecord → Option ℕ
updated none = none
updated (some c) = some c.updated_at

-- `guard.updatedAt !== undefined && !sameInstant(current?.updatedAt, guard.updatedAt)`
unfoldable pub is_other_instant : Option ℕ → Option ℕ → Bool
is_other_instant none current = false
is_other_instant (some at_) current = not (opt_eq current (some at_))

-- The connection is not the one that the authorization was started for.
unfoldable pub guard_fails : Option AuthorizationActivationGuard → Option ConnectionRecord → Bool
unfolding is_other_instant
guard_fails none current = false
guard_fails (some guard) current =
    not (is_complete_authorization_activation_guard guard)
    || not (opt_eq (some (generation_or_0 current)) guard.generation)
    || (not (is_some guard.locally_disabled)
        || not (bool_eq (is_disabled current) (flag guard.locally_disabled)))
    || is_other_instant guard.updated_at (updated current)

abbrev unresolved_state : RevocationState → Bool
unresolved_state RevocationState.pending = true
unresolved_state RevocationState.permanent_failure = true
unresolved_state _ = false

unfoldable pub unresolved : Option ConnectionRecord → Bool
unresolved none = false
unresolved (some c) = unresolved_state c.revocation_state

abbrev pub in_cleanup : CredentialGenerationState → Bool
in_cleanup cleanup_pending = true
in_cleanup cleanup_permanent_failure = true
in_cleanup _ = false

-- Another credential waits for its cleanup.
unfoldable pub blocks : String → CredentialGenerationRecord → Bool
blocks id r = not (r.id == id) && in_cleanup r.state

-- One account is another than the other.
unfoldable pub is_rebound : Option String → Option String → Bool
is_rebound (some before) (some now) = truthy before && truthy now && not (before == now)
is_rebound _ _ = false

-- The account is another one than before.
unfoldable pub rebinds : Attestation → Option ConnectionRecord → Bool
unfolding is_rebound
rebinds a current =
    is_rebound (field_of (λ (c : ConnectionRecord). c.provider_account_id) current)
      (account_id_of a.provider_account)

abbrev guarded_generation : Option AuthorizationActivationGuard → ℕ
guarded_generation none = 0
guarded_generation (some guard) = or_default guard.generation 0

module _ (l : Lifecycle) (identity : Hop1Identity) where
  unfoldable pub issued_custody :
      String
      → IssuedCredentialGeneration
      → Option AuthorizationActivationGuard
      → CredentialGenerationRecord
  unfolding credential_custody_record
  issued_custody id issued guard = credential_custody_record l id identity (record {
    provider = l.adapter.provider_id;
    generation = guarded_generation guard + 1;
    credential = issued.credential;
    active_credential_expires_at = issued.active_credential_expires_at;
    renewal_credential_expires_at = issued.renewal_credential_expires_at;
    granted_scopes = issued.granted_scopes;
  })

  abbrev validated_now : Outcome ValidatedIdentity → Outcome Attestation
  validated_now (thrown category) = thrown category
  validated_now (returned v) = returned (record {
    display_account_identity = v.display_account_identity;
    provider_account = v.provider_account;
    validated_at = some l.now;
  })

  abbrev opened_by : Validator → Outcome DecryptedCredentialGeneration → Outcome ValidatedIdentity
  opened_by validate (thrown category) = thrown category
  opened_by validate (returned g) = validate g

  abbrev attested_by : Option Validator → CredentialGenerationRecord → Outcome Attestation
  attested_by none custody = thrown (
      some (
        if flag l.adapter.capabilities.account_identity_reporting
        then provider_configuration_error
        else identity_mismatch))
  attested_by (some validate) custody =
      validated_now (opened_by validate (decrypt_credential_custody l custody))

  abbrev with_account : Outcome Attestation → Outcome Attestation
  with_account (thrown category) = thrown category
  with_account (returned a) =
      if flag l.adapter.capabilities.account_identity_reporting && not (is_some a.provider_account)
      then thrown (some malformed_provider_response)
      else returned a

  -- The checks before the transaction, in their order.
  unfoldable pub check_issued :
      Option Validator
      → List String
      → IssuedCredentialGeneration
      → CredentialGenerationRecord
      → Outcome Attestation
  check_issued validator required_scopes issued custody =
      let capabilities = l.adapter.capabilities in
      if not (truthy? issued.credential.active_credential)
      then thrown (some malformed_provider_response)
      else if flag capabilities.authorization_requires_renewal_credential
          && not (truthy? issued.credential.renewal_credential)
      then thrown (some malformed_provider_response)
      else if not (scopes_satisfied l.adapter issued.granted_scopes required_scopes)
      then thrown (some insufficient_scope)
      else with_account (
          if capabilities.identity_verification && not (is_some issued.validated_at)
            || flag capabilities.account_identity_reporting && not (is_some issued.provider_account)
          then attested_by validator custody
          else returned (record {
            display_account_identity = issued.display_account_identity;
            provider_account = issued.provider_account;
            validated_at = issued.validated_at;
          }))

  unfoldable pub active_custody :
      Attestation → ℕ → CredentialGenerationRecord → CredentialGenerationRecord
  active_custody a generation r = record r {
    generation = generation;
    state = active;
    display_account_identity = a.display_account_identity;
    updated_at = l.now;
  }

  unfoldable pub activated_connection :
      List String
      → IssuedCredentialGeneration
      → Attestation
      → String
      → Option ConnectionRecord
      → ConnectionRecord
  unfolding encrypt_envelope legacy_credential
  activated_connection required_scopes issued a custody_id current = record {
    provider = l.adapter.provider_id;
    hop1_issuer = identity.issuer;
    hop1_subject = identity.subject;
    display_account_identity = a.display_account_identity;
    provider_account_id =
        or_else (account_id_of a.provider_account)
          (field_of (λ (c : ConnectionRecord). c.provider_account_id) current);
    provider_account_login =
        or_else (account_login_of a.provider_account)
          (field_of (λ (c : ConnectionRecord). c.provider_account_login) current);
    encrypted_credential_envelope = some (encrypt_envelope l issued.credential);
    credential_schema_version = some credential_schema_version;
    credential_generation_id = some custody_id;
    generation = generation_or_0 current + 1;
    required_scopes = required_scopes;
    granted_scopes = issued.granted_scopes;
    active_credential_present = truthy? issued.credential.active_credential;
    renewal_credential_present = truthy? issued.credential.renewal_credential;
    active_credential_expires_at = issued.active_credential_expires_at;
    renewal_credential_expires_at = issued.renewal_credential_expires_at;
    last_authorized_at = some l.now;
    last_renewed_at = none;
    last_validated_at = a.validated_at;
    local_disabled_at = none;
    phase = connected;
    revocation_state = RevocationState.none;
    revocation_started_at = none;
    revocation_completed_at = none;
    lifecycle_error_category = none;
    created_at = or_default (field_of (λ (c : ConnectionRecord). some c.created_at) current) l.now;
    updated_at = l.now;
    encrypted_legacy_credential = legacy_credential l l.adapter.provider_id issued.credential;
  }

  unfoldable pub activate :
      List String
      → IssuedCredentialGeneration
      → Attestation
      → CredentialGenerationRecord
      → Option ConnectionRecord
      → Tx Bool
  unfolding active_custody activated_connection rebinds
  activate required_scopes issued a custody current = do
    update_or_conflict (active_custody a (generation_or_0 current + 1) custody) candidate 0
    save_or_conflict (activated_connection required_scopes issued a custody.id current)
        (connection_write_guard current)
    pure (rebinds a current)

  -- Under the lock.
  unfoldable pub activation_transaction :
      List String
      → IssuedCredentialGeneration
      → Attestation
      → CredentialGenerationRecord
      → Option AuthorizationActivationGuard
      → Tx Bool
  unfolding activate guard_fails unresolved blocks
  activation_transaction required_scopes issued a custody guard = do
    current ← read l identity
    raise_if (guard_fails guard current) generation_conflict
    raise_if (unresolved current) generation_conflict
    kept ← generations l identity
    raise_if (any (blocks custody.id) kept) generation_conflict
    activate required_scopes issued a custody current
