-- ===== src/Oauth/Lifecycle/Renew/Commit.antt =====
-- shared/oauth/connection-lifecycle.ts: validateRenewedGeneration, activateRenewedGeneration
-- and what they are made of. What the provider says of the account is a parameter.
use mcp_gw.Common.{
  ◌+◌, String, Bool, false, not, ◌&&◌, ◌||◌, Option, none, some, is_some, or_default, or_else,
  truthy?, nat_eq, ◌==◌, if◌then◌else◌,
}
use mcp_gw.Common.Lists.{find}
use mcp_gw.Oauth.Types.{
  connected, candidate, active, retired, generation_conflict, insufficient_scope,
  malformed_provider_response, provider_configuration_error, ProviderAccountIdentity,
  ConnectionRecord, CredentialGenerationRecord,
}
use mcp_gw.Oauth.Guard.{connection_write_guard}
use mcp_gw.Oauth.Store.Cleanup.{state_eq}
use mcp_gw.Oauth.Retry.{Outcome, returned, thrown}
use mcp_gw.Oauth.Scopes.{ScopeRequirementInput, scope_requirement_satisfied}
use mcp_gw.Oauth.Lifecycle.{
  Lifecycle, ProviderCredentialEnvelope, Hop1Identity, Tx, pure, raise, raise_if, ◌>>=◌, ◌>>◌, read,
  generations, save_or_conflict, update_or_conflict, credential_schema_version, encrypt_envelope,
  legacy_credential,
}
use mcp_gw.Oauth.Lifecycle.Envelope.{merge_rotated_credential}
use mcp_gw.Oauth.Lifecycle.Activate.{Validator, ValidatedIdentity, is_rebound}
use mcp_gw.Oauth.Lifecycle.Renew.{RenewalResult, refreshed, already_fresh, RenewalCandidate}

abbrev merged : RenewalCandidate → ProviderCredentialEnvelope
merged p = merge_rotated_credential p.decrypted.credential p.renewed.credential

abbrev account_of_validated : Option ValidatedIdentity → Option ProviderAccountIdentity
account_of_validated none = none
account_of_validated (some v) = v.provider_account

abbrev id_of : Option ProviderAccountIdentity → Option String
id_of none = none
id_of (some account) = some account.id

abbrev login_of : Option ProviderAccountIdentity → Option String
login_of none = none
login_of (some account) = account.login

abbrev display_of : Option ValidatedIdentity → String → String
display_of none display = display
display_of (some v) display = v.display_account_identity

abbrev pub is_custody_of : Option String → CredentialGenerationRecord → Bool
is_custody_of none r = false
is_custody_of (some id) r = r.id == id

-- `current?.credentialGenerationId === id`
abbrev pub holds : String → Option String → Bool
holds id none = false
holds id (some held) = held == id

module _ (l : Lifecycle) (identity : Hop1Identity) where
  abbrev with_identity : RenewalCandidate → Outcome ValidatedIdentity → Outcome RenewalCandidate
  with_identity p (thrown category) = thrown category
  with_identity p (returned v) =
      if is_some v.provider_account
      then returned (record p {
        validated_identity = some v;
        renewed = record p.renewed { validated_at = some l.now };
      })
      else thrown (some malformed_provider_response)

  abbrev validated_by : Option Validator → RenewalCandidate → Outcome RenewalCandidate
  validated_by none p = thrown (some provider_configuration_error)
  validated_by (some validate) p = with_identity p (
      validate (record {
        provider = l.adapter.provider_id;
        generation = p.current.generation + 1;
        credential = merged p;
        active_credential_expires_at = p.renewed.active_credential_expires_at;
        renewal_credential_expires_at =
            or_else p.renewed.renewal_credential_expires_at
              p.decrypted.renewal_credential_expires_at;
        granted_scopes = or_default p.renewed.granted_scopes p.current.granted_scopes;
      }))

  unfoldable pub validate_renewed_generation :
      Option Validator → ScopeRequirementInput → Bool → RenewalCandidate → Outcome RenewalCandidate
  unfolding merge_rotated_credential
  validate_renewed_generation validator required_scopes manual p =
      if not (truthy? p.renewed.credential.active_credential)
      then thrown (some malformed_provider_response)
      else if l.adapter.capabilities.rotating_renewal_credential
          && not (truthy? p.renewed.credential.renewal_credential)
      then thrown (some malformed_provider_response)
      else if manual
          && not (
              scope_requirement_satisfied l.adapter
                (or_default p.renewed.granted_scopes p.current.granted_scopes) required_scopes)
      then thrown (some insufficient_scope)
      else if or_default l.adapter.capabilities.account_identity_reporting false
      then validated_by validator p
      else returned p

  unfoldable pub renewed_custody_active : RenewalCandidate → CredentialGenerationRecord
  unfolding encrypt_envelope merge_rotated_credential
  renewed_custody_active p = record p.custody {
    encrypted_credential_envelope = some (encrypt_envelope l (merged p));
    state = active;
    updated_at = l.now;
  }

  unfoldable pub renewed_connection : RenewalCandidate → ConnectionRecord → ConnectionRecord
  unfolding encrypt_envelope legacy_credential merge_rotated_credential
  renewed_connection p c =
      let account = account_of_validated p.validated_identity in
      record c {
        display_account_identity = display_of p.validated_identity c.display_account_identity;
        provider_account_id = or_else (id_of account) c.provider_account_id;
        provider_account_login = or_else (login_of account) c.provider_account_login;
        encrypted_credential_envelope = some (encrypt_envelope l (merged p));
        credential_schema_version = some credential_schema_version;
        credential_generation_id = some p.custody.id;
        generation = c.generation + 1;
        granted_scopes = or_default p.renewed.granted_scopes c.granted_scopes;
        active_credential_present = truthy? (merged p).active_credential;
        renewal_credential_present = truthy? (merged p).renewal_credential;
        active_credential_expires_at = p.renewed.active_credential_expires_at;
        renewal_credential_expires_at =
            or_else p.renewed.renewal_credential_expires_at c.renewal_credential_expires_at;
        last_renewed_at = some l.now;
        last_validated_at = or_else p.renewed.validated_at c.last_validated_at;
        phase = connected;
        lifecycle_error_category = none;
        updated_at = l.now;
        encrypted_legacy_credential = legacy_credential l c.provider (merged p);
      }

  abbrev retired_custody : CredentialGenerationRecord → CredentialGenerationRecord
  retired_custody r = record r {
    encrypted_credential_envelope = none;
    encrypted_legacy_credential = none;
    state = retired;
    next_cleanup_attempt_at = none;
    last_cleanup_error_category = none;
    updated_at = l.now;
  }

  abbrev is_active : Option CredentialGenerationRecord → Bool
  is_active none = false
  is_active (some r) = state_eq r.state active

  -- The custody that the renewed one takes the place of; it has to be active.
  unfoldable pub superseded : String → ConnectionRecord → Tx (Option CredentialGenerationRecord)
  unfolding state_eq
  superseded id c =
      if truthy? c.credential_generation_id && not (holds id c.credential_generation_id)
      then (do
        kept ← generations l identity
        let found = find (is_custody_of c.credential_generation_id) kept
        raise_if (not (is_active found)) generation_conflict
        pure found)
      else pure none

  abbrev pub retire : Option CredentialGenerationRecord → Tx (Unit {0})
  retire none = pure tt
  retire (some r) = update_or_conflict (retired_custody r) active r.cleanup_attempts

  -- The result, and whether the account is another one than before.
  unfoldable pub commit_renewal : RenewalCandidate → ConnectionRecord → Tx (RenewalResult × Bool)
  unfolding superseded renewed_custody_active renewed_connection is_rebound
  commit_renewal p c = do
    before ← superseded p.custody.id c
    update_or_conflict (renewed_custody_active p) candidate 0
    save_or_conflict (renewed_connection p c) (connection_write_guard (some p.current))
    retire before
    pure (
      refreshed,
      is_rebound c.provider_account_id (id_of (account_of_validated p.validated_identity)),
    )

  abbrev pub commit_found : RenewalCandidate → Option ConnectionRecord → Tx (RenewalResult × Bool)
  commit_found p none = pure (already_fresh, false)
  commit_found p (some c) =
      if not (nat_eq c.generation p.current.generation)
      then pure (already_fresh, false)
      else if is_some c.local_disabled_at || not (nat_eq c.updated_at p.current.updated_at)
      then raise generation_conflict
      else commit_renewal p c

  unfoldable pub activate_renewed_generation : RenewalCandidate → Tx (RenewalResult × Bool)
  unfolding commit_renewal
  activate_renewed_generation p = do current ← read l identity; commit_found p current
