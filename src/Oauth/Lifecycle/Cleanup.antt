-- ===== src/Oauth/Lifecycle/Cleanup.antt =====
-- shared/oauth/connection-lifecycle.ts: what follows the provider's answer to a revocation,
-- finalizeCredentialCleanup and finalizeRevocationInStore, adoptPendingConnectionCleanup, and
-- the part of cleanupCustodiedGeneration before the provider is asked.
pub mod Laws
use mcp_gw.Common.{
  ℕ, ◌+◌, String, Bool, true, false, not, ◌&&◌, ◌||◌, Option, none, some, is_some, List, truthy?,
  nat_eq, ◌==◌, if◌then◌else◌,
}
use mcp_gw.Common.Lists.{find}
use mcp_gw.Oauth.Types.{
  ConnectionPhase, disconnected, unavailable, disconnected_with_provider_cleanup_pending,
  RevocationState, ProviderRevocationResult, revoked, already_absent, not_supported,
  retryable_failure, permanent_failure, CredentialGenerationState, candidate, active,
  cleanup_pending, cleanup_complete, cleanup_permanent_failure, LifecycleErrorCategory,
  transient_provider_failure, provider_configuration_error, ConnectionRecord,
  CredentialGenerationRecord,
}
use mcp_gw.Oauth.Guard.{connection_write_guard}
use mcp_gw.Oauth.Store.Cleanup.{is_pending}
use mcp_gw.Oauth.Retry.{cleanup_backoff_ms}
use mcp_gw.Oauth.Lifecycle.{
  Lifecycle, Hop1Identity, Tx, pure, continue, ◌>>=◌, ◌>>◌, read, generations, save_or_conflict,
  update, keep_generation, destroy_credentials, connection_credential_custody_record,
}

-- Nothing is left at the provider.
unfoldable pub is_complete : ProviderRevocationResult → Bool
is_complete revoked = true
is_complete already_absent = true
is_complete not_supported = true
is_complete _ = false

abbrev pub cleanup_state : ProviderRevocationResult → CredentialGenerationState
cleanup_state retryable_failure = cleanup_pending
cleanup_state ProviderRevocationResult.permanent_failure = cleanup_permanent_failure
cleanup_state _ = cleanup_complete

abbrev pub cleanup_error : ProviderRevocationResult → Option LifecycleErrorCategory
cleanup_error retryable_failure = some transient_provider_failure
cleanup_error ProviderRevocationResult.permanent_failure = some provider_configuration_error
cleanup_error _ = none

abbrev pub next_attempt : ℕ → ℕ → ProviderRevocationResult → Option ℕ
next_attempt now attempts retryable_failure = some (now + cleanup_backoff_ms attempts)
next_attempt now attempts _ = none

-- The text is erased where the cleanup is complete.
abbrev pub erased : Bool → Option String → Option String
erased true text = none
erased false text = text

unfoldable pub cleaned :
    ℕ → ProviderRevocationResult → CredentialGenerationRecord → CredentialGenerationRecord
unfolding is_complete
cleaned now result r = record r {
  state = cleanup_state result;
  encrypted_credential_envelope = erased (is_complete result) r.encrypted_credential_envelope;
  encrypted_legacy_credential = erased (is_complete result) r.encrypted_legacy_credential;
  cleanup_attempts = r.cleanup_attempts + 1;
  next_cleanup_attempt_at = next_attempt now (r.cleanup_attempts + 1) result;
  last_cleanup_error_category = cleanup_error result;
  updated_at = now;
}

abbrev pub revoked_phase : ProviderRevocationResult → ConnectionPhase
revoked_phase retryable_failure = disconnected_with_provider_cleanup_pending
revoked_phase ProviderRevocationResult.permanent_failure = unavailable
revoked_phase _ = disconnected

abbrev pub revoked_state : ProviderRevocationResult → RevocationState
revoked_state retryable_failure = RevocationState.pending
revoked_state ProviderRevocationResult.permanent_failure = RevocationState.permanent_failure
revoked_state _ = RevocationState.complete

-- `credentialGenerationId !== undefined && …` of an optional argument
abbrev pub is_other : Option String → Option String → Bool
is_other none held = false
is_other (some id) none = true
is_other (some id) (some held) = not (held == id)

module _ (l : Lifecycle) (identity : Hop1Identity) where
  unfoldable pub revocation_answered :
      ProviderRevocationResult → ConnectionRecord → ConnectionRecord
  unfolding is_complete destroy_credentials
  revocation_answered result c =
      let next : ConnectionRecord = record c {
        phase = revoked_phase result;
        revocation_state = revoked_state result;
        revocation_completed_at = if is_complete result then some l.now else none;
        lifecycle_error_category = cleanup_error result;
        updated_at = l.now;
      } in
      if is_complete result then destroy_credentials l next else next

  -- The connection is one that waits for this revocation.
  unfoldable pub awaits : ℕ → Option String → ConnectionRecord → Bool
  awaits generation id c =
      nat_eq c.generation generation
      && is_some c.local_disabled_at
      && is_pending c.revocation_state
      && not (is_other id c.credential_generation_id)

  abbrev pub finalize_found :
      ℕ → ProviderRevocationResult → Option String → Option ConnectionRecord → Tx (Unit {0})
  finalize_found generation result id none = pure tt
  finalize_found generation result id (some c) =
      if awaits generation id c
      then save_or_conflict (revocation_answered result c) (connection_write_guard (some c))
      else pure tt

  unfoldable pub finalize_revocation_in_store :
      ℕ → ProviderRevocationResult → Option String → Tx (Unit {0})
  unfolding awaits revocation_answered
  finalize_revocation_in_store generation result id = do
    current ← read l identity
    finalize_found generation result id current

  -- The transaction of `finalizeCredentialCleanup`: whether this answer was the one that counted.
  unfoldable pub finalize_credential_cleanup :
      CredentialGenerationRecord → ProviderRevocationResult → Tx Bool
  unfolding cleaned finalize_revocation_in_store
  finalize_credential_cleanup r result = do
    counted ← update (cleaned l.now result r) cleanup_pending r.cleanup_attempts
    if counted
        then (do finalize_revocation_in_store r.generation result (some r.id); pure true)
        else pure false

  unfoldable pub adopt_custody : String → ConnectionRecord → Tx (Option CredentialGenerationRecord)
  unfolding connection_credential_custody_record
  adopt_custody id c = do
    let custody = connection_credential_custody_record l id c cleanup_pending
    keep_generation custody
    save_or_conflict (record c { credential_generation_id = some id; updated_at = l.now })
        (connection_write_guard (some c))
    pure (some custody)

  abbrev pub adopt_current :
      String → Option ConnectionRecord → Tx (Option CredentialGenerationRecord)
  adopt_current id none = pure none
  adopt_current id (some c) =
      if not (is_pending c.revocation_state) || not (is_some c.local_disabled_at)
      then pure none
      else if truthy? c.credential_generation_id
      then (do
        kept ← generations l identity
        pure (
            find
              (λ (r : CredentialGenerationRecord).
                not (is_other (some r.id) c.credential_generation_id))
              kept))
      else adopt_custody id c

  unfoldable pub adopt_pending_connection_cleanup : String → Tx (Option CredentialGenerationRecord)
  unfolding adopt_custody
  adopt_pending_connection_cleanup id = do current ← read l identity; adopt_current id current

  -- What `cleanupCustodiedGeneration` does before it asks the provider: a candidate, or a generation
  -- that became active, is given to the cleanup.
  unfoldable pub queue_custodied_generation : CredentialGenerationRecord → Tx Bool
  queue_custodied_generation r = do
    let pending : CredentialGenerationRecord = record r {
      state = cleanup_pending;
      updated_at = l.now;
    }
    was_candidate ← update pending candidate r.cleanup_attempts
    if was_candidate then pure true else update pending active r.cleanup_attempts
