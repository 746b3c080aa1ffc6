-- ===== src/Oauth/Lifecycle/Disconnect.antt =====
-- shared/oauth/connection-lifecycle.ts: the transaction of disconnect, and
-- handoffPrincipalCredentialGenerations.
pub mod Handoff
pub mod Laws
use mcp_gw.Common.{
  ℕ, String, Bool, true, false, not, ◌&&◌, ◌||◌, Option, none, some, is_some, List, [], ◌∷◌, ◌++◌,
  truthy?, if◌then◌else◌,
}
use mcp_gw.Oauth.Types.{
  ConnectionPhase, disconnected, unavailable, revocation_pending,
  disconnected_with_provider_cleanup_pending, RevocationState, CredentialGenerationState, candidate,
  active, cleanup_pending, ConnectionRecord, CredentialGenerationRecord,
}
use mcp_gw.Oauth.Guard.{absent_guard, connection_write_guard}
use mcp_gw.Oauth.Store.{TokenStore}
use mcp_gw.Oauth.Store.Connections.{save_connection}
use mcp_gw.Oauth.Store.Cleanup.{
  update_credential_generation, save_credential_generation, list_principal_credential_generations,
}
use mcp_gw.Oauth.Retry.{Outcome, returned, thrown}
use mcp_gw.Oauth.Lifecycle.{
  Lifecycle, DecryptedCredentialGeneration, Hop1Identity, Tx, pure, continue, ◌>>=◌, ◌>>◌, read,
  generations, save_or_conflict, update, keep_generation, destroy_credentials,
  connection_credential_custody_record, clear,
}
use mcp_gw.Oauth.Lifecycle.Envelope.{decrypt_generation}

-- The credential may still be used, or become one that is.
abbrev pub is_live : CredentialGenerationState → Bool
is_live candidate = true
is_live active = true
is_live _ = false

abbrev pub handed_off : ℕ → CredentialGenerationRecord → CredentialGenerationRecord
handed_off now r = record r { state = cleanup_pending; updated_at = now }

-- The loop over the principal's credentials: each one that is live is handed to the cleanup. The
-- result is what was handed off.
unfoldable pub handoff :
    ℕ → List CredentialGenerationRecord → TokenStore → List CredentialGenerationRecord × TokenStore
handoff now [] store = ([], store)
handoff now (r ∷ rs) store =
    let moved = update_credential_generation (handed_off now r) r.state r.cleanup_attempts store in
    let skipped = handoff now rs store in
    let rest = handoff now rs moved.1 in
    if is_live r.state
    then (if moved.0 then handed_off now r ∷ rest.0 else rest.0, rest.1)
    else skipped

module _ (l : Lifecycle) (identity : Hop1Identity) where
  unfoldable pub handoff_principal_credential_generations : Tx (List CredentialGenerationRecord)
  unfolding handoff
  handoff_principal_credential_generations store =
      let records =
        list_principal_credential_generations l.adapter.provider_id identity.issuer identity.subject
          store in
      let (handed, after_) = handoff l.now records store in (returned handed, after_)

  -- A principal that has no connection leaves one that is disabled.
  unfoldable pub tombstone : List String → ConnectionRecord
  tombstone required_scopes = record {
    provider = l.adapter.provider_id;
    hop1_issuer = identity.issuer;
    hop1_subject = identity.subject;
    display_account_identity = identity.email;
    provider_account_id = none;
    provider_account_login = none;
    encrypted_credential_envelope = none;
    credential_schema_version = none;
    credential_generation_id = none;
    generation = 0;
    required_scopes = required_scopes;
    granted_scopes = [];
    active_credential_present = false;
    renewal_credential_present = false;
    active_credential_expires_at = none;
    renewal_credential_expires_at = none;
    last_authorized_at = none;
    last_renewed_at = none;
    last_validated_at = none;
    local_disabled_at = some l.now;
    phase = disconnected;
    revocation_state = RevocationState.complete;
    revocation_started_at = none;
    revocation_completed_at = some l.now;
    lifecycle_error_category = none;
    created_at = l.now;
    updated_at = l.now;
    encrypted_legacy_credential = l.encrypt_secret "credential-destroyed";
  }

  abbrev pub phase_when_disabled : RevocationState → ConnectionPhase
  phase_when_disabled RevocationState.pending = disconnected_with_provider_cleanup_pending
  phase_when_disabled RevocationState.permanent_failure = unavailable
  phase_when_disabled _ = disconnected

  unfoldable pub disabled_again : ConnectionRecord → ConnectionRecord
  disabled_again c = record c { phase = phase_when_disabled c.revocation_state; updated_at = l.now }

  -- The provider has to be asked to revoke the credential.
  unfoldable pub needs_revocation : ConnectionRecord → Bool
  needs_revocation c =
      l.adapter.capabilities.provider_revocation
      && (c.active_credential_present || c.renewal_credential_present)

  unfoldable pub disabled : Bool → Option String → ConnectionRecord → ConnectionRecord
  unfolding destroy_credentials
  disabled true custody c = record c {
    credential_generation_id = custody;
    local_disabled_at = some l.now;
    phase = revocation_pending;
    revocation_state = RevocationState.pending;
    revocation_started_at = some l.now;
    revocation_completed_at = none;
    updated_at = l.now;
  }
  disabled false custody c = destroy_credentials l (record c {
    credential_generation_id = custody;
    local_disabled_at = some l.now;
    phase = disconnected;
    revocation_state = RevocationState.complete;
    revocation_started_at = none;
    revocation_completed_at = some l.now;
    updated_at = l.now;
  })

  -- What the transaction gives: the credential to revoke, its custody, and the credentials that were
  -- handed to the cleanup.
  pub record Disabled : Type 0 where
    pub generation : Option DecryptedCredentialGeneration
    pub custody_id : Option String
    pub detached : List CredentialGenerationRecord

  abbrev nothing_to_revoke : List CredentialGenerationRecord → Disabled
  nothing_to_revoke detached = record { generation = none; custody_id = none; detached = detached }

  unfoldable pub save_and_hand_off :
      ConnectionRecord → Option ConnectionRecord → Tx (List CredentialGenerationRecord)
  unfolding handoff_principal_credential_generations
  save_and_hand_off next current = do
    save_or_conflict next (connection_write_guard current)
    handoff_principal_credential_generations

  abbrev opened : ConnectionRecord → Tx DecryptedCredentialGeneration
  opened c store = (decrypt_generation l c, store)

  -- A connection whose credential has no custody yet gets one, under a fresh `id`.
  unfoldable pub adopt :
      String → Bool → ConnectionRecord → Tx (Option String × List CredentialGenerationRecord)
  unfolding connection_credential_custody_record
  adopt id pending c =
      if pending && not (truthy? c.credential_generation_id)
      then (do
        let adopted = connection_credential_custody_record l id c cleanup_pending
        keep_generation adopted
        pure (some id, adopted ∷ []))
      else pure (c.credential_generation_id, [])

  unfoldable pub to_revoke :
      Bool → ConnectionRecord → Option String → List CredentialGenerationRecord → Tx Disabled
  to_revoke true c custody detached = do
    generation ← opened c
    pure (record { generation = some generation; custody_id = custody; detached = detached })
  to_revoke false c custody detached =
      pure (record { generation = none; custody_id = custody; detached = detached })

  unfoldable pub disable_current : String → ConnectionRecord → Tx Disabled
  unfolding adopt save_and_hand_off disabled
  disable_current id c = do
    let pending = needs_revocation c
    (custody, adopted) ← adopt id pending c
    handed ← save_and_hand_off (disabled pending custody c) (some c)
    to_revoke pending c custody (adopted ++ handed)

  abbrev pub disconnect_current : String → List String → Option ConnectionRecord → Tx Disabled
  disconnect_current id required_scopes none = do
    handed ← save_and_hand_off (tombstone required_scopes) none
    pure (nothing_to_revoke handed)
  disconnect_current id required_scopes (some c) =
      if is_some c.local_disabled_at
      then (do
        handed ← save_and_hand_off (disabled_again c) (some c)
        pure (nothing_to_revoke handed))
      else disable_current id c

  -- Under the lock.
  unfoldable pub disconnect_transaction : String → List String → Tx Disabled
  unfolding disable_current save_and_hand_off disabled_again tombstone
  disconnect_transaction id required_scopes = do
    current ← read l identity
    clear l identity
    disconnect_current id required_scopes current
