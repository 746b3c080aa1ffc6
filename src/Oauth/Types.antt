-- ===== src/Oauth/Types.antt =====
-- shared/oauth/connection-types.ts and shared/oauth/store.ts: the records of a connection. A `Date`
-- is its number of milliseconds. The credential that an encrypted text holds is never looked at
-- here: the cipher is a parameter where it is used.
use mcp_gw.Common.{ℕ, String, Bool, Option, List}

pub data ConnectionPhase : Type 0 where
  disconnected authorizing connected renewing reauthorization_required revocation_pending
        disconnected_with_provider_cleanup_pending unavailable :
      ConnectionPhase

pub data LifecycleErrorCategory : Type 0 where
  transient_provider_failure invalid_active_credential invalid_renewal_credential renewal_expired
        authorization_denied identity_mismatch insufficient_scope provider_configuration_error
        malformed_provider_response persistence_failure generation_conflict :
      LifecycleErrorCategory

pub data ProviderRevocationResult : Type 0 where
  revoked already_absent not_supported retryable_failure permanent_failure :
      ProviderRevocationResult

pub data RevocationState : Type 0 where
  none pending complete permanent_failure : RevocationState

pub data CredentialGenerationState : Type 0 where
  candidate active cleanup_pending cleanup_complete cleanup_permanent_failure retired :
      CredentialGenerationState

-- `ProviderAccountIdentity`
pub record ProviderAccountIdentity : Type 0 where
  pub id : String
  pub login : Option String

pub record ConnectionRecord : Type 0 where
  pub provider : String
  pub hop1_issuer : String
  pub hop1_subject : String
  pub display_account_identity : String
  pub provider_account_id : Option String
  pub provider_account_login : Option String
  pub encrypted_credential_envelope : Option String
  pub credential_schema_version : Option ℕ
  pub credential_generation_id : Option String
  pub generation : ℕ
  pub required_scopes : List String
  pub granted_scopes : List String
  pub active_credential_present : Bool
  pub renewal_credential_present : Bool
  pub active_credential_expires_at : Option ℕ
  pub renewal_credential_expires_at : Option ℕ
  pub last_authorized_at : Option ℕ
  pub last_renewed_at : Option ℕ
  pub last_validated_at : Option ℕ
  pub local_disabled_at : Option ℕ
  pub phase : ConnectionPhase
  pub revocation_state : RevocationState
  pub revocation_started_at : Option ℕ
  pub revocation_completed_at : Option ℕ
  pub lifecycle_error_category : Option LifecycleErrorCategory
  pub created_at : ℕ
  pub updated_at : ℕ
  pub encrypted_legacy_credential : String

-- Durable custody of one generation of credentials that the provider has issued.
pub record CredentialGenerationRecord : Type 0 where
  pub id : String
  pub provider : String
  pub hop1_issuer : String
  pub hop1_subject : String
  pub display_account_identity : String
  pub encrypted_credential_envelope : Option String
  pub encrypted_legacy_credential : Option String
  pub credential_schema_version : ℕ
  pub generation : ℕ
  pub state : CredentialGenerationState
  pub granted_scopes : List String
  pub active_credential_expires_at : Option ℕ
  pub renewal_credential_expires_at : Option ℕ
  pub cleanup_attempts : ℕ
  pub next_cleanup_attempt_at : Option ℕ
  pub last_cleanup_error_category : Option LifecycleErrorCategory
  pub created_at : ℕ
  pub updated_at : ℕ

pub record PendingCredentialCleanupRecord : Type 0 where
  pub id : String
  pub provider : String
  pub hop1_issuer : String
  pub hop1_subject : String
  pub display_account_identity : String
  pub encrypted_credential_envelope : String
  pub credential_schema_version : ℕ
  pub generation : ℕ
  pub granted_scopes : List String
  pub active_credential_expires_at : Option ℕ
  pub renewal_credential_expires_at : Option ℕ
  pub created_at : ℕ
  pub updated_at : ℕ

pub record OauthStateRecord : Type 0 where
  pub provider : Option String
  pub state_hash : String
  pub hop1_issuer : String
  pub hop1_subject : String
  pub email : String
  pub requested_scopes : List String
  pub redirect_after : Option String
  pub expires_at : ℕ
  pub consumed_at : Option ℕ
  pub connection_generation : Option ℕ
  pub connection_locally_disabled : Option Bool
  pub connection_updated_at : Option ℕ

pub record OauthAccountRecord : Type 0 where
  pub provider : String
  pub hop1_issuer : String
  pub hop1_subject : String
  pub email : String
  pub provider_account_id : Option String
  pub provider_account_login : Option String
  pub scopes_granted : List String
  pub encrypted_refresh_token : String
  pub created_at : ℕ
  pub updated_at : ℕ
  pub revoked_at : Option ℕ

pub record ConnectionWriteGuard : Type 0 where
  pub present : Bool
  pub generation : Option ℕ
  pub updated_at : Option ℕ
  pub revoked_at : Option ℕ
