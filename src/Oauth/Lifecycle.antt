-- ===== src/Oauth/Lifecycle.antt =====
-- shared/oauth/connection-lifecycle.ts: what the transactions of ConnectionLifecycle share. A
-- transaction runs under the lock of its principal, on the in-memory store, which keeps what was
-- written before an error. The clock stands still within one transaction. An error is its category.
-- Audit events and metrics, which change nothing, are left out.
mod Tests
pub mod Steps
pub mod Envelope
pub mod Active
pub mod Activate
pub mod Disconnect
pub mod Cleanup
pub mod Renew
use mcp_gw.Common.{
  ℕ, String, Bool, true, false, not, ◌&&◌, Option, none, some, is_some, or_default, or_else, List,
  [], ◌∷◌, truthy, truthy?, ◌==◌, if◌then◌else◌,
}
use mcp_gw.Json.{Props}
use mcp_gw.Oauth.Types.{
  CredentialGenerationState, candidate, LifecycleErrorCategory, generation_conflict,
  ConnectionRecord, CredentialGenerationRecord, ConnectionWriteGuard,
}
use mcp_gw.Oauth.Store.{TokenStore}
use mcp_gw.Oauth.Store.Connections.{get_connection, save_connection, clear_authorizing}
use mcp_gw.Oauth.Store.Cleanup.{
  update_credential_generation, save_credential_generation, list_principal_credential_generations,
}
use mcp_gw.Oauth.Scopes.{DownstreamConnectionAdapter}
use mcp_gw.Oauth.Retry.{Outcome, returned, thrown}

-- A credential of the provider; `fields` are the provider's own.
pub record ProviderCredentialEnvelope : Type 0 where
  pub active_credential : Option String
  pub renewal_credential : Option String
  pub fields : Props

pub record DecryptedCredentialGeneration : Type 0 where
  pub provider : String
  pub generation : ℕ
  pub credential : ProviderCredentialEnvelope
  pub active_credential_expires_at : Option ℕ
  pub renewal_credential_expires_at : Option ℕ
  pub granted_scopes : List String

pub record Hop1Identity : Type 0 where
  pub issuer : String
  pub subject : String
  pub email : String

-- The adapter, the clock at the transaction, encryption and decryption under the configured key, and
-- the JSON text of an envelope. A decryption that fails, or a text that is no JSON, is `none`.
pub record Lifecycle : Type 0 where
  pub adapter : DownstreamConnectionAdapter
  pub now : ℕ
  pub encrypt_secret : String → String
  pub decrypt_secret : String → Option String
  pub stringify : ProviderCredentialEnvelope → String
  pub parse : String → Option ProviderCredentialEnvelope

abbrev pub Tx : Type 0 → Type 0
Tx A = TokenStore → Outcome A × TokenStore

module _ {A : Type 0} where
  abbrev pub pure : A → Tx A
  pure a store = (returned a, store)

  abbrev pub raise : LifecycleErrorCategory → Tx A
  raise category store = (thrown (some category), store)

abbrev pub continue : {A B : Type 0} → (A → Tx B) → Outcome A → Tx B
continue next (returned a) store = next a store
continue next (thrown category) store = (thrown category, store)

infixl 5 ◌>>=◌ ◌>>◌
abbrev pub ◌>>=◌ : {A B : Type 0} → Tx A → (A → Tx B) → Tx B
◌>>=◌ step next store = let (outcome, after_) = step store in continue next outcome after_

abbrev pub ◌>>◌ : {B : Type 0} → Tx (Unit {0}) → Tx B → Tx B
step >> next = step >>= λ done. next

-- `if (test) throw`
abbrev pub raise_if : Bool → LifecycleErrorCategory → Tx (Unit {0})
raise_if true category store = (thrown (some category), store)
raise_if false category store = (returned tt, store)

module _ (l : Lifecycle) (identity : Hop1Identity) where
  abbrev pub read : Tx (Option ConnectionRecord)
  read store = (
    returned (get_connection l.now l.adapter.provider_id identity.issuer identity.subject store),
    store,
  )

  abbrev pub generations : Tx (List CredentialGenerationRecord)
  generations store = (
    returned (
        list_principal_credential_generations l.adapter.provider_id identity.issuer identity.subject
          store),
    store,
  )

  abbrev pub clear : Tx (Unit {0})
  clear store =
      (returned tt, clear_authorizing l.adapter.provider_id identity.issuer identity.subject store)

abbrev pub with_flag : Bool × TokenStore → Outcome Bool × TokenStore
with_flag (flag, store) = (returned flag, store)

abbrev pub save : ConnectionRecord → ConnectionWriteGuard → Tx Bool
save c guard store = with_flag (save_connection c guard store)

-- A write that is refused is a conflict of generations.
abbrev pub save_or_conflict : ConnectionRecord → ConnectionWriteGuard → Tx (Unit {0})
save_or_conflict c guard = do saved ← save c guard; raise_if (not saved) generation_conflict

abbrev pub update : CredentialGenerationRecord → CredentialGenerationState → ℕ → Tx Bool
update r expected attempts store =
    with_flag (update_credential_generation r expected attempts store)

abbrev pub update_or_conflict :
    CredentialGenerationRecord → CredentialGenerationState → ℕ → Tx (Unit {0})
update_or_conflict r expected attempts = do
  moved ← update r expected attempts
  raise_if (not moved) generation_conflict

abbrev pub keep_generation : CredentialGenerationRecord → Tx (Unit {0})
keep_generation r store = (returned tt, save_credential_generation r store)

abbrev pub credential_schema_version : ℕ
credential_schema_version = 1

-- `encryptEnvelope`
unfoldable pub encrypt_envelope : Lifecycle → ProviderCredentialEnvelope → String
encrypt_envelope l credential = l.encrypt_secret (l.stringify credential)

unfoldable pub legacy_value : String → ProviderCredentialEnvelope → Option String
legacy_value provider credential =
    if provider == "google"
    then credential.renewal_credential
    else if provider == "github"
    then credential.active_credential
    else or_else credential.active_credential credential.renewal_credential

unfoldable pub legacy_credential : Lifecycle → String → ProviderCredentialEnvelope → String
unfolding legacy_value
legacy_credential l provider credential =
    l.encrypt_secret (or_default (legacy_value provider credential) "credential-unavailable")

unfoldable pub destroy_credentials : Lifecycle → ConnectionRecord → ConnectionRecord
destroy_credentials l c = record c {
  encrypted_credential_envelope = none;
  credential_schema_version = none;
  active_credential_present = false;
  renewal_credential_present = false;
  encrypted_legacy_credential = l.encrypt_secret "credential-destroyed";
}

-- The custody of a credential that has just been issued; `id` is a fresh UUID.
unfoldable pub credential_custody_record :
    Lifecycle → String → Hop1Identity → DecryptedCredentialGeneration → CredentialGenerationRecord
unfolding encrypt_envelope
credential_custody_record l id identity g = record {
  id = id;
  provider = g.provider;
  hop1_issuer = identity.issuer;
  hop1_subject = identity.subject;
  display_account_identity = identity.email;
  encrypted_credential_envelope = some (encrypt_envelope l g.credential);
  encrypted_legacy_credential = none;
  credential_schema_version = credential_schema_version;
  generation = g.generation;
  state = candidate;
  granted_scopes = g.granted_scopes;
  active_credential_expires_at = g.active_credential_expires_at;
  renewal_credential_expires_at = g.renewal_credential_expires_at;
  cleanup_attempts = 0;
  next_cleanup_attempt_at = none;
  last_cleanup_error_category = none;
  created_at = l.now;
  updated_at = l.now;
}

-- The custody of the credential that a connection holds.
unfoldable pub connection_credential_custody_record :
    Lifecycle → String → ConnectionRecord → CredentialGenerationState → CredentialGenerationRecord
connection_credential_custody_record l id c state = record {
  id = id;
  provider = c.provider;
  hop1_issuer = c.hop1_issuer;
  hop1_subject = c.hop1_subject;
  display_account_identity = c.display_account_identity;
  encrypted_credential_envelope = c.encrypted_credential_envelope;
  encrypted_legacy_credential = some c.encrypted_legacy_credential;
  credential_schema_version = or_default c.credential_schema_version credential_schema_version;
  generation = c.generation;
  state = state;
  granted_scopes = c.granted_scopes;
  active_credential_expires_at = c.active_credential_expires_at;
  renewal_credential_expires_at = c.renewal_credential_expires_at;
  cleanup_attempts = 0;
  next_cleanup_attempt_at = none;
  last_cleanup_error_category = none;
  created_at = l.now;
  updated_at = l.now;
}
