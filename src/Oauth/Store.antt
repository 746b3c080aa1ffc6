-- ===== src/Oauth/Store.antt =====
-- shared/oauth/memory-store.ts: InMemoryOAuthTokenStore, the accounts and their connections. `now` is
-- the clock at the call. The lock of a principal runs one operation after another, so an operation
-- under it is a function from the store before to the store after. Copies that the code makes of
-- records are left out: values do not share memory here.
pub mod Connections
pub mod Cleanup
pub mod Consistent
pub mod Keyed
pub mod Writes
pub mod Workers
pub mod Queue
use mcp_gw.Common.{
  ℕ, String, Bool, true, false, not, ◌&&◌, ◌||◌, Option, none, some, List, [], ◌∷◌, is_some,
  or_default, or_else, leb, nat_eq, ◌==◌, if◌then◌else◌,
}
use mcp_gw.Common.Text.{◌<>◌}
use mcp_gw.Common.Dict.{Dict, lookup, insert, remove}
use mcp_gw.Oauth.Types.{
  ConnectionPhase, disconnected, authorizing, connected, RevocationState, ConnectionRecord,
  OauthAccountRecord, CredentialGenerationRecord, PendingCredentialCleanupRecord,
  ConnectionWriteGuard,
}

pub record Authorization : Type 0 where
  pub required_scopes : List String
  pub expires_at : ℕ
  pub updated_at : ℕ

pub record TokenStore : Type 0 where
  pub accounts : Dict OauthAccountRecord
  pub connections : Dict ConnectionRecord
  pub pending_credential_cleanups : Dict PendingCredentialCleanupRecord
  pub credential_generations : Dict CredentialGenerationRecord
  pub authorizations : Dict Authorization

abbrev pub empty_store : TokenStore
empty_store = record {
  accounts = [];
  connections = [];
  pending_credential_cleanups = [];
  credential_generations = [];
  authorizations = [];
}

unfoldable pub account_key : String → String → String → String
account_key provider issuer subject = provider <> "\n" <> issuer <> "\n" <> subject

abbrev pub phase_of : Option ℕ → ConnectionPhase
phase_of none = connected
phase_of (some at_) = disconnected

abbrev pub revocation_of : Option ℕ → RevocationState
revocation_of none = RevocationState.none
revocation_of (some at_) = RevocationState.complete

-- The part of `saveAccount` that brings a connection in line with its account.
unfoldable pub sync_connection : OauthAccountRecord → ConnectionRecord → ConnectionRecord
sync_connection account c = record c {
  display_account_identity = account.email;
  provider_account_id = or_else account.provider_account_id c.provider_account_id;
  provider_account_login = or_else account.provider_account_login c.provider_account_login;
  granted_scopes = account.scopes_granted;
  encrypted_legacy_credential = account.encrypted_refresh_token;
  encrypted_credential_envelope = none;
  credential_schema_version = none;
  active_credential_present = account.provider == "github";
  renewal_credential_present = account.provider == "google";
  active_credential_expires_at = none;
  renewal_credential_expires_at = none;
  local_disabled_at = account.revoked_at;
  last_authorized_at = some account.updated_at;
  last_renewed_at = none;
  last_validated_at = none;
  phase = phase_of account.revoked_at;
  revocation_state = revocation_of account.revoked_at;
  revocation_started_at = none;
  revocation_completed_at = account.revoked_at;
  lifecycle_error_category = none;
  updated_at = account.updated_at;
}

-- `set` at a key whose connection is there, changed by `f`.
abbrev update_found :
    String
    → (ConnectionRecord → ConnectionRecord)
    → Option ConnectionRecord
    → Dict ConnectionRecord
    → Dict ConnectionRecord
update_found key f none connections = connections
update_found key f (some c) connections = insert key (f c) connections

-- The immutable account identity survives a write that does not know it.
unfoldable pub keep_identity : OauthAccountRecord → Option OauthAccountRecord → OauthAccountRecord
keep_identity account none = account
keep_identity account (some existing) = record account {
  provider_account_id = or_else account.provider_account_id existing.provider_account_id;
  provider_account_login = or_else account.provider_account_login existing.provider_account_login;
}

unfoldable pub save_account : OauthAccountRecord → TokenStore → TokenStore
unfolding keep_identity sync_connection account_key
save_account account store =
    let key = account_key account.provider account.hop1_issuer account.hop1_subject in
    record store {
      accounts = insert key (keep_identity account (lookup key store.accounts)) store.accounts;
      connections =
          update_found key (sync_connection account) (lookup key store.connections)
            store.connections;
    }

unfoldable pub get_account : String → String → String → TokenStore → Option OauthAccountRecord
unfolding account_key
get_account issuer subject provider store =
    lookup (account_key provider issuer subject) store.accounts

unfoldable pub revoke_connection : ℕ → ConnectionRecord → ConnectionRecord
revoke_connection revoked_at c = record c {
  local_disabled_at = some revoked_at;
  phase = disconnected;
  revocation_state = RevocationState.complete;
  revocation_completed_at = some revoked_at;
  updated_at = revoked_at;
}

revoke_found : String → ℕ → Option OauthAccountRecord → TokenStore → TokenStore
unfolding revoke_connection
revoke_found key revoked_at none store = store
revoke_found key revoked_at (some account) store = record store {
  accounts =
      insert key (record account { revoked_at = some revoked_at; updated_at = revoked_at })
        store.accounts;
  connections =
      update_found key (revoke_connection revoked_at) (lookup key store.connections)
        store.connections;
}

unfoldable pub mark_revoked : String → String → ℕ → String → TokenStore → TokenStore
unfolding revoke_found account_key
mark_revoked issuer subject revoked_at provider store =
    let key = account_key provider issuer subject in
    revoke_found key revoked_at (lookup key store.accounts) store
