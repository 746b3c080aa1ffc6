-- ===== src/Oauth/Store/Connections.antt =====
-- shared/oauth/memory-store.ts: InMemoryOAuthTokenStore, a connection as it is read and written. An
-- account with no connection is read as one of generation 1; a running authorization is laid over a
-- connection that is not usable.
use mcp_gw.Common.{
  ℕ, String, Bool, true, false, not, ◌&&◌, ◌||◌, Option, none, some, List, [], is_some, leb, nat_eq,
  ◌==◌, if◌then◌else◌,
}
use mcp_gw.Common.Dict.{lookup, insert, remove}
use mcp_gw.Oauth.Types.{
  ConnectionPhase, authorizing, connected, RevocationState, ConnectionRecord, OauthAccountRecord,
  ConnectionWriteGuard,
}
use mcp_gw.Oauth.Store.{Authorization, TokenStore, account_key, phase_of, revocation_of}

unfoldable pub connection_from_legacy : OauthAccountRecord → ConnectionRecord
connection_from_legacy legacy = record {
  provider = legacy.provider;
  hop1_issuer = legacy.hop1_issuer;
  hop1_subject = legacy.hop1_subject;
  display_account_identity = legacy.email;
  provider_account_id = legacy.provider_account_id;
  provider_account_login = legacy.provider_account_login;
  encrypted_credential_envelope = none;
  credential_schema_version = none;
  credential_generation_id = none;
  generation = 1;
  required_scopes = [];
  granted_scopes = legacy.scopes_granted;
  active_credential_present = legacy.provider == "github";
  renewal_credential_present = legacy.provider == "google";
  active_credential_expires_at = none;
  renewal_credential_expires_at = none;
  last_authorized_at = some legacy.created_at;
  last_renewed_at = none;
  last_validated_at = none;
  local_disabled_at = legacy.revoked_at;
  phase = phase_of legacy.revoked_at;
  revocation_state = revocation_of legacy.revoked_at;
  revocation_started_at = none;
  revocation_completed_at = legacy.revoked_at;
  lifecycle_error_category = none;
  created_at = legacy.created_at;
  updated_at = legacy.updated_at;
  encrypted_legacy_credential = legacy.encrypted_refresh_token;
}

-- What stands for an authorization that runs with nothing stored behind it.
unfoldable pub synthetic_connection : String → String → String → Authorization → ConnectionRecord
synthetic_connection provider issuer subject authorization = record {
  provider = provider;
  hop1_issuer = issuer;
  hop1_subject = subject;
  display_account_identity = "";
  provider_account_id = none;
  provider_account_login = none;
  encrypted_credential_envelope = none;
  credential_schema_version = none;
  credential_generation_id = none;
  generation = 0;
  required_scopes = authorization.required_scopes;
  granted_scopes = [];
  active_credential_present = false;
  renewal_credential_present = false;
  active_credential_expires_at = none;
  renewal_credential_expires_at = none;
  last_authorized_at = none;
  last_renewed_at = none;
  last_validated_at = none;
  local_disabled_at = none;
  phase = authorizing;
  revocation_state = RevocationState.none;
  revocation_started_at = none;
  revocation_completed_at = none;
  lifecycle_error_category = none;
  created_at = authorization.updated_at;
  updated_at = authorization.updated_at;
  encrypted_legacy_credential = "";
}

abbrev pub is_connected : ConnectionPhase → Bool
is_connected connected = true
is_connected _ = false

-- The connection to read where no authorization runs over it.
abbrev pub underlying :
    Option ConnectionRecord → Option OauthAccountRecord → Option ConnectionRecord
underlying (some c) legacy = some c
underlying none (some legacy) = some (connection_from_legacy legacy)
underlying none none = none

unfoldable pub usable : Option ConnectionRecord → Option OauthAccountRecord → Bool
usable (some c) legacy = not (is_some c.local_disabled_at) && is_connected c.phase
usable none (some legacy) = not (is_some legacy.revoked_at)
usable none none = false

unfoldable pub live : ℕ → Option Authorization → Bool
live now none = false
live now (some authorization) = not (leb authorization.expires_at now)

unfoldable pub laid_over :
    String
    → String
    → String
    → Option Authorization
    → Option ConnectionRecord
    → Option ConnectionRecord
laid_over provider issuer subject none below = below
laid_over provider issuer subject (some authorization) none =
    some (synthetic_connection provider issuer subject authorization)
laid_over provider issuer subject (some authorization) (some c) =
    some (record c { required_scopes = authorization.required_scopes; phase = authorizing })

unfoldable pub read_connection :
    ℕ
    → String
    → String
    → String
    → Option ConnectionRecord
    → Option OauthAccountRecord
    → Option Authorization
    → Option ConnectionRecord
unfolding usable live laid_over
read_connection now provider issuer subject connection legacy authorization =
    if usable connection legacy
    then underlying connection legacy
    else if live now authorization
    then laid_over provider issuer subject authorization (underlying connection legacy)
    else underlying connection legacy

unfoldable pub get_connection : ℕ → String → String → String → TokenStore → Option ConnectionRecord
unfolding read_connection account_key
get_connection now provider issuer subject store =
    let key = account_key provider issuer subject in
    read_connection now provider issuer subject (lookup key store.connections)
      (lookup key store.accounts) (lookup key store.authorizations)

-- `===` on optional numbers
abbrev pub opt_eq : Option ℕ → Option ℕ → Bool
opt_eq none none = true
opt_eq (some a) (some b) = nat_eq a b
opt_eq _ _ = false

abbrev pub current_generation : Option ConnectionRecord → Option OauthAccountRecord → Option ℕ
current_generation (some c) legacy = some c.generation
current_generation none (some legacy) = some 1
current_generation none none = none

abbrev pub bool_eq : Bool → Bool → Bool
bool_eq true b = b
bool_eq false b = not b

abbrev pub updated_at_of : Option OauthAccountRecord → Option ℕ
updated_at_of none = none
updated_at_of (some a) = some a.updated_at

abbrev pub revoked_at_of : Option OauthAccountRecord → Option ℕ
revoked_at_of none = none
revoked_at_of (some a) = a.revoked_at

-- The guard does not describe what is stored.
unfoldable pub is_stale :
    Option ConnectionRecord → Option OauthAccountRecord → ConnectionWriteGuard → Bool
is_stale current legacy guard =
    not (bool_eq guard.present (is_some legacy))
    || guard.present
      && (not (opt_eq (current_generation current legacy) guard.generation)
          || not (opt_eq (updated_at_of legacy) guard.updated_at)
          || not (opt_eq (revoked_at_of legacy) guard.revoked_at))

-- The account that a saved connection leaves behind.
unfoldable pub account_of : ConnectionRecord → OauthAccountRecord
account_of c = record {
  provider = c.provider;
  hop1_issuer = c.hop1_issuer;
  hop1_subject = c.hop1_subject;
  email = c.display_account_identity;
  provider_account_id = c.provider_account_id;
  provider_account_login = c.provider_account_login;
  scopes_granted = c.granted_scopes;
  encrypted_refresh_token = c.encrypted_legacy_credential;
  created_at = c.created_at;
  updated_at = c.updated_at;
  revoked_at = c.local_disabled_at;
}

unfoldable pub written : ConnectionRecord → TokenStore → TokenStore
unfolding account_of account_key
written c store =
    let key = account_key c.provider c.hop1_issuer c.hop1_subject in
    record store {
      connections = insert key c store.connections;
      accounts = insert key (account_of c) store.accounts;
    }

unfoldable pub stale_in : ConnectionRecord → ConnectionWriteGuard → TokenStore → Bool
unfolding is_stale account_key
stale_in c guard store =
    let key = account_key c.provider c.hop1_issuer c.hop1_subject in
    is_stale (lookup key store.connections) (lookup key store.accounts) guard

unfoldable pub save_connection :
    ConnectionRecord → ConnectionWriteGuard → TokenStore → Bool × TokenStore
unfolding stale_in written
save_connection c guard store =
    if stale_in c guard store then (false, store) else (true, written c store)

unfoldable pub mark_authorizing :
    ℕ → String → String → String → List String → ℕ → TokenStore → TokenStore
unfolding account_key
mark_authorizing now provider issuer subject required_scopes expires_at store =
    let authorization : Authorization = record {
      required_scopes = required_scopes;
      expires_at = expires_at;
      updated_at = now;
    } in
    record store {
      authorizations =
          insert (account_key provider issuer subject) authorization store.authorizations;
    }

unfoldable pub clear_authorizing : String → String → String → TokenStore → TokenStore
unfolding account_key
clear_authorizing provider issuer subject store = record store {
  authorizations = remove (account_key provider issuer subject) store.authorizations;
}
