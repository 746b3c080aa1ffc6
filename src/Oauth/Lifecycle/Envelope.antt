-- ===== src/Oauth/Lifecycle/Envelope.antt =====
-- shared/oauth/connection-lifecycle.ts: opening the credentials that are kept, decryptGeneration and
-- decryptCredentialCustody, and mergeRotatedCredential.
use mcp_gw.Common.{
  ℕ, String, Bool, false, not, Option, none, some, or_else, nat_eq, ◌==◌, if◌then◌else◌,
}
use mcp_gw.Json.{Json, str, Props, end, prop}
use mcp_gw.Oauth.Types.{provider_configuration_error, ConnectionRecord, CredentialGenerationRecord}
use mcp_gw.Oauth.Retry.{Outcome, returned, thrown}
use mcp_gw.Oauth.Lifecycle.{
  Lifecycle, ProviderCredentialEnvelope, DecryptedCredentialGeneration, credential_schema_version,
}

-- A credential of the form before there were envelopes.
unfoldable pub from_legacy : String → String → ProviderCredentialEnvelope
from_legacy provider legacy =
    if provider == "google"
    then record {
      active_credential = none;
      renewal_credential = some legacy;
      fields = prop "legacyRepresentation" (str "google_refresh_token") end;
    }
    else record {
      active_credential = some legacy;
      renewal_credential = none;
      fields = prop "legacyRepresentation" (str "github_access_token") end;
    }

abbrev configuration_error : {A : Type 0} → Outcome A
configuration_error = thrown (some provider_configuration_error)

-- `JSON.parse(decryptSecret(…))`
abbrev parsed :
    (String → Option ProviderCredentialEnvelope) → Option String → Option ProviderCredentialEnvelope
parsed parse none = none
parsed parse (some text) = parse text

unfoldable pub open_envelope : Lifecycle → String → Option ProviderCredentialEnvelope
open_envelope l envelope = parsed l.parse (l.decrypt_secret envelope)

abbrev legacy_of : String → Option String → Option ProviderCredentialEnvelope
legacy_of provider none = none
legacy_of provider (some legacy) = some (from_legacy provider legacy)

abbrev opened_or :
    Outcome ProviderCredentialEnvelope
    → Option ProviderCredentialEnvelope
    → Outcome ProviderCredentialEnvelope
opened_or failure none = failure
opened_or failure (some credential) = returned credential

abbrev has_schema : Option ℕ → Bool
has_schema none = false
has_schema (some version) = nat_eq version credential_schema_version

-- An empty envelope is none. Only a legacy credential that cannot be decrypted fails with an error
-- of no category.
unfoldable pub connection_credential :
    Lifecycle → ConnectionRecord → Option String → Outcome ProviderCredentialEnvelope
unfolding open_envelope from_legacy
connection_credential l c none =
    opened_or (thrown none) (legacy_of c.provider (l.decrypt_secret c.encrypted_legacy_credential))
connection_credential l c (some envelope) =
    if envelope == ""
    then opened_or (thrown none)
        (legacy_of c.provider (l.decrypt_secret c.encrypted_legacy_credential))
    else if has_schema c.credential_schema_version
    then opened_or configuration_error (open_envelope l envelope)
    else configuration_error

abbrev generation_of :
    ConnectionRecord → Outcome ProviderCredentialEnvelope → Outcome DecryptedCredentialGeneration
generation_of c (thrown category) = thrown category
generation_of c (returned credential) = returned (record {
  provider = c.provider;
  generation = c.generation;
  credential = credential;
  active_credential_expires_at = c.active_credential_expires_at;
  renewal_credential_expires_at = c.renewal_credential_expires_at;
  granted_scopes = c.granted_scopes;
})

unfoldable pub decrypt_generation :
    Lifecycle → ConnectionRecord → Outcome DecryptedCredentialGeneration
unfolding connection_credential
decrypt_generation l c = generation_of c (connection_credential l c c.encrypted_credential_envelope)

-- A text that is there and not empty
abbrev filled : Option String → Option String
filled none = none
filled (some s) = if s == "" then none else some s

abbrev custody_of :
    Lifecycle → String → Option String → Option String → Option ProviderCredentialEnvelope
custody_of l provider (some envelope) legacy = open_envelope l envelope
custody_of l provider none (some legacy) = legacy_of provider (l.decrypt_secret legacy)
custody_of l provider none none = none

abbrev custody_generation :
    CredentialGenerationRecord
    → Option ProviderCredentialEnvelope
    → Outcome DecryptedCredentialGeneration
custody_generation r none = configuration_error
custody_generation r (some credential) = returned (record {
  provider = r.provider;
  generation = r.generation;
  credential = credential;
  active_credential_expires_at = r.active_credential_expires_at;
  renewal_credential_expires_at = r.renewal_credential_expires_at;
  granted_scopes = r.granted_scopes;
})

unfoldable pub decrypt_credential_custody :
    Lifecycle → CredentialGenerationRecord → Outcome DecryptedCredentialGeneration
unfolding open_envelope from_legacy
decrypt_credential_custody l r =
    if not (nat_eq r.credential_schema_version credential_schema_version)
    then configuration_error
    else custody_generation r (
        custody_of l r.provider (filled r.encrypted_credential_envelope)
          (filled r.encrypted_legacy_credential))

unfoldable pub set_field : String → Json → Props → Props
set_field key value end = prop key value end
set_field key value (prop k v rest) =
    if k == key then prop key value rest else prop k v (set_field key value rest)

-- `{ ...previous, ...replacement }`
unfoldable pub merge_fields : Props → Props → Props
unfolding set_field
merge_fields previous end = previous
merge_fields previous (prop key value rest) = merge_fields (set_field key value previous) rest

unfoldable pub merge_rotated_credential :
    ProviderCredentialEnvelope → ProviderCredentialEnvelope → ProviderCredentialEnvelope
unfolding merge_fields
merge_rotated_credential previous replacement = record {
  active_credential = or_else replacement.active_credential previous.active_credential;
  renewal_credential = or_else replacement.renewal_credential previous.renewal_credential;
  fields = merge_fields previous.fields replacement.fields;
}
