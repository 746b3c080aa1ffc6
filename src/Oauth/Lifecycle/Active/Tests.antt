-- ===== src/Oauth/Lifecycle/Active/Tests.antt =====
-- A credential that is asked for of a connection that was closed for want of a scope.
use mcp_gw.Oauth.Guard.{connection_write_guard}
use mcp_gw.Common.{some, [], ◌∷◌, ◌≡◌, refl}
use mcp_gw.Common.Dict.{insert, lookup}
use mcp_gw.Oauth.Types.{ConnectionRecord, reauthorization_required, insufficient_scope}
use mcp_gw.Oauth.Store.{TokenStore, empty_store}
use mcp_gw.Oauth.Store.Connections.{save_connection, get_connection, written}
use mcp_gw.Oauth.Retry.{returned}
use mcp_gw.Oauth.Scopes.{
  scopes_satisfied, scopes, scope_requirement_satisfied, require_unchanged_grant,
}
use mcp_gw.Oauth.Tests.{connection}
use mcp_gw.Oauth.Lifecycle.{Lifecycle}
use mcp_gw.Oauth.Lifecycle.Steps.{read_from}
use mcp_gw.Oauth.Lifecycle.Envelope.{decrypt_generation}
use mcp_gw.Oauth.Lifecycle.Active.{active_credential}
use mcp_gw.Oauth.Lifecycle.Active.Repaired.{Serves, active_credential-Serves}
use mcp_gw.Oauth.Lifecycle.Tests.{l, who, token}

abbrev opener : Lifecycle
opener = record l { parse = λ text. some token }

-- A connection that a tool's call for a scope has closed
abbrev closed : ConnectionRecord
closed = record connection {
  phase = reauthorization_required;
  lifecycle_error_category = some insufficient_scope;
}

abbrev closed_store : TokenStore
closed_store = written closed empty_store

abbrev opened_store : TokenStore
opened_store =
    (active_credential opener who 10 (some ("mail" ∷ [])) (scopes ("mail" ∷ []))
      (some ("mail" ∷ [])) closed_store).1

handed_out :
    active_credential opener who 10
      (some ("mail" ∷ []))
      (scopes ("mail" ∷ []))
      (some ("mail" ∷ []))
      closed_store
    ≡ (returned (some "t"), opened_store)
unfolding active_credential get_connection lookup written insert scopes_satisfied decrypt_generation
    save_connection connection_write_guard require_unchanged_grant scope_requirement_satisfied
handed_out = refl

active_credential-Serves_example :
    (c : ConnectionRecord) × (read_from opener who closed_store ≡ some c)
    × Serves opener who 10 ("mail" ∷ []) (scopes ("mail" ∷ [])) (some ("mail" ∷ [])) "t" c
active_credential-Serves_example =
    active_credential-Serves opener who 10 (some ("mail" ∷ [])) (scopes ("mail" ∷ []))
      (some ("mail" ∷ [])) "t" closed_store opened_store handed_out
