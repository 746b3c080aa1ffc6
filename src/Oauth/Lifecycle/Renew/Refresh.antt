-- ===== src/Oauth/Lifecycle/Renew/Refresh.antt =====
-- A refresh that is asked for while the first authorization of a principal runs.
use mcp_gw.Common.{
  ℕ, String, true, false, Option, none, some, List, [], ◌≡◌, refl, inl, inr, Bool-cases,
}
use mcp_gw.Common.Dict.{lookup, lookup-insert_self}
use mcp_gw.Common.Lists.{any}
use mcp_gw.Oauth.Types.{
  ConnectionRecord, CredentialGenerationRecord, candidate, generation_conflict, insufficient_scope,
  reauthorization_required, ConnectionWriteGuard,
}
use mcp_gw.Oauth.Guard.{connection_write_guard, synthetic_authorization, is_bare, absent_guard}
use mcp_gw.Oauth.Store.{TokenStore, Authorization}
use mcp_gw.Oauth.Store.Connections.{
  read_connection, get_connection, usable, live, laid_over, written, account_of, stale_in, is_stale,
  save_connection, synthetic_connection,
}
use mcp_gw.Oauth.Store.Cleanup.{
  unexpected, update_credential_generation, list_principal_credential_generations,
}
use mcp_gw.Oauth.Store.Keyed.{connection_key}
use mcp_gw.Oauth.Store.Writes.{synthetic-absent_guard}
use mcp_gw.Oauth.Retry.{thrown}
use mcp_gw.Oauth.Scopes.{AuthorizationActivationGuard, scope_requirement_satisfied}
use mcp_gw.Oauth.Lifecycle.{Lifecycle, Hop1Identity}
use mcp_gw.Oauth.Lifecycle.Steps.{principal_key, read_from}
use mcp_gw.Oauth.Lifecycle.Activate.{
  IssuedCredentialGeneration, Attestation, guard_fails, unresolved, blocks, active_custody,
  activated_connection, activate, activation_transaction,
}
use mcp_gw.Oauth.Lifecycle.Renew.{
  RenewalRequest, renewal_failed, persist_reauthorization_required, reauthorize, request_current,
  request_renewal,
}

module _ (l : Lifecycle) (identity : Hop1Identity) where
  -- An activation whose write is refused is a conflict.
  stale_activate :
      (required_scopes : List String) (issued : IssuedCredentialGeneration) (a : Attestation)
      (custody : CredentialGenerationRecord) (current : Option ConnectionRecord) (s : TokenStore)
      → stale_in
          (activated_connection l identity required_scopes issued a custody.id current)
          (connection_write_guard current)
          s
        ≡ true
      → (activate l identity required_scopes issued a custody current s).0
        ≡ thrown (some generation_conflict)
  unfolding activate active_custody update_credential_generation save_connection stale_in
  stale_activate required_scopes issued a custody current s stale =
      elim (Bool-cases (unexpected (lookup custody.id s.credential_generations) candidate 0)) [
        | inl no_ ↦ rw no_ refl
        | inr yes_ ↦ rw (yes_, stale) refl
      ]

  stale_activation_transaction :
      (required_scopes : List String) (issued : IssuedCredentialGeneration) (a : Attestation)
      (custody : CredentialGenerationRecord) (guard : Option AuthorizationActivationGuard)
      (s : TokenStore)
      → stale_in
          (activated_connection l identity required_scopes issued a custody.id
            (read_from l identity s))
          (connection_write_guard (read_from l identity s))
          s
        ≡ true
      → (activation_transaction l identity required_scopes issued a custody guard s).0
        ≡ thrown (some generation_conflict)
  unfolding activation_transaction
  stale_activation_transaction required_scopes issued a custody guard s stale =
      let current = read_from l identity s in
      let kept =
        list_principal_credential_generations l.adapter.provider_id identity.issuer identity.subject
          s in
      elim (Bool-cases (guard_fails guard current)) [
        | inl f ↦ rw f refl
        | inr f ↦ elim (Bool-cases (unresolved current)) [
          | inl g ↦ rw (f, g) refl
          | inr g ↦ elim (Bool-cases (any (blocks custody.id) kept)) [
            | inl k ↦ rw (f, g, k) refl
            | inr k ↦ rw (f, g, k) (stale_activate required_scopes issued a custody current s stale)
          ]
        ]
      ]

  -- What the refresh saves.
  abbrev left_behind : Authorization → ConnectionRecord
  left_behind auth =
      renewal_failed reauthorization_required insufficient_scope l.now
        (synthetic_connection l.adapter.provider_id identity.issuer identity.subject auth)

  read-synthetic :
      (auth : Authorization) (s : TokenStore)
      → lookup (principal_key l identity) s.connections ≡ none
      → lookup (principal_key l identity) s.accounts ≡ none
      → lookup (principal_key l identity) s.authorizations ≡ some auth
      → live l.now (some auth) ≡ true
      → read_from l identity s
        ≡ some (synthetic_connection l.adapter.provider_id identity.issuer identity.subject auth)
  unfolding get_connection read_connection usable laid_over
  read-synthetic auth s no_connection no_account running now_ =
      rw (no_connection, no_account, running, now_) refl

  absent-fresh :
      (c : ConnectionRecord) (s : TokenStore) {guard : ConnectionWriteGuard}
      → lookup (connection_key c) s.connections ≡ none
      → lookup (connection_key c) s.accounts ≡ none
      → guard ≡ absent_guard
      → stale_in c guard s ≡ false
  unfolding stale_in is_stale
  absent-fresh c s no_connection no_account e = rw (no_connection, no_account, e) refl

  left_behind-fresh :
      (auth : Authorization) (s : TokenStore)
      → lookup (principal_key l identity) s.connections ≡ none
      → lookup (principal_key l identity) s.accounts ≡ none
      → stale_in
          (left_behind auth)
          (connection_write_guard (
            some
              (synthetic_connection l.adapter.provider_id identity.issuer identity.subject auth)))
          s
        ≡ false
  unfolding renewal_failed synthetic_connection
  left_behind-fresh auth s no_connection no_account =
      absent-fresh (left_behind auth) s no_connection no_account (synthetic-absent_guard _ _ _ auth)

  reauthorize-written :
      (c : ConnectionRecord) (s : TokenStore)
      → stale_in
          (renewal_failed reauthorization_required insufficient_scope l.now c)
          (connection_write_guard (some c))
          s
        ≡ false
      → (reauthorize l identity c insufficient_scope s).1
        ≡ written (renewal_failed reauthorization_required insufficient_scope l.now c) s
  unfolding persist_reauthorization_required save_connection
  reauthorize-written c s fresh = rw fresh refl

  request_renewal-written :
      (q : RenewalRequest) (auth : Authorization) (s : TokenStore)
      → lookup (principal_key l identity) s.connections ≡ none
      → lookup (principal_key l identity) s.accounts ≡ none
      → lookup (principal_key l identity) s.authorizations ≡ some auth
      → live l.now (some auth) ≡ true
      → q.manual ≡ true
      → scope_requirement_satisfied l.adapter [] q.required_scopes ≡ false
      → (request_renewal l identity q s).1 ≡ written (left_behind auth) s
  unfolding request_renewal request_current synthetic_connection
  request_renewal-written q auth s no_connection no_account running now_ manual missing =
      rw (read-synthetic auth s no_connection no_account running now_, missing, manual)
        (reauthorize-written
          (synthetic_connection l.adapter.provider_id identity.issuer identity.subject auth) s
          (left_behind-fresh auth s no_connection no_account))

  left_behind-stale :
      (later : ℕ) (auth : Authorization) (s : TokenStore) (c : ConnectionRecord)
      → lookup (principal_key l identity) s.authorizations ≡ some auth
      → live later (some auth) ≡ true
      → is_stale (some (left_behind auth)) (some (account_of (left_behind auth))) (
          connection_write_guard (
            read_connection later l.adapter.provider_id identity.issuer identity.subject
              (some (left_behind auth))
              (some (account_of (left_behind auth)))
              (some auth)))
        ≡ true
  unfolding is_stale read_connection usable laid_over renewal_failed synthetic_connection
      connection_write_guard synthetic_authorization is_bare account_of
  left_behind-stale later auth s c running later_ = rw later_ refl

  left_behind-stale_in :
      (later : ℕ) (auth : Authorization) (s : TokenStore) (required_scopes : List String)
      (issued : IssuedCredentialGeneration) (a : Attestation) (id : String)
      (current : Option ConnectionRecord)
      → lookup (principal_key l identity) s.authorizations ≡ some auth
      → live later (some auth) ≡ true
      → stale_in
          (activated_connection
            (record l { now = later })
            identity
            required_scopes
            issued
            a
            id
            current)
          (connection_write_guard
            (read_from (record l { now = later }) identity (written (left_behind auth) s)))
          (written (left_behind auth) s)
        ≡ true
  unfolding stale_in activated_connection get_connection written renewal_failed synthetic_connection
  left_behind-stale_in later auth s required_scopes issued a id current running later_ =
      let key = principal_key l identity in
      let c = left_behind auth in
      rw
        (
          running,
          lookup-insert_self key c s.connections,
          lookup-insert_self key (account_of c) s.accounts,
        )
        (left_behind-stale later auth s c running later_)

-- A manual refresh breaks the first authorization of a principal that is under way: where nothing is
-- stored for the principal but a running authorization, and the refresh asks for scopes that an empty
-- grant does not satisfy, no activation succeeds afterwards for as long as that authorization runs,
-- whatever guard it was started with and whatever was issued: it is refused as a conflict.
pub request_renewal-activation_transaction :
    (l : Lifecycle) (identity : Hop1Identity) (later : ℕ) (q : RenewalRequest)
    (auth : Authorization) (required_scopes : List String) (issued : IssuedCredentialGeneration)
    (a : Attestation) (custody : CredentialGenerationRecord)
    (guard : Option AuthorizationActivationGuard) (s : TokenStore)
    → lookup (principal_key l identity) s.connections ≡ none
    → lookup (principal_key l identity) s.accounts ≡ none
    → lookup (principal_key l identity) s.authorizations ≡ some auth
    → live l.now (some auth) ≡ true
    → live later (some auth) ≡ true
    → q.manual ≡ true
    → scope_requirement_satisfied l.adapter [] q.required_scopes ≡ false
    → (activation_transaction
        (record l { now = later })
        identity
        required_scopes
        issued
        a
        custody
        guard
        (request_renewal l identity q s).1).0
      ≡ thrown (some generation_conflict)
request_renewal-activation_transaction l identity later q auth required_scopes issued a custody
      guard s no_connection no_account running now_ later_ manual missing =
    rw
      (request_renewal-written l identity q auth s no_connection no_account running now_ manual
        missing)
      (stale_activation_transaction (record l { now = later }) identity required_scopes issued a
        custody guard _
        (left_behind-stale_in l identity later auth s required_scopes issued a custody.id _ running
          later_))
