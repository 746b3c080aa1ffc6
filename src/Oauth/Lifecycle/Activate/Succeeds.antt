-- ===== src/Oauth/Lifecycle/Activate/Succeeds.antt =====
-- An authorization that nothing came between succeeds.
use mcp_gw.Common.{
  ℕ, ◌+◌, String, true, false, Option, none, some, is_some, List, ◌≡◌, refl, inl, inr, arith,
  Bool-cases,
}
use mcp_gw.Common.Dict.{lookup}
use mcp_gw.Common.Lists.{any}
use mcp_gw.Oauth.Types.{ConnectionRecord, CredentialGenerationRecord, candidate}
use mcp_gw.Oauth.Guard.{connection_write_guard, synthetic_authorization, is_bare}
use mcp_gw.Oauth.Store.{TokenStore}
use mcp_gw.Oauth.Store.Connections.{stale_in, written, save_connection, opt_eq}
use mcp_gw.Oauth.Store.Cleanup.{
  unexpected, update_credential_generation, list_principal_credential_generations,
}
use mcp_gw.Oauth.Store.Consistent.{Reachable, Backed, Reachable-Consistent}
use mcp_gw.Oauth.Retry.{returned}
use mcp_gw.Oauth.Scopes.{is_complete_authorization_activation_guard, snapshot_authorization_guard}
use mcp_gw.Oauth.Lifecycle.{Lifecycle, Hop1Identity}
use mcp_gw.Oauth.Lifecycle.Steps.{with_generation, principal_key, read_from, read-stale_in}
use mcp_gw.Oauth.Lifecycle.Activate.{
  IssuedCredentialGeneration, Attestation, guard_fails, generation_or_0, unresolved, blocks,
  active_custody, activated_connection, activate, activation_transaction, rebinds,
}

opt_eq_refl : (o : Option ℕ) → opt_eq o o ≡ true
opt_eq_refl none = refl
opt_eq_refl (some n) = ground arith

stored-guard_fails :
    (c : ConnectionRecord)
    → synthetic_authorization c ≡ false
    → guard_fails (some (snapshot_authorization_guard (some c))) (some c) ≡ false
unfolding guard_fails snapshot_authorization_guard is_complete_authorization_activation_guard
stored-guard_fails c stored = rw stored (ground arith)

synthetic-at_rest :
    (c : ConnectionRecord)
    → synthetic_authorization c ≡ true
    → (c.generation ≡ 0) × (is_some c.local_disabled_at ≡ false)
unfolding synthetic_authorization is_bare
synthetic-at_rest c synthetic = ground arith

synthetic-guard_fails :
    (c : ConnectionRecord)
    → synthetic_authorization c ≡ true
    → guard_fails (some (snapshot_authorization_guard (some c))) (some c) ≡ false
unfolding guard_fails snapshot_authorization_guard is_complete_authorization_activation_guard
synthetic-guard_fails c synthetic =
    let (fresh, on) = synthetic-at_rest c synthetic in rw (synthetic, fresh, on) refl

snapshot-guard_fails :
    (current : Option ConnectionRecord)
    → guard_fails (some (snapshot_authorization_guard current)) current ≡ false
unfolding guard_fails snapshot_authorization_guard is_complete_authorization_activation_guard
snapshot-guard_fails none = refl
snapshot-guard_fails (some c) = elim (Bool-cases (synthetic_authorization c)) [
  | inl synthetic ↦ synthetic-guard_fails c synthetic
  | inr stored ↦ stored-guard_fails c stored
]

module _ (l : Lifecycle) (identity : Hop1Identity) where
  activated-stale_in :
      (required_scopes : List String) (issued : IssuedCredentialGeneration) (a : Attestation)
      (custody : CredentialGenerationRecord) (s : TokenStore)
      → Reachable s
      → Backed (principal_key l identity) s
      → stale_in
          (activated_connection l identity required_scopes issued a custody.id
            (read_from l identity s))
          (connection_write_guard (read_from l identity s))
          s
        ≡ false
  unfolding activated_connection
  activated-stale_in required_scopes issued a custody s reached backed =
      read-stale_in l identity _ s s (Reachable-Consistent reached) backed refl refl refl

  activate-returns :
      (required_scopes : List String) (issued : IssuedCredentialGeneration) (a : Attestation)
      (custody : CredentialGenerationRecord) (current : Option ConnectionRecord) (s : TokenStore)
      → unexpected (lookup custody.id s.credential_generations) candidate 0 ≡ false
      → stale_in
          (activated_connection l identity required_scopes issued a custody.id current)
          (connection_write_guard current)
          s
        ≡ false
      → activate l identity required_scopes issued a custody current s ≡ (
        returned (rebinds a current),
        written
            (activated_connection l identity required_scopes issued a custody.id current)
            (with_generation (active_custody l identity a (generation_or_0 current + 1) custody) s),
      )
  unfolding activate active_custody update_credential_generation save_connection stale_in
  activate-returns required_scopes issued a custody current s waiting fresh =
      rw (waiting, fresh) refl

  -- An authorization that nothing came between succeeds: from any store that the operations can
  -- lead to, where the connection that is stored for the principal, if there is one, has something
  -- behind it (a generation, a credential, a local revocation or an account identity), no cleanup
  -- is unresolved and the custody of what was issued is a candidate that was never tried, the
  -- activation under the guard of what is stored returns, and the store is the one before with that
  -- custody active and the connection made of what was issued.
  pub activation_transaction-returned :
      (required_scopes : List String) (issued : IssuedCredentialGeneration) (a : Attestation)
      (custody : CredentialGenerationRecord) (s : TokenStore)
      → Reachable s
      → Backed (principal_key l identity) s
      → unresolved (read_from l identity s) ≡ false
      → any (blocks custody.id) (
          list_principal_credential_generations l.adapter.provider_id identity.issuer
            identity.subject s)
        ≡ false
      → unexpected (lookup custody.id s.credential_generations) candidate 0 ≡ false
      → activation_transaction l identity required_scopes issued a custody
          (some (snapshot_authorization_guard (read_from l identity s)))
          s
        ≡ (
          returned (rebinds a (read_from l identity s)),
          written
              (activated_connection l identity required_scopes issued a custody.id
                (read_from l identity s))
              (with_generation
                (active_custody l identity a (generation_or_0 (read_from l identity s) + 1) custody)
                s),
        )
  unfolding activation_transaction
  activation_transaction-returned required_scopes issued a custody s reached backed resolved clear_
        waiting =
      let current = read_from l identity s in
      rw (snapshot-guard_fails current, resolved, clear_)
        (activate-returns required_scopes issued a custody current s waiting
          (activated-stale_in required_scopes issued a custody s reached backed))
