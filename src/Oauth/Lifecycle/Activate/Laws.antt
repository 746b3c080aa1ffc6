-- ===== src/Oauth/Lifecycle/Activate/Laws.antt =====
-- An authorization that the user finishes: it becomes the connection once, and not after a
-- disconnect.
use mcp_gw.Common.{
  ℕ, ◌+◌, String, Bool, true, false, Option, none, some, is_some, List, ◌≡◌, refl, sym, ap, ◌∙◌,
  inl, inr, arith, Bool-cases,
}
use mcp_gw.Common.Dict.{lookup, lookup-insert_self}
use mcp_gw.Common.Lists.{any}
use mcp_gw.Oauth.Types.{
  ConnectionRecord, CredentialGenerationRecord, candidate, generation_conflict, OauthAccountRecord,
}
use mcp_gw.Oauth.Guard.{connection_write_guard}
use mcp_gw.Oauth.Store.{TokenStore, Authorization}
use mcp_gw.Oauth.Store.Connections.{
  read_connection, get_connection, usable, live, laid_over, written,
}
use mcp_gw.Oauth.Store.Cleanup.{
  state_eq, unexpected, update_credential_generation, list_principal_credential_generations,
}
use mcp_gw.Oauth.Store.Consistent.{Reachable, Backed}
use mcp_gw.Oauth.Retry.{returned, thrown}
use mcp_gw.Oauth.Scopes.{AuthorizationActivationGuard}
use mcp_gw.Oauth.Lifecycle.{Lifecycle, Hop1Identity, save_or_conflict, update_or_conflict}
use mcp_gw.Oauth.Lifecycle.Steps.{
  >>=-returned, raise_if-returned, save_or_conflict-returned, update_or_conflict-returned,
  with_generation, principal_key, read_from,
}
use mcp_gw.Oauth.Lifecycle.Disconnect.{disconnect_transaction}
use mcp_gw.Oauth.Lifecycle.Disconnect.Laws.{disconnect_transaction-IsOff}
use mcp_gw.Oauth.Lifecycle.Activate.{
  IssuedCredentialGeneration, Attestation, guard_fails, generation_or_0, is_disabled, unresolved,
  blocks, active_custody, activated_connection, activate, activation_transaction,
}

-- A connection that is disabled is read as one, whatever authorization runs over it.
pub read_connection-is_disabled :
    (now : ℕ) (provider issuer subject : String) (c : ConnectionRecord)
    (legacy : Option OauthAccountRecord) (authorization : Option Authorization)
    → is_some c.local_disabled_at ≡ true
    → is_disabled (read_connection now provider issuer subject (some c) legacy authorization) ≡ true
unfolding read_connection usable laid_over live
read_connection-is_disabled now provider issuer subject c legacy none off = ground arith
read_connection-is_disabled now provider issuer subject c legacy (some a) off = ground arith

disabled-guard_fails :
    (guard : AuthorizationActivationGuard) (current : Option ConnectionRecord)
    → guard.locally_disabled ≡ some false
    → is_disabled current ≡ true
    → guard_fails (some guard) current ≡ true
unfolding guard_fails
disabled-guard_fails guard current started off = rw (started, off) (ground arith)

module _ (l : Lifecycle) (identity : Hop1Identity) where
  guarded-generation_conflict :
      (required_scopes : List String) (issued : IssuedCredentialGeneration) (a : Attestation)
      (custody : CredentialGenerationRecord) (guard : Option AuthorizationActivationGuard)
      (s : TokenStore)
      → guard_fails guard (read_from l identity s) ≡ true
      → activation_transaction l identity required_scopes issued a custody guard s
        ≡ (thrown (some generation_conflict), s)
  unfolding activation_transaction
  guarded-generation_conflict required_scopes issued a custody guard s fails = rw fails refl

-- A disconnect ends the authorizations that are under way: in any store that the operations can
-- lead to, where the connection that is stored for the principal before it, if there is one, has
-- something behind it (a generation, a credential, a local revocation or an account identity), and
-- the guard of an authorization says that the connection was not disabled when it was started, then
-- after a disconnect of the principal, at any later time and whatever was issued, its activation is
-- refused and changes nothing.
pub disconnect_transaction-activation_transaction :
    (l : Lifecycle) (identity : Hop1Identity) (later : ℕ) (id : String)
    (required_scopes required_scopes' : List String) (issued : IssuedCredentialGeneration)
    (a : Attestation) (custody : CredentialGenerationRecord) (guard : AuthorizationActivationGuard)
    (s : TokenStore)
    → Reachable s
    → Backed (principal_key l identity) s
    → guard.locally_disabled ≡ some false
    → activation_transaction
        (record l { now = later })
        identity
        required_scopes'
        issued
        a
        custody
        (some guard)
        (disconnect_transaction l identity id required_scopes s).1
      ≡ (
        thrown (some generation_conflict),
        (disconnect_transaction l identity id required_scopes s).1,
      )
unfolding get_connection
disconnect_transaction-activation_transaction l identity later id required_scopes required_scopes'
      issued a custody guard s reached backed started =
    let t = (disconnect_transaction l identity id required_scopes s).1 in
    let key = principal_key l identity in
    let ((c, held, off), rest) =
      disconnect_transaction-IsOff l identity id required_scopes s reached backed in
    let disabled : is_disabled (read_from (record l { now = later }) identity t) ≡ true = rw held (
      read_connection-is_disabled later l.adapter.provider_id identity.issuer identity.subject c
        (lookup key t.accounts) (lookup key t.authorizations) off) in
    guarded-generation_conflict (record l { now = later }) identity required_scopes' issued a
      custody (some guard) t (disabled-guard_fails guard _ started disabled)

-- What an activation that succeeds did to the store.
module _ (l : Lifecycle) (identity : Hop1Identity) where
  module _ (required_scopes : List String) (issued : IssuedCredentialGeneration) (a : Attestation)
      (custody : CredentialGenerationRecord) where
    abbrev next_connection : Option ConnectionRecord → ConnectionRecord
    next_connection current =
        activated_connection l identity required_scopes issued a custody.id current

    abbrev next_custody : Option ConnectionRecord → CredentialGenerationRecord
    next_custody current = active_custody l identity a (generation_or_0 current + 1) custody

    activate-returned :
        (current : Option ConnectionRecord) (s t : TokenStore) (b : Bool)
        → activate l identity required_scopes issued a custody current s ≡ (returned b, t)
        → t ≡ written (next_connection current) (with_generation (next_custody current) s)
    unfolding activate active_custody
    activate-returned current s t b h =
        let (u, s1, first, k) =
          >>=-returned (update_or_conflict (next_custody current) candidate 0) _ s t h in
        let (v, s2, second, k') =
          >>=-returned (save_or_conflict (next_connection current) (connection_write_guard current))
            _ s1 t k in
        let (yes_, e1) =
          update_or_conflict-returned (next_custody current) candidate 0 s s1 first in
        let e2 =
          save_or_conflict-returned (next_connection current) (connection_write_guard current) s1 s2
            second in
        sym (ap (λ p. p.1) k') ∙ e2 ∙ ap (written (next_connection current)) e1

    activation_transaction-written :
        (guard : Option AuthorizationActivationGuard) (s t : TokenStore) (b : Bool)
        → activation_transaction l identity required_scopes issued a custody guard s
          ≡ (returned b, t)
        → t
          ≡ written
              (next_connection (read_from l identity s))
              (with_generation (next_custody (read_from l identity s)) s)
    unfolding activation_transaction
    activation_transaction-written guard s t b h =
        let current = read_from l identity s in
        let kept =
          list_principal_credential_generations l.adapter.provider_id identity.issuer
            identity.subject s in
        let (f1, h1) = raise_if-returned (guard_fails guard current) generation_conflict _ s t h in
        let (f2, h2) = raise_if-returned (unresolved current) generation_conflict _ s t h1 in
        let (f3, h3) =
          raise_if-returned (any (blocks custody.id) kept) generation_conflict _ s t h2 in
        activate-returned current s t b h3

    -- An activation that succeeds leaves, for the principal, the connection made of what was issued,
    -- and the custody of its credential active.
    activation_transaction-lookup :
        (guard : Option AuthorizationActivationGuard) (s t : TokenStore) (b : Bool)
        → activation_transaction l identity required_scopes issued a custody guard s
          ≡ (returned b, t)
        → (lookup (principal_key l identity) t.connections
            ≡ some (next_connection (read_from l identity s)))
          × (lookup custody.id t.credential_generations
              ≡ some (next_custody (read_from l identity s)))
    unfolding written activated_connection active_custody
    activation_transaction-lookup guard s t b h =
        let current = read_from l identity s in
        let c = next_connection current in
        let r = next_custody current in
        rw (activation_transaction-written guard s t b h) (
          lookup-insert_self (principal_key l identity) c s.connections,
          lookup-insert_self custody.id r s.credential_generations,
        )

  active-unexpected :
      (a : Attestation) (generation : ℕ) (custody : CredentialGenerationRecord)
      → unexpected (some (active_custody l identity a generation custody)) candidate 0 ≡ true
  unfolding unexpected active_custody state_eq
  active-unexpected a generation custody = refl

  refused_activate :
      (required_scopes : List String) (issued : IssuedCredentialGeneration) (a : Attestation)
      (custody : CredentialGenerationRecord) (current : Option ConnectionRecord) (s : TokenStore)
      → unexpected (lookup custody.id s.credential_generations) candidate 0 ≡ true
      → activate l identity required_scopes issued a custody current s
        ≡ (thrown (some generation_conflict), s)
  unfolding activate active_custody update_credential_generation
  refused_activate required_scopes issued a custody current s no_ = rw no_ refl

  refused_activation_transaction :
      (required_scopes : List String) (issued : IssuedCredentialGeneration) (a : Attestation)
      (custody : CredentialGenerationRecord) (guard : Option AuthorizationActivationGuard)
      (s : TokenStore)
      → unexpected (lookup custody.id s.credential_generations) candidate 0 ≡ true
      → activation_transaction l identity required_scopes issued a custody guard s
        ≡ (thrown (some generation_conflict), s)
  unfolding activation_transaction
  refused_activation_transaction required_scopes issued a custody guard s no_ =
      let current = read_from l identity s in
      let kept =
        list_principal_credential_generations l.adapter.provider_id identity.issuer identity.subject
          s in
      elim (Bool-cases (guard_fails guard current)) [
        | inl f ↦ rw f refl
        | inr f ↦ elim (Bool-cases (unresolved current)) [
          | inl g ↦ rw (f, g) refl
          | inr g ↦ elim (Bool-cases (any (blocks custody.id) kept)) [
            | inl k ↦ rw (f, g, k) refl
            | inr k ↦ rw (f, g, k) (refused_activate required_scopes issued a custody current s no_)
          ]
        ]
      ]

  -- A credential that was issued is activated once: after an activation that succeeded the connection
  -- of the principal is the one made of what was issued, and every other activation of the same
  -- credential, under any guard and with whatever is said to have been issued, is refused and changes
  -- nothing.
  pub activation_transaction_once :
      (required_scopes required_scopes' : List String) (issued issued' : IssuedCredentialGeneration)
      (a a' : Attestation) (custody custody' : CredentialGenerationRecord)
      (guard guard' : Option AuthorizationActivationGuard) (s t : TokenStore) (b : Bool)
      → activation_transaction l identity required_scopes issued a custody guard s ≡ (returned b, t)
      → custody'.id ≡ custody.id
      → (lookup (principal_key l identity) t.connections
          ≡ some (
              activated_connection l identity required_scopes issued a custody.id
                (read_from l identity s)))
        × (activation_transaction l identity required_scopes' issued' a' custody' guard' t
            ≡ (thrown (some generation_conflict), t))
  activation_transaction_once required_scopes required_scopes' issued issued' a a' custody custody'
        guard guard' s t b h same =
      let (held, active_) =
        activation_transaction-lookup required_scopes issued a custody guard s t b h in
      (
        held,
        refused_activation_transaction required_scopes' issued' a' custody' guard' t
            (rw (same, active_) (active-unexpected a _ custody)),
      )
