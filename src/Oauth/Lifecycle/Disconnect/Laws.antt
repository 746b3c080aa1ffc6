-- ===== src/Oauth/Lifecycle/Disconnect/Laws.antt =====
-- What a disconnect leaves behind, whatever it returns.
use mcp_gw.Common.{
  String, Bool, true, false, Option, none, some, List, [], ◌∷◌, ◌≡◌, refl, ap, ◌∙◌, inl, inr,
  eq_refl, is_some, Bool-cases, not, ◌&&◌, truthy?,
}
use mathlib.Core.Path.{subst}
use mcp_gw.Common.Dict.{Dict, lookup, remove, lookup-remove, lookup-insert_self}
use mcp_gw.Oauth.Types.{ConnectionRecord, CredentialGenerationRecord, cleanup_pending}
use mcp_gw.Oauth.Guard.{connection_write_guard}
use mcp_gw.Oauth.Store.{TokenStore}
use mcp_gw.Oauth.Store.Connections.{stale_in, written, save_connection, clear_authorizing}
use mcp_gw.Oauth.Store.Cleanup.{save_credential_generation, list_principal_credential_generations}
use mcp_gw.Oauth.Store.Consistent.{Reachable, Backed, Reachable-Consistent}
use mcp_gw.Oauth.Store.Keyed.{
  connection_key, Keyed, Reachable-Keyed, get_connection-key, written-Keyed,
  save_credential_generation-Keyed,
}
use mcp_gw.Oauth.Retry.{returned}
use mcp_gw.Oauth.Lifecycle.{
  destroy_credentials, Tx, Lifecycle, Hop1Identity, connection_credential_custody_record,
}
use mcp_gw.Oauth.Lifecycle.Steps.{principal_key, read_from, read-stale_in, continue-pure}
use mcp_gw.Oauth.Lifecycle.Envelope.{decrypt_generation}
use mcp_gw.Oauth.Lifecycle.Disconnect.{
  to_revoke, tombstone, disabled_again, disabled, needs_revocation, save_and_hand_off, adopt,
  disable_current, disconnect_current, disconnect_transaction,
  handoff_principal_credential_generations,
}
use mcp_gw.Oauth.Lifecycle.Disconnect.Handoff.{
  NoneIsLive, handoff-SameButGenerations, handoff-NoneIsLive,
}

lookup-remove_self : {V : Type 0} (k : String) (m : Dict V) → lookup k (remove k m) ≡ none
lookup-remove_self k m = rw (lookup-remove k k m, eq_refl k) refl

module _ (l : Lifecycle) (identity : Hop1Identity) where
  abbrev Quiet : TokenStore → Type 0
  Quiet s = lookup (principal_key l identity) s.authorizations ≡ none

  -- The connection that is stored for the principal is disabled, no authorization is marked as
  -- running, and none of the principal's credentials is live.
  abbrev pub IsOff : TokenStore → Type 0
  IsOff s =
      ((c : ConnectionRecord) × (lookup (principal_key l identity) s.connections ≡ some c)
        × (is_some c.local_disabled_at ≡ true))
      × (Quiet s × NoneIsLive l.adapter.provider_id identity.issuer identity.subject s)

  handed-IsOff :
      (c : ConnectionRecord) (s : TokenStore)
      → connection_key c ≡ principal_key l identity
      → is_some c.local_disabled_at ≡ true
      → Keyed s
      → Quiet s
      → IsOff (handoff_principal_credential_generations l identity (written c s)).1
  unfolding handoff_principal_credential_generations written
  handed-IsOff c s same off keyed quiet =
      let provider = l.adapter.provider_id in
      let s' = written c s in
      let (k, (a, u)) =
        handoff-SameButGenerations l.now
          (list_principal_credential_generations provider identity.issuer identity.subject s') s' in
      (
        (
          c,
          ap (lookup (principal_key l identity)) k
              ∙ subst (λ x. lookup x s'.connections ≡ some c) same
                  (lookup-insert_self (connection_key c) c s.connections),
          off,
        ),
        (
          ap (lookup (principal_key l identity)) u ∙ quiet,
          handoff-NoneIsLive l.now provider identity.issuer identity.subject s'
              (written-Keyed c s keyed),
        ),
      )

  -- A save under a fresh guard is followed by the hand-off.
  save_and_hand_off-fresh :
      (c : ConnectionRecord) (current : Option ConnectionRecord) (s : TokenStore)
      → stale_in c (connection_write_guard current) s ≡ false
      → save_and_hand_off l identity c current s
        ≡ handoff_principal_credential_generations l identity (written c s)
  unfolding save_and_hand_off save_connection
  save_and_hand_off-fresh c current s fresh = rw fresh refl

  disabled-connection_key :
      (pending : Bool) (custody : Option String) (c : ConnectionRecord)
      → (connection_key (disabled l identity pending custody c) ≡ connection_key c)
        × (is_some (disabled l identity pending custody c).local_disabled_at ≡ true)
  unfolding disabled destroy_credentials
  disabled-connection_key true custody c = (refl, refl)
  disabled-connection_key false custody c = (refl, refl)

  -- An adoption returns, and leaves the connections and accounts as they were.
  abbrev Adopts :
      (String → Tx (Option String × List CredentialGenerationRecord)) → String → TokenStore → Type 0
  Adopts step id s =
      (custody : Option String) × (adopted : List CredentialGenerationRecord) × (t : TokenStore)
      × (step id s ≡ (returned (custody, adopted), t))
      × (t.connections ≡ s.connections)
      × (t.accounts ≡ s.accounts)
      × (t.authorizations ≡ s.authorizations)
      × Keyed t

  save_credential_generation-connections :
      (r : CredentialGenerationRecord) (s : TokenStore)
      → ((save_credential_generation r s).connections ≡ s.connections)
        × ((save_credential_generation r s).accounts ≡ s.accounts)
        × ((save_credential_generation r s).authorizations ≡ s.authorizations)
  unfolding save_credential_generation
  save_credential_generation-connections r s =
      elim (Bool-cases (is_some (lookup r.id s.credential_generations))) [
        | inl known ↦ rw known (refl, refl, refl)
        | inr new ↦ rw new (refl, refl, refl)
      ]

  adopt-Adopts :
      (pending : Bool) (c : ConnectionRecord) (id : String) (s : TokenStore)
      → Keyed s
      → Adopts (λ i. adopt l identity i pending c) id s
  unfolding adopt
  adopt-Adopts pending c id s keyed =
      let r = connection_credential_custody_record l id c cleanup_pending in
      let (k, a, u) = save_credential_generation-connections r s in
      elim (Bool-cases (pending && not (truthy? c.credential_generation_id))) [
        | inl yes_ ↦ (
          some id,
          r ∷ [],
          save_credential_generation r s,
          rw yes_ refl,
          k,
          a,
          u,
          save_credential_generation-Keyed r s keyed,
        )
        | inr no_ ↦ (c.credential_generation_id, [], s, rw no_ refl, refl, refl, refl, keyed)
      ]

  to_revoke-after :
      (pending : Bool) (c : ConnectionRecord) (custody : Option String)
      (detached : List CredentialGenerationRecord) (s : TokenStore)
      → (to_revoke l identity pending c custody detached s).1 ≡ s
  unfolding to_revoke
  to_revoke-after true c custody detached s = continue-pure _ (decrypt_generation l c) s
  to_revoke-after false c custody detached s = refl

  -- A store that the operations lead to, where the principal's connection has something behind it.
  abbrev Ready : TokenStore → Type 0
  Ready s = Reachable s × Backed (principal_key l identity) s

  disable_current-IsOff :
      (id : String) (c : ConnectionRecord) (s : TokenStore)
      → Ready s
      → read_from l identity s ≡ some c
      → (s' : TokenStore) → s'.connections ≡ s.connections
      → s'.accounts ≡ s.accounts
      → Keyed s'
      → Quiet s'
      → IsOff (disable_current l identity id c s').1
  unfolding disable_current handoff_principal_credential_generations
  disable_current-IsOff id c s reached h s' k' a' keyed' quiet =
      let pending = needs_revocation l identity c in
      let (custody, adopted, t, e, k, a, u, keyed) = adopt-Adopts pending c id s' keyed' in
      let next = disabled l identity pending custody c in
      let (same, off) = disabled-connection_key pending custody c in
      let mine =
        same
        ∙ get_connection-key l.now l.adapter.provider_id identity.issuer identity.subject s c
            (Reachable-Keyed reached.0) h in
      let fresh : stale_in next (connection_write_guard (some c)) t ≡ false = rw (h) at (
        read-stale_in l identity next s t (Reachable-Consistent reached.0) reached.1 mine (k ∙ k')
          (a ∙ a')) in
      let done =
        handed-IsOff next t mine off keyed (ap (lookup (principal_key l identity)) u ∙ quiet) in
      rw (e, save_and_hand_off-fresh next (some c) t fresh, to_revoke-after pending c custody _ _)
        done

  saved-IsOff :
      (c : ConnectionRecord) (current : Option ConnectionRecord) (s : TokenStore)
      → Ready s
      → read_from l identity s ≡ current
      → connection_key c ≡ principal_key l identity
      → is_some c.local_disabled_at ≡ true
      → IsOff
          (handoff_principal_credential_generations l identity (
            written c
              (clear_authorizing l.adapter.provider_id identity.issuer identity.subject s))).1
        × (stale_in c
              (connection_write_guard current)
              (clear_authorizing l.adapter.provider_id identity.issuer identity.subject s)
            ≡ false)
  unfolding clear_authorizing
  saved-IsOff c current s reached e mine off = (
    handed-IsOff c _ mine off (Reachable-Keyed reached.0)
        (lookup-remove_self (principal_key l identity) s.authorizations),
    subst
        (λ x.
          stale_in c (connection_write_guard x)
            (clear_authorizing l.adapter.provider_id identity.issuer identity.subject s)
          ≡ false)
        e
        (read-stale_in l identity c s
          (clear_authorizing l.adapter.provider_id identity.issuer identity.subject s)
          (Reachable-Consistent reached.0) reached.1 mine refl refl),
  )

  tombstone-connection_key :
      (required_scopes : List String)
      → (connection_key (tombstone l identity required_scopes) ≡ principal_key l identity)
        × (is_some (tombstone l identity required_scopes).local_disabled_at ≡ true)
  unfolding tombstone
  tombstone-connection_key required_scopes = (refl, refl)

  disabled_again-connection_key :
      (c : ConnectionRecord)
      → (connection_key (disabled_again l identity c) ≡ connection_key c)
        × ((disabled_again l identity c).local_disabled_at ≡ c.local_disabled_at)
  unfolding disabled_again
  disabled_again-connection_key c = (refl, refl)

  disconnect_current-IsOff :
      (id : String) (required_scopes : List String) (current : Option ConnectionRecord)
      (s : TokenStore)
      → Ready s
      → read_from l identity s ≡ current
      → IsOff
          (disconnect_current l identity id required_scopes current
            (clear_authorizing l.adapter.provider_id identity.issuer identity.subject s)).1
  unfolding handoff_principal_credential_generations clear_authorizing
  disconnect_current-IsOff id required_scopes none s reached e =
      let (mine, off) = tombstone-connection_key required_scopes in
      let (done, fresh) =
        saved-IsOff (tombstone l identity required_scopes) none s reached e mine off in
      rw (save_and_hand_off-fresh (tombstone l identity required_scopes) none _ fresh) done
  disconnect_current-IsOff id required_scopes (some c) s reached e =
      elim (Bool-cases (is_some c.local_disabled_at)) [
        | inl off ↦
            let again = disabled_again l identity c in
            let (same, at_) = disabled_again-connection_key c in
            let mine =
              same
              ∙ get_connection-key l.now l.adapter.provider_id identity.issuer identity.subject s c
                  (Reachable-Keyed reached.0) e in
            let (done, fresh) =
              saved-IsOff again (some c) s reached e mine (ap is_some at_ ∙ off) in
            rw (off, save_and_hand_off-fresh again (some c) _ fresh) done
        | inr on ↦ rw on (
            disable_current-IsOff id c s reached e _ refl refl (Reachable-Keyed reached.0)
              (lookup-remove_self (principal_key l identity) s.authorizations))
      ]

  -- What a principal has after a disconnect, from any store that the operations can lead to where
  -- the connection that is stored for it, if there is one, has something behind it (a generation, a
  -- credential, a local revocation or an account identity), and whatever the disconnect returns (a
  -- credential that cannot be opened included): the connection that is stored for it is disabled,
  -- no credential that belongs to it is active or a candidate, and no authorization is marked as
  -- running.
  pub disconnect_transaction-IsOff :
      (id : String) (required_scopes : List String) (s : TokenStore)
      → Reachable s
      → Backed (principal_key l identity) s
      → IsOff (disconnect_transaction l identity id required_scopes s).1
  unfolding disconnect_transaction
  disconnect_transaction-IsOff id required_scopes s reached backed =
      disconnect_current-IsOff id required_scopes (read_from l identity s) s (reached, backed) refl
