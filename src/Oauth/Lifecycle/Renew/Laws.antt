-- ===== src/Oauth/Lifecycle/Renew/Laws.antt =====
-- A renewal that is committed: one of those that were prepared for the same generation, and none
-- after a disconnect.
use mcp_gw.Common.{
  ℕ, ◌+◌, String, Bool, true, false, not, ◌||◌, Option, none, some, is_some, List, ◌≡◌, refl, sym,
  ap, ◌∙◌, ◌⊎◌, inl, inr, arith, Bool-cases, if◌then◌else◌, nat_eq,
}
use mcp_gw.Common.Dict.{lookup, lookup-insert_self}
use mcp_gw.Oauth.Types.{
  ConnectionRecord, CredentialGenerationRecord, candidate, generation_conflict, OauthAccountRecord,
}
use mcp_gw.Oauth.Guard.{connection_write_guard}
use mcp_gw.Oauth.Store.{TokenStore, Authorization}
use mcp_gw.Oauth.Store.Connections.{read_connection, get_connection, usable, written}
use mcp_gw.Oauth.Store.Consistent.{Reachable, Backed}
use mcp_gw.Oauth.Store.Keyed.{connection_key, Reachable-Keyed, get_connection-key}
use mcp_gw.Oauth.Retry.{Outcome, returned, thrown}
use mcp_gw.Oauth.Lifecycle.{Lifecycle, Hop1Identity, Tx, save_or_conflict, update_or_conflict}
use mcp_gw.Oauth.Lifecycle.Steps.{
  >>=-returned, save_or_conflict-returned, update_or_conflict-returned, principal_key, read_from,
}
use mcp_gw.Oauth.Lifecycle.Activate.{is_disabled}
use mcp_gw.Oauth.Lifecycle.Activate.Laws.{read_connection-is_disabled}
use mcp_gw.Oauth.Lifecycle.Disconnect.{disconnect_transaction}
use mcp_gw.Oauth.Lifecycle.Disconnect.Laws.{disconnect_transaction-IsOff}
use mcp_gw.Oauth.Lifecycle.Renew.{RenewalResult, refreshed, already_fresh, RenewalCandidate}
use mcp_gw.Oauth.Lifecycle.Renew.Commit.{
  superseded, retire, renewed_custody_active, renewed_connection, commit_renewal, commit_found,
  activate_renewed_generation,
}

-- The renewal is not committed, and the store is as it was.
abbrev pub IsHeldBack : Outcome (RenewalResult × Bool) × TokenStore → TokenStore → Type 0
IsHeldBack done s =
    ((done.0 ≡ returned (already_fresh, false)) ⊎ (done.0 ≡ thrown (some generation_conflict)))
    × (done.1 ≡ s)

module _ (l : Lifecycle) (identity : Hop1Identity) where
  disabled-IsHeldBack :
      (p : RenewalCandidate) (current : Option ConnectionRecord) (s : TokenStore)
      → is_disabled current ≡ true
      → IsHeldBack (commit_found l identity p current s) s
  disabled-IsHeldBack p none s off = (inl refl, refl)
  disabled-IsHeldBack p (some c) s off =
      elim (Bool-cases (nat_eq c.generation p.current.generation)) [
        | inl same ↦ rw (same, off) (inr refl, refl)
        | inr other ↦ rw other (inl refl, refl)
      ]

-- A disconnect ends the renewals that are under way: in any store that the operations can lead to,
-- where the connection that is stored for the principal before it, if there is one, has something
-- behind it (a generation, a credential, a local revocation or an account identity), then whatever
-- was prepared and whenever it is committed, after a disconnect of the principal it is not, and the
-- store is as it was.
pub disconnect_transaction-activate_renewed_generation :
    (l : Lifecycle) (identity : Hop1Identity) (later : ℕ) (id : String)
    (required_scopes : List String) (p : RenewalCandidate) (s : TokenStore)
    → Reachable s
    → Backed (principal_key l identity) s
    → IsHeldBack
        (activate_renewed_generation
          (record l { now = later })
          identity
          p
          (disconnect_transaction l identity id required_scopes s).1)
        (disconnect_transaction l identity id required_scopes s).1
unfolding get_connection activate_renewed_generation
disconnect_transaction-activate_renewed_generation l identity later id required_scopes p s reached
      backed =
    let t = (disconnect_transaction l identity id required_scopes s).1 in
    let key = principal_key l identity in
    let ((c, held, off), rest) =
      disconnect_transaction-IsOff l identity id required_scopes s reached backed in
    let disabled : is_disabled (read_from (record l { now = later }) identity t) ≡ true = rw held (
      read_connection-is_disabled later l.adapter.provider_id identity.issuer identity.subject c
        (lookup key t.accounts) (lookup key t.authorizations) off) in
    disabled-IsHeldBack (record l { now = later }) identity p
      (read_from (record l { now = later }) identity t) t disabled

abbrev skipped : Tx (RenewalResult × Bool)
skipped s = (returned (already_fresh, false), s)

abbrev conflicted : Tx (RenewalResult × Bool)
conflicted s = (thrown (some generation_conflict), s)

module _ (l : Lifecycle) (identity : Hop1Identity) where
  retire-connections :
      (r : Option CredentialGenerationRecord) (s t : TokenStore)
      → retire l identity r s ≡ (returned tt, t)
      → t.connections ≡ s.connections
  retire-connections none s t h = ap (λ p. p.1.connections) (sym h)
  retire-connections (some r) s t h =
      let (yes_, e) = update_or_conflict-returned _ _ r.cleanup_attempts s t h in
      ap (λ (x : TokenStore). x.connections) e

  -- A renewal that is committed is the connection afterwards.
  commit_renewal-lookup :
      (p : RenewalCandidate) (c : ConnectionRecord) (s t : TokenStore) (out : RenewalResult × Bool)
      → commit_renewal l identity p c s ≡ (returned out, t)
      → lookup (connection_key c) t.connections ≡ some (renewed_connection l identity p c)
  unfolding commit_renewal written renewed_connection
  commit_renewal-lookup p c s t out h =
      let next = renewed_connection l identity p c in
      let (before, s1, e1, h1) = >>=-returned (superseded l identity p.custody.id c) _ s t h in
      let (u, s2, e2, h2) =
        >>=-returned (update_or_conflict (renewed_custody_active l identity p) candidate 0) _ s1 t
          h1 in
      let (v, s3, e3, h3) =
        >>=-returned (save_or_conflict next (connection_write_guard (some p.current))) _ s2 t h2 in
      let (w, s4, e4, h4) = >>=-returned (retire l identity before) _ s3 t h3 in
      let saved =
        save_or_conflict-returned next (connection_write_guard (some p.current)) s2 s3 e3 in
      let same : t.connections ≡ (written next s2).connections =
        ap (λ p. p.1.connections) (sym h4)
        ∙ retire-connections before s3 s4 e4
        ∙ ap (λ (x : TokenStore). x.connections) saved in
      ap (lookup (connection_key c)) same
      ∙ lookup-insert_self (connection_key c) next s2.connections

  already-ne-refreshed :
      {P : Type 0} {s t : TokenStore} {b : Bool} → skipped s ≡ (returned (refreshed, b), t) → P
  already-ne-refreshed h = let k = ap (λ p. p.0) h in cc

  conflict-ne-refreshed :
      {P : Type 0} {s t : TokenStore} {b : Bool} → conflicted s ≡ (returned (refreshed, b), t) → P
  conflict-ne-refreshed h = let k = ap (λ p. p.0) h in cc

  -- Past the two tests
  committed :
      (same stale : Bool) (commit : Tx (RenewalResult × Bool)) (s t : TokenStore) (b : Bool)
      → (if not same then skipped else if stale then conflicted else commit) s
        ≡ (returned (refreshed, b), t)
      → (same ≡ true) × (stale ≡ false) × (commit s ≡ (returned (refreshed, b), t))
  committed false stale commit s t b h = already-ne-refreshed h
  committed true true commit s t b h = conflict-ne-refreshed h
  committed true false commit s t b h = (refl, refl, h)

  commit_found-refreshed :
      (p : RenewalCandidate) (current : Option ConnectionRecord) (s t : TokenStore) (b : Bool)
      → commit_found l identity p current s ≡ (returned (refreshed, b), t)
      → (c : ConnectionRecord) × (current ≡ some c)
        × (nat_eq c.generation p.current.generation ≡ true)
        × (is_some c.local_disabled_at ≡ false)
        × (commit_renewal l identity p c s ≡ (returned (refreshed, b), t))
  commit_found-refreshed p none s t b h = already-ne-refreshed h
  commit_found-refreshed p (some c) s t b h =
      let (same, fresh, done) =
        committed (nat_eq c.generation p.current.generation)
          (is_some c.local_disabled_at || not (nat_eq c.updated_at p.current.updated_at))
          (commit_renewal l identity p c) s t b h in
      (c, refl, same, ground arith, done)

  renewed-generation :
      (p : RenewalCandidate) (c : ConnectionRecord)
      → nat_eq c.generation p.current.generation ≡ true
      → (renewed_connection l identity p c).generation ≡ p.current.generation + 1
  unfolding renewed_connection
  renewed-generation p c same = ground arith

  -- A connection that is in use is read as it is stored.
  renewed-read :
      (p : RenewalCandidate) (c : ConnectionRecord) (legacy : Option OauthAccountRecord)
      (authorization : Option Authorization)
      → is_some c.local_disabled_at ≡ false
      → read_connection l.now l.adapter.provider_id identity.issuer identity.subject
          (some (renewed_connection l identity p c))
          legacy
          authorization
        ≡ some (renewed_connection l identity p c)
  unfolding read_connection usable renewed_connection
  renewed-read p c legacy authorization on = rw on refl

  later-IsHeldBack :
      (p q : RenewalCandidate) (c : ConnectionRecord) (t : TokenStore)
      → nat_eq c.generation p.current.generation ≡ true
      → q.current.generation ≡ p.current.generation
      → commit_found l identity q (some (renewed_connection l identity p c)) t
        ≡ (returned (already_fresh, false), t)
  unfolding renewed_connection
  later-IsHeldBack p q c t same of_same =
      let other : nat_eq (c.generation + 1) q.current.generation ≡ false = ground arith in
      rw other refl

  -- Of the renewals that were prepared for one generation of a connection one is committed: after it
  -- the connection is the renewed one, of the next generation, and each of the others is told that
  -- it is fresh already, and changes nothing.
  pub activate_renewed_generation_once :
      (p q : RenewalCandidate) (s t : TokenStore) (b : Bool)
      → Reachable s
      → activate_renewed_generation l identity p s ≡ (returned (refreshed, b), t)
      → q.current.generation ≡ p.current.generation
      → ((c : ConnectionRecord) × (read_from l identity s ≡ some c)
          × (lookup (principal_key l identity) t.connections
              ≡ some (renewed_connection l identity p c))
          × ((renewed_connection l identity p c).generation ≡ p.current.generation + 1))
        × (activate_renewed_generation l identity q t ≡ (returned (already_fresh, false), t))
  unfolding activate_renewed_generation get_connection
  activate_renewed_generation_once p q s t b reached h of_same =
      let key = principal_key l identity in
      let (c, e, same, on, done) = commit_found-refreshed p (read_from l identity s) s t b h in
      let mine =
        get_connection-key l.now l.adapter.provider_id identity.issuer identity.subject s c
          (Reachable-Keyed reached) e in
      let held : lookup key t.connections ≡ some (renewed_connection l identity p c) =
        ap (λ k. lookup k t.connections) (sym mine) ∙ commit_renewal-lookup p c s t _ done in
      (
        (c, e, held, renewed-generation p c same),
        rw (held, renewed-read p c (lookup key t.accounts) (lookup key t.authorizations) on)
            (later-IsHeldBack p q c t same of_same),
      )
