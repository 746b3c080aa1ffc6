-- ===== src/Oauth/Lifecycle/Steps.antt =====
-- What the steps of a transaction do to the store, whatever they return.
use mcp_gw.Common.{
  ℕ, String, Bool, true, false, Option, some, ◌≡◌, refl, sym, ap, inl, inr, Bool-cases,
}
use mcp_gw.Common.Dict.{lookup, insert}
use mcp_gw.Oauth.Guard.{connection_write_guard}
use mcp_gw.Oauth.Store.{account_key}
use mcp_gw.Oauth.Store.Cleanup.{unexpected, update_credential_generation}
use mcp_gw.Oauth.Store.Consistent.{Consistent, Backed}
use mcp_gw.Oauth.Store.Keyed.{connection_key}
use mcp_gw.Oauth.Store.Writes.{read-fresh}
use mcp_gw.Oauth.Lifecycle.{Lifecycle, Hop1Identity}
use mcp_gw.Oauth.Types.{
  generation_conflict, CredentialGenerationRecord, CredentialGenerationState,
  LifecycleErrorCategory, ConnectionRecord, ConnectionWriteGuard,
}
use mcp_gw.Oauth.Store.{TokenStore}
use mcp_gw.Oauth.Store.Connections.{written, stale_in, save_connection, get_connection}
use mcp_gw.Oauth.Retry.{Outcome, returned, thrown}
use mcp_gw.Oauth.Lifecycle.{
  Tx, ◌>>=◌, ◌>>◌, continue, pure, raise_if, save_or_conflict, update_or_conflict,
}

-- A last step that only makes the value leaves the store as it is.
pub continue-pure :
    {A B : Type 0} (f : A → B) (o : Outcome A) (s : TokenStore)
    → (continue (λ a. pure (f a)) o s).1 ≡ s
continue-pure f (returned a) s = refl
continue-pure f (thrown e) s = refl

abbrev failed : {A : Type 0} → Option LifecycleErrorCategory → TokenStore → Outcome A × TokenStore
failed e s = (thrown e, s)

thrown-ne-returned :
    {A P : Type 0} {e : Option LifecycleErrorCategory} {a : A} {s t : TokenStore}
    → failed e s ≡ (returned a, t)
    → P
thrown-ne-returned h = let k = ap (λ p. p.0) h in cc

continued :
    {A B : Type 0} (out : Outcome A × TokenStore) (next : A → Tx B) (t : TokenStore) {b : B}
    {o : Outcome A × TokenStore}
    → o ≡ out
    → continue next out.0 out.1 ≡ (returned b, t)
    → (a : A) × (s' : TokenStore) × (o ≡ (returned a, s')) × (next a s' ≡ (returned b, t))
continued (returned a, s') next t e h = (a, s', e, h)
continued (thrown c, s') next t e h = thrown-ne-returned h

-- A transaction returns only if its first step does.
pub >>=-returned :
    {A B : Type 0} (step : Tx A) (next : A → Tx B) (s t : TokenStore) {b : B}
    → (step >>= next) s ≡ (returned b, t)
    → (a : A) × (s' : TokenStore) × (step s ≡ (returned a, s')) × (next a s' ≡ (returned b, t))
>>=-returned step next s t h = continued (step s) next t refl h

-- Past a test that would have thrown, the store is as it was.
pub raise_if-returned :
    {A : Type 0} (test : Bool) (e : LifecycleErrorCategory) (next : Tx A) (s t : TokenStore) {a : A}
    → (raise_if test e >> next) s ≡ (returned a, t)
    → (test ≡ false) × (next s ≡ (returned a, t))
raise_if-returned true e next s t h = thrown-ne-returned h
raise_if-returned false e next s t h = (refl, h)

abbrev refused : TokenStore → Outcome (Unit {0}) × TokenStore
refused s = (thrown (some generation_conflict), s)

abbrev accepted : TokenStore → Outcome (Unit {0}) × TokenStore
accepted s = (returned tt, s)

pub save_or_conflict-returned :
    (c : ConnectionRecord) (guard : ConnectionWriteGuard) (s t : TokenStore)
    → save_or_conflict c guard s ≡ (returned tt, t)
    → t ≡ written c s
unfolding save_connection
save_or_conflict-returned c guard s t h = elim (Bool-cases (stale_in c guard s)) [
  | inl stale ↦ let k : refused s ≡ (returned tt, t) = rw stale at h in thrown-ne-returned k
  | inr fresh ↦
      let k : accepted (written c s) ≡ (returned tt, t) = rw fresh at h in sym (ap (λ p. p.1) k)
]

abbrev pub with_generation : CredentialGenerationRecord → TokenStore → TokenStore
with_generation r s = record s { credential_generations = insert r.id r s.credential_generations }

pub update_or_conflict-returned :
    (r : CredentialGenerationRecord) (expected : CredentialGenerationState) (attempts : ℕ)
    (s t : TokenStore)
    → update_or_conflict r expected attempts s ≡ (returned tt, t)
    → (unexpected (lookup r.id s.credential_generations) expected attempts ≡ false)
      × (t ≡ with_generation r s)
unfolding update_credential_generation
update_or_conflict-returned r expected attempts s t h =
    elim (Bool-cases (unexpected (lookup r.id s.credential_generations) expected attempts)) [
      | inl no_ ↦ let k : refused s ≡ (returned tt, t) = rw no_ at h in thrown-ne-returned k
      | inr yes_ ↦
          let k : accepted (with_generation r s) ≡ (returned tt, t) = rw yes_ at h in
          (yes_, sym (ap (λ p. p.1) k))
    ]

pub save_or_conflict-credential_generations :
    (c : ConnectionRecord) (guard : ConnectionWriteGuard) (s : TokenStore)
    → (save_or_conflict c guard s).1.credential_generations ≡ s.credential_generations
unfolding save_connection written
save_or_conflict-credential_generations c guard s = elim (Bool-cases (stale_in c guard s)) [
  | inl stale ↦ rw stale refl
  | inr fresh ↦ rw fresh refl
]

module _ (l : Lifecycle) (identity : Hop1Identity) where
  abbrev pub principal_key : String
  principal_key = account_key l.adapter.provider_id identity.issuer identity.subject

  abbrev pub read_from : TokenStore → Option ConnectionRecord
  read_from = get_connection l.now l.adapter.provider_id identity.issuer identity.subject

  -- A guard that was read is fresh where the connections and accounts are the same.
  pub read-stale_in :
      (c : ConnectionRecord) (s t : TokenStore)
      → Consistent s
      → Backed principal_key s
      → connection_key c ≡ principal_key
      → t.connections ≡ s.connections
      → t.accounts ≡ s.accounts
      → stale_in c (connection_write_guard (read_from s)) t ≡ false
  unfolding stale_in get_connection
  read-stale_in c s t ok_ backed same e f =
      rw
        (
          same,
          e,
          f,
          read-fresh l.now l.adapter.provider_id identity.issuer identity.subject
              (ok_ principal_key) backed (lookup principal_key s.authorizations),
        )
        refl
