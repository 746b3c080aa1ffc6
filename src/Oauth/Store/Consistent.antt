-- ===== src/Oauth/Store/Consistent.antt =====
-- The accounts and the connections of the token store describe the same thing: what the guard of a
-- write compares is read from the connection and checked against the account.
use mcp_gw.Common.{
  ℕ, String, Option, none, some, ◌==◌, ◌≡◌, refl, sym, is_some, false, inl, inr, eq_iff, List,
  Bool-cases,
}
use mcp_gw.Common.Dict.{Dict, lookup, insert, lookup-insert}
use mcp_gw.Oauth.Types.{
  ConnectionRecord, OauthAccountRecord, ConnectionWriteGuard, CredentialGenerationRecord,
  CredentialGenerationState, PendingCredentialCleanupRecord,
}
use mcp_gw.Oauth.Guard.{is_bare}
use mcp_gw.Oauth.Store.{
  TokenStore, empty_store, account_key, update_found, keep_identity, save_account, mark_revoked,
  revoke_found, sync_connection, revoke_connection,
}
use mcp_gw.Oauth.Store.Connections.{
  account_of, written, stale_in, save_connection, mark_authorizing, clear_authorizing,
}
use mcp_gw.Oauth.Store.Cleanup.{
  save_pending_credential_cleanup, delete_pending_credential_cleanup, save_credential_generation,
  update_credential_generation, unexpected,
}

-- A connection has an account, of the same times.
pub data Agrees : Option ConnectionRecord → Option OauthAccountRecord → Type 0 where
  unlinked : {a : Option OauthAccountRecord} → Agrees none a
  linked :
      {c : ConnectionRecord} {a : OauthAccountRecord}
      → a.updated_at ≡ c.updated_at
      → a.revoked_at ≡ c.local_disabled_at
      → Agrees (some c) (some a)

abbrev pub Consistent : TokenStore → Type 0
Consistent store =
    (key : String) → Agrees (lookup key store.connections) (lookup key store.accounts)

-- The connection that is stored for the principal is told from a running authorization with nothing
-- behind it.
abbrev pub Backed : String → TokenStore → Type 0
Backed key store =
    (c : ConnectionRecord) → lookup key store.connections ≡ some c → is_bare c ≡ false

-- The operations that change the store, one after another
pub data Step : TokenStore → TokenStore → Type 0 where
  saved_account : (a : OauthAccountRecord) (s : TokenStore) → Step s (save_account a s)
  revoked_account :
      (issuer subject : String) (at_ : ℕ) (provider : String) (s : TokenStore)
      → Step s (mark_revoked issuer subject at_ provider s)
  saved_connection :
      (c : ConnectionRecord) (guard : ConnectionWriteGuard) (s : TokenStore)
      → Step s (save_connection c guard s).1
  marked :
      (now : ℕ) (provider issuer subject : String) (scopes : List String) (expires_at : ℕ)
      (s : TokenStore)
      → Step s (mark_authorizing now provider issuer subject scopes expires_at s)
  cleared :
      (provider issuer subject : String) (s : TokenStore)
      → Step s (clear_authorizing provider issuer subject s)
  queued :
      (r : PendingCredentialCleanupRecord) (s : TokenStore)
      → Step s (save_pending_credential_cleanup r s)
  unqueued : (id : String) (s : TokenStore) → Step s (delete_pending_credential_cleanup id s)
  generated :
      (r : CredentialGenerationRecord) (s : TokenStore) → Step s (save_credential_generation r s)
  moved :
      (r : CredentialGenerationRecord) (expected : CredentialGenerationState) (attempts : ℕ)
      (s : TokenStore)
      → Step s (update_credential_generation r expected attempts s).1

pub data Reachable : TokenStore → Type 0 where
  start : Reachable empty_store
  next : {s t : TokenStore} → Reachable s → Step s t → Reachable t

-- What an account and a changed connection agree on, they agree on in the maps.
Agrees-insert :
    (connections : Dict ConnectionRecord) (accounts : Dict OauthAccountRecord) (key : String)
    (a : OauthAccountRecord) (c : Option ConnectionRecord) (f : ConnectionRecord → ConnectionRecord)
    → ((j : String) → Agrees (lookup j connections) (lookup j accounts))
    → lookup key connections ≡ c
    → (f_agrees : (d : ConnectionRecord) → c ≡ some d → Agrees (some (f d)) (some a)) → (j : String)
    → Agrees (lookup j (update_found key f c connections)) (lookup j (insert key a accounts))
Agrees-insert connections accounts key a none f ok_ e f_agrees j =
    rw (lookup-insert key j a accounts) (elim (Bool-cases (key == j)) [
      | inl same ↦
          let missing : lookup j connections ≡ none = rw (sym ((eq_iff key j).0 same)) e in
          rw (missing) unlinked
      | inr other ↦ rw other (ok_ j)
    ])
Agrees-insert connections accounts key a (some d) f ok_ e f_agrees j =
    rw (lookup-insert key j a accounts, lookup-insert key j (f d) connections)
      (elim (Bool-cases (key == j)) [
        | inl same ↦ rw same (f_agrees d refl)
        | inr other ↦ rw other (ok_ j)
      ])

Agrees-written :
    (connections : Dict ConnectionRecord) (accounts : Dict OauthAccountRecord) (key : String)
    (c : ConnectionRecord)
    → ((j : String) → Agrees (lookup j connections) (lookup j accounts))
    → (j : String)
    → Agrees (lookup j (insert key c connections)) (lookup j (insert key (account_of c) accounts))
unfolding account_of
Agrees-written connections accounts key c ok_ j =
    rw (lookup-insert key j (account_of c) accounts, lookup-insert key j c connections)
      (elim (Bool-cases (key == j)) [
        | inl same ↦ rw same (linked refl refl)
        | inr other ↦ rw other (ok_ j)
      ])

keep_identity-updated_at :
    (a : OauthAccountRecord) (existing : Option OauthAccountRecord)
    → (((keep_identity a existing).updated_at ≡ a.updated_at)
        × ((keep_identity a existing).revoked_at ≡ a.revoked_at))
unfolding keep_identity
keep_identity-updated_at a none = (refl, refl)
keep_identity-updated_at a (some e) = (refl, refl)

save_account-Consistent :
    (a : OauthAccountRecord) (s : TokenStore) → Consistent s → Consistent (save_account a s)
unfolding save_account sync_connection
save_account-Consistent a s ok_ j =
    let key = account_key a.provider a.hop1_issuer a.hop1_subject in
    let (u, r) = keep_identity-updated_at a (lookup key s.accounts) in
    Agrees-insert s.connections s.accounts key _ _ (sync_connection a) ok_ refl (λ d e. linked u r)
      j

revoke_found-Consistent :
    (key : String) (at_ : ℕ) (found : Option OauthAccountRecord) (s : TokenStore)
    → Consistent s
    → Consistent (revoke_found key at_ found s)
unfolding revoke_found revoke_connection
revoke_found-Consistent key at_ none s ok_ j = ok_ j
revoke_found-Consistent key at_ (some a) s ok_ j =
    Agrees-insert s.connections s.accounts key _ _ (revoke_connection at_) ok_ refl
      (λ d e. linked refl refl) j

save_connection-Consistent :
    (c : ConnectionRecord) (guard : ConnectionWriteGuard) (s : TokenStore)
    → Consistent s
    → Consistent (save_connection c guard s).1
unfolding save_connection written
save_connection-Consistent c guard s ok_ j = elim (Bool-cases (stale_in c guard s)) [
  | inl stale ↦ rw stale (ok_ j)
  | inr fresh ↦ rw fresh (Agrees-written s.connections s.accounts _ c ok_ j)
]

save_credential_generation-Consistent :
    (r : CredentialGenerationRecord) (s : TokenStore)
    → Consistent s
    → Consistent (save_credential_generation r s)
unfolding save_credential_generation
save_credential_generation-Consistent r s ok_ j =
    elim (Bool-cases (is_some (lookup r.id s.credential_generations))) [
      | inl known ↦ rw known (ok_ j)
      | inr new ↦ rw new (ok_ j)
    ]

update_credential_generation-Consistent :
    (r : CredentialGenerationRecord) (expected : CredentialGenerationState) (attempts : ℕ)
    (s : TokenStore)
    → Consistent s
    → Consistent (update_credential_generation r expected attempts s).1
unfolding update_credential_generation
update_credential_generation-Consistent r expected attempts s ok_ j =
    elim (Bool-cases (unexpected (lookup r.id s.credential_generations) expected attempts)) [
      | inl no_ ↦ rw no_ (ok_ j)
      | inr yes_ ↦ rw yes_ (ok_ j)
    ]

Step-Consistent : {s t : TokenStore} → Step s t → Consistent s → Consistent t
unfolding mark_revoked mark_authorizing clear_authorizing save_pending_credential_cleanup
    delete_pending_credential_cleanup
Step-Consistent (saved_account a s) ok_ = save_account-Consistent a s ok_
Step-Consistent (revoked_account issuer subject at_ provider s) ok_ =
    revoke_found-Consistent (account_key provider issuer subject) at_
      (lookup (account_key provider issuer subject) s.accounts) s ok_
Step-Consistent (saved_connection c guard s) ok_ = save_connection-Consistent c guard s ok_
Step-Consistent (marked now provider issuer subject scopes expires_at s) ok_ = ok_
Step-Consistent (cleared provider issuer subject s) ok_ = ok_
Step-Consistent (queued r s) ok_ = ok_
Step-Consistent (unqueued id s) ok_ = ok_
Step-Consistent (generated r s) ok_ = save_credential_generation-Consistent r s ok_
Step-Consistent (moved r expected attempts s) ok_ =
    update_credential_generation-Consistent r expected attempts s ok_

-- Whatever operations have run on an empty store, every connection has an account, the two were last changed
-- at the same time, and they say the same of a local revocation.
pub Reachable-Consistent : {s : TokenStore} → Reachable s → Consistent s
unfolding lookup
Reachable-Consistent start = λ key. unlinked
Reachable-Consistent (next before step) = Step-Consistent step (Reachable-Consistent before)
