-- ===== src/Oauth/Store/Keyed.antt =====
-- The records of the token store stand under the keys of the principals and under the ids that they
-- carry.
use mcp_gw.Common.{
  ℕ, String, Option, none, some, ◌≡◌, refl, sym, ap, ◌∙◌, inl, inr, is_some, Bool-cases,
  eq_of_some-eq,
}
use mcp_gw.Common.Dict.{Dict, lookup}
use mcp_gw.Common.Dict.Keyed.{KeyedBy, KeyedBy-insert}
use mcp_gw.Oauth.Types.{
  ConnectionRecord, OauthAccountRecord, CredentialGenerationRecord, CredentialGenerationState,
  ConnectionWriteGuard,
}
use mcp_gw.Oauth.Store.{
  Authorization, TokenStore, account_key, update_found, keep_identity, save_account, mark_revoked,
  revoke_found, sync_connection, revoke_connection,
}
use mcp_gw.Oauth.Store.Connections.{
  connection_from_legacy, synthetic_connection, usable, underlying, laid_over, live,
  read_connection, get_connection, account_of, written, stale_in, save_connection, mark_authorizing,
  clear_authorizing,
}
use mcp_gw.Oauth.Store.Cleanup.{
  save_pending_credential_cleanup, delete_pending_credential_cleanup, save_credential_generation,
  update_credential_generation, unexpected,
}
use mcp_gw.Oauth.Store.Consistent.{
  Step, saved_account, revoked_account, saved_connection, marked, cleared, queued, unqueued,
  generated, moved, Reachable, start, next,
}

abbrev pub connection_key : ConnectionRecord → String
connection_key c = account_key c.provider c.hop1_issuer c.hop1_subject

abbrev pub legacy_key : OauthAccountRecord → String
legacy_key a = account_key a.provider a.hop1_issuer a.hop1_subject

abbrev pub generation_id : CredentialGenerationRecord → String
generation_id r = r.id

abbrev pub Keyed : TokenStore → Type 0
Keyed s =
    KeyedBy connection_key s.connections
    × (KeyedBy legacy_key s.accounts × KeyedBy generation_id s.credential_generations)

keep_identity-legacy_key :
    (a : OauthAccountRecord) (existing : Option OauthAccountRecord)
    → legacy_key (keep_identity a existing) ≡ legacy_key a
unfolding keep_identity
keep_identity-legacy_key a none = refl
keep_identity-legacy_key a (some e) = refl

KeyedBy-update_found :
    (key : String) (f : ConnectionRecord → ConnectionRecord) (m : Dict ConnectionRecord)
    (found : Option ConnectionRecord)
    → lookup key m ≡ found
    → ((c : ConnectionRecord) → connection_key (f c) ≡ connection_key c)
    → KeyedBy connection_key m
    → KeyedBy connection_key (update_found key f found m)
KeyedBy-update_found key f m none e same keyed = keyed
KeyedBy-update_found key f m (some c) e same keyed =
    KeyedBy-insert connection_key key (f c) m (same c ∙ keyed key c e) keyed

sync_connection-key :
    (a : OauthAccountRecord) (c : ConnectionRecord)
    → connection_key (sync_connection a c) ≡ connection_key c
unfolding sync_connection
sync_connection-key a c = refl

revoke_connection-key :
    (at_ : ℕ) (c : ConnectionRecord) → connection_key (revoke_connection at_ c) ≡ connection_key c
unfolding revoke_connection
revoke_connection-key at_ c = refl

save_account-Keyed : (a : OauthAccountRecord) (s : TokenStore) → Keyed s → Keyed (save_account a s)
unfolding save_account
save_account-Keyed a s (c, (l, g)) =
    let key = legacy_key a in
    (
      KeyedBy-update_found key (sync_connection a) s.connections _ refl (sync_connection-key a) c,
      (
        KeyedBy-insert legacy_key key _ s.accounts
            (keep_identity-legacy_key a (lookup key s.accounts)) l,
        g,
      ),
    )

revoke_found-Keyed :
    (key : String) (at_ : ℕ) (found : Option OauthAccountRecord) (s : TokenStore)
    → lookup key s.accounts ≡ found
    → Keyed s
    → Keyed (revoke_found key at_ found s)
unfolding revoke_found
revoke_found-Keyed key at_ none s e keyed = keyed
revoke_found-Keyed key at_ (some a) s e (c, (l, g)) = (
  KeyedBy-update_found key (revoke_connection at_) s.connections _ refl (revoke_connection-key at_)
      c,
  (KeyedBy-insert legacy_key key _ s.accounts (l key a e) l, g),
)

pub written-Keyed : (c : ConnectionRecord) (s : TokenStore) → Keyed s → Keyed (written c s)
unfolding written account_of
written-Keyed c s (k, (l, g)) = (
  KeyedBy-insert connection_key (connection_key c) c s.connections refl k,
  (KeyedBy-insert legacy_key (connection_key c) (account_of c) s.accounts refl l, g),
)

pub save_credential_generation-Keyed :
    (r : CredentialGenerationRecord) (s : TokenStore)
    → Keyed s
    → Keyed (save_credential_generation r s)
unfolding save_credential_generation
save_credential_generation-Keyed r s (k, (l, g)) =
    elim (Bool-cases (is_some (lookup r.id s.credential_generations))) [
      | inl known ↦ rw known (k, (l, g))
      | inr new ↦
          rw new (k, (l, KeyedBy-insert generation_id r.id r s.credential_generations refl g))
    ]

pub update_credential_generation-Keyed :
    (r : CredentialGenerationRecord) (expected : CredentialGenerationState) (attempts : ℕ)
    (s : TokenStore)
    → Keyed s
    → Keyed (update_credential_generation r expected attempts s).1
unfolding update_credential_generation
update_credential_generation-Keyed r expected attempts s (k, (l, g)) =
    elim (Bool-cases (unexpected (lookup r.id s.credential_generations) expected attempts)) [
      | inl no_ ↦ rw no_ (k, (l, g))
      | inr yes_ ↦
          rw yes_ (k, (l, KeyedBy-insert generation_id r.id r s.credential_generations refl g))
    ]

pub save_connection-Keyed :
    (c : ConnectionRecord) (guard : ConnectionWriteGuard) (s : TokenStore)
    → Keyed s
    → Keyed (save_connection c guard s).1
unfolding save_connection
save_connection-Keyed c guard s keyed = elim (Bool-cases (stale_in c guard s)) [
  | inl stale ↦ rw stale keyed
  | inr fresh ↦ rw fresh (written-Keyed c s keyed)
]

Step-Keyed : {s t : TokenStore} → Step s t → Keyed s → Keyed t
unfolding mark_revoked mark_authorizing clear_authorizing save_pending_credential_cleanup
    delete_pending_credential_cleanup
Step-Keyed (saved_account a s) keyed = save_account-Keyed a s keyed
Step-Keyed (revoked_account issuer subject at_ provider s) keyed =
    revoke_found-Keyed (account_key provider issuer subject) at_ _ s refl keyed
Step-Keyed (saved_connection c guard s) keyed = save_connection-Keyed c guard s keyed
Step-Keyed (marked now provider issuer subject scopes expires_at s) keyed = keyed
Step-Keyed (cleared provider issuer subject s) keyed = keyed
Step-Keyed (queued r s) keyed = keyed
Step-Keyed (unqueued id s) keyed = keyed
Step-Keyed (generated r s) keyed = save_credential_generation-Keyed r s keyed
Step-Keyed (moved r expected attempts s) keyed =
    update_credential_generation-Keyed r expected attempts s keyed

pub Reachable-Keyed : {s : TokenStore} → Reachable s → Keyed s
unfolding lookup
Reachable-Keyed start = (λ k v h. cc, (λ k v h. cc, λ k v h. cc))
Reachable-Keyed (next before step) = Step-Keyed step (Reachable-Keyed before)

module _ (now : ℕ) (provider issuer subject : String) where
  underlying-key :
      (connection : Option ConnectionRecord) (legacy : Option OauthAccountRecord) (s : TokenStore)
      → Keyed s
      → lookup (account_key provider issuer subject) s.connections ≡ connection
      → lookup (account_key provider issuer subject) s.accounts ≡ legacy
      → (c : ConnectionRecord) → underlying connection legacy ≡ some c
      → connection_key c ≡ account_key provider issuer subject
  unfolding connection_from_legacy
  underlying-key (some d) legacy s (k, (l, g)) e f c h =
      ap connection_key (sym (eq_of_some-eq h)) ∙ k (account_key provider issuer subject) d e
  underlying-key none (some a) s (k, (l, g)) e f c h =
      ap connection_key (sym (eq_of_some-eq h)) ∙ l (account_key provider issuer subject) a f
  underlying-key none none s keyed e f c h = cc

  laid_over-key :
      (authorization : Option Authorization) (below : Option ConnectionRecord)
      → ((c : ConnectionRecord)
          → below ≡ some c
          → connection_key c ≡ account_key provider issuer subject)
      → (c : ConnectionRecord) → laid_over provider issuer subject authorization below ≡ some c
      → connection_key c ≡ account_key provider issuer subject
  unfolding laid_over synthetic_connection
  laid_over-key none below keyed c h = keyed c h
  laid_over-key (some a) none keyed c h = ap connection_key (sym (eq_of_some-eq h))
  laid_over-key (some a) (some d) keyed c h =
      ap connection_key (sym (eq_of_some-eq h)) ∙ keyed d refl

  -- What is read for a principal is the principal's.
  pub get_connection-key :
      (s : TokenStore) (c : ConnectionRecord)
      → Keyed s
      → get_connection now provider issuer subject s ≡ some c
      → connection_key c ≡ account_key provider issuer subject
  unfolding get_connection read_connection
  get_connection-key s c keyed h =
      let key = account_key provider issuer subject in
      let connection = lookup key s.connections in
      let legacy = lookup key s.accounts in
      let authorization = lookup key s.authorizations in
      let below = underlying connection legacy in
      let of_below = underlying-key connection legacy s keyed refl refl in
      elim (Bool-cases (usable connection legacy)) [
        | inl yes_ ↦ let e : below ≡ some c = rw yes_ at h in of_below c e
        | inr no_ ↦ elim (Bool-cases (live now authorization)) [
          | inl running ↦
              let e : laid_over provider issuer subject authorization below ≡ some c =
                rw (no_, running) at h in
              laid_over-key authorization below of_below c e
          | inr over ↦ let e : below ≡ some c = rw (no_, over) at h in of_below c e
        ]
      ]
