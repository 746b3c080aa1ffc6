-- ===== src/Oauth/Store/Writes.antt =====
-- Guarded writes: what has been read can be written back, and of two writers who read the same
-- only one succeeds.
use mcp_gw.Common.{
  ℕ, String, true, false, Option, none, some, ◌≡◌, ◌≢◌, refl, sym, ap, ◌⊎◌, inl, inr, arith,
  Bool-cases,
}
use mcp_gw.Common.Dict.{lookup, lookup-insert_self}
use mcp_gw.Oauth.Types.{authorizing, ConnectionRecord, OauthAccountRecord, ConnectionWriteGuard}
use mcp_gw.Oauth.Guard.{
  is_bare, connection_write_guard, synthetic_authorization, present_guard, absent_guard,
}
use mcp_gw.Oauth.Store.{Authorization, TokenStore, account_key}
use mcp_gw.Oauth.Store.Connections.{
  connection_from_legacy, synthetic_connection, usable, underlying, laid_over, live,
  read_connection, get_connection, is_stale, account_of, written, stale_in, save_connection, opt_eq,
}
use mcp_gw.Oauth.Store.Consistent.{Agrees, unlinked, linked, Consistent, Backed}

opt_eq_refl : (o : Option ℕ) → opt_eq o o ≡ true
opt_eq_refl none = refl
opt_eq_refl (some n) = ground arith

-- A stored connection is not taken for one that stands for an authorization alone.
stored-present_guard :
    (c : ConnectionRecord) → is_bare c ≡ false → connection_write_guard (some c) ≡ present_guard c
unfolding connection_write_guard synthetic_authorization
stored-present_guard c stored = ground arith

laid_over-is_bare :
    (c : ConnectionRecord) (a : Authorization)
    → is_bare c ≡ false
    → is_bare (record c { required_scopes = a.required_scopes; phase = authorizing }) ≡ false
unfolding is_bare
laid_over-is_bare c a stored = stored

legacy-is_bare : (l : OauthAccountRecord) → is_bare (connection_from_legacy l) ≡ false
unfolding is_bare connection_from_legacy
legacy-is_bare l = ground arith

pub synthetic-absent_guard :
    (provider issuer subject : String) (a : Authorization)
    → connection_write_guard (some (synthetic_connection provider issuer subject a)) ≡ absent_guard
unfolding connection_write_guard synthetic_authorization synthetic_connection is_bare
synthetic-absent_guard provider issuer subject a = refl

module _ (now : ℕ) (provider issuer subject : String) where
  -- Whatever is laid over a stored connection, its guard is that of the connection.
  read-present_guard :
      (connection : Option ConnectionRecord) (legacy : Option OauthAccountRecord)
      (authorization : Option Authorization) (c : ConnectionRecord)
      → underlying connection legacy ≡ some c
      → is_bare c ≡ false
      → connection_write_guard
          (read_connection now provider issuer subject connection legacy authorization)
        ≡ present_guard c
  unfolding read_connection laid_over live
  read-present_guard connection legacy none c e stored =
      elim (Bool-cases (usable connection legacy)) [
        | inl yes_ ↦ rw (yes_, e) (stored-present_guard c stored)
        | inr no_ ↦ rw (no_, e) (stored-present_guard c stored)
      ]
  read-present_guard connection legacy (some a) c e stored =
      elim (Bool-cases (usable connection legacy)) [
        | inl yes_ ↦ rw (yes_, e) (stored-present_guard c stored)
        | inr no_ ↦ elim (Bool-cases (live now (some a))) [
          | inl running ↦
              rw (no_, running, e) (stored-present_guard _ (laid_over-is_bare c a stored))
          | inr over ↦ rw (no_, over, e) (stored-present_guard c stored)
        ]
      ]

  read-absent_guard :
      (authorization : Option Authorization)
      → connection_write_guard (read_connection now provider issuer subject none none authorization)
        ≡ absent_guard
  unfolding read_connection laid_over live usable connection_write_guard
  read-absent_guard none = refl
  read-absent_guard (some a) = elim (Bool-cases (live now (some a))) [
    | inl running ↦ rw running (synthetic-absent_guard provider issuer subject a)
    | inr over ↦ rw over refl
  ]

  -- A guard that was read is not stale where it was read.
  pub read-fresh :
      {connection : Option ConnectionRecord} {legacy : Option OauthAccountRecord}
      → Agrees connection legacy
      → ((c : ConnectionRecord) → connection ≡ some c → is_bare c ≡ false)
      → (authorization : Option Authorization)
      → is_stale connection legacy (
          connection_write_guard
            (read_connection now provider issuer subject connection legacy authorization))
        ≡ false
  unfolding is_stale connection_from_legacy
  read-fresh (unlinked {a = none}) backed authorization = rw (read-absent_guard authorization) refl
  read-fresh (unlinked {a = some l}) backed authorization =
      rw
        (read-present_guard none (some l) authorization (connection_from_legacy l) refl
          (legacy-is_bare l))
        (ground (arith, opt_eq_refl l.revoked_at))
  read-fresh (linked {c = c} {a = l} u r) backed authorization =
      rw (read-present_guard (some c) (some l) authorization c refl (backed c refl), u, r)
        (ground (arith, opt_eq_refl c.local_disabled_at))

-- In a store whose accounts and connections agree, where the connection that is stored for a
-- principal, if there is one, has something behind it (a generation, a credential, a local
-- revocation or an account identity), a connection read for the principal, at any time and under
-- any running authorization, can be written back: a write to the same principal under the guard of
-- what was read succeeds.
pub get_connection-save_connection :
    (now : ℕ) (provider issuer subject : String) (c : ConnectionRecord) (store : TokenStore)
    → Consistent store
    → Backed (account_key provider issuer subject) store
    → account_key c.provider c.hop1_issuer c.hop1_subject ≡ account_key provider issuer subject
    → save_connection c
        (connection_write_guard (get_connection now provider issuer subject store))
        store
      ≡ (true, written c store)
unfolding get_connection save_connection stale_in
get_connection-save_connection now provider issuer subject c store ok_ backed same =
    let key = account_key provider issuer subject in
    rw
      (
        same,
        read-fresh now provider issuer subject (ok_ key) backed (lookup key store.authorizations),
      )
      refl

-- The first write left something that the guard does not describe.
abbrev pub Changes : ConnectionRecord → ConnectionWriteGuard → Type 0
Changes c guard =
    (guard.present ≡ false)
    ⊎ ((guard.generation ≢ some c.generation) ⊎ (guard.updated_at ≢ some c.updated_at))

opt_eq-some : (n : ℕ) (o : Option ℕ) → o ≢ some n → opt_eq (some n) o ≡ false
opt_eq-some n none h = refl
opt_eq-some n (some m) h = ground arith

changed-is_stale :
    (c : ConnectionRecord) (guard : ConnectionWriteGuard)
    → Changes c guard
    → is_stale (some c) (some (account_of c)) guard ≡ true
unfolding is_stale account_of
changed-is_stale c guard (inl absent) = ground arith
changed-is_stale c guard (inr (inl generation)) =
    ground (arith, opt_eq-some c.generation guard.generation generation)
changed-is_stale c guard (inr (inr updated_at)) =
    ground (arith, opt_eq-some c.updated_at guard.updated_at updated_at)

refused-again :
    (c c' : ConnectionRecord) (guard : ConnectionWriteGuard) (store : TokenStore)
    → Changes c guard
    → account_key c'.provider c'.hop1_issuer c'.hop1_subject
      ≡ account_key c.provider c.hop1_issuer c.hop1_subject
    → save_connection c' guard (written c store) ≡ (false, written c store)
unfolding save_connection stale_in written
refused-again c c' guard store changes same =
    let key = account_key c.provider c.hop1_issuer c.hop1_subject in
    rw
      (
        same,
        lookup-insert_self key c store.connections,
        lookup-insert_self key (account_of c) store.accounts,
        changed-is_stale c guard changes,
      )
      refl

save_connection-accepted :
    (c : ConnectionRecord) (guard : ConnectionWriteGuard) (store store' : TokenStore)
    → save_connection c guard store ≡ (true, store')
    → store' ≡ written c store
unfolding save_connection
save_connection-accepted c guard store store' h = elim (Bool-cases (stale_in c guard store)) [
  | inl stale ↦ let k : (false, store) ≡ (true, store') = rw stale at h in cc (ap (λ p. p.0) k)
  | inr fresh ↦
      let k : (true, written c store) ≡ (true, store') = rw fresh at h in sym (ap (λ p. p.1) k)
]

-- Of two writers who hold the same guard only the first succeeds: after a write that changed the
-- generation or the time of the record, or that created it, every further write to the same
-- principal under that guard is refused and changes nothing.
pub save_connection_once :
    (c c' : ConnectionRecord) (guard : ConnectionWriteGuard) (store store' : TokenStore)
    → save_connection c guard store ≡ (true, store')
    → Changes c guard
    → account_key c'.provider c'.hop1_issuer c'.hop1_subject
      ≡ account_key c.provider c.hop1_issuer c.hop1_subject
    → save_connection c' guard store' ≡ (false, store')
save_connection_once c c' guard store store' h changes same =
    rw (save_connection-accepted c guard store store' h)
      (refused-again c c' guard store changes same)
