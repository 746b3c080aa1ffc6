-- ===== src/Oauth/Lifecycle/Active/Repaired.antt =====
-- The credential that is handed out before a renewal, from the store.
use mcp_gw.Common.{
  ℕ, String, true, false, not, ◌||◌, Option, none, some, is_some, or_default, List, ◌≡◌, refl, sym,
  ap, ◌∙◌, ◌⊎◌, inl, inr, Bool-cases, arith, eq_of_some-eq,
}
use mcp_gw.Oauth.Types.{LifecycleErrorCategory, ConnectionRecord}
use mcp_gw.Oauth.Guard.{connection_write_guard}
use mcp_gw.Oauth.Retry.{Outcome, returned, thrown}
use mcp_gw.Oauth.Store.{TokenStore}
use mcp_gw.Oauth.Store.Connections.{stale_in, save_connection}
use mcp_gw.Oauth.Scopes.{
  ScopeRequirementInput, scopes_satisfied, scope_requirement_satisfied, require_unchanged_grant,
}
use mcp_gw.Oauth.Lifecycle.{Lifecycle, Hop1Identity, continue, DecryptedCredentialGeneration}
use mcp_gw.Oauth.Lifecycle.Envelope.{decrypt_generation, connection_credential}
use mcp_gw.Oauth.Lifecycle.Steps.{read_from, >>=-returned}
use mcp_gw.Oauth.Lifecycle.Active.{
  is_poisoned, needs_reauthorizing, is_repairable, repaired, repair_opened, repair_current,
  has_scopes, repair_legacy_scope_poison, poisoned, read_repaired, credential_of, active_credential,
}
use mcp_gw.Oauth.Lifecycle.Active.Laws.{IsCurrent, credential_of-IsCurrent}

abbrev pair : {A : Type 0} → A → TokenStore → Outcome A × TokenStore
pair a s = (returned a, s)

abbrev failure : {A : Type 0} → Option LifecycleErrorCategory → TokenStore → Outcome A × TokenStore
failure e s = (thrown e, s)

pair-injective : {A : Type 0} {a b : A} {s t : TokenStore} → pair a s ≡ (returned b, t) → a ≡ b
pair-injective h = let k = ap (λ p. p.0) h in cc

failed_pair :
    {A P : Type 0} {e : Option LifecycleErrorCategory} {a : A} {s t : TokenStore}
    → failure e s ≡ pair a t
    → P
failed_pair h = let k = ap (λ p. p.0) h in cc

module _ (l : Lifecycle) (identity : Hop1Identity) where
  -- A connection that only want of a scope has closed, though it has what is asked of everyone.
  pub record IsFalselyClosed (consent_scopes : List String) (c : ConnectionRecord) : Type 0 where
    pub closed : is_poisoned c ≡ true
    pub has_all : scopes_satisfied l.adapter c.granted_scopes consent_scopes ≡ true

  -- The connection that was read, or it opened again.
  IsSource : List String → Option ConnectionRecord → TokenStore → Type 0
  IsSource consent_scopes o s =
      (o ≡ read_from l identity s)
      ⊎ ((c : ConnectionRecord) × (read_from l identity s ≡ some c)
          × (o ≡ some (repaired l.now c))
          × IsFalselyClosed consent_scopes c)

  repair_opened-IsSource :
      (consent_scopes : List String) (c : ConnectionRecord) (g : DecryptedCredentialGeneration)
      (o : Option ConnectionRecord) (s t : TokenStore)
      → read_from l identity s ≡ some c
      → IsFalselyClosed consent_scopes c
      → repair_opened l identity c g s ≡ (returned o, t)
      → IsSource consent_scopes o s
  unfolding repair_opened save_connection IsSource
  repair_opened-IsSource consent_scopes c g o s t e closed h =
      elim (Bool-cases (is_repairable l g)) [
        | inl yes_ ↦
            elim (Bool-cases (stale_in (repaired l.now c) (connection_write_guard (some c)) s)) [
              | inl stale ↦
                  let k : pair (read_from l identity s) s ≡ (returned o, t) =
                    rw (yes_, stale) at h in
                  inl (sym (pair-injective k))
              | inr fresh ↦
                  let k : (Outcome.returned (some (repaired l.now c))) ≡ returned o =
                    ap (λ p. p.0) (rw (yes_, fresh) at h) in
                  inr (c, e, cc, closed)
            ]
        | inr no_ ↦
            let k : pair (some c) s ≡ (returned o, t) = rw no_ at h in
            inl (sym (pair-injective k) ∙ sym e)
      ]

  decrypted-IsSource :
      (consent_scopes : List String) (c : ConnectionRecord)
      (g : Outcome DecryptedCredentialGeneration) (o : Option ConnectionRecord) (s t : TokenStore)
      → read_from l identity s ≡ some c
      → IsFalselyClosed consent_scopes c
      → continue (repair_opened l identity c) g s ≡ (returned o, t)
      → IsSource consent_scopes o s
  decrypted-IsSource consent_scopes c (returned g) o s t e closed h =
      repair_opened-IsSource consent_scopes c g o s t e closed h
  decrypted-IsSource consent_scopes c (thrown category) o s t e closed h = failed_pair h

  repair_current-IsSource :
      (consent_scopes : List String) (o o' : Option ConnectionRecord) (s t : TokenStore)
      → read_from l identity s ≡ o'
      → repair_current l identity consent_scopes o' s ≡ (returned o, t)
      → IsSource consent_scopes o s
  unfolding IsSource
  repair_current-IsSource consent_scopes o none s t e h = inl (sym (pair-injective h) ∙ sym e)
  repair_current-IsSource consent_scopes o (some c) s t e h =
      elim (Bool-cases (
        is_some c.local_disabled_at
        || not (is_poisoned c)
        || not (scopes_satisfied l.adapter c.granted_scopes consent_scopes))) [
          | inl open_ ↦
              let k : pair (some c) s ≡ (returned o, t) = rw open_ at h in
              inl (sym (pair-injective k) ∙ sym e)
          | inr closed ↦
              decrypted-IsSource consent_scopes c (decrypt_generation l c) o s t e
                (record { closed = ground arith; has_all = ground arith }) (rw closed at h)
        ]

  repair_legacy_scope_poison-IsSource :
      (consent_scopes : Option (List String)) (o : Option ConnectionRecord) (s t : TokenStore)
      → repair_legacy_scope_poison l identity consent_scopes s ≡ (returned o, t)
      → IsSource (or_default consent_scopes List.[]) o s
  unfolding repair_legacy_scope_poison IsSource
  repair_legacy_scope_poison-IsSource consent_scopes o s t h =
      elim (Bool-cases (has_scopes l identity consent_scopes)) [
        | inl yes_ ↦
            repair_current-IsSource (or_default consent_scopes List.[]) o (read_from l identity s) s
              t refl (rw yes_ at h)
        | inr no_ ↦
            let k : pair (read_from l identity s) s ≡ (returned o, t) = rw no_ at h in
            inl (sym (pair-injective k))
      ]

  read_repaired-IsSource :
      (consent_scopes : Option (List String)) (o : Option ConnectionRecord) (s t : TokenStore)
      → read_repaired l identity consent_scopes s ≡ (returned o, t)
      → IsSource (or_default consent_scopes List.[]) o s
  unfolding read_repaired IsSource
  read_repaired-IsSource consent_scopes o s t h =
      elim (Bool-cases (poisoned l identity (read_from l identity s))) [
        | inl yes_ ↦ repair_legacy_scope_poison-IsSource consent_scopes o s t (rw yes_ at h)
        | inr no_ ↦
            let k : pair (read_from l identity s) s ≡ (returned o, t) = rw no_ at h in
            inl (sym (pair-injective k))
      ]

  -- What is handed out of a connection that is opened again is its own.
  repaired-IsCurrent :
      (window : ℕ) (c : ConnectionRecord) (token : String)
      → IsCurrent l identity window (repaired l.now c) token
      → IsCurrent l identity window c token
  unfolding repaired decrypt_generation connection_credential
  repaired-IsCurrent window c token current = record {
    generation = current.generation;
    opened = current.opened;
    token_of = current.token_of;
    lasts = current.lasts;
  }

  -- The connection whose credential is handed out.
  pub record Serves (window : ℕ) (consent_scopes : List String) (required : ScopeRequirementInput)
      (expected : Option (List String)) (token : String) (c : ConnectionRecord) : Type 0 where
    pub enabled : c.local_disabled_at ≡ none
    pub authorized : (needs_reauthorizing c.phase ≡ false) ⊎ IsFalselyClosed consent_scopes c
    pub unchanged : require_unchanged_grant c.granted_scopes expected ≡ none
    pub sufficient : scope_requirement_satisfied l.adapter c.granted_scopes required ≡ true
    pub current : IsCurrent l identity window c token

  source-Serves :
      (window : ℕ) (consent_scopes : List String) (required : ScopeRequirementInput)
      (expected : Option (List String)) (token : String) (o : Option ConnectionRecord)
      (s : TokenStore)
      → IsSource consent_scopes o s
      → credential_of l identity window required expected o ≡ returned (some token)
      → (c : ConnectionRecord) × (read_from l identity s ≡ some c)
        × Serves window consent_scopes required expected token c
  unfolding IsSource repaired
  source-Serves window consent_scopes required expected token o s (inl read_) h =
      let (c, e, on, open_, unchanged, enough, current) =
        credential_of-IsCurrent l identity window required expected o token h in
      (
        c,
        sym read_ ∙ e,
        record {
          enabled = on;
          authorized = inl open_;
          unchanged = unchanged;
          sufficient = enough;
          current = current;
        },
      )
  source-Serves window consent_scopes required expected token o s (inr (c, e, opened, closed)) h =
      let (c', e', on, open_, unchanged, enough, current) =
        credential_of-IsCurrent l identity window required expected o token h in
      let same : c' ≡ repaired l.now c = eq_of_some-eq (sym e' ∙ opened) in
      (
        c,
        e,
        record {
          enabled = rw same at on;
          authorized = inr closed;
          unchanged = rw same at unchanged;
          sufficient = rw same at enough;
          current = repaired-IsCurrent window c token (rw same at current);
        },
      )

  -- A credential that is handed out without a renewal is that of the connection that is read, which
  -- is enabled, has the grant that is expected and satisfies what is required, and lasts longer than
  -- the safety window; and the connection has not to be reauthorized, unless it was closed for want of
  -- a scope although it has all that everyone is asked for.
  pub active_credential-Serves :
      (window : ℕ) (consent_scopes : Option (List String)) (required : ScopeRequirementInput)
      (expected : Option (List String)) (token : String) (s t : TokenStore)
      → active_credential l identity window consent_scopes required expected s
        ≡ (returned (some token), t)
      → (c : ConnectionRecord) × (read_from l identity s ≡ some c)
        × Serves window (or_default consent_scopes List.[]) required expected token c
  unfolding active_credential
  active_credential-Serves window consent_scopes required expected token s t h =
      let (o, s', source, k) =
        >>=-returned (read_repaired l identity consent_scopes)
          (λ c store. (credential_of l identity window required expected c, store)) s t h in
      source-Serves window (or_default consent_scopes List.[]) required expected token o s
        (read_repaired-IsSource consent_scopes o s s' source) (ap (λ p. p.0) k)
