-- ===== src/Oauth/Lifecycle/Cleanup/Laws.antt =====
-- The answers of the provider: each attempt is counted once, and what is planned next.
use mcp_gw.Common.{
  ℕ, Bool, ◌+◌, ◌≤◌, true, false, Option, none, some, String, ◌≡◌, refl, sym, ap, ◌∙◌, ◌↔◌, inl,
  inr, arith, Bool-cases,
}
use mcp_gw.Common.Dict.{lookup, insert, lookup-insert_self}
use mcp_gw.Oauth.Types.{
  ProviderRevocationResult, revoked, already_absent, not_supported, retryable_failure,
  CredentialGenerationRecord, cleanup_pending, ConnectionRecord,
}
use mcp_gw.Oauth.Store.{TokenStore}
use mcp_gw.Oauth.Store.Cleanup.{state_eq, unexpected, update_credential_generation, is_due}
use mcp_gw.Oauth.Retry.{Outcome, returned, cleanup_backoff_ms}
use mcp_gw.Oauth.Lifecycle.{Lifecycle, Hop1Identity, continue, pure}
use mcp_gw.Oauth.Lifecycle.Steps.{continue-pure, save_or_conflict-credential_generations}
use mcp_gw.Oauth.Lifecycle.Cleanup.{
  cleaned, awaits, finalize_found, finalize_revocation_in_store, finalize_credential_cleanup,
}

-- After an answer of the provider the worker is given the credential again exactly if the answer was
-- a failure that may be retried, and not before the backoff for the attempts made so far has passed.
pub is_due-cleaned :
    (now later : ℕ) (result : ProviderRevocationResult) (r : CredentialGenerationRecord)
    → (is_due later (cleaned now result r) ≡ true)
      ↔ ((result ≡ retryable_failure) × (now + cleanup_backoff_ms (r.cleanup_attempts + 1) ≤ later))
unfolding is_due cleaned state_eq
is_due-cleaned now later revoked r = (λ h. cc, λ h. cc)
is_due-cleaned now later already_absent r = (λ h. cc, λ h. cc)
is_due-cleaned now later not_supported r = (λ h. cc, λ h. cc)
is_due-cleaned now later retryable_failure r = ground arith
is_due-cleaned now later ProviderRevocationResult.permanent_failure r = (λ h. cc, λ h. cc)

abbrev not_counted : TokenStore → Outcome Bool × TokenStore
not_counted s = (returned false, s)

module _ (l : Lifecycle) (identity : Hop1Identity) where
  finalize_found-credential_generations :
      (generation : ℕ) (result : ProviderRevocationResult) (id : Option String)
      (current : Option ConnectionRecord) (s : TokenStore)
      → (finalize_found l identity generation result id current s).1.credential_generations
        ≡ s.credential_generations
  finalize_found-credential_generations generation result id none s = refl
  finalize_found-credential_generations generation result id (some c) s =
      elim (Bool-cases (awaits l identity generation id c)) [
        | inl yes_ ↦ rw yes_ (save_or_conflict-credential_generations _ _ s)
        | inr no_ ↦ rw no_ refl
      ]

  finalize_revocation_in_store-credential_generations :
      (generation : ℕ) (result : ProviderRevocationResult) (id : Option String) (s : TokenStore)
      → (finalize_revocation_in_store l identity generation result id s).1.credential_generations
        ≡ s.credential_generations
  unfolding finalize_revocation_in_store
  finalize_revocation_in_store-credential_generations generation result id s =
      finalize_found-credential_generations generation result id _ s

  -- The answer that counted is what the store holds.
  counted-lookup :
      (r : CredentialGenerationRecord) (result : ProviderRevocationResult) (s t : TokenStore)
      → finalize_credential_cleanup l identity r result s ≡ (returned true, t)
      → lookup r.id t.credential_generations ≡ some (cleaned l.now result r)
  unfolding finalize_credential_cleanup update_credential_generation
  counted-lookup r result s t h =
      elim (Bool-cases
        (unexpected (lookup r.id s.credential_generations) cleanup_pending r.cleanup_attempts)) [
          | inl no_ ↦
              let k : not_counted s ≡ (returned true, t) = rw no_ at h in
              let e = ap (λ p. p.0) k in cc
          | inr yes_ ↦
              let next = cleaned l.now result r in
              let s' : TokenStore = record s {
                credential_generations = insert r.id next s.credential_generations;
              } in
              let (o, after_) =
                finalize_revocation_in_store l identity r.generation result (some r.id) s' in
              let k : continue (λ (done : Unit {0}). pure true) o after_ ≡ (returned true, t) =
                rw yes_ at h in
              let e : t ≡ after_ =
                sym (ap (λ p. p.1) k) ∙ continue-pure (λ (done : Unit {0}). true) o after_ in
              ap (λ (x : TokenStore). lookup r.id x.credential_generations) e
              ∙ ap (lookup r.id) (
                  finalize_revocation_in_store-credential_generations r.generation result
                    (some r.id) s')
              ∙ lookup-insert_self r.id next s.credential_generations
        ]

  cleaned-unexpected :
      (result : ProviderRevocationResult) (r : CredentialGenerationRecord)
      → unexpected (some (cleaned l.now result r)) cleanup_pending r.cleanup_attempts ≡ true
  unfolding cleaned unexpected
  cleaned-unexpected result r = ground arith

  -- Each attempt at a revocation is counted once: where the answer to an attempt was recorded, the
  -- store holds the credential with that answer, and no other answer to the same attempt is recorded after it.
  pub finalize_credential_cleanup_once :
      (r : CredentialGenerationRecord) (result other : ProviderRevocationResult) (s t : TokenStore)
      → finalize_credential_cleanup l identity r result s ≡ (returned true, t)
      → (lookup r.id t.credential_generations ≡ some (cleaned l.now result r))
        × (finalize_credential_cleanup l identity r other t ≡ (returned false, t))
  unfolding finalize_credential_cleanup update_credential_generation
  finalize_credential_cleanup_once r result other s t h =
      let held = counted-lookup r result s t h in
      (held, rw (held, cleaned-unexpected result r) refl)
