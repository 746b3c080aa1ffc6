-- ===== src/Oauth/Lifecycle/Active/Laws.antt =====
-- Whose credential is handed out.
use mcp_gw.Common.{
  ℕ, ◌+◌, String, Bool, true, false, ◌&&◌, Option, none, some, is_some, List, ◌≡◌, refl, inl, inr,
  arith, Bool-cases, if◌then◌else◌, truthy?,
}
use mcp_gw.Oauth.Types.{LifecycleErrorCategory, ConnectionRecord}
use mcp_gw.Oauth.Retry.{Outcome, returned, thrown}
use mcp_gw.Oauth.Scopes.{
  ScopeRequirementInput, scope_requirement_satisfied, require_unchanged_grant,
}
use mcp_gw.Oauth.Lifecycle.{Lifecycle, Hop1Identity, DecryptedCredentialGeneration}
use mcp_gw.Oauth.Lifecycle.Envelope.{decrypt_generation}
use mcp_gw.Oauth.Lifecycle.Active.{
  needs_reauthorizing, is_later, failed_or, fresh_credential, credential_of,
}

returned-injective : {A : Type 0} {a b : A} → returned a ≡ returned b → a ≡ b
returned-injective h = cc

thrown-ne : {A P : Type 0} {e : Option LifecycleErrorCategory} {a : A} → thrown e ≡ returned a → P
thrown-ne h = cc

refused_else :
    {A : Type 0} (b : Bool) (m : Outcome A) (e : Option LifecycleErrorCategory) {a : A}
    → (if b then thrown e else m) ≡ returned a
    → (b ≡ false) × (m ≡ returned a)
refused_else true m e h = thrown-ne h
refused_else false m e h = (refl, h)

allowed_then :
    {A : Type 0} (b : Bool) (m : Outcome A) (e : Option LifecycleErrorCategory) {a : A}
    → (if b then m else thrown e) ≡ returned a
    → (b ≡ true) × (m ≡ returned a)
allowed_then true m e h = (refl, h)
allowed_then false m e h = thrown-ne h

not_some : {A : Type 0} (o : Option A) → is_some o ≡ false → o ≡ none
not_some none h = refl
not_some (some a) h = cc

module _ (l : Lifecycle) (identity : Hop1Identity) where
  unfailed :
      {A : Type 0} (check : Option LifecycleErrorCategory) (m : Outcome A) {a : A}
      → failed_or l identity check m ≡ returned a
      → (check ≡ none) × (m ≡ returned a)
  unfailed none m h = (refl, h)
  unfailed (some e) m h = thrown-ne h

  -- What is handed out is the credential of this generation, which lasts longer than the window.
  pub record IsCurrent (window : ℕ) (c : ConnectionRecord) (token : String) : Type 0 where
    pub generation : DecryptedCredentialGeneration
    pub opened : decrypt_generation l c ≡ returned generation
    pub token_of : generation.credential.active_credential ≡ some token
    pub lasts : is_later (l.now + window) generation.active_credential_expires_at ≡ true

  fresh_credential-IsCurrent :
      (window : ℕ) (c : ConnectionRecord) (token : String)
      (o : Outcome DecryptedCredentialGeneration)
      → decrypt_generation l c ≡ o
      → fresh_credential l identity window o ≡ returned (some token)
      → IsCurrent window c token
  fresh_credential-IsCurrent window c token (thrown e) opened h = thrown-ne h
  fresh_credential-IsCurrent window c token (returned g) opened h =
      elim (Bool-cases (
        truthy? g.credential.active_credential
        && is_later (l.now + window) g.active_credential_expires_at)) [
          | inl yes_ ↦ record {
            generation = g;
            opened = opened;
            token_of = returned-injective (rw yes_ at h);
            lasts = ground arith;
          }
          | inr no_ ↦ let k : none ≡ some token = returned-injective (rw no_ at h) in cc
        ]

  -- A credential is handed out only of a connection that is there and not disabled, that has not to be
  -- reauthorized, whose grant is the one expected and satisfies what is required, and it is the
  -- connection's own and lasts longer than the safety window.
  pub credential_of-IsCurrent :
      (window : ℕ) (required : ScopeRequirementInput) (expected : Option (List String))
      (current : Option ConnectionRecord) (token : String)
      → credential_of l identity window required expected current ≡ returned (some token)
      → (c : ConnectionRecord) × (current ≡ some c)
        × (c.local_disabled_at ≡ none)
        × (needs_reauthorizing c.phase ≡ false)
        × (require_unchanged_grant c.granted_scopes expected ≡ none)
        × (scope_requirement_satisfied l.adapter c.granted_scopes required ≡ true)
        × IsCurrent window c token
  unfolding credential_of
  credential_of-IsCurrent window required expected none token h = thrown-ne h
  credential_of-IsCurrent window required expected (some c) token h =
      let (on, k) = refused_else (is_some c.local_disabled_at) _ _ h in
      let (unchanged, k') = unfailed (require_unchanged_grant c.granted_scopes expected) _ k in
      let (open_, k'') = refused_else (needs_reauthorizing c.phase) _ _ k' in
      let (enough, k''') =
        allowed_then (scope_requirement_satisfied l.adapter c.granted_scopes required) _ _ k'' in
      (
        c,
        refl,
        not_some c.local_disabled_at on,
        open_,
        unchanged,
        enough,
        fresh_credential-IsCurrent window c token (decrypt_generation l c) refl k''',
      )
