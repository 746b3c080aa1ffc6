-- ===== src/Oauth/Retry/Laws.antt =====
-- An operation is retried for as long as its error is transient and retries are left.
use mcp_gw.Common.{ℕ, zero, suc, true, false, Option, ◌≡◌, refl, sym, inl, inr, Bool-cases}
use mathlib.Core.Path.{subst}
use mcp_gw.Common.Lists.{length}
use mcp_gw.Oauth.Types.{LifecycleErrorCategory}
use mcp_gw.Oauth.Retry.{Outcome, returned, thrown, is_transient, retry_from, retry_transient}

-- The run succeeded, or failed in a way that is not retried.
pub data IsFinal {T : Type 0} : Outcome T → Type 0 where
  succeeded : {value : T} → IsFinal (returned value)
  failed :
      {category : Option LifecycleErrorCategory}
      → is_transient category ≡ false
      → IsFinal (thrown category)

-- The run failed in a way that is retried.
pub data IsTransient {T : Type 0} : Outcome T → Type 0 where
  transient :
      {category : Option LifecycleErrorCategory}
      → is_transient category ≡ true
      → IsTransient (thrown category)

module _ {T : Type 0} (operation : ℕ → Outcome T) where
  -- After so many delays from a first run, this is the outcome: that of the last run. All runs
  -- before it failed transiently, and it is final or no retries are left.
  pub data Ends : ℕ → ℕ → ℕ → Outcome T → Type 0 where
    final :
        {left attempt : ℕ} → IsFinal (operation attempt) → Ends left attempt 0 (operation attempt)
    exhausted :
        {attempt : ℕ} → IsTransient (operation attempt) → Ends 0 attempt 0 (operation attempt)
    again :
        {left attempt delays : ℕ} {outcome : Outcome T}
        → IsTransient (operation attempt)
        → Ends left (suc attempt) delays outcome
        → Ends (suc left) attempt (suc delays) outcome

  retry_from-Ends :
      (left attempt : ℕ) (outcome : Outcome T)
      → operation attempt ≡ outcome
      → Ends left attempt
          (length (retry_from operation left attempt outcome).1)
          (retry_from operation left attempt outcome).0
  unfolding retry_from
  retry_from-Ends left attempt (returned value) e =
      subst (λ o. Ends left attempt 0 o) e (final (subst IsFinal (sym e) succeeded))
  retry_from-Ends zero attempt (thrown category) e = elim (Bool-cases (is_transient category)) [
    | inl yes_ ↦
        subst (λ o. Ends 0 attempt 0 o) e (exhausted (subst IsTransient (sym e) (transient yes_)))
    | inr no_ ↦ subst (λ o. Ends 0 attempt 0 o) e (final (subst IsFinal (sym e) (failed no_)))
  ]
  retry_from-Ends (suc left) attempt (thrown category) e =
      elim (Bool-cases (is_transient category)) [
        | inl yes_ ↦ rw yes_ (
            again (subst IsTransient (sym e) (transient yes_))
              (retry_from-Ends left (suc attempt) (operation (suc attempt)) refl))
        | inr no_ ↦ rw no_ (
            subst (λ o. Ends (suc left) attempt 0 o) e (final (subst IsFinal (sym e) (failed no_))))
      ]

  -- The retried operation gives the outcome of its last run. Every run before it failed
  -- transiently, and it succeeded, failed otherwise, or was the last of one more run than there are
  -- retries.
  pub retry_transient-Ends :
      (retries : ℕ)
      → Ends retries 0
          (length (retry_transient operation retries).1)
          (retry_transient operation retries).0
  unfolding retry_transient
  retry_transient-Ends retries = retry_from-Ends retries 0 (operation 0) refl
