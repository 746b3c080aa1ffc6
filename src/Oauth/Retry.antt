-- ===== src/Oauth/Retry.antt =====
-- shared/oauth/connection-lifecycle.ts: retryTransient, cleanupBackoffMs and the categories of
-- errors. The operation's n-th run is a parameter; the result carries the delays between the runs.
pub mod Laws
use mcp_gw.Common.{
  ℕ, zero, suc, ◌+◌, ◌-◌, ◌*◌, ◌^◌, Bool, true, false, not, ◌||◌, Option, none, some, List, [], ◌∷◌,
  leb, if◌then◌else◌,
}
use mcp_gw.Oauth.Types.{
  LifecycleErrorCategory, transient_provider_failure, invalid_renewal_credential, renewal_expired,
  identity_mismatch, insufficient_scope,
}

abbrev pub min : ℕ → ℕ → ℕ
min a b = if leb a b then a else b

-- `attempts` is at least 1 where the source calls it.
unfoldable pub cleanup_backoff_ms : ℕ → ℕ
cleanup_backoff_ms attempts = min (60 * 60 * 1000) (5000 * 2 ^ min (attempts - 1) 10)

-- The value of a run, or the category of its error, which an error of another class does not have.
pub data Outcome (T : Type 0) : Type 0 where
  returned : T → Outcome T
  thrown : Option LifecycleErrorCategory → Outcome T

unfoldable pub is_transient : Option LifecycleErrorCategory → Bool
is_transient (some transient_provider_failure) = true
is_transient _ = false

unfoldable pub is_permanent_renewal_failure : Option LifecycleErrorCategory → Bool
is_permanent_renewal_failure (some invalid_renewal_credential) = true
is_permanent_renewal_failure (some renewal_expired) = true
is_permanent_renewal_failure (some identity_mismatch) = true
is_permanent_renewal_failure (some insufficient_scope) = true
is_permanent_renewal_failure _ = false

unfoldable pub retry_delay : ℕ → ℕ
retry_delay attempt = min (100 * 2 ^ attempt) 1000

module _ {T : Type 0} (operation : ℕ → Outcome T) where
  -- The loop with `left` retries to go, at this attempt: an error that is not transient ends it.
  unfoldable pub retry_from : ℕ → ℕ → Outcome T → Outcome T × List ℕ
  retry_from left attempt (returned value) = (returned value, [])
  retry_from zero attempt (thrown category) = (thrown category, [])
  retry_from (suc left) attempt (thrown category) =
      let rest = retry_from left (suc attempt) (operation (suc attempt)) in
      if is_transient category
      then (rest.0, retry_delay attempt ∷ rest.1)
      else (thrown category, [])

  unfoldable pub retry_transient : ℕ → Outcome T × List ℕ
  unfolding retry_from
  retry_transient retries = retry_from retries 0 (operation 0)
