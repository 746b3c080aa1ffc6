-- ===== src/Oauth/Lifecycle/Renew/Reject.antt =====
-- shared/oauth/connection-lifecycle.ts: rejectRenewedGeneration, and one round of
-- awaitConcurrentRenewal.
use mcp_gw.Common.{
  ℕ, String, Bool, true, false, not, ◌&&◌, ◌||◌, Option, none, some, is_some, or_default, nat_eq,
  if◌then◌else◌,
}
use mcp_gw.Common.Lists.{find}
use mcp_gw.Oauth.Types.{
  reauthorization_required, unavailable, candidate, active, cleanup_pending, LifecycleErrorCategory,
  generation_conflict, insufficient_scope, persistence_failure, ConnectionRecord,
  CredentialGenerationRecord,
}
use mcp_gw.Oauth.Guard.{connection_write_guard}
use mcp_gw.Oauth.Store.Cleanup.{state_eq}
use mcp_gw.Oauth.Retry.{is_permanent_renewal_failure}
use mcp_gw.Oauth.Scopes.{ScopeRequirementInput, scope_requirement_satisfied}
use mcp_gw.Oauth.Lifecycle.{
  Lifecycle, Hop1Identity, Tx, pure, raise, ◌>>=◌, ◌>>◌, read, generations, save_or_conflict,
  update,
}
use mcp_gw.Oauth.Lifecycle.Renew.{
  RenewalResult, already_fresh, needs_reauthorization, RenewalCandidate, renewal_failed,
}
use mcp_gw.Oauth.Lifecycle.Renew.Commit.{is_custody_of, holds}

module _ (l : Lifecycle) (identity : Hop1Identity) where
  abbrev is_told : LifecycleErrorCategory → Bool
  is_told persistence_failure = false
  is_told generation_conflict = false
  is_told _ = true

  -- The failure is recorded on a connection that is still the one that was to be renewed.
  unfoldable pub record_rejection :
      RenewalCandidate → Option LifecycleErrorCategory → Option ConnectionRecord → Tx (Unit {0})
  unfolding renewal_failed
  record_rejection p (some category) (some c) =
      if nat_eq c.generation p.current.generation
        && not (is_some c.local_disabled_at)
        && nat_eq c.updated_at p.current.updated_at
        && is_told category
        && (not p.fresh || is_permanent_renewal_failure (some category))
      then save_or_conflict
          (renewal_failed
            (if is_permanent_renewal_failure (some category)
              then reauthorization_required
              else unavailable)
            category l.now c)
          (connection_write_guard (some c))
      else pure tt
  record_rejection p _ _ = pure tt

  abbrev held_by : Option ConnectionRecord → Option String
  held_by none = none
  held_by (some c) = c.credential_generation_id

  -- Whether the credential was queued for its cleanup.
  unfoldable pub reject_renewed_generation :
      RenewalCandidate → Option LifecycleErrorCategory → Tx Bool
  unfolding record_rejection
  reject_renewed_generation p category = do
    let pending : CredentialGenerationRecord = record p.custody {
      state = cleanup_pending;
      updated_at = l.now;
    }
    current ← read l identity
    if holds p.custody.id (held_by current) then pure false else (do
      was_candidate ← update pending candidate 0
      moved ← (if was_candidate then pure true else update pending active 0)
      if moved then (do record_rejection p category current; pure true) else pure false)

  abbrev is_candidate : Option CredentialGenerationRecord → Bool
  is_candidate none = false
  is_candidate (some r) = state_eq r.state candidate

  -- One round of the wait for another renewal; nothing where it has to go on.
  unfoldable pub concurrent_renewal_found :
      ℕ
      → String
      → ScopeRequirementInput
      → Bool
      → Option ConnectionRecord
      → Tx (Option RenewalResult)
  unfolding state_eq
  concurrent_renewal_found generation id required_scopes manual none =
      pure (some needs_reauthorization)
  concurrent_renewal_found generation id required_scopes manual (some c) =
      if is_some c.local_disabled_at
      then pure (some needs_reauthorization)
      else if not (nat_eq c.generation generation)
      then (if scope_requirement_satisfied l.adapter c.granted_scopes required_scopes
          then pure (some already_fresh)
          else if manual
          then pure (some needs_reauthorization)
          else raise insufficient_scope)
      else (do
        kept ← generations l identity
        if is_candidate (find (is_custody_of (some id)) kept)
            then pure none
            else raise (or_default c.lifecycle_error_category generation_conflict))

  unfoldable pub await_concurrent_renewal_round :
      ℕ → String → ScopeRequirementInput → Bool → Tx (Option RenewalResult)
  unfolding concurrent_renewal_found
  await_concurrent_renewal_round generation id required_scopes manual = do
    current ← read l identity
    concurrent_renewal_found generation id required_scopes manual current
