-- ===== src/Oauth/Lifecycle/Renew.antt =====
-- shared/oauth/connection-lifecycle.ts: the request of a renewal, the first part of renew up to the
-- question to the provider and its record of the answer, and persistReauthorizationRequired. The
-- provider is asked between the two parts, and its answer, after the retries, is a parameter.
pub mod Commit
pub mod Reject
pub mod Refresh
mod Tests
pub mod Laws
use mcp_gw.Common.{
  ℕ, ◌+◌, String, Bool, true, false, not, ◌&&◌, ◌||◌, Option, none, some, is_some, or_default, List,
  truthy?, leb, nat_eq, ◌==◌, if◌then◌else◌,
}
use mcp_gw.Common.Lists.{any, find}
use mcp_gw.Oauth.Types.{
  ConnectionPhase, reauthorization_required, unavailable, CredentialGenerationState, candidate,
  LifecycleErrorCategory, invalid_active_credential, renewal_expired, insufficient_scope,
  generation_conflict, persistence_failure, ProviderAccountIdentity, ConnectionRecord,
  CredentialGenerationRecord,
}
use mcp_gw.Oauth.Guard.{connection_write_guard}
use mcp_gw.Oauth.Store.Cleanup.{state_eq}
use mcp_gw.Oauth.Retry.{Outcome, returned, thrown, is_permanent_renewal_failure}
use mcp_gw.Oauth.Scopes.{ScopeRequirementInput, scope_requirement_satisfied}
use mcp_gw.Oauth.Lifecycle.{
  Lifecycle, ProviderCredentialEnvelope, DecryptedCredentialGeneration, Hop1Identity, Tx, pure,
  raise, raise_if, continue, ◌>>=◌, ◌>>◌, read, generations, save_or_conflict, keep_generation,
  credential_custody_record,
}
use mcp_gw.Oauth.Lifecycle.Envelope.{decrypt_generation}
use mcp_gw.Oauth.Lifecycle.Activate.{ValidatedIdentity, in_cleanup}

pub data RenewalResult : Type 0 where
  refreshed already_fresh refresh_not_supported : RenewalResult
  needs_reauthorization : RenewalResult

pub record RenewedCredentialGeneration : Type 0 where
  pub credential : ProviderCredentialEnvelope
  pub granted_scopes : Option (List String)
  pub active_credential_expires_at : Option ℕ
  pub renewal_credential_expires_at : Option ℕ
  pub validated_at : Option ℕ

-- What the provider is asked for: the connection as it was read, and whether its credential is still
-- good.
pub record Asked : Type 0 where
  pub current : ConnectionRecord
  pub decrypted : DecryptedCredentialGeneration
  pub fresh : Bool

-- `RenewalPreparation`, of the kind "candidate"
pub record RenewalCandidate : Type 0 where
  pub current : ConnectionRecord
  pub decrypted : DecryptedCredentialGeneration
  pub renewed : RenewedCredentialGeneration
  pub custody : CredentialGenerationRecord
  pub fresh : Bool
  pub validated_identity : Option ValidatedIdentity

-- What a renewal is asked with: `renews` that the adapter can renew at all, `observed_generation` the
-- generation whose credential the provider refused.
pub record RenewalRequest : Type 0 where
  pub required_scopes : ScopeRequirementInput
  pub manual : Bool
  pub credential_known_invalid : Bool
  pub observed_generation : Option ℕ
  pub renews : Bool
  pub renewal_safety_window_ms : ℕ

pub data Requested : Type 0 where
  decided : RenewalResult → Requested
  wait : ℕ → String → Requested
  ask : Asked → Requested

pub data Answered : Type 0 where
  result_of : RenewalResult → Answered
  issued : RenewalCandidate → Answered

abbrev is_other_generation : Option ℕ → ℕ → Bool
is_other_generation none generation = false
is_other_generation (some observed) generation = not (nat_eq generation observed)

-- No later than `at_`, where there is a time
abbrev is_past : ℕ → Option ℕ → Bool
is_past at_ none = false
is_past at_ (some expires) = leb expires at_

unfoldable pub is_fresh : RenewalRequest → ℕ → DecryptedCredentialGeneration → Bool
is_fresh q now g =
    not q.credential_known_invalid
    && is_some g.credential.active_credential
    && not (is_past (now + q.renewal_safety_window_ms) g.active_credential_expires_at)

unfoldable pub is_candidate_for : ℕ → CredentialGenerationRecord → Bool
unfolding state_eq
is_candidate_for generation r = state_eq r.state candidate && nat_eq r.generation generation

unfoldable pub renewal_failed :
    ConnectionPhase → LifecycleErrorCategory → ℕ → ConnectionRecord → ConnectionRecord
renewal_failed phase category now c = record c {
  phase = phase;
  lifecycle_error_category = some category;
  updated_at = now;
}

module _ (l : Lifecycle) (identity : Hop1Identity) where
  unfoldable pub persist_reauthorization_required :
      ConnectionRecord → LifecycleErrorCategory → Tx (Unit {0})
  unfolding renewal_failed
  persist_reauthorization_required c category =
      save_or_conflict (renewal_failed reauthorization_required category l.now c)
        (connection_write_guard (some c))

  abbrev pub reauthorize : ConnectionRecord → LifecycleErrorCategory → Tx Requested
  reauthorize c category = do
    persist_reauthorization_required c category
    pure (decided needs_reauthorization)

  abbrev supported : RenewalRequest → Bool
  supported q =
      q.renews
      && (if q.manual
          then l.adapter.capabilities.manual_renewal
          else l.adapter.capabilities.automatic_renewal)

  abbrev wait_or_ask : Asked → Option CredentialGenerationRecord → Requested
  wait_or_ask a none = ask a
  wait_or_ask a (some r) = wait a.current.generation r.id

  unfoldable pub request_issue :
      ConnectionRecord → DecryptedCredentialGeneration → Bool → Tx Requested
  unfolding is_candidate_for
  request_issue c g fresh = do
    kept ← generations l identity
    raise_if (any (λ (r : CredentialGenerationRecord). in_cleanup r.state) kept) generation_conflict
    pure (
        wait_or_ask (record { current = c; decrypted = g; fresh = fresh })
          (find (is_candidate_for (c.generation + 1)) kept))

  unfoldable pub request_opened :
      RenewalRequest → ConnectionRecord → DecryptedCredentialGeneration → Tx Requested
  unfolding is_fresh request_issue persist_reauthorization_required
  request_opened q c g =
      let fresh = is_fresh q l.now g in
      if not q.manual && fresh
      then pure (decided already_fresh)
      else if q.manual && fresh && not (truthy? g.credential.renewal_credential)
      then pure (decided refresh_not_supported)
      else if not (supported q)
      then (if not q.manual && not fresh
          then reauthorize c invalid_active_credential
          else pure (decided refresh_not_supported))
      else if is_past l.now g.renewal_credential_expires_at
      then reauthorize c renewal_expired
      else request_issue c g fresh

  unfoldable pub request_current : RenewalRequest → ConnectionRecord → Tx Requested
  unfolding request_opened persist_reauthorization_required
  request_current q c =
      if is_some c.local_disabled_at
      then pure (decided needs_reauthorization)
      else if not (scope_requirement_satisfied l.adapter c.granted_scopes q.required_scopes)
      then (if q.manual then reauthorize c insufficient_scope else raise insufficient_scope)
      else if is_other_generation q.observed_generation c.generation
      then pure (decided already_fresh)
      else (do g ← (λ store. (decrypt_generation l c, store)); request_opened q c g)

  abbrev request_found : RenewalRequest → Option ConnectionRecord → Tx Requested
  request_found q none = pure (decided needs_reauthorization)
  request_found q (some c) = request_current q c

  -- Until the provider is asked.
  unfoldable pub request_renewal : RenewalRequest → Tx Requested
  unfolding request_current
  request_renewal q = do current ← read l identity; request_found q current

  unfoldable pub renewed_custody :
      String → Asked → RenewedCredentialGeneration → CredentialGenerationRecord
  unfolding credential_custody_record
  renewed_custody id a renewed = credential_custody_record l id identity (record {
    provider = l.adapter.provider_id;
    generation = a.current.generation + 1;
    credential = renewed.credential;
    active_credential_expires_at = renewed.active_credential_expires_at;
    renewal_credential_expires_at = renewed.renewal_credential_expires_at;
    granted_scopes = or_default renewed.granted_scopes a.current.granted_scopes;
  })

  abbrev is_persistence_failure : LifecycleErrorCategory → Bool
  is_persistence_failure persistence_failure = true
  is_persistence_failure _ = false

  -- The provider's refusal is recorded on the connection.
  unfoldable pub renewal_refused : Asked → Option LifecycleErrorCategory → Tx Answered
  unfolding persist_reauthorization_required renewal_failed
  renewal_refused a none = λ store. (thrown none, store)
  renewal_refused a (some category) =
      if is_permanent_renewal_failure (some category)
      then (do
        persist_reauthorization_required a.current category
        pure (result_of needs_reauthorization))
      else if not a.fresh && not (is_persistence_failure category)
      then (do
        save_or_conflict (renewal_failed unavailable category l.now a.current)
            (connection_write_guard (some a.current))
        raise category)
      else raise category

  -- After the provider has answered. `id` is a fresh UUID.
  unfoldable pub record_answer : String → Asked → Outcome RenewedCredentialGeneration → Tx Answered
  unfolding renewed_custody renewal_refused
  record_answer id a (thrown category) = renewal_refused a category
  record_answer id a (returned renewed) = do
    let custody = renewed_custody id a renewed
    keep_generation custody
    pure (
        issued (record {
          current = a.current;
          decrypted = a.decrypted;
          renewed = renewed;
          custody = custody;
          fresh = a.fresh;
          validated_identity = none;
        }))
