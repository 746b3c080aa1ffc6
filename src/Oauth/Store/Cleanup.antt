-- ===== src/Oauth/Store/Cleanup.antt =====
-- shared/oauth/memory-store.ts: InMemoryOAuthTokenStore, the credentials that wait to be revoked at
-- the provider. `sort` is stable, as the language demands of it.
use mcp_gw.Common.{
  ℕ, zero, suc, ◌+◌, ◌*◌, String, Bool, true, false, not, ◌&&◌, ◌||◌, Option, none, some, List, [],
  ◌∷◌, is_some, truthy?, leb, nat_eq, ◌==◌, if◌then◌else◌,
}
use mcp_gw.Common.Dict.{lookup, insert, remove, entries}
use mcp_gw.Common.Lists.{keep}
use mcp_gw.Oauth.Types.{
  RevocationState, CredentialGenerationState, candidate, active, cleanup_pending, cleanup_complete,
  cleanup_permanent_failure, retired, ConnectionRecord, CredentialGenerationRecord,
  PendingCredentialCleanupRecord,
}
use mcp_gw.Oauth.Store.{TokenStore}

module _ {A : Type 0} (key : A → ℕ) where
  -- Before the first entry with a greater key.
  unfoldable pub place : A → List A → List A
  place a [] = a ∷ []
  place a (b ∷ bs) = if leb (key a) (key b) then a ∷ b ∷ bs else b ∷ place a bs

  unfoldable pub sort_by : List A → List A
  unfolding place
  sort_by [] = []
  sort_by (a ∷ as_) = place a (sort_by as_)

-- `slice(0, limit)`
unfoldable pub first_of : {A : Type 0} → ℕ → List A → List A
first_of limit [] = []
first_of zero (a ∷ as_) = []
first_of (suc limit) (a ∷ as_) = a ∷ first_of limit as_

abbrev pub is_pending : RevocationState → Bool
is_pending RevocationState.pending = true
is_pending _ = false

unfoldable pub awaits_revocation : String → ConnectionRecord → Bool
awaits_revocation provider c =
    c.provider == provider
    && is_pending c.revocation_state
    && not (truthy? c.credential_generation_id)

unfoldable pub list_connections_pending_revocation : String → ℕ → TokenStore → List ConnectionRecord
unfolding awaits_revocation sort_by first_of
list_connections_pending_revocation provider limit store = first_of limit (
    sort_by (λ (c : ConnectionRecord). c.updated_at)
      (keep (awaits_revocation provider) (entries store.connections)))

unfoldable pub save_pending_credential_cleanup :
    PendingCredentialCleanupRecord → TokenStore → TokenStore
save_pending_credential_cleanup r store = record store {
  pending_credential_cleanups = insert r.id r store.pending_credential_cleanups;
}

unfoldable pub list_pending_credential_cleanups :
    String → ℕ → TokenStore → List PendingCredentialCleanupRecord
unfolding sort_by first_of
list_pending_credential_cleanups provider limit store = first_of limit (
    sort_by (λ (r : PendingCredentialCleanupRecord). r.updated_at)
      (keep (λ (r : PendingCredentialCleanupRecord). r.provider == provider)
        (entries store.pending_credential_cleanups)))

unfoldable pub delete_pending_credential_cleanup : String → TokenStore → TokenStore
delete_pending_credential_cleanup id store = record store {
  pending_credential_cleanups = remove id store.pending_credential_cleanups;
}

unfoldable pub save_credential_generation : CredentialGenerationRecord → TokenStore → TokenStore
save_credential_generation r store =
    if is_some (lookup r.id store.credential_generations)
    then store
    else record store { credential_generations = insert r.id r store.credential_generations }

unfoldable pub state_rank : CredentialGenerationState → ℕ
state_rank candidate = 0
state_rank active = 1
state_rank cleanup_pending = 2
state_rank cleanup_complete = 3
state_rank cleanup_permanent_failure = 4
state_rank retired = 5

-- `===` on states
unfoldable pub state_eq : CredentialGenerationState → CredentialGenerationState → Bool
unfolding state_rank
state_eq s t = nat_eq (state_rank s) (state_rank t)

unfoldable pub unexpected : Option CredentialGenerationRecord → CredentialGenerationState → ℕ → Bool
unfolding state_eq
unexpected none expected attempts = true
unexpected (some current) expected attempts =
    not (state_eq current.state expected) || not (nat_eq current.cleanup_attempts attempts)

-- A compare-and-set on the state and the number of attempts.
unfoldable pub update_credential_generation :
    CredentialGenerationRecord → CredentialGenerationState → ℕ → TokenStore → Bool × TokenStore
unfolding unexpected
update_credential_generation r expected attempts store =
    if unexpected (lookup r.id store.credential_generations) expected attempts
    then (false, store)
    else (
      true,
      record store { credential_generations = insert r.id r store.credential_generations },
    )

unfoldable pub belongs_to : String → String → String → CredentialGenerationRecord → Bool
belongs_to provider issuer subject r =
    r.provider == provider && r.hop1_issuer == issuer && r.hop1_subject == subject

unfoldable pub list_principal_credential_generations :
    String → String → String → TokenStore → List CredentialGenerationRecord
unfolding belongs_to
list_principal_credential_generations provider issuer subject store =
    keep (belongs_to provider issuer subject) (entries store.credential_generations)

-- No attempt is planned for later than now.
abbrev pub retry_is_due : ℕ → Option ℕ → Bool
retry_is_due now none = true
retry_is_due now (some at_) = leb at_ now

-- A candidate that nobody activated is given up after ten minutes. (`now` is past the first ten
-- minutes of the epoch, so the source's subtraction is compared on the other side.)
unfoldable pub is_due : ℕ → CredentialGenerationRecord → Bool
unfolding state_eq
is_due now r =
    state_eq r.state cleanup_pending && retry_is_due now r.next_cleanup_attempt_at
    || state_eq r.state candidate && leb (r.updated_at + 10 * 60 * 1000) now

unfoldable pub list_credential_generations_for_cleanup :
    String → ℕ → ℕ → TokenStore → List CredentialGenerationRecord
unfolding is_due sort_by first_of
list_credential_generations_for_cleanup provider limit now store = first_of limit (
    sort_by (λ (r : CredentialGenerationRecord). r.updated_at)
      (keep (λ (r : CredentialGenerationRecord). r.provider == provider && is_due now r)
        (entries store.credential_generations)))
