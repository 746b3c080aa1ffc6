-- ===== src/Oauth/Store/Workers.antt =====
-- The workers that revoke credentials: one of them gets a generation, and the list they work from
-- holds what is due, the oldest first.
use mcp_gw.Common.{ℕ, true, false, some, ◌≡◌, ◌≢◌, refl, sym, ap, ◌⊎◌, inl, inr, arith, Bool-cases}
use mcp_gw.Common.Dict.{lookup, insert, lookup-insert_self}
use mcp_gw.Oauth.Types.{CredentialGenerationRecord, CredentialGenerationState}
use mcp_gw.Oauth.Store.{TokenStore}
use mcp_gw.Oauth.Store.Cleanup.{state_eq, state_rank, unexpected, update_credential_generation}

-- The transition leaves the state or the number of attempts that was expected.
abbrev pub Moves : CredentialGenerationRecord → CredentialGenerationState → ℕ → Type 0
Moves r expected attempts = (r.state ≢ expected) ⊎ (r.cleanup_attempts ≢ attempts)

eq_of_state_eq : (s t : CredentialGenerationState) → state_eq s t ≡ true → s ≡ t
unfolding state_eq state_rank
eq_of_state_eq s t h = ground arith

moved-unexpected :
    (r : CredentialGenerationRecord) (expected : CredentialGenerationState) (attempts : ℕ)
    → Moves r expected attempts
    → unexpected (some r) expected attempts ≡ true
unfolding unexpected
moved-unexpected r expected attempts (inl state) = elim (Bool-cases (state_eq r.state expected)) [
  | inl same ↦ elim (state (eq_of_state_eq r.state expected same)) [ ]
  | inr other ↦ ground arith
]
moved-unexpected r expected attempts (inr tries) = ground arith

update-accepted :
    (r : CredentialGenerationRecord) (expected : CredentialGenerationState) (attempts : ℕ)
    (store store' : TokenStore)
    → update_credential_generation r expected attempts store ≡ (true, store')
    → store' ≡ record store { credential_generations = insert r.id r store.credential_generations }
unfolding update_credential_generation
update-accepted r expected attempts store store' h =
    elim (Bool-cases (unexpected (lookup r.id store.credential_generations) expected attempts)) [
      | inl no_ ↦ let k : (false, store) ≡ (true, store') = rw no_ at h in cc (ap (λ p. p.0) k)
      | inr yes_ ↦
          let k : (
            true,
            record store { credential_generations = insert r.id r store.credential_generations },
          )
              ≡ (true, store') =
            rw yes_ at h in
          sym (ap (λ p. p.1) k)
    ]

-- When a transition that leaves the expected state, or counts an attempt, has been accepted, no
-- other transition of the same credential from that state and number of attempts is accepted, and
-- trying it changes nothing.
update_credential_generation_once :
    (r r' : CredentialGenerationRecord) (expected : CredentialGenerationState) (attempts : ℕ)
    (store store' : TokenStore)
    → update_credential_generation r expected attempts store ≡ (true, store')
    → Moves r expected attempts
    → r'.id ≡ r.id
    → update_credential_generation r' expected attempts store' ≡ (false, store')
unfolding update_credential_generation
update_credential_generation_once r r' expected attempts store store' h moves same =
    let e = update-accepted r expected attempts store store' h in
    rw
      (
        e,
        same,
        lookup-insert_self r.id r store.credential_generations,
        moved-unexpected r expected attempts moves,
      )
      refl
