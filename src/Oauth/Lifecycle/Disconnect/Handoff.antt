-- ===== src/Oauth/Lifecycle/Disconnect/Handoff.antt =====
-- The loop that hands the credentials of a principal to the cleanup.
use mcp_gw.Common.{
  ℕ, String, true, false, Option, some, List, [], ◌∷◌, ◌==◌, ◌≡◌, refl, sym, ap, ◌∙◌, inl, inr,
  arith, nat_eq, Bool-cases, eq_of_some-eq,
}
use mathlib.Core.Bool.{cond}
use mathlib.Core.Path.{subst}
use mcp_gw.Common.Dict.{lookup, insert, entries, lookup-insert, lookup-insert_self}
use mcp_gw.Common.Dict.Keyed.{lookup-In}
use mcp_gw.Common.Lists.{In, In-keep}
use mcp_gw.Oauth.Types.{CredentialGenerationRecord, CredentialGenerationState}
use mcp_gw.Oauth.Store.{TokenStore}
use mcp_gw.Oauth.Store.Cleanup.{
  state_eq, unexpected, update_credential_generation, belongs_to,
  list_principal_credential_generations,
}
use mcp_gw.Oauth.Store.Keyed.{Keyed}
use mcp_gw.Oauth.Lifecycle.Disconnect.{is_live, handed_off, handoff}

nat_eq_refl : (n : ℕ) → nat_eq n n ≡ true
nat_eq_refl n = ground arith

abbrev generation_at : String → TokenStore → Option CredentialGenerationRecord
generation_at id s = lookup id s.credential_generations

-- A credential that is live after one of the moves was so before, and is not the one that moved.
module _ (now : ℕ) (id : String) (r : CredentialGenerationRecord) where
  moved-live :
      (m : CredentialGenerationRecord) (s : TokenStore)
      → generation_at id
          (update_credential_generation (handed_off now m) m.state m.cleanup_attempts s).1
        ≡ some r
      → is_live r.state ≡ true
      → generation_at id s ≡ some r
  unfolding update_credential_generation
  moved-live m s h l =
      elim (Bool-cases (unexpected (generation_at m.id s) m.state m.cleanup_attempts)) [
        | inl no_ ↦ let e : generation_at id s ≡ some r = rw no_ at h in e
        | inr yes_ ↦
            let e : lookup id (insert m.id (handed_off now m) s.credential_generations) ≡ some r =
              rw yes_ at h in
            let f : cond (m.id == id) (some (handed_off now m)) (generation_at id s) ≡ some r =
              rw (lookup-insert m.id id (handed_off now m) s.credential_generations) at e in
            elim (Bool-cases (m.id == id)) [
              | inl same ↦
                  let g : some (handed_off now m) ≡ some r = rw same at f in
                  let dead : is_live r.state ≡ false =
                    ap (λ (x : CredentialGenerationRecord). is_live x.state)
                      (sym (eq_of_some-eq g)) in
                  cc
              | inr other ↦ let g : generation_at id s ≡ some r = rw other at f in g
            ]
      ]

  handoff-live :
      (ms : List CredentialGenerationRecord) (s : TokenStore)
      → generation_at id (handoff now ms s).1 ≡ some r
      → is_live r.state ≡ true
      → generation_at id s ≡ some r
  unfolding handoff
  handoff-live [] s h l = h
  handoff-live (m ∷ ms) s h l = elim (Bool-cases (is_live m.state)) [
    | inl live ↦
        let moved = update_credential_generation (handed_off now m) m.state m.cleanup_attempts s in
        let e : generation_at id (handoff now ms moved.1).1 ≡ some r = rw live at h in
        moved-live m s (handoff-live ms moved.1 e l) l
    | inr dead ↦
        let e : generation_at id (handoff now ms s).1 ≡ some r = rw dead at h in
        handoff-live ms s e l
  ]

state_eq_refl : (s : CredentialGenerationState) → state_eq s s ≡ true
unfolding state_eq
state_eq_refl s = ground arith

-- A credential that is live and stands as it is in the store is moved.
moved-dead :
    (now : ℕ) (r : CredentialGenerationRecord) (s : TokenStore)
    → generation_at r.id s ≡ some r
    → generation_at r.id
        (update_credential_generation (handed_off now r) r.state r.cleanup_attempts s).1
      ≡ some (handed_off now r)
unfolding update_credential_generation unexpected
moved-dead now r s h =
    rw (h, state_eq_refl r.state, nat_eq_refl r.cleanup_attempts)
      (lookup-insert_self r.id (handed_off now r) s.credential_generations)

handoff-head :
    (now : ℕ) (r : CredentialGenerationRecord) (ms : List CredentialGenerationRecord)
    (s : TokenStore)
    → generation_at r.id (handoff now (r ∷ ms) s).1 ≡ some r
    → is_live r.state ≡ false
unfolding handoff
handoff-head now r ms s h = elim (Bool-cases (is_live r.state)) [
  | inr dead ↦ dead
  | inl live ↦
      let moved = update_credential_generation (handed_off now r) r.state r.cleanup_attempts s in
      let before = handoff-live now r.id r (r ∷ ms) s h live in
      let e : generation_at r.id (handoff now ms moved.1).1 ≡ some r = rw live at h in
      let f = handoff-live now r.id r ms moved.1 e live in
      let g : some (handed_off now r) ≡ some r = sym (moved-dead now r s before) ∙ f in
      ap (λ (x : CredentialGenerationRecord). is_live x.state) (sym (eq_of_some-eq g))
]

handoff-In :
    (now : ℕ) (r : CredentialGenerationRecord) (ms : List CredentialGenerationRecord)
    (s : TokenStore)
    → In r ms
    → generation_at r.id (handoff now ms s).1 ≡ some r
    → is_live r.state ≡ false
unfolding handoff
handoff-In now r [] s there h = elim there [ ]
handoff-In now r (m ∷ ms) s (inl e) h =
    handoff-head now r ms s
      (subst (λ x. generation_at r.id (handoff now (x ∷ ms) s).1 ≡ some r) e h)
handoff-In now r (m ∷ ms) s (inr later) h = elim (Bool-cases (is_live m.state)) [
  | inl live ↦
      let moved = update_credential_generation (handed_off now m) m.state m.cleanup_attempts s in
      let e : generation_at r.id (handoff now ms moved.1).1 ≡ some r = rw live at h in
      handoff-In now r ms moved.1 later e
  | inr dead ↦
      let e : generation_at r.id (handoff now ms s).1 ≡ some r = rw dead at h in
      handoff-In now r ms s later e
]

-- The hand-off changes credentials only.
abbrev pub SameButGenerations : TokenStore → TokenStore → Type 0
SameButGenerations s t =
    (s.connections ≡ t.connections)
    × ((s.accounts ≡ t.accounts) × (s.authorizations ≡ t.authorizations))

update-SameButGenerations :
    (r : CredentialGenerationRecord) (expected : CredentialGenerationState) (attempts : ℕ)
    (s : TokenStore)
    → SameButGenerations (update_credential_generation r expected attempts s).1 s
unfolding update_credential_generation
update-SameButGenerations r expected attempts s =
    elim (Bool-cases (unexpected (generation_at r.id s) expected attempts)) [
      | inl no_ ↦ rw no_ (refl, (refl, refl))
      | inr yes_ ↦ rw yes_ (refl, (refl, refl))
    ]

pub handoff-SameButGenerations :
    (now : ℕ) (ms : List CredentialGenerationRecord) (s : TokenStore)
    → SameButGenerations (handoff now ms s).1 s
unfolding handoff
handoff-SameButGenerations now [] s = (refl, (refl, refl))
handoff-SameButGenerations now (m ∷ ms) s = elim (Bool-cases (is_live m.state)) [
  | inl live ↦
      let moved = update_credential_generation (handed_off now m) m.state m.cleanup_attempts s in
      let (c, (a, u)) = handoff-SameButGenerations now ms moved.1 in
      let (c', (a', u')) =
        update-SameButGenerations (handed_off now m) m.state m.cleanup_attempts s in
      rw live (c ∙ c', (a ∙ a', u ∙ u'))
  | inr dead ↦ rw dead (handoff-SameButGenerations now ms s)
]

-- No credential of the principal is live.
abbrev pub NoneIsLive : String → String → String → TokenStore → Type 0
NoneIsLive provider issuer subject s =
    (id : String) (r : CredentialGenerationRecord)
    → lookup id s.credential_generations ≡ some r
    → belongs_to provider issuer subject r ≡ true
    → is_live r.state ≡ false

pub handoff-NoneIsLive :
    (now : ℕ) (provider issuer subject : String) (s : TokenStore)
    → Keyed s
    → NoneIsLive provider issuer subject
        (handoff now (list_principal_credential_generations provider issuer subject s) s).1
unfolding list_principal_credential_generations
handoff-NoneIsLive now provider issuer subject s (k, (l, g)) id r h mine =
    elim (Bool-cases (is_live r.state)) [
      | inr dead ↦ dead
      | inl live ↦
          let listed = list_principal_credential_generations provider issuer subject s in
          let before = handoff-live now id r listed s h live in
          let there =
            In-keep (belongs_to provider issuer subject) r (entries s.credential_generations) mine
              (lookup-In id r s.credential_generations before) in
          let h' : generation_at r.id (handoff now listed s).1 ≡ some r =
            subst (λ x. generation_at x (handoff now listed s).1 ≡ some r) (sym (g id r before))
              h in
          handoff-In now r listed s there h'
    ]
