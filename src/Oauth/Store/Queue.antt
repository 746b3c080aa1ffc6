-- ===== src/Oauth/Store/Queue.antt =====
-- What the workers that revoke credentials are given: the entries that are due, the oldest first.
use mcp_gw.Common.{
  ℕ, zero, suc, String, Bool, true, ◌&&◌, ◌≤◌, List, [], ◌∷◌, leb, ◌==◌, ◌≡◌, refl, sym, ap, ◌⊎◌,
  inl, inr, arith, Bool-cases,
}
use mcp_gw.Common.Dict.{entries}
use mcp_gw.Common.Lists.{keep, All, In, In-keep, All-mono, length}
use mcp_gw.Oauth.Types.{CredentialGenerationRecord}
use mcp_gw.Oauth.Store.{TokenStore}
use mcp_gw.Oauth.Store.Cleanup.{
  place, sort_by, first_of, is_due, list_credential_generations_for_cleanup,
}

module _ {A : Type 0} where
  All-keep : (p : A → Bool) (xs : List A) → All (λ x. p x ≡ true) (keep p xs)
  All-keep p [] = tt
  All-keep p (x ∷ xs) = elim (Bool-cases (p x)) [
    | inl yes_ ↦ rw yes_ (yes_, All-keep p xs)
    | inr no_ ↦ rw no_ (All-keep p xs)
  ]

module _ {A : Type 0} (key : A → ℕ) where
  -- Every entry comes no later than those after it.
  abbrev pub Ordered : List A → Type 0
  Ordered [] = Unit
  Ordered (a ∷ as_) = All (λ b. key a ≤ key b) as_ × Ordered as_

  module _ (P : A → Type 0) where
    All-place : (a : A) (as_ : List A) → P a → All P as_ → All P (place key a as_)
    unfolding place
    All-place a [] p ps = (p, tt)
    All-place a (b ∷ bs) p (q, ps) = elim (Bool-cases (leb (key a) (key b))) [
      | inl yes_ ↦ rw yes_ (p, (q, ps))
      | inr no_ ↦ rw no_ (q, All-place a bs p ps)
    ]

    All-sort_by : (as_ : List A) → All P as_ → All P (sort_by key as_)
    unfolding sort_by
    All-sort_by [] ps = tt
    All-sort_by (a ∷ as_) (p, ps) = All-place a (sort_by key as_) p (All-sort_by as_ ps)

    All-first_of : (n : ℕ) (as_ : List A) → All P as_ → All P (first_of n as_)
    unfolding first_of
    All-first_of n [] ps = tt
    All-first_of zero (a ∷ as_) ps = tt
    All-first_of (suc n) (a ∷ as_) (p, ps) = (p, All-first_of n as_ ps)

  Ordered-place : (a : A) (as_ : List A) → Ordered as_ → Ordered (place key a as_)
  unfolding place
  Ordered-place a [] o = (tt, tt)
  Ordered-place a (b ∷ bs) (least, o) = elim (Bool-cases (leb (key a) (key b))) [
    | inl yes_ ↦
        let le : key a ≤ key b = ground arith in
        rw yes_ ((le, All-mono (λ c later. omega arith) bs least), (least, o))
    | inr no_ ↦
        let le : key b ≤ key a = ground arith in
        rw no_ (All-place (λ c. key b ≤ key c) a bs le least, Ordered-place a bs o)
  ]

  Ordered-sort_by : (as_ : List A) → Ordered (sort_by key as_)
  unfolding sort_by
  Ordered-sort_by [] = tt
  Ordered-sort_by (a ∷ as_) = Ordered-place a (sort_by key as_) (Ordered-sort_by as_)

  Ordered-first_of : (n : ℕ) (as_ : List A) → Ordered as_ → Ordered (first_of n as_)
  unfolding first_of
  Ordered-first_of n [] o = tt
  Ordered-first_of zero (a ∷ as_) o = tt
  Ordered-first_of (suc n) (a ∷ as_) (least, o) =
      (All-first_of (λ b. key a ≤ key b) n as_ least, Ordered-first_of n as_ o)

  length-first_of : (n : ℕ) (as_ : List A) → length (first_of n as_) ≤ n
  unfolding first_of
  length-first_of n [] = ground arith
  length-first_of zero (a ∷ as_) = ground arith
  length-first_of (suc n) (a ∷ as_) = ground (arith, length-first_of n as_)

  In-place_new : (a : A) (as_ : List A) → In a (place key a as_)
  unfolding place
  In-place_new a [] = inl refl
  In-place_new a (b ∷ bs) = elim (Bool-cases (leb (key a) (key b))) [
    | inl yes_ ↦ rw yes_ (inl refl)
    | inr no_ ↦ rw no_ (inr (In-place_new a bs))
  ]

  In-place : (a x : A) (as_ : List A) → In x as_ → In x (place key a as_)
  unfolding place
  In-place a x [] there = elim there [ ]
  In-place a x (b ∷ bs) there = elim (Bool-cases (leb (key a) (key b))) [
    | inl yes_ ↦ rw yes_ (inr there)
    | inr no_ ↦ rw no_ (elim there [ inl e ↦ inl e | inr later ↦ inr (In-place a x bs later) ])
  ]

  In-sort_by : (x : A) (as_ : List A) → In x as_ → In x (sort_by key as_)
  unfolding sort_by
  In-sort_by x [] there = elim there [ ]
  In-sort_by x (a ∷ as_) (inl e) = rw (sym e) (In-place_new a (sort_by key as_))
  In-sort_by x (a ∷ as_) (inr later) = In-place a x (sort_by key as_) (In-sort_by x as_ later)

  All-In : (P : A → Type 0) (x : A) (as_ : List A) → All P as_ → In x as_ → P x
  All-In P x [] ps there = elim there [ ]
  All-In P x (a ∷ as_) (p, ps) (inl e) = rw (sym e) p
  All-In P x (a ∷ as_) (p, ps) (inr later) = All-In P x as_ ps later

  -- What is left out comes after a full list.
  In-first_of :
      (n : ℕ) (x : A) (as_ : List A)
      → Ordered as_
      → In x as_
      → In x (first_of n as_)
        ⊎ ((length (first_of n as_) ≡ n) × All (λ a. key a ≤ key x) (first_of n as_))
  unfolding first_of
  In-first_of zero x [] o there = elim there [ ]
  In-first_of (suc n) x [] o there = elim there [ ]
  In-first_of zero x (a ∷ as_) o there = inr (refl, tt)
  In-first_of (suc n) x (a ∷ as_) (least, o) (inl e) = inl (inl e)
  In-first_of (suc n) x (a ∷ as_) (least, o) (inr later) = elim (In-first_of n x as_ o later) [
    | inl listed ↦ inl (inr listed)
    | inr (full, before) ↦
        inr (ap suc full, (All-In (λ b. key a ≤ key b) x as_ least later, before))
  ]

abbrev pub time_of : CredentialGenerationRecord → ℕ
time_of r = r.updated_at

abbrev pub due_for : String → ℕ → CredentialGenerationRecord → Bool
due_for provider now r = r.provider == provider && is_due now r

-- What a worker is given: due entries of the provider, the oldest first, as many as it asked for.
pub record IsQueue (provider : String) (limit now : ℕ) (listed : List CredentialGenerationRecord)
    : Type 0 where
  pub due : All (λ r. due_for provider now r ≡ true) listed
  pub oldest_first : Ordered time_of listed
  pub bounded : length listed ≤ limit

-- The worker's list holds credentials of the provider that are due only, the oldest first, and no
-- more than it asked for.
list_credential_generations-IsQueue :
    (provider : String) (limit now : ℕ) (store : TokenStore)
    → IsQueue provider limit now (list_credential_generations_for_cleanup provider limit now store)
unfolding list_credential_generations_for_cleanup
list_credential_generations-IsQueue provider limit now store =
    let due = keep (due_for provider now) (entries store.credential_generations) in
    let sorted = sort_by time_of due in
    let Due : CredentialGenerationRecord → Type 0 = λ r. due_for provider now r ≡ true in
    record {
      due =
          All-first_of time_of Due limit sorted
            (All-sort_by time_of Due due (All-keep (due_for provider now) _));
      oldest_first = Ordered-first_of time_of limit sorted (Ordered-sort_by time_of due);
      bounded = length-first_of time_of limit sorted;
    }

-- A stored credential of the provider that is due is in the worker's list, or the list is full and
-- everything in it was changed no later.
pub list_credential_generations_complete :
    (provider : String) (limit now : ℕ) (store : TokenStore) (r : CredentialGenerationRecord)
    → In r (entries store.credential_generations)
    → due_for provider now r ≡ true
    → let listed = list_credential_generations_for_cleanup provider limit now store in
      In r listed ⊎ ((length listed ≡ limit) × All (λ s. s.updated_at ≤ r.updated_at) listed)
unfolding list_credential_generations_for_cleanup
list_credential_generations_complete provider limit now store r stored due =
    let kept = keep (due_for provider now) (entries store.credential_generations) in
    In-first_of time_of limit r (sort_by time_of kept) (Ordered-sort_by time_of kept)
      (In-sort_by time_of r kept (In-keep (due_for provider now) r _ due stored))
