-- ===== src/Common/Lists.antt =====
-- Lists: the array methods `some`, `every`, `includes` and `find`, and the predicates that
-- say what they test.
use Prim.Native.Nat.{ℕ, suc}
use Prim.Native.String.{String}
use mathlib.Core.Path.{◌≡◌, refl}
use mathlib.Core.Path.{ap, ◌∙◌}
use mathlib.Core.Logic.{◌↔◌, ◌⊎◌, inl, inr}
use mathlib.Core.Bool.{Bool, true, false, ◌&&◌, ◌||◌, cond}
use mathlib.Core.Option.{Option, none, some}
use mathlib.Core.List.{List, [], ◌∷◌}
use native.Mathlib.Omega.{arith}
use text.Mathlib.Text.{◌==◌}
use text.Mathlib.TextEquality.{eq_iff}

module _ {ℓ} {A : Type ℓ} where
  abbrev pub length : List A → ℕ
  length [] = 0
  length (x ∷ xs) = suc (length xs)

  -- `xs.length === 0`
  abbrev pub is_empty : List A → Bool
  is_empty [] = true
  is_empty (x ∷ xs) = false

  -- `xs.some(p)`
  abbrev pub any : (A → Bool) → List A → Bool
  any p [] = false
  any p (x ∷ xs) = p x || any p xs

  -- `xs.every(p)`
  abbrev pub every : (A → Bool) → List A → Bool
  every p [] = true
  every p (x ∷ xs) = p x && every p xs

  -- `xs.find(p)`
  abbrev pub find : (A → Bool) → List A → Option A
  find p [] = none
  find p (x ∷ xs) = cond (p x) (some x) (find p xs)

  -- `xs.filter(p)`
  abbrev pub keep : (A → Bool) → List A → List A
  keep p [] = []
  keep p (x ∷ xs) = cond (p x) (x ∷ keep p xs) (keep p xs)

  abbrev pub All {κ} : (A → Type κ) → List A → Type κ
  All P [] = Unit
  All P (x ∷ xs) = P x × All P xs

  abbrev pub Any : (A → Type 0) → List A → Type 0
  Any P [] = ⊥
  Any P (x ∷ xs) = P x ⊎ Any P xs

  pub every_iff :
      {P : A → Type 0} {p : A → Bool} (h : (x : A) → (p x ≡ true) ↔ P x) (xs : List A)
      → (every p xs ≡ true) ↔ All P xs
  every_iff h [] = (λ _. tt, λ _. refl)
  every_iff h (x ∷ xs) = ground (arith, h x, every_iff h xs)

  pub any_iff :
      {P : A → Type 0} {p : A → Bool} (h : (x : A) → (p x ≡ true) ↔ P x) (xs : List A)
      → (any p xs ≡ true) ↔ Any P xs
  any_iff h [] = (λ e. cc, λ e. elim e [ ])
  any_iff h (x ∷ xs) = ground (arith, h x, any_iff h xs)

  pub any-eq-false : (p : A → Bool) (xs : List A) → any p xs ≡ false → All (λ x. p x ≡ false) xs
  any-eq-false p [] h = tt
  any-eq-false p (x ∷ xs) h = ground (arith, any-eq-false p xs)

  pub find-eq-none : (p : A → Bool) (xs : List A) → find p xs ≡ none → All (λ x. p x ≡ false) xs
  find-eq-none p [] h = tt
  find-eq-none p (x ∷ xs) h = ground (arith, find-eq-none p xs)

  pub All-intro {κ} : {P : A → Type κ} (f : (x : A) → P x) (xs : List A) → All P xs
  All-intro f [] = tt
  All-intro f (x ∷ xs) = (f x, All-intro f xs)

  pub All-zip {κ λ'} :
      (P : A → Type κ) (Q : A → Type λ') (xs : List A)
      → All P xs
      → All Q xs
      → All (λ x. P x × Q x) xs
  All-zip P Q [] h k = tt
  All-zip P Q (x ∷ xs) (p, h) (q, k) = ((p, q), All-zip P Q xs h k)

  pub All-mono {κ λ'} :
      {P : A → Type κ} {Q : A → Type λ'} (f : (x : A) → P x → Q x) (xs : List A)
      → All P xs
      → All Q xs
  All-mono f [] h = tt
  All-mono f (x ∷ xs) (p, h) = (f x p, All-mono f xs h)

module _ {A : Type 0} where
  -- The element is in the list.
  abbrev pub In : A → List A → Type 0
  In a xs = Any (λ x. x ≡ a) xs

  pub In-keep : (p : A → Bool) (a : A) (xs : List A) → p a ≡ true → In a xs → In a (keep p xs)
  In-keep p a [] h there = elim there [ ]
  In-keep p a (x ∷ xs) h (inl e) = rw (ap p e ∙ h) (inl e)
  In-keep p a (x ∷ xs) h (inr later) = ground (arith, In-keep p a xs h)

-- `xs.includes(a)`, and membership in a `Set` of texts
abbrev pub includes : List String → String → Bool
includes xs a = any (λ x. x == a) xs

-- The text is an element of the list.
abbrev pub Has : String → List String → Type 0
Has a xs = Any (λ x. x ≡ a) xs

pub includes_iff : (xs : List String) (a : String) → (includes xs a ≡ true) ↔ Has a xs
includes_iff xs a = any_iff (λ x. eq_iff x a) xs
