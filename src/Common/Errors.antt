-- ===== src/Common/Errors.antt =====
-- Errors as values: `throw new Error(message)` is `err message`, and a promise that is rejected is
-- the same.
use Prim.Native.String.{String}
use mathlib.Core.Path.{◌≡◌, refl}
use mathlib.Core.Bool.{Bool, true, false}
use mathlib.Core.Logic.{◌⊎◌, inl, inr}
use mcp_gw.Common.{if◌then◌else◌}

pub data Result {ℓ} (A : Type ℓ) : Type ℓ where
  ok : A → Result A
  err : String → Result A

-- `if (!test) throw new Error(message)`
abbrev pub require : Bool → String → Result (Unit {0})
require true e = ok tt
require false e = err e

infixl 5 ◌>>=◌ ◌>>◌
-- A step that may fail, and what follows it.
abbrev pub ◌>>=◌ {κ ℓ} :
    {From : Type κ} {To : Type ℓ} → Result From → (From → Result To) → Result To
err message >>= next = err message
ok value >>= next = next value

abbrev pub ◌>>◌ {ℓ} : {To : Type ℓ} → Result (Unit {0}) → Result To → Result To
check >> result = check >>= λ passed. result

-- A chain succeeds only if its first step does.
pub >>=-eq-ok {κ ℓ} :
    {From : Type κ} {To : Type ℓ} (step : Result From) (next : From → Result To) {result : To}
    → (step >>= next) ≡ ok result
    → (value : From) × (step ≡ ok value) × (next value ≡ ok result)
>>=-eq-ok (err message) next e = cc
>>=-eq-ok (ok value) next e = (value, refl, e)

pub ok-injective {ℓ} : {A : Type ℓ} {a b : A} → ok a ≡ ok b → a ≡ b
ok-injective h = cc

-- A test that fails when it holds: `if (b) throw new Error(message)`.
pub if-eq-ok {ℓ} :
    {A : Type ℓ} (b : Bool) (message : String) (r : Result A) {a : A}
    → (if b then err message else r) ≡ ok a
    → (b ≡ false) × (r ≡ ok a)
if-eq-ok true message r h = cc
if-eq-ok false message r h = (refl, h)

pub if-cases {ℓ} :
    {A : Type ℓ} (b : Bool) (r s : Result A) {a : A}
    → (if b then r else s) ≡ ok a
    → ((b ≡ true) × (r ≡ ok a)) ⊎ ((b ≡ false) × (s ≡ ok a))
if-cases true r s h = inl (refl, h)
if-cases false r s h = inr (refl, h)
