-- ===== src/Json.antt =====
-- Values of type `unknown`: what a YAML or JSON parser, or a verified token, hands to the program.
-- `nat` is a number that is an integer of at least 0, and `number` any other number (negative,
-- fractional or not finite), known by a code alone. An object is its own properties in order.
use mcp_gw.Common.Errors.{Result, ok, ◌>>=◌, >>=-eq-ok, ok-injective}
use mcp_gw.Common.{
  ◌≡◌, ◌∙◌, ℕ, String, Bool, true, false, Option, none, some, List, [], ◌∷◌, ◌==◌, if◌then◌else◌,
}

mutual
  pub data Json : Type 0 where
    undefined null : Json
    bool : Bool → Json
    nat : ℕ → Json
    number : ℕ → Json
    str : String → Json
    obj : Props → Json
    arr : Elems → Json

  pub data Props : Type 0 where
    end : Props
    prop : String → Json → Props → Props

  pub data Elems : Type 0 where
    cons : Json → Elems → Elems
    nil : Elems

abbrev pub keys : Props → List String
keys end = []
keys (prop k v ps) = k ∷ keys ps

abbrev pub elems : Elems → List Json
elems (cons item items) = item ∷ elems items
elems nil = []

-- `o.key` of an object that has no property `key` but its own
abbrev pub get : Props → String → Json
get end key = undefined
get (prop k v ps) key = if k == key then v else get ps key

-- `typeof v === "object" && v !== null && !Array.isArray(v)`
abbrev pub record? : Json → Option Props
record? (obj ps) = some ps
record? _ = none

abbrev pub string? : Json → Option String
string? (str s) = some s
string? _ = none

abbrev pub array? : Json → Option (List Json)
array? (arr vs) = some (elems vs)
array? _ = none

abbrev pub is_undefined : Json → Bool
is_undefined undefined = true
is_undefined _ = false

-- A value that may be left out: `if (value === undefined) return undefined`, then `f`.
unfoldable pub optional {ℓ} : {A : Type ℓ} → Json → (Json → Result A) → Result (Option A)
optional undefined f = ok none
optional value f = do a ← f value; ok (some a)

-- What a successful reading of such a value has found.
abbrev pub Optionally {ℓ} : {A : Type ℓ} → (A → Type 0) → Option A → Type 0
Optionally P none = Unit
Optionally P (some a) = P a

bound-Optionally {ℓ} :
    {A : Type ℓ} (P : A → Type 0) (r : Result A) (o : Option A)
    → (r >>= λ a. ok (some a)) ≡ ok o
    → ((a : A) → r ≡ ok a → P a)
    → Optionally P o
bound-Optionally P r none h f = tt
bound-Optionally P r (some a) h f =
    let (b, found, same) = >>=-eq-ok r _ h in f a (found ∙ cc (ok-injective same))

pub optional-eq-ok {ℓ} :
    {A : Type ℓ} (P : A → Type 0) (value : Json) (f : Json → Result A) (o : Option A)
    → optional value f ≡ ok o
    → ((a : A) → f value ≡ ok a → P a)
    → Optionally P o
unfolding optional
optional-eq-ok P undefined f none h k = tt
optional-eq-ok P undefined f (some a) h k = cc (ok-injective h)
optional-eq-ok P value f o h k = bound-Optionally P (f value) o h k
