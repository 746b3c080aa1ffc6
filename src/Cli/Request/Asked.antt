-- ===== src/Cli/Request/Asked.antt =====
-- What a request asks for and who makes it.
use mcp_gw.Common.{
  ℕ, String, Bool, true, false, not, ◌≤◌, Option, none, some, List, ◌≡◌, refl, sym, ap, ◌∙◌, inl,
  inr, arith, Bool-cases, Option-cases, eq_of_some-eq, ◌≢◌, [], ◌∷◌, ◌++◌, map, ltb, ◌==◌,
  if◌then◌else◌, eq_iff,
}
use mathlib.Core.Path.{subst}
use mcp_gw.Common.Lists.{any, Has, All, All-mono, any-eq-false, includes, includes_iff, length}
use mcp_gw.Json.{record?, string?, Json, Props, Elems, elems, str, arr, get, keys, obj, array?}
use mcp_gw.Task.{parse_task_tool_authorization}
use mcp_gw.Cli.Pack.{RequestLimits}
use mcp_gw.Cli.Request.{
  TaskIdentity, Refusal, Checked, passed, refused, ◌>>=◌, CliTarget, Authenticated,
  authenticate_task_request, authenticated_as, both, strings, asked_args, asked_of, with_fields,
  parse_body, find_target,
}

pub >>=-passed :
    {A B : Type 0} (step : Checked A) (next : A → Checked B) {b : B}
    → (step >>= next) ≡ passed b
    → (a : A) × (step ≡ passed a) × (next a ≡ passed b)
>>=-passed (refused r) next h = cc
>>=-passed (passed a) next h = (a, refl, h)

pub passed-injective : {A : Type 0} {a b : A} → passed a ≡ passed b → a ≡ b
passed-injective h = cc

pub refused-ne-passed : {A P : Type 0} {r : Refusal} {a : A} → refused r ≡ passed a → P
refused-ne-passed h = cc

-- Past a test that has to hold
pub chosen :
    {A : Type 0} (b : Bool) (m : Checked A) (r : Refusal) {a : A}
    → (if b then m else refused r) ≡ passed a
    → (b ≡ true) × (m ≡ passed a)
chosen true m r h = (refl, h)
chosen false m r h = refused-ne-passed h

-- Past a test that must not hold
pub let_through :
    {A : Type 0} (b : Bool) (m : Checked A) (r : Refusal) {a : A}
    → (if b then refused r else m) ≡ passed a
    → (b ≡ false) × (m ≡ passed a)
let_through true m r h = refused-ne-passed h
let_through false m r h = (refl, h)

-- The caller is the one that a token was verified for.
abbrev pub IsVerified : (String → Option TaskIdentity) → Option String → TaskIdentity → Type 0
IsVerified authenticate presented identity =
    (token : String) × (presented ≡ some token)
    × (token ≢ "")
    × (authenticate token ≡ some identity)

abbrev Known : Authenticated → TaskIdentity → Type 0
Known caller identity =
    (identity ≡ caller.identity)
    × (caller.authorization ≡ parse_task_tool_authorization caller.identity.claims false)

authenticated_as-Known :
    (o : Option TaskIdentity) (caller : Authenticated)
    → authenticated_as o ≡ passed caller
    → (identity : TaskIdentity) × (o ≡ some identity) × Known caller identity
authenticated_as-Known none caller h = refused-ne-passed h
authenticated_as-Known (some identity) caller h =
    (identity, refl, subst (λ c. Known c identity) (passed-injective h) (refl, refl))

pub authenticate_task_request-IsVerified :
    (authenticate : String → Option TaskIdentity) (token : Option String) (caller : Authenticated)
    → authenticate_task_request authenticate token ≡ passed caller
    → IsVerified authenticate token caller.identity
      × (caller.authorization ≡ parse_task_tool_authorization caller.identity.claims false)
unfolding authenticate_task_request
authenticate_task_request-IsVerified authenticate none caller h = refused-ne-passed h
authenticate_task_request-IsVerified authenticate (some token) caller h =
    let (there, done) = let_through (token == "") (authenticated_as (authenticate token)) _ h in
    let (identity, verified, (same, parsed)) =
      authenticated_as-Known (authenticate token) caller done in
    ((token, refl, ground (arith, eq_iff token ""), verified ∙ ap some same), parsed)

-- The target is the last of the list that has the name.
pub record IsNamed (cli : String) (target : CliTarget) (targets : List CliTarget) : Type 0 where
  pub earlier : List CliTarget
  pub later : List CliTarget
  pub split : targets ≡ earlier ++ target ∷ later
  pub name : target.cli ≡ cli
  pub last : All (λ t. t.cli ≢ cli) later

find_target-none :
    (cli : String) (targets : List CliTarget)
    → find_target cli targets ≡ none
    → All (λ t. t.cli ≢ cli) targets
unfolding find_target
find_target-none cli [] h = tt
find_target-none cli (t ∷ ts) h = elim (Option-cases (find_target cli ts)) [
  | inl absent ↦ elim (Bool-cases (t.cli == cli)) [
    | inl same ↦ let k : some t ≡ none = rw (absent, same) at h in cc
    | inr other ↦ (ground (arith, eq_iff t.cli cli), find_target-none cli ts absent)
  ]
  | inr (u, found) ↦ let k : some u ≡ none = rw found at h in cc
]

pub find_target-IsNamed :
    (cli : String) (target : CliTarget) (targets : List CliTarget)
    → find_target cli targets ≡ some target
    → IsNamed cli target targets
unfolding find_target
find_target-IsNamed cli target [] h = cc
find_target-IsNamed cli target (t ∷ ts) h = elim (Option-cases (find_target cli ts)) [
  | inl absent ↦ elim (Bool-cases (t.cli == cli)) [
    | inl same ↦
        let k : some t ≡ some target = rw (absent, same) at h in
        let e = eq_of_some-eq k in
        record {
          earlier = [];
          later = ts;
          split = ap (λ x. x ∷ ts) e;
          name = ap (λ (x : CliTarget). x.cli) (sym e) ∙ (eq_iff t.cli cli).0 same;
          last = find_target-none cli ts absent;
        }
    | inr other ↦ let k : none ≡ some target = rw (absent, other) at h in cc
  ]
  | inr (u, found) ↦
      let k : some u ≡ some target = rw found at h in
      let rest = find_target-IsNamed cli target ts (found ∙ k) in
      record {
        earlier = t ∷ rest.earlier;
        later = rest.later;
        split = ap (λ x. t ∷ x) rest.split;
        name = rest.name;
        last = rest.last;
      }
]

-- The body is an object of these two properties and no others.
pub record Asks (body : Json) (cli : String) (args : List String) : Type 0 where
  pub fields : Props
  pub is_object : body ≡ obj fields
  pub cli_of : get fields "cli" ≡ str cli
  pub items : Elems
  pub is_array : get fields "args" ≡ arr items
  pub args_of : elems items ≡ map str args
  pub only : All (λ key. Has key ("cli" ∷ "args" ∷ [])) (keys fields)

string?-eq : (value : Json) (text : String) → string? value ≡ some text → value ≡ str text
string?-eq (str s) text h = ap str (eq_of_some-eq h)
string?-eq _ text h = cc

both-eq :
    (text : Option String) (texts : Option (List String)) (args : List String)
    → both text texts ≡ some args
    → (x : String) × (xs : List String) × (text ≡ some x) × (texts ≡ some xs) × (x ∷ xs ≡ args)
both-eq (some x) (some xs) args h = (x, xs, refl, refl, eq_of_some-eq h)
both-eq none texts args h = cc
both-eq (some x) none args h = cc

strings-eq :
    (values : List Json) (args : List String) → strings values ≡ some args → values ≡ map str args
strings-eq [] args h = ap (map str) (eq_of_some-eq h)
strings-eq (value ∷ values) args h =
    let (x, xs, first, rest, made) = both-eq (string? value) (strings values) args h in
    let e : value ≡ str x = string?-eq value x first in
    let k : values ≡ map str xs = strings-eq values xs rest in rw (← made, e, k) refl

asked_args-eq :
    (value : Json) (args : List String)
    → asked_args (array? value) ≡ some args
    → (items : Elems) × (value ≡ arr items) × (elems items ≡ map str args)
asked_args-eq (arr items) args h = (items, refl, strings-eq (elems items) args h)
asked_args-eq _ args h = cc

asked_of-eq :
    (name : Option String) (texts : Option (List String)) (cli : String) (args : List String)
    → asked_of name texts ≡ passed (cli, args)
    → (name ≡ some cli) × (texts ≡ some args)
asked_of-eq (some c) (some as_) cli args h =
    let e = passed-injective h in
    (ap (λ (a : String × List String). some a.0) e, ap (λ (a : String × List String). some a.1) e)
asked_of-eq none texts cli args h = refused-ne-passed h
asked_of-eq (some c) none cli args h = refused-ne-passed h

with_fields-Asks :
    (body : Json) (cli : String) (args : List String)
    → with_fields (record? body) ≡ passed (cli, args)
    → Asks body cli args
with_fields-Asks (obj ps) cli args h =
    let (known, k) =
      let_through (any (λ key. not (includes ("cli" ∷ "args" ∷ []) key)) (keys ps)) _ _ h in
    let (c, a) =
      asked_of-eq (string? (get ps "cli")) (asked_args (array? (get ps "args"))) cli args k in
    let (items, is_array, args_of) = asked_args-eq (get ps "args") args a in
    record {
      fields = ps;
      is_object = refl;
      cli_of = string?-eq (get ps "cli") cli c;
      items = items;
      is_array = is_array;
      args_of = args_of;
      only =
          All-mono
            (λ key (e : not (includes ("cli" ∷ "args" ∷ []) key) ≡ false).
              (includes_iff ("cli" ∷ "args" ∷ []) key).0 (ground arith))
            (keys ps)
            (any-eq-false (λ key. not (includes ("cli" ∷ "args" ∷ []) key)) (keys ps) known);
    }
with_fields-Asks _ cli args h = refused-ne-passed h

-- The arguments are within the limits.
abbrev pub Within : RequestLimits → (String → ℕ) → List String → Type 0
Within limits byte_length args =
    (length args ≤ limits.max_args) × All (λ arg. byte_length arg ≤ limits.max_arg_bytes) args

pub parse_body-Within :
    (limits : RequestLimits) (byte_length : String → ℕ) (body : Json) (cli : String)
    (args : List String)
    → parse_body limits byte_length body ≡ passed (cli, args)
    → Asks body cli args × Within limits byte_length args
unfolding parse_body
parse_body-Within limits byte_length body cli args h =
    let ((cli', args'), fields, k) = >>=-passed (with_fields (record? body)) _ h in
    let (few, k') = let_through (ltb limits.max_args (length args')) _ _ k in
    let (short, done) =
      let_through (any (λ arg. ltb limits.max_arg_bytes (byte_length arg)) args') _ _ k' in
    subst (λ (a : String × List String). Asks body a.0 a.1 × Within limits byte_length a.1)
      (passed-injective done)
      (
        with_fields-Asks body cli' args' fields,
        (
          ground (arith, few),
          All-mono (λ arg l. ground (arith, l)) args'
              (any-eq-false (λ arg. ltb limits.max_arg_bytes (byte_length arg)) args' short),
        ),
      )
