-- ===== src/Policy/Yaml/Rules.antt =====
-- The rules of a YAML policy: the first that matches decides, and what a match means.
use mcp_gw.Common.{
  ℕ, ◌+◌, String, true, false, Option, none, some, List, [], ◌∷◌, ◌++◌, or_default, ◌≡◌, ◌≢◌, refl,
  ◌↔◌, ◌⊎◌, inl, inr, arith, ◌==◌, if◌then◌else◌, Option-cases, Bool-cases, eq_iff, false, ap,
}
use mcp_gw.Common.Lists.{All, Any, Has, every_iff, any_iff, includes_iff, length}
use mcp_gw.Common.Text.{◌<>◌, to_string}
use Prim.Native.String.{len}
use text.Mathlib.TextPositions.{len-append}
use mathlib.Core.List.{flat_map}
use mcp_gw.Policy.{ToolPolicyInput, PolicyDecision, ScopeGroup, ScopeRequirement, class_name}
use mcp_gw.Policy.Scopes.{
  YamlPolicyEffect, allow, deny, approval_required, YamlPolicyRule, YamlPolicyMatch, values, listed,
  matches_any, matches_scopes, compared_scopes, matches, matches_if, matches_rule, class_names,
  is_allow,
}
use mcp_gw.Policy.Yaml.{decision_for_effect, decide_rules, effect_name}

-- The list names the value, or is empty and so asks for nothing.
abbrev pub Names : List String → String → Type 0
Names allowed actual = (allowed ≡ []) ⊎ Has actual allowed

-- The list names one of the scopes that would do for one of the groups of a requirement.
abbrev pub TouchesRequired : Option ScopeRequirement → List String → List String → Type 0
TouchesRequired none scopes wanted = Any (λ s. Has s wanted) scopes
TouchesRequired (some required) scopes wanted =
    Any (λ (group : ScopeGroup). Any (λ s. Has s wanted) group.any_of) required.all_of

-- An allowing rule covers every scope of the call, which has some. Any other rule touches one of the
-- scopes that would do for what the call requires, or where the requirement is not known, one of the
-- scopes of the call.
abbrev pub ScopesMeet : YamlPolicyEffect → ToolPolicyInput → List String → Type 0
ScopesMeet allow input wanted = (input.scopes ≢ []) × All (λ s. Has s wanted) input.scopes
ScopesMeet deny input wanted = TouchesRequired input.scope_requirement input.scopes wanted
ScopesMeet approval_required input wanted =
    TouchesRequired input.scope_requirement input.scopes wanted

Any-append :
    {A : Type 0} (P : A → Type 0) (xs ys : List A) → Any P (xs ++ ys) ↔ (Any P xs ⊎ Any P ys)
Any-append P [] ys = ((λ h. inr h), λ h. elim h [ inl no_ ↦ elim no_ [ ] | inr later ↦ later ])
Any-append P (x ∷ xs) ys = ground (arith, Any-append P xs ys)

Any-flat_map :
    {A B : Type 0} (P : B → Type 0) (f : A → List B) (xs : List A)
    → Any P (flat_map f xs) ↔ Any (λ x. Any P (f x)) xs
unfolding flat_map
Any-flat_map P f [] = (λ h. h, λ h. h)
Any-flat_map P f (x ∷ xs) = ground (arith, Any-append P (f x) (flat_map f xs), Any-flat_map P f xs)

matches_any_iff :
    (actual : String) (allowed : List String)
    → (matches_any actual allowed ≡ true) ↔ Names allowed actual
unfolding matches_any
matches_any_iff actual [] = (λ _. inl refl, λ _. refl)
matches_any_iff actual (x ∷ xs) = ground (arith, includes_iff (x ∷ xs) actual)

touches_iff :
    (actual wanted : List String) (effect : YamlPolicyEffect)
    → is_allow effect ≡ false
    → (matches_scopes actual wanted effect ≡ true)
      ↔ ((wanted ≡ []) ⊎ Any (λ s. Has s wanted) actual)
unfolding matches_scopes
touches_iff actual [] effect e = (λ _. inl refl, λ _. refl)
touches_iff [] (w ∷ ws) effect e = ground arith
touches_iff (a ∷ as_) (w ∷ ws) effect e =
    rw e (ground (arith, any_iff (includes_iff (w ∷ ws)) (a ∷ as_)))

required_iff :
    (required : ScopeRequirement) (effect : YamlPolicyEffect) (wanted : List String)
    → is_allow effect ≡ false
    → (matches_scopes
          (flat_map (λ (group : ScopeGroup). group.any_of) required.all_of)
          wanted
          effect
        ≡ true)
      ↔ ((wanted ≡ []) ⊎ TouchesRequired (some required) [] wanted)
required_iff required effect wanted e = ground (
  arith,
  touches_iff (flat_map (λ (group : ScopeGroup). group.any_of) required.all_of) wanted effect e,
  Any-flat_map (λ s. Has s wanted) (λ (group : ScopeGroup). group.any_of) required.all_of,
)

covers_iff :
    (actual wanted : List String)
    → (matches_scopes actual wanted allow ≡ true)
      ↔ ((wanted ≡ []) ⊎ ((actual ≢ []) × All (λ s. Has s wanted) actual))
unfolding matches_scopes
covers_iff actual [] = (λ _. inl refl, λ _. refl)
covers_iff [] (w ∷ ws) = ground arith
covers_iff (a ∷ as_) (w ∷ ws) = ground (arith, every_iff (includes_iff (w ∷ ws)) (a ∷ as_))

matches_scopes_iff :
    (effect : YamlPolicyEffect) (input : ToolPolicyInput) (wanted : List String)
    → (matches_scopes (compared_scopes effect input) wanted effect ≡ true)
      ↔ ((wanted ≡ []) ⊎ ScopesMeet effect input wanted)
matches_scopes_iff allow input wanted = elim (Option-cases input.scope_requirement) [
  | inl unknown ↦ rw unknown (covers_iff input.scopes wanted)
  | inr (required, known) ↦ rw known (covers_iff input.scopes wanted)
]
matches_scopes_iff deny input wanted = elim (Option-cases input.scope_requirement) [
  | inl unknown ↦ rw unknown (touches_iff input.scopes wanted deny refl)
  | inr (required, known) ↦ rw known (required_iff required deny wanted refl)
]
matches_scopes_iff approval_required input wanted = elim (Option-cases input.scope_requirement) [
  | inl unknown ↦ rw unknown (touches_iff input.scopes wanted approval_required refl)
  | inr (required, known) ↦ rw known (required_iff required approval_required wanted refl)
]

-- What a match asks, field by field.
pub record Applies (effect : YamlPolicyEffect) (m : YamlPolicyMatch) (input : ToolPolicyInput)
    : Type 0 where
  pub principal : Names (values m.principal ++ listed m.principals) input.principal
  pub tool : Names (values m.tool ++ listed m.tools) input.tool
  pub service : Names (values m.service ++ listed m.services) input.service
  pub operation : Names (values m.operation ++ listed m.operations) (or_default input.operation "")
  pub action_class :
      Names
        (class_names (values m.action_class ++ listed m.action_classes))
        (class_name input.action_class)
  pub scopes :
      (values m.scope ++ listed m.scopes ≡ [])
      ⊎ ScopesMeet effect input (values m.scope ++ listed m.scopes)

-- A rule without a match applies to every call.
abbrev pub AppliesIf : YamlPolicyEffect → Option YamlPolicyMatch → ToolPolicyInput → Type 0
AppliesIf effect none input = Unit
AppliesIf effect (some m) input = Applies effect m input

matches_iff :
    (effect : YamlPolicyEffect) (m : YamlPolicyMatch) (input : ToolPolicyInput)
    → (matches effect m input ≡ true) ↔ Applies effect m input
unfolding matches
matches_iff effect m input = ground (
  arith,
  matches_any_iff input.principal (values m.principal ++ listed m.principals),
  matches_any_iff input.tool (values m.tool ++ listed m.tools),
  matches_any_iff input.service (values m.service ++ listed m.services),
  matches_any_iff (or_default input.operation "") (values m.operation ++ listed m.operations),
  matches_any_iff (class_name input.action_class)
      (class_names (values m.action_class ++ listed m.action_classes)),
  matches_scopes_iff effect input (values m.scope ++ listed m.scopes),
)

matches_if_iff :
    (effect : YamlPolicyEffect) (o : Option YamlPolicyMatch) (input : ToolPolicyInput)
    → (matches_if effect o input ≡ true) ↔ AppliesIf effect o input
unfolding matches_if
matches_if_iff effect none input = (λ _. tt, λ _. refl)
matches_if_iff effect (some m) input = matches_iff effect m input

-- A rule applies exactly if it has no match, or each field of its match names the call's value (or
-- asks for nothing). Of scopes, an allowing rule has to list all of the call, which has some; a rule
-- that restricts applies as soon as it lists one of the scopes that would do for what the call
-- requires, or where no requirement is known, one of the scopes of the call.
pub matches_rule_iff :
    (rule : YamlPolicyRule) (input : ToolPolicyInput)
    → (matches_rule rule input ≡ true) ↔ AppliesIf rule.effect rule.match input
unfolding matches_rule
matches_rule_iff rule input = matches_if_iff rule.effect rule.match input

-- The rule decides: it applies, and none of the `passed` rules ahead of it does.
pub record IsFirst (rules : List YamlPolicyRule) (input : ToolPolicyInput) (rule : YamlPolicyRule)
    (passed : List YamlPolicyRule) : Type 0 where
  pub later : List YamlPolicyRule
  pub split : rules ≡ passed ++ rule ∷ later
  pub skipped : All (λ r. matches_rule r input ≡ false) passed
  pub applies : AppliesIf rule.effect rule.match input

-- The identifier that a rule's decision names: its own, none if that is empty, and its position from
-- one if it has none.
abbrev pub rule_name : Option String → ℕ → Option String
rule_name none position = some ("yaml.rule." <> to_string position)
rule_name (some id) position = if id == "" then none else some id

-- What a rule of each effect decides.
abbrev pub verdict : YamlPolicyEffect → Option String → Option String → PolicyDecision
verdict allow reason id = PolicyDecision.allow
verdict deny reason id = PolicyDecision.deny (or_default reason "YAML policy deny") id
verdict approval_required reason id =
    PolicyDecision.approval_required (or_default reason "YAML policy approval_required") id

-- A prefix that is not empty
prefixed : (s : String) → (("yaml.rule." <> s) == "") ≡ false
prefixed s = elim (Bool-cases (("yaml.rule." <> s) == "")) [
  | inl empty ↦
      let k = ap len ((eq_iff ("yaml.rule." <> s) "").0 empty) in
      absurd (omega (arith, len-append "yaml.rule." s))
  | inr filled ↦ filled
]

named-verdict :
    (effect : YamlPolicyEffect) (reason id : Option String) (position : ℕ)
    → decision_for_effect effect reason (some (or_default id ("yaml.rule." <> to_string position)))
      ≡ verdict effect reason (rule_name id position)
unfolding decision_for_effect
named-verdict allow reason id position = refl
named-verdict deny reason none position = rw (prefixed (to_string position)) refl
named-verdict deny reason (some id) position = elim (Bool-cases (id == "")) [
  | inl empty ↦ rw empty refl
  | inr filled ↦ rw filled refl
]
named-verdict approval_required reason none position = rw (prefixed (to_string position)) refl
named-verdict approval_required reason (some id) position = elim (Bool-cases (id == "")) [
  | inl empty ↦ rw empty refl
  | inr filled ↦ rw filled refl
]

decide_rules-first :
    (passed : List YamlPolicyRule) (rule : YamlPolicyRule) (later : List YamlPolicyRule)
    (index position : ℕ) (effect : YamlPolicyEffect) (input : ToolPolicyInput)
    → position ≡ index + length passed + 1
    → All (λ r. matches_rule r input ≡ false) passed
    → matches_rule rule input ≡ true
    → decide_rules (passed ++ rule ∷ later) index effect input
      ≡ verdict rule.effect rule.reason (rule_name rule.id position)
unfolding decide_rules
decide_rules-first [] rule later index position effect input e h m =
    let here : index + 1 ≡ position = omega arith in
    rw (m, here) (named-verdict rule.effect rule.reason rule.id position)
decide_rules-first (p ∷ ps) rule later index position effect input e (h, hs) m =
    rw h (decide_rules-first ps rule later (index + 1) position effect input (omega arith) hs m)

-- The first rule that applies makes the decision: the call is allowed, denied or needs an approval as
-- the rule's effect says, for its reason (or one that names the effect), under its own identifier or
-- else its position; an identifier that is empty is left out.
pub decide_rules-IsFirst :
    (rules passed : List YamlPolicyRule) (rule : YamlPolicyRule) (effect : YamlPolicyEffect)
    (input : ToolPolicyInput)
    → IsFirst rules input rule passed
    → decide_rules rules 0 effect input
      ≡ verdict rule.effect rule.reason (rule_name rule.id (length passed + 1))
decide_rules-IsFirst rules passed rule effect input first = rw first.split (
    decide_rules-first passed rule first.later 0 _ effect input (omega arith) first.skipped
      ((matches_rule_iff rule input).1 first.applies))

-- Where no rule applies, the default effect decides.
decide_rules-default :
    (rules : List YamlPolicyRule) (index : ℕ) (effect : YamlPolicyEffect) (input : ToolPolicyInput)
    → All (λ r. matches_rule r input ≡ false) rules
    → decide_rules rules index effect input
      ≡ decision_for_effect effect
          (some ("YAML policy default " <> effect_name effect))
          (some "yaml.default")
unfolding decide_rules
decide_rules-default [] index effect input h = refl
decide_rules-default (r ∷ rs) index effect input (h, hs) =
    rw h (decide_rules-default rs (index + 1) effect input hs)
