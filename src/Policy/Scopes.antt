-- ===== src/Policy/Scopes.antt =====
-- shared/policy/policy.ts: the tests by which a rule of a YAML policy applies to a call.
use mcp_gw.Common.{
  String, Bool, true, false, ◌&&◌, ◌||◌, Option, none, some, List, [], ◌∷◌, ◌++◌, map, or_default,
  if◌then◌else◌,
}
use mcp_gw.Common.Lists.{is_empty, any, every, includes}
use mathlib.Core.List.{flat_map}
use mcp_gw.Policy.{ToolPolicyInput, ScopeGroup, class_name, ActionClass}

pub data YamlPolicyEffect : Type 0 where
  allow deny approval_required : YamlPolicyEffect

-- `T | T[]`
pub data OneOrMany (A : Type 0) : Type 0 where
  one : A → OneOrMany A
  many : List A → OneOrMany A

pub record YamlPolicyMatch : Type 0 where
  pub principal : Option (OneOrMany String)
  pub principals : Option (List String)
  pub tool : Option (OneOrMany String)
  pub tools : Option (List String)
  pub service : Option (OneOrMany String)
  pub services : Option (List String)
  pub operation : Option (OneOrMany String)
  pub operations : Option (List String)
  pub action_class : Option (OneOrMany ActionClass)
  pub action_classes : Option (List ActionClass)
  pub scope : Option (OneOrMany String)
  pub scopes : Option (List String)

pub record YamlPolicyRule : Type 0 where
  pub id : Option String
  pub effect : YamlPolicyEffect
  pub reason : Option String
  pub match : Option YamlPolicyMatch

-- `values` at `T | T[] | undefined`, and at `T[] | undefined`
abbrev pub values : {A : Type 0} → Option (OneOrMany A) → List A
values none = []
values (some (one a)) = a ∷ []
values (some (many as_list)) = as_list

abbrev pub listed : {A : Type 0} → Option (List A) → List A
listed none = []
listed (some xs) = xs

abbrev pub is_allow : YamlPolicyEffect → Bool
is_allow allow = true
is_allow _ = false

unfoldable pub matches_any : String → List String → Bool
matches_any actual allowed = is_empty allowed || includes allowed actual

unfoldable pub matches_scopes : List String → List String → YamlPolicyEffect → Bool
matches_scopes actual matched effect =
    if is_empty matched
    then true
    else if is_empty actual
    then false
    else if is_allow effect
    then every (includes matched) actual
    else any (includes matched) actual

-- The scopes that a rule is compared with.
abbrev pub compared_scopes : YamlPolicyEffect → ToolPolicyInput → List String
compared_scopes effect input = elim input.scope_requirement [
  | none ↦ input.scopes
  | some required ↦
      if is_allow effect
      then input.scopes
      else flat_map (λ (group : ScopeGroup). group.any_of) required.all_of
]

abbrev pub class_names : List ActionClass → List String
class_names = map class_name

unfoldable pub matches : YamlPolicyEffect → YamlPolicyMatch → ToolPolicyInput → Bool
matches effect m input =
    matches_any input.principal (values m.principal ++ listed m.principals)
    && matches_any input.tool (values m.tool ++ listed m.tools)
    && matches_any input.service (values m.service ++ listed m.services)
    && matches_any (or_default input.operation "") (values m.operation ++ listed m.operations)
    && matches_any (class_name input.action_class)
        (class_names (values m.action_class ++ listed m.action_classes))
    && matches_scopes (compared_scopes effect input) (values m.scope ++ listed m.scopes) effect

unfoldable pub matches_if : YamlPolicyEffect → Option YamlPolicyMatch → ToolPolicyInput → Bool
matches_if effect none input = true
matches_if effect (some m) input = matches effect m input

unfoldable pub matches_rule : YamlPolicyRule → ToolPolicyInput → Bool
unfolding matches_if
matches_rule rule input = matches_if rule.effect rule.match input
