-- ===== src/Policy/Config/Match.antt =====
-- shared/policy/policy.ts: reading texts and the match of a rule.
use mcp_gw.Common.{ℕ, String, Option, none, some, List, [], ◌∷◌, ◌==◌, if◌then◌else◌}
use mcp_gw.Common.Text.{◌<>◌, to_string}
use mcp_gw.Common.Errors.{Result, ok, err, ◌>>=◌}
use mcp_gw.Json.{Json, Props, undefined, str, get, record?, array?, optional}
use mcp_gw.Policy.{ActionClass, read, secret_read, write, destructive}
use mcp_gw.Policy.Scopes.{OneOrMany, one, many, YamlPolicyMatch}

-- `optionalString`
unfoldable pub optional_string : Json → String → Result (Option String)
optional_string undefined path = ok none
optional_string (str s) path = ok (some s)
optional_string _ path = err (path <> " must be a string")

pub required : Option String → String → Result String
required none path = err (path <> " must be a string")
required (some s) path = ok s

unfoldable pub required_string : Json → String → Result String
unfolding optional_string required
required_string value path = do result ← optional_string value path; required result path

-- The texts of an array whose items are all texts.
unfoldable pub all_strings : List Json → Option (List String)
all_strings [] = some []
all_strings (str s ∷ vs) = elim (all_strings vs) [ none ↦ none | some ss ↦ some (s ∷ ss) ]
all_strings (_ ∷ vs) = none

string_items : Option (List Json) → Option (List String)
unfolding all_strings
string_items none = none
string_items (some vs) = all_strings vs

pub listed_strings : Option (List String) → String → Result (Option (List String))
listed_strings none path = err (path <> " must be a string array")
listed_strings (some ss) path = ok (some ss)

unfoldable pub optional_string_array : Json → String → Result (Option (List String))
unfolding string_items listed_strings
optional_string_array undefined path = ok none
optional_string_array value path = listed_strings (string_items (array? value)) path

abbrev pub as_many : {A : Type 0} → Option (List A) → Option (OneOrMany A)
as_many none = none
as_many (some xs) = some (many xs)

-- `optionalStringOrStringArray`
unfoldable pub one_or_many : Json → String → Result (Option (OneOrMany String))
unfolding optional_string_array
one_or_many (str s) path = ok (some (one s))
one_or_many value path = do result ← optional_string_array value path; ok (as_many result)

-- `validateActionClass`, which also says which class the text names.
unfoldable pub validate_action_class : String → String → Result ActionClass
validate_action_class s path =
    if s == "read"
    then ok read
    else if s == "secret-read"
    then ok secret_read
    else if s == "write"
    then ok write
    else if s == "destructive"
    then ok destructive
    else err (path <> " must be read, secret-read, write, or destructive")

unfoldable pub validate_classes : List String → String → Result (List ActionClass)
unfolding validate_action_class
validate_classes [] path = ok []
validate_classes (s ∷ ss) path = do
  c ← validate_action_class s path
  cs ← validate_classes ss path
  ok (c ∷ cs)

listed_classes : Option (List String) → String → Result (Option (List ActionClass))
unfolding validate_classes
listed_classes none path = ok none
listed_classes (some ss) path = do cs ← validate_classes ss path; ok (some cs)

unfoldable pub optional_action_class_array : Json → String → Result (Option (List ActionClass))
unfolding optional_string_array listed_classes
optional_action_class_array value path = do
  result ← optional_string_array value path
  listed_classes result path

unfoldable pub optional_action_class_or_array :
    Json → String → Result (Option (OneOrMany ActionClass))
unfolding validate_action_class optional_action_class_array
optional_action_class_or_array (str s) path = do c ← validate_action_class s path; ok (some (one c))
optional_action_class_or_array value path = do
  result ← optional_action_class_array value path
  ok (as_many result)

-- `if (!isRecord(value)) throw …`
unfoldable pub expect_record : Json → String → Result Props
expect_record value message = elim (record? value) [ none ↦ err message | some ps ↦ ok ps ]

unfoldable pub parse_match_fields : Props → String → Result YamlPolicyMatch
unfolding one_or_many optional_string_array optional_action_class_or_array
    optional_action_class_array
parse_match_fields value path = do
  principal ← one_or_many (get value "principal") (path <> ".principal")
  principals ← optional_string_array (get value "principals") (path <> ".principals")
  tool ← one_or_many (get value "tool") (path <> ".tool")
  tools ← optional_string_array (get value "tools") (path <> ".tools")
  service ← one_or_many (get value "service") (path <> ".service")
  services ← optional_string_array (get value "services") (path <> ".services")
  operation ← one_or_many (get value "operation") (path <> ".operation")
  operations ← optional_string_array (get value "operations") (path <> ".operations")
  action_class ← optional_action_class_or_array (get value "actionClass") (path <> ".actionClass")
  action_classes ←
      optional_action_class_array (get value "actionClasses") (path <> ".actionClasses")
  scope ← one_or_many (get value "scope") (path <> ".scope")
  scopes ← optional_string_array (get value "scopes") (path <> ".scopes")
  ok (record {
    principal = principal;
    principals = principals;
    tool = tool;
    tools = tools;
    service = service;
    services = services;
    operation = operation;
    operations = operations;
    action_class = action_class;
    action_classes = action_classes;
    scope = scope;
    scopes = scopes;
  })

read_match : ℕ → Json → Result YamlPolicyMatch
unfolding expect_record parse_match_fields to_string
read_match index value = do
  let path = "rules[" <> to_string index <> "].match"
  fields ← expect_record value (path <> " must be an object")
  parse_match_fields fields path

unfoldable pub parse_yaml_policy_match : Json → ℕ → Result (Option YamlPolicyMatch)
unfolding read_match optional
parse_yaml_policy_match value index = optional value (read_match index)
