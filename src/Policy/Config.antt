-- ===== src/Policy/Config.antt =====
-- shared/policy/policy.ts: reading a YAML policy. The YAML parser is a third party's, and so a
-- parameter: it answers a value or fails.
pub mod Match
pub mod Sound
use mcp_gw.Common.{
  ℕ, ◌+◌, String, Bool, true, false, not, ◌&&◌, ◌||◌, Option, none, some, List, [], ◌∷◌, ◌++◌, leb,
  nat_eq, or_default, is_some, ◌==◌, if◌then◌else◌,
}
use mcp_gw.Common.Lists.{is_empty, any, every, includes, find, length}
use mcp_gw.Common.Text.{◌<>◌, codes, is_lower, is_upper, is_digit, to_string}
use mcp_gw.Common.Errors.{Result, ok, err, ◌>>=◌, ◌>>◌, require}
use mcp_gw.Json.{Json, Props, undefined, keys, get, record?, array?, string?, optional}
use mcp_gw.Mail.Domain.{canonical_policy_domain}
use mcp_gw.Policy.Scopes.{YamlPolicyRule}
use mcp_gw.Policy.Yaml
use mcp_gw.Policy.Yaml.{YamlPolicy, YamlPolicyConfig, YamlGuardrails, validate_yaml_policy_effect}
use Match.{
  optional_string, optional_string_array, parse_yaml_policy_match, required_string, expect_record,
}

abbrev alnum : ℕ → Bool
alnum c = is_lower c || is_upper c || is_digit c

-- `[a-z][a-zA-Z0-9]*`, with an optional plus ahead
name_part : List ℕ → Bool
name_part [] = false
name_part (c ∷ cs) = is_lower c && every alnum cs

plus_part : List ℕ → Bool
unfolding name_part
plus_part [] = false
plus_part (c ∷ cs) = if nat_eq c b'+' then name_part cs else name_part (c ∷ cs)

-- The parts between dots; at least one.
dot_parts : List ℕ → List ℕ → List (List ℕ)
dot_parts part [] = part ∷ []
dot_parts part (c ∷ cs) =
    let closed = part ∷ dot_parts [] cs in
    let longer = dot_parts (part ++ c ∷ []) cs in if nat_eq c b'.' then closed else longer

service_part : List ℕ → Bool
service_part [] = false
service_part (c ∷ cs) = is_lower c && every (λ d. is_lower d || is_digit d) cs

parts_match : List (List ℕ) → Bool
unfolding service_part plus_part
parts_match [] = false
parts_match (service ∷ rest) =
    service_part service && every plus_part rest && leb 1 (length rest) && leb (length rest) 5

-- `/^[a-z][a-z0-9]*(?:\.\+?[a-z][a-zA-Z0-9]*){1,5}$/`
unfoldable pub operation_pattern : String → Bool
unfolding parts_match dot_parts codes is_lower is_upper is_digit
operation_pattern operation = parts_match (dot_parts [] (codes operation))

-- The keys of the object are all among the known ones.
unfoldable pub expect_keys : Props → List String → String → Result (Unit {0})
expect_keys value known message = elim (find (λ k. not (includes known k)) (keys value)) [
  | none ↦ ok tt
  | some key ↦ err (message <> key)
]

valid_operations : List String → Result (Unit {0})
valid_operations operations =
    require (every operation_pattern operations)
      "guardrails.deniedOperations contains an invalid operation"

module _ (domain_to_ascii : String → Option String) where
  domains_valid : Option (List String) → Result (List String)
  domains_valid none =
      err "guardrails.outboundEmail.allowedRecipientDomains must contain canonical domains"
  domains_valid (some domains) =
      if is_empty domains
        || any (λ d. not (is_some (canonical_policy_domain domain_to_ascii d))) domains
      then err "guardrails.outboundEmail.allowedRecipientDomains must contain canonical domains"
      else ok domains

  read_outbound_email : Json → Result (List String)
  unfolding expect_record expect_keys domains_valid optional_string_array
  read_outbound_email value = do
    email ← expect_record value "guardrails.outboundEmail must be an object"
    expect_keys email ("allowedRecipientDomains" ∷ [])
        "Unsupported guardrails.outboundEmail field: "
    listed ←
        optional_string_array (get email "allowedRecipientDomains")
          "guardrails.outboundEmail.allowedRecipientDomains"
    domains_valid listed

  read_guardrails : Json → Result YamlGuardrails
  unfolding expect_record expect_keys valid_operations read_outbound_email optional_string_array
      optional
  read_guardrails value = do
    fields ← expect_record value "guardrails must be an object"
    expect_keys fields ("deniedOperations" ∷ "outboundEmail" ∷ []) "Unsupported guardrails field: "
    denied ← optional_string_array (get fields "deniedOperations") "guardrails.deniedOperations"
    valid_operations (or_default denied [])
    domains ← optional (get fields "outboundEmail") read_outbound_email
    ok (record { denied_operations = denied; allowed_recipient_domains = domains })

  unfoldable pub parse_yaml_guardrails : Json → Result (Option YamlGuardrails)
  unfolding read_guardrails optional
  parse_yaml_guardrails value = optional value read_guardrails

unfoldable pub parse_yaml_policy_rule : Json → ℕ → Result YamlPolicyRule
unfolding expect_record required_string optional_string parse_yaml_policy_match
    validate_yaml_policy_effect
parse_yaml_policy_rule value index = do
  let path = "rules[" <> to_string index <> "]"
  fields ← expect_record value ("YAML policy rule " <> to_string index <> " must be an object")
  text ← required_string (get fields "effect") (path <> ".effect")
  effect ← validate_yaml_policy_effect text (path <> ".effect")
  id ← optional_string (get fields "id") (path <> ".id")
  reason ← optional_string (get fields "reason") (path <> ".reason")
  m ← parse_yaml_policy_match (get fields "match") index
  ok (record { id = id; effect = effect; reason = reason; match = m })

parse_rules : List Json → ℕ → Result (List YamlPolicyRule)
unfolding parse_yaml_policy_rule
parse_rules [] index = ok []
parse_rules (v ∷ vs) index = do
  rule ← parse_yaml_policy_rule v index
  rules ← parse_rules vs (index + 1)
  ok (rule ∷ rules)

-- `rules` must be an array if it is there.
read_array : Json → Result (List Json)
read_array value = elim (array? value) [ none ↦ err "rules must be an array" | some vs ↦ ok vs ]

optional_rules : Option (List Json) → Result (Option (List YamlPolicyRule))
unfolding parse_rules
optional_rules none = ok none
optional_rules (some vs) = do rules ← parse_rules vs 0; ok (some rules)

expect_known : List String → Option (List String) → Result (Unit {0})
expect_known operations none = ok tt
expect_known operations (some known) = elim (find (λ o. not (includes known o)) operations) [
  | none ↦ ok tt
  | some operation ↦ err ("Unknown guardrail operation: " <> operation)
]

module _ (domain_to_ascii : String → Option String) where
  unfoldable pub parse_yaml_policy_config : Props → Result YamlPolicyConfig
  unfolding optional_string optional read_array optional_rules parse_yaml_guardrails
  parse_yaml_policy_config value = do
    default_effect ← optional_string (get value "default") "default"
    listed ← optional (get value "rules") read_array
    rules ← optional_rules listed
    guardrails ← parse_yaml_guardrails domain_to_ascii (get value "guardrails")
    ok (record { default_effect = default_effect; rules = rules; guardrails = guardrails })

  unfoldable pub create_yaml_policy_from_string :
      (String → Result Json) → String → Option (List String) → Result YamlPolicy
  unfolding parse_yaml_policy_config expect_known Yaml.create
  create_yaml_policy_from_string parse_yaml content known_operations = do
    parsed ← parse_yaml content
    fields ← expect_record parsed "YAML policy must be an object"
    config ← parse_yaml_policy_config fields
    expect_known (Yaml.denied_of config.guardrails) known_operations
    Yaml.create config
