-- ===== src/Policy/Yaml.antt =====
-- shared/policy/policy.ts: YamlPolicy, its constructor and its decision.

pub mod Guardrails
pub mod Rules
use mcp_gw.Common.{
  ℕ, zero, suc, ◌+◌, ◌-◌, String, Bool, true, false, not, ◌&&◌, ◌||◌, Option, none, some, List, [],
  ◌∷◌, ◌++◌, leb, nat_eq, or_default, truthy, truthy?, ◌==◌, if◌then◌else◌,
}
use mcp_gw.Common.Lists.{is_empty, any, every, includes, length}
use mcp_gw.Common.Text.{◌<>◌, codes, is_lower, is_digit, ends_with, to_string}
use mcp_gw.Common.Errors.{Result, ok, err, ◌>>=◌, ◌>>◌, require}
use mcp_gw.Policy.{ToolPolicyInput, PolicyDecision, VerifiedOutboundEmail}
use mcp_gw.Policy
use mcp_gw.Policy.Scopes.{
  YamlPolicyEffect, allow, deny, approval_required, YamlPolicyRule, matches_rule,
}

pub record YamlGuardrails : Type 0 where
  pub denied_operations : Option (List String)
  -- `outboundEmail.allowedRecipientDomains`
  pub allowed_recipient_domains : Option (List String)

-- The default is a text until the constructor has validated it: the parser only checks that it is
-- one. The effects of rules are validated where they are parsed.
pub record YamlPolicyConfig : Type 0 where
  pub default_effect : Option String
  pub rules : Option (List YamlPolicyRule)
  pub guardrails : Option YamlGuardrails

-- The two sets are kept as lists; only membership and emptiness are asked of them.
pub record YamlPolicy : Type 0 where
  pub hard_guardrails : Bool
  pub default_effect : YamlPolicyEffect
  pub rules : List YamlPolicyRule
  pub denied_operations : List String
  pub allowed_recipient_domains : List String

-- Indirect operations that produce mail, whose recipients the call does not fix.
abbrev pub opaque_mail_operations : List String
opaque_mail_operations =
    "script.scripts.run" ∷ "gmail.users.settings.forwardingAddresses.create"
    ∷ "gmail.users.settings.updateAutoForwarding" ∷ "gmail.users.settings.filters.create"
    ∷ "gmail.users.settings.updateVacation" ∷ "gmail.users.settings.sendAs.create"
    ∷ "gmail.users.settings.sendAs.verify" ∷ []

abbrev pub send_operations : List String
send_operations =
    "gmail.users.messages.send" ∷ "gmail.users.drafts.send" ∷ "gmail.+send" ∷ "gmail.+reply"
    ∷ "gmail.+reply-all" ∷ "gmail.+forward" ∷ opaque_mail_operations

-- shared/policy/outbound-email.ts
unfoldable pub domain_is_allowed : String → String → Bool
unfolding ends_with
domain_is_allowed recipient allowed = recipient == allowed || ends_with recipient ("." <> allowed)

unfoldable pub validate_yaml_policy_effect : String → String → Result YamlPolicyEffect
validate_yaml_policy_effect effect path =
    if effect == "allow"
    then ok allow
    else if effect == "deny"
    then ok deny
    else if effect == "approval_required"
    then ok approval_required
    else err (path <> " must be allow, deny, or approval_required")

id_char : ℕ → Bool
unfolding is_lower is_digit
id_char c = is_lower c || is_digit c || nat_eq c b'_' || nat_eq c b'.' || nat_eq c b'-'

-- `/^[a-z][a-z0-9_.-]{0,63}$/`
unfoldable pub id_pattern : List ℕ → Bool
unfolding id_char
id_pattern [] = false
id_pattern (c ∷ cs) = is_lower c && every id_char cs && leb (length cs) 63

-- The effect of a rule is one of the three, so only its identifier is tested.
unfoldable pub validate_yaml_policy_rule : YamlPolicyRule → ℕ → Result (Unit {0})
unfolding id_pattern to_string codes
validate_yaml_policy_rule rule index = elim rule.id [
  | none ↦ ok tt
  | some id ↦
      require (not (truthy id) || id_pattern (codes id))
        ("rules[" <> to_string index <> "].id must be a stable low-cardinality identifier")
]

unfoldable pub validate_rules : List YamlPolicyRule → ℕ → Result (Unit {0})
unfolding validate_yaml_policy_rule
validate_rules [] index = ok tt
validate_rules (rule ∷ rules) index = do
  validate_yaml_policy_rule rule index
  validate_rules rules (index + 1)

abbrev pub denied_of : Option YamlGuardrails → List String
denied_of none = []
denied_of (some g) = or_default g.denied_operations []

abbrev pub domains_of : Option YamlGuardrails → List String
domains_of none = []
domains_of (some g) = or_default g.allowed_recipient_domains []

-- The constructor.
unfoldable pub create : YamlPolicyConfig → Result YamlPolicy
unfolding validate_yaml_policy_effect validate_rules
create config = do
  let denied = denied_of config.guardrails
  let domains = domains_of config.guardrails
  let rules = or_default config.rules []
  effect ← validate_yaml_policy_effect (or_default config.default_effect "allow") "default"
  validate_rules rules 0
  ok (record {
    hard_guardrails = not (is_empty denied) || not (is_empty domains);
    default_effect = effect;
    rules = rules;
    denied_operations = denied;
    allowed_recipient_domains = domains;
  })

abbrev pub effect_name : YamlPolicyEffect → String
effect_name allow = "allow"
effect_name deny = "deny"
effect_name approval_required = "approval_required"

abbrev kept_id : Option String → Option String
kept_id none = none
kept_id (some id) = if truthy id then some id else none

unfoldable pub decision_for_effect :
    YamlPolicyEffect → Option String → Option String → PolicyDecision
decision_for_effect allow reason rule_id = Policy.allow
decision_for_effect deny reason rule_id =
    Policy.deny (or_default reason "YAML policy deny") (kept_id rule_id)
decision_for_effect approval_required reason rule_id =
    Policy.approval_required (or_default reason "YAML policy approval_required") (kept_id rule_id)

refuse : String → String → Option PolicyDecision
refuse reason rule_id = some (Policy.deny reason (some rule_id))

-- Every recipient's domain is under one of the allowed ones.
unfoldable pub domains_allowed : List String → List String → Bool
unfolding domain_is_allowed
domains_allowed allowed recipients = every (λ r. any (domain_is_allowed r) allowed) recipients

-- The test of the recipients of an operation that sends mail.
email_guardrail : List String → Option VerifiedOutboundEmail → Option PolicyDecision
unfolding refuse domains_allowed
email_guardrail domains none =
    refuse "Outbound email recipients cannot be verified" "guardrails.outbound_email_opaque"
email_guardrail domains (some email) =
    if is_empty email.recipient_domains
    then refuse "Outbound email recipients cannot be verified" "guardrails.outbound_email_opaque"
    else if domains_allowed domains email.recipient_domains
    then none
    else refuse "Outbound email recipient domain is not allowed" "guardrails.outbound_email_domain"

-- The tests ahead of the rules: the decision if one of them refuses.
unfoldable pub guardrail : YamlPolicy → ToolPolicyInput → Option PolicyDecision
unfolding email_guardrail
guardrail policy input =
    let operation = or_default input.operation "" in
    if policy.hard_guardrails && not (truthy operation)
    then refuse "Operation cannot be classified under global policy"
        "guardrails.unclassified_operation"
    else if truthy operation && includes policy.denied_operations operation
    then refuse "Operation disabled by global policy" "guardrails.denied_operations"
    else if not (is_empty policy.allowed_recipient_domains)
        && truthy operation
        && includes send_operations operation
    then email_guardrail policy.allowed_recipient_domains input.outbound_email
    else none

-- The first rule that matches decides; `index` counts the rules passed.
unfoldable pub decide_rules :
    List YamlPolicyRule → ℕ → YamlPolicyEffect → ToolPolicyInput → PolicyDecision
decide_rules [] index default_effect input =
    decision_for_effect default_effect (some ("YAML policy default " <> effect_name default_effect))
      (some "yaml.default")
decide_rules (rule ∷ rules) index default_effect input =
    if matches_rule rule input
    then decision_for_effect rule.effect rule.reason
        (some (or_default rule.id ("yaml.rule." <> to_string (index + 1))))
    else decide_rules rules (index + 1) default_effect input

unfoldable pub decide : YamlPolicy → ToolPolicyInput → PolicyDecision
decide policy input =
    or_default (guardrail policy input) (decide_rules policy.rules 0 policy.default_effect input)

-- The policy as one of those that `CompositePolicy` joins.
abbrev pub tool_policy : YamlPolicy → Policy.ToolPolicy
tool_policy policy = record {
  hard_guardrails = policy.hard_guardrails;
  decide = λ input. ok (decide policy input);
}
