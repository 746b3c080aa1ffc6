-- ===== src/Policy/Tests.antt =====
-- The policies at concrete calls.
use mcp_gw.Common.{String, true, false, none, some, List, [], ◌∷◌, ◌≡◌, ◌≢◌, refl, ◌↔◌}
use mathlib.Core.List.{Perm, Permᴰ}
use mcp_gw.Common.Lists.{All, Has, includes_iff}
use mcp_gw.Common.Errors.{ok}
use mcp_gw.Json.{bool, Json, end, prop, str, obj, arr, nil, cons}
use mcp_gw.Policy.{
  ToolPolicy, ToolPolicyInput, PolicyDecision, composite_policy, allow_all_policy, write,
}
use mcp_gw.Policy.Severity.{
  severity, strictest, Answers, composite_policy-severity, composite_policy-allow,
}
use mcp_gw.Policy.Scopes.{
  YamlPolicyEffect, YamlPolicyRule, one, matches_rule, matches, matches_any, matches_scopes,
}
use mcp_gw.Policy.Yaml.{
  YamlPolicy, guardrail, decide_rules, send_operations, domain_is_allowed, domains_allowed,
}
use mcp_gw.Policy.Yaml.Guardrails.{Permitted, guardrail_iff}
use mcp_gw.Policy.Yaml.Rules.{
  AppliesIf, IsFirst, rule_name, verdict, matches_rule_iff, decide_rules-IsFirst,
}
use mcp_gw.Policy.Config.{create_yaml_policy_from_string, operation_pattern}
use mcp_gw.Mail.Domain.{
  canonical_policy_domain, canonical_recipient_domain, label_pattern, after_last,
}
use mcp_gw.Common.Text.{has_char, to_lower, split_on}
use mcp_gw.Policy.Config.Sound.{IsWellFormed, create_yaml_policy_from_string-IsWellFormed}
use mcp_gw.Policy.Opa.{
  result_of, is_truthy, opa_decision, opa_policy_adapter, Response, create_opa_policy_from_url,
}
use mcp_gw.Policy.Opa.Laws.{Permits, create_opa_policy_from_url-allow}

abbrev send_input : ToolPolicyInput
send_input = record {
  principal = "a@example.com";
  token_claims = end;
  tool = "gws.run";
  operation = some "gmail.users.messages.send";
  service = "gws";
  action_class = write;
  scopes = "mail.send" ∷ [];
  scope_requirement = none;
  outbound_email = some (record { recipient_domains = "sub.example.com" ∷ [] });
  args = end;
}

abbrev read_input : ToolPolicyInput
read_input = record send_input { operation = some "drive.files.get"; outbound_email = none }

abbrev lost_input : ToolPolicyInput
lost_input = record send_input { outbound_email = none }

abbrev asking : ToolPolicy
asking = record {
  hard_guardrails = false;
  decide = λ input. ok (PolicyDecision.approval_required "ask" none);
}

abbrev denying : ToolPolicy
denying = record {
  hard_guardrails = true;
  decide = λ input. ok (PolicyDecision.deny "no" (some "r1"));
}

abbrev three : List ToolPolicy
three = asking ∷ denying ∷ allow_all_policy ∷ []

abbrev swapped : List ToolPolicy
swapped = denying ∷ asking ∷ allow_all_policy ∷ []

three-Answers : All (Answers send_input) three
three-Answers = ((_, refl), ((_, refl), ((_, refl), tt)))

composite_policy-severity_example :
    (d : PolicyDecision) × ((composite_policy three).decide send_input ≡ ok d)
    × (severity d ≡ strictest three send_input)
composite_policy-severity_example = composite_policy-severity three send_input three-Answers

three-decision :
    (composite_policy three).decide send_input ≡ ok (PolicyDecision.deny "no" (some "r1"))
unfolding composite_policy
three-decision = refl

swapped-decision :
    (composite_policy swapped).decide send_input ≡ ok (PolicyDecision.deny "no" (some "r1"))
unfolding composite_policy
swapped-decision = refl

three-Perm : Perm three swapped
three-Perm = ∣ Permᴰ.swap refl refl ∣₁

abbrev two_open : List ToolPolicy
two_open = allow_all_policy ∷ allow_all_policy ∷ []

two_open-allow : (composite_policy two_open).decide send_input ≡ ok PolicyDecision.allow
unfolding composite_policy
two_open-allow = refl

composite_policy-allow_example : All (λ p. p.decide send_input ≡ ok PolicyDecision.allow) two_open
composite_policy-allow_example = composite_policy-allow two_open send_input two_open-allow

abbrev send_rule : YamlPolicyRule
send_rule = record {
  id = none;
  effect = YamlPolicyEffect.approval_required;
  reason = some "mail needs approval";
  match = some (record {
    principal = none;
    principals = none;
    tool = none;
    tools = none;
    service = some (one "gws");
    services = none;
    operation = some (one "gmail.users.messages.send");
    operations = none;
    action_class = none;
    action_classes = none;
    scope = none;
    scopes = none;
  });
}

abbrev other_rule : YamlPolicyRule
other_rule = record {
  id = some "other";
  effect = YamlPolicyEffect.deny;
  reason = none;
  match = some (record {
    principal = some (one "b@example.com");
    principals = none;
    tool = none;
    tools = none;
    service = none;
    services = none;
    operation = none;
    operations = none;
    action_class = none;
    action_classes = none;
    scope = none;
    scopes = none;
  });
}

abbrev mail_policy : YamlPolicy
mail_policy = record {
  hard_guardrails = true;
  default_effect = YamlPolicyEffect.allow;
  rules = other_rule ∷ send_rule ∷ [];
  denied_operations = "drive.files.delete" ∷ [];
  allowed_recipient_domains = "example.com" ∷ [];
}

guardrail_iff_example : (guardrail mail_policy send_input ≡ none) ↔ Permitted mail_policy send_input
guardrail_iff_example = guardrail_iff mail_policy send_input

send-free : guardrail mail_policy send_input ≡ none
unfolding guardrail domain_is_allowed domains_allowed
send-free = refl

lost-refused : guardrail mail_policy lost_input ≢ none
unfolding guardrail
lost-refused e = cc e

lost-forbidden : ¬ Permitted mail_policy lost_input
lost-forbidden p = lost-refused ((guardrail_iff mail_policy lost_input).1 p)

matches_rule_iff_example :
    (matches_rule send_rule send_input ≡ true)
    ↔ AppliesIf send_rule.effect send_rule.match send_input
matches_rule_iff_example = matches_rule_iff send_rule send_input

send-matches : matches_rule send_rule send_input ≡ true
unfolding matches_rule matches matches_any matches_scopes
send-matches = refl

other-skipped : All (λ r. matches_rule r send_input ≡ false) (other_rule ∷ [])
unfolding matches_rule matches matches_any matches_scopes
other-skipped = (refl, tt)

send-IsFirst : IsFirst mail_policy.rules send_input send_rule (other_rule ∷ [])
send-IsFirst = record {
  later = [];
  split = refl;
  skipped = other-skipped;
  applies = (matches_rule_iff send_rule send_input).0 send-matches;
}

decide_rules-IsFirst_example :
    decide_rules mail_policy.rules 0 YamlPolicyEffect.allow send_input
    ≡ verdict YamlPolicyEffect.approval_required
        (some "mail needs approval")
        (rule_name send_rule.id 2)
decide_rules-IsFirst_example =
    decide_rules-IsFirst mail_policy.rules (other_rule ∷ []) send_rule YamlPolicyEffect.allow
      send_input send-IsFirst

sending : Has "gmail.users.messages.send" send_operations
sending = (includes_iff send_operations "gmail.users.messages.send").0 refl

abbrev unread : Json → String
unread value = ""

abbrev good : Response
good = record {
  ok_status = true;
  status = "200";
  json = ok (obj (prop "result" (obj (prop "allow" (bool true) end)) end));
}

good-allow :
    (create_opa_policy_from_url unread (λ request. ok good)).decide read_input
    ≡ ok PolicyDecision.allow
unfolding create_opa_policy_from_url opa_policy_adapter opa_decision result_of is_truthy
good-allow = refl

create_opa_policy_from_url-allow_example :
    (response : Response) × (ok good ≡ ok response) × Permits response
create_opa_policy_from_url-allow_example =
    create_opa_policy_from_url-allow unread (λ request. ok good) read_input good-allow

abbrev document : Json
document = obj (
    prop "default" (str "deny") (
      prop "guardrails"
        (obj (
          prop "deniedOperations" (arr (cons (str "drive.files.delete") nil)) (
            prop "outboundEmail"
              (obj (prop "allowedRecipientDomains" (arr (cons (str "example.com") nil)) end)) end)))
        end))

abbrev from_document : YamlPolicy
from_document = record {
  hard_guardrails = true;
  default_effect = YamlPolicyEffect.deny;
  rules = [];
  denied_operations = "drive.files.delete" ∷ [];
  allowed_recipient_domains = "example.com" ∷ [];
}

document-policy :
    create_yaml_policy_from_string (λ d. some d) (λ content. ok document) "" none ≡ ok from_document
unfolding create_yaml_policy_from_string operation_pattern canonical_policy_domain
    canonical_recipient_domain has_char to_lower split_on label_pattern after_last
document-policy = refl

create_yaml_policy_from_string-IsWellFormed_example : IsWellFormed (λ d. some d) none from_document
create_yaml_policy_from_string-IsWellFormed_example =
    create_yaml_policy_from_string-IsWellFormed (λ d. some d) (λ content. ok document) "" none
      from_document document-policy
