-- ===== src/Policy/Config/Sound.antt =====
-- A YAML policy that is accepted is well formed.
use mcp_gw.Common.{
  ℕ, ◌+◌, String, Bool, true, false, not, ◌||◌, Option, none, some, List, [], ◌∷◌, or_default,
  is_some, ◌≡◌, refl, ◌⊎◌, inl, inr, arith, eq_iff, Bool-cases,
}
use mathlib.Core.Path.{subst}
use mcp_gw.Common.Lists.{
  All-mono, All-intro, All-zip, find-eq-none, is_empty, any, includes, All, Has, every_iff,
  any-eq-false, includes_iff,
}
use mcp_gw.Common.Text.{codes}
use mcp_gw.Common.Errors.{Result, ok, err, >>=-eq-ok, ok-injective, require}
use mcp_gw.Json.{optional, Optionally, optional-eq-ok, Json, Props, get}
use mcp_gw.Mail.Domain.Laws.{canonical_policy_domain-eq}
use mcp_gw.Mail.Domain.{canonical_policy_domain}
use mcp_gw.Policy.Scopes.{YamlPolicyRule}
use mcp_gw.Policy.Yaml
use mcp_gw.Policy.Yaml.{
  YamlPolicy, YamlPolicyConfig, YamlGuardrails, validate_yaml_policy_effect, id_pattern,
  validate_yaml_policy_rule,
}
use mcp_gw.Policy.Config.Match.{expect_record, optional_string, optional_string_array}
use mcp_gw.Policy.Config.{
  read_array, optional_rules, expect_keys, operation_pattern, valid_operations, domains_valid,
  read_outbound_email, read_guardrails, parse_yaml_guardrails, expect_known,
  parse_yaml_policy_config, create_yaml_policy_from_string,
}

-- The identifier of a rule, if it has one, is empty or of the stable form.
abbrev pub HasStableId : YamlPolicyRule → Type 0
HasStableId rule =
    (or_default rule.id "" ≡ "") ⊎ (id_pattern (codes (or_default rule.id "")) ≡ true)

-- The operation is one of the known ones, where these are given.
abbrev pub IsKnown : Option (List String) → String → Type 0
IsKnown none operation = Unit
IsKnown (some known) operation = Has operation known

module _ (domain_to_ascii : String → Option String) where
  pub record IsWellFormed (known : Option (List String)) (policy : YamlPolicy) : Type 0 where
    pub operations :
        All (λ o. (operation_pattern o ≡ true) × IsKnown known o) policy.denied_operations
    pub domains :
        All
          (λ d. canonical_policy_domain domain_to_ascii d ≡ some d)
          policy.allowed_recipient_domains
    pub ids : All HasStableId policy.rules
    pub hard :
        (policy.hard_guardrails ≡ true)
        ⊎ ((policy.denied_operations ≡ []) × (policy.allowed_recipient_domains ≡ []))

require-eq-ok : (b : Bool) (message : String) → require b message ≡ ok tt → b ≡ true
require-eq-ok true message h = refl
require-eq-ok false message h = cc

validate_yaml_policy_rule-HasStableId :
    (rule : YamlPolicyRule) (index : ℕ) (u : Unit {0})
    → validate_yaml_policy_rule rule index ≡ ok u
    → HasStableId rule
unfolding validate_yaml_policy_rule
validate_yaml_policy_rule-HasStableId rule index u h =
    ground (arith, eq_iff (or_default rule.id "") "")

validate_rules-All :
    (rules : List YamlPolicyRule) (index : ℕ) (u : Unit {0})
    → Yaml.validate_rules rules index ≡ ok u
    → All HasStableId rules
unfolding Yaml.validate_rules
validate_rules-All [] index u h = tt
validate_rules-All (r ∷ rs) index u h =
    let (v, first, rest) = >>=-eq-ok (validate_yaml_policy_rule r index) _ h in
    (
      validate_yaml_policy_rule-HasStableId r index v first,
      validate_rules-All rs (index + 1) u rest,
    )

expect_known-All :
    (operations : List String) (known : Option (List String)) (u : Unit {0})
    → expect_known operations known ≡ ok u
    → All (IsKnown known) operations
unfolding expect_known
expect_known-All operations none u h = All-intro (λ o. tt) operations
expect_known-All operations (some known) u h =
    All-mono (λ o k. (includes_iff known o).0 (ground arith)) operations
      (find-eq-none (λ o. not (includes known o)) operations (ground arith))

module _ (domain_to_ascii : String → Option String) where
  abbrev Canonical : String → Type 0
  Canonical d = canonical_policy_domain domain_to_ascii d ≡ some d

  domains_valid-All :
      (listed : Option (List String)) (ds : List String)
      → domains_valid domain_to_ascii listed ≡ ok ds
      → All Canonical ds
  unfolding domains_valid
  domains_valid-All none ds h = cc
  domains_valid-All (some l) ds h =
      elim (Bool-cases
        (is_empty l || any (λ d. not (is_some (canonical_policy_domain domain_to_ascii d))) l)) [
          | inl bad ↦ let k : err _ ≡ ok ds = rw bad at h in cc k
          | inr good ↦
              let k : ok l ≡ ok ds = rw good at h in
              subst (All Canonical) (ok-injective k) (
                All-mono
                  (λ d (e : not (is_some (canonical_policy_domain domain_to_ascii d)) ≡ false).
                    canonical_policy_domain-eq domain_to_ascii d (ground arith))
                  l
                  (any-eq-false (λ d. not (is_some (canonical_policy_domain domain_to_ascii d))) l
                    (ground arith)))
        ]

  read_outbound_email-All :
      (value : Json) (ds : List String)
      → read_outbound_email domain_to_ascii value ≡ ok ds
      → All Canonical ds
  unfolding read_outbound_email
  read_outbound_email-All value ds h =
      let (fields, is_object, h1) =
        >>=-eq-ok (expect_record value "guardrails.outboundEmail must be an object") _ h in
      let (u, known, h2) =
        >>=-eq-ok
          (expect_keys fields ("allowedRecipientDomains" ∷ [])
            "Unsupported guardrails.outboundEmail field: ")
          _ h1 in
      let (listed, is_list, h3) =
        >>=-eq-ok
          (optional_string_array (get fields "allowedRecipientDomains")
            "guardrails.outboundEmail.allowedRecipientDomains")
          _ h2 in
      domains_valid-All listed ds h3

  abbrev GuardrailsValid : YamlGuardrails → Type 0
  GuardrailsValid g =
      All (λ o. operation_pattern o ≡ true) (or_default g.denied_operations [])
      × All Canonical (or_default g.allowed_recipient_domains [])

  listed-All :
      (o : Option (List String)) → Optionally (All Canonical) o → All Canonical (or_default o [])
  listed-All none h = tt
  listed-All (some ds) h = h

  read_guardrails-Valid :
      (value : Json) (g : YamlGuardrails)
      → read_guardrails domain_to_ascii value ≡ ok g
      → GuardrailsValid g
  unfolding read_guardrails valid_operations
  read_guardrails-Valid value g h =
      let (fields, is_object, h1) =
        >>=-eq-ok (expect_record value "guardrails must be an object") _ h in
      let (u, known, h2) =
        >>=-eq-ok
          (expect_keys fields ("deniedOperations" ∷ "outboundEmail" ∷ [])
            "Unsupported guardrails field: ")
          _ h1 in
      let (denied, is_list, h3) =
        >>=-eq-ok
          (optional_string_array (get fields "deniedOperations") "guardrails.deniedOperations") _
          h2 in
      let (v, valid, h4) = >>=-eq-ok (valid_operations (or_default denied [])) _ h3 in
      let (domains, mail, last) =
        >>=-eq-ok (optional (get fields "outboundEmail") (read_outbound_email domain_to_ascii)) _
          h4 in
      subst GuardrailsValid (ok-injective last) (
        (every_iff (λ o. ((λ e. e), (λ e. e))) (or_default denied [])).0
            (require-eq-ok _ "guardrails.deniedOperations contains an invalid operation" valid),
        listed-All domains (
            optional-eq-ok (All Canonical) (get fields "outboundEmail")
              (read_outbound_email domain_to_ascii) domains mail
              (read_outbound_email-All (get fields "outboundEmail"))),
      )

  denied_of-Valid :
      (o : Option YamlGuardrails)
      → Optionally GuardrailsValid o
      → All (λ d. operation_pattern d ≡ true) (Yaml.denied_of o) × All Canonical (Yaml.domains_of o)
  denied_of-Valid none h = (tt, tt)
  denied_of-Valid (some g) h = h

  config-Valid :
      (fields : Props) (config : YamlPolicyConfig)
      → parse_yaml_policy_config domain_to_ascii fields ≡ ok config
      → Optionally GuardrailsValid config.guardrails
  unfolding parse_yaml_policy_config parse_yaml_guardrails
  config-Valid fields config h =
      let (effect, is_text, h1) =
        >>=-eq-ok (optional_string (get fields "default") "default") _ h in
      let (listed, is_array, h2) = >>=-eq-ok (optional (get fields "rules") read_array) _ h1 in
      let (rules, are_rules, h3) = >>=-eq-ok (optional_rules listed) _ h2 in
      let (guardrails, found, last) =
        >>=-eq-ok (parse_yaml_guardrails domain_to_ascii (get fields "guardrails")) _ h3 in
      subst (λ (c : YamlPolicyConfig). Optionally GuardrailsValid c.guardrails) (ok-injective last)
        (optional-eq-ok GuardrailsValid (get fields "guardrails") (read_guardrails domain_to_ascii)
          guardrails found (read_guardrails-Valid (get fields "guardrails")))

  create-IsWellFormed :
      (config : YamlPolicyConfig) (known : Option (List String)) (policy : YamlPolicy)
      → Optionally GuardrailsValid config.guardrails
      → All (IsKnown known) (Yaml.denied_of config.guardrails)
      → Yaml.create config ≡ ok policy
      → IsWellFormed domain_to_ascii known policy
  unfolding Yaml.create
  create-IsWellFormed config known policy valid is_known h =
      let (effect, is_effect, h1) =
        >>=-eq-ok (validate_yaml_policy_effect (or_default config.default_effect "allow") "default")
          _ h in
      let (u, stable, last) = >>=-eq-ok (Yaml.validate_rules (or_default config.rules []) 0) _ h1 in
      let (operations, domains) = denied_of-Valid config.guardrails valid in
      subst (IsWellFormed domain_to_ascii known) (ok-injective last) (record {
        operations =
            All-zip (λ o. operation_pattern o ≡ true) (IsKnown known)
              (Yaml.denied_of config.guardrails) operations is_known;
        domains = domains;
        ids = validate_rules-All (or_default config.rules []) 0 u stable;
        hard = ground arith;
      })

  -- A policy that is made from a file is well formed: every denied operation has the form of an
  -- operation and is known, every allowed domain is its own canonical form, every rule has a stable
  -- identifier or none, and it is marked as hard whenever it has a guardrail.
  pub create_yaml_policy_from_string-IsWellFormed :
      (parse_yaml : String → Result Json) (content : String) (known : Option (List String))
      (policy : YamlPolicy)
      → create_yaml_policy_from_string domain_to_ascii parse_yaml content known ≡ ok policy
      → IsWellFormed domain_to_ascii known policy
  unfolding create_yaml_policy_from_string parse_yaml_policy_config parse_yaml_guardrails
  create_yaml_policy_from_string-IsWellFormed parse_yaml content known policy h =
      let (parsed, is_yaml, h1) = >>=-eq-ok (parse_yaml content) _ h in
      let (fields, is_object, h2) =
        >>=-eq-ok (expect_record parsed "YAML policy must be an object") _ h1 in
      let (config, is_config, h3) =
        >>=-eq-ok (parse_yaml_policy_config domain_to_ascii fields) _ h2 in
      let (u, is_known, last) =
        >>=-eq-ok (expect_known (Yaml.denied_of config.guardrails) known) _ h3 in
      create-IsWellFormed config known policy (config-Valid fields config is_config)
        (expect_known-All (Yaml.denied_of config.guardrails) known u is_known) last
