-- ===== src/Policy/Yaml/Guardrails.antt =====
-- What the guardrails of a YAML policy promise, whatever its rules say.
use mathlib.Core.Path.{subst}
use mcp_gw.Common.{
  String, Bool, true, false, not, ◌&&◌, Option, none, some, List, [], or_default, truthy, ◌==◌,
  if◌then◌else◌, ◌≡◌, ◌≢◌, refl, ◌↔◌, ◌⊎◌, inl, inr, arith, eq_iff, Bool-cases, Option-cases,
}
use mcp_gw.Common.Lists.{is_empty, includes, All, Any, Has, every_iff, any_iff, includes_iff}
use mcp_gw.Common.Text.{◌<>◌}
use mcp_gw.Common.Suffix.{EndsIn, ends_with_iff}
use mcp_gw.Policy.{ToolPolicyInput, PolicyDecision, VerifiedOutboundEmail}
use mcp_gw.Policy
use mcp_gw.Policy.Yaml.{
  YamlPolicy, send_operations, domain_is_allowed, domains_allowed, guardrail, email_guardrail,
  decide, decide_rules,
}

-- The domain is the allowed one or below it.
abbrev pub Under : String → String → Type 0
Under recipient allowed = (recipient ≡ allowed) ⊎ EndsIn recipient ("." <> allowed)

pub domain_is_allowed_iff :
    (recipient allowed : String)
    → (domain_is_allowed recipient allowed ≡ true) ↔ Under recipient allowed
unfolding domain_is_allowed
domain_is_allowed_iff recipient allowed =
    ground (arith, eq_iff recipient allowed, ends_with_iff recipient ("." <> allowed))

domains_allowed_iff :
    (allowed recipients : List String)
    → (domains_allowed allowed recipients ≡ true) ↔ All (λ r. Any (Under r) allowed) recipients
unfolding domains_allowed
domains_allowed_iff allowed recipients =
    every_iff (λ r. any_iff (λ a. domain_is_allowed_iff r a) allowed) recipients

-- The recipients of the mail are known, there is one, and each is under an allowed domain.
abbrev pub RecipientsAllowed : List String → Option VerifiedOutboundEmail → Type 0
RecipientsAllowed domains none = ⊥
RecipientsAllowed domains (some email) =
    (email.recipient_domains ≢ []) × All (λ r. Any (Under r) domains) email.recipient_domains

-- What the guardrails ask of a call, without the order in which the code tests it.
pub record Permitted (policy : YamlPolicy) (input : ToolPolicyInput) : Type 0 where
  pub classified : (policy.hard_guardrails ≡ false) ⊎ (or_default input.operation "" ≢ "")
  pub not_denied :
      (or_default input.operation "" ≡ "")
      ⊎ (¬ Has (or_default input.operation "") policy.denied_operations)
  pub recipients :
      (policy.allowed_recipient_domains ≡ [])
      ⊎ (¬ Has (or_default input.operation "") send_operations)
      ⊎ RecipientsAllowed policy.allowed_recipient_domains input.outbound_email

email_guardrail_iff :
    (domains : List String) (email : Option VerifiedOutboundEmail)
    → (email_guardrail domains email ≡ none) ↔ RecipientsAllowed domains email
unfolding email_guardrail
email_guardrail_iff domains none = (λ e. cc, λ e. elim e [ ])
email_guardrail_iff domains (some email) =
    ground (arith, domains_allowed_iff domains email.recipient_domains)

-- The order of the tests does not matter to whether one of them refuses.
no_refusal :
    (hard named denied limited sends : Bool) (a b : PolicyDecision) (g : Option PolicyDecision)
    → (hard ≡ true → named ≡ true)
    → (named ≡ true → denied ≡ false)
    → (limited ≡ true → named ≡ true → sends ≡ true → g ≡ none)
    → (if hard && not named
        then some a
        else if named && denied
        then some b
        else if limited && named && sends
        then g
        else none)
      ≡ none
no_refusal true false denied limited sends a b g p q r = cc (p refl)
no_refusal hard true true limited sends a b g p q r = cc (q refl)
no_refusal false false denied true sends a b g p q r = refl
no_refusal false false denied false sends a b g p q r = refl
no_refusal hard true false true true a b g p q r = ground (arith, r refl refl refl)
no_refusal hard true false _ _ a b g p q r = ground arith

-- No operation that sends mail has an empty name.
pub send_operations-named :
    (operation : String) → includes send_operations operation ≡ true → truthy operation ≡ true
send_operations-named operation h = elim (Bool-cases (operation == "")) [
  | inl e ↦ let s : includes send_operations "" ≡ true = rw ((eq_iff operation "").0 e) at h in cc s
  | inr e ↦ rw e
]

module _ (policy : YamlPolicy) (input : ToolPolicyInput) where
  abbrev operation : String
  operation = or_default input.operation ""

  abbrev sends : Bool
  sends = includes send_operations operation

  guardrail_sound : guardrail policy input ≡ none → Permitted policy input
  unfolding guardrail
  guardrail_sound e = record {
    classified = ground (arith, eq_iff operation "");
    not_denied =
        ground (arith, eq_iff operation "", includes_iff policy.denied_operations operation);
    recipients = elim (Bool-cases sends) [
      | inl s ↦ elim (Bool-cases (is_empty policy.allowed_recipient_domains)) [
        | inl none_listed ↦ inl (ground arith)
        | inr listed ↦ inr (
            inr (
              (email_guardrail_iff policy.allowed_recipient_domains input.outbound_email).0
                (ground (arith, send_operations-named operation s))))
      ]
      | inr n ↦ inr (inl λ h. cc ((includes_iff send_operations operation).1 h))
    ];
  }

  guardrail_complete : Permitted policy input → guardrail policy input ≡ none
  unfolding guardrail
  guardrail_complete p =
      no_refusal policy.hard_guardrails (truthy operation)
        (includes policy.denied_operations operation)
        (not (is_empty policy.allowed_recipient_domains)) sends _ _ _
        (λ h. ground (arith, eq_iff operation "", p.classified))
        (λ t. ground (
          arith,
          eq_iff operation "",
          includes_iff policy.denied_operations operation,
          p.not_denied,
        ))
        (λ l t s.
          (email_guardrail_iff policy.allowed_recipient_domains input.outbound_email).1
            (elim p.recipients [
              | inl none_listed ↦ ground arith
              | inr (inl silent) ↦ absurd (silent ((includes_iff send_operations operation).0 s))
              | inr (inr allowed) ↦ allowed
            ]))

-- The guardrails let a call through exactly when it is permitted: its operation is known if there
-- is any guardrail, it is not among the denied operations, and mail of a sending operation goes to
-- verified recipients, each under an allowed domain. No rule takes part in this.
pub guardrail_iff :
    (policy : YamlPolicy) (input : ToolPolicyInput)
    → (guardrail policy input ≡ none) ↔ Permitted policy input
guardrail_iff policy input = (guardrail_sound policy input, guardrail_complete policy input)

data Refuses : Option PolicyDecision → Type 0 where
  nothing : Refuses none
  denied : (reason id : String) → Refuses (some (Policy.deny reason (some id)))

denial :
    {d : PolicyDecision}
    → Refuses (some d)
    → (reason : String) × (id : String) × (d ≡ Policy.deny reason (some id))
denial (denied reason id) = (reason, id, refl)

if-Refuses :
    (b : Bool) {x y : Option PolicyDecision} → Refuses x → Refuses y → Refuses (if b then x else y)
if-Refuses true h k = h
if-Refuses false h k = k

email_guardrail-Refuses :
    (domains : List String) (email : Option VerifiedOutboundEmail)
    → Refuses (email_guardrail domains email)
unfolding email_guardrail
email_guardrail-Refuses domains none = denied _ _
email_guardrail-Refuses domains (some email) =
    if-Refuses (is_empty email.recipient_domains) (denied _ _)
      (if-Refuses (domains_allowed domains email.recipient_domains) nothing (denied _ _))

guardrail-Refuses :
    (policy : YamlPolicy) (input : ToolPolicyInput) → Refuses (guardrail policy input)
unfolding guardrail
guardrail-Refuses policy input =
    let named = truthy (or_default input.operation "") in
    if-Refuses (policy.hard_guardrails && not named)
      (denied "Operation cannot be classified under global policy"
        "guardrails.unclassified_operation")
      (if-Refuses (named && includes policy.denied_operations (or_default input.operation ""))
        (denied "Operation disabled by global policy" "guardrails.denied_operations")
        (if-Refuses
          (not (is_empty policy.allowed_recipient_domains)
            && named
            && includes send_operations (or_default input.operation ""))
          (email_guardrail-Refuses policy.allowed_recipient_domains input.outbound_email) nothing))

-- A call that the guardrails do not permit is denied, whatever rules and default the policy has.
decide-refused :
    (policy : YamlPolicy) (input : ToolPolicyInput)
    → ¬ Permitted policy input
    → (reason : String) × (id : String) × (decide policy input ≡ Policy.deny reason (some id))
unfolding decide
decide-refused policy input n = elim (Option-cases (guardrail policy input)) [
  | inl free ↦ absurd (n ((guardrail_iff policy input).0 free))
  | inr (d, e) ↦
      let (reason, id, is_deny) = denial (subst Refuses e (guardrail-Refuses policy input)) in
      (reason, id, rw e is_deny)
]

-- A call that the guardrails permit is decided by the rules alone.
decide-Permitted :
    (policy : YamlPolicy) (input : ToolPolicyInput)
    → Permitted policy input
    → decide policy input ≡ decide_rules policy.rules 0 policy.default_effect input
unfolding decide
decide-Permitted policy input p = rw ((guardrail_iff policy input).1 p)
