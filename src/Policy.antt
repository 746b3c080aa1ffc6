-- ===== src/Policy.antt =====
-- shared/policy/policy.ts: what a policy is asked and answers, and the policy that joins several.
-- A policy is a function of the input; what it keeps to itself (files, a server's answer) is part of
-- the function. A rejected promise is `err`.

pub mod Scopes
pub mod Severity
pub mod Yaml
pub mod Config
pub mod Opa
pub mod Tests
use mcp_gw.Common.{ℕ, String, Bool, true, false, not, Option, none, some, List, [], ◌∷◌, or_default}
use mcp_gw.Common.Lists.{any}
use mcp_gw.Common.Errors.{Result, ok, err, ◌>>=◌}
use mcp_gw.Json.{Props}

-- `ActionClass` of shared/cli/command-execution.ts
pub data ActionClass : Type 0 where
  read secret_read write destructive : ActionClass

abbrev pub class_name : ActionClass → String
class_name read = "read"
class_name secret_read = "secret-read"
class_name write = "write"
class_name destructive = "destructive"

pub record ScopeGroup : Type 0 where
  pub any_of : List String

-- AND of groups, each of which accepts any one scope.
pub record ScopeRequirement : Type 0 where
  pub all_of : List ScopeGroup

-- Its `kind` is always "verified", so it is left out.
pub record VerifiedOutboundEmail : Type 0 where
  pub recipient_domains : List String

pub record ToolPolicyInput : Type 0 where
  pub principal : String
  pub token_claims : Props
  pub tool : String
  pub operation : Option String
  pub service : String
  pub action_class : ActionClass
  pub scopes : List String
  pub scope_requirement : Option ScopeRequirement
  pub outbound_email : Option VerifiedOutboundEmail
  pub args : Props

pub data PolicyDecision : Type 0 where
  allow : PolicyDecision
  deny : (reason : String) (rule_id : Option String) → PolicyDecision
  approval_required : (reason : String) (rule_id : Option String) → PolicyDecision

pub record ToolPolicy : Type 0 where
  pub hard_guardrails : Bool
  pub decide : ToolPolicyInput → Result PolicyDecision

abbrev pub allow_all_policy : ToolPolicy
allow_all_policy = record { hard_guardrails = false; decide = λ input. ok allow }

-- The loop of `CompositePolicy.decide`: a denial returns at once, and the last request for approval
-- is kept. What is left to do after one policy's decision is a function by clauses.
after_decision :
    (Option PolicyDecision → Result PolicyDecision)
    → Option PolicyDecision
    → PolicyDecision
    → Result PolicyDecision
after_decision rest approval allow = rest approval
after_decision rest approval (deny reason rule_id) = ok (deny reason rule_id)
after_decision rest approval (approval_required reason rule_id) =
    rest (some (approval_required reason rule_id))

pub decide_from : List ToolPolicy → ToolPolicyInput → Option PolicyDecision → Result PolicyDecision
unfolding after_decision
decide_from [] input approval = ok (or_default approval allow)
decide_from (policy ∷ policies) input approval = do
  decision ← policy.decide input
  after_decision (decide_from policies input) approval decision

unfoldable pub composite_policy : List ToolPolicy → ToolPolicy
unfolding decide_from
composite_policy policies = record {
  hard_guardrails = any (λ policy. policy.hard_guardrails) policies;
  decide = λ input. decide_from policies input none;
}
