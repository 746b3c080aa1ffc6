-- ===== src/Policy/Opa.antt =====
-- shared/policy/policy.ts: OpaPolicyAdapter. The evaluator asks a server, and so is a parameter.
pub mod Laws
use mcp_gw.Common.{
  String, Bool, true, false, not, ◌&&◌, Option, none, some, or_default, truthy, nat_eq,
  if◌then◌else◌,
}
use mcp_gw.Common.Lists.{includes}
use mcp_gw.Common.Text.{◌<>◌}
use mcp_gw.Common.Errors.{Result, ok, err, ◌>>=◌}
use mcp_gw.Json.{Json, undefined, null, bool, nat, str, obj, Props, end, prop, get}
use mcp_gw.Audit.{redact_props}
use mcp_gw.Policy.{ToolPolicyInput, PolicyDecision, allow, deny, approval_required, ToolPolicy}
use mcp_gw.Policy.Yaml.{send_operations}

-- What a policy server answers is not checked: `OpaPolicyResponse` is any value. A reason that is not
-- a text is passed on as it is; a decision has a text here, and `as_text` stands for what is shown.
abbrev pub OpaPolicyEvaluator : Type 0
OpaPolicyEvaluator = ToolPolicyInput → Result Json

-- What is sent: no arguments of a call that sends mail, and those of others redacted.
unfoldable pub opa_request : ToolPolicyInput → ToolPolicyInput
unfolding redact_props
opa_request input =
    let operation = or_default input.operation "" in
    record input {
      args =
          if truthy operation && includes send_operations operation
          then end
          else redact_props input.args;
    }

-- `Boolean(value)` of a value that JSON can spell, where 0 is the only number that is false.
unfoldable pub is_truthy : Json → Bool
is_truthy undefined = false
is_truthy null = false
is_truthy (bool b) = b
is_truthy (nat n) = not (nat_eq n 0)
is_truthy (str s) = truthy s
is_truthy _ = true

-- `value?.key`; a value that is not an object has none of the keys that are asked for.
abbrev pub member : Json → String → Json
member (obj ps) key = get ps key
member _ key = undefined

-- `response.result`, which throws where there is no response
unfoldable pub result_of : Json → Result Json
result_of undefined = err "Cannot read properties of undefined (reading 'result')"
result_of null = err "Cannot read properties of null (reading 'result')"
result_of response = ok (member response "result")

module _ (as_text : Json → String) where
  -- `result?.reason ?? "policy denied"`
  abbrev reason_of : Json → String
  reason_of undefined = "policy denied"
  reason_of null = "policy denied"
  reason_of (str reason) = reason
  reason_of reason = as_text reason

  unfoldable pub opa_decision : Json → PolicyDecision
  unfolding is_truthy
  opa_decision result =
      if is_truthy (member result "allow")
      then allow
      else if is_truthy (member result "approval_required")
      then approval_required (reason_of (member result "reason")) none
      else deny (reason_of (member result "reason")) none

  -- The `hardGuardrails` field is left out by this policy, and so counts as false.
  unfoldable pub opa_policy_adapter : OpaPolicyEvaluator → ToolPolicy
  unfolding opa_request opa_decision result_of
  opa_policy_adapter evaluate = record {
    hard_guardrails = false;
    decide = λ input. do
      response ← evaluate (opa_request input)
      result ← result_of response
      ok (opa_decision result);
  }

-- The answer of the server as `fetch` delivers it: its status, whether that is a success, and the
-- body read as JSON.
pub record Response : Type 0 where
  pub ok_status : Bool
  pub status : String
  pub json : Result Json

abbrev pub failure : String → Json
failure status = obj (
    prop "result"
      (obj (
        prop "allow" (bool false)
          (prop "reason" (str ("OPA policy request failed: " <> status)) end)))
      end)

answer : Response → Result Json
answer response = if response.ok_status then response.json else ok (failure response.status)

-- `createOpaPolicyFromUrl`; the request is posted to the URL by `fetch`, a parameter.
unfoldable pub create_opa_policy_from_url :
    (Json → String) → (ToolPolicyInput → Result Response) → ToolPolicy
unfolding opa_policy_adapter answer
create_opa_policy_from_url as_text fetch =
    opa_policy_adapter as_text λ request. do response ← fetch request; answer response
