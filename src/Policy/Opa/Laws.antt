-- ===== src/Policy/Opa/Laws.antt =====
-- What the external policy learns of a call, and when it lets a call through.
use mcp_gw.Common.{
  String, true, false, ◌≢◌, Bool-cases, ◌&&◌, or_default, truthy, ◌≡◌, refl, ap, sym, ◌∙◌, ◌⊎◌, inl,
  inr, arith, if◌then◌else◌,
}
use mcp_gw.Common.Lists.{includes, Has, includes_iff}
use mcp_gw.Common.Errors.{Result, ok, ◌>>=◌, >>=-eq-ok, ok-injective}
use mcp_gw.Json.{Json, undefined, null, bool, nat, str, obj, Props, end, get}
use mcp_gw.Audit.{redact_props}
use mcp_gw.Audit.Laws.{AgreeProps, redact_props-Agree}
use mcp_gw.Policy.{ToolPolicyInput, allow}
use mcp_gw.Policy.Yaml.{send_operations}
use mcp_gw.Policy.Yaml.Guardrails.{send_operations-named}
use mcp_gw.Policy.Opa.{
  is_truthy, member, result_of, OpaPolicyEvaluator, opa_request, opa_decision, opa_policy_adapter,
  Response, failure, answer, create_opa_policy_from_url,
}

-- The call with other arguments.
abbrev pub with_args : ToolPolicyInput → Props → ToolPolicyInput
with_args input args = record input { args = args }

-- The two sets of arguments are the same but for what stands below sensitive keys, or the operation
-- sends mail.
abbrev pub SameToServer : ToolPolicyInput → Props → Props → Type 0
SameToServer input args args' =
    Has (or_default input.operation "") send_operations ⊎ AgreeProps args args'

opa_request-hides :
    (input : ToolPolicyInput) (args args' : Props)
    → SameToServer input args args'
    → opa_request (with_args input args) ≡ opa_request (with_args input args')
unfolding opa_request
opa_request-hides input args args' (inl sends) =
    let operation = or_default input.operation "" in
    let found : includes send_operations operation ≡ true =
      (includes_iff send_operations operation).1 sends in
    let both : (truthy operation && includes send_operations operation) ≡ true =
      rw (send_operations-named operation found, found) refl in
    ap (λ b. record input { args = if b then end else redact_props args }) both
    ∙ sym (ap (λ b. record input { args = if b then end else redact_props args' }) both)
opa_request-hides input args args' (inr agree) = rw (redact_props-Agree agree)

-- The external policy's answer does not depend on what stands below sensitive keys of the arguments,
-- nor on any argument of an operation that sends mail, whatever the server is.
opa_policy_adapter-hides :
    (as_text : Json → String) (evaluate : OpaPolicyEvaluator) (input : ToolPolicyInput)
    (args args' : Props)
    → SameToServer input args args'
    → (opa_policy_adapter as_text evaluate).decide (with_args input args)
      ≡ (opa_policy_adapter as_text evaluate).decide (with_args input args')
unfolding opa_policy_adapter
opa_policy_adapter-hides as_text evaluate input args args' same =
    rw (opa_request-hides input args args' same)

-- The value is not undefined, null, false, zero or the empty text.
pub record IsTruthy (value : Json) : Type 0 where
  pub defined : value ≢ undefined
  pub not_null : value ≢ null
  pub not_false : value ≢ bool false
  pub not_zero : value ≢ nat 0
  pub not_empty : value ≢ str ""

is_truthy-IsTruthy : (value : Json) → is_truthy value ≡ true → IsTruthy value
unfolding is_truthy
is_truthy-IsTruthy value h = record {
  defined = λ e. let k : false ≡ true = rw e at h in cc;
  not_null = λ e. let k : false ≡ true = rw e at h in cc;
  not_false = λ e. let k : false ≡ true = rw e at h in cc;
  not_zero = λ e. let k : false ≡ true = rw e at h in cc;
  not_empty = λ e. let k : false ≡ true = rw e at h in cc;
}

-- The server has permitted the call, in a successful response.
pub record Permits (response : Response) : Type 0 where
  pub succeeded : response.ok_status ≡ true
  pub fields : Props
  pub answered : response.json ≡ ok (obj fields)
  pub result : Props
  pub result_of : get fields "result" ≡ obj result
  pub allowed : IsTruthy (get result "allow")

member-IsTruthy :
    (value : Json) (key : String)
    → is_truthy (member value key) ≡ true
    → (ps : Props) × (value ≡ obj ps) × IsTruthy (get ps key)
unfolding is_truthy
member-IsTruthy (obj ps) key h = (ps, refl, is_truthy-IsTruthy (get ps key) h)
member-IsTruthy _ key h = cc

opa_decision-allow :
    (as_text : Json → String) (result : Json)
    → opa_decision as_text result ≡ allow
    → is_truthy (member result "allow") ≡ true
unfolding opa_decision
opa_decision-allow as_text result h = ground arith

result_of-obj :
    (body result : Json) (ps : Props)
    → result_of body ≡ ok result
    → result ≡ obj ps
    → (fields : Props) × (body ≡ obj fields) × (get fields "result" ≡ obj ps)
unfolding result_of
result_of-obj (obj fields) result ps r o = (fields, refl, ok-injective r ∙ o)
result_of-obj undefined result ps r o = cc
result_of-obj null result ps r o = cc
result_of-obj _ result ps r o = let k = ok-injective r in cc

-- What the answer of a failure says of `allow`
answered-Permits :
    (response : Response) (fields ps : Props)
    → answer response ≡ ok (obj fields)
    → get fields "result" ≡ obj ps
    → IsTruthy (get ps "allow")
    → Permits response
unfolding answer
answered-Permits response fields ps a r t = elim (Bool-cases response.ok_status) [
  | inl yes_ ↦ record {
    succeeded = yes_;
    fields = fields;
    answered = rw yes_ at a;
    result = ps;
    result_of = r;
    allowed = t;
  }
  | inr no_ ↦
      let same : ok (failure response.status) ≡ ok (obj fields) = rw no_ at a in
      let denied : bool false ≡ member (member (obj fields) "result") "allow" =
        ap (λ j. member (member j "result") "allow") (ok-injective same) in
      absurd (t.not_false (sym (denied ∙ ap (λ j. member j "allow") r)))
]

-- A server that answers with a failure, or whose answer does not say so, never lets a call through:
-- the call is allowed only by a successful response, an object whose `result` is an object with a
-- value `allow` that is none of undefined, null, false, zero and the empty text.
pub create_opa_policy_from_url-allow :
    (as_text : Json → String) (fetch : ToolPolicyInput → Result Response) (input : ToolPolicyInput)
    → (create_opa_policy_from_url as_text fetch).decide input ≡ ok allow
    → (response : Response) × (fetch (opa_request input) ≡ ok response) × Permits response
unfolding create_opa_policy_from_url opa_policy_adapter
create_opa_policy_from_url-allow as_text fetch input h =
    let (body, answered, k) = >>=-eq-ok (fetch (opa_request input) >>= answer) _ h in
    let (result, found, decided) = >>=-eq-ok (result_of body) _ k in
    let (response, fetched, said) = >>=-eq-ok (fetch (opa_request input)) _ answered in
    let (ps, is_object, allowed) =
      member-IsTruthy result "allow" (opa_decision-allow as_text result (ok-injective decided)) in
    let (fields, is_answer, is_result) = result_of-obj body result ps found is_object in
    (
      response,
      fetched,
      answered-Permits response fields ps (said ∙ ap ok is_answer) is_result allowed,
    )
