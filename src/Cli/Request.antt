-- ===== src/Cli/Request.antt =====
-- servers/governed-cli/src/http.ts, prepare: the checks between a request and a command line that is
-- run; with authenticateTaskRequest and taskOwner of packages/wrapper-kit/src/governed-http.ts. What
-- verifies a token, what reads the body, and the length of a text in bytes are parameters.
pub mod Asked
pub mod Laws
mod Tests
use mcp_gw.Common.{
  ℕ, String, Bool, true, false, not, ◌&&◌, ◌||◌, Option, none, some, List, [], ◌∷◌, map, truthy,
  ltb, nat_eq, ◌==◌, if◌then◌else◌,
}
use mcp_gw.Common.Errors.{Result, ok, err}
use mcp_gw.Common.Text.{trim}
use mcp_gw.Common.Lists.{any, every, includes, length}
use mcp_gw.Common.Dict.{Dict, lookup}
use mcp_gw.Json.{Json, str, Props, get, keys, record?, string?, array?}
use mcp_gw.Policy.{ActionClass, class_name}
use mcp_gw.Task.{
  TaskToolGrant, TaskToolAuthorization, task_authority_claim, parse_task_tool_authorization,
}
use mcp_gw.Cli.Pack.{RequestLimits, Property, own, inherited, missing, property}
use mcp_gw.Cli.Kubectl.{ClassifiedCommand}

pub record TaskIdentity : Type 0 where
  pub issuer : String
  pub subject : String
  pub claims : Props

-- A response that is not the one asked for.
pub record Refusal : Type 0 where
  pub status : ℕ
  pub error : String
  pub message : String

pub data Checked (A : Type 0) : Type 0 where
  passed : A → Checked A
  refused : Refusal → Checked A

abbrev pub error_response : {A : Type 0} → ℕ → String → String → Checked A
error_response status error message =
    refused (record { status = status; error = error; message = message })

infixl 5 ◌>>=◌
abbrev pub ◌>>=◌ : {A B : Type 0} → Checked A → (A → Checked B) → Checked B
refused refusal >>= next = refused refusal
passed a >>= next = next a

-- A catalog's commands and a classifier, whose refusal is a message.
pub record CliTarget : Type 0 where
  pub cli : String
  pub commands : Dict ActionClass
  pub classify : List String → Result ClassifiedCommand

pub record CliRequest : Type 0 where
  pub token : Option String
  pub body : Checked Json

pub record PreparedRun : Type 0 where
  pub identity : TaskIdentity
  pub target : CliTarget
  pub args : List String
  pub command_class : ActionClass
  pub grant : TaskToolGrant

pub record Authenticated : Type 0 where
  pub identity : TaskIdentity
  pub authorization : TaskToolAuthorization

abbrev pub task_denied : {A : Type 0} → Checked A
task_denied = error_response 403 "task_tool_not_approved" "CLI is not approved for this Task"

abbrev pub authenticated_as : Option TaskIdentity → Checked Authenticated
authenticated_as none = error_response 401 "unauthorized" "invalid bearer token"
authenticated_as (some identity) = passed (record {
  identity = identity;
  authorization = parse_task_tool_authorization identity.claims false;
})

-- `authenticate` gives nothing where the token is not valid.
unfoldable pub authenticate_task_request :
    (String → Option TaskIdentity) → Option String → Checked Authenticated
authenticate_task_request authenticate none =
    error_response 401 "unauthorized" "bearer token is required"
authenticate_task_request authenticate (some token) =
    if token == ""
    then error_response 401 "unauthorized" "bearer token is required"
    else authenticated_as (authenticate token)

abbrev both : Option String → Option (List String) → Option (List String)
both (some text) (some texts) = some (text ∷ texts)
both _ _ = none

abbrev strings : List Json → Option (List String)
strings [] = some []
strings (value ∷ values) = both (string? value) (strings values)

abbrev asked_args : Option (List Json) → Option (List String)
asked_args none = none
asked_args (some values) = strings values

abbrev asked_of : Option String → Option (List String) → Checked (String × List String)
asked_of (some cli) (some args) = passed (cli, args)
asked_of _ _ = error_response 400 "invalid_request" "cli and string-array args are required"

abbrev pub with_fields : Option Props → Checked (String × List String)
with_fields none = error_response 400 "invalid_request" "Only cli and args are supported"
with_fields (some body) =
    if any (λ key. not (includes ("cli" ∷ "args" ∷ []) key)) (keys body)
    then error_response 400 "invalid_request" "Only cli and args are supported"
    else asked_of (string? (get body "cli")) (asked_args (array? (get body "args")))

-- The command line that a body asks for
unfoldable pub parse_body : RequestLimits → (String → ℕ) → Json → Checked (String × List String)
parse_body limits byte_length body = do
  (cli, args) ← with_fields (record? body)
  if ltb limits.max_args (length args)
      then error_response 400 "invalid_request" "Too many CLI arguments"
      else if any (λ arg. ltb limits.max_arg_bytes (byte_length arg)) args
      then error_response 400 "invalid_request" "CLI argument is too long"
      else passed (cli, args)

abbrev later : Option CliTarget → Option CliTarget → Option CliTarget
later (some target) earlier = some target
later none earlier = earlier

-- A later target of the same name takes the place of an earlier one.
unfoldable pub find_target : String → List CliTarget → Option CliTarget
find_target cli [] = none
find_target cli (target ∷ targets) =
    later (find_target cli targets) (if target.cli == cli then some target else none)

abbrev pub class_of : Property ActionClass → Option ActionClass
class_of (own class) = some class
class_of inherited = none
class_of missing = none

-- `!==` on classes that may be undefined
abbrev pub other_class : Option ActionClass → Option ActionClass → Bool
other_class none none = false
other_class (some a) (some b) = not (class_name a == class_name b)
other_class _ _ = true

-- A class that is undefined is in no grant of a restricted token, whose parts are texts.
abbrev pub granted_run :
    Authenticated → String → CliTarget → List String → Option ActionClass → Checked PreparedRun
granted_run caller cli target args none = task_denied
granted_run caller cli target args (some class) =
    let grant : TaskToolGrant = record {
      provider = "cli";
      resource = cli;
      action = class_name class;
    } in
    if caller.authorization.allows grant
    then passed (record {
      identity = caller.identity;
      target = target;
      args = args;
      command_class = class;
      grant = grant;
    })
    else task_denied

unfoldable pub approve :
    Authenticated
    → String
    → CliTarget
    → List String
    → Result ClassifiedCommand
    → Checked PreparedRun
approve caller cli target args (err message) = error_response 400 "cli_command_refused" message
approve caller cli target args (ok classified) =
    if other_class (class_of (property target.commands classified.command)) classified.action_class
    then error_response 400 "cli_command_refused"
        "Classified command is absent from the decisions catalog"
    else granted_run caller cli target args classified.action_class

abbrev pub approve_for :
    Authenticated → String → List String → Option CliTarget → Checked PreparedRun
approve_for caller cli args none = task_denied
approve_for caller cli args (some target) =
    if caller.authorization.restricted
    then approve caller cli target args (target.classify args)
    else task_denied

unfoldable pub prepare :
    (String → Option TaskIdentity)
    → (String → ℕ)
    → RequestLimits
    → List CliTarget
    → CliRequest
    → Checked PreparedRun
unfolding authenticate_task_request parse_body find_target approve
prepare authenticate byte_length limits targets request = do
  caller ← authenticate_task_request authenticate request.token
  body ← request.body
  (cli, args) ← parse_body limits byte_length body
  approve_for caller cli args (find_target cli targets)

abbrev named_owner : (List String → String) → TaskIdentity → String → Option String
named_owner stringify identity runtime_uid =
    if truthy runtime_uid
    then some (stringify (identity.issuer ∷ identity.subject ∷ runtime_uid ∷ []))
    else none

abbrev owner_of : (List String → String) → TaskIdentity → Option String → Option String
owner_of stringify identity none = none
owner_of stringify identity (some runtime_uid) = named_owner stringify identity (trim runtime_uid)

abbrev runtime_uid_of : Option Props → Option String
runtime_uid_of none = none
runtime_uid_of (some authority) = string? (get authority "runtime_uid")

-- `stringify` is the JSON text of a list of texts.
unfoldable pub task_owner : (List String → String) → TaskIdentity → Option String
task_owner stringify identity =
    owner_of stringify identity
      (runtime_uid_of (record? (get identity.claims task_authority_claim)))
