-- ===== src/Cli/Request/Tests.antt =====
-- A request for pods under a token that lists reading with kubectl.
use mcp_gw.Task.{
  same_key, parse_task_tool_authorization, is_legacy_task_marker, is_current_task_marker,
  connection_status_authority_grant, authorization_of,
}
use mcp_gw.Common.Text.{to_lower, split_on, is_blank, before}
use mcp_gw.Common.Dict.{lookup}
use mcp_gw.Common.{ℕ, String, Option, some, List, [], ◌∷◌, ◌≡◌, refl}
use mcp_gw.Common.Lists.{All}
use mcp_gw.Common.Errors.{ok}
use mcp_gw.Json.{str, obj, arr, nil, cons, prop, end}
use mcp_gw.Policy.{read}
use mcp_gw.Task.Tests.{claims, authority, tool, grant, current-marker}
use mcp_gw.Task.Grants.{IsListed}
use mcp_gw.Cli.Pack.{property}
use mcp_gw.Cli.Kubectl.{command_of, classify_kubectl}
use mcp_gw.Cli.Kubectl.Flags.{IsSafe}
use mcp_gw.Cli.Tests.{pack}
use mcp_gw.Cli.Request.{TaskIdentity, passed, CliTarget, CliRequest, PreparedRun, prepare}
use mcp_gw.Cli.Request.Laws.{IsPrepared, prepare-IsGranted, prepare-IsListed}

abbrev identity : TaskIdentity
identity = record { issuer = "iss"; subject = "sub"; claims = claims }

abbrev verify : String → Option TaskIdentity
verify token = some identity

abbrev one_byte : String → ℕ
one_byte text = 1

abbrev kubectl : CliTarget
kubectl = record { cli = "kubectl"; commands = pack.commands; classify = classify_kubectl pack }

abbrev asked : List String
asked = "get" ∷ "pods" ∷ []

abbrev request : CliRequest
request = record {
  token = some "t";
  body = passed (
      obj (
        prop "cli" (str "kubectl")
          (prop "args" (arr (cons (str "get") (cons (str "pods") nil))) end)));
}

abbrev run : PreparedRun
run = record {
  identity = identity;
  target = kubectl;
  args = asked;
  command_class = read;
  grant = grant;
}

request-prepared : prepare verify one_byte pack.request_limits (kubectl ∷ []) request ≡ passed run
unfolding prepare parse_task_tool_authorization authorization_of connection_status_authority_grant
    is_blank is_legacy_task_marker classify_kubectl property lookup command_of split_on to_lower
    before is_current_task_marker same_key
request-prepared = refl

prepare-IsGranted_example :
    IsPrepared verify one_byte pack.request_limits (kubectl ∷ []) request run
prepare-IsGranted_example =
    prepare-IsGranted verify one_byte pack.request_limits (kubectl ∷ []) request run
      request-prepared

prepare-IsListed_example :
    All IsSafe asked
    × ((command : String) × (classify_kubectl pack asked
          ≡ ok (record { command = command; action_class = some read })))
    × IsListed grant (tool ∷ [])
prepare-IsListed_example =
    prepare-IsListed verify one_byte pack.request_limits (kubectl ∷ []) request run pack authority
      (tool ∷ []) request-prepared refl refl refl current-marker refl
