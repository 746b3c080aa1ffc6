-- ===== src/Task.antt =====
-- packages/wrapper-kit/src/task-tool-authorization.ts: what the token of a task allows its bearer to
-- call. A key of a grant is the JSON text of its three parts, which are the same when the texts are:
-- keys are compared by the parts.
pub mod Grants
pub mod Laws
pub mod Options
pub mod Tests
use mcp_gw.Common.{
  ℕ, String, Bool, true, false, not, ◌&&◌, ◌||◌, Option, none, some, List, [], ◌∷◌, leb, nat_eq,
  ◌==◌, truthy, if◌then◌else◌, ◌>>=◌,
}
use mcp_gw.Common.Text.{is_blank, trim}
use mcp_gw.Common.Lists.{any, includes}
use mcp_gw.Json.{Json, undefined, nat, str, Props, get, keys, record?, array?, is_undefined}

pub record TaskToolGrant : Type 0 where
  pub provider : String
  pub resource : String
  pub action : String

pub record TaskToolAuthorization : Type 0 where
  pub restricted : Bool
  pub allows_connection_helpers : Bool
  pub allows : TaskToolGrant → Bool
  pub allows_any : List TaskToolGrant → Bool

abbrev pub task_authority_claim : String
task_authority_claim = "steward"

abbrev control_plane_service : String
control_plane_service = "steward-apiserver"

abbrev pub connection_status_purpose : String
connection_status_purpose = "provider_connection_status"

abbrev pub current_task_authority_claims_version : ℕ
current_task_authority_claims_version = 3

abbrev pub unrestricted : TaskToolAuthorization
unrestricted = record {
  restricted = false;
  allows_connection_helpers = true;
  allows = λ grant. true;
  allows_any = λ grants. true;
}

-- `grantKey(g) === grantKey(h)`
unfoldable pub same_key : TaskToolGrant → TaskToolGrant → Bool
same_key g h = g.provider == h.provider && g.resource == h.resource && g.action == h.action

abbrev pub among : List TaskToolGrant → TaskToolGrant → Bool
among grants g = any (λ h. same_key h g) grants

abbrev pub restricted_authorization : List TaskToolGrant → Bool → TaskToolAuthorization
restricted_authorization grants helpers = record {
  restricted = true;
  allows_connection_helpers = helpers;
  allows = among grants;
  allows_any = any (among grants);
}

-- `authority?.key`
abbrev pub field : Option Props → String → Json
field none key = undefined
field (some authority) key = get authority key

-- `typeof value === "string" && value.trim().length > 0`
unfoldable pub non_empty_string : Json → Option String
non_empty_string (str s) = if is_blank s then none else some s
non_empty_string _ = none

-- `value === text`
abbrev pub is_text : String → Json → Bool
is_text s (str t) = t == s
is_text s _ = false

abbrev pub is_present : Option String → Bool
is_present none = false
is_present (some s) = true

-- `value === n`
abbrev pub is_number : ℕ → Json → Bool
is_number n (nat m) = nat_eq m n
is_number n _ = false

abbrev pub is_version : Json → Bool
is_version (nat n) = leb 1 n
is_version _ = false

-- The grant's object has no key but these.
abbrev pub is_unknown_key : String → Bool
is_unknown_key key = not (includes ("provider" ∷ "resource" ∷ "action" ∷ []) key)

unfoldable pub parse_grant : Json → Option TaskToolGrant
unfolding non_empty_string
parse_grant value = do
  grant ← record? value
  if any is_unknown_key (keys grant) then none else do
    provider ← non_empty_string (get grant "provider")
    resource ← non_empty_string (get grant "resource")
    action ← non_empty_string (get grant "action")
    some (record { provider = provider; resource = resource; action = action })

unfoldable pub is_legacy_task_marker : Option Props → Bool
unfolding non_empty_string
is_legacy_task_marker none = false
is_legacy_task_marker (some authority) =
    if not (is_version (get authority "version"))
      || not (is_present (non_empty_string (get authority "runtime_uid")))
      || not (is_undefined (get authority "purpose"))
    then false
    else if is_text "user" (get authority "acting_as")
    then is_undefined (get authority "service")
    else if is_text "service" (get authority "acting_as")
        || is_text "service_for_user" (get authority "acting_as")
    then is_present (non_empty_string (get authority "service"))
    else false

unfoldable pub is_current_task_marker : Option Props → Bool
is_current_task_marker authority =
    is_number current_task_authority_claims_version (field authority "version")
    && is_legacy_task_marker authority

-- `Array.isArray(tools) && tools.length === 1 ? parseGrant(tools[0]) : undefined`
unfoldable pub only_grant : Option (List Json) → Option TaskToolGrant
unfolding parse_grant
only_grant (some (tool ∷ [])) = parse_grant tool
only_grant _ = none

abbrev pub is_status_grant : TaskToolGrant → Bool
is_status_grant grant = grant.resource == "provider-control" && grant.action == "status"

unfoldable pub connection_status_authority_grant : Option Props → Option TaskToolGrant
unfolding only_grant
connection_status_authority_grant authority = do
  grant ← only_grant (array? (field authority "tools"))
  if is_text "service_for_user" (field authority "acting_as")
        && is_text control_plane_service (field authority "service")
        && is_text connection_status_purpose (field authority "purpose")
        && is_undefined (field authority "runtime_uid")
        && is_number current_task_authority_claims_version (field authority "version")
        && is_status_grant grant
      then some grant
      else none

unfoldable pub parse_grants : List Json → Option (List TaskToolGrant)
unfolding parse_grant
parse_grants [] = some []
parse_grants (value ∷ values) = do
  grant ← parse_grant value
  grants ← parse_grants values
  some (grant ∷ grants)

-- One tool that is not a grant, and nothing is granted.
abbrev pub granted : Option (List TaskToolGrant) → List TaskToolGrant
granted none = []
granted (some grants) = grants

unfoldable pub tools_of : Option Props → Option (List TaskToolGrant)
unfolding parse_grants
tools_of authority =
    if not (is_current_task_marker authority)
    then none
    else array? (field authority "tools") >>= parse_grants

unfoldable pub authorization_of : Bool → Option Props → Option TaskToolGrant → TaskToolAuthorization
unfolding tools_of
authorization_of allow_legacy authority (some grant) = restricted_authorization (grant ∷ []) false
authorization_of allow_legacy authority none =
    if is_legacy_task_marker authority && is_undefined (field authority "tools") && allow_legacy
    then unrestricted
    else restricted_authorization (granted (tools_of authority)) true

unfoldable pub parse_task_tool_authorization : Props → Bool → TaskToolAuthorization
parse_task_tool_authorization claims allow_legacy =
    if not (includes (keys claims) task_authority_claim)
    then unrestricted
    else let authority = record? (get claims task_authority_claim) in
      authorization_of allow_legacy authority (connection_status_authority_grant authority)
