-- ===== src/Task/Tests.antt =====
-- Task tokens: one that lists its tools, one that is of an earlier form, and the grant asked for.
use mcp_gw.Common.Text.{is_blank}
use mcp_gw.Common.{true, false, some, [], ◌∷◌, ◌≡◌, refl, ◌↔◌}
use mcp_gw.Json.{Json, Props, nat, str, obj, arr, nil, cons, prop, end}
use mcp_gw.Task.{
  connection_status_authority_grant, authorization_of, TaskToolGrant, is_current_task_marker,
  is_legacy_task_marker, parse_task_tool_authorization,
}
use mcp_gw.Task.Grants.{IsListed}
use mcp_gw.Task.Laws.{
  IsExempt, parse_task_tool_authorization_iff, parse_task_tool_authorization-IsExempt,
}

abbrev pub grant : TaskToolGrant
grant = record { provider = "cli"; resource = "kubectl"; action = "read" }

abbrev pub tool : Json
tool =
    obj (
      prop "provider" (str "cli")
        (prop "resource" (str "kubectl") (prop "action" (str "read") end)))

abbrev pub authority : Props
authority = prop "version" (nat 3) (
    prop "runtime_uid" (str "r-1")
      (prop "acting_as" (str "user") (prop "tools" (arr (cons tool nil)) end)))

abbrev pub claims : Props
claims = prop "steward" (obj authority) end

pub current-marker : is_current_task_marker (some authority) ≡ true
unfolding is_current_task_marker is_legacy_task_marker is_blank
current-marker = refl

parse_task_tool_authorization_iff_example :
    ((parse_task_tool_authorization claims false).allows grant ≡ true) ↔ IsListed grant (tool ∷ [])
parse_task_tool_authorization_iff_example =
    parse_task_tool_authorization_iff claims authority (tool ∷ []) false grant refl refl
      current-marker refl

abbrev legacy_claims : Props
legacy_claims =
    prop "steward"
      (obj (
        prop "version" (nat 1)
          (prop "runtime_uid" (str "r-1") (prop "acting_as" (str "user") end))))
      end

legacy-unrestricted : (parse_task_tool_authorization legacy_claims true).restricted ≡ false
unfolding parse_task_tool_authorization authorization_of connection_status_authority_grant
    is_legacy_task_marker is_blank
legacy-unrestricted = refl

parse_task_tool_authorization-IsExempt_example : IsExempt legacy_claims true
parse_task_tool_authorization-IsExempt_example =
    parse_task_tool_authorization-IsExempt legacy_claims true legacy-unrestricted
