-- ===== src/Task/Options.antt =====
-- packages/wrapper-kit/src/task-tool-authorization.ts: the environment's opt-in to tokens that name
-- no tools. The result is `allowLegacyUnscopedTaskTokens`.
use mcp_gw.Common.{String, Bool, true, false, ◌||◌, Option, none, some, ◌==◌, if◌then◌else◌}
use mcp_gw.Common.Text.{◌<>◌, trim}
use mcp_gw.Common.Dict.{Dict, lookup}
use mcp_gw.Common.Errors.{Result, ok, err}

abbrev pub legacy_opt_out_env : String
legacy_opt_out_env = "MCP_GW_ALLOW_LEGACY_UNSCOPED_TASK_TOKENS"

unfoldable pub legacy_option : Option String → Result Bool
legacy_option none = ok false
legacy_option (some value) =
    let raw = trim value in
    if raw == "" || raw == "false"
    then ok false
    else if raw == "true"
    then ok true
    else err (legacy_opt_out_env <> " must be true or false")

unfoldable pub read_task_tool_authorization_options : Dict String → Result Bool
unfolding legacy_option
read_task_tool_authorization_options env = legacy_option (lookup legacy_opt_out_env env)
