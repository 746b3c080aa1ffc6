-- ===== src/Audit/Tests.antt =====
-- Arguments of a tool, redacted.
use mcp_gw.Common.{◌≡◌, refl, true}
use mcp_gw.Json.{Json, Props, nat, str, obj, prop, end}
use mcp_gw.Audit.{sensitive_key, redact_value}
use mcp_gw.Audit.Laws.{in_obj, hidden, shown, ended, same, redact_value_hides}

abbrev rest : Props
rest = prop "path" (str "/tmp") end

abbrev mine : Json
mine = obj (prop "accessToken" (str "abc") rest)

abbrev yours : Json
yours = obj (prop "accessToken" (nat 7) rest)

token-sensitive : sensitive_key "accessToken" ≡ true
unfolding sensitive_key
token-sensitive = refl

redact_value_hides_example : redact_value mine ≡ redact_value yours
redact_value_hides_example =
    redact_value_hides mine yours
      (in_obj (hidden token-sensitive (shown (same (str "/tmp")) ended)))
