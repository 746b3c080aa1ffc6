-- ===== src/Audit.antt =====
-- shared/audit/audit.ts: what is hidden of a tool's arguments before they leave the process.
pub mod Laws
pub mod Tests
use mcp_gw.Common.{String, Bool, ◌||◌, List, ◌∷◌, [], map, if◌then◌else◌}
use mcp_gw.Common.Text.{codes, fold_case, contains}
use mcp_gw.Json.{
  Json, Elems, Props, undefined, null, bool, nat, number, str, arr, obj, nil, cons, end, prop,
}

-- `/token|secret|password|authorization/i`
unfoldable pub sensitive_key : String → Bool
unfolding codes fold_case contains
sensitive_key key =
    let folded = map fold_case (codes key) in
    contains (codes "token") folded
    || contains (codes "secret") folded
    || contains (codes "password") folded
    || contains (codes "authorization") folded

unfoldable mutual
  pub redact_value : Json → Json
  redact_value undefined = undefined
  redact_value null = null
  redact_value (bool b) = bool b
  redact_value (nat n) = nat n
  redact_value (number n) = number n
  redact_value (str s) = str s
  redact_value (arr vs) = arr (redact_elems vs)
  redact_value (obj ps) = obj (redact_props ps)

  pub redact_elems : Elems → Elems
  redact_elems nil = nil
  redact_elems (cons v vs) = cons (redact_value v) (redact_elems vs)

  pub redact_props : Props → Props
  redact_props end = end
  redact_props (prop k v ps) =
      prop k (if sensitive_key k then str "[redacted]" else redact_value v) (redact_props ps)
