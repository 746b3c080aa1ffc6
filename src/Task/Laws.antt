-- ===== src/Task/Laws.antt =====
-- A task's token allows the grants that it lists, each spelled out in full, and nothing else.
use mcp_gw.Common.{
  String, Bool, true, false, ◌&&◌, Option, none, some, List, ◌≡◌, refl, ◌↔◌, inl, inr, arith,
  if◌then◌else◌, Bool-cases, Option-cases,
}
use mcp_gw.Common.Lists.{includes}
use mcp_gw.Json.{
  Json, undefined, null, bool, nat, number, str, arr, obj, Props, get, keys, record?, array?,
  is_undefined,
}
use mcp_gw.Task.{
  TaskToolGrant, unrestricted, restricted_authorization, is_legacy_task_marker,
  is_current_task_marker, only_grant, connection_status_authority_grant, parse_grants, granted,
  tools_of, authorization_of, parse_task_tool_authorization, task_authority_claim,
  connection_status_purpose, is_text,
}
use mcp_gw.Task.Grants.{IsListed, among-IsListed, IsListed-among}

is_undefined-is_text : (v : Json) (s : String) → is_undefined v ≡ true → is_text s v ≡ false
is_undefined-is_text undefined s h = refl
is_undefined-is_text null s h = cc
is_undefined-is_text (bool b) s h = cc
is_undefined-is_text (nat n) s h = cc
is_undefined-is_text (number n) s h = cc
is_undefined-is_text (str t) s h = cc
is_undefined-is_text (arr vs) s h = cc
is_undefined-is_text (obj ps) s h = cc

marker-purpose :
    (authority : Props)
    → is_current_task_marker (some authority) ≡ true
    → is_undefined (get authority "purpose") ≡ true
unfolding is_current_task_marker is_legacy_task_marker
marker-purpose authority h = ground arith

-- A task's own token is not one that only reads the status of a connection: it has no purpose.
marker-connection_status :
    (authority : Props)
    → is_current_task_marker (some authority) ≡ true
    → connection_status_authority_grant (some authority) ≡ none
unfolding connection_status_authority_grant
marker-connection_status authority h =
    let no_purpose =
      is_undefined-is_text (get authority "purpose") connection_status_purpose
        (marker-purpose authority h) in
    elim (Option-cases (only_grant (array? (get authority "tools")))) [
      | inl missing ↦ rw missing refl
      | inr (grant, e) ↦ rw e (ground arith)
    ]

is_current-is_legacy :
    (authority : Option Props)
    → is_current_task_marker authority ≡ true
    → is_legacy_task_marker authority ≡ true
unfolding is_current_task_marker
is_current-is_legacy authority h = ground arith

array-is_undefined : (v : Json) (tools : List Json) → array? v ≡ some tools → is_undefined v ≡ false
array-is_undefined (arr vs) tools h = refl
array-is_undefined undefined tools h = cc
array-is_undefined null tools h = cc
array-is_undefined (bool b) tools h = cc
array-is_undefined (nat n) tools h = cc
array-is_undefined (number n) tools h = cc
array-is_undefined (str t) tools h = cc
array-is_undefined (obj ps) tools h = cc

task-allows :
    (authority : Props) (tools : List Json) (allow_legacy : Bool)
    → is_current_task_marker (some authority) ≡ true
    → array? (get authority "tools") ≡ some tools
    → authorization_of allow_legacy
        (some authority)
        (connection_status_authority_grant (some authority))
      ≡ restricted_authorization (granted (parse_grants tools)) true
unfolding authorization_of tools_of
task-allows authority tools allow_legacy marker listed =
    rw
      (
        marker-connection_status authority marker,
        is_current-is_legacy (some authority) marker,
        array-is_undefined (get authority "tools") tools listed,
        marker,
        listed,
      )
      refl

-- A current task token with a list of tools allows a grant exactly when every tool in the list is
-- an object of a provider, a resource and an action that are not blank, and nothing more, and one
-- of them spells out that grant. So a single tool that is not well formed denies them all.
pub parse_task_tool_authorization_iff :
    (claims authority : Props) (tools : List Json) (allow_legacy : Bool) (g : TaskToolGrant)
    → includes (keys claims) task_authority_claim ≡ true
    → get claims task_authority_claim ≡ obj authority
    → is_current_task_marker (some authority) ≡ true
    → array? (get authority "tools") ≡ some tools
    → ((parse_task_tool_authorization claims allow_legacy).allows g ≡ true) ↔ IsListed g tools
unfolding parse_task_tool_authorization
parse_task_tool_authorization_iff claims authority tools allow_legacy g has is_authority marker
      listed =
    rw (has, is_authority, task-allows authority tools allow_legacy marker listed)
      (among-IsListed tools g, IsListed-among tools g)

-- How a token that has not to name its tools came about.
pub data IsExempt (claims : Props) (allow_legacy : Bool) : Type 0 where
  no_task : includes (keys claims) task_authority_claim ≡ false → IsExempt claims allow_legacy
  opted_in :
      {authority : Props}
      → allow_legacy ≡ true
      → record? (get claims task_authority_claim) ≡ some authority
      → is_legacy_task_marker (some authority) ≡ true
      → is_undefined (get authority "tools") ≡ true
      → IsExempt claims allow_legacy

none-marker : is_legacy_task_marker none ≡ false
unfolding is_legacy_task_marker
none-marker = refl

exempt-true :
    (b c d : Bool) (grants : List TaskToolGrant)
    → (if b && c && d then unrestricted else restricted_authorization grants true).restricted
      ≡ false
    → (b ≡ true) × (c ≡ true) × (d ≡ true)
exempt-true true true true grants h = (refl, refl, refl)
exempt-true true true false grants h = cc
exempt-true true false d grants h = cc
exempt-true false c d grants h = cc

authorization_of-unrestricted :
    (allow_legacy : Bool) (authority : Option Props) (status : Option TaskToolGrant)
    → (authorization_of allow_legacy authority status).restricted ≡ false
    → (allow_legacy ≡ true)
      × ((a : Props) × (authority ≡ some a)
          × (is_legacy_task_marker (some a) ≡ true)
          × (is_undefined (get a "tools") ≡ true))
unfolding authorization_of
authorization_of-unrestricted allow_legacy authority (some grant) h = cc
authorization_of-unrestricted allow_legacy none none h =
    let k : true ≡ false = rw none-marker at h in cc k
authorization_of-unrestricted allow_legacy (some a) none h =
    let (marker, undefined_, opted) =
      exempt-true (is_legacy_task_marker (some a)) (is_undefined (get a "tools")) allow_legacy _
        h in
    (opted, (a, refl, marker, undefined_))

-- A token is left unrestricted only when it carries no task claim at all, or when its tools are
-- undefined, it is marked as a task's, and such tokens have been opted into.
pub parse_task_tool_authorization-IsExempt :
    (claims : Props) (allow_legacy : Bool)
    → (parse_task_tool_authorization claims allow_legacy).restricted ≡ false
    → IsExempt claims allow_legacy
unfolding parse_task_tool_authorization
parse_task_tool_authorization-IsExempt claims allow_legacy h =
    elim (Bool-cases (includes (keys claims) task_authority_claim)) [
      | inr missing ↦ no_task missing
      | inl has ↦
          let authority = record? (get claims task_authority_claim) in
          let k : (authorization_of allow_legacy authority
                (connection_status_authority_grant authority)).restricted
              ≡ false =
            rw has at h in
          let (opted, (a, is_authority, marker, undefined_)) =
            authorization_of-unrestricted allow_legacy authority
              (connection_status_authority_grant authority) k in
          opted_in opted is_authority marker undefined_
    ]
