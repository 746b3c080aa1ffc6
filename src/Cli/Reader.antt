-- ===== src/Cli/Reader.antt =====
-- servers/governed-cli/src/pack.ts: the readers of one field of a pack. A reader that throws is an
-- `err` with its message.
use mcp_gw.Common.{
  ℕ, ◌-◌, ◌^◌, String, Bool, false, not, ◌&&◌, ◌||◌, Option, none, some, List, [], ◌∷◌, leb, nat_eq,
  truthy, ◌==◌, if◌then◌else◌,
}
use mcp_gw.Common.Text.{
  codes, ◌<>◌, is_lower, is_upper, is_digit, has_char, starts_with_char, is_blank,
}
use mcp_gw.Common.Lists.{any, every, find, includes, is_empty, length}
use mcp_gw.Common.Errors.{Result, ok, err, ◌>>=◌, ◌>>◌, require}
use mcp_gw.Json.{Json, nat, str, Props, keys, record?, array?}

abbrev pub or_fail {ℓ} : {A : Type ℓ} → Option A → String → Result A
or_fail none message = err message
or_fail (some a) message = ok a

abbrev no_extra : Option String → Result (Unit {0})
no_extra none = ok tt
no_extra (some extra) = if truthy extra then err ("unknown pack field: " <> extra) else ok tt

-- Only the first field that is not expected is looked at, and none with an empty name.
unfoldable pub only : Props → List String → Result (Unit {0})
only value fields = no_extra (find (λ field. not (includes fields field)) (keys value))

abbrev pub expect_mapping : Json → String → Result Props
expect_mapping value field = or_fail (record? value) (field <> " must be a mapping")

-- `textValue`
unfoldable pub text_value : Json → Option String
text_value (str s) = if is_blank s then none else some s
text_value _ = none

unfoldable pub text : Json → String → Result String
unfolding text_value
text value field = or_fail (text_value value) (field <> " must be a non-empty string")

-- A safe integer above 0
unfoldable pub positive_value : Json → Option ℕ
positive_value (nat n) = if leb 1 n && leb n (2 ^ 53 - 1) then some n else none
positive_value _ = none

unfoldable pub positive : Json → String → Result ℕ
unfolding positive_value
positive value field = or_fail (positive_value value) (field <> " must be a positive integer")

-- `/^[a-z][a-z0-9-]*$/`
unfoldable pub name_pattern : List ℕ → Bool
name_pattern [] = false
name_pattern (c ∷ cs) = is_lower c && every (λ d. is_lower d || is_digit d || nat_eq d b'-') cs

-- `/^[A-Z_][A-Z0-9_]*$/`
unfoldable pub env_pattern : List ℕ → Bool
env_pattern [] = false
env_pattern (c ∷ cs) =
    (is_upper c || nat_eq c b'_') && every (λ d. is_upper d || is_digit d || nat_eq d b'_') cs

-- `/^[a-f0-9]{64}$/`
unfoldable pub digest_pattern : List ℕ → Bool
digest_pattern cs = nat_eq (length cs) 64 && every (λ d. leb b'a' d && leb d b'f' || is_digit d) cs

-- A text of a form.
abbrev pub text_of : (String → Bool) → String → Json → String → Result String
text_of form complaint value field = do
  result ← text value field
  require (form result) (field <> complaint)
  ok result

unfoldable pub name : Json → String → Result String
unfolding text name_pattern
name = text_of (λ s. name_pattern (codes s)) " is invalid"

unfoldable pub absolute : Json → String → Result String
unfolding text
absolute = text_of (starts_with_char b'/') " must be absolute"

unfoldable pub env_name : Json → String → Result String
unfolding text env_pattern
env_name = text_of (λ s. env_pattern (codes s)) " is invalid"

unfoldable pub digest : Json → String → Result String
unfolding text digest_pattern
digest = text_of (λ s. digest_pattern (codes s)) " is invalid"

-- All items are texts.
unfoldable pub text_values : List Json → Option (List String)
unfolding text_value
text_values [] = some []
text_values (v ∷ vs) = elim (text_value v) [
  | none ↦ none
  | some s ↦ elim (text_values vs) [ none ↦ none | some ss ↦ some (s ∷ ss) ]
]

abbrev pub texts : Option (List Json) → Option (List String)
texts none = none
texts (some vs) = text_values vs

abbrev not_empty : Option (List String) → Option (List String)
not_empty none = none
not_empty (some ss) = if is_empty ss then none else some ss

unfoldable pub string_list : Json → String → Result (List String)
unfolding text_values
string_list value field =
    or_fail (not_empty (texts (array? value))) (field <> " must be a non-empty string array")

abbrev pub is_bad_flag : String → Bool
is_bad_flag flag = not (starts_with_char b'-' flag) || has_char b'=' flag

unfoldable pub flag_list : Json → String → Result (List String)
unfolding text_values
flag_list value operation = do
  flags ← or_fail (texts (array? value)) (operation <> ".flags must be a string array")
  require (not (any is_bad_flag flags))
      ("pack operation " <> operation <> " contains an invalid flag")
  ok flags

unfoldable pub class_for_rbac_verbs : List String → Result (Unit {0})
class_for_rbac_verbs verbs =
    require
      (not (is_empty verbs || any (λ verb. not (verb == "get") && not (verb == "list")) verbs))
      "kubectl pack permits only read RBAC verbs get and list"
