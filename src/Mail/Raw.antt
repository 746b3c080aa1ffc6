-- ===== src/Mail/Raw.antt =====
-- shared/policy/outbound-email.ts: recipientDomainsFromRawMessage, from the header text of the raw
-- message on. The decoding of base64 and UTF-8, which gives that text or nothing, and `toLowerCase`
-- are parameters.
pub mod Headers
pub mod Laws
use Prim.Native.Char.{Char, code}
use Prim.Native.String.{[], ◌∷◌}
use mathlib.Core.Option.{none, some}
use mathlib.Core.List
use mathlib.Core.List.{◌++◌}
use mcp_gw.Common.{
  ◌>>=◌, ℕ, String, Bool, true, false, not, ◌&&◌, ◌||◌, Option, List, nat_eq, truthy, or_default,
  is_some, ◌==◌, if◌then◌else◌,
}
use mcp_gw.Common.Lists.{every, includes, is_empty}
use mcp_gw.Common.Dict.{Dict, lookup, insert}
use mcp_gw.Common.Text.{
  codes, is_lower, is_digit, begins, split_on, has_char, trim, ◌<>◌, before, after,
  starts_with_char,
}
use mcp_gw.Mail.Mailboxes.{dedup, recipient_domains_from_address_list}

abbrev pub recipient_headers : List String
recipient_headers = List.◌∷◌ "to" (List.◌∷◌ "cc" (List.◌∷◌ "bcc" List.[]))

-- `/\r(?!\n)|\0/`
unfoldable pub has_control : String → Bool
has_control [] = false
has_control (c ∷ s) =
    nat_eq (code c) 0 || nat_eq (code c) b'\r' && not (starts_with_char b'\n' s) || has_control s

-- `replaceAll("\r\n", "\n")` where every return stands before a newline
unfoldable pub drop_returns : String → String
drop_returns [] = []
drop_returns (c ∷ s) = if nat_eq (code c) b'\r' then drop_returns s else c ∷ drop_returns s

field_char : ℕ → Bool
unfolding is_lower is_digit
field_char c = is_lower c || is_digit c || nat_eq c b'-'

-- `/^[a-z0-9-]+$/`, and not a header of a message that was sent again
unfoldable pub is_field_name : String → Bool
unfolding field_char codes begins
is_field_name name =
    truthy name && every field_char (codes name) && not (begins (codes "resent-") (codes name))

pub record Fields : Type 0 where
  pub fields : Dict String
  pub last_name : Option String

abbrev pub no_fields : Fields
no_fields = record { fields = List.[]; last_name = none }

-- A line that goes on with the field before it
unfoldable pub folded : String → Option String → Dict String → Option Fields
unfolding trim
folded line none fields = none
folded line (some name) fields = some (record {
  fields = insert name (or_default (lookup name fields) "" <> " " <> trim line) fields;
  last_name = some name;
})

module _ (to_lower_case : String → String) where
  unfoldable pub new_field : String → String → Dict String → Option Fields
  unfolding is_field_name trim
  new_field name line fields =
      if not (is_field_name name)
      then none
      else if includes recipient_headers name && is_some (lookup name fields)
      then none
      else some
          (record { fields = insert name (trim (after b':' line)) fields; last_name = some name })

  unfoldable pub read_line : String → Fields → Option Fields
  unfolding folded new_field has_char before
  read_line line f =
      if starts_with_char b' ' line || starts_with_char b'\t' line
      then folded line f.last_name f.fields
      else if not (has_char b':' line) || starts_with_char b':' line
      then none
      else new_field (to_lower_case (before b':' line)) line f.fields

  unfoldable pub read_lines : List String → Fields → Option Fields
  unfolding read_line
  read_lines List.[] f = some f
  read_lines (List.◌∷◌ line lines) f = do next ← read_line line f; read_lines lines next

  unfoldable pub read_fields : String → Option (Dict String)
  unfolding has_control drop_returns read_lines split_on
  read_fields header_text =
      if has_control header_text
      then none
      else do f ← read_lines (split_on b'\n' (drop_returns header_text)) no_fields; some f.fields

  module _ (domain_to_ascii : String → Option String) where
    -- The domains of one header; a header that is absent or empty has none.
    unfoldable pub header_domains : Option String → Option (List String)
    header_domains none = some List.[]
    header_domains (some value) =
        if value == ""
        then some List.[]
        else recipient_domains_from_address_list domain_to_ascii value

    unfoldable pub collect_domains : Dict String → List String → Option (List String)
    unfolding header_domains
    collect_domains fields List.[] = some List.[]
    collect_domains fields (List.◌∷◌ name names) = do
      parsed ← header_domains (lookup name fields)
      rest ← collect_domains fields names
      some (parsed ++ rest)

    abbrev pub unique : List String → Option (List String)
    unique domains = if is_empty domains then none else some (dedup domains)

    -- `header_text_of` gives the header of a raw message, if it can be read at all.
    unfoldable pub recipient_domains_from_raw_message :
        (String → Option String) → String → Option (List String)
    unfolding read_fields collect_domains
    recipient_domains_from_raw_message header_text_of raw = do
      header_text ← header_text_of raw
      fields ← read_fields header_text
      domains ← collect_domains fields recipient_headers
      unique domains
