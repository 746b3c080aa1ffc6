-- ===== src/Mail/Mailboxes.antt =====
-- shared/policy/outbound-email.ts: splitting an address list into mailboxes, and the domains that they
-- go to.
pub mod Split
pub mod Recipients
use Prim.Native.Char.{Char, code}
use Prim.Native.String.{[], ◌∷◌, len}
use mathlib.Core.Option.{none, some}
use mcp_gw.Common.{
  ◌>>=◌, ℕ, ◌-◌, String, Bool, true, false, not, ◌&&◌, ◌||◌, Option, List, leb, nat_eq, truthy,
  is_some, ◌==◌, if◌then◌else◌,
}
use mathlib.Core.List
use mathlib.Core.List.{◌++◌, map}
use mcp_gw.Common.Lists.{any, every, length, keep, includes, is_empty}
use mcp_gw.Common.Text.{
  codes, is_lower, is_digit, is_space, is_blank, push, split_on, has_char, to_lower, trim, ◌<>◌,
  before, after, starts_with_char,
}
use mcp_gw.Mail.Domain.{canonical_recipient_domain, after_last}

-- What the loop of `splitMailboxes` does with one character.
pub data Action : Type 0 where
  go : (quoted escaped angle : Bool) → Action
  cut fail : Action

act : (quoted escaped angle : Bool) → ℕ → Action
act quoted true angle c = go quoted false angle
act quoted false angle c =
    if nat_eq c b'\\' && quoted
    then go quoted true angle
    else if nat_eq c b'"'
    then go (not quoted) false angle
    else if not quoted && nat_eq c b'<'
    then if angle then fail else go quoted false true
    else if not quoted && nat_eq c b'>'
    then if angle then go quoted false false else fail
    else if not quoted && not angle && nat_eq c b','
    then cut
    else go quoted false angle

abbrev prepend : String → Option (List String) → Option (List String)
prepend part rest = do parts ← rest; some (List.◌∷◌ part parts)

-- `part` is the text since the last cut.
scan : (quoted escaped angle : Bool) → String → String → Option (List String)
unfolding act
scan quoted escaped angle part [] =
    if quoted || escaped || angle then none else some (List.◌∷◌ part List.[])
scan quoted escaped angle part (c ∷ s) = elim (act quoted escaped angle (code c)) [
  | go quoted' escaped' angle' ↦ scan quoted' escaped' angle' (push part c) s
  | cut ↦ prepend part (scan quoted escaped angle "" s)
  | fail ↦ none
]

unfoldable pub split_mailboxes : String → Option (List String)
unfolding scan is_blank
split_mailboxes value = do
  parts ← scan false false false "" value
  if any is_blank parts then none else some parts

drop_last : String → String
drop_last [] = []
drop_last (c ∷ s) = if s == "" then "" else c ∷ drop_last s

address_char : ℕ → Bool
unfolding is_space
address_char c = not (
    is_space c
    || nat_eq c b'<'
    || nat_eq c b'>'
    || nat_eq c b'('
    || nat_eq c b')'
    || nat_eq c b','
    || nat_eq c b';'
    || nat_eq c b':'
    || nat_eq c b'@'
    || nat_eq c b'"'
    || nat_eq c b'\\')

-- One side of the `@`: one or more such characters.
address_side : String → Bool
unfolding address_char codes
address_side s = truthy s && every address_char (codes s)

-- `/^[^\s<>(),;:@"\\]+@[^\s<>(),;:@"\\]+$/u`
unfoldable pub address_pattern : String → Bool
unfolding address_side before after has_char
address_pattern s = has_char b'@' s && address_side (before b'@' s) && address_side (after b'@' s)

-- The address of a mailbox: what stands between the angles, if there are any.
unfoldable pub mailbox_address : String → Option String
unfolding drop_last before after has_char
mailbox_address trimmed =
    if has_char b'<' trimmed
    then if has_char b'<' (after b'<' trimmed)
        || not (has_char b'>' trimmed && after b'>' trimmed == "")
        || starts_with_char b'<' trimmed
      then none
      else some (drop_last (after b'<' trimmed))
    else some trimmed

-- `[...new Set(values)]`
dedup_from : List String → List String → List String
dedup_from seen List.[] = List.[]
dedup_from seen (List.◌∷◌ x xs) =
    let more = dedup_from (List.◌∷◌ x seen) xs in
    let same = dedup_from seen xs in if includes seen x then same else List.◌∷◌ x more

unfoldable pub dedup : List String → List String
unfolding dedup_from
dedup = dedup_from List.[]

module _ (domain_to_ascii : String → Option String) where
  address_domain : String → Option String
  address_domain address =
      if address_pattern address
      then canonical_recipient_domain domain_to_ascii (after_last b'@' address)
      else none

  -- The domain that one mailbox goes to.
  unfoldable pub mailbox_domain : String → Option String
  unfolding address_domain
  mailbox_domain mailbox = do address ← mailbox_address (trim mailbox); address_domain address

  -- The loop over the mailboxes: one that cannot be read ends it.
  unfoldable pub mailbox_domains : List String → Option (List String)
  mailbox_domains List.[] = some List.[]
  mailbox_domains (List.◌∷◌ m ms) = do d ← mailbox_domain m; prepend d (mailbox_domains ms)

  unfoldable pub recipient_domains_from_address_list : String → Option (List String)
  recipient_domains_from_address_list value =
      if not (truthy value) || has_char b'\r' value || has_char b'\n' value || has_char 0 value
      then none
      else do
        mailboxes ← split_mailboxes value
        if is_empty mailboxes
            then none
            else do domains ← mailbox_domains mailboxes; some (dedup domains)
