-- ===== src/Mail/Domain.antt =====
-- shared/policy/outbound-email.ts: which domain names are canonical, and which of them a policy may
-- name. `domainToASCII` is the platform's, and so a parameter: it answers an ASCII text, the empty one
-- for a host that it refuses, or throws (`none`).
pub mod Laws
use Prim.Native.Char.{Char, code}
use Prim.Native.String.{[], ◌∷◌, len}
use mathlib.Core.Option.{none, some}
use mcp_gw.Common.{
  ◌>>=◌, ℕ, ◌-◌, String, Bool, true, false, not, ◌&&◌, ◌||◌, Option, List, leb, nat_eq, truthy,
  is_some, ◌==◌, if◌then◌else◌,
}
use mathlib.Core.List
use mathlib.Core.List.{◌++◌, map}
use mcp_gw.Common.Lists.{any, every, length, keep, includes, is_empty}
use mcp_gw.Common.Text.{
  codes, is_lower, is_digit, is_space, is_blank, push, split_on, has_char, to_lower, trim, ◌<>◌,
  before, after, starts_with_char,
}

label_char : ℕ → Bool
unfolding is_lower is_digit
label_char c = is_lower c || is_digit c || nat_eq c b'-'

-- The first and the last character of the label may not be a dash.
ends_plain : List ℕ → Bool
unfolding label_char
ends_plain List.[] = false
ends_plain (List.◌∷◌ c List.[]) = is_lower c || is_digit c
ends_plain (List.◌∷◌ c (List.◌∷◌ d cs)) = label_char c && ends_plain (List.◌∷◌ d cs)

-- `/^[a-z0-9](?:[a-z0-9-]{0,61}[a-z0-9])?$/`
unfoldable pub label_pattern : List ℕ → Bool
unfolding ends_plain
label_pattern List.[] = false
label_pattern (List.◌∷◌ c cs) =
    (is_lower c || is_digit c) && ends_plain (List.◌∷◌ c cs) && leb (length (List.◌∷◌ c cs)) 63

ends_with_dot : String → Bool
ends_with_dot [] = false
ends_with_dot (c ∷ s) = if s == "" then nat_eq (code c) b'.' else ends_with_dot s

-- The parts of a text after the last mark, or the whole of it. `s.slice(s.lastIndexOf(mark) + 1)`
unfoldable pub after_last : ℕ → String → String
after_last n [] = []
after_last n (c ∷ s) =
    if has_char n s then after_last n s else if nat_eq n (code c) then s else c ∷ s

module _ (domain_to_ascii : String → Option String) where
  ascii_domain : String → Option String
  ascii_domain ascii =
      if not (leb (len ascii) 253) || not (truthy ascii)
      then none
      else if any (λ label. not (label_pattern (codes label))) (split_on b'.' ascii)
      then none
      else some ascii

  unfoldable pub canonical_recipient_domain : String → Option String
  unfolding ends_with_dot ascii_domain
  canonical_recipient_domain value =
      if not (truthy value) || ends_with_dot value || has_char b':' value
      then none
      else do ascii ← domain_to_ascii value; ascii_domain (to_lower ascii)

  -- Only canonical, public-style DNS domains are accepted as policy entries.
  unfoldable pub canonical_policy_domain : String → Option String
  unfolding is_lower
  canonical_policy_domain value = elim (canonical_recipient_domain value) [
    | none ↦ none
    | some canonical ↦
        if canonical == value
          && has_char b'.' canonical
          && any is_lower (codes (after_last b'.' canonical))
        then some canonical
        else none
  ]
