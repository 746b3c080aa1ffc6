-- ===== src/Mail/Domain/Laws.antt =====
-- What a canonical domain is.
use Prim.Native.String.{String}
use Prim.Native.Nat.{◌≤◌}
use Prim.Native.String.{len}
use mathlib.Core.Path.{subst}
use mcp_gw.Common.{
  ℕ, true, false, not, ◌||◌, Option, some, List, [], ◌∷◌, sym, ◌⊎◌, ◌≡◌, ◌≢◌, inl, inr, arith,
  eq_iff, is_some, Option-cases, eq_of_some-eq, bind-eq-some, if-eq-some, truthy, leb,
}
use mcp_gw.Common.Lists.{length, any, any-eq-false, All, All-mono}
use mcp_gw.Common.Text.{codes, split_on, to_lower, is_lower, is_digit}
use mcp_gw.Mail.Domain.{
  label_char, ends_plain, label_pattern, ascii_domain, canonical_recipient_domain,
  canonical_policy_domain,
}

-- A lower-case ASCII letter or a digit
abbrev pub Alphanumeric : ℕ → Type 0
Alphanumeric c = ((97 ≤ c) × (c ≤ 122)) ⊎ ((48 ≤ c) × (c ≤ 57))

abbrev pub EndsAlphanumeric : List ℕ → Type 0
EndsAlphanumeric [] = ⊥
EndsAlphanumeric (c ∷ []) = Alphanumeric c
EndsAlphanumeric (c ∷ d ∷ cs) = EndsAlphanumeric (d ∷ cs)

abbrev pub StartsAlphanumeric : List ℕ → Type 0
StartsAlphanumeric [] = ⊥
StartsAlphanumeric (c ∷ cs) = Alphanumeric c

-- A label has 1 to 63 characters, lower-case ASCII letters, digits and dashes, of which neither the
-- first nor the last is a dash.
pub record IsLabel (label : List ℕ) : Type 0 where
  pub short : length label ≤ 63
  pub characters : All (λ c. Alphanumeric c ⊎ (c ≡ 45)) label
  pub starts : StartsAlphanumeric label
  pub ends : EndsAlphanumeric label

ends_plain-EndsAlphanumeric :
    (label : List ℕ)
    → ends_plain label ≡ true
    → All (λ c. Alphanumeric c ⊎ (c ≡ 45)) label × EndsAlphanumeric label
unfolding ends_plain label_char is_lower is_digit
ends_plain-EndsAlphanumeric [] h = cc
ends_plain-EndsAlphanumeric (c ∷ []) h = ground arith
ends_plain-EndsAlphanumeric (c ∷ d ∷ cs) h = ground (arith, ends_plain-EndsAlphanumeric (d ∷ cs))

label_pattern-IsLabel : (label : List ℕ) → label_pattern label ≡ true → IsLabel label
unfolding label_pattern is_lower is_digit
label_pattern-IsLabel [] h = cc
label_pattern-IsLabel (c ∷ cs) h =
    let (all_, last) = ends_plain-EndsAlphanumeric (c ∷ cs) (ground arith) in
    record { short = ground arith; characters = all_; starts = ground arith; ends = last }

module _ (domain_to_ascii : String → Option String) where
  -- A policy names a domain by its canonical form or not at all.
  pub canonical_policy_domain-eq :
      (d : String)
      → is_some (canonical_policy_domain domain_to_ascii d) ≡ true
      → canonical_policy_domain domain_to_ascii d ≡ some d
  unfolding canonical_policy_domain
  canonical_policy_domain-eq d h =
      elim (Option-cases (canonical_recipient_domain domain_to_ascii d)) [
        | inl missing ↦ let k : false ≡ true = rw (missing, canonical_policy_domain) at h in cc k
        | inr (c, found) ↦ rw (found, canonical_policy_domain) (ground (arith, eq_iff c d))
      ]

  -- A canonical domain is at most 253 characters, not empty, and of labels between dots.
  pub record IsDomain (d : String) : Type 0 where
    pub short : len d ≤ 253
    pub present : d ≢ ""
    pub labels : All (λ l. IsLabel (codes l)) (split_on b'.' d)

  ascii_domain-IsDomain : (a d : String) → ascii_domain domain_to_ascii a ≡ some d → IsDomain d
  unfolding ascii_domain
  ascii_domain-IsDomain a d h =
      let (sized, rest) = if-eq-some (not (leb (len a) 253) || not (truthy a)) _ h in
      let (labelled, last) =
        if-eq-some (any (λ l. not (label_pattern (codes l))) (split_on b'.' a)) _ rest in
      subst IsDomain (eq_of_some-eq last) (record {
        short = ground arith;
        present = ground (arith, eq_iff a "");
        labels =
            All-mono
              (λ l (e : not (label_pattern (codes l)) ≡ false).
                label_pattern-IsLabel (codes l) (ground arith))
              (split_on b'.' a)
              (any-eq-false (λ l. not (label_pattern (codes l))) (split_on b'.' a) labelled);
      })

  ascii_domain-eq : (a d : String) → ascii_domain domain_to_ascii a ≡ some d → d ≡ a
  unfolding ascii_domain
  ascii_domain-eq a d h =
      let (sized, rest) = if-eq-some (not (leb (len a) 253) || not (truthy a)) _ h in
      let (labelled, last) =
        if-eq-some (any (λ l. not (label_pattern (codes l))) (split_on b'.' a)) _ rest in
      sym (eq_of_some-eq last)

  -- A recipient's domain is accepted only as the platform's ASCII form of it in lower case, and only
  -- if that is a domain name: at most 253 characters, not empty, and of labels of 1 to 63 lower-case
  -- ASCII letters, digits and dashes, none of which starts or ends with a dash.
  pub canonical_recipient_domain-IsDomain :
      (value d : String)
      → canonical_recipient_domain domain_to_ascii value ≡ some d
      → ((ascii : String) × (domain_to_ascii value ≡ some ascii) × (d ≡ to_lower ascii))
        × IsDomain d
  unfolding canonical_recipient_domain
  canonical_recipient_domain-IsDomain value d h =
      let (_, rest) = if-eq-some _ _ h in
      let (ascii, made, last) = bind-eq-some (domain_to_ascii value) _ rest in
      (
        (ascii, made, ascii_domain-eq (to_lower ascii) d last),
        ascii_domain-IsDomain (to_lower ascii) d last,
      )
