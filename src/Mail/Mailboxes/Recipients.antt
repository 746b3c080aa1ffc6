-- ===== src/Mail/Mailboxes/Recipients.antt =====
-- Every mailbox of an address list counts: none of its domains is dropped, and none is made up.
use Prim.Native.String.{String}
use mathlib.Core.Path.{subst}
use mcp_gw.Common.{
  bind-eq-some, if-eq-some, sym, ap, ◌∙◌, false, Option, some, List, [], ◌∷◌, ◌≡◌, ◌≢◌, refl, ◌⊎◌,
  inl, inr, arith, Bool-cases, eq_of_some-eq,
}
use mcp_gw.Common.Lists.{All, Any, Has, All-mono, includes, includes_iff, is_empty}
use mcp_gw.Mail.Mailboxes.{
  split_mailboxes, dedup_from, dedup, mailbox_domain, mailbox_domains,
  recipient_domains_from_address_list,
}

-- No text is listed twice, nor is one listed that has been seen.
abbrev pub Fresh : List String → List String → Type 0
Fresh seen [] = Unit
Fresh seen (x ∷ xs) = (¬ Has x seen) × Fresh (x ∷ seen) xs

dedup_from-Fresh : (seen xs : List String) → Fresh seen (dedup_from seen xs)
unfolding dedup_from
dedup_from-Fresh seen [] = tt
dedup_from-Fresh seen (x ∷ xs) = elim (Bool-cases (includes seen x)) [
  | inl old ↦ rw old (dedup_from-Fresh seen xs)
  | inr new ↦ rw new ((λ h. cc ((includes_iff seen x).1 h)), dedup_from-Fresh (x ∷ seen) xs)
]

Has-dedup_from :
    (a : String) (seen xs : List String) → Has a xs → Has a seen ⊎ Has a (dedup_from seen xs)
unfolding dedup_from
Has-dedup_from a seen [] h = elim h [ ]
Has-dedup_from a seen (x ∷ xs) h = ground (
  arith,
  includes_iff seen x,
  Has-dedup_from a seen xs,
  Has-dedup_from a (x ∷ seen) xs,
  λ (e : x ≡ a) (k : Has x seen). subst (λ y. Has y seen) e k,
)

pub Has-dedup : (a : String) (xs : List String) → Has a xs → Has a (dedup xs)
unfolding dedup
Has-dedup a xs h = elim (Has-dedup_from a [] xs h) [
  | inl there ↦ elim there [ ]
  | inr there ↦ there
]

pub dedup-Fresh : (xs : List String) → Fresh [] (dedup xs)
unfolding dedup
dedup-Fresh xs = dedup_from-Fresh [] xs

Has-of_dedup_from : (a : String) (seen xs : List String) → Has a (dedup_from seen xs) → Has a xs
unfolding dedup_from
Has-of_dedup_from a seen [] h = h
Has-of_dedup_from a seen (x ∷ xs) h =
    ground (arith, Has-of_dedup_from a seen xs, Has-of_dedup_from a (x ∷ seen) xs)

module _ (domain_to_ascii : String → Option String) where
  abbrev domain_of : String → Option String
  domain_of = mailbox_domain domain_to_ascii

  -- The mailbox goes to one of the domains.
  abbrev pub GoesTo : List String → String → Type 0
  GoesTo ds m = (d : String) × (domain_of m ≡ some d) × Has d ds

  -- One of the mailboxes goes to the domain.
  abbrev pub IsReached : List String → String → Type 0
  IsReached ms d = Any (λ m. domain_of m ≡ some d) ms

  pub GoesTo-mono :
      (ds es : List String) (ms : List String)
      → ((d : String) → Has d ds → Has d es)
      → All (GoesTo ds) ms
      → All (GoesTo es) ms
  GoesTo-mono ds es ms f = All-mono (λ m g. (g.0, g.1, f g.0 g.2)) ms

  mailbox_domains-reach :
      (ms ds : List String)
      → mailbox_domains domain_to_ascii ms ≡ some ds
      → All (GoesTo ds) ms × ((d : String) → Has d ds → IsReached ms d)
  unfolding mailbox_domains
  mailbox_domains-reach [] ds e = (tt, λ d h. absurd (subst (Has d) (sym (eq_of_some-eq e)) h))
  mailbox_domains-reach (m ∷ ms) ds e =
      let (d, read, after) = bind-eq-some (domain_of m) _ e in
      let (rest, more, last) = bind-eq-some (mailbox_domains domain_to_ascii ms) _ after in
      let (reach, made) = mailbox_domains-reach ms rest more in
      subst (λ l. All (GoesTo l) (m ∷ ms) × ((x : String) → Has x l → IsReached (m ∷ ms) x))
        (eq_of_some-eq last)
        (
          ((d, read, inl refl), GoesTo-mono rest (d ∷ rest) ms (λ x k. inr k) reach),
          λ x k. elim k [ inl is_d ↦ inl (read ∙ ap some is_d) | inr later ↦ inr (made x later) ],
        )

  All_of_Has : (P : String → Type 0) (ds : List String) → ((d : String) → Has d ds → P d) → All P ds
  All_of_Has P [] f = tt
  All_of_Has P (d ∷ ds) f = (f d (inl refl), All_of_Has P ds (λ x h. f x (inr h)))

  -- The domains are those of the mailboxes of the address list.
  abbrev pub AreRecipients : String → List String → Type 0
  AreRecipients value ds =
      (ms : List String) × (split_mailboxes value ≡ some ms)
      × (ms ≢ [])
      × All (GoesTo ds) ms
      × All (IsReached ms) ds
      × Fresh [] ds

  -- Where the recipients' domains are found, every mailbox of the list goes to one of them, each of
  -- them is the domain of some mailbox, none is listed twice, and there is a mailbox.
  pub recipient_domains_complete :
      (value : String) (ds : List String)
      → recipient_domains_from_address_list domain_to_ascii value ≡ some ds
      → AreRecipients value ds
  unfolding recipient_domains_from_address_list dedup
  recipient_domains_complete value ds e =
      let (_, body) = if-eq-some _ _ e in
      let (ms, split, rest) = bind-eq-some (split_mailboxes value) _ body in
      let (filled, rest') = if-eq-some (is_empty ms) _ rest in
      let (found, domains, last) = bind-eq-some (mailbox_domains domain_to_ascii ms) _ rest' in
      let (reach, made) = mailbox_domains-reach ms found domains in
      subst (λ l. AreRecipients value l) (eq_of_some-eq last)
        (
          ms,
          split,
          (λ h. let k : is_empty {A = String} [] ≡ false = rw h at filled in cc k),
          GoesTo-mono found (dedup_from [] found) ms
              (λ d k. elim (Has-dedup_from d [] found k) [ inl z ↦ absurd z | inr h ↦ h ]) reach,
          All_of_Has (IsReached ms) (dedup_from [] found)
              (λ d k. made d (Has-of_dedup_from d [] found k)),
          dedup_from-Fresh [] found,
        )
