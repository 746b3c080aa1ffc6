-- ===== src/Mail/Raw/Laws.antt =====
-- No recipient of a raw message is left out.
use mathlib.Core.Path.{subst}
use mcp_gw.Common.{
  String, ◌==◌, ◌>>=◌, false, sym, ap, ◌∙◌, Option, none, some, List, [], ◌∷◌, ◌++◌, ◌≡◌, ◌⊎◌, inl,
  inr, Bool-cases, eq_iff, eq_of_some-eq, bind-eq-some, if-eq-some,
}
use mcp_gw.Common.Dict.{Dict, lookup}
use mcp_gw.Common.Lists.{All, Has, All-mono, is_empty, includes_iff}
use mcp_gw.Mail.Mailboxes.{dedup, recipient_domains_from_address_list, split_mailboxes}
use mcp_gw.Mail.Mailboxes.Recipients.{
  GoesTo, Fresh, GoesTo-mono, recipient_domains_complete, dedup-Fresh, Has-dedup,
}
use mcp_gw.Common.Text.{trim, after, before, split_on}
use mcp_gw.Mail.Raw.Headers.{goes_on, unfolded, read_lines-header}
use mcp_gw.Mail.Raw.{
  recipient_headers, has_control, drop_returns, no_fields, read_lines, read_fields, header_domains,
  collect_domains, unique, recipient_domains_from_raw_message,
}

Has-left : (d : String) (xs ys : List String) → Has d xs → Has d (xs ++ ys)
Has-left d [] ys h = elim h [ ]
Has-left d (x ∷ xs) ys (inl e) = inl e
Has-left d (x ∷ xs) ys (inr later) = inr (Has-left d xs ys later)

Has-right : (d : String) (xs ys : List String) → Has d ys → Has d (xs ++ ys)
Has-right d [] ys h = h
Has-right d (x ∷ xs) ys h = inr (Has-right d xs ys h)

module _ (to_lower_case : String → String) (domain_to_ascii : String → Option String) where
  -- Every mailbox of the header goes to one of the domains.
  abbrev pub Covers : List String → Option String → Type 0
  Covers ds none = Unit
  Covers ds (some value) =
      (value ≡ "")
      ⊎ ((ms : List String) × (split_mailboxes value ≡ some ms)
          × All (GoesTo domain_to_ascii ds) ms)

  Covers-mono :
      (ds es : List String) (value : Option String)
      → ((d : String) → Has d ds → Has d es)
      → Covers ds value
      → Covers es value
  Covers-mono ds es none more c = tt
  Covers-mono ds es (some value) more (inl empty) = inl empty
  Covers-mono ds es (some value) more (inr (ms, split, all_)) =
      inr (ms, split, GoesTo-mono domain_to_ascii ds es ms more all_)

  header_domains-Covers :
      (value : Option String) (ds : List String)
      → header_domains to_lower_case domain_to_ascii value ≡ some ds
      → Covers ds value
  unfolding header_domains
  header_domains-Covers none ds h = tt
  header_domains-Covers (some value) ds h = elim (Bool-cases (value == "")) [
    | inl empty ↦ inl ((eq_iff value "").0 empty)
    | inr filled ↦
        let found : recipient_domains_from_address_list domain_to_ascii value ≡ some ds =
          rw filled at h in
        let (ms, split, some_, goes, reached, fresh) =
          recipient_domains_complete domain_to_ascii value ds found in
        inr (ms, split, goes)
  ]

  collect_domains-Covers :
      (fields : Dict String) (names ds : List String)
      → collect_domains to_lower_case domain_to_ascii fields names ≡ some ds
      → All (λ name. Covers ds (lookup name fields)) names
  unfolding collect_domains
  collect_domains-Covers fields [] ds h = tt
  collect_domains-Covers fields (name ∷ names) ds h =
      let (parsed, first, k) =
        bind-eq-some (header_domains to_lower_case domain_to_ascii (lookup name fields)) _ h in
      let (rest, others, last) =
        bind-eq-some (collect_domains to_lower_case domain_to_ascii fields names) _ k in
      subst (λ l. All (λ n. Covers l (lookup n fields)) (name ∷ names)) (eq_of_some-eq last)
        (
          Covers-mono parsed (parsed ++ rest) (lookup name fields) (λ d. Has-left d parsed rest)
              (header_domains-Covers (lookup name fields) parsed first),
          All-mono
              (λ n c.
                Covers-mono rest (parsed ++ rest) (lookup n fields) (λ d. Has-right d parsed rest)
                  c)
              names (collect_domains-Covers fields names rest others),
        )

  Covers-at :
      (name : String) (ds names : List String) (fields : Dict String)
      → All (λ n. Covers ds (lookup n fields)) names
      → Has name names
      → Covers ds (lookup name fields)
  Covers-at name ds [] fields covers there = elim there [ ]
  Covers-at name ds (n ∷ names) fields (here, covers) (inl e) =
      subst (λ k. Covers ds (lookup k fields)) e here
  Covers-at name ds (n ∷ names) fields (here, covers) (inr later) =
      Covers-at name ds names fields covers later

  collected-Covers :
      (fields : Dict String) (ds : List String)
      → (collect_domains to_lower_case domain_to_ascii fields recipient_headers
          >>= unique to_lower_case domain_to_ascii)
        ≡ some ds
      → All (λ name. Covers ds (lookup name fields)) recipient_headers × Fresh [] ds
  collected-Covers fields ds h =
      let (found, g, k) =
        bind-eq-some (collect_domains to_lower_case domain_to_ascii fields recipient_headers) _ h in
      let (filled, last) = if-eq-some (is_empty found) _ k in
      let covers = collect_domains-Covers fields recipient_headers found g in
      subst (λ l. All (λ name. Covers l (lookup name fields)) recipient_headers × Fresh [] l)
        (eq_of_some-eq last)
        (
          All-mono
              (λ n c. Covers-mono found (dedup found) (lookup n fields) (λ d. Has-dedup d found) c)
              recipient_headers covers,
          dedup-Fresh found,
        )

  -- Where the domains of a raw message are found, every mailbox of each of its headers To, Cc and Bcc
  -- goes to one of them, and none is listed twice. A header is a line of that name, in any case, that
  -- does not go on with the one before it, wherever it stands, with the lines that go on with it.
  pub recipient_domains_from_raw_message_complete :
      (header_text_of : String → Option String) (raw header_text : String)
      (ahead later ds : List String) (line : String)
      → recipient_domains_from_raw_message to_lower_case domain_to_ascii header_text_of raw
        ≡ some ds
      → header_text_of raw ≡ some header_text
      → split_on b'\n' (drop_returns header_text) ≡ ahead ++ line ∷ later
      → goes_on line ≡ false
      → Has (to_lower_case (before b':' line)) ("to" ∷ "cc" ∷ "bcc" ∷ [])
      → Covers ds (some (unfolded (trim (after b':' line)) later)) × Fresh [] ds
  unfolding recipient_domains_from_raw_message read_fields
  recipient_domains_from_raw_message_complete header_text_of raw header_text ahead later ds line h
        is_header lines fresh recipient =
      let name = to_lower_case (before b':' line) in
      let (text, e, k) = bind-eq-some (header_text_of raw) _ h in
      let same : text ≡ header_text = eq_of_some-eq (sym e ∙ is_header) in
      let (fields, f, collected) = bind-eq-some (read_fields to_lower_case text) _ k in
      let (clean, f') = if-eq-some (has_control text) _ f in
      let (read_, g, last) =
        bind-eq-some (read_lines to_lower_case (split_on b'\n' (drop_returns text)) no_fields) _
          f' in
      let g' : read_lines to_lower_case (ahead ++ line ∷ later) no_fields ≡ some read_ =
        ap (λ ls. read_lines to_lower_case ls no_fields)
          (sym (ap (λ t. split_on b'\n' (drop_returns t)) same ∙ lines))
        ∙ g in
      let found =
        read_lines-header to_lower_case ahead later line no_fields read_ g' fresh
          ((includes_iff recipient_headers name).1 recipient) in
      let (covers, unique_) = collected-Covers fields ds collected in
      let here = Covers-at name ds recipient_headers fields covers recipient in
      (subst (Covers ds) (ap (lookup name) (sym (eq_of_some-eq last)) ∙ found) here, unique_)
