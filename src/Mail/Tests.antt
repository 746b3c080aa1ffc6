-- ===== src/Mail/Tests.antt =====
-- Address lists and domains.
use mcp_gw.Common.Dict.{lookup, insert}
use mcp_gw.Common.{◌++◌, inl, String, true, false, Option, some, is_some, List, [], ◌∷◌, ◌≡◌, refl}
use mcp_gw.Common.Text.{before, after, trim, to_lower, split_on, has_char, codes, is_blank}
use mcp_gw.Common.Lists.{All, Has}
use mcp_gw.Mail.Domain.{
  label_pattern, after_last, canonical_recipient_domain, canonical_policy_domain,
}
use mcp_gw.Mail.Domain.Laws.{IsDomain, canonical_recipient_domain-IsDomain}
use mcp_gw.Mail.Mailboxes.{
  mailbox_domains, mailbox_domain, mailbox_address, dedup, address_pattern, split_mailboxes,
  recipient_domains_from_address_list,
}
use mcp_gw.Mail.Raw.{drop_returns, recipient_domains_from_raw_message}
use mcp_gw.Mail.Raw.Headers.{unfolded}
use mcp_gw.Mail.Raw.Laws.{Covers, recipient_domains_from_raw_message_complete}
use mcp_gw.Mail.Mailboxes.Split.{join, split_mailboxes-join}
use mcp_gw.Mail.Mailboxes.Recipients.{Fresh, AreRecipients, recipient_domains_complete}

abbrev as_ascii : String → Option String
as_ascii domain = some domain

abbrev addresses : String
addresses = "\"Doe, J\" <j@Example.com>,k@example.com"

abbrev parts : List String
parts = "\"Doe, J\" <j@Example.com>" ∷ "k@example.com" ∷ []

addresses-parts : split_mailboxes addresses ≡ some parts
unfolding split_mailboxes
addresses-parts = refl

split_mailboxes-join_example : (join parts ≡ addresses) × All (λ part. is_blank part ≡ false) parts
split_mailboxes-join_example = split_mailboxes-join addresses parts addresses-parts

addresses-domains :
    recipient_domains_from_address_list as_ascii addresses ≡ some ("example.com" ∷ [])
unfolding recipient_domains_from_address_list has_char split_mailboxes mailbox_domains
    mailbox_domain mailbox_address trim address_pattern canonical_recipient_domain after_last
    to_lower split_on label_pattern dedup
addresses-domains = refl

recipient_domains_complete_example : AreRecipients as_ascii addresses ("example.com" ∷ [])
recipient_domains_complete_example =
    recipient_domains_complete as_ascii addresses ("example.com" ∷ []) addresses-domains

example-domain : canonical_recipient_domain as_ascii "Example.com" ≡ some "example.com"
unfolding canonical_recipient_domain has_char to_lower split_on label_pattern codes
example-domain = refl

canonical_recipient_domain-IsDomain_example :
    ((ascii : String) × (as_ascii "Example.com" ≡ some ascii) × ("example.com" ≡ to_lower ascii))
    × IsDomain as_ascii "example.com"
canonical_recipient_domain-IsDomain_example =
    canonical_recipient_domain-IsDomain as_ascii "Example.com" "example.com" example-domain

policy-domain : is_some (canonical_policy_domain as_ascii "example.com") ≡ true
unfolding canonical_policy_domain canonical_recipient_domain has_char to_lower split_on
    label_pattern codes after_last
policy-domain = refl

abbrev header : String
header = "Subject: hi\r\nTo: j@Example.com,\r\n k@example.com\r\nCc: "

message-domains :
    recipient_domains_from_raw_message to_lower as_ascii (λ raw. some header) "raw"
    ≡ some ("example.com" ∷ [])
unfolding recipient_domains_from_raw_message to_lower lookup insert after
    recipient_domains_from_address_list split_mailboxes mailbox_domains mailbox_domain
    mailbox_address address_pattern canonical_recipient_domain after_last label_pattern dedup
message-domains = refl

header-lines :
    split_on b'\n' (drop_returns header)
    ≡ ("Subject: hi" ∷ []) ++ "To: j@Example.com," ∷ " k@example.com" ∷ "Cc: " ∷ []
unfolding split_on drop_returns
header-lines = refl

to-recipient : Has (to_lower (before b':' "To: j@Example.com,")) ("to" ∷ "cc" ∷ "bcc" ∷ [])
unfolding to_lower before
to-recipient = inl refl

recipient_domains_from_raw_message_complete_example :
    Covers to_lower as_ascii
      ("example.com" ∷ [])
      (some (unfolded (trim (after b':' "To: j@Example.com,")) (" k@example.com" ∷ "Cc: " ∷ [])))
    × Fresh [] ("example.com" ∷ [])
recipient_domains_from_raw_message_complete_example =
    recipient_domains_from_raw_message_complete to_lower as_ascii (λ raw. some header) "raw" header
      ("Subject: hi" ∷ []) (" k@example.com" ∷ "Cc: " ∷ []) ("example.com" ∷ [])
      "To: j@Example.com," message-domains refl header-lines refl to-recipient
