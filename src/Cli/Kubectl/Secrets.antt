-- ===== src/Cli/Kubectl/Secrets.antt =====
-- Reading a secret is classified as reading a secret, however the command line is spelled.
use mcp_gw.Common.{
  String, true, false, not, [], ◌∷◌, ◌++◌, map, ◌↔◌, arith, eq_iff, ◌≢◌, ◌&&◌, Option, none, some,
  List, truthy, truthy?, nat_eq, ◌==◌, ◌≡◌, refl, sym, ap, inl, inr,
}
use mathlib.Core.Path.{subst}
use mcp_gw.Common.Text.{◌<>◌, before, split_on, to_lower, starts_with_char}
use mcp_gw.Cli.Kubectl.Words.{scan_args-word}
use mcp_gw.Common.Lists.{includes, includes_iff, any, Any, Has, length}
use mcp_gw.Common.Dict.{Dict, lookup}
use mcp_gw.Common.Errors.{ok, ok-injective, if-eq-ok, if-cases, >>=-eq-ok}
use mcp_gw.Policy.{ActionClass, secret_read}
use mcp_gw.Cli.Pack.{CliPackFlags, CliPack, property, property_of}
use mcp_gw.Cli.Kubectl.{
  resource_names, resource_name, ClassifiedCommand, Scan, start, first, scan_args, command_of,
  names_secret, decided, finish, finish_of, finish_with, classify_kubectl,
}

-- The last tests of the classifier decide on the command that the positionals make.
finish_with-decided :
    (pack : CliPack) (operation : String) (positionals : List String) (c : ClassifiedCommand)
    → finish_with pack operation positionals ≡ ok c
    → decided
        (command_of pack operation positionals)
        (property pack.commands (command_of pack operation positionals))
      ≡ ok c
unfolding finish_with
finish_with-decided pack operation positionals c h =
    let (a, h1) = if-eq-ok (nat_eq (length positionals) 0) _ _ h in
    let (b, h2) = if-eq-ok (operation == "logs" && not (nat_eq (length positionals) 1)) _ _ h1 in
    let (d, last) = if-eq-ok (not (truthy? (first positionals))) _ _ h2 in last

finish-decided :
    (pack : CliPack) (scan : Scan) (operation : String) (c : ClassifiedCommand)
    (config : Option (Option CliPackFlags))
    → scan.operation ≡ some operation
    → finish_of pack scan.positionals (some operation) config ≡ ok c
    → decided
        (command_of pack operation scan.positionals)
        (property pack.commands (command_of pack operation scan.positionals))
      ≡ ok c
unfolding finish_of
finish-decided pack scan operation c none e h = cc
finish-decided pack scan operation c (some config) e h = elim (if-cases (truthy operation) _ _ h) [
  | inl (named, k) ↦ finish_with-decided pack operation scan.positionals c k
  | inr (empty, k) ↦ cc
]

-- The word names one of the pack's secret resources: a part of it between commas does, in its ASCII
-- lower case and without what follows a slash or then a dot.
abbrev pub NamesSecret : CliPack → String → Type 0
NamesSecret pack word =
    Any (λ part. Has (to_lower (before b'.' (before b'/' part))) pack.secret_overlay.resources)
      (split_on b',' word)

parts_iff :
    (pack : CliPack) (parts : List String)
    → (any (includes pack.secret_overlay.resources) (map resource_name parts) ≡ true)
      ↔ Any
          (λ part. Has (to_lower (before b'.' (before b'/' part))) pack.secret_overlay.resources)
          parts
unfolding resource_name
parts_iff pack [] = (λ h. cc, λ h. elim h [ ])
parts_iff pack (x ∷ xs) = ground (
  arith,
  includes_iff pack.secret_overlay.resources (to_lower (before b'.' (before b'/' x))),
  parts_iff pack xs,
)

NamesSecret-any :
    (pack : CliPack) (word : String) (words : List String)
    → NamesSecret pack word
    → Has word words
    → any (names_secret pack) words ≡ true
unfolding names_secret resource_names
NamesSecret-any pack word [] names there = elim there [ ]
NamesSecret-any pack word (w ∷ ws) names (inl e) =
    let here = (parts_iff pack (split_on b',' word)).1 names in rw (e, here) refl
NamesSecret-any pack word (w ∷ ws) names (inr later) =
    let rest = NamesSecret-any pack word ws names later in ground arith

command_of-secret :
    (pack : CliPack) (operation : String) (positionals : List String)
    → includes pack.secret_overlay.operations operation ≡ true
    → any (names_secret pack) positionals ≡ true
    → command_of pack operation positionals ≡ operation <> ":secret"
unfolding command_of
command_of-secret pack operation positionals overlaid secret = rw (overlaid, secret) refl

secret-decided :
    (command : String) (commands : Dict ActionClass) (c : ClassifiedCommand)
    → lookup command commands ≡ some secret_read
    → decided command (property commands command) ≡ ok c
    → (c.command ≡ command) × (c.action_class ≡ some secret_read)
unfolding decided property property_of
secret-decided command commands c e h =
    let k : ok (record { command = command; action_class = some secret_read }) ≡ ok c = rw e at h in
    let same = ok-injective k in
    (
      sym (ap (λ (d : ClassifiedCommand). d.command) same),
      sym (ap (λ (d : ClassifiedCommand). d.action_class) same),
    )

scanned-secret :
    (pack : CliPack) (args : List String) (scan : Scan) (operation : String) (c : ClassifiedCommand)
    → classify_kubectl pack args ≡ ok c
    → scan_args pack false start args ≡ ok scan
    → scan.operation ≡ some operation
    → includes pack.secret_overlay.operations operation ≡ true
    → any (names_secret pack) scan.positionals ≡ true
    → lookup (operation <> ":secret") pack.commands ≡ some secret_read
    → (c.command ≡ operation <> ":secret") × (c.action_class ≡ some secret_read)
unfolding classify_kubectl finish
scanned-secret pack args scan operation c h scanned is_operation overlaid secret known =
    let k : finish_of pack scan.positionals (some operation) scan.config ≡ ok c =
      rw (scanned, is_operation) at h in
    let decision = finish-decided pack scan operation c scan.config is_operation k in
    let is_secret = command_of-secret pack operation scan.positionals overlaid secret in
    secret-decided (operation <> ":secret") pack.commands c known
      (subst (λ s. decided s (property pack.commands s) ≡ ok c) is_secret decision)

-- When an approved command line has a word that names a secret resource, wherever it stands among the
-- words after the operation (so not as the value of a flag, since the arguments ahead of it are read to
-- their end), and whatever follows it, and the operation is not empty and one of the secret overlay,
-- the command line is classified as the operation's secret command, if its class in the pack is
-- `secret-read`.
pub classify_kubectl-secret :
    (pack : CliPack) (ahead later : List String) (word operation : String) (scan : Scan)
    (c : ClassifiedCommand)
    → classify_kubectl pack (ahead ++ word ∷ later) ≡ ok c
    → scan_args pack false start ahead ≡ ok scan
    → scan.operation ≡ some operation
    → operation ≢ ""
    → starts_with_char b'-' word ≡ false
    → NamesSecret pack word
    → Has operation pack.secret_overlay.operations
    → lookup (operation <> ":secret") pack.commands ≡ some secret_read
    → (c.command ≡ operation <> ":secret") × (c.action_class ≡ some secret_read)
unfolding classify_kubectl
classify_kubectl-secret pack ahead later word operation scan c h scanned is_operation named plain
      names overlaid known =
    let (last, done, finished) =
      >>=-eq-ok (scan_args pack false start (ahead ++ word ∷ later)) _ h in
    let (kept, there) =
      scan_args-word pack ahead later word operation scan last scanned done is_operation
        (ground (arith, eq_iff operation "")) plain in
    scanned-secret pack (ahead ++ word ∷ later) last operation c h done kept
      ((includes_iff pack.secret_overlay.operations operation).1 overlaid)
      (NamesSecret-any pack word last.positionals names there) known
