-- ===== src/Cli/Kubectl/Flags.antt =====
-- No argument of an approved command line is a flag that would change who asks, or which cluster.
use mcp_gw.Common.{
  String, Bool, true, false, not, ◌&&◌, ◌||◌, Option, none, some, is_some, List, [], ◌∷◌, truthy,
  truthy?, ◌==◌, ◌≡◌, ◌≢◌, refl, sym, ap, ◌⊎◌, inl, inr, arith, eq_iff, Bool-cases,
}
use mathlib.Core.Path.{subst}
use mcp_gw.Common.Text.{before, starts_with_char}
use mcp_gw.Common.Lists.{includes, All}
use mcp_gw.Common.Errors.{ok, >>=-eq-ok, ok-injective, if-eq-ok, if-cases}
use mcp_gw.Cli.Pack.{
  CliPackFlags, CliPackOperation, CliPack, Property, own, inherited, missing, property,
}
use mcp_gw.Cli.Kubectl.{
  forbidden_flags, ClassifiedCommand, Scan, start, flag_of, inline_of, flags_in_force, dashed,
  flag_value, consume_flag, chosen, step_flag, step_word, step_of, step, first, scan_args,
  classify_kubectl,
}

-- The argument is no flag, or a flag that is not forbidden, with or without a value in it.
abbrev pub IsSafe : String → Type 0
IsSafe argument =
    (starts_with_char b'-' argument ≡ false)
    ⊎ ((argument ≢ "--") × (includes forbidden_flags (before b'=' argument) ≡ false))

-- The next argument is not taken as a value, or it is no flag.
abbrev LeavesFlags : Bool → Option String → Type 0
LeavesFlags skip next = (skip ≡ false) ⊎ (dashed next ≡ false)

flag_value-LeavesFlags :
    (pack : CliPack) (output : Bool) (flag : String) (inline_ next : Option String) (skip : Bool)
    → flag_value pack output flag inline_ next ≡ ok skip
    → LeavesFlags skip next
unfolding flag_value
flag_value-LeavesFlags pack output flag (some value) next skip h =
    let (x, h1) = if-eq-ok (not (truthy value)) _ _ h in
    let (y, last) = if-eq-ok (output && not (includes pack.output_formats value)) _ _ h1 in
    inl (sym (ok-injective last))
flag_value-LeavesFlags pack output flag none next skip h =
    let (x, h1) = if-eq-ok (not (truthy? next) || dashed next) _ _ h in inr (ground arith)

consume_flag-LeavesFlags :
    (pack : CliPack) (flags : CliPackFlags) (argument : String) (next : Option String)
    (flag : String) (skip : Bool)
    → consume_flag pack flags argument next flag ≡ ok skip
    → LeavesFlags skip next
unfolding consume_flag
consume_flag-LeavesFlags pack flags argument next flag skip h =
    elim (if-cases (includes flags.boolean flag) _ _ h) [
      | inl (yes_, k) ↦
          let (x, last) = if-eq-ok (is_some (inline_of argument)) _ _ k in
          inl (sym (ok-injective last))
      | inr (no_, k) ↦
          let (x, last) =
            if-eq-ok (not (includes flags.output flag) && not (includes flags.value flag)) _ _ k in
          flag_value-LeavesFlags pack (includes flags.output flag) flag (inline_of argument) next
            skip last
    ]

chosen-skip :
    (argument : String) (scan scan' : Scan) (p : Property CliPackOperation) (skip : Bool)
    → chosen argument scan p ≡ ok (skip, scan')
    → skip ≡ false
unfolding chosen
chosen-skip argument scan scan' (own operation) skip h = sym (ap (λ r. r.0) (ok-injective h))
chosen-skip argument scan scan' inherited skip h = sym (ap (λ r. r.0) (ok-injective h))
chosen-skip argument scan scan' missing skip h = cc

pub step_word-skip :
    (pack : CliPack) (argument : String) (scan scan' : Scan) (skip : Bool)
    → step_word pack argument scan ≡ ok (skip, scan')
    → skip ≡ false
unfolding step_word
step_word-skip pack argument scan scan' skip h =
    elim (if-cases (not (truthy? scan.operation)) _ _ h) [
      | inl (first_word, k) ↦
          chosen-skip argument scan scan' (property pack.operations argument) skip k
      | inr (later, k) ↦
          let (x, last) = if-eq-ok (not (is_some scan.config)) _ _ k in
          sym (ap (λ r. r.0) (ok-injective last))
    ]

step-IsSafe :
    (pack : CliPack) (argument : String) (next : Option String) (scan scan' : Scan) (skip : Bool)
    → step pack argument next scan ≡ ok (skip, scan')
    → IsSafe argument × LeavesFlags skip next
unfolding step flag_of step_of step_flag
step-IsSafe pack argument next scan scan' skip h =
    let (word, h1) = if-eq-ok (argument == "--") _ _ h in
    elim (Bool-cases (starts_with_char b'-' argument)) [
      | inr plain ↦
          let k : step_word pack argument scan ≡ ok (skip, scan') = rw plain at h1 in
          (inl plain, inl (step_word-skip pack argument scan scan' skip k))
      | inl flag ↦
          let k : step_flag pack argument next (before b'=' argument) scan ≡ ok (skip, scan') =
            rw flag at h1 in
          let (allowed, k1) = if-eq-ok (includes forbidden_flags (before b'=' argument)) _ _ k in
          let (skip', consumed, last) =
            >>=-eq-ok
              (consume_flag pack (flags_in_force pack scan.config) argument next
                (before b'=' argument))
              _ k1 in
          let leaves =
            consume_flag-LeavesFlags pack (flags_in_force pack scan.config) argument next
              (before b'=' argument) skip' consumed in
          (
            inr (ground (arith, eq_iff argument "--"), allowed),
            subst (λ b. LeavesFlags b next) (ap (λ r. r.0) (ok-injective last)) leaves,
          )
    ]

module _ (pack : CliPack) where
  scan_args-IsSafe :
      (skip : Bool) (scan scan' : Scan) (args : List String)
      → scan_args pack skip scan args ≡ ok scan'
      → LeavesFlags skip (first args)
      → All IsSafe args
  unfolding scan_args
  scan_args-IsSafe skip scan scan' [] h leaves = tt
  scan_args-IsSafe true scan scan' (a ∷ args) h (inl impossible) = cc
  scan_args-IsSafe true scan scan' (a ∷ args) h (inr plain) =
      (inl plain, scan_args-IsSafe false scan scan' args h (inl refl))
  scan_args-IsSafe false scan scan' (a ∷ args) h leaves =
      let ((skip, next_scan), stepped, rest) = >>=-eq-ok (step pack a (first args) scan) _ h in
      let (safe, leaves') = step-IsSafe pack a (first args) scan next_scan skip stepped in
      (safe, scan_args-IsSafe skip next_scan scan' args rest leaves')

-- When a command line is approved, every argument of it that starts with a dash is neither the
-- separator nor one of the forbidden flags, with or without a value, wherever it stands.
pub classify_kubectl-IsSafe :
    (pack : CliPack) (args : List String) (command : ClassifiedCommand)
    → classify_kubectl pack args ≡ ok command
    → All IsSafe args
unfolding classify_kubectl
classify_kubectl-IsSafe pack args command h =
    let (scan, scanned, last) = >>=-eq-ok (scan_args pack false start args) _ h in
    scan_args-IsSafe pack false start scan args scanned (inl refl)
