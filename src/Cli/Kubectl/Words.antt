-- ===== src/Cli/Kubectl/Words.antt =====
-- What the scan of a command line keeps: a word after the operation stays among its words.
use mcp_gw.Common.{
  String, Bool, true, false, not, ◌&&◌, Option, none, some, is_some, List, [], ◌∷◌, ◌++◌, truthy,
  truthy?, ◌==◌, ◌≡◌, refl, sym, ap, ◌∙◌, inl, inr, Bool-cases, if◌then◌else◌,
}
use mcp_gw.Common.Lists.{includes, Has}
use mcp_gw.Common.Text.{before, starts_with_char}
use mcp_gw.Common.Errors.{ok, err, ok-injective, if-eq-ok, >>=-eq-ok}
use mathlib.Core.Path.{subst}
use mcp_gw.Cli.Pack.{CliPackFlags, CliPack}
use mcp_gw.Cli.Kubectl.{
  Scan, start, first, flag_of, inline_of, flag_value, flags_in_force, forbidden_flags, consume_flag,
  step, step_of, step_flag, step_word, scan_args,
}
use mcp_gw.Cli.Kubectl.Flags.{step_word-skip}

-- A flag that was read without a further argument is read the same before one.
flag_value-last :
    (pack : CliPack) (output : Bool) (flag : String) (inline next : Option String) (skip : Bool)
    → flag_value pack output flag inline none ≡ ok skip
    → (skip ≡ false) × (flag_value pack output flag inline next ≡ ok skip)
unfolding flag_value
flag_value-last pack output flag none next skip h = cc
flag_value-last pack output flag (some value) next skip h =
    let (a, h1) = if-eq-ok (not (truthy value)) _ _ h in
    let (b, h2) = if-eq-ok (output && not (includes pack.output_formats value)) _ _ h1 in
    (sym (ok-injective h2), h)

consume_flag-last :
    (pack : CliPack) (flags : CliPackFlags) (argument flag : String) (next : Option String)
    (skip : Bool)
    → consume_flag pack flags argument none flag ≡ ok skip
    → (skip ≡ false) × (consume_flag pack flags argument next flag ≡ ok skip)
unfolding consume_flag
consume_flag-last pack flags argument flag next skip h =
    elim (Bool-cases (includes flags.boolean flag)) [
      | inl boolean ↦
          let (a, k) = if-eq-ok (is_some (inline_of argument)) _ (ok false) (rw boolean at h) in
          (sym (ok-injective k), rw (boolean, a) k)
      | inr other ↦
          let (a, k) =
            if-eq-ok (not (includes flags.output flag) && not (includes flags.value flag)) _
              (flag_value pack (includes flags.output flag) flag (inline_of argument) none)
              (rw other at h) in
          let (b, e) =
            flag_value-last pack (includes flags.output flag) flag (inline_of argument) next skip
              k in
          (b, rw (other, a) e)
    ]

step_flag-last :
    (pack : CliPack) (argument flag : String) (next : Option String) (scan after_ : Scan)
    (skip : Bool)
    → step_flag pack argument none flag scan ≡ ok (skip, after_)
    → (skip ≡ false)
      × (after_ ≡ scan)
      × (step_flag pack argument next flag scan ≡ ok (skip, after_))
unfolding step_flag
step_flag-last pack argument flag next scan after_ skip h =
    let (allowed, k) = if-eq-ok (includes forbidden_flags flag) _ _ h in
    let (b, consumed, last) =
      >>=-eq-ok (consume_flag pack (flags_in_force pack scan.config) argument none flag) _ k in
    let (no_, same) =
      consume_flag-last pack (flags_in_force pack scan.config) argument flag next b consumed in
    let e = ok-injective last in
    (sym (ap (λ r. r.0) e) ∙ no_, sym (ap (λ r. r.1) e), rw (allowed, same) last)

step-last :
    (pack : CliPack) (argument : String) (next : Option String) (scan after_ : Scan) (skip : Bool)
    → step pack argument none scan ≡ ok (skip, after_)
    → (skip ≡ false) × (step pack argument next scan ≡ ok (skip, after_))
unfolding step flag_of step_of
step-last pack argument next scan after_ skip h =
    let (word, k) = if-eq-ok (argument == "--") _ _ h in
    elim (Bool-cases (starts_with_char b'-' argument)) [
      | inl flag ↦
          let (no_, kept, same) =
            step_flag-last pack argument (before b'=' argument) next scan after_ skip
              (rw flag at k) in
          (no_, rw (word, flag) same)
      | inr plain ↦
          let m : step_word pack argument scan ≡ ok (skip, after_) = rw plain at k in
          (step_word-skip pack argument scan after_ skip m, rw (word, plain) m)
    ]

-- Once the arguments ahead are read to their end, reading goes on from there.
scan_args-append_cons :
    (pack : CliPack) (skip : Bool) (a : String) (ahead later : List String) (scan after_ : Scan)
    → scan_args pack skip scan (a ∷ ahead) ≡ ok after_
    → scan_args pack skip scan (a ∷ ahead ++ later) ≡ scan_args pack false after_ later
unfolding scan_args
scan_args-append_cons pack true a [] later scan after_ h =
    ap (λ s. scan_args pack false s later) (ok-injective h)
scan_args-append_cons pack true a (b ∷ ahead) later scan after_ h =
    scan_args-append_cons pack false b ahead later scan after_ h
scan_args-append_cons pack false a [] later scan after_ h =
    let ((skip, s), stepped, done) = >>=-eq-ok (step pack a none scan) _ h in
    let (no_, same) = step-last pack a (first later) scan s skip stepped in
    let e = ok-injective done in rw (same, no_, e) refl
scan_args-append_cons pack false a (b ∷ ahead) later scan after_ h =
    let ((skip, s), stepped, done) = >>=-eq-ok (step pack a (some b) scan) _ h in
    rw stepped (scan_args-append_cons pack skip b ahead later s after_ done)

scan_args-append :
    (pack : CliPack) (ahead later : List String) (scan after_ : Scan)
    → scan_args pack false scan ahead ≡ ok after_
    → scan_args pack false scan (ahead ++ later) ≡ scan_args pack false after_ later
unfolding scan_args
scan_args-append pack [] later scan after_ h =
    ap (λ s. scan_args pack false s later) (ok-injective h)
scan_args-append pack (a ∷ ahead) later scan after_ h =
    scan_args-append_cons pack false a ahead later scan after_ h

-- The operation was chosen, and the word was read.
record Keeps (operation word : String) (scan : Scan) : Type 0 where
  pub chosen_of : scan.operation ≡ some operation
  pub there : Has word scan.positionals

Has-append : (word : String) (xs ys : List String) → Has word xs → Has word (xs ++ ys)
Has-append word [] ys h = elim h [ ]
Has-append word (x ∷ xs) ys (inl e) = inl e
Has-append word (x ∷ xs) ys (inr later) = inr (Has-append word xs ys later)

Has-append_last : (word : String) (xs : List String) → Has word (xs ++ word ∷ [])
Has-append_last word [] = inl refl
Has-append_last word (x ∷ xs) = inr (Has-append_last word xs)

-- What a word does after the operation
step_word-after :
    (pack : CliPack) (argument operation : String) (scan after_ : Scan) (skip : Bool)
    → step_word pack argument scan ≡ ok (skip, after_)
    → scan.operation ≡ some operation
    → truthy operation ≡ true
    → (after_.operation ≡ some operation) × (after_.positionals ≡ scan.positionals ++ argument ∷ [])
unfolding step_word
step_word-after pack argument operation scan after_ skip h is_operation named =
    let there : not (truthy? scan.operation) ≡ false = rw (is_operation, named) refl in
    let k : (if not (is_some scan.config)
          then err "kubectl subcommand is not approved"
          else ok (false, record scan { positionals = scan.positionals ++ argument ∷ [] }))
        ≡ ok (skip, after_) =
      rw there at h in
    let (configured, last) = if-eq-ok (not (is_some scan.config)) _ _ k in
    let e = ap (λ r. r.1) (ok-injective last) in
    (
      ap (λ (s : Scan). s.operation) (sym e) ∙ is_operation,
      ap (λ (s : Scan). s.positionals) (sym e),
    )

step_flag-after :
    (pack : CliPack) (argument flag : String) (next : Option String) (scan after_ : Scan)
    (skip : Bool)
    → step_flag pack argument next flag scan ≡ ok (skip, after_)
    → after_ ≡ scan
unfolding step_flag
step_flag-after pack argument flag next scan after_ skip h =
    let (allowed, k) = if-eq-ok (includes forbidden_flags flag) _ _ h in
    let (b, consumed, last) =
      >>=-eq-ok (consume_flag pack (flags_in_force pack scan.config) argument next flag) _ k in
    sym (ap (λ r. r.1) (ok-injective last))

step-Keeps :
    (pack : CliPack) (argument operation word : String) (next : Option String) (scan after_ : Scan)
    (skip : Bool)
    → step pack argument next scan ≡ ok (skip, after_)
    → truthy operation ≡ true
    → Keeps operation word scan
    → Keeps operation word after_
unfolding step flag_of step_of
step-Keeps pack argument operation word next scan after_ skip h named keeps =
    let (separator, k) = if-eq-ok (argument == "--") _ _ h in
    elim (Bool-cases (starts_with_char b'-' argument)) [
      | inl flag ↦
          let same =
            step_flag-after pack argument (before b'=' argument) next scan after_ skip
              (rw flag at k) in
          subst (Keeps operation word) (sym same) keeps
      | inr plain ↦
          let (o, p) =
            step_word-after pack argument operation scan after_ skip (rw plain at k) keeps.chosen_of
              named in
          record {
            chosen_of = o;
            there =
                subst (Has word) (sym p)
                  (Has-append word scan.positionals (argument ∷ []) keeps.there);
          }
    ]

scan_args-Keeps :
    (pack : CliPack) (operation word : String) (skip : Bool) (args : List String)
    (scan after_ : Scan)
    → scan_args pack skip scan args ≡ ok after_
    → truthy operation ≡ true
    → Keeps operation word scan
    → Keeps operation word after_
unfolding scan_args
scan_args-Keeps pack operation word skip [] scan after_ h named keeps =
    subst (Keeps operation word) (ok-injective h) keeps
scan_args-Keeps pack operation word true (a ∷ args) scan after_ h named keeps =
    scan_args-Keeps pack operation word false args scan after_ h named keeps
scan_args-Keeps pack operation word false (a ∷ args) scan after_ h named keeps =
    let ((skip, s), stepped, rest) = >>=-eq-ok (step pack a (first args) scan) _ h in
    scan_args-Keeps pack operation word skip args s after_ rest named
      (step-Keeps pack a operation word (first args) scan s skip stepped named keeps)

-- A word that comes after the operation, and not as the value of a flag, is among the words that are
-- read in the end.
pub scan_args-word :
    (pack : CliPack) (ahead later : List String) (word operation : String) (scan last : Scan)
    → scan_args pack false start ahead ≡ ok scan
    → scan_args pack false start (ahead ++ word ∷ later) ≡ ok last
    → scan.operation ≡ some operation
    → truthy operation ≡ true
    → starts_with_char b'-' word ≡ false
    → (last.operation ≡ some operation) × Has word last.positionals
unfolding scan_args step flag_of step_of
scan_args-word pack ahead later word operation scan last scanned done is_operation named plain =
    let k : scan_args pack false scan (word ∷ later) ≡ ok last =
      sym (scan_args-append pack ahead (word ∷ later) start scan scanned) ∙ done in
    let ((skip, s), stepped, rest) = >>=-eq-ok (step pack word (first later) scan) _ k in
    let (separator, j) = if-eq-ok (word == "--") _ _ stepped in
    let (o, p) =
      step_word-after pack word operation scan s skip (rw plain at j) is_operation named in
    let keeps = scan_args-Keeps pack operation word skip later s last rest named (record {
      chosen_of = o;
      there = subst (Has word) (sym p) (Has-append_last word scan.positionals);
    }) in
    (keeps.chosen_of, keeps.there)
