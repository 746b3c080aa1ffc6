-- ===== src/Cli/PackFile/ReadOnly.antt =====
-- A pack that is read approves reading only, and does not hand its credential out by another name.
use mcp_gw.Common.{
  ℕ, ◌≤◌, String, Bool, true, false, not, ◌&&◌, ◌||◌, Option, none, some, is_some, List, [], ◌∷◌,
  leb, ◌==◌, ◌++◌, ◌≡◌, ◌≢◌, refl, ◌⊎◌, inl, inr, arith, eq_iff, Bool-cases,
}
use mathlib.Core.Path.{subst}
use mcp_gw.Common.Text.{◌<>◌}
use mcp_gw.Common.Lists.{All, any, is_empty, includes, any-eq-false, All-mono}
use mcp_gw.Common.Dict.{Dict, lookup, insert}
use mcp_gw.Common.Errors.{Result, ok, require, >>=-eq-ok, ok-injective}
use mcp_gw.Json.{Json, str, Props, end, prop, get}
use mcp_gw.Policy.{ActionClass, read, secret_read}
use mcp_gw.Cli.Pack.{CliPackOperation, CliPack, CliBinary, CliCredential, SecretOverlay}
use mcp_gw.Cli.Reader.{
  only, expect_mapping, name, absolute, string_list, flag_list, class_for_rbac_verbs,
}
use mcp_gw.Cli.Operations.{
  repeats, parse_operation, parse_entries, has_no_keys, parse_operations, string_record,
  commands_of,
}
use mcp_gw.Cli.PackFile.{
  is_string, parse_binary, parse_credential, parse_overlay, root_fields, limit_fields, limit,
  parse_root, parse_runner, parse_catalog, assemble, Parts, parse_cli_pack,
}

abbrev pub Reads : CliPackOperation → Type 0
Reads operation =
    (operation.rbac_verbs ≢ [])
    × All (λ verb. (verb ≡ "get") ⊎ (verb ≡ "list")) operation.rbac_verbs

abbrev pub IsReadClass : ActionClass → Type 0
IsReadClass action_class = (action_class ≡ read) ⊎ (action_class ≡ secret_read)

-- What a pack that has been read promises.
pub record IsReadOnly (pack : CliPack) : Type 0 where
  pub verbs : All (λ e. Reads e.1) pack.operations
  pub classes : All (λ e. IsReadClass e.1) pack.commands
  pub hidden : lookup pack.credential.target_env pack.runner.env ≡ none
  pub within : pack.runner.default_timeout_seconds ≤ pack.runner.max_timeout_seconds

require-eq_ok : (b : Bool) (message : String) {u : Unit {0}} → require b message ≡ ok u → b ≡ true
require-eq_ok true message h = refl
require-eq_ok false message h = cc

class-Reads :
    (operation : CliPackOperation) {u : Unit {0}}
    → class_for_rbac_verbs operation.rbac_verbs ≡ ok u
    → Reads operation
unfolding class_for_rbac_verbs
class-Reads operation h =
    let verbs = operation.rbac_verbs in
    let other = λ (verb : String). not (verb == "get") && not (verb == "list") in
    let valid = require-eq_ok (not (is_empty verbs || any other verbs)) _ h in
    let none_other : any other verbs ≡ false = ground arith in
    (
      λ e. let k : not (true || any other verbs) ≡ true = rw e at valid in cc k,
      All-mono
          (λ verb (o : other verb ≡ false). ground (arith, eq_iff verb "get", eq_iff verb "list"))
          verbs (any-eq-false other verbs none_other),
    )

parse_operation-Reads :
    (key : String) (raw : Json) (operation : CliPackOperation)
    → parse_operation key raw ≡ ok operation
    → Reads operation
unfolding parse_operation
parse_operation-Reads key raw operation h =
    let path = "pack.operations." <> key in
    let (named, e0, h0) = >>=-eq-ok (name (str key) "pack operation") _ h in
    let (config, e1, h1) = >>=-eq-ok (expect_mapping raw path) _ h0 in
    let (u2, e2, h2) =
      >>=-eq-ok (only config ("rbacVerbs" ∷ "rbacResources" ∷ "flags" ∷ [])) _ h1 in
    let (flags, e3, h3) = >>=-eq-ok (expect_mapping (get config "flags") (path <> ".flags")) _ h2 in
    let (u4, e4, h4) = >>=-eq-ok (only flags ("value" ∷ "boolean" ∷ "output" ∷ [])) _ h3 in
    let (value, e5, h5) = >>=-eq-ok (flag_list (get flags "value") key) _ h4 in
    let (boolean, e6, h6) = >>=-eq-ok (flag_list (get flags "boolean") key) _ h5 in
    let (output, e7, h7) = >>=-eq-ok (flag_list (get flags "output") key) _ h6 in
    let (u8, e8, h8) = >>=-eq-ok (require (not (repeats (value ++ boolean ++ output))) _) _ h7 in
    let (verbs, e9, h9) =
      >>=-eq-ok (string_list (get config "rbacVerbs") (key <> ".rbacVerbs")) _ h8 in
    let (u10, valid, h10) = >>=-eq-ok (class_for_rbac_verbs verbs) _ h9 in
    let (resources, e11, last) =
      >>=-eq-ok (string_list (get config "rbacResources") (key <> ".rbacResources")) _ h10 in
    subst Reads (ok-injective last) (
      class-Reads
        (record {
          rbac_verbs = verbs;
          rbac_resources = resources;
          flags = record { value = value; boolean = boolean; output = output };
        })
        valid)

parse_entries-Reads :
    (source : Props) (operations : Dict CliPackOperation)
    → parse_entries source ≡ ok operations
    → All (λ e. Reads e.1) operations
unfolding parse_entries
parse_entries-Reads end operations h = subst (λ o. All (λ e. Reads e.1) o) (ok-injective h) tt
parse_entries-Reads (prop key raw rest) operations h =
    let (operation, read_, h1) = >>=-eq-ok (parse_operation key raw) _ h in
    let (later, parsed, last) = >>=-eq-ok (parse_entries rest) _ h1 in
    subst (λ o. All (λ e. Reads e.1) o) (ok-injective last)
      (parse_operation-Reads key raw operation read_, parse_entries-Reads rest later parsed)

parse_operations-Reads :
    (value : Json) (operations : Dict CliPackOperation)
    → parse_operations value ≡ ok operations
    → All (λ e. Reads e.1) operations
unfolding parse_operations
parse_operations-Reads value operations h =
    let (source, e, h1) = >>=-eq-ok (expect_mapping value "pack.operations") _ h in
    let (u, f, last) = >>=-eq-ok (require (not (has_no_keys source)) _) _ h1 in
    parse_entries-Reads source operations last

All-insert :
    (P : ActionClass → Type 0) (key : String) (v : ActionClass) (m : Dict ActionClass)
    → P v
    → All (λ e. P e.1) m
    → All (λ e. P e.1) (insert key v m)
unfolding insert
All-insert P key v [] p ps = (p, tt)
All-insert P key v ((k, w) ∷ m) p (q, ps) = elim (Bool-cases (k == key)) [
  | inl same ↦ rw same (p, ps)
  | inr other ↦ rw other (q, All-insert P key v m p ps)
]

commands_of-IsReadClass :
    (overlaid : List String) (operations : Dict CliPackOperation)
    (commands filled : Dict ActionClass)
    → commands_of overlaid operations commands ≡ ok filled
    → All (λ e. IsReadClass e.1) commands
    → All (λ e. IsReadClass e.1) filled
unfolding commands_of
commands_of-IsReadClass overlaid [] commands filled h all =
    subst (λ c. All (λ e. IsReadClass e.1) c) (ok-injective h) all
commands_of-IsReadClass overlaid ((operation, config) ∷ rest) commands filled h all =
    let (u, e, h1) = >>=-eq-ok (class_for_rbac_verbs config.rbac_verbs) _ h in
    let readable = All-insert IsReadClass operation read commands (inl refl) all in
    elim (Bool-cases (includes overlaid operation)) [
      | inl yes_ ↦
          let k : commands_of overlaid rest
                (insert (operation <> ":secret") secret_read (insert operation read commands))
              ≡ ok filled =
            rw yes_ at h1 in
          commands_of-IsReadClass overlaid rest _ filled k
            (All-insert IsReadClass (operation <> ":secret") secret_read _ (inr refl) readable)
      | inr no_ ↦
          let k : commands_of overlaid rest (insert operation read commands) ≡ ok filled =
            rw no_ at h1 in
          commands_of-IsReadClass overlaid rest _ filled k readable
    ]

not_some : {A : Type 0} (o : Option A) → not (is_some o) ≡ true → o ≡ none
not_some none h = refl
not_some (some a) h = cc

le_of_leb : (m n : ℕ) → leb m n ≡ true → m ≤ n
le_of_leb m n h = ground arith

-- The settings of a pack, with what holds of them.
record ArePlain (parts : Parts) : Type 0 where
  hidden : lookup parts.credential.target_env parts.env ≡ none
  within : parts.timeout ≤ parts.max_timeout

assemble-IsReadOnly :
    (runner limits : Props) (parts : Parts) (operations : Dict CliPackOperation)
    (formats : List String) (overlay : SecretOverlay) (commands : Dict ActionClass) (pack : CliPack)
    → ArePlain parts
    → All (λ e. Reads e.1) operations
    → All (λ e. IsReadClass e.1) commands
    → assemble runner limits parts operations formats overlay commands ≡ ok pack
    → IsReadOnly pack
unfolding assemble
assemble-IsReadOnly runner limits parts operations formats overlay commands pack plain verbs classes
      h =
    let (cwd, e0, h1) = >>=-eq-ok (absolute (get runner "cwd") "pack.runner.cwd") _ h in
    let (output_bytes, e1, h2) = >>=-eq-ok (limit limits "outputBytes") _ h1 in
    let (body_bytes, e2, h3) = >>=-eq-ok (limit limits "requestBodyBytes") _ h2 in
    let (args, e3, h4) = >>=-eq-ok (limit limits "args") _ h3 in
    let (arg_bytes, e4, h5) = >>=-eq-ok (limit limits "argBytes") _ h4 in
    let (jobs, e5, h6) = >>=-eq-ok (limit limits "maxJobs") _ h5 in
    let (running, e6, h7) = >>=-eq-ok (limit limits "maxRunningJobsPerOwner") _ h6 in
    let (retention, e7, last) = >>=-eq-ok (limit limits "jobRetentionSeconds") _ h7 in
    subst IsReadOnly (ok-injective last)
      (record { verbs = verbs; classes = classes; hidden = plain.hidden; within = plain.within })

parse_catalog-IsReadOnly :
    (root runner limits : Props) (parts : Parts) (pack : CliPack)
    → ArePlain parts
    → parse_catalog root runner limits parts ≡ ok pack
    → IsReadOnly pack
unfolding parse_catalog
parse_catalog-IsReadOnly root runner limits parts pack plain h =
    let (operations, parsed, h1) = >>=-eq-ok (parse_operations (get root "operations")) _ h in
    let (formats, e1, h2) =
      >>=-eq-ok (string_list (get root "outputFormats") "pack.outputFormats") _ h1 in
    let (overlay, e2, h3) = >>=-eq-ok (parse_overlay operations (get root "secretOverlay")) _ h2 in
    let (commands, filled, last) = >>=-eq-ok (commands_of overlay.operations operations []) _ h3 in
    assemble-IsReadOnly runner limits parts operations formats overlay commands pack plain
      (parse_operations-Reads (get root "operations") operations parsed)
      (commands_of-IsReadClass overlay.operations operations [] commands filled tt) last

parse_runner-IsReadOnly :
    (root : Props) (cli : String) (binary : CliBinary) (credential : CliCredential) (pack : CliPack)
    → parse_runner root cli binary credential ≡ ok pack
    → IsReadOnly pack
unfolding parse_runner
parse_runner-IsReadOnly root cli binary credential pack h =
    let (runner, e0, h1) = >>=-eq-ok (expect_mapping (get root "runner") "pack.runner") _ h in
    let (u1, e1, h2) = >>=-eq-ok (only runner ("cwd" ∷ "env" ∷ "limits" ∷ [])) _ h1 in
    let (variables, e2, h3) =
      >>=-eq-ok (expect_mapping (get runner "env") "pack.runner.env") _ h2 in
    let (env, e3, h4) = >>=-eq-ok (string_record variables "pack.runner.env") _ h3 in
    let (u4, absent, h5) =
      >>=-eq-ok (require (not (is_some (lookup credential.target_env env))) _) _ h4 in
    let (limits, e5, h6) =
      >>=-eq-ok (expect_mapping (get runner "limits") "pack.runner.limits") _ h5 in
    let (u6, e6, h7) = >>=-eq-ok (only limits limit_fields) _ h6 in
    let (timeout, e7, h8) = >>=-eq-ok (limit limits "timeoutSeconds") _ h7 in
    let (max_timeout, e8, h9) = >>=-eq-ok (limit limits "maxTimeoutSeconds") _ h8 in
    let (u9, within, last) = >>=-eq-ok (require (leb timeout max_timeout) _) _ h9 in
    let missing =
      not_some (lookup credential.target_env env)
        (require-eq_ok (not (is_some (lookup credential.target_env env))) _ absent) in
    let fits = le_of_leb timeout max_timeout (require-eq_ok (leb timeout max_timeout) _ within) in
    let plain : ArePlain (record {
      cli = cli;
      binary = binary;
      credential = credential;
      env = env;
      timeout = timeout;
      max_timeout = max_timeout;
    }) =
      record { hidden = missing; within = fits } in
    parse_catalog-IsReadOnly root runner limits _ pack plain last

parse_root-IsReadOnly :
    (root : Props) (pack : CliPack) → parse_root root ≡ ok pack → IsReadOnly pack
unfolding parse_root
parse_root-IsReadOnly root pack h =
    let (u0, e0, h1) = >>=-eq-ok (only root root_fields) _ h in
    let (u1, e1, h2) =
      >>=-eq-ok (require (is_string "mcp-gateway.cli-pack/v1" (get root "schemaVersion")) _) _ h1 in
    let (cli, e2, h3) = >>=-eq-ok (name (get root "cli") "pack.cli") _ h2 in
    let (u3, e3, h4) = >>=-eq-ok (require (is_string "kubectl" (get root "parser")) _) _ h3 in
    let (binary, e4, h5) = >>=-eq-ok (parse_binary (get root "binary")) _ h4 in
    let (credential, e5, last) = >>=-eq-ok (parse_credential (get root "credential")) _ h5 in
    parse_runner-IsReadOnly root cli binary credential pack last

-- A pack that is read from a file approves reading only: each of its operations has verbs, and they
-- are `get` and `list`; every command of its catalog is one that reads or reads secrets. Its fixed
-- environment does not set the variable of the credential, and its timeout is at most its maximum.
pub parse_cli_pack-IsReadOnly :
    (parse : String → Result Json) (source : String) (pack : CliPack)
    → parse_cli_pack parse source ≡ ok pack
    → IsReadOnly pack
unfolding parse_cli_pack
parse_cli_pack-IsReadOnly parse source pack h =
    let (value, e, h1) = >>=-eq-ok (parse source) _ h in
    let (root, f, last) = >>=-eq-ok (expect_mapping value "pack") _ h1 in
    parse_root-IsReadOnly root pack last
