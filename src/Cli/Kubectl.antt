-- ===== src/Cli/Kubectl.antt =====
-- servers/governed-cli/src/kubectl-classifier.ts: classifyKubectl. The loop over the arguments is a
-- recursion on them; where the source moves its index over a flag's value, the next argument is
-- skipped.
pub mod Flags
pub mod Words
pub mod Secrets
pub mod Inherited
use mcp_gw.Common.{
  ℕ, String, Bool, true, false, not, ◌&&◌, ◌||◌, Option, none, some, is_some, List, [], ◌∷◌, ◌++◌,
  map, nat_eq, truthy, truthy?, ◌==◌, if◌then◌else◌,
}
use mcp_gw.Common.Text.{◌<>◌, before, after, has_char, starts_with_char, split_on, to_lower}
use mcp_gw.Common.Lists.{any, includes, keep, length}
use mcp_gw.Common.Dict.{Dict, entries}
use mcp_gw.Common.Errors.{Result, ok, err, ◌>>=◌}
use mcp_gw.Policy.{ActionClass}
use mcp_gw.Cli.Pack.{
  CliPackFlags, CliPackOperation, CliPack, Property, own, inherited, missing, property,
}

abbrev pub forbidden_flags : List String
forbidden_flags =
    "--as" ∷ "--as-group" ∷ "--as-uid" ∷ "--token" ∷ "--server" ∷ "--kubeconfig" ∷ "--context"
    ∷ "--cluster" ∷ "--user" ∷ "--certificate-authority" ∷ "--insecure-skip-tls-verify" ∷ "--raw"
    ∷ "--filename" ∷ "-f" ∷ []

-- The class is undefined where the decision was inherited.
pub record ClassifiedCommand : Type 0 where
  pub command : String
  pub action_class : Option ActionClass

-- `operationConfig`, with the flags it has
pub record Scan : Type 0 where
  pub operation : Option String
  pub config : Option (Option CliPackFlags)
  pub positionals : List String

abbrev pub start : Scan
start = record { operation = none; config = none; positionals = [] }

-- `argument.startsWith("-") ? argument.split("=", 1)[0] : undefined`
unfoldable pub flag_of : String → Option String
flag_of argument = if starts_with_char b'-' argument then some (before b'=' argument) else none

-- `argument.includes("=") ? argument.slice(argument.indexOf("=") + 1) : undefined`
unfoldable pub inline_of : String → Option String
inline_of argument = if has_char b'=' argument then some (after b'=' argument) else none

abbrev pub is_namespace_flag : String → Bool
is_namespace_flag flag = flag == "--namespace" || flag == "-n"

abbrev pub is_all_namespaces_flag : String → Bool
is_all_namespaces_flag flag = flag == "--all-namespaces" || flag == "-A"

-- The sets are lists here: they are only asked what they include.
unfoldable pub global_flags_of : List CliPackOperation → CliPackFlags
global_flags_of [] = record { value = []; boolean = []; output = [] }
global_flags_of (operation ∷ operations) =
    let rest = global_flags_of operations in
    record {
      value = keep is_namespace_flag operation.flags.value ++ rest.value;
      boolean = keep is_all_namespaces_flag operation.flags.boolean ++ rest.boolean;
      output = [];
    }

abbrev pub global_flags : CliPack → CliPackFlags
global_flags pack = global_flags_of (entries pack.operations)

-- `operationConfig?.flags ?? globalFlags(pack)`
unfoldable pub flags_in_force : CliPack → Option (Option CliPackFlags) → CliPackFlags
flags_in_force pack (some (some flags)) = flags
flags_in_force pack _ = global_flags pack

-- `argument.startsWith("-")` of a value that may be undefined
abbrev pub dashed : Option String → Bool
dashed none = false
dashed (some value) = starts_with_char b'-' value

abbrev pub is_format : CliPack → Option String → Bool
is_format pack none = false
is_format pack (some value) = includes pack.output_formats value

-- The value of a flag: in the argument, or the next one. True when the next one was taken.
unfoldable pub flag_value : CliPack → Bool → String → Option String → Option String → Result Bool
flag_value pack output flag (some value) next =
    if not (truthy value)
    then err ("kubectl flag " <> flag <> " requires a value")
    else if output && not (includes pack.output_formats value)
    then err "kubectl output format is not approved"
    else ok false
flag_value pack output flag none next =
    if not (truthy? next) || dashed next
    then err ("kubectl flag " <> flag <> " requires a value")
    else if output && not (is_format pack next)
    then err "kubectl output format is not approved"
    else ok true

unfoldable pub consume_flag : CliPack → CliPackFlags → String → Option String → String → Result Bool
unfolding inline_of flag_value
consume_flag pack flags argument next flag =
    if includes flags.boolean flag
    then if is_some (inline_of argument)
      then err ("kubectl flag " <> flag <> " does not take a value")
      else ok false
    else if not (includes flags.output flag) && not (includes flags.value flag)
    then err ("kubectl flag " <> flag <> " is not approved")
    else flag_value pack (includes flags.output flag) flag (inline_of argument) next

-- The subcommand: `pack.operations[argument]` when that is truthy.
unfoldable pub chosen : String → Scan → Property CliPackOperation → Result (Bool × Scan)
chosen argument scan (own operation) =
    ok (false, record scan { operation = some argument; config = some (some operation.flags) })
chosen argument scan inherited =
    ok (false, record scan { operation = some argument; config = some none })
chosen argument scan missing = err "kubectl subcommand is not approved"

unfoldable pub step_flag : CliPack → String → Option String → String → Scan → Result (Bool × Scan)
unfolding consume_flag flags_in_force
step_flag pack argument next flag scan =
    if includes forbidden_flags flag
    then err ("kubectl flag " <> flag <> " is not approved")
    else do
      skip ← consume_flag pack (flags_in_force pack scan.config) argument next flag
      ok (skip, scan)

unfoldable pub step_word : CliPack → String → Scan → Result (Bool × Scan)
unfolding chosen
step_word pack argument scan =
    if not (truthy? scan.operation)
    then chosen argument scan (property pack.operations argument)
    else if not (is_some scan.config)
    then err "kubectl subcommand is not approved"
    else ok (false, record scan { positionals = scan.positionals ++ argument ∷ [] })

-- One turn of the loop. True when the next argument was taken as a value.
unfoldable pub step_of :
    CliPack → String → Option String → Option String → Scan → Result (Bool × Scan)
unfolding step_flag step_word
step_of pack argument next (some flag) scan = step_flag pack argument next flag scan
step_of pack argument next none scan = step_word pack argument scan

unfoldable pub step : CliPack → String → Option String → Scan → Result (Bool × Scan)
unfolding step_of flag_of
step pack argument next scan =
    if argument == "--"
    then err "kubectl argument separators are not approved"
    else step_of pack argument next (flag_of argument) scan

abbrev pub first : List String → Option String
first [] = none
first (a ∷ as_) = some a

unfoldable pub scan_args : CliPack → Bool → Scan → List String → Result Scan
unfolding step
scan_args pack skip scan [] = ok scan
scan_args pack true scan (argument ∷ args) = scan_args pack false scan args
scan_args pack false scan (argument ∷ args) = do
  (skip, after_) ← step pack argument (first args) scan
  scan_args pack skip after_ args

unfoldable pub resource_name : String → String
resource_name resource = to_lower (before b'.' (before b'/' resource))

unfoldable pub resource_names : String → List String
unfolding resource_name
resource_names value = map resource_name (split_on b',' value)

unfoldable pub names_secret : CliPack → String → Bool
unfolding resource_names
names_secret pack value = any (includes pack.secret_overlay.resources) (resource_names value)

unfoldable pub command_of : CliPack → String → List String → String
unfolding names_secret
command_of pack operation positionals =
    if includes pack.secret_overlay.operations operation && any (names_secret pack) positionals
    then operation <> ":secret"
    else operation

unfoldable pub decided : String → Property ActionClass → Result ClassifiedCommand
decided command (own action_class) =
    ok (record { command = command; action_class = some action_class })
decided command inherited = ok (record { command = command; action_class = none })
decided command missing = err "kubectl operation has no catalog decision"

unfoldable pub finish_with : CliPack → String → List String → Result ClassifiedCommand
unfolding decided
finish_with pack operation positionals =
    if nat_eq (length positionals) 0
    then err ("kubectl " <> operation <> " requires a resource")
    else if operation == "logs" && not (nat_eq (length positionals) 1)
    then err "kubectl logs accepts one workload argument"
    else if not (truthy? (first positionals))
    then err ("kubectl " <> operation <> " requires a resource")
    else let command = command_of pack operation positionals in
      decided command (property pack.commands command)

-- `if (!operation || !operationConfig) refuse(…)`
unfoldable pub finish_of :
    CliPack → List String → Option String → Option (Option CliPackFlags) → Result ClassifiedCommand
unfolding finish_with
finish_of pack positionals (some operation) (some config) =
    if truthy operation
    then finish_with pack operation positionals
    else err "kubectl subcommand is required"
finish_of pack positionals _ _ = err "kubectl subcommand is required"

unfoldable pub finish : CliPack → Scan → Result ClassifiedCommand
unfolding finish_of
finish pack scan = finish_of pack scan.positionals scan.operation scan.config

unfoldable pub classify_kubectl : CliPack → List String → Result ClassifiedCommand
unfolding scan_args finish
classify_kubectl pack args = do scan ← scan_args pack false start args; finish pack scan
