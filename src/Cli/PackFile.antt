-- ===== src/Cli/PackFile.antt =====
-- servers/governed-cli/src/pack.ts: parseCliPack. The YAML parser is a parameter.
pub mod ReadOnly
use mcp_gw.Common.{
  ℕ, String, Bool, true, false, not, ◌&&◌, ◌||◌, Option, none, some, is_some, List, [], ◌∷◌, ◌++◌,
  leb, ◌==◌, if◌then◌else◌,
}
use mcp_gw.Common.Text.{◌<>◌}
use mcp_gw.Common.Lists.{any, includes, is_empty}
use mcp_gw.Common.Dict.{Dict, lookup, insert}
use mcp_gw.Common.Errors.{Result, ok, err, ◌>>=◌, ◌>>◌, require}
use mcp_gw.Json.{Json, str, Props, end, prop, get}
use mcp_gw.Policy.{ActionClass, read, secret_read}
use mcp_gw.Cli.Pack.{
  CliPackFlags, CliPackOperation, SecretOverlay, CliBinary, CliCredential, CliRunnerConfig,
  RequestLimits, JobLimits, CliPack, Property, own, inherited, missing, property,
}
use mcp_gw.Cli.Reader.{
  only, expect_mapping, text, positive, name, absolute, env_name, digest, string_list, flag_list,
  class_for_rbac_verbs,
}
use mcp_gw.Cli.Operations.{
  repeats, parse_operation, parse_entries, has_no_keys, parse_operations, string_record, is_missing,
  expect_operations, commands_of,
}

-- `value === text`
abbrev pub is_string : String → Json → Bool
is_string expected (str s) = s == expected
is_string expected _ = false

unfoldable pub parse_binary : Json → Result CliBinary
unfolding only absolute text digest
parse_binary value = do
  binary ← expect_mapping value "pack.binary"
  only binary ("path" ∷ "version" ∷ "sha256" ∷ [])
  path ← absolute (get binary "path") "pack.binary.path"
  version ← text (get binary "version") "pack.binary.version"
  sha256 ← expect_mapping (get binary "sha256") "pack.binary.sha256"
  only sha256 ("amd64" ∷ "arm64" ∷ [])
  amd64 ← digest (get sha256 "amd64") "pack.binary.sha256.amd64"
  arm64 ← digest (get sha256 "arm64") "pack.binary.sha256.arm64"
  ok (record { path = path; version = version; amd64 = amd64; arm64 = arm64 })

unfoldable pub parse_credential : Json → Result CliCredential
unfolding only name env_name
parse_credential value = do
  credential ← expect_mapping value "pack.credential"
  only credential ("provider" ∷ "sourceEnv" ∷ "targetEnv" ∷ [])
  provider ← name (get credential "provider") "pack.credential.provider"
  source_env ← env_name (get credential "sourceEnv") "pack.credential.sourceEnv"
  target_env ← env_name (get credential "targetEnv") "pack.credential.targetEnv"
  ok (record { provider = provider; source_env = source_env; target_env = target_env })

unfoldable pub parse_overlay : Dict CliPackOperation → Json → Result SecretOverlay
unfolding only string_list expect_operations
parse_overlay operations value = do
  overlay ← expect_mapping value "pack.secretOverlay"
  only overlay ("operations" ∷ "resources" ∷ "class" ∷ [])
  require (is_string "secret-read" (get overlay "class"))
      "pack.secretOverlay.class must be secret-read"
  overlaid ← string_list (get overlay "operations") "pack.secretOverlay.operations"
  expect_operations operations overlaid
  resources ← string_list (get overlay "resources") "pack.secretOverlay.resources"
  ok (record { operations = overlaid; resources = resources })

abbrev pub root_fields : List String
root_fields =
    "schemaVersion" ∷ "cli" ∷ "parser" ∷ "binary" ∷ "credential" ∷ "runner" ∷ "operations"
    ∷ "outputFormats" ∷ "secretOverlay" ∷ []

abbrev pub limit_fields : List String
limit_fields =
    "requestBodyBytes" ∷ "args" ∷ "argBytes" ∷ "timeoutSeconds" ∷ "maxTimeoutSeconds"
    ∷ "outputBytes" ∷ "maxJobs" ∷ "maxRunningJobsPerOwner" ∷ "jobRetentionSeconds" ∷ []

abbrev pub limit : Props → String → Result ℕ
limit limits field = positive (get limits field) ("pack.runner.limits." <> field)

-- What has been read ahead of the operations.
pub record Parts : Type 0 where
  pub cli : String
  pub binary : CliBinary
  pub credential : CliCredential
  pub env : Dict String
  pub timeout : ℕ
  pub max_timeout : ℕ

-- The end of `parseCliPack`: the numbers that are read while the pack is put together.
unfoldable pub assemble :
    Props
    → Props
    → Parts
    → Dict CliPackOperation
    → List String
    → SecretOverlay
    → Dict ActionClass
    → Result CliPack
unfolding positive absolute
assemble runner limits parts operations formats overlay commands = do
  cwd ← absolute (get runner "cwd") "pack.runner.cwd"
  output_bytes ← limit limits "outputBytes"
  body_bytes ← limit limits "requestBodyBytes"
  args ← limit limits "args"
  arg_bytes ← limit limits "argBytes"
  jobs ← limit limits "maxJobs"
  running ← limit limits "maxRunningJobsPerOwner"
  retention ← limit limits "jobRetentionSeconds"
  ok (record {
    cli = parts.cli;
    binary = parts.binary;
    credential = parts.credential;
    runner = record {
      env = parts.env;
      cwd = cwd;
      default_timeout_seconds = parts.timeout;
      max_timeout_seconds = parts.max_timeout;
      max_output_bytes = output_bytes;
    };
    request_limits = record {
      max_body_bytes = body_bytes;
      max_args = args;
      max_arg_bytes = arg_bytes;
    };
    job_limits = record {
      max_jobs = jobs;
      max_running_jobs_per_owner = running;
      retention_seconds = retention;
    };
    operations = operations;
    output_formats = formats;
    secret_overlay = overlay;
    commands = commands;
  })

-- The operations and their catalog, once the settings have been read.
unfoldable pub parse_catalog : Props → Props → Props → Parts → Result CliPack
unfolding string_list parse_operations commands_of parse_overlay
parse_catalog root runner limits parts = do
  operations ← parse_operations (get root "operations")
  formats ← string_list (get root "outputFormats") "pack.outputFormats"
  overlay ← parse_overlay operations (get root "secretOverlay")
  commands ← commands_of overlay.operations operations []
  assemble runner limits parts operations formats overlay commands

-- From the runner on.
unfoldable pub parse_runner : Props → String → CliBinary → CliCredential → Result CliPack
unfolding only positive string_record
parse_runner root cli binary credential = do
  runner ← expect_mapping (get root "runner") "pack.runner"
  only runner ("cwd" ∷ "env" ∷ "limits" ∷ [])
  variables ← expect_mapping (get runner "env") "pack.runner.env"
  env ← string_record variables "pack.runner.env"
  require (not (is_some (lookup credential.target_env env)))
      "credential targetEnv must not be present in runner.env"
  limits ← expect_mapping (get runner "limits") "pack.runner.limits"
  only limits limit_fields
  timeout ← limit limits "timeoutSeconds"
  max_timeout ← limit limits "maxTimeoutSeconds"
  require (leb timeout max_timeout) "pack runner timeout exceeds its maximum"
  parse_catalog root runner limits (record {
    cli = cli;
    binary = binary;
    credential = credential;
    env = env;
    timeout = timeout;
    max_timeout = max_timeout;
  })

unfoldable pub parse_root : Props → Result CliPack
unfolding only name parse_binary parse_credential
parse_root root = do
  only root root_fields
  require (is_string "mcp-gateway.cli-pack/v1" (get root "schemaVersion"))
      "pack.schemaVersion must be mcp-gateway.cli-pack/v1"
  cli ← name (get root "cli") "pack.cli"
  require (is_string "kubectl" (get root "parser")) "pack.parser must be kubectl"
  binary ← parse_binary (get root "binary")
  credential ← parse_credential (get root "credential")
  parse_runner root cli binary credential

unfoldable pub parse_cli_pack : (String → Result Json) → String → Result CliPack
parse_cli_pack parse source = do
  value ← parse source
  root ← expect_mapping value "pack"
  parse_root root
