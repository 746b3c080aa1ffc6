-- ===== src/Cli/Tests.antt =====
-- The classifier at concrete command lines.
use mcp_gw.Common.Text.{
  is_upper, is_lower, is_blank, codes, to_lower, split_on, has_char, before, after,
}
use mcp_gw.Common.{String, false, none, some, List, [], ◌∷◌, ◌≡◌, refl, inl, inr}
use mcp_gw.Common.Lists.{All}
use mcp_gw.Common.Dict.{insert, lookup}
use mcp_gw.Common.Errors.{ok}
use mcp_gw.Policy.{read, secret_read}
use mcp_gw.Json.{Json, nat, str, obj, arr, nil, cons, prop, end}
use mcp_gw.Cli.PackFile.{parse_runner, parse_root, parse_catalog, assemble, parse_cli_pack}
use mcp_gw.Cli.PackFile.ReadOnly.{IsReadOnly, parse_cli_pack-IsReadOnly}
use mcp_gw.Cli.Pack.{property, CliPackFlags, CliPack}
use mcp_gw.Cli.Kubectl.{
  global_flags_of, command_of, ClassifiedCommand, Scan, start, scan_args, classify_kubectl,
}
use mcp_gw.Cli.Kubectl.Flags.{IsSafe, classify_kubectl-IsSafe}
use mcp_gw.Cli.Kubectl.Secrets.{NamesSecret, classify_kubectl-secret}
use mcp_gw.Cli.Kubectl.Inherited.{classify_kubectl-inherited}

abbrev get_flags : CliPackFlags
get_flags = record { value = "-n" ∷ []; boolean = "-A" ∷ []; output = "-o" ∷ [] }

abbrev pub pack : CliPack
pack = record {
  cli = "kubectl";
  binary = record { path = "/kubectl"; version = "1"; amd64 = "a"; arm64 = "b" };
  credential = record { provider = "cluster"; source_env = "S"; target_env = "T" };
  runner = record {
    env = [];
    cwd = "/";
    default_timeout_seconds = 10;
    max_timeout_seconds = 60;
    max_output_bytes = 1000;
  };
  request_limits = record { max_body_bytes = 1000; max_args = 10; max_arg_bytes = 100 };
  job_limits = record { max_jobs = 4; max_running_jobs_per_owner = 2; retention_seconds = 60 };
  operations =
      ("get", record { rbac_verbs = "get" ∷ []; rbac_resources = "pods" ∷ []; flags = get_flags })
      ∷ [];
  output_formats = "json" ∷ [];
  secret_overlay = record { operations = "get" ∷ []; resources = "secrets" ∷ [] };
  commands = ("get", read) ∷ ("get:secret", secret_read) ∷ [];
}

abbrev args : List String
args = "-n" ∷ "prod" ∷ "get" ∷ "pods,Secrets.v1/db" ∷ "-o=json" ∷ []

abbrev get_secret : ClassifiedCommand
get_secret = record { command = "get:secret"; action_class = some secret_read }

abbrev scanned : Scan
scanned = record { operation = some "get"; config = some (some get_flags); positionals = [] }

args-classified : classify_kubectl pack args ≡ ok get_secret
unfolding classify_kubectl before global_flags_of has_char property lookup after command_of split_on
    to_lower
args-classified = refl

ahead-scanned : scan_args pack false start ("-n" ∷ "prod" ∷ "get" ∷ []) ≡ ok scanned
unfolding scan_args before global_flags_of has_char property lookup after
ahead-scanned = refl

names-secret : NamesSecret pack "pods,Secrets.v1/db"
unfolding split_on to_lower before
names-secret = inr (inl (inl refl))

classify_kubectl-IsSafe_example : All IsSafe args
classify_kubectl-IsSafe_example = classify_kubectl-IsSafe pack args get_secret args-classified

secret-decision : lookup "get:secret" pack.commands ≡ some secret_read
unfolding lookup
secret-decision = refl

classify_kubectl-secret_example :
    (get_secret.command ≡ "get:secret") × (get_secret.action_class ≡ some secret_read)
classify_kubectl-secret_example =
    classify_kubectl-secret pack ("-n" ∷ "prod" ∷ "get" ∷ []) ("-o=json" ∷ []) "pods,Secrets.v1/db"
      "get" scanned get_secret args-classified ahead-scanned refl (λ e. cc) refl names-secret
      (inl refl) secret-decision

no-operation : lookup "constructor" pack.operations ≡ none
unfolding lookup
no-operation = refl

no-command : lookup "constructor" pack.commands ≡ none
unfolding lookup
no-command = refl

classify_kubectl-inherited_example :
    classify_kubectl pack ("constructor" ∷ "x" ∷ [])
    ≡ ok (record { command = "constructor"; action_class = none })
classify_kubectl-inherited_example =
    classify_kubectl-inherited pack "constructor" "x" refl refl refl refl refl no-operation
      no-command refl

abbrev digest_text : String
digest_text = "aaaaaaaaaaaaaaaaaaaaaaaaaaaaaaaaaaaaaaaaaaaaaaaaaaaaaaaaaaaaaaaa"

abbrev limits : Json
limits =
    (obj (
      prop "requestBodyBytes" (nat 1000) (
        prop "args" (nat 10) (
          prop "argBytes" (nat 100) (
            prop "timeoutSeconds" (nat 10) (
              prop "maxTimeoutSeconds" (nat 60) (
                prop "outputBytes" (nat 1000) (
                  prop "maxJobs" (nat 4) (
                    prop "maxRunningJobsPerOwner" (nat 2)
                      (prop "jobRetentionSeconds" (nat 60) end))))))))))

abbrev document : Json
document =
    (obj (
      prop "schemaVersion" (str "mcp-gateway.cli-pack/v1") (
        prop "cli" (str "kubectl") (
          prop "parser" (str "kubectl") (
            prop "binary"
              (obj (
                prop "path" (str "/kubectl") (
                  prop "version" (str "1") (
                    prop "sha256"
                      (obj (prop "amd64" (str digest_text) (prop "arm64" (str digest_text) end)))
                      end))))
              (prop "credential"
                (obj (
                  prop "provider" (str "cluster")
                    (prop "sourceEnv" (str "S") (prop "targetEnv" (str "T") end))))
                (prop "runner"
                  (obj (
                    prop "cwd" (str "/")
                      (prop "env" (obj (prop "HOME" (str "/tmp") end)) (prop "limits" limits end))))
                  (prop "operations"
                    (obj (
                      prop "get"
                        (obj (
                          prop "rbacVerbs" (arr (cons (str "get") nil)) (
                            prop "rbacResources" (arr (cons (str "pods") nil)) (
                              prop "flags"
                                (obj (
                                  prop "value" (arr (cons (str "-n") nil)) (
                                    prop "boolean" (arr (cons (str "-A") nil))
                                      (prop "output" (arr (cons (str "-o") nil)) end))))
                                end))))
                        end))
                    (prop "outputFormats" (arr (cons (str "json") nil)) (
                      prop "secretOverlay"
                        (obj (
                          prop "operations" (arr (cons (str "get") nil)) (
                            prop "resources" (arr (cons (str "secrets") nil))
                              (prop "class" (str "secret-read") end))))
                        end))))))))))

abbrev read_pack : CliPack
read_pack = record pack {
  binary = record { path = "/kubectl"; version = "1"; amd64 = digest_text; arm64 = digest_text };
  runner = record {
    env = ("HOME", "/tmp") ∷ [];
    cwd = "/";
    default_timeout_seconds = 10;
    max_timeout_seconds = 60;
    max_output_bytes = 1000;
  };
}

document-read : parse_cli_pack (λ s. ok document) "" ≡ ok read_pack
unfolding parse_cli_pack parse_root is_blank codes is_lower is_upper parse_runner lookup
    parse_catalog has_char assemble insert
document-read = refl

parse_cli_pack-IsReadOnly_example : IsReadOnly read_pack
parse_cli_pack-IsReadOnly_example =
    parse_cli_pack-IsReadOnly (λ s. ok document) "" read_pack document-read
