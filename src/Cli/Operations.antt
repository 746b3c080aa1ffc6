-- ===== src/Cli/Operations.antt =====
-- servers/governed-cli/src/pack.ts: parseOperations, and the catalog that parseCliPack fills from it.
use mcp_gw.Common.{String, Bool, true, false, not, ◌||◌, List, [], ◌∷◌, ◌++◌, if◌then◌else◌}
use mcp_gw.Common.Text.{◌<>◌}
use mcp_gw.Common.Lists.{includes}
use mcp_gw.Common.Dict.{Dict, insert}
use mcp_gw.Common.Errors.{Result, ok, ◌>>=◌, ◌>>◌, require}
use mcp_gw.Json.{Json, str, Props, end, prop, get}
use mcp_gw.Policy.{ActionClass, read, secret_read}
use mcp_gw.Cli.Pack.{CliPackOperation, Property, missing, property}
use mcp_gw.Cli.Reader.{
  only, expect_mapping, text, name, env_name, string_list, flag_list, class_for_rbac_verbs,
}

-- `new Set(flags).size !== flags.length`
abbrev pub repeats : List String → Bool
repeats [] = false
repeats (flag ∷ flags) = includes flags flag || repeats flags

unfoldable pub parse_operation : String → Json → Result CliPackOperation
unfolding only name flag_list string_list class_for_rbac_verbs
parse_operation operation raw = do
  let path = "pack.operations." <> operation
  named ← name (str operation) "pack operation"
  config ← expect_mapping raw path
  only config ("rbacVerbs" ∷ "rbacResources" ∷ "flags" ∷ [])
  flags ← expect_mapping (get config "flags") (path <> ".flags")
  only flags ("value" ∷ "boolean" ∷ "output" ∷ [])
  value ← flag_list (get flags "value") operation
  boolean ← flag_list (get flags "boolean") operation
  output ← flag_list (get flags "output") operation
  require (not (repeats (value ++ boolean ++ output)))
      ("pack operation " <> operation <> " repeats a flag")
  rbac_verbs ← string_list (get config "rbacVerbs") (operation <> ".rbacVerbs")
  class_for_rbac_verbs rbac_verbs
  rbac_resources ← string_list (get config "rbacResources") (operation <> ".rbacResources")
  ok (record {
    rbac_verbs = rbac_verbs;
    rbac_resources = rbac_resources;
    flags = record { value = value; boolean = boolean; output = output };
  })

unfoldable pub parse_entries : Props → Result (Dict CliPackOperation)
unfolding parse_operation
parse_entries end = ok []
parse_entries (prop operation raw rest) = do
  config ← parse_operation operation raw
  operations ← parse_entries rest
  ok ((operation, config) ∷ operations)

abbrev pub has_no_keys : Props → Bool
has_no_keys end = true
has_no_keys (prop key value rest) = false

unfoldable pub parse_operations : Json → Result (Dict CliPackOperation)
unfolding parse_entries
parse_operations value = do
  source ← expect_mapping value "pack.operations"
  require (not (has_no_keys source)) "pack.operations must not be empty"
  parse_entries source

unfoldable pub string_record : Props → String → Result (Dict String)
unfolding env_name text
string_record end field = ok []
string_record (prop key item rest) field = do
  named ← env_name (str key) (field <> " key")
  value ← text item (field <> "." <> key)
  values ← string_record rest field
  ok ((key, value) ∷ values)

abbrev pub is_missing : Property CliPackOperation → Bool
is_missing missing = true
is_missing _ = false

unfoldable pub expect_operations : Dict CliPackOperation → List String → Result (Unit {0})
unfolding property
expect_operations operations [] = ok tt
expect_operations operations (operation ∷ rest) = do
  require (not (is_missing (property operations operation)))
      ("secret overlay references unknown " <> operation)
  expect_operations operations rest

-- The loop that fills the catalog.
unfoldable pub commands_of :
    List String → Dict CliPackOperation → Dict ActionClass → Result (Dict ActionClass)
unfolding class_for_rbac_verbs
commands_of overlaid [] commands = ok commands
commands_of overlaid ((operation, config) ∷ rest) commands =
    let readable = insert operation read commands in
    class_for_rbac_verbs config.rbac_verbs
    >> commands_of overlaid rest (
        if includes overlaid operation
        then insert (operation <> ":secret") secret_read readable
        else readable)
