-- ===== src/Cli/Pack.antt =====
-- servers/governed-cli/src/pack.ts and catalog.ts: what a pack says of the commands it approves. The
-- fields that are the same in every pack (its schema, its parser, the class of its secret overlay and
-- the catalog's copies of them) are left out, as is the path that its runner repeats. `operations` and `commands` are plain objects: reading one at a key also finds what every
-- object inherits, which is a value that is truthy and has none of the fields.
use mcp_gw.Common.{ℕ, String, Option, none, some, List, [], ◌∷◌, if◌then◌else◌}
use mcp_gw.Common.Lists.{includes}
use mcp_gw.Common.Dict.{Dict, lookup}
use mcp_gw.Policy.{ActionClass}

pub record CliPackFlags : Type 0 where
  pub value : List String
  pub boolean : List String
  pub output : List String

pub record CliPackOperation : Type 0 where
  pub rbac_verbs : List String
  pub rbac_resources : List String
  pub flags : CliPackFlags

pub record SecretOverlay : Type 0 where
  pub operations : List String
  pub resources : List String

pub record CliBinary : Type 0 where
  pub path : String
  pub version : String
  pub amd64 : String
  pub arm64 : String

pub record CliCredential : Type 0 where
  pub provider : String
  pub source_env : String
  pub target_env : String

pub record CliRunnerConfig : Type 0 where
  pub env : Dict String
  pub cwd : String
  pub default_timeout_seconds : ℕ
  pub max_timeout_seconds : ℕ
  pub max_output_bytes : ℕ

pub record RequestLimits : Type 0 where
  pub max_body_bytes : ℕ
  pub max_args : ℕ
  pub max_arg_bytes : ℕ

pub record JobLimits : Type 0 where
  pub max_jobs : ℕ
  pub max_running_jobs_per_owner : ℕ
  pub retention_seconds : ℕ

-- `commands` is that of the pack's catalog.
pub record CliPack : Type 0 where
  pub cli : String
  pub binary : CliBinary
  pub credential : CliCredential
  pub runner : CliRunnerConfig
  pub request_limits : RequestLimits
  pub job_limits : JobLimits
  pub operations : Dict CliPackOperation
  pub output_formats : List String
  pub secret_overlay : SecretOverlay
  pub commands : Dict ActionClass

-- The names of `Object.prototype`.
abbrev pub inherited_names : List String
inherited_names =
    "constructor" ∷ "__defineGetter__" ∷ "__defineSetter__" ∷ "hasOwnProperty" ∷ "__lookupGetter__"
    ∷ "__lookupSetter__" ∷ "isPrototypeOf" ∷ "propertyIsEnumerable" ∷ "toString" ∷ "valueOf"
    ∷ "__proto__" ∷ "toLocaleString" ∷ []

-- What `object[key]` finds.
pub data Property {ℓ} (V : Type ℓ) : Type ℓ where
  own : V → Property V
  inherited missing : Property V

unfoldable pub property_of {ℓ} : {V : Type ℓ} → Option V → String → Property V
property_of (some v) key = own v
property_of none key = if includes inherited_names key then inherited else missing

unfoldable pub property {ℓ} : {V : Type ℓ} → Dict V → String → Property V
unfolding property_of
property object key = property_of (lookup key object) key
