-- ===== src/Cli/Request/Laws.antt =====
-- What holds of a command line that is run.
use mcp_gw.Common.{
  ℕ, String, true, false, Option, none, some, List, ◌≡◌, refl, sym, ap, ◌∙◌, inl, inr, arith,
  Bool-cases, eq_iff,
}
use mathlib.Core.Path.{subst}
use mcp_gw.Common.Errors.{Result, ok, err}
use mcp_gw.Common.Lists.{All, includes}
use mcp_gw.Json.{Json, Props, get, keys, obj, array?}
use mcp_gw.Policy.{ActionClass, class_name}
use mcp_gw.Task.{
  TaskToolGrant, parse_task_tool_authorization, task_authority_claim, is_current_task_marker,
}
use mcp_gw.Task.Grants.{IsListed}
use mcp_gw.Task.Laws.{parse_task_tool_authorization_iff}
use mcp_gw.Cli.Pack.{RequestLimits, CliPack, Property, own, inherited, missing, property}
use mcp_gw.Cli.Kubectl.{ClassifiedCommand, classify_kubectl}
use mcp_gw.Cli.Kubectl.Flags.{IsSafe, classify_kubectl-IsSafe}
use mcp_gw.Cli.Request.{
  TaskIdentity, passed, CliTarget, CliRequest, PreparedRun, Authenticated,
  authenticate_task_request, parse_body, find_target, class_of, other_class, granted_run, approve,
  approve_for, prepare,
}
use mcp_gw.Cli.Request.Asked.{
  >>=-passed, passed-injective, refused-ne-passed, chosen, IsVerified,
  authenticate_task_request-IsVerified, IsNamed, find_target-IsNamed, Asks, Within,
  parse_body-Within,
}

-- The run was classified as what it is run as, the catalog says the same, and the token allows it.
pub record IsGranted (caller : Authenticated) (cli : String) (target : CliTarget)
    (args : List String) (run : PreparedRun) : Type 0 where
  pub identity_of : run.identity ≡ caller.identity
  pub target_of : run.target ≡ target
  pub args_of : run.args ≡ args
  pub command : String
  pub classified :
      run.target.classify run.args
      ≡ ok (record { command = command; action_class = some run.command_class })
  pub in_catalog :
      (class : ActionClass) × (property run.target.commands command ≡ own class)
      × (class_name class ≡ class_name run.command_class)
  pub grant_of :
      run.grant ≡ record { provider = "cli"; resource = cli; action = class_name run.command_class }
  pub restricted : (parse_task_tool_authorization run.identity.claims false).restricted ≡ true
  pub allowed : (parse_task_tool_authorization run.identity.claims false).allows run.grant ≡ true

abbrev pub Granted :
    Authenticated → String → CliTarget → List String → Option ActionClass → PreparedRun → Type 0
Granted caller cli target args none run = ⊥
Granted caller cli target args (some class) run =
    (caller.authorization.allows
        (record { provider = "cli"; resource = cli; action = class_name class })
      ≡ true)
    × (run ≡ record {
      identity = caller.identity;
      target = target;
      args = args;
      command_class = class;
      grant = record { provider = "cli"; resource = cli; action = class_name class };
    })

granted_run-Granted :
    (caller : Authenticated) (cli : String) (target : CliTarget) (args : List String)
    (class : Option ActionClass) (run : PreparedRun)
    → granted_run caller cli target args class ≡ passed run
    → Granted caller cli target args class run
granted_run-Granted caller cli target args none run h = refused-ne-passed h
granted_run-Granted caller cli target args (some class) run h =
    let grant : TaskToolGrant = record {
      provider = "cli";
      resource = cli;
      action = class_name class;
    } in
    elim (Bool-cases (caller.authorization.allows grant)) [
      | inl yes_ ↦ (yes_, sym (passed-injective (rw yes_ at h)))
      | inr no_ ↦ refused-ne-passed (rw no_ at h)
    ]

-- The catalog has the class that the classifier found.
class-agrees :
    (property_ : Property ActionClass) (class : ActionClass)
    → other_class (class_of property_) (some class) ≡ false
    → (c : ActionClass) × (property_ ≡ own c) × (class_name c ≡ class_name class)
class-agrees (own c) class h =
    (c, refl, (eq_iff (class_name c) (class_name class)).0 (ground arith))
class-agrees inherited class h = cc
class-agrees missing class h = cc

Granted-IsGranted :
    (caller : Authenticated) (cli command : String) (target : CliTarget) (args : List String)
    (class : Option ActionClass) (run : PreparedRun)
    → caller.authorization ≡ parse_task_tool_authorization caller.identity.claims false
    → caller.authorization.restricted ≡ true
    → target.classify args ≡ ok (record { command = command; action_class = class })
    → other_class (class_of (property target.commands command)) class ≡ false
    → Granted caller cli target args class run
    → IsGranted caller cli target args run
Granted-IsGranted caller cli command target args none run e r classified same granted =
    elim granted [ ]
Granted-IsGranted caller cli command target args (some class) run e r classified same
      (allowed, made) =
    subst (IsGranted caller cli target args) (sym made) (record {
      identity_of = refl;
      target_of = refl;
      args_of = refl;
      command = command;
      classified = classified;
      in_catalog = class-agrees (property target.commands command) class same;
      grant_of = refl;
      restricted = ap (λ a. a.restricted) (sym e) ∙ r;
      allowed =
          ap
            (λ a. a.allows (record { provider = "cli"; resource = cli; action = class_name class }))
            (sym e)
          ∙ allowed;
    })

approve-IsGranted :
    (caller : Authenticated) (cli : String) (target : CliTarget) (args : List String)
    (result : Result ClassifiedCommand) (run : PreparedRun)
    → caller.authorization ≡ parse_task_tool_authorization caller.identity.claims false
    → caller.authorization.restricted ≡ true
    → target.classify args ≡ result
    → approve caller cli target args result ≡ passed run
    → IsGranted caller cli target args run
unfolding approve
approve-IsGranted caller cli target args (err message) run e r classified h = refused-ne-passed h
approve-IsGranted caller cli target args (ok command) run e r classified h =
    elim (Bool-cases
      (other_class (class_of (property target.commands command.command)) command.action_class)) [
        | inl other ↦ refused-ne-passed (rw other at h)
        | inr same ↦
            Granted-IsGranted caller cli command.command target args command.action_class run e r
              classified same
              (granted_run-Granted caller cli target args command.action_class run (rw same at h))
      ]

approve_for-IsGranted :
    (caller : Authenticated) (cli : String) (target : Option CliTarget) (args : List String)
    (run : PreparedRun)
    → caller.authorization ≡ parse_task_tool_authorization caller.identity.claims false
    → approve_for caller cli args target ≡ passed run
    → (t : CliTarget) × (target ≡ some t) × IsGranted caller cli t args run
approve_for-IsGranted caller cli none args run e h = refused-ne-passed h
approve_for-IsGranted caller cli (some target) args run e h =
    let (r, approved) =
      chosen caller.authorization.restricted (approve caller cli target args (target.classify args))
        _ h in
    (
      target,
      refl,
      approve-IsGranted caller cli target args (target.classify args) run e r refl approved,
    )

-- What holds of a run that is prepared for a request.
pub record IsPrepared (authenticate : String → Option TaskIdentity) (byte_length : String → ℕ)
    (limits : RequestLimits) (targets : List CliTarget) (request : CliRequest) (run : PreparedRun)
    : Type 0 where
  pub verified : IsVerified authenticate request.token run.identity
  pub body : Json
  pub body_of : request.body ≡ passed body
  pub cli : String
  pub args : List String
  pub asks : Asks body cli args
  pub within : Within limits byte_length args
  pub named : IsNamed cli run.target targets
  pub caller : Authenticated
  pub granted : IsGranted caller cli run.target args run

-- What is run for a request is the arguments that its body asks for, within the limits, with the
-- command line tool that it names (of several of that name the last), for the identity that its token
-- was verified for. The classifier of that tool found the class that it is run as, the tool's catalog
-- has the same class for the command, and the token is one that names its tools and allows the grant
-- of that class on that tool.
pub prepare-IsGranted :
    (authenticate : String → Option TaskIdentity) (byte_length : String → ℕ)
    (limits : RequestLimits) (targets : List CliTarget) (request : CliRequest) (run : PreparedRun)
    → prepare authenticate byte_length limits targets request ≡ passed run
    → IsPrepared authenticate byte_length limits targets request run
unfolding prepare
prepare-IsGranted authenticate byte_length limits targets request run h =
    let (caller, known, k) =
      >>=-passed (authenticate_task_request authenticate request.token) _ h in
    let (body, read_, k') = >>=-passed request.body _ k in
    let ((cli, args), asked, k'') = >>=-passed (parse_body limits byte_length body) _ k' in
    let (verified, parsed) =
      authenticate_task_request-IsVerified authenticate request.token caller known in
    let (asks, within) = parse_body-Within limits byte_length body cli args asked in
    let (target, found, granted) =
      approve_for-IsGranted caller cli (find_target cli targets) args run parsed k'' in
    record {
      verified = subst (IsVerified authenticate request.token) (sym granted.identity_of) verified;
      body = body;
      body_of = read_;
      cli = cli;
      args = args;
      asks = asks;
      within = within;
      named =
          subst (λ t. IsNamed cli t targets) (sym granted.target_of)
            (find_target-IsNamed cli target targets found);
      caller = caller;
      granted = subst (λ t. IsGranted caller cli t args run) (sym granted.target_of) granted;
    }

-- End to end, for a target that kubectl's classifier judges and a current task token with a list of
-- tools: a command line that is run holds no forbidden flag; the classifier gives it the class that it
-- is run as; and the token's list, every tool of which is well formed, spells out the grant of that
-- class on that target.
pub prepare-IsListed :
    (authenticate : String → Option TaskIdentity) (byte_length : String → ℕ)
    (limits : RequestLimits) (targets : List CliTarget) (request : CliRequest) (run : PreparedRun)
    (pack : CliPack) (authority : Props) (tools : List Json)
    → prepare authenticate byte_length limits targets request ≡ passed run
    → run.target.classify ≡ classify_kubectl pack
    → includes (keys run.identity.claims) task_authority_claim ≡ true
    → get run.identity.claims task_authority_claim ≡ obj authority
    → is_current_task_marker (some authority) ≡ true
    → array? (get authority "tools") ≡ some tools
    → All IsSafe run.args
      × ((command : String) × (classify_kubectl pack run.args
            ≡ ok (record { command = command; action_class = some run.command_class })))
      × IsListed
          (record {
            provider = "cli";
            resource = run.target.cli;
            action = class_name run.command_class;
          })
          tools
prepare-IsListed authenticate byte_length limits targets request run pack authority tools h kubectl
      has is_authority marker listed =
    let prepared = prepare-IsGranted authenticate byte_length limits targets request run h in
    let granted = prepared.granted in
    let classified = ap (λ classify. classify run.args) (sym kubectl) ∙ granted.classified in
    let grant_on : String → TaskToolGrant =
      λ cli. record { provider = "cli"; resource = cli; action = class_name run.command_class } in
    let on_target = granted.grant_of ∙ ap grant_on (sym prepared.named.name) in
    (
      classify_kubectl-IsSafe pack run.args _ classified,
      (granted.command, classified),
      subst (λ grant. IsListed grant tools) on_target
          ((parse_task_tool_authorization_iff run.identity.claims authority tools false run.grant
              has is_authority marker listed).0
            granted.allowed),
    )
