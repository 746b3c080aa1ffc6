-- ===== src/Cli/Kubectl/Inherited.antt =====
-- The names that every object inherits pass for subcommands.
use mcp_gw.Common.{
  String, true, false, Option, none, some, [], ◌∷◌, truthy, ◌==◌, ◌≡◌, refl, inl, inr, arith,
  eq_iff, Bool-cases,
}
use mathlib.Core.Path.{subst}
use mcp_gw.Common.Text.{starts_with_char}
use mcp_gw.Common.Lists.{includes}
use mcp_gw.Common.Dict.{lookup}
use mcp_gw.Common.Errors.{ok}
use mcp_gw.Cli.Pack.{CliPack, inherited, property, property_of, inherited_names}
use mcp_gw.Cli.Kubectl.{
  start, flag_of, chosen, step_word, step_of, step, scan_args, command_of, decided, finish,
  finish_of, finish_with, classify_kubectl,
}

missing-inherited {ℓ} :
    {V : Type ℓ} (o : Option V) (key : String)
    → o ≡ none
    → includes inherited_names key ≡ true
    → property_of o key ≡ inherited
unfolding property_of
missing-inherited o key e h = rw (e, h) refl

no-dash : (name : String) → starts_with_char b'-' name ≡ false → (name == "--") ≡ false
no-dash name plain = elim (Bool-cases (name == "--")) [
  | inr other ↦ other
  | inl same ↦
      let k : starts_with_char b'-' "--" ≡ false =
        subst (λ s. starts_with_char b'-' s ≡ false) ((eq_iff name "--").0 same) plain in
      cc k
]

module _ (pack : CliPack) (name resource : String) where
  step-operation :
      (next : Option String)
      → starts_with_char b'-' name ≡ false
      → lookup name pack.operations ≡ none
      → includes inherited_names name ≡ true
      → step pack name next start
        ≡ ok (false, record { operation = some name; config = some none; positionals = [] })
  unfolding step flag_of step_of step_word chosen property
  step-operation next plain absent known =
      rw
        (
          no-dash name plain,
          plain,
          missing-inherited (lookup name pack.operations) name absent known,
        )
        refl

  step-resource :
      truthy name ≡ true
      → starts_with_char b'-' resource ≡ false
      → step pack resource none
          (record { operation = some name; config = some none; positionals = [] })
        ≡ ok (
          false,
          record { operation = some name; config = some none; positionals = resource ∷ [] },
        )
  unfolding step flag_of step_of step_word
  step-resource named plain = rw (no-dash resource plain, plain, named) refl

  finish-inherited :
      truthy name ≡ true
      → truthy resource ≡ true
      → includes pack.secret_overlay.operations name ≡ false
      → lookup name pack.commands ≡ none
      → includes inherited_names name ≡ true
      → finish pack
          (record { operation = some name; config = some none; positionals = resource ∷ [] })
        ≡ ok (record { command = name; action_class = none })
  unfolding finish finish_of finish_with command_of decided property
  finish-inherited named filled open_ absent known =
      rw (named, filled, open_, missing-inherited (lookup name pack.commands) name absent known)
        (ground arith)

  -- When the pack knows a name neither as an operation nor as a command, and its secret overlay does
  -- not name it either, but every object inherits it, then the command line of that name and one
  -- resource is approved, with no class. (Neither text is empty or starts with a dash.)
  pub classify_kubectl-inherited :
      starts_with_char b'-' name ≡ false
      → truthy name ≡ true
      → starts_with_char b'-' resource ≡ false
      → truthy resource ≡ true
      → includes pack.secret_overlay.operations name ≡ false
      → lookup name pack.operations ≡ none
      → lookup name pack.commands ≡ none
      → includes inherited_names name ≡ true
      → classify_kubectl pack (name ∷ resource ∷ [])
        ≡ ok (record { command = name; action_class = none })
  unfolding classify_kubectl scan_args
  classify_kubectl-inherited plain named plain_resource filled open_ no_operation no_command known =
      rw
        (
          step-operation (some resource) plain no_operation known,
          step-resource named plain_resource,
        )
        (finish-inherited named filled open_ no_command known)
