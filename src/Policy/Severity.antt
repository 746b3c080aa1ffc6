-- ===== src/Policy/Severity.antt =====
-- CompositePolicy against its specification: the strictest of the decisions.
use Prim.Native.Nat.{max}
use mathlib.Core.List.{Perm, Permᴰ}
use mathlib.Core.Logic.{∥∥₁_elim}
use mathlib.Core.Path.{subst}
use native.Mathlib.Nat.{ℕ_set}
use mcp_gw.Common.{ℕ, ◌≡◌, refl, ◌≤◌, ap, sym, ◌∙◌, Option, none, some, List, [], ◌∷◌, arith}
use mcp_gw.Common.Lists.{All}
use mcp_gw.Common.Errors.{Result, ok, err, >>=-eq-ok, ok-injective}
use mcp_gw.Policy.{
  ToolPolicy, ToolPolicyInput, PolicyDecision, allow, deny, approval_required, decide_from,
  composite_policy, after_decision,
}

abbrev pub severity : PolicyDecision → ℕ
severity allow = 0
severity (approval_required reason rule_id) = 1
severity (deny reason rule_id) = 2

-- The strictest of the decisions, where every policy answers. A policy that fails counts as 0.
abbrev pub answer_severity : Result PolicyDecision → ℕ
answer_severity (ok d) = severity d
answer_severity (err e) = 0

abbrev pub strictest : List ToolPolicy → ToolPolicyInput → ℕ
strictest [] input = 0
strictest (p ∷ ps) input = max (answer_severity (p.decide input)) (strictest ps input)

-- Every policy of the list answers: none of them fails.
abbrev pub Answers : ToolPolicyInput → ToolPolicy → Type 0
Answers input p = (d : PolicyDecision) × (p.decide input ≡ ok d)

abbrev Pending : Option PolicyDecision → Type 0
Pending none = Unit
Pending (some d) = severity d ≡ 1

abbrev pending_severity : Option PolicyDecision → ℕ
pending_severity none = 0
pending_severity (some d) = severity d

severity-le : (d : PolicyDecision) → severity d ≤ 2
severity-le allow = omega arith
severity-le (approval_required reason rule_id) = omega arith
severity-le (deny reason rule_id) = omega arith

answer_severity-le : (r : Result PolicyDecision) → answer_severity r ≤ 2
answer_severity-le (ok d) = severity-le d
answer_severity-le (err e) = omega arith

strictest-le : (ps : List ToolPolicy) (input : ToolPolicyInput) → strictest ps input ≤ 2
strictest-le [] input = omega arith
strictest-le (p ∷ ps) input =
    omega (arith, strictest-le ps input, answer_severity-le (p.decide input))

decide_from-severity :
    (ps : List ToolPolicy) (input : ToolPolicyInput) (approval : Option PolicyDecision)
    → Pending approval
    → All (Answers input) ps
    → (d : PolicyDecision) × (decide_from ps input approval ≡ ok d)
      × (severity d ≡ max (pending_severity approval) (strictest ps input))
unfolding decide_from
decide_from-severity [] input none h a = (allow, refl, refl)
decide_from-severity [] input (some d) h a = (d, refl, omega arith)
decide_from-severity (p ∷ ps) input approval h ((allow, e), a) =
    let (d, r, s) = decide_from-severity ps input approval h a in (d, rw e r, rw e (omega arith))
decide_from-severity (p ∷ ps) input none h ((deny reason rule_id, e), a) =
    (deny reason rule_id, rw e refl, rw e (omega (arith, strictest-le ps input)))
decide_from-severity (p ∷ ps) input (some b) h ((deny reason rule_id, e), a) =
    (deny reason rule_id, rw e refl, rw e (omega (arith, strictest-le ps input, severity-le b)))
decide_from-severity (p ∷ ps) input none h ((approval_required reason rule_id, e), a) =
    let (d, r, s) =
      decide_from-severity ps input (some (approval_required reason rule_id)) refl a in
    (d, rw e r, rw e (omega arith))
decide_from-severity (p ∷ ps) input (some b) h ((approval_required reason rule_id, e), a) =
    let (d, r, s) =
      decide_from-severity ps input (some (approval_required reason rule_id)) refl a in
    (d, rw e r, rw e (omega arith))

-- Where every policy answers, the joined policy answers too, as strictly as the strictest of them:
-- it denies if one of them denies, otherwise it asks for approval if one of them does, and
-- otherwise it allows.
pub composite_policy-severity :
    (ps : List ToolPolicy) (input : ToolPolicyInput)
    → All (Answers input) ps
    → (d : PolicyDecision) × ((composite_policy ps).decide input ≡ ok d)
      × (severity d ≡ strictest ps input)
unfolding composite_policy
composite_policy-severity ps input a =
    let (d, e, s) = decide_from-severity ps input none tt a in (d, e, omega arith)

strictest-permᴰ :
    (input : ToolPolicyInput) {ps qs : List ToolPolicy}
    → Permᴰ ps qs
    → strictest ps input ≡ strictest qs input
strictest-permᴰ input Permᴰ.nil = refl
strictest-permᴰ input (Permᴰ.cons {a} e h) =
    cc (ap (λ p. answer_severity (p.decide input)) e, strictest-permᴰ input h)
strictest-permᴰ input (Permᴰ.swap e f) = omega (
  arith,
  ap (λ p. answer_severity (p.decide input)) e,
  ap (λ p. answer_severity (p.decide input)) f,
)
strictest-permᴰ input (Permᴰ.trans h k) = strictest-permᴰ input h ∙ strictest-permᴰ input k

All-permᴰ : (P : ToolPolicy → Type 0) {ps qs : List ToolPolicy} → Permᴰ ps qs → All P ps → All P qs
All-permᴰ P Permᴰ.nil a = tt
All-permᴰ P (Permᴰ.cons e h) (x, a) = (subst P e x, All-permᴰ P h a)
All-permᴰ P (Permᴰ.swap e f) (x, (y, a)) = (subst P f y, (subst P e x, a))
All-permᴰ P (Permᴰ.trans h k) a = All-permᴰ P k (All-permᴰ P h a)

-- The order of the policies does not change how strict the answer is.
composite_policy-perm :
    (ps qs : List ToolPolicy) (input : ToolPolicyInput) (d e : PolicyDecision)
    → Perm ps qs
    → All (Answers input) ps
    → (composite_policy ps).decide input ≡ ok d
    → (composite_policy qs).decide input ≡ ok e
    → severity d ≡ severity e
composite_policy-perm ps qs input d e h a dp eq =
    ∥∥₁_elim h (λ x y. ℕ_set _ _ x y)
      λ k.
        let (d', dp', sd) = composite_policy-severity ps input a in
        let (e', eq', se) = composite_policy-severity qs input (All-permᴰ (Answers input) k a) in
        let same_d : d ≡ d' = ok-injective (sym dp ∙ dp') in
        let same_e : e ≡ e' = ok-injective (sym eq ∙ eq') in
        omega (arith, ap severity same_d, ap severity same_e, strictest-permᴰ input k)

after_decision-allow :
    (ps : List ToolPolicy) (p : ToolPolicy) (input : ToolPolicyInput)
    (approval : Option PolicyDecision) (d : PolicyDecision)
    → ((b : Option PolicyDecision)
        → Pending b
        → decide_from ps input b ≡ ok allow
        → (b ≡ none) × All (λ q. q.decide input ≡ ok allow) ps)
    → Pending approval
    → p.decide input ≡ ok d
    → after_decision (decide_from ps input) approval d ≡ ok allow
    → (approval ≡ none) × All (λ q. q.decide input ≡ ok allow) (p ∷ ps)
unfolding decide_from
after_decision-allow ps p input approval allow ih h answered rest =
    let (here, later) = ih approval h rest in (here, (answered, later))
after_decision-allow ps p input approval (deny r i) ih h answered rest = cc
after_decision-allow ps p input approval (approval_required r i) ih h answered rest =
    let (here, later) = ih (some (approval_required r i)) refl rest in cc here

decide_from-allow :
    (ps : List ToolPolicy) (input : ToolPolicyInput) (approval : Option PolicyDecision)
    → Pending approval
    → decide_from ps input approval ≡ ok allow
    → (approval ≡ none) × All (λ p. p.decide input ≡ ok allow) ps
unfolding decide_from
decide_from-allow [] input none h e = (refl, tt)
decide_from-allow [] input (some d) h e = ground (arith)
decide_from-allow (p ∷ ps) input approval h e =
    let (d, answered, rest) = >>=-eq-ok (p.decide input) _ e in
    after_decision-allow ps p input approval d (decide_from-allow ps input) h answered rest

-- Fail closed: the joined policy allows a call only if every policy answers and allows it.
pub composite_policy-allow :
    (ps : List ToolPolicy) (input : ToolPolicyInput)
    → (composite_policy ps).decide input ≡ ok allow
    → All (λ p. p.decide input ≡ ok allow) ps
unfolding composite_policy
composite_policy-allow ps input e = (decide_from-allow ps input none tt e).1
