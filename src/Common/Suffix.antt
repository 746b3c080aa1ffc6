-- ===== src/Common/Suffix.antt =====
-- `ends_with` against its specification, over native texts.
use Prim.Native.Char.{Char}
use Prim.Native.String.{String, [], ◌∷◌}
use mathlib.Core.Path.{◌≡◌, sym, ◌∙◌, ap}
use mathlib.Core.Logic.{◌↔◌, inl, inr}
use mathlib.Core.Bool.{true}
use native.Mathlib.Omega.{arith}
use text.Mathlib.Text.{◌==◌}
use text.Mathlib.TextEquality.{eq_iff}
use text.Mathlib.TextPositions.{eq_refl}
use text.Mathlib.TextLemmas.{nil-append, cons-append}
use mcp_gw.Common.{Bool-cases}
use mcp_gw.Common.Text.{◌<>◌, ends_with}

-- The text `s` ends in `t`.
abbrev pub EndsIn : String → String → Type 0
EndsIn s t = (p : String) × (s ≡ p <> t)

EndsIn-cons : (c : Char) (s t : String) → EndsIn s t → EndsIn (c ∷ s) t
EndsIn-cons c s t (p, e) = (c ∷ p, ap (λ r. c ∷ r) e ∙ sym (cons-append c p t))

EndsIn-here : (s : String) → EndsIn s s
EndsIn-here s = ([], sym (nil-append s))

ends_with_sound : (s t : String) → ends_with s t ≡ true → EndsIn s t
unfolding ends_with
ends_with_sound [] t h = ([], (eq_iff [] t).0 h ∙ sym (nil-append t))
ends_with_sound (c ∷ s) t h = elim (Bool-cases ((c ∷ s) == t)) [
  | inl e ↦ ([], (eq_iff (c ∷ s) t).0 e ∙ sym (nil-append t))
  | inr e ↦ EndsIn-cons c s t (ends_with_sound s t (rw e at h))
]

ends_with_refl : (s : String) → ends_with s s ≡ true
unfolding ends_with
ends_with_refl [] = eq_refl []
ends_with_refl (c ∷ s) = rw (eq_refl (c ∷ s))

ends_with-append : (p t : String) → ends_with (p <> t) t ≡ true
unfolding ends_with
ends_with-append [] t = rw (nil-append t) (ends_with_refl t)
ends_with-append (c ∷ p) t = rw (cons-append c p t) (ground (arith, ends_with-append p t))

pub ends_with_iff : (s t : String) → (ends_with s t ≡ true) ↔ EndsIn s t
ends_with_iff s t = (ends_with_sound s t, λ e. rw e.1 (ends_with-append e.0 t))
