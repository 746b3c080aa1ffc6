-- ===== src/Mail/Mailboxes/Split.antt =====
-- Splitting an address list loses nothing.
use Prim.Native.Char.{Char, code}
use Prim.Native.String.{String, [], ◌∷◌}
use mathlib.Core.List.{List}
use mathlib.Core.Bool.{Bool, true, false, ◌||◌}
use mathlib.Core.Option.{Option, none, some}
use Prim.Native.Nat.{ℕ}
use text.Mathlib.TextEquality.{Char-path}
use mathlib.Core.Path.{subst, ◌≡◌, refl, sym, ◌∙◌, ap}
use mathlib.Core.Logic.{◌⊎◌, inl, inr}
use native.Mathlib.Omega.{arith}
use text.Mathlib.TextLemmas.{nil-append, cons-append, append_assoc, append-nil}
use mcp_gw.Common.{bind-eq-some, if-eq-some, Bool-cases, eq_of_some-eq}
use mcp_gw.Common.Lists.{All, any, any-eq-false}
use mcp_gw.Common.Text.{◌<>◌, push, is_blank}
use mcp_gw.Mail.Mailboxes.{Action, go, cut, fail, act, prepend, scan, split_mailboxes}

-- The parts with commas between them again.
abbrev pub join : List String → String
join List.[] = ""
join (List.◌∷◌ p List.[]) = p
join (List.◌∷◌ p (List.◌∷◌ q ps)) = p <> ("," <> join (List.◌∷◌ q ps))

-- There is a part, and the parts make up the text.
abbrev Joined : List String → String → Type 0
Joined List.[] s = ⊥
Joined (List.◌∷◌ p ps) s = join (List.◌∷◌ p ps) ≡ s

Action-cases :
    (x : Action) → ((q : Bool) × (e : Bool) × (a : Bool) × (x ≡ go q e a)) ⊎ (x ≡ cut) ⊎ (x ≡ fail)
Action-cases (go q e a) = inl (q, e, a, refl)
Action-cases cut = inr (inl refl)
Action-cases fail = inr (inr refl)

act-cut : (quoted escaped angle : Bool) (n : ℕ) → act quoted escaped angle n ≡ cut → n ≡ b','
unfolding act
act-cut quoted true angle n e = cc
act-cut quoted false angle n e = ground arith

push-append : (part s : String) (c : Char) → push part c <> s ≡ part <> (c ∷ s)
push-append part s c =
    append_assoc part (c ∷ []) s
    ∙ ap (λ t. part <> t) (cons-append c [] s ∙ ap (λ t. c ∷ t) (nil-append s))

Joined-cons :
    (part s : String) (c : Char) (rest : Option (List String)) (parts : List String)
    → c ≡ ","
    → prepend part rest ≡ some parts
    → ((ps : List String) → rest ≡ some ps → Joined ps s)
    → Joined parts (part <> (c ∷ s))
Joined-cons part s c none parts e h j = cc
Joined-cons part s c (some List.[]) parts e h j = absurd (j List.[] refl)
Joined-cons part s c (some (List.◌∷◌ p ps)) parts e h j =
    subst (λ l. Joined l (part <> (c ∷ s))) (eq_of_some-eq h)
      (ap (λ t. part <> t)
        (cons-append "," [] (join (List.◌∷◌ p ps))
          ∙ ap (λ t. "," ∷ t) (nil-append _ ∙ j (List.◌∷◌ p ps) refl)
          ∙ ap (λ d. d ∷ s) (sym e)))

scan-Joined :
    (quoted escaped angle : Bool) (part s : String) (parts : List String)
    → scan quoted escaped angle part s ≡ some parts
    → Joined parts (part <> s)
unfolding scan
scan-Joined quoted escaped angle part [] parts e = elim (Bool-cases (quoted || escaped || angle)) [
  | inl open_ ↦ let h : none ≡ some parts = rw open_ at e in cc h
  | inr closed ↦
      let h : some (List.◌∷◌ part List.[]) ≡ some parts = rw closed at e in
      subst (λ ps. Joined ps (part <> [])) (eq_of_some-eq h) (sym (append-nil part))
]
scan-Joined quoted escaped angle part (c ∷ s) parts e =
    elim (Action-cases (act quoted escaped angle (code c))) [
      | inl (q, x, a, kept) ↦
          subst (Joined parts) (push-append part s c)
            (scan-Joined q x a (push part c) s parts (rw (kept, scan) at e))
      | inr (inl is_cut) ↦
          Joined-cons part s c (scan quoted escaped angle "" s) parts
            (Char-path c "," (act-cut quoted escaped angle (code c) is_cut))
            (rw (is_cut, scan) at e)
            (λ ps h. subst (Joined ps) (nil-append s) (scan-Joined quoted escaped angle "" s ps h))
      | inr (inr failed) ↦ let h : none ≡ some parts = rw (failed, scan) at e in cc h
    ]

join-eq : (parts : List String) (s : String) → Joined parts s → join parts ≡ s
join-eq List.[] s j = elim j [ ]
join-eq (List.◌∷◌ p ps) s j = j

-- No character of the address list is lost: the mailboxes with commas between them are the list, and
-- none of them is blank.
pub split_mailboxes-join :
    (value : String) (parts : List String)
    → split_mailboxes value ≡ some parts
    → (join parts ≡ value) × All (λ part. is_blank part ≡ false) parts
unfolding split_mailboxes
split_mailboxes-join value parts e =
    let (ps, scanned, rest) = bind-eq-some (scan false false false "" value) _ e in
    let (filled, same) = if-eq-some (any is_blank ps) (some ps) rest in
    let joined : join ps ≡ value =
      join-eq ps value (
        subst (Joined ps) (nil-append value) (scan-Joined false false false "" value ps scanned)) in
    rw (← eq_of_some-eq same) (joined, any-eq-false is_blank ps filled)
