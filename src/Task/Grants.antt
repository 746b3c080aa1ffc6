-- ===== src/Task/Grants.antt =====
-- packages/wrapper-kit/src/task-tool-authorization.ts: a grant and a list of grants as values of a
-- token, and their readers.
use mcp_gw.Common.{
  String, true, false, none, some, List, [], ◌∷◌, ◌≡◌, refl, sym, ap, ◌∙◌, ◌⊎◌, inl, inr, arith,
  eq_iff, eq_refl, Bool-cases, Option-cases, bind-eq-some, if-eq-some, eq_of_some-eq,
}
use mathlib.Core.Path.{subst}
use mcp_gw.Common.Text.{is_blank}
use mcp_gw.Common.Lists.{any, All, Any}
use mcp_gw.Json.{Json, undefined, null, bool, nat, number, str, arr, obj, Props, get, keys, record?}
use mcp_gw.Task.{
  TaskToolGrant, same_key, among, non_empty_string, is_unknown_key, parse_grant, parse_grants,
  granted,
}

-- The text of a value is this one, and it is not blank.
abbrev pub IsText : String → Json → Type 0
IsText s value = (value ≡ str s) × (is_blank s ≡ false)

-- The value is an object of just the three parts of the grant.
pub data Names : TaskToolGrant → Json → Type 0 where
  names :
      {g : TaskToolGrant} {tool : Props}
      → any is_unknown_key (keys tool) ≡ false
      → IsText g.provider (get tool "provider")
      → IsText g.resource (get tool "resource")
      → IsText g.action (get tool "action")
      → Names g (obj tool)

non_empty_string-IsText : (v : Json) (s : String) → non_empty_string v ≡ some s → IsText s v
unfolding non_empty_string
non_empty_string-IsText (str t) s h =
    let (filled, last) = if-eq-some (is_blank t) _ h in
    let same : t ≡ s = eq_of_some-eq last in (ap str same, ap is_blank (sym same) ∙ filled)
non_empty_string-IsText undefined s h = cc
non_empty_string-IsText null s h = cc
non_empty_string-IsText (bool b) s h = cc
non_empty_string-IsText (nat n) s h = cc
non_empty_string-IsText (number n) s h = cc
non_empty_string-IsText (arr vs) s h = cc
non_empty_string-IsText (obj ps) s h = cc

IsText-non_empty_string : (v : Json) (s : String) → IsText s v → non_empty_string v ≡ some s
unfolding non_empty_string
IsText-non_empty_string v s (e, filled) = rw (e, filled) refl

record-obj : (v : Json) (ps : Props) → record? v ≡ some ps → v ≡ obj ps
record-obj (obj qs) ps h = ap obj (eq_of_some-eq h)
record-obj undefined ps h = cc
record-obj null ps h = cc
record-obj (bool b) ps h = cc
record-obj (nat n) ps h = cc
record-obj (number n) ps h = cc
record-obj (str t) ps h = cc
record-obj (arr vs) ps h = cc

parse_grant-Names : (v : Json) (g : TaskToolGrant) → parse_grant v ≡ some g → Names g v
unfolding parse_grant
parse_grant-Names v g h =
    let (tool, is_object, h1) = bind-eq-some (record? v) _ h in
    let (known, h2) = if-eq-some (any is_unknown_key (keys tool)) _ h1 in
    let (provider, p, h3) = bind-eq-some (non_empty_string (get tool "provider")) _ h2 in
    let (resource, r, h4) = bind-eq-some (non_empty_string (get tool "resource")) _ h3 in
    let (action, a, last) = bind-eq-some (non_empty_string (get tool "action")) _ h4 in
    subst (λ w. Names g w) (sym (record-obj v tool is_object))
      (subst (λ k. Names k (obj tool)) (eq_of_some-eq last)
        (names known (non_empty_string-IsText _ provider p) (non_empty_string-IsText _ resource r)
          (non_empty_string-IsText _ action a)))

Names-parse_grant : (v : Json) (g : TaskToolGrant) → Names g v → parse_grant v ≡ some g
unfolding parse_grant
Names-parse_grant v g (names {tool = tool} known p r a) =
    rw
      (
        known,
        IsText-non_empty_string _ _ p,
        IsText-non_empty_string _ _ r,
        IsText-non_empty_string _ _ a,
      )
      refl

same_key-eq : (g h : TaskToolGrant) → same_key g h ≡ true → g ≡ h
unfolding same_key
same_key-eq g h e =
    ground
      (arith, eq_iff g.provider h.provider, eq_iff g.resource h.resource, eq_iff g.action h.action)

same_key_refl : (g : TaskToolGrant) → same_key g g ≡ true
unfolding same_key
same_key_refl g = rw (eq_refl g.provider, eq_refl g.resource, eq_refl g.action) refl

-- Every tool is a grant.
abbrev pub IsList : List Json → Type 0
IsList tools = All (λ v. (g : TaskToolGrant) × Names g v) tools

-- The tools are all grants, and this grant is among them.
abbrev pub IsListed : TaskToolGrant → List Json → Type 0
IsListed g tools = IsList tools × Any (Names g) tools

among-cons :
    (h g : TaskToolGrant) (grants : List TaskToolGrant)
    → among (h ∷ grants) g ≡ true
    → (h ≡ g) ⊎ (among grants g ≡ true)
among-cons h g grants e = elim (Bool-cases (same_key h g)) [
  | inl same ↦ inl (same_key-eq h g same)
  | inr other ↦ inr (ground arith)
]

parse_grants-IsListed :
    (tools : List Json) (grants : List TaskToolGrant)
    → parse_grants tools ≡ some grants
    → IsList tools × ((g : TaskToolGrant) → among grants g ≡ true → Any (Names g) tools)
unfolding parse_grants
parse_grants-IsListed [] grants h = (
  tt,
  λ g e.
      let k : among [] g ≡ true = subst (λ gs. among gs g ≡ true) (sym (eq_of_some-eq h)) e in cc k,
)
parse_grants-IsListed (v ∷ tools) grants h =
    let (grant, is_grant, h1) = bind-eq-some (parse_grant v) _ h in
    let (rest, parsed, last) = bind-eq-some (parse_grants tools) _ h1 in
    let (all, found) = parse_grants-IsListed tools rest parsed in
    let named = parse_grant-Names v grant is_grant in
    (
      ((grant, named), all),
      λ g e.
          let k : among (grant ∷ rest) g ≡ true =
            subst (λ gs. among gs g ≡ true) (sym (eq_of_some-eq last)) e in
          elim (among-cons grant g rest k) [
            | inl same ↦ inl (subst (λ k. Names k v) same named)
            | inr later ↦ inr (found g later)
          ],
    )

among-later :
    (h g : TaskToolGrant) (grants : List TaskToolGrant)
    → among grants g ≡ true
    → among (h ∷ grants) g ≡ true
among-later h g grants e = ground arith

among-first : (g : TaskToolGrant) (grants : List TaskToolGrant) → among (g ∷ grants) g ≡ true
among-first g grants = rw (same_key_refl g) refl

IsList-parse_grants :
    (tools : List Json)
    → IsList tools
    → (grants : List TaskToolGrant) × (parse_grants tools ≡ some grants)
      × ((g : TaskToolGrant) → Any (Names g) tools → among grants g ≡ true)
unfolding parse_grants
IsList-parse_grants [] all = ([], refl, λ g e. elim e [ ])
IsList-parse_grants (v ∷ tools) ((grant, named), all) =
    let (rest, parsed, found) = IsList-parse_grants tools all in
    let e = Names-parse_grant v grant named in
    (
      grant ∷ rest,
      rw (e, parsed) refl,
      λ g there. elim there [
        | inl here ↦
            let same : grant ≡ g = eq_of_some-eq (sym e ∙ Names-parse_grant v g here) in
            subst (λ k. among (k ∷ rest) g ≡ true) (sym same) (among-first g rest)
        | inr later ↦ among-later grant g rest (found g later)
      ],
    )

pub among-IsListed :
    (tools : List Json) (g : TaskToolGrant)
    → among (granted (parse_grants tools)) g ≡ true
    → IsListed g tools
among-IsListed tools g h = elim (Option-cases (parse_grants tools)) [
  | inl bad ↦ let k : among (granted none) g ≡ true = rw bad at h in cc k
  | inr (grants, e) ↦
      let k : among grants g ≡ true = rw e at h in
      let (all, found) = parse_grants-IsListed tools grants e in (all, found g k)
]

pub IsListed-among :
    (tools : List Json) (g : TaskToolGrant)
    → IsListed g tools
    → among (granted (parse_grants tools)) g ≡ true
IsListed-among tools g (all, there) =
    let (grants, e, found) = IsList-parse_grants tools all in rw e (found g there)
