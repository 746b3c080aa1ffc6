-- ===== src/Audit/Laws.antt =====
-- Redaction hides everything below a sensitive key, and nothing that it has hidden comes back.
use mcp_gw.Common.{◌≡◌, refl, ap, true, String, inl, inr, Bool-cases}
use mcp_gw.Json.{Json, Elems, Props, str, arr, obj, nil, cons, end, prop}
use mcp_gw.Audit.{sensitive_key, redact_value, redact_elems, redact_props}

-- The two values differ at most in what stands below a sensitive key.
mutual
  pub data Agree : Json → Json → Type 0 where
    same : (v : Json) → Agree v v
    in_arr : {vs ws : Elems} → AgreeElems vs ws → Agree (arr vs) (arr ws)
    in_obj : {ps qs : Props} → AgreeProps ps qs → Agree (obj ps) (obj qs)

  pub data AgreeElems : Elems → Elems → Type 0 where
    none_left : AgreeElems nil nil
    both :
        {v w : Json} {vs ws : Elems}
        → Agree v w
        → AgreeElems vs ws
        → AgreeElems (cons v vs) (cons w ws)

  pub data AgreeProps : Props → Props → Type 0 where
    ended : AgreeProps end end
    hidden :
        {k : String} {v w : Json} {ps qs : Props}
        → sensitive_key k ≡ true
        → AgreeProps ps qs
        → AgreeProps (prop k v ps) (prop k w qs)
    shown :
        {k : String} {v w : Json} {ps qs : Props}
        → Agree v w
        → AgreeProps ps qs
        → AgreeProps (prop k v ps) (prop k w qs)

mutual
  unfolding redact_value

  redact_value-Agree : {v w : Json} → Agree v w → redact_value v ≡ redact_value w
  redact_value-Agree (same v) = refl
  redact_value-Agree (in_arr h) = ap arr (redact_elems-Agree h)
  redact_value-Agree (in_obj h) = ap obj (redact_props-Agree h)

  redact_elems-Agree : {vs ws : Elems} → AgreeElems vs ws → redact_elems vs ≡ redact_elems ws
  redact_elems-Agree none_left = refl
  redact_elems-Agree (both h t) = cc (redact_value-Agree h, redact_elems-Agree t)

  pub redact_props-Agree : {ps qs : Props} → AgreeProps ps qs → redact_props ps ≡ redact_props qs
  redact_props-Agree ended = refl
  redact_props-Agree (hidden s t) = rw s (cc (redact_props-Agree t))
  redact_props-Agree (shown h t) = cc (redact_value-Agree h, redact_props-Agree t)

-- Two values that differ only in what stands below sensitive keys, at any depth, are redacted to
-- one value: the redacted value reveals nothing of what stands there.
pub redact_value_hides : (v w : Json) → Agree v w → redact_value v ≡ redact_value w
redact_value_hides v w h = redact_value-Agree h

redact_prop_twice :
    (k : String) (v : Json) (ps : Props)
    → redact_value (redact_value v) ≡ redact_value v
    → redact_props (redact_props ps) ≡ redact_props ps
    → redact_props (redact_props (prop k v ps)) ≡ redact_props (prop k v ps)
unfolding redact_value
redact_prop_twice k v ps h t = elim (Bool-cases (sensitive_key k)) [
  | inl s ↦ rw (s) (ap (prop k (str "[redacted]")) t)
  | inr s ↦ rw (s) (cc)
]

mutual
  unfolding redact_value

  redact_value_twice : (v : Json) → redact_value (redact_value v) ≡ redact_value v
  redact_value_twice (arr vs) = ap arr (redact_elems_twice vs)
  redact_value_twice (obj ps) = ap obj (redact_props_twice ps)
  redact_value_twice _ = refl

  redact_elems_twice : (vs : Elems) → redact_elems (redact_elems vs) ≡ redact_elems vs
  redact_elems_twice nil = refl
  redact_elems_twice (cons v vs) = cc (redact_value_twice v, redact_elems_twice vs)

  redact_props_twice : (ps : Props) → redact_props (redact_props ps) ≡ redact_props ps
  redact_props_twice end = refl
  redact_props_twice (prop k v ps) =
      redact_prop_twice k v ps (redact_value_twice v) (redact_props_twice ps)

-- Redacting a value a second time changes nothing.
redact_value_idem : (v : Json) → redact_value (redact_value v) ≡ redact_value v
redact_value_idem v = redact_value_twice v
