-- ===== src/Common/Dict/Keyed.antt =====
-- Maps whose entries carry their key.
use mcp_gw.Common.{
  String, some, [], ◌∷◌, ◌==◌, ◌≡◌, sym, ap, ◌∙◌, inl, inr, eq_iff, Bool-cases, eq_of_some-eq,
}
use mathlib.Core.Bool.{cond}
use mcp_gw.Common.Dict.{Dict, lookup, insert, entries, lookup-insert}
use mcp_gw.Common.Lists.{In}

module _ {V : Type 0} where
  -- Every entry stands under the key that it carries.
  abbrev pub KeyedBy : (V → String) → Dict V → Type 0
  KeyedBy key_of m = (k : String) (v : V) → lookup k m ≡ some v → key_of v ≡ k

  pub KeyedBy-insert :
      (key_of : V → String) (k : String) (v : V) (m : Dict V)
      → key_of v ≡ k
      → KeyedBy key_of m
      → KeyedBy key_of (insert k v m)
  KeyedBy-insert key_of k v m carried keyed j w found =
      let h : cond (k == j) (some v) (lookup j m) ≡ some w = rw (lookup-insert k j v m) at found in
      elim (Bool-cases (k == j)) [
        | inl same ↦
            let e : some v ≡ some w = rw same at h in
            ap key_of (sym (eq_of_some-eq e)) ∙ (carried ∙ (eq_iff k j).0 same)
        | inr other ↦ let e : lookup j m ≡ some w = rw other at h in keyed j w e
      ]

  pub lookup-In : (k : String) (v : V) (m : Dict V) → lookup k m ≡ some v → In v (entries m)
  unfolding lookup
  lookup-In k v [] h = cc
  lookup-In k v ((j, w) ∷ m) h = elim (Bool-cases (j == k)) [
    | inl same ↦ let e : some w ≡ some v = rw same at h in inl (eq_of_some-eq e)
    | inr other ↦ let e : lookup k m ≡ some v = rw other at h in inr (lookup-In k v m e)
  ]
