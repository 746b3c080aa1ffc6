-- ===== src/Oauth/States/Laws.antt =====
-- A state of an authorization is good for one callback, of one provider, in time.
use mcp_gw.Common.{
  ℕ, ◌<◌, String, true, false, Option, none, some, ◌≡◌, refl, sym, ◌∙◌, ap, ◌⊎◌, inl, inr, arith,
  eq_iff, Bool-cases, Option-cases, eq_of_some-eq,
}
use mcp_gw.Common.Dict.{lookup, insert, lookup-insert_self, lookup-map_values}
use mcp_gw.Oauth.Types.{OauthStateRecord}
use mcp_gw.Oauth.States.{
  States, other_provider, refused, consumed_from, consume, is_pending_for, invalidate,
  invalidate_principal,
}

-- The state's record was saved for this provider, or by a replica that did not yet name one.
abbrev pub IsFor : String → OauthStateRecord → Type 0
IsFor provider r = (r.provider ≡ none) ⊎ (r.provider ≡ some provider)

other_provider-false :
    (r : OauthStateRecord) (provider : String)
    → other_provider r.provider provider ≡ false
    → IsFor provider r
other_provider-false r provider h = elim (Option-cases r.provider) [
  | inl missing ↦ inl missing
  | inr (p, named) ↦ inr (ground (arith, eq_iff p provider))
]

consumed_from-some :
    (key provider : String) (now : ℕ) (states states' : States) (o : Option OauthStateRecord)
    (r : OauthStateRecord)
    → consumed_from key provider now states o ≡ (some r, states')
    → (stored : OauthStateRecord) × (o ≡ some stored)
      × (refused stored provider now ≡ false)
      × (r ≡ record stored { consumed_at = some now })
      × (states' ≡ insert key r states)
consumed_from-some key provider now states states' none r h = cc (ap (λ p. p.0) h)
consumed_from-some key provider now states states' (some s) r h =
    elim (Bool-cases (refused s provider now)) [
      | inl no_ ↦ let k : (none, states) ≡ (some r, states') = rw no_ at h in cc (ap (λ p. p.0) k)
      | inr free ↦
          let k : (
            some (record s { consumed_at = some now }),
            insert key (record s { consumed_at = some now }) states,
          )
              ≡ (some r, states') =
            rw free at h in
          let same = eq_of_some-eq (ap (λ p. p.0) k) in
          (s, refl, free, sym same, sym (ap (λ p. p.1) k) ∙ ap (λ c. insert key c states) same)
    ]

consumed_from-refused :
    (key provider : String) (now : ℕ) (states : States) (o : Option OauthStateRecord)
    (r : OauthStateRecord)
    → o ≡ some r
    → refused r provider now ≡ true
    → consumed_from key provider now states o ≡ (none, states)
consumed_from-refused key provider now states o r e h = rw (e, h)

consumed-refused :
    (r : OauthStateRecord) (provider : String) (now later : ℕ)
    → r.consumed_at ≡ some now
    → refused r provider later ≡ true
unfolding refused
consumed-refused r provider now later h = ground arith

invalidated-refused :
    (provider issuer subject : String) (now later : ℕ) (r : OauthStateRecord)
    → r.hop1_issuer ≡ issuer
    → r.hop1_subject ≡ subject
    → refused (invalidate provider issuer subject now r) provider later ≡ true
unfolding refused is_pending_for
invalidated-refused provider issuer subject now later r i s =
    ground (arith, eq_iff r.hop1_issuer issuer, eq_iff r.hop1_subject subject)

refused-false :
    (r : OauthStateRecord) (provider : String) (now : ℕ)
    → refused r provider now ≡ false
    → (r.consumed_at ≡ none) × IsFor provider r × (now < r.expires_at)
unfolding refused
refused-false r provider now h =
    (ground arith, other_provider-false r provider (ground arith), ground arith)

module _ (hash_state : String → String) where
  -- What a consumed state was: stored and unused, for this provider, and not expired. The record is
  -- returned and kept with the time of its use.
  pub record WasUsable (provider state : String) (now : ℕ) (states : States) (r : OauthStateRecord)
      (states' : States) : Type 0 where
    pub stored : OauthStateRecord
    pub found : lookup (hash_state state) states ≡ some stored
    pub unused : stored.consumed_at ≡ none
    pub provider_bound : IsFor provider stored
    pub in_time : now < stored.expires_at
    pub returned : r ≡ record stored { consumed_at = some now }
    pub kept : states' ≡ insert (hash_state state) r states

  -- A state that is consumed was usable: unused, not expired, and of this provider.
  pub consume-WasUsable :
      (provider state : String) (now : ℕ) (states states' : States) (r : OauthStateRecord)
      → consume hash_state provider state now states ≡ (some r, states')
      → WasUsable provider state now states r states'
  unfolding consume
  consume-WasUsable provider state now states states' r h =
      let (s, found, free, same, kept) =
        consumed_from-some (hash_state state) provider now states states'
          (lookup (hash_state state) states) r h in
      let (unused, bound, in_time) = refused-false s provider now free in
      record {
        stored = s;
        found = found;
        unused = unused;
        provider_bound = bound;
        in_time = in_time;
        returned = same;
        kept = kept;
      }

  -- A state that has been consumed is never consumed again, by any provider and at any time, and the
  -- second attempt changes nothing.
  pub consume_once :
      (provider provider' state : String) (now later : ℕ) (states states' : States)
      (r : OauthStateRecord)
      → consume hash_state provider state now states ≡ (some r, states')
      → consume hash_state provider' state later states' ≡ (none, states')
  unfolding consume
  consume_once provider provider' state now later states states' r h =
      let u = consume-WasUsable provider state now states states' r h in
      consumed_from-refused (hash_state state) provider' later states' _ r
        (rw u.kept (lookup-insert_self (hash_state state) r states))
        (consumed-refused r provider' now later
          (ap (λ (s : OauthStateRecord). s.consumed_at) u.returned))

  -- After the states of a principal have been invalidated for a provider, none that belongs to the
  -- principal can be consumed for that provider.
  pub consume-invalidate_principal :
      (provider issuer subject state : String) (now later : ℕ) (states : States)
      (r : OauthStateRecord)
      → lookup (hash_state state) states ≡ some r
      → r.hop1_issuer ≡ issuer
      → r.hop1_subject ≡ subject
      → (consume hash_state provider state later
          (invalidate_principal provider issuer subject now states)).0
        ≡ none
  unfolding consume invalidate_principal
  consume-invalidate_principal provider issuer subject state now later states r found i s =
      ap (λ p. p.0)
        (consumed_from-refused (hash_state state) provider later _ _
          (invalidate provider issuer subject now r)
          (rw
            (
              lookup-map_values (invalidate provider issuer subject now) (hash_state state) states,
              found,
            )
            refl)
          (invalidated-refused provider issuer subject now later r i s))
