-- ===== src/Oauth/Status/Laws.antt =====
-- A connection is reported as connected exactly when it can be used.
use mcp_gw.Common.{
  ℕ, String, Bool, true, false, not, ◌&&◌, some, is_some, List, [], ◌∷◌, ◌≡◌, refl, ◌⊎◌, ◌↔◌, arith,
}
use mcp_gw.Common.Lists.{All, is_empty}
use mcp_gw.Oauth.Types.{ConnectionPhase, ConnectionRecord}
use mcp_gw.Oauth.Guard.{is_authorizing}
use mcp_gw.Oauth.Scopes.{DownstreamConnectionAdapter, scopes_satisfied}
use mcp_gw.Oauth.Status.{
  has_expired, needs_reauthorization, reported, is_connected, missing_of, status_from_record,
}

-- The credential can be renewed into one that works.
abbrev pub IsRenewable : Bool → ℕ → ConnectionRecord → Type 0
IsRenewable automatic now c =
    (automatic ≡ true)
    × (c.renewal_credential_present ≡ true)
    × (has_expired now c.renewal_credential_expires_at ≡ false)

-- The connection is stored as connected, it has not been disabled here, every scope that is required
-- is granted, and its credential works or can be renewed.
pub record IsUsable (adapter : DownstreamConnectionAdapter) (required : List String) (now : ℕ)
    (c : ConnectionRecord) : Type 0 where
  pub is_phase : is_connected c.phase ≡ true
  pub enabled : is_some c.local_disabled_at ≡ false
  pub granted :
      All (λ scope. scopes_satisfied adapter c.granted_scopes (scope ∷ []) ≡ true) required
  pub present :
      (c.active_credential_present ≡ true)
      ⊎ IsRenewable adapter.capabilities.automatic_renewal now c
  pub current :
      (has_expired now c.active_credential_expires_at ≡ false)
      ⊎ IsRenewable adapter.capabilities.automatic_renewal now c

missing-empty :
    (adapter : DownstreamConnectionAdapter) (granted required : List String)
    → (is_empty (missing_of adapter granted required) ≡ true)
      ↔ All (λ scope. scopes_satisfied adapter granted (scope ∷ []) ≡ true) required
unfolding missing_of
missing-empty adapter granted [] = (λ _. tt, λ _. refl)
missing-empty adapter granted (scope ∷ required) =
    ground (arith, missing-empty adapter granted required)

connected-not_authorizing : (p : ConnectionPhase) → is_connected p ≡ true → is_authorizing p ≡ false
connected-not_authorizing p h = ground arith

reported-connected :
    (automatic : Bool) (now : ℕ) (missing : List String) (c : ConnectionRecord)
    → is_some c.local_disabled_at ≡ false
    → is_empty missing ≡ true
    → (is_connected (reported automatic now missing c).0 ≡ true)
      ↔ ((is_connected c.phase ≡ true) × (needs_reauthorization automatic now c ≡ false))
unfolding reported
reported-connected automatic now missing c enabled full =
    ground (arith, connected-not_authorizing c.phase)

needs-Usable :
    (automatic : Bool) (now : ℕ) (c : ConnectionRecord)
    → (needs_reauthorization automatic now c ≡ false) ↔ (
        ((c.active_credential_present ≡ true) ⊎ IsRenewable automatic now c)
        × ((has_expired now c.active_credential_expires_at ≡ false) ⊎ IsRenewable automatic now c))
unfolding needs_reauthorization
needs-Usable automatic now c = ground arith

and3-true : (a b c : Bool) → not a && b && c ≡ true → (a ≡ false) × (b ≡ true) × (c ≡ true)
and3-true a b c h = ground arith

true-and3 : (a b c : Bool) → a ≡ false → b ≡ true → c ≡ true → not a && b && c ≡ true
true-and3 a b c h k l = ground arith

-- A stored connection is reported as connected exactly when it is usable.
pub status_from_record_iff :
    (c : ConnectionRecord) (required : List String) (adapter : DownstreamConnectionAdapter)
    (now : ℕ)
    → ((status_from_record (some c) required adapter now).connected ≡ true)
      ↔ IsUsable adapter required now c
unfolding status_from_record
status_from_record_iff c required adapter now =
    let automatic = adapter.capabilities.automatic_renewal in
    let missing = missing_of adapter c.granted_scopes required in
    let phase = (reported automatic now missing c).0 in
    let full = missing-empty adapter c.granted_scopes required in
    (
      λ h.
          let (enabled, phase_connected, empty) =
            and3-true (is_some c.local_disabled_at) (is_connected phase) (is_empty missing) h in
          let (is_phase, works) =
            (reported-connected automatic now missing c enabled empty).0 phase_connected in
          let (present, current) = (needs-Usable automatic now c).0 works in
          record {
            is_phase = is_phase;
            enabled = enabled;
            granted = full.0 empty;
            present = present;
            current = current;
          },
      λ u.
          let empty = full.1 u.granted in
          let phase_connected =
            (reported-connected automatic now missing c u.enabled empty).1
              (u.is_phase, (needs-Usable automatic now c).1 (u.present, u.current)) in
          true-and3 (is_some c.local_disabled_at) (is_connected phase) (is_empty missing) u.enabled
            phase_connected empty,
    )
