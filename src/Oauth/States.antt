-- ===== src/Oauth/States.antt =====
-- shared/oauth/memory-store.ts: InMemoryOAuthStateStore, the states of running authorizations.
-- `hashState` is a parameter, a cryptographic hash; `now` is the clock at the call.
pub mod Laws
use mcp_gw.Common.{
  ℕ, String, Bool, true, false, not, ◌&&◌, ◌||◌, Option, none, some, is_some, leb, ◌==◌,
  if◌then◌else◌,
}
use mcp_gw.Common.Dict.{Dict, lookup, insert, map_values}
use mcp_gw.Oauth.Types.{OauthStateRecord}

abbrev pub States : Type 0
States = Dict OauthStateRecord

unfoldable pub save : OauthStateRecord → States → States
unfolding insert
save r states = insert r.state_hash r states

-- `provider !== undefined && provider !== wanted`
abbrev pub other_provider : Option String → String → Bool
other_provider none wanted = false
other_provider (some p) wanted = not (p == wanted)

unfoldable pub refused : OauthStateRecord → String → ℕ → Bool
refused r provider now =
    other_provider r.provider provider || is_some r.consumed_at || leb r.expires_at now

abbrev consumed_from :
    String → String → ℕ → States → Option OauthStateRecord → Option OauthStateRecord × States
consumed_from key provider now states none = (none, states)
consumed_from key provider now states (some r) =
    if refused r provider now
    then (none, states)
    else (let consumed = record r { consumed_at = some now } in
        (some consumed, insert key consumed states))

module _ (hash_state : String → String) where
  -- The record of the state if it may be used now, which it then never may again.
  unfoldable pub consume : String → String → ℕ → States → Option OauthStateRecord × States
  consume provider state now states =
      let key = hash_state state in consumed_from key provider now states (lookup key states)

-- `!consumedAt`, for this provider or for none, and of this principal
unfoldable pub is_pending_for : String → String → String → OauthStateRecord → Bool
is_pending_for provider issuer subject r =
    not (is_some r.consumed_at)
    && not (other_provider r.provider provider)
    && r.hop1_issuer == issuer
    && r.hop1_subject == subject

abbrev invalidate : String → String → String → ℕ → OauthStateRecord → OauthStateRecord
invalidate provider issuer subject now r =
    if is_pending_for provider issuer subject r then record r { consumed_at = some now } else r

unfoldable pub invalidate_principal : String → String → String → ℕ → States → States
invalidate_principal provider issuer subject now =
    map_values (invalidate provider issuer subject now)
