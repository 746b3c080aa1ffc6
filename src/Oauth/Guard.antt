-- ===== src/Oauth/Guard.antt =====
-- shared/oauth/store.ts: the guard under which a connection that was read is written back.
use mcp_gw.Common.{
  Bool, true, false, not, ◌&&◌, Option, none, some, is_some, nat_eq, ◌==◌, if◌then◌else◌,
}
use mcp_gw.Oauth.Types.{ConnectionPhase, authorizing, ConnectionRecord, ConnectionWriteGuard}

abbrev pub is_authorizing : ConnectionPhase → Bool
is_authorizing authorizing = true
is_authorizing _ = false

-- Nothing is stored behind the record: no generation, credential, revocation or account.
unfoldable pub is_bare : ConnectionRecord → Bool
is_bare c =
    nat_eq c.generation 0
    && not c.active_credential_present
    && not c.renewal_credential_present
    && not (is_some c.local_disabled_at)
    && c.display_account_identity == ""

-- A record that stands for a running authorization alone, with nothing stored behind it.
unfoldable pub synthetic_authorization : ConnectionRecord → Bool
unfolding is_bare
synthetic_authorization c = is_authorizing c.phase && is_bare c

abbrev pub absent_guard : ConnectionWriteGuard
absent_guard = record { present = false; generation = none; updated_at = none; revoked_at = none }

abbrev pub present_guard : ConnectionRecord → ConnectionWriteGuard
present_guard c = record {
  present = true;
  generation = some c.generation;
  updated_at = some c.updated_at;
  revoked_at = c.local_disabled_at;
}

unfoldable pub connection_write_guard : Option ConnectionRecord → ConnectionWriteGuard
unfolding synthetic_authorization
connection_write_guard none = absent_guard
connection_write_guard (some c) =
    if synthetic_authorization c then absent_guard else present_guard c
