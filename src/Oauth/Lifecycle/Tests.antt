-- ===== src/Oauth/Lifecycle/Tests.antt =====
-- Connections of one principal that are authorized, renewed and disconnected.
use mcp_gw.Oauth.Guard.{is_bare, connection_write_guard}
use mcp_gw.Common.{
  ◌+◌, ◌≤◌, true, false, none, some, [], ◌∷◌, ◌≡◌, refl, ◌↔◌, sym, ◌∙◌, eq_of_some-eq,
}
use mathlib.Core.Path.{subst}
use mcp_gw.Common.Dict.{insert, lookup}
use mcp_gw.Common.Lists.{any}
use mcp_gw.Json.{end}
use mcp_gw.Oauth.Types.{
  ConnectionRecord, CredentialGenerationRecord, candidate, generation_conflict, revoked,
  retryable_failure,
}
use mcp_gw.Oauth.Store.{TokenStore}
use mcp_gw.Oauth.Store.Connections.{save_connection, get_connection, written}
use mcp_gw.Oauth.Store.Cleanup.{
  update_credential_generation, save_credential_generation, unexpected,
  list_principal_credential_generations, is_due,
}
use mcp_gw.Oauth.Store.Consistent.{Reachable, Backed, next, generated}
use mcp_gw.Oauth.Retry.{returned, thrown, cleanup_backoff_ms}
use mcp_gw.Oauth.Scopes.{AuthorizationActivationGuard, snapshot_authorization_guard}
use mcp_gw.Oauth.Tests.{
  connection, connection-stored, adapter, store, store-Reachable, generation, waiting,
}
use mcp_gw.Oauth.Lifecycle.{Lifecycle, ProviderCredentialEnvelope, Hop1Identity}
use mcp_gw.Oauth.Lifecycle.Steps.{with_generation, principal_key, read_from}
use mcp_gw.Oauth.Lifecycle.Disconnect.{disconnect_transaction}
use mcp_gw.Oauth.Lifecycle.Disconnect.Laws.{IsOff, disconnect_transaction-IsOff}
use mcp_gw.Oauth.Lifecycle.Cleanup.{cleaned, finalize_credential_cleanup}
use mcp_gw.Oauth.Lifecycle.Cleanup.Laws.{is_due-cleaned, finalize_credential_cleanup_once}
use mcp_gw.Oauth.Lifecycle.Activate.{
  IssuedCredentialGeneration, Attestation, unresolved, blocks, generation_or_0, active_custody,
  activated_connection, rebinds, activation_transaction,
}
use mcp_gw.Oauth.Lifecycle.Activate.Laws.{
  disconnect_transaction-activation_transaction, activation_transaction_once,
}
use mcp_gw.Oauth.Lifecycle.Activate.Succeeds.{activation_transaction-returned}
use mcp_gw.Oauth.Lifecycle.Renew.{RenewalCandidate, refreshed, already_fresh}
use mcp_gw.Oauth.Lifecycle.Renew.Commit.{renewed_connection, activate_renewed_generation}
use mcp_gw.Oauth.Lifecycle.Renew.Laws.{
  IsHeldBack, disconnect_transaction-activate_renewed_generation, activate_renewed_generation_once,
}

abbrev pub l : Lifecycle
l = record {
  adapter = adapter;
  now = 30;
  encrypt_secret = λ text. text;
  decrypt_secret = λ text. some text;
  stringify = λ credential. "c";
  parse = λ text. none;
}

abbrev pub who : Hop1Identity
who = record { issuer = "iss"; subject = "sub"; email = "a@example.com" }

abbrev pub token : ProviderCredentialEnvelope
token = record { active_credential = some "t"; renewal_credential = none; fields = end }

abbrev pub answer : IssuedCredentialGeneration
answer = record {
  credential = token;
  display_account_identity = "a@example.com";
  provider_account = none;
  granted_scopes = "mail" ∷ [];
  active_credential_expires_at = some 900;
  renewal_credential_expires_at = none;
  validated_at = some 30;
}

abbrev pub attestation : Attestation
attestation = record {
  display_account_identity = "a@example.com";
  provider_account = none;
  validated_at = some 30;
}

abbrev pub custody : CredentialGenerationRecord
custody = record generation { id = "g-2"; generation = 2; state = candidate }

abbrev started : AuthorizationActivationGuard
started = record { generation = some 1; locally_disabled = some false; updated_at = some 10 }

abbrev issued_store : TokenStore
issued_store = save_credential_generation custody store

issued_store-Reachable : Reachable issued_store
issued_store-Reachable = next store-Reachable (generated custody store)

issued_store-held : lookup (principal_key l who) issued_store.connections ≡ some connection
unfolding lookup save_credential_generation save_connection insert
issued_store-held = refl

issued_store-Backed : Backed (principal_key l who) issued_store
issued_store-Backed c h =
    subst (λ d. is_bare d ≡ false) (eq_of_some-eq (sym issued_store-held ∙ h)) connection-stored

abbrev renewal : RenewalCandidate
renewal = record {
  current = connection;
  decrypted = record {
    provider = "google";
    generation = 1;
    credential = token;
    active_credential_expires_at = some 90;
    renewal_credential_expires_at = none;
    granted_scopes = "mail" ∷ [];
  };
  renewed = record {
    credential = token;
    granted_scopes = none;
    active_credential_expires_at = some 900;
    renewal_credential_expires_at = none;
    validated_at = none;
  };
  custody = custody;
  fresh = true;
  validated_identity = none;
}

disconnect_transaction-IsOff_example :
    IsOff l who (disconnect_transaction l who "g-3" [] issued_store).1
disconnect_transaction-IsOff_example =
    disconnect_transaction-IsOff l who "g-3" [] issued_store issued_store-Reachable
      issued_store-Backed

disconnect_transaction-activation_transaction_example :
    activation_transaction
      (record l { now = 40 })
      who
      []
      answer
      attestation
      custody
      (some started)
      (disconnect_transaction l who "g-3" [] issued_store).1
    ≡ (thrown (some generation_conflict), (disconnect_transaction l who "g-3" [] issued_store).1)
disconnect_transaction-activation_transaction_example =
    disconnect_transaction-activation_transaction l who 40 "g-3" [] [] answer attestation custody
      started issued_store issued_store-Reachable issued_store-Backed refl

disconnect_transaction-activate_renewed_generation_example :
    IsHeldBack
      (activate_renewed_generation
        (record l { now = 40 })
        who
        renewal
        (disconnect_transaction l who "g-3" [] issued_store).1)
      (disconnect_transaction l who "g-3" [] issued_store).1
disconnect_transaction-activate_renewed_generation_example =
    disconnect_transaction-activate_renewed_generation l who 40 "g-3" [] renewal issued_store
      issued_store-Reachable issued_store-Backed

nothing_unresolved : unresolved (read_from l who issued_store) ≡ false
unfolding unresolved get_connection lookup save_credential_generation save_connection insert
nothing_unresolved = refl

nothing-blocks :
    any (blocks "g-2") (list_principal_credential_generations "google" "iss" "sub" issued_store)
    ≡ false
unfolding list_principal_credential_generations save_credential_generation lookup save_connection
    insert blocks
nothing-blocks = refl

custody-waits : unexpected (lookup "g-2" issued_store.credential_generations) candidate 0 ≡ false
unfolding unexpected lookup save_credential_generation save_connection insert
custody-waits = refl

abbrev activated_store : TokenStore
activated_store =
    written
      (activated_connection l who ("mail" ∷ []) answer attestation "g-2"
        (read_from l who issued_store))
      (with_generation
        (active_custody l who attestation (generation_or_0 (read_from l who issued_store) + 1)
          custody)
        issued_store)

activation_transaction-returned_example :
    activation_transaction l who
      ("mail" ∷ [])
      answer
      attestation
      custody
      (some (snapshot_authorization_guard (read_from l who issued_store)))
      issued_store
    ≡ (returned (rebinds attestation (read_from l who issued_store)), activated_store)
activation_transaction-returned_example =
    activation_transaction-returned l who ("mail" ∷ []) answer attestation custody issued_store
      issued_store-Reachable issued_store-Backed nothing_unresolved nothing-blocks custody-waits

activated :
    activation_transaction l who
      ("mail" ∷ [])
      answer
      attestation
      custody
      (some (snapshot_authorization_guard (read_from l who issued_store)))
      issued_store
    ≡ (returned (rebinds attestation (read_from l who issued_store)), activated_store)
activated =
    activation_transaction-returned l who ("mail" ∷ []) answer attestation custody issued_store
      issued_store-Reachable issued_store-Backed nothing_unresolved nothing-blocks custody-waits

activation_transaction_once_example :
    (lookup (principal_key l who) activated_store.connections
      ≡ some (
          activated_connection l who
            ("mail" ∷ [])
            answer
            attestation
            "g-2"
            (read_from l who issued_store)))
    × (activation_transaction l who [] answer attestation custody none activated_store
        ≡ (thrown (some generation_conflict), activated_store))
activation_transaction_once_example =
    activation_transaction_once l who ("mail" ∷ []) [] answer answer attestation attestation custody
      custody (some (snapshot_authorization_guard (read_from l who issued_store))) none issued_store
      activated_store (rebinds attestation (read_from l who issued_store)) activated refl

abbrev renewed_store : TokenStore
renewed_store = (activate_renewed_generation l who renewal issued_store).1

renewal-refreshed :
    activate_renewed_generation l who renewal issued_store
    ≡ (returned (refreshed, false), renewed_store)
unfolding activate_renewed_generation get_connection lookup save_credential_generation
    save_connection insert update_credential_generation connection_write_guard
renewal-refreshed = refl

activate_renewed_generation_once_example :
    ((c : ConnectionRecord) × (read_from l who issued_store ≡ some c)
      × (lookup (principal_key l who) renewed_store.connections
          ≡ some (renewed_connection l who renewal c))
      × ((renewed_connection l who renewal c).generation ≡ 1 + 1))
    × (activate_renewed_generation l who renewal renewed_store
        ≡ (returned (already_fresh, false), renewed_store))
activate_renewed_generation_once_example =
    activate_renewed_generation_once l who renewal renewal issued_store renewed_store false
      issued_store-Reachable renewal-refreshed refl

is_due-cleaned_example :
    (is_due 4000 (cleaned 30 retryable_failure generation) ≡ true)
    ↔ ((retryable_failure ≡ retryable_failure) × (30 + cleanup_backoff_ms (0 + 1) ≤ 4000))
is_due-cleaned_example = is_due-cleaned 30 4000 retryable_failure generation

abbrev cleaned_store : TokenStore
cleaned_store = (finalize_credential_cleanup l who generation revoked waiting).1

cleanup-counted :
    finalize_credential_cleanup l who generation revoked waiting ≡ (returned true, cleaned_store)
unfolding finalize_credential_cleanup update_credential_generation lookup get_connection
cleanup-counted = refl

finalize_credential_cleanup_once_example :
    (lookup "g-1" cleaned_store.credential_generations ≡ some (cleaned 30 revoked generation))
    × (finalize_credential_cleanup l who generation retryable_failure cleaned_store
        ≡ (returned false, cleaned_store))
finalize_credential_cleanup_once_example =
    finalize_credential_cleanup_once l who generation revoked retryable_failure waiting
      cleaned_store cleanup-counted
