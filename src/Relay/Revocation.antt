-- ===== src/Relay/Revocation.antt =====
-- The revocation of one bearer: `relay_revoke_bearer` of crates/secrets-engine/src/lib.rs.
use envctl.Prelude.{
  ℕ, Bool, true, false, not, Option, none, some, if◌then◌else◌, Bytes, List_eq, ℕ_eq,
}
use envctl.Broker.Wire.{Crypto, mac_bearer_row, broker_row_mac_key}
use envctl.Broker.Wire.Message.{row_message}
use envctl.Vault.Rows.{BearerRow}
use envctl.Vault.Store.{load_bearer, save_bearer}
use envctl.Relay.{EngineState, record_event, bearer_revoked}

module _ (crypto : Crypto) where
  unfoldable pub reseal_bearer_row : Option Bytes → BearerRow → Option BearerRow
  reseal_bearer_row none row = none
  reseal_bearer_row (some dek) row = some (record row {
    row_mac = mac_bearer_row crypto (broker_row_mac_key crypto dek) (row_message row);
  })

  unfoldable pub would_flip : Option BearerRow → Bool
  would_flip none = false
  would_flip (some row) = not row.revoked

  abbrev pub flips : Bool → ℕ
  flips true = 1
  flips false = 0

  -- Store the resealed row; a locked vault is an error, which changes nothing.
  unfoldable pub store_revoked : EngineState → Bytes → Option BearerRow → Option (EngineState × ℕ)
  store_revoked st token_id none = none
  store_revoked st token_id (some row) = some (
    record_event (bearer_revoked token_id true 1)
        (record st { bearers = save_bearer row st.bearers }),
    1,
  )

  unfoldable pub revoke_loaded :
      EngineState → Bytes → (apply : Bool) → Option BearerRow → Option (EngineState × ℕ)
  revoke_loaded st token_id false found =
      let n = flips (would_flip found) in
      some (record_event (bearer_revoked token_id false n) st, n)
  revoke_loaded st token_id true none = some (record_event (bearer_revoked token_id true 0) st, 0)
  revoke_loaded st token_id true (some row) =
      if not row.revoked
      then store_revoked st token_id (reseal_bearer_row st.dek (record row { revoked = true }))
      else some (record_event (bearer_revoked token_id true 0) st, 0)

  -- The new state and the number of bearers flipped.
  unfoldable pub relay_revoke_bearer :
      EngineState → Bytes → (apply : Bool) → Option (EngineState × ℕ)
  relay_revoke_bearer st token_id apply =
      revoke_loaded st token_id apply (load_bearer token_id st.bearers)
