-- ===== src/Relay/Relays.antt =====
-- The revocation of a relay with all its bearers: `relay_revoke` of crates/secrets-engine/src/lib.rs.
use envctl.Prelude.{
  ℕ, suc, ◌+◌, Bool, true, false, not, Option, none, some, List, [], ◌∷◌, if◌then◌else◌, Bytes,
  List_eq, ℕ_eq,
}
use envctl.Broker.Wire.{Crypto}
use envctl.Vault.Rows.{BearerRow, RelayPolicyRow}
use envctl.Vault.Store.{save_bearer, load_relay_policy, save_relay_policy, list_bearers_for_relay}
use envctl.Relay.{EngineState, record_event, relay_revoked}
use envctl.Relay.Revocation.{reseal_bearer_row}

-- `filter(|b| !b.revoked).count()`
unfoldable pub count_live : List BearerRow → ℕ
count_live [] = 0
count_live (b ∷ bs) = let n = count_live bs in if not b.revoked then suc n else n

-- The policy of the relay, marked as revoked.
unfoldable pub revoke_policy : Option RelayPolicyRow → List RelayPolicyRow → List RelayPolicyRow
revoke_policy none relays = relays
revoke_policy (some row) relays =
    (save_relay_policy (record row { policy = record row.policy { revoked = true } }) relays).0

module _ (crypto : Crypto) where
  -- The loop over the listed bearers; a vault without its key is an error.
  unfoldable pub revoke_listed :
      Option Bytes
      → List BearerRow
      → (bearers : List BearerRow) → (n : ℕ) → Option (List BearerRow × ℕ)
  revoke_listed dek [] bearers n = some (bearers, n)
  revoke_listed dek (b ∷ listed) bearers n =
      if not b.revoked
      then elim (reseal_bearer_row crypto dek (record b { revoked = true })) [
        | none ↦ none
        | some row ↦ revoke_listed dek listed (save_bearer row bearers) (n + 1)
      ]
      else revoke_listed dek listed bearers n

  -- A vault that is locked is an error, after the policy is stored.
  unfoldable pub revoked_relay :
      EngineState → Bytes → Option (List BearerRow × ℕ) → EngineState × Option ℕ
  revoked_relay st relay_id none = (st, none)
  revoked_relay st relay_id (some (bearers, n)) =
      (record_event (relay_revoked relay_id true n) (record st { bearers = bearers }), some n)

  -- The new state, and the number of bearers that are or would be flipped.
  unfoldable pub relay_revoke : EngineState → Bytes → (apply : Bool) → EngineState × Option ℕ
  relay_revoke st relay_id false =
      let would = count_live (list_bearers_for_relay relay_id st.relays st.bearers) in
      (record_event (relay_revoked relay_id false would) st, some would)
  relay_revoke st relay_id true =
      let relays = revoke_policy (load_relay_policy relay_id st.relays) st.relays in
      revoked_relay (record st { relays = relays }) relay_id
        (revoke_listed st.dek (list_bearers_for_relay relay_id relays st.bearers) st.bearers 0)
