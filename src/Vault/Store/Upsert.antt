-- ===== src/Vault/Store/Upsert.antt =====
-- Reading back what was saved.
use envctl.Prelude.{◌≡◌, Bool, true, some, List, [], ◌∷◌, arith, ◌==◌, ==_refl, List_eq, ℕ_eq}
use envctl.Vault.Rows.{BearerRow, RelayPolicyRow}
use envctl.Vault.Store.{
  find, upsert, load_bearer, save_bearer, load_relay_policy, save_relay_policy,
}

module _ {ℓ} {A : Type ℓ} where
  pub find-upsert_self :
      (p : A → Bool) (row : A) (xs : List A) → p row ≡ true → find p (upsert p row xs) ≡ some row
  unfolding find upsert
  find-upsert_self p row [] h = rw h
  find-upsert_self p row (x ∷ xs) h = ground (arith, find-upsert_self p row xs)

pub load_bearer-save_bearer_self :
    (row : BearerRow) (bearers : List BearerRow)
    → load_bearer row.token_id (save_bearer row bearers) ≡ some row
unfolding load_bearer save_bearer
load_bearer-save_bearer_self row bearers =
    find-upsert_self (λ b. b.token_id == row.token_id) row bearers (==_refl row.token_id)

pub load_relay_policy-save_relay_policy :
    (row : RelayPolicyRow) (relays : List RelayPolicyRow)
    → let (relays', id) = save_relay_policy row relays in
      load_relay_policy row.policy.relay_id relays' ≡ some (record { id = id; policy = row.policy })
unfolding load_relay_policy save_relay_policy
load_relay_policy-save_relay_policy row relays =
    find-upsert_self (λ r. r.policy.relay_id == row.policy.relay_id) _ relays
      (==_refl row.policy.relay_id)
