-- ===== src/Vault/Store.antt =====
-- `InMemStore` of crates/secrets-engine/src/vault/store.rs: relays, bearers, remote clients and
-- secrets, as pure functions on the lists that it holds. Its mutex is not modelled: each method runs
-- under the lock, so the methods are the atomic steps.
pub mod Upsert
pub mod Versions
pub mod Policies
use envctl.Prelude.{
  ℕ, ◌+◌, Bool, true, false, not, ◌&&◌, ◌||◌, Option, none, some, List, [], ◌∷◌, ◌++◌, map,
  if◌then◌else◌, Bytes, any, ℤ, pos, ◌+ℤ◌, leb_ℤ, ltb_ℤ, eqb_ℤ, max_ℤ, ◌==◌, List_eq, ℕ_eq, ltb,
  leb, nat_eq,
}
use envctl.Vault.Rows.{SecretRow, RelayPolicyRow, BearerRow, RemoteClient}

module _ {ℓ} {A : Type ℓ} where
  -- `iter().find(..)`
  unfoldable pub find : (A → Bool) → List A → Option A
  find p [] = none
  find p (x ∷ xs) = if p x then some x else find p xs

  -- Overwrite the first match, or push.
  unfoldable pub upsert : (A → Bool) → A → List A → List A
  upsert p row [] = row ∷ []
  upsert p row (x ∷ xs) = if p x then row ∷ xs else x ∷ upsert p row xs

  unfoldable pub filter_by : (A → Bool) → List A → List A
  filter_by p [] = []
  filter_by p (x ∷ xs) = let rest = filter_by p xs in if p x then x ∷ rest else rest

-- `iter().map(..).max()`
unfoldable pub max_id : List RelayPolicyRow → Option ℤ
max_id [] = none
max_id (r ∷ rows) = elim (max_id rows) [ none ↦ some r.id | some m ↦ some (max_ℤ r.id m) ]

unfoldable pub load_relay_policy : Bytes → List RelayPolicyRow → Option RelayPolicyRow
unfolding find
load_relay_policy relay_id relays = find (λ r. r.policy.relay_id == relay_id) relays

-- `max().unwrap_or(0) + 1`
unfoldable pub fresh_id : Option ℤ → ℤ
fresh_id none = pos 0 +ℤ pos 1
fresh_id (some m) = m +ℤ pos 1

unfoldable pub assigned_id : Option RelayPolicyRow → List RelayPolicyRow → ℤ
assigned_id (some existing) relays = existing.id
assigned_id none relays = fresh_id (max_id relays)

unfoldable pub save_relay_policy : RelayPolicyRow → List RelayPolicyRow → List RelayPolicyRow × ℤ
unfolding upsert
save_relay_policy row relays =
    let existing = load_relay_policy row.policy.relay_id relays in
    let id = if not (eqb_ℤ row.id (pos 0)) then row.id else assigned_id existing relays in
    (
      upsert (λ r. r.policy.relay_id == row.policy.relay_id)
          (record { id = id; policy = row.policy }) relays,
      id,
    )

unfoldable pub load_bearer : Bytes → List BearerRow → Option BearerRow
unfolding find
load_bearer token_id bearers = find (λ b. b.token_id == token_id) bearers

unfoldable pub save_bearer : BearerRow → List BearerRow → List BearerRow
unfolding upsert
save_bearer row bearers = upsert (λ b. b.token_id == row.token_id) row bearers

unfoldable pub list_bearers_for_relay :
    Bytes → List RelayPolicyRow → List BearerRow → List BearerRow
unfolding filter_by
list_bearers_for_relay relay_id relays bearers = elim (load_relay_policy relay_id relays) [
  | none ↦ []
  | some r ↦ filter_by (λ b. eqb_ℤ b.policy_id r.id) bearers
]

unfoldable pub load_remote_client : Bytes → List RemoteClient → Option RemoteClient
unfolding find
load_remote_client client_id clients = find (λ c. c.client_id == client_id) clients

unfoldable pub save_remote_client : RemoteClient → List RemoteClient → List RemoteClient
unfolding upsert
save_remote_client row clients = upsert (λ c. c.client_id == row.client_id) row clients

-- The secrets, and the high-water mark of the reserved row ids.
pub record Secrets : Type 0 where
  pub rows : List SecretRow
  pub next_secret_row_id : ℤ

unfoldable pub reserve_secret_row_id : Secrets → Secrets × ℤ
reserve_secret_row_id s =
    let id = s.next_secret_row_id +ℤ pos 1 in (record s { next_secret_row_id = id }, id)

-- `max_secret_version`: 0 where the name has no version.
unfoldable pub max_secret_version : Bytes → List SecretRow → ℕ
max_secret_version name [] = 0
max_secret_version name (r ∷ rows) =
    let m = max_secret_version name rows in
    if r.name == name then (if leb m r.version then r.version else m) else m

pub data PutError : Type 0 where
  not_reserved collides version_order : PutError

pub data PutResult : Type 0 where
  stored : Secrets → ℤ → PutResult
  rejected : PutError → PutResult

unfoldable pub put_secret : SecretRow → Secrets → PutResult
put_secret row s =
    if leb_ℤ row.row_id (pos 0) || ltb_ℤ s.next_secret_row_id row.row_id
    then rejected not_reserved
    else if any (λ r. eqb_ℤ r.row_id row.row_id) s.rows
    then rejected collides
    else if not (nat_eq row.version (max_secret_version row.name s.rows + 1))
    then rejected version_order
    else stored (record s { rows = s.rows ++ row ∷ [] }) row.row_id

-- `max_by_key(version)` over the rows of a name: of equal keys the last.
unfoldable pub get_secret_latest : Bytes → List SecretRow → Option SecretRow
get_secret_latest name [] = none
get_secret_latest name (r ∷ rows) =
    let later = get_secret_latest name rows in
    if r.name == name
    then elim later [ none ↦ some r | some l ↦ if leb r.version l.version then some l else some r ]
    else later
