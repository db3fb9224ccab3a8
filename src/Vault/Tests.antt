-- ===== src/Vault/Tests.antt =====
-- The vault's theorems at concrete records.
use envctl.Prelude.{ℕ, ◌≡◌, ◌≢◌, refl, true, false, some, [], ◌∷◌, arith, codes, ℤ, pos, ltb_ℤ}
use envctl.Broker.Policy.{openai}
use envctl.Vault.Rows.{SecretRow}
use envctl.Vault.Aad.{secret_version, record_aad-injective}
use envctl.Vault.Store.{
  Secrets, stored, put_secret, reserve_secret_row_id, max_secret_version, get_secret_latest,
}
use envctl.Vault.Store.Versions.{DistinctIds, get_secret_latest-put_secret, store-DistinctIds}

record_aad-injective_example :
    (secret_version ≡ secret_version) × (pos 7 ≡ pos 7) × (pos 1 ≡ pos 1) × (pos 2 ≡ pos 2)
record_aad-injective_example =
    record_aad-injective secret_version secret_version (pos 7) (pos 7) (pos 1) (pos 1) (pos 2)
      (pos 2) (omega arith, omega arith) (omega arith, omega arith) (omega arith, omega arith)
      (omega arith, omega arith) (omega arith, omega arith) (omega arith, omega arith) refl

abbrev secret : ℤ → ℕ → SecretRow
secret row_id version = record {
  row_id = row_id;
  name = codes "k";
  version = version;
  provider = openai;
  note = [];
  broker_only = false;
  dek_generation = pos 1;
  nonce = [];
  ct_tag = [];
  created_ts = [];
}

abbrev before : Secrets
before = record { rows = secret (pos 1) 1 ∷ []; next_secret_row_id = pos 2 }

abbrev after : Secrets
after = record { rows = secret (pos 1) 1 ∷ secret (pos 2) 2 ∷ []; next_secret_row_id = pos 2 }

put : put_secret (secret (pos 2) 2) before ≡ stored after (pos 2)
unfolding put_secret max_secret_version
put = refl

distinct : DistinctIds (pos 2) before.rows
unfolding DistinctIds
distinct = (refl, refl, refl, tt)

get_secret_latest-put_secret_example :
    get_secret_latest (codes "k") after.rows ≡ some (secret (pos 2) 2)
    × (codes "k" ≢ codes "j"
        → get_secret_latest (codes "j") after.rows ≡ get_secret_latest (codes "j") before.rows)
get_secret_latest-put_secret_example =
    get_secret_latest-put_secret (secret (pos 2) 2) before after (pos 2) (codes "j") put

store-DistinctIds_example :
    DistinctIds (pos 2) after.rows
    × DistinctIds (reserve_secret_row_id before).0.next_secret_row_id before.rows
    × ltb_ℤ (pos 2) (reserve_secret_row_id before).1 ≡ true
store-DistinctIds_example = store-DistinctIds (secret (pos 2) 2) before after (pos 2) distinct put
