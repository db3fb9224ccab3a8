-- ===== src/Vault/Aad.antt =====
-- crates/secrets-engine/src/vault/aad.rs: the authenticated data that binds a ciphertext to its row.
use envctl.Prelude.{
  ℕ, ◌≡◌, refl, [], ◌∷◌, ◌++◌, arith, Bytes, codes, length, length-append, ℤ, IsI64, ap,
}
use envctl.Encoding.{i64_be, i64-peel, length-i64_be, byte-peel, sized-peel}

pub data TableTag : Type 0 where
  secret_version ca_key cert hmac_key : TableTag

abbrev tag_byte : TableTag → ℕ
tag_byte secret_version = 1
tag_byte ca_key = 2
tag_byte cert = 3
tag_byte hmac_key = 4

abbrev aad_domain : Bytes
aad_domain = codes "env-ctl/v1/aad"

unfoldable pub record_aad : TableTag → (row_id version dek_generation : ℤ) → Bytes
record_aad tag row_id version dek_generation =
    aad_domain ++ tag_byte tag ∷ (i64_be row_id ++ (i64_be version ++ i64_be dek_generation))

-- The authenticated data of a record is 39 bytes long, whatever the record.
pub length-record_aad :
    (tag : TableTag) (row_id version dek_generation : ℤ)
    → length (record_aad tag row_id version dek_generation) ≡ 39
unfolding record_aad
length-record_aad tag row_id version dek_generation = omega (
  arith,
  length-append (i64_be row_id) (i64_be version ++ i64_be dek_generation),
  length-append (i64_be version) (i64_be dek_generation),
  length-i64_be,
)

tag_byte-injective : (s t : TableTag) → tag_byte s ≡ tag_byte t → s ≡ t
tag_byte-injective s t e = ground arith

-- Records whose ids are `i64`s have the same authenticated data only if their table, row, version
-- and key generation agree, so a ciphertext cannot be moved to another record.
pub record_aad-injective :
    (s t : TableTag) (row row' version version' generation generation' : ℤ)
    → IsI64 row
    → IsI64 row'
    → IsI64 version
    → IsI64 version'
    → IsI64 generation
    → IsI64 generation'
    → record_aad s row version generation ≡ record_aad t row' version' generation'
    → (s ≡ t) × (row ≡ row') × (version ≡ version') × (generation ≡ generation')
unfolding record_aad
record_aad-injective s t row row' version version' generation generation' hr hr' hv hv' hg hg' e =
    let (_, e1) = sized-peel aad_domain aad_domain _ _ refl e in
    let (tags, e2) = byte-peel _ _ _ _ e1 in
    let (rows, e3) = i64-peel row row' _ _ hr hr' e2 in
    let (versions, e4) = i64-peel version version' _ _ hv hv' e3 in
    let (generations, _) =
      i64-peel generation generation' [] [] hg hg' (ap (λ (x : Bytes). x ++ []) e4) in
    (tag_byte-injective s t tags, rows, versions, generations)
