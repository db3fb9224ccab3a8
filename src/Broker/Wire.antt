-- ===== src/Broker/Wire.antt =====
-- crates/secrets-engine/src/broker/mod.rs and token.rs: the encoding that a bearer row's MAC covers,
-- the wire form of a bearer, and the keyed MACs. BLAKE3 is not part of the repository: its keyed
-- hash and key derivation are the parameter `Crypto`.
pub mod Message
pub mod Parse
use envctl.Prelude.{
  ℕ, suc, zero, ◌≡◌, Bool, true, false, ◌&&◌, ◌||◌, not, Option, none, some, List, [], ◌∷◌, ◌++◌,
  leb, if◌then◌else◌, Bytes, codes, length, is_empty, all, ℤ, ◌==◌, List_eq, ℕ_eq,
}
use envctl.Encoding.{u32_be, u64_be, i64_be}
use envctl.Text.{strip_prefix}

-- `blake3::keyed_hash` and `blake3::derive_key`.
pub record Crypto : Type 0 where
  pub keyed_hash : Bytes → Bytes → Bytes
  pub derive_key : Bytes → Bytes → Bytes

abbrev pub bearer_hmac_key_info : Bytes
bearer_hmac_key_info = codes "env-ctl/v1/relay-bearer/key"

abbrev pub bearer_row_mac_key_info : Bytes
bearer_row_mac_key_info = codes "env-ctl/v1/relay-bearer/row-mac/key"

abbrev pub bearer_row_mac_domain : Bytes
bearer_row_mac_domain = codes "env-ctl/v1/relay-bearer/row"

abbrev pub bearer_prefix : Bytes
bearer_prefix = codes "evrelay_"

module _ (crypto : Crypto) where
  unfoldable pub broker_hmac_key : Bytes → Bytes
  broker_hmac_key dek = crypto.derive_key bearer_hmac_key_info dek

  unfoldable pub broker_row_mac_key : Bytes → Bytes
  broker_row_mac_key dek = crypto.derive_key bearer_row_mac_key_info dek

  unfoldable pub mac_bearer : Bytes → Bytes → Bytes
  mac_bearer hmac_key presented = crypto.keyed_hash hmac_key presented

  unfoldable pub mac_bearer_row : Bytes → Bytes → Bytes
  mac_bearer_row row_mac_key message = crypto.keyed_hash row_mac_key message

  -- The comparison of a computed tag with the stored one, whatever the stored length.
  unfoldable pub verify_bearer : Bytes → Bytes → Bytes → Bool
  unfolding mac_bearer
  verify_bearer hmac_key presented stored_mac = mac_bearer hmac_key presented == stored_mac

  unfoldable pub verify_bearer_row : Bytes → Bytes → Bytes → Bool
  unfolding mac_bearer_row
  verify_bearer_row row_mac_key message stored_mac =
      mac_bearer_row row_mac_key message == stored_mac

unfoldable pub encode_opt_u32 : Option ℕ → Bytes
encode_opt_u32 none = 0 ∷ 0 ∷ 0 ∷ 0 ∷ 0 ∷ []
encode_opt_u32 (some x) = 1 ∷ u32_be x

unfoldable pub encode_opt_bytes : Option Bytes → Bytes
encode_opt_bytes none = 0 ∷ []
encode_opt_bytes (some b) = 1 ∷ (u64_be (length b) ++ b)

abbrev zeros : ℕ → Bytes
zeros zero = []
zeros (suc n) = 0 ∷ zeros n

unfoldable pub encode_opt_jkt : Option Bytes → Bytes
encode_opt_jkt none = 0 ∷ zeros 32
encode_opt_jkt (some jkt) = 1 ∷ jkt

abbrev pub flag : Bool → ℕ
flag true = 1
flag false = 0

abbrev pub is_some {ℓ} : {A : Type ℓ} → Option A → Bool
is_some none = false
is_some (some a) = true

unfoldable pub bearer_row_mac_message :
    (token_id : Bytes)
    → (policy_id expires_at_ms issued_at_ms issued_boottime_ms : ℤ)
    → (client_uid client_pid : Option ℕ) → (client_id dpop_jkt : Option Bytes) → (revoked : Bool)
    → Bytes
bearer_row_mac_message token_id policy_id expires_at_ms issued_at_ms issued_boottime_ms client_uid
      client_pid client_id dpop_jkt revoked =
    bearer_row_mac_domain
    ++ flag (is_some client_id)
      ∷ (u64_be (length token_id)
          ++ (token_id
              ++ (i64_be policy_id
                  ++ (i64_be expires_at_ms
                      ++ (i64_be issued_at_ms
                          ++ (i64_be issued_boottime_ms
                              ++ (encode_opt_u32 client_uid
                                  ++ (encode_opt_u32 client_pid
                                      ++ (encode_opt_bytes client_id
                                          ++ (encode_opt_jkt dpop_jkt ++ flag revoked ∷ []))))))))))

abbrev pub prepend : ℕ → Option (Bytes × Bytes) → Option (Bytes × Bytes)
prepend c none = none
prepend c (some (front, back)) = some (c ∷ front, back)

-- `str::split_once`
unfoldable pub split_once : ℕ → Bytes → Option (Bytes × Bytes)
split_once sep [] = none
split_once sep (c ∷ s) = if c == sep then some ([], s) else prepend c (split_once sep s)

-- `u8::is_ascii_alphanumeric`
unfoldable pub is_ascii_alphanumeric : ℕ → Bool
is_ascii_alphanumeric c =
    (leb b'0' c && leb c b'9') || (leb b'A' c && leb c b'Z') || (leb b'a' c && leb c b'z')

abbrev pub accept_parts : Bytes → Option (Bytes × Bytes) → Option (Bytes × Bytes)
accept_parts raw none = none
accept_parts raw (some (token_id, secret)) =
    if is_empty token_id || is_empty secret
    then none
    else if not (all is_ascii_alphanumeric token_id)
    then none
    else some (token_id, raw)

-- The token id, and the whole wire string again.
unfoldable pub parse_bearer : Bytes → Option (Bytes × Bytes)
parse_bearer raw = elim (strip_prefix bearer_prefix raw) [
  | none ↦ none
  | some rest ↦ accept_parts raw (split_once b'_' rest)
]
