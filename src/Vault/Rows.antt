-- ===== src/Vault/Rows.antt =====
-- The rows of crates/secrets-engine/src/vault/store.rs: sealed secrets, relay policies, bearers and
-- remote clients.
use envctl.Prelude.{ℕ, Bool, Option, Bytes, ℤ}
use envctl.Broker.Policy.{Provider, RelayPolicy}

pub record SecretRow : Type 0 where
  pub row_id : ℤ
  pub name : Bytes
  pub version : ℕ
  pub provider : Provider
  pub note : Bytes
  pub broker_only : Bool
  pub dek_generation : ℤ
  pub nonce : Bytes
  pub ct_tag : Bytes
  pub created_ts : Bytes

pub record RelayPolicyRow : Type 0 where
  pub id : ℤ
  pub policy : RelayPolicy

pub record BearerRow : Type 0 where
  pub token_id : Bytes
  pub policy_id : ℤ
  pub mac : Bytes
  pub expires_at_ms : ℤ
  pub issued_at_ms : ℤ
  pub issued_boottime_ms : ℤ
  pub client_uid : Option ℕ
  pub client_pid : Option ℕ
  pub client_id : Option Bytes
  pub dpop_jkt : Option Bytes
  pub revoked : Bool
  pub row_mac : Bytes

pub record RemoteClient : Type 0 where
  pub client_id : Bytes
  pub dpop_jkt : Bytes
  pub enabled : Bool
  pub hardware_bound : Bool
  pub created_at_ms : ℤ
  pub revoked_at_ms : Option ℤ
