-- ===== src/Vault.antt =====
-- crates/secrets-engine/src/vault: what is stored, and how it is authenticated.
pub mod Rows
pub mod Aad
pub mod Store
mod Tests
