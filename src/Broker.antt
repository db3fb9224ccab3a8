-- ===== src/Broker.antt =====
-- crates/secrets-engine/src/broker: the credential broker's pure parts.
pub mod Policy
pub mod Gate
pub mod Decide
pub mod Usage
pub mod Wire
mod Tests
