-- ===== src/Broker/Gate.antt =====
-- crates/secrets-engine/src/broker/gate.rs: the presence gate's states, and the one mapping to the
-- value that `decide` reads. The Seed's signature check (feature `seed-factor`) is not modelled.
use envctl.Prelude.{Option, none, some, ℤ}

pub data GateState : Type 0 where
  present : GateState
  absent_since : ℤ → GateState
  unproven : GateState

unfoldable pub gate_absent_since_ms : GateState → ℤ → Option ℤ
gate_absent_since_ms present now_ms = none
gate_absent_since_ms (absent_since ms) now_ms = some ms
gate_absent_since_ms unproven now_ms = some now_ms
