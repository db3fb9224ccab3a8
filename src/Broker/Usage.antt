-- ===== src/Broker/Usage.antt =====
-- `Broker` and `BearerCounters` of crates/secrets-engine/src/broker/mod.rs: the usage counters of
-- each bearer. The policy cache of `Broker` is never read or written by the source, and is left out.
pub mod Window
pub mod Totals
use envctl.Prelude.{
  ℕ, ◌+◌, ◌-◌, ◌^◌, Bool, ◌||◌, Option, none, some, List, [], if◌then◌else◌, ltb, Bytes, List_eq,
  ℕ_eq, ℤ, pos, leb_ℤ, eqb_ℤ, saturating_sub, arith,
}
use envctl.Map.{lookup, insert}

pub record BearerCounters : Type 0 where
  pub window_start_ms : ℤ
  pub in_window : ℕ
  pub total_requests : ℕ
  pub total_bytes : ℕ

pub record Broker : Type 0 where
  pub counters : List (Bytes × BearerCounters)

abbrev pub default_counters : BearerCounters
default_counters = record {
  window_start_ms = pos 0;
  in_window = 0;
  total_requests = 0;
  total_bytes = 0;
}

-- `saturating_add` of an unsigned type whose largest value is `top`.
unfoldable pub add_up_to : ℕ → ℕ → ℕ → ℕ
add_up_to top a b = if ltb top (a + b) then top else a + b

abbrev pub u32_max : ℕ
u32_max = 2 ^ 32 - 1

abbrev pub u64_max : ℕ
u64_max = 2 ^ 64 - 1

-- The test for a new window.
unfoldable pub window_over : BearerCounters → ℤ → Bool
window_over c now_ms =
    eqb_ℤ c.window_start_ms (pos 0) || leb_ℤ (pos 60000) (saturating_sub now_ms c.window_start_ms)

unfoldable pub reopen : BearerCounters → ℤ → BearerCounters
reopen c now_ms =
    if window_over c now_ms then record c { window_start_ms = now_ms; in_window = 0 } else c

-- The body of `bump`, on the bearer's own entry.
unfoldable pub bump_counters : BearerCounters → ℤ → ℕ → BearerCounters
bump_counters c now_ms bytes =
    let c' = reopen c now_ms in
    record c' {
      in_window = add_up_to u32_max c'.in_window 1;
      total_requests = add_up_to u64_max c'.total_requests 1;
      total_bytes = add_up_to u64_max c'.total_bytes bytes;
    }

-- `entry(token_id).or_default()`
unfoldable pub counters_of : Broker → Bytes → BearerCounters
counters_of broker token_id = elim (lookup token_id broker.counters) [
  | none ↦ default_counters
  | some c ↦ c
]

-- The new broker, and the totals of requests and bytes and the count in the window.
unfoldable pub bump : Broker → Bytes → ℤ → ℕ → Broker × (ℕ × ℕ × ℕ)
bump broker token_id now_ms bytes =
    let c = bump_counters (counters_of broker token_id) now_ms bytes in
    (
      record { counters = insert token_id c broker.counters },
      (c.total_requests, c.total_bytes, c.in_window),
    )
