-- ===== src/Broker/Usage/Totals.antt =====
-- What a run of `bump`s adds up to, for the bearer and for all others.
use envctl.Prelude.{
  ℕ, ◌+◌, ◌≤◌, ◌≡◌, ◌≢◌, refl, ap, ◌∙◌, false, List, [], ◌∷◌, if◌then◌else◌, ltb, Bytes, List_eq,
  ℕ_eq, ◌==◌, ==_iff, ℤ, arith, length, Bool-cases, inl, inr,
}
use envctl.Map.{lookup, lookup-insert_self, lookup-insert_ne}
use envctl.Broker.Usage.{
  BearerCounters, Broker, default_counters, add_up_to, u64_max, reopen, bump_counters, counters_of,
  bump,
}

-- The requests of one bearer, as the times and sizes at which it is used.
abbrev pub Use : Type 0
Use = ℤ × ℕ

unfoldable pub run : Broker → Bytes → List Use → Broker
run broker token_id [] = broker
run broker token_id ((now_ms, bytes) ∷ uses) =
    run (bump broker token_id now_ms bytes).0 token_id uses

abbrev pub bytes_of : List Use → ℕ
bytes_of [] = 0
bytes_of ((now_ms, bytes) ∷ uses) = bytes + bytes_of uses

pub counters_of-bump :
    (broker : Broker) (token_id : Bytes) (now_ms : ℤ) (bytes : ℕ)
    → counters_of (bump broker token_id now_ms bytes).0 token_id
      ≡ bump_counters (counters_of broker token_id) now_ms bytes
unfolding bump
counters_of-bump broker token_id now_ms bytes =
    unfold counters_of in rw (lookup-insert_self token_id, counters_of)

differs : {a b : Bytes} → a ≢ b → (a == b) ≡ false
differs {a} {b} ne = elim (Bool-cases (a == b)) [
  | inl e ↦ absurd (ne ((==_iff a b).0 e))
  | inr e ↦ e
]

pub counters_of-bump_ne :
    (broker : Broker) (token_id other : Bytes) (now_ms : ℤ) (bytes : ℕ)
    → token_id ≢ other
    → counters_of (bump broker token_id now_ms bytes).0 other ≡ counters_of broker other
unfolding bump counters_of
counters_of-bump_ne broker token_id other now_ms bytes ne =
    rw (lookup-insert_ne token_id other, counters_of, differs ne)

-- `a + b` in an unsigned type, or its largest value.
abbrev pub capped : ℕ → ℕ → ℕ
capped top n = if ltb top n then top else n

-- The same run, on the bearer's own entry.
unfoldable pub run_counters : BearerCounters → List Use → BearerCounters
run_counters c [] = c
run_counters c ((now_ms, bytes) ∷ uses) = run_counters (bump_counters c now_ms bytes) uses

pub counters_of-run :
    (broker : Broker) (token_id : Bytes) (uses : List Use)
    → counters_of (run broker token_id uses) token_id
      ≡ run_counters (counters_of broker token_id) uses
unfolding run run_counters
counters_of-run broker token_id [] = refl
counters_of-run broker token_id ((now_ms, bytes) ∷ uses) =
    counters_of-run (bump broker token_id now_ms bytes).0 token_id uses
    ∙ ap (λ c. run_counters c uses) (counters_of-bump broker token_id now_ms bytes)

bump_requests :
    (c : BearerCounters) (now_ms : ℤ) (bytes : ℕ)
    → (bump_counters c now_ms bytes).total_requests ≡ capped u64_max (c.total_requests + 1)
unfolding bump_counters reopen add_up_to
bump_requests c now_ms bytes = ground arith

bump_bytes :
    (c : BearerCounters) (now_ms : ℤ) (bytes : ℕ)
    → (bump_counters c now_ms bytes).total_bytes ≡ capped u64_max (c.total_bytes + bytes)
unfolding bump_counters reopen add_up_to
bump_bytes c now_ms bytes = ground arith

run_requests :
    (c : BearerCounters) (uses : List Use)
    → c.total_requests ≤ u64_max
    → (run_counters c uses).total_requests ≡ capped u64_max (c.total_requests + length uses)
unfolding run_counters
run_requests c [] h = ground arith
run_requests c ((now_ms, bytes) ∷ uses) h =
    ground (arith, bump_requests c now_ms bytes, run_requests (bump_counters c now_ms bytes) uses)

run_bytes :
    (c : BearerCounters) (uses : List Use)
    → c.total_bytes ≤ u64_max
    → (run_counters c uses).total_bytes ≡ capped u64_max (c.total_bytes + bytes_of uses)
unfolding run_counters
run_bytes c [] h = ground arith
run_bytes c ((now_ms, bytes) ∷ uses) h =
    ground (arith, bump_bytes c now_ms bytes, run_bytes (bump_counters c now_ms bytes) uses)

run_other :
    (broker : Broker) (token_id other : Bytes) (uses : List Use)
    → token_id ≢ other
    → counters_of (run broker token_id uses) other ≡ counters_of broker other
unfolding run
run_other broker token_id other [] ne = refl
run_other broker token_id other ((now_ms, bytes) ∷ uses) ne =
    run_other (bump broker token_id now_ms bytes).0 token_id other uses ne
    ∙ counters_of-bump_ne broker token_id other now_ms bytes ne

abbrev pub empty_broker : Broker
empty_broker = record { counters = [] }

fresh : (token_id : Bytes) → counters_of empty_broker token_id ≡ default_counters
unfolding counters_of lookup
fresh token_id = refl

-- From a broker without counters, the totals of a bearer after any run of its uses are the number
-- of the uses and the sum of their bytes, each capped at the largest `u64` and never wrapped.
pub run_totals :
    (token_id : Bytes) (uses : List Use)
    → ((counters_of (run empty_broker token_id uses) token_id).total_requests
        ≡ capped u64_max (length uses))
      × ((counters_of (run empty_broker token_id uses) token_id).total_bytes
          ≡ capped u64_max (bytes_of uses))
run_totals token_id uses =
    let requests = run_requests default_counters uses (omega arith) in
    let bytes = run_bytes default_counters uses (omega arith) in
    rw (counters_of-run, fresh) (ground arith, ground arith)
