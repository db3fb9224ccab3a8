-- ===== src/Broker/Usage/Window.antt =====
-- The rate window: it opens at a request, counts the requests of the next 60 seconds, and `decide`
-- compares the count, the present request included, with the rate.
use envctl.Prelude.{
  ℕ, suc, ◌+◌, ◌≤◌, ◌<◌, ◌≡◌, ◌≢◌, true, Option, some, List, [], ◌∷◌, Bytes, ℤ, pos, ◌<ℤ◌,
  saturating_sub, arith, length, AllOf,
}
use envctl.Broker.Policy.{RelayPolicy}
use envctl.Broker.Decide.{VerifiedBearer, CanonRequest, decide, allow}
use envctl.Broker.Decide.Exact.{decide-allow_iff}
use envctl.Broker.Usage.{
  BearerCounters, Broker, add_up_to, u32_max, window_over, reopen, bump_counters, counters_of,
}
use envctl.Broker.Usage.Totals.{Use, run, run_counters, counters_of-run, capped}

-- The uses that fall within the window that opened at `start`.
abbrev pub InWindow : ℤ → List Use → Type 0
InWindow start uses = AllOf (λ u. saturating_sub u.0 start <ℤ pos 60000) uses

opens :
    (c : BearerCounters) (now_ms : ℤ) (bytes : ℕ)
    → window_over c now_ms ≡ true
    → ((bump_counters c now_ms bytes).window_start_ms ≡ now_ms)
      × ((bump_counters c now_ms bytes).in_window ≡ 1)
unfolding bump_counters reopen add_up_to
opens c now_ms bytes h = ground arith

stays :
    (c : BearerCounters) (now_ms : ℤ) (bytes : ℕ)
    → c.window_start_ms ≢ pos 0
    → saturating_sub now_ms c.window_start_ms <ℤ pos 60000
    → ((bump_counters c now_ms bytes).window_start_ms ≡ c.window_start_ms)
      × ((bump_counters c now_ms bytes).in_window ≡ capped u32_max (c.in_window + 1))
unfolding bump_counters reopen add_up_to window_over
stays c now_ms bytes hs hw = ground arith

counts :
    (c : BearerCounters) (uses : List Use)
    → c.window_start_ms ≢ pos 0
    → c.in_window ≤ u32_max
    → InWindow c.window_start_ms uses
    → (run_counters c uses).in_window ≡ capped u32_max (c.in_window + length uses)
unfolding run_counters
counts c [] hs hc hu = ground arith
counts c ((now_ms, bytes) ∷ uses) hs hc hu =
    let (start, count) = stays c now_ms bytes hs hu.0 in
    ground (
      arith,
      counts (bump_counters c now_ms bytes) uses (rw start hs) (rw count (ground arith))
          (rw start hu.1),
    )

-- After a use that opens a window, and any uses within its 60 seconds, the counter is their number.
window_count :
    (broker : Broker) (token_id : Bytes) (now_ms : ℤ) (bytes : ℕ) (rest : List Use)
    → now_ms ≢ pos 0
    → window_over (counters_of broker token_id) now_ms ≡ true
    → InWindow now_ms rest
    → (counters_of (run broker token_id ((now_ms, bytes) ∷ rest)) token_id).in_window
      ≡ capped u32_max (suc (length rest))
unfolding run_counters
window_count broker token_id now_ms bytes rest ne over within =
    let (start, one) = opens (counters_of broker token_id) now_ms bytes over in
    let c = bump_counters (counters_of broker token_id) now_ms bytes in
    let n = counts c rest (rw start ne) (rw one (omega arith)) (rw start within) in
    rw (counters_of-run, run_counters) (ground (arith, n, one))

module _ (p : RelayPolicy) (b : VerifiedBearer) (req : CanonRequest) (now_ms boottime_now_ms : ℤ)
    (gate_absent_since_ms : Option ℤ) (issuance_floor_ms : ℤ) where
  rate_of_allow :
      (r : ℕ)
      → p.rate_per_min ≡ some r
      → decide p b req now_ms boottime_now_ms gate_absent_since_ms issuance_floor_ms ≡ allow
      → req.rate_in_window < r
  rate_of_allow r e h = rw e at ((decide-allow_iff p b req _ _ _ _).0 h).rate

  -- A policy with rate `r` admits fewer than `r` requests in a window: when a use has opened the
  -- window and `rest` are the later uses within its 60 seconds, the request that was counted last
  -- is allowed only if these are together fewer than `r` (an `r` that a `u32` holds). So the
  -- `r`-th request of the minute is refused, and a rate of 1 admits none.
  pub decide-window_rate :
      (broker : Broker) (start_ms : ℤ) (bytes : ℕ) (rest : List Use) (r : ℕ)
      → start_ms ≢ pos 0
      → window_over (counters_of broker b.token_id) start_ms ≡ true
      → InWindow start_ms rest
      → p.rate_per_min ≡ some r
      → r ≤ u32_max
      → req.rate_in_window
        ≡ (counters_of (run broker b.token_id ((start_ms, bytes) ∷ rest)) b.token_id).in_window
      → decide p b req now_ms boottime_now_ms gate_absent_since_ms issuance_floor_ms ≡ allow
      → suc (length rest) < r
  decide-window_rate broker start_ms bytes rest r ne over within rate bound counted h = ground (
    arith,
    rate_of_allow r rate h,
    window_count broker b.token_id start_ms bytes rest ne over within,
  )
