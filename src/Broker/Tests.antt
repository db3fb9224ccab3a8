-- ===== src/Broker/Tests.antt =====
-- The broker's theorems at concrete requests.
use envctl.Prelude.{
  ℕ, suc, ◌≡◌, ◌≢◌, ◌↔◌, ◌<◌, refl, true, false, Option, none, some, [], ◌∷◌, ◌++◌, arith, Bytes,
  codes, ℤ, pos, length,
}
use envctl.Broker.Policy.{
  RelayPolicy, Method-discrete, canonical_upstreams, post, anthropic, named, proxy_mitm,
}
use envctl.Broker.Decide.{
  VerifiedBearer, CanonRequest, allow, deny, DenyReason, decide, ◌>>◌, deny_if, host_in,
  path_allowed, path_matches, plane_check, peer_check, sni_check, quota_check, rate_check,
  gate_check, clock_check, policy_deadline,
}
use envctl.Text.{eq_ignore_ascii_case, starts_with, strip_prefix, strip_star, to_ascii_lowercase}
use envctl.Map.{lookup, insert}
use envctl.Prelude.{
  saturating_add, saturating_sub, saturating_mul, saturate, scale, ◌+ℤ◌, ◌-ℤ◌, abs,
}
use envctl.Broker.Decide.Exact.{IsAuthorized, decide-allow_iff}
use envctl.Broker.Decide.Reasons.{Grounds, decide-deny}
use envctl.Broker.Usage.{u64_max, counters_of, window_over, bump, bump_counters, reopen, add_up_to}
use envctl.Broker.Usage.Totals.{run, empty_broker, capped, run_totals}
use envctl.Broker.Usage.Window.{decide-window_rate}
use envctl.Broker.Wire.{bearer_prefix, parse_bearer}
use envctl.Broker.Wire.Parse.{IsTokenId, parse_bearer_iff}
use envctl.Broker.Wire.Message.{IsRow, SameClaims, row_message, row_message-injective}
use envctl.Vault.Rows.{BearerRow}

abbrev now : ℤ
now = pos 1700000000000

abbrev issued : ℤ
issued = pos 1699999000000

abbrev floor : ℤ
floor = pos 1699000000000

abbrev boottime : ℤ
boottime = pos 5000000

abbrev policy : Option ℕ → RelayPolicy
policy rate = record {
  relay_id = codes "r1";
  kind = named;
  provider = anthropic;
  secret_name = codes "k";
  swap = proxy_mitm;
  host_allow = codes "api.anthropic.com" ∷ [];
  path_allow = codes "/v1/*" ∷ [];
  method_allow = post ∷ [];
  policy_ttl_secs = pos 3600;
  rate_per_min = rate;
  quota_total_requests = none;
  quota_total_bytes = none;
  enabled = true;
  revoked = false;
}

abbrev bearer : VerifiedBearer
bearer = record {
  policy_id = pos 1;
  token_id = codes "t1";
  expires_at_ms = pos 1700003000000;
  issued_at_ms = issued;
  issued_boottime_ms = pos 4000000;
  client_uid = some 1000;
  client_pid = none;
  client_id = none;
  dpop_jkt = none;
  revoked = false;
}

abbrev request : ℕ → CanonRequest
request rate_in_window = record {
  method = post;
  host = codes "API.anthropic.com";
  sni = none;
  path = codes "/v1/messages";
  bytes_out = 10;
  peer_uid = some 1000;
  peer_pid = none;
  usage_requests = 1;
  usage_bytes = 10;
  rate_in_window = rate_in_window;
  remote = none;
}

decide-allow_iff_example :
    (decide (policy none) bearer (request 1) now boottime none floor ≡ allow)
    ↔ IsAuthorized (policy none) bearer (request 1) now boottime none floor
decide-allow_iff_example = decide-allow_iff (policy none) bearer (request 1) now boottime none floor

-- A use beyond the rate.
denied :
    decide (policy (some 1)) bearer (request 1) now boottime none floor
    ≡ deny DenyReason.rate_limited
unfolding decide ◌>>◌ deny_if host_in path_allowed path_matches plane_check peer_check sni_check
    quota_check rate_check gate_check clock_check policy_deadline eq_ignore_ascii_case starts_with
    strip_prefix strip_star to_ascii_lowercase canonical_upstreams saturating_add saturating_sub
    saturating_mul saturate scale ◌+ℤ◌ ◌-ℤ◌ abs Method-discrete mathlib.Core.Bool.decide
denied = refl

decide-deny_example :
    Grounds (policy (some 1)) bearer (request 1) now boottime none floor DenyReason.rate_limited
decide-deny_example =
    decide-deny (policy (some 1)) bearer (request 1) now boottime none floor DenyReason.rate_limited
      denied

run_totals_example :
    ((counters_of
        (run empty_broker (codes "t1") ((now, 10) ∷ (now, 5) ∷ []))
        (codes "t1")).total_requests
      ≡ capped u64_max 2)
    × ((counters_of
          (run empty_broker (codes "t1") ((now, 10) ∷ (now, 5) ∷ []))
          (codes "t1")).total_bytes
        ≡ capped u64_max 15)
run_totals_example = run_totals (codes "t1") ((now, 10) ∷ (now, 5) ∷ [])

counted :
    (request 1).rate_in_window
    ≡ (counters_of (run empty_broker (codes "t1") ((now, 10) ∷ [])) (codes "t1")).in_window
unfolding run bump counters_of bump_counters reopen window_over add_up_to lookup insert
    saturating_sub saturate ◌-ℤ◌
counted = refl

allowed : decide (policy (some 2)) bearer (request 1) now boottime none floor ≡ allow
unfolding decide ◌>>◌ deny_if host_in path_allowed path_matches plane_check peer_check sni_check
    quota_check rate_check gate_check clock_check policy_deadline eq_ignore_ascii_case starts_with
    strip_prefix strip_star to_ascii_lowercase canonical_upstreams saturating_add saturating_sub
    saturating_mul saturate scale ◌+ℤ◌ ◌-ℤ◌ abs Method-discrete mathlib.Core.Bool.decide
allowed = refl

opened : window_over (counters_of empty_broker (codes "t1")) now ≡ true
unfolding counters_of window_over lookup saturating_sub saturate ◌-ℤ◌
opened = refl

-- With rate 2, one request is allowed.
decide-window_rate_example : suc (length {A = ℤ × ℕ} []) < 2
decide-window_rate_example =
    decide-window_rate (policy (some 2)) bearer (request 1) now boottime none floor empty_broker now
      10 [] 2 (λ e. cc) opened tt refl (omega arith) counted allowed

parse_bearer_iff_example :
    (parse_bearer (codes "evrelay_ab_s") ≡ some (codes "ab", codes "evrelay_ab_s"))
    ↔ (secret : Bytes) × (codes "evrelay_ab_s" ≡ bearer_prefix ++ (codes "ab" ++ b'_' ∷ secret))
      × IsTokenId (codes "ab")
      × (secret ≢ [])
      × (codes "evrelay_ab_s" ≡ codes "evrelay_ab_s")
parse_bearer_iff_example =
    parse_bearer_iff (codes "evrelay_ab_s") (codes "ab") (codes "evrelay_ab_s")

abbrev row : BearerRow
row = record {
  token_id = codes "t1";
  policy_id = pos 1;
  mac = [];
  expires_at_ms = pos 1700003000000;
  issued_at_ms = issued;
  issued_boottime_ms = pos 4000000;
  client_uid = some 1000;
  client_pid = none;
  client_id = none;
  dpop_jkt = none;
  revoked = false;
  row_mac = [];
}

abbrev resealed : BearerRow
resealed = record row { mac = 7 ∷ []; row_mac = 9 ∷ [] }

row-IsRow : (mac row_mac : Bytes) → IsRow (record row { mac = mac; row_mac = row_mac })
row-IsRow mac row_mac = record {
  token_id = omega arith;
  policy_id = (omega arith, omega arith);
  expires_at_ms = (omega arith, omega arith);
  issued_at_ms = (omega arith, omega arith);
  issued_boottime_ms = (omega arith, omega arith);
  client_uid = omega arith;
  client_pid = tt;
  client_id = tt;
  dpop_jkt = tt;
}

same_message : row_message row ≡ row_message resealed
unfolding row_message
same_message = refl

row_message-injective_example : SameClaims row resealed
row_message-injective_example =
    row_message-injective row resealed (row-IsRow [] []) (row-IsRow (7 ∷ []) (9 ∷ [])) same_message
