-- ===== src/Broker/Decide.antt =====
-- crates/secrets-engine/src/broker/decide.rs: the pure, default-deny relay decision. `decide` is
-- the source's ladder of early returns as a `do` block: `deny_if` ends it at the first failing
-- check. Times are `i64` integers, a `u32` or `u64` is a natural number, a key thumbprint its bytes.
pub mod Exact
pub mod Reasons
use envctl.Prelude.{
  ℕ, ◌≡◌, Bool, true, false, not, ◌||◌, Option, none, some, List, ◌==◌, Option_eq, List_eq, ℕ_eq,
  arith, ltb, leb, if◌then◌else◌, Bytes, any, ℤ, pos, ltb_ℤ, leb_ℤ, ◌-ℤ◌, abs, saturating_add,
  saturating_sub, saturating_mul, PartialEq,
}
use envctl.Text.{eq_ignore_ascii_case, starts_with, strip_star}
use envctl.Broker.Policy.{RelayPolicy, Method, Method_eq, canonical_upstreams}

pub data DenyReason : Type 0 where
  unknown_bearer disabled revoked bearer_revoked bearer_expired policy_expired : DenyReason
  host_not_allowed path_not_allowed method_not_allowed upstream_not_allowed : DenyReason
  peer_mismatch sni_host_mismatch budget_requests budget_bytes rate_limited : DenyReason
  gate_absent clock_rollback cross_kind_presentation remote_no_dpop : DenyReason
  remote_binding_mismatch remote_client_unknown remote_client_revoked : DenyReason

pub data RelayDecision : Type 0 where
  allow : RelayDecision
  deny : DenyReason → RelayDecision

-- An early `return deny(..)` ends the checks.
infixl 5 ◌>>◌
unfoldable pub ◌>>◌ : RelayDecision → RelayDecision → RelayDecision
allow >> k = k
deny r >> k = deny r

unfoldable pub deny_if : Bool → DenyReason → RelayDecision
deny_if b r = if b then deny r else allow

pub record RemotePeer : Type 0 where
  pub client_id : Bytes
  pub dpop_jkt : Bytes
  pub dpop_verified : Bool

pub record VerifiedBearer : Type 0 where
  pub policy_id : ℤ
  pub token_id : Bytes
  pub expires_at_ms : ℤ
  pub issued_at_ms : ℤ
  pub issued_boottime_ms : ℤ
  pub client_uid : Option ℕ
  pub client_pid : Option ℕ
  pub client_id : Option Bytes
  pub dpop_jkt : Option Bytes
  pub revoked : Bool

pub record CanonRequest : Type 0 where
  pub method : Method
  pub host : Bytes
  pub sni : Option Bytes
  pub path : Bytes
  pub bytes_out : ℕ
  pub peer_uid : Option ℕ
  pub peer_pid : Option ℕ
  pub usage_requests : ℕ
  pub usage_bytes : ℕ
  pub rate_in_window : ℕ
  pub remote : Option RemotePeer

unfoldable pub host_in : Bytes → List Bytes → Bool
host_in host allowed = any (λ h. eq_ignore_ascii_case h host) allowed

-- One entry of `path_allow`: a trailing `*` is dropped, and the rest is a prefix.
unfoldable pub path_matches : Bytes → Bytes → Bool
path_matches path pat = elim (strip_star pat) [
  | some prefix ↦ starts_with path prefix
  | none ↦ starts_with path pat
]

unfoldable pub path_allowed : Bytes → List Bytes → Bool
path_allowed path allowed = any (path_matches path) allowed

-- Check 11a, on the request's remote context and the bearer's binding.
unfoldable pub plane_check : Option RemotePeer → Option Bytes → Option Bytes → RelayDecision
plane_check (some rp) (some client_id) dpop_jkt = do
  deny_if (not rp.dpop_verified) remote_no_dpop
  deny_if (not (client_id == rp.client_id)) remote_binding_mismatch
  deny_if (not (dpop_jkt == some rp.dpop_jkt)) remote_binding_mismatch
plane_check (some rp) none dpop_jkt = deny cross_kind_presentation
plane_check none (some client_id) dpop_jkt = deny cross_kind_presentation
plane_check none none dpop_jkt = allow

-- Check 11b, for the uid and for the pid: a bound value must be presented.
unfoldable pub peer_check : Option ℕ → Option ℕ → RelayDecision
peer_check none presented = allow
peer_check (some bound) presented = deny_if (not (presented == some bound)) peer_mismatch

unfoldable pub sni_check : Option Bytes → Bytes → RelayDecision
sni_check none host = allow
sni_check (some sni) host = deny_if (not (eq_ignore_ascii_case sni host)) sni_host_mismatch

-- Checks 13 and 14: `usage > q` denies.
unfoldable pub quota_check : Option ℕ → ℕ → DenyReason → RelayDecision
quota_check none usage r = allow
quota_check (some q) usage r = deny_if (ltb q usage) r

-- Check 15: `rate_in_window >= r` denies.
unfoldable pub rate_check : Option ℕ → ℕ → RelayDecision
rate_check none in_window = allow
rate_check (some r) in_window = deny_if (leb r in_window) rate_limited

unfoldable pub gate_check : Option ℤ → RelayDecision
gate_check none = allow
gate_check (some ms) = deny gate_absent

abbrev pub clock_skew_ms : ℤ
clock_skew_ms = pos 60000

-- Check 17: the wall clock against the floor and the issue time, then the monotonic clock.
unfoldable pub clock_check :
    VerifiedBearer → (now_ms boottime_now_ms issuance_floor_ms : ℤ) → RelayDecision
clock_check b now_ms boottime_now_ms issuance_floor_ms = do
  deny_if (ltb_ℤ now_ms issuance_floor_ms || ltb_ℤ now_ms b.issued_at_ms) clock_rollback
  deny_if (ltb_ℤ (saturating_sub boottime_now_ms b.issued_boottime_ms) (pos 0)) clock_rollback
  deny_if
      (leb_ℤ (saturating_sub b.expires_at_ms b.issued_at_ms)
        (saturating_sub boottime_now_ms b.issued_boottime_ms))
      bearer_expired
  deny_if
      (ltb_ℤ clock_skew_ms (
        abs (
          saturating_sub now_ms b.issued_at_ms
          -ℤ saturating_sub boottime_now_ms b.issued_boottime_ms)))
      clock_rollback

unfoldable pub policy_deadline : RelayPolicy → VerifiedBearer → ℤ
policy_deadline p b = saturating_add b.issued_at_ms (saturating_mul p.policy_ttl_secs 1000)

unfoldable pub decide :
    RelayPolicy
    → VerifiedBearer
    → CanonRequest
    → (now_ms boottime_now_ms : ℤ) → (gate_absent_since_ms : Option ℤ) → (issuance_floor_ms : ℤ)
    → RelayDecision
decide p b req now_ms boottime_now_ms gate_absent_since_ms issuance_floor_ms = do
  deny_if (not p.enabled) disabled
  deny_if p.revoked revoked
  deny_if b.revoked bearer_revoked
  deny_if (leb_ℤ b.expires_at_ms now_ms) bearer_expired
  deny_if (leb_ℤ (policy_deadline p b) now_ms) policy_expired
  deny_if (not (host_in req.host p.host_allow)) host_not_allowed
  deny_if (not (path_allowed req.path p.path_allow)) path_not_allowed
  deny_if (not (any (λ m. m == req.method) p.method_allow)) method_not_allowed
  deny_if (not (host_in req.host (canonical_upstreams p.provider))) upstream_not_allowed
  plane_check req.remote b.client_id b.dpop_jkt
  peer_check b.client_uid req.peer_uid
  peer_check b.client_pid req.peer_pid
  sni_check req.sni req.host
  quota_check p.quota_total_requests req.usage_requests budget_requests
  quota_check p.quota_total_bytes req.usage_bytes budget_bytes
  rate_check p.rate_per_min req.rate_in_window
  gate_check gate_absent_since_ms
  clock_check b now_ms boottime_now_ms issuance_floor_ms
