-- ===== src/Broker/Decide/Exact.antt =====
-- When `decide` allows: a description of an authorized request that names no check of the code.
use envctl.Prelude.{
  ℕ, ◌≤◌, ◌<◌, ◌≡◌, true, false, Option, none, some, List, ◌↔◌, arith, Bytes, any, AnyOf, ◌==◌,
  ==_iff, Option_eq, List_eq, ℕ_eq, ℤ, pos, ltb_ℤ, leb_ℤ, ◌-ℤ◌, ◌+ℤ◌, ◌≤ℤ◌, ◌<ℤ◌, abs,
  saturating_sub, saturating_add, saturating_mul,
}
use envctl.Text.{
  SameHost, IsPrefixOf, eq_ignore_ascii_case_iff, starts_with, starts_with_iff, strip_star, any_iff,
}
use envctl.Broker.Policy.{RelayPolicy, Method_eq, canonical_upstreams}
use envctl.Broker.Decide.{
  allow, DenyReason, ◌>>◌, deny_if, RemotePeer, VerifiedBearer, CanonRequest, host_in, path_matches,
  path_allowed, plane_check, peer_check, sni_check, quota_check, rate_check, gate_check,
  clock_check, policy_deadline, decide, clock_skew_ms,
}

-- An entry of `path_allow` covers the paths that it is a prefix of, without its trailing `*`.
abbrev pub CoversBy : Option Bytes → Bytes → Bytes → Type 0
CoversBy (some prefix) pat path = IsPrefixOf prefix path
CoversBy none pat path = IsPrefixOf pat path

abbrev pub Covers : Bytes → Bytes → Type 0
Covers pat path = CoversBy (strip_star pat) pat path

-- Request and bearer are both local, or both remote with the proven client and key.
abbrev pub SamePlane : Option RemotePeer → Option Bytes → Option Bytes → Type 0
SamePlane (some rp) (some client_id) dpop_jkt =
    (rp.dpop_verified ≡ true) × (client_id ≡ rp.client_id) × (dpop_jkt ≡ some rp.dpop_jkt)
SamePlane (some rp) none dpop_jkt = ⊥
SamePlane none (some client_id) dpop_jkt = ⊥
SamePlane none none dpop_jkt = Unit

abbrev pub Presents : Option ℕ → Option ℕ → Type 0
Presents none presented = Unit
Presents (some bound) presented = presented ≡ some bound

abbrev pub Within : Option ℕ → ℕ → Type 0
Within none usage = Unit
Within (some q) usage = usage ≤ q

abbrev pub Below : Option ℕ → ℕ → Type 0
Below none n = Unit
Below (some r) n = n < r

abbrev pub SniAgrees : Option Bytes → Bytes → Type 0
SniAgrees none host = Unit
SniAgrees (some sni) host = SameHost sni host

pub host_in_iff :
    (host : Bytes) (allowed : List Bytes)
    → (host_in host allowed ≡ true) ↔ AnyOf (λ h. SameHost h host) allowed
unfolding host_in
host_in_iff host allowed =
    any_iff _ (λ h. SameHost h host) (λ h. eq_ignore_ascii_case_iff h host) allowed

strip_star_iff :
    (o : Option Bytes) (path pat : Bytes)
    → (elim o [ some prefix ↦ starts_with path prefix | none ↦ starts_with path pat ] ≡ true)
      ↔ CoversBy o pat path
strip_star_iff (some prefix) path pat = starts_with_iff path prefix
strip_star_iff none path pat = starts_with_iff path pat

path_matches_iff : (path pat : Bytes) → (path_matches path pat ≡ true) ↔ Covers pat path
unfolding path_matches
path_matches_iff path pat = strip_star_iff (strip_star pat) path pat

pub path_allowed_iff :
    (path : Bytes) (allowed : List Bytes)
    → (path_allowed path allowed ≡ true) ↔ AnyOf (λ pat. Covers pat path) allowed
unfolding path_allowed
path_allowed_iff path allowed =
    any_iff (path_matches path) (λ pat. Covers pat path) (path_matches_iff path) allowed

pub plane_check_iff :
    (remote : Option RemotePeer) (client_id dpop_jkt : Option Bytes)
    → (plane_check remote client_id dpop_jkt ≡ allow) ↔ SamePlane remote client_id dpop_jkt
unfolding plane_check ◌>>◌ deny_if
plane_check_iff (some rp) (some client_id) dpop_jkt =
    ground (arith, ==_iff client_id rp.client_id, ==_iff dpop_jkt (some rp.dpop_jkt))
plane_check_iff (some rp) none dpop_jkt = ground arith
plane_check_iff none (some client_id) dpop_jkt = ground arith
plane_check_iff none none dpop_jkt = ground arith

pub peer_check_iff :
    (bound presented : Option ℕ) → (peer_check bound presented ≡ allow) ↔ Presents bound presented
unfolding peer_check ◌>>◌ deny_if
peer_check_iff none presented = ground arith
peer_check_iff (some n) presented = ground (arith, ==_iff presented (some n))

pub sni_check_iff :
    (sni : Option Bytes) (host : Bytes) → (sni_check sni host ≡ allow) ↔ SniAgrees sni host
unfolding sni_check ◌>>◌ deny_if
sni_check_iff none host = ground arith
sni_check_iff (some sni) host = ground (arith, eq_ignore_ascii_case_iff sni host)

pub quota_check_iff :
    (quota : Option ℕ) (usage : ℕ) (r : DenyReason)
    → (quota_check quota usage r ≡ allow) ↔ Within quota usage
unfolding quota_check ◌>>◌ deny_if
quota_check_iff none usage r = ground arith
quota_check_iff (some q) usage r = ground arith

pub rate_check_iff :
    (rate : Option ℕ) (in_window : ℕ) → (rate_check rate in_window ≡ allow) ↔ Below rate in_window
unfolding rate_check ◌>>◌ deny_if
rate_check_iff none in_window = ground arith
rate_check_iff (some r) in_window = ground arith

-- The two clocks agree, and the bearer is alive on the monotonic one.
pub record ClocksAgree (b : VerifiedBearer) (now_ms boottime_now_ms issuance_floor_ms : ℤ)
    : Type 0 where
  pub floor : issuance_floor_ms ≤ℤ now_ms
  pub issued : b.issued_at_ms ≤ℤ now_ms
  pub forwards : pos 0 ≤ℤ saturating_sub boottime_now_ms b.issued_boottime_ms
  pub alive :
      saturating_sub boottime_now_ms b.issued_boottime_ms
      <ℤ saturating_sub b.expires_at_ms b.issued_at_ms
  pub ahead :
      saturating_sub now_ms b.issued_at_ms
      ≤ℤ saturating_sub boottime_now_ms b.issued_boottime_ms +ℤ pos 60000
  pub behind :
      saturating_sub boottime_now_ms b.issued_boottime_ms
      ≤ℤ saturating_sub now_ms b.issued_at_ms +ℤ pos 60000

pub skew_iff :
    (w m : ℤ)
    → (ltb_ℤ clock_skew_ms (abs (w -ℤ m)) ≡ false) ↔ (w ≤ℤ m +ℤ pos 60000) × (m ≤ℤ w +ℤ pos 60000)
unfolding abs ◌-ℤ◌ ◌+ℤ◌
skew_iff w m = ground arith

pub clock_check_iff :
    (b : VerifiedBearer) (now_ms boottime_now_ms issuance_floor_ms : ℤ)
    → (clock_check b now_ms boottime_now_ms issuance_floor_ms ≡ allow)
      ↔ ClocksAgree b now_ms boottime_now_ms issuance_floor_ms
unfolding clock_check ◌>>◌ deny_if
clock_check_iff b now_ms boottime_now_ms issuance_floor_ms = ground (
  arith,
  skew_iff (saturating_sub now_ms b.issued_at_ms)
      (saturating_sub boottime_now_ms b.issued_boottime_ms),
)

module _ (p : RelayPolicy) (b : VerifiedBearer) (req : CanonRequest) (now_ms boottime_now_ms : ℤ)
    (gate_absent_since_ms : Option ℤ) (issuance_floor_ms : ℤ) where
  record Passes : Type 0 where
    c2 : p.enabled ≡ true
    c3 : p.revoked ≡ false
    c4 : b.revoked ≡ false
    c5 : leb_ℤ b.expires_at_ms now_ms ≡ false
    c6 : leb_ℤ (policy_deadline p b) now_ms ≡ false
    c7 : host_in req.host p.host_allow ≡ true
    c8 : path_allowed req.path p.path_allow ≡ true
    c9 : any (λ m. m == req.method) p.method_allow ≡ true
    c10 : host_in req.host (canonical_upstreams p.provider) ≡ true
    c11a : plane_check req.remote b.client_id b.dpop_jkt ≡ allow
    uid : peer_check b.client_uid req.peer_uid ≡ allow
    pid : peer_check b.client_pid req.peer_pid ≡ allow
    c12 : sni_check req.sni req.host ≡ allow
    c13 : quota_check p.quota_total_requests req.usage_requests DenyReason.budget_requests ≡ allow
    c14 : quota_check p.quota_total_bytes req.usage_bytes DenyReason.budget_bytes ≡ allow
    c15 : rate_check p.rate_per_min req.rate_in_window ≡ allow
    c16 : gate_absent_since_ms ≡ none
    c17 : clock_check b now_ms boottime_now_ms issuance_floor_ms ≡ allow

  passes :
      decide p b req now_ms boottime_now_ms gate_absent_since_ms issuance_floor_ms ≡ allow → Passes
  unfolding decide gate_check ◌>>◌ deny_if
  passes h = ground arith

  allows :
      Passes → decide p b req now_ms boottime_now_ms gate_absent_since_ms issuance_floor_ms ≡ allow
  unfolding decide gate_check ◌>>◌ deny_if
  allows h = ground arith

  -- What an allowed request is, with no reference to the order or the form of the checks.
  pub record IsAuthorized : Type 0 where
    pub enabled : p.enabled ≡ true
    pub relay_live : p.revoked ≡ false
    pub bearer_live : b.revoked ≡ false
    pub before_expiry : now_ms <ℤ b.expires_at_ms
    pub before_deadline :
        now_ms <ℤ saturating_add b.issued_at_ms (saturating_mul p.policy_ttl_secs 1000)
    pub host : AnyOf (λ h. SameHost h req.host) p.host_allow
    pub path : AnyOf (λ pat. Covers pat req.path) p.path_allow
    pub method : AnyOf (λ m. m ≡ req.method) p.method_allow
    pub upstream : AnyOf (λ h. SameHost h req.host) (canonical_upstreams p.provider)
    pub plane : SamePlane req.remote b.client_id b.dpop_jkt
    pub uid : Presents b.client_uid req.peer_uid
    pub pid : Presents b.client_pid req.peer_pid
    pub sni : SniAgrees req.sni req.host
    pub requests : Within p.quota_total_requests req.usage_requests
    pub bytes : Within p.quota_total_bytes req.usage_bytes
    pub rate : Below p.rate_per_min req.rate_in_window
    pub gate : gate_absent_since_ms ≡ none
    pub clocks : ClocksAgree b now_ms boottime_now_ms issuance_floor_ms

  Passes→IsAuthorized : Passes → IsAuthorized
  unfolding policy_deadline
  Passes→IsAuthorized c = record {
    enabled = c.c2;
    relay_live = c.c3;
    bearer_live = c.c4;
    before_expiry = let h = c.c5 in ground arith;
    before_deadline = let h = c.c6 in ground arith;
    host = (host_in_iff _ _).0 c.c7;
    path = (path_allowed_iff _ _).0 c.c8;
    method = (any_iff _ _ (λ m. Method_eq.test_iff m req.method) _).0 c.c9;
    upstream = (host_in_iff _ _).0 c.c10;
    plane = (plane_check_iff _ _ _).0 c.c11a;
    uid = (peer_check_iff _ _).0 c.uid;
    pid = (peer_check_iff _ _).0 c.pid;
    sni = (sni_check_iff _ _).0 c.c12;
    requests = (quota_check_iff _ _ _).0 c.c13;
    bytes = (quota_check_iff _ _ _).0 c.c14;
    rate = (rate_check_iff _ _).0 c.c15;
    gate = c.c16;
    clocks = (clock_check_iff _ _ _ _).0 c.c17;
  }

  IsAuthorized→Passes : IsAuthorized → Passes
  unfolding policy_deadline
  IsAuthorized→Passes a = record {
    c2 = a.enabled;
    c3 = a.relay_live;
    c4 = a.bearer_live;
    c5 = let h = a.before_expiry in ground arith;
    c6 = let h = a.before_deadline in ground arith;
    c7 = (host_in_iff _ _).1 a.host;
    c8 = (path_allowed_iff _ _).1 a.path;
    c9 = (any_iff _ _ (λ m. Method_eq.test_iff m req.method) _).1 a.method;
    c10 = (host_in_iff _ _).1 a.upstream;
    c11a = (plane_check_iff _ _ _).1 a.plane;
    uid = (peer_check_iff _ _).1 a.uid;
    pid = (peer_check_iff _ _).1 a.pid;
    c12 = (sni_check_iff _ _).1 a.sni;
    c13 = (quota_check_iff _ _ _).1 a.requests;
    c14 = (quota_check_iff _ _ _).1 a.bytes;
    c15 = (rate_check_iff _ _).1 a.rate;
    c16 = a.gate;
    c17 = (clock_check_iff _ _ _ _).1 a.clocks;
  }

  -- `decide` allows a request exactly when it is authorized: the policy and the bearer are live on
  -- both clocks, host, path and method are listed, the host is canonical for the provider, the
  -- presented identity is the bound one, the budgets and the rate hold, and the gate is present.
  pub decide-allow_iff :
      (decide p b req now_ms boottime_now_ms gate_absent_since_ms issuance_floor_ms ≡ allow)
      ↔ IsAuthorized
  decide-allow_iff = ((λ h. Passes→IsAuthorized (passes h)), (λ a. allows (IsAuthorized→Passes a)))
