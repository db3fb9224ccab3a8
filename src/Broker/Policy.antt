-- ===== src/Broker/Policy.antt =====
-- crates/secrets-engine/src/broker/policy.rs: relay policies, the frozen upstream hosts of each
-- provider, and the TTL choke point. Texts are lists of bytes, an `i64` is an integer.
use mathlib.Core.Bool.{decide, decide_iff}
use envctl.Prelude.{
  ℕ, ◌*◌, Bool, Option, none, some, List, [], ◌∷◌, PartialEq, Bytes, codes, if◌then◌else◌, ℤ, pos,
  leb_ℤ, min_ℤ, saturating_add,
}

pub data Provider : Type 0 where
  anthropic openai github generic : Provider

-- The only hosts to which a provider's key may go.
unfoldable pub canonical_upstreams : Provider → List Bytes
canonical_upstreams anthropic = codes "api.anthropic.com" ∷ []
canonical_upstreams openai = codes "api.openai.com" ∷ []
canonical_upstreams github = codes "api.github.com" ∷ codes "uploads.github.com" ∷ []
canonical_upstreams generic = []

pub data Method : Type 0 where
  get head post put patch delete connect options : Method

unfoldable pub Method-discrete : Discrete Method
Method-discrete = hlevel

instance abbrev pub Method_eq : PartialEq Method
Method_eq = record {
  test = λ a b. decide (Method-discrete a b);
  test_iff = λ a b. decide_iff (Method-discrete a b);
}

pub data RelayKind : Type 0 where
  named ephemeral : RelayKind

pub data SwapMode : Type 0 where
  base_url_repoint : (upstream_base : Bytes) → SwapMode
  proxy_mitm : SwapMode
  native_sub_token : (ttl_secs : ℤ) → SwapMode

pub record RelayPolicy : Type 0 where
  pub relay_id : Bytes
  pub kind : RelayKind
  pub provider : Provider
  pub secret_name : Bytes
  pub swap : SwapMode
  pub host_allow : List Bytes
  pub path_allow : List Bytes
  pub method_allow : List Method
  pub policy_ttl_secs : ℤ
  pub rate_per_min : Option ℕ
  pub quota_total_requests : Option ℕ
  pub quota_total_bytes : Option ℕ
  pub enabled : Bool
  pub revoked : Bool

abbrev pub max_bearer_ttl_secs : ℤ
max_bearer_ttl_secs = pos (24 * 60 * 60)

-- The expiry in seconds, or `none` to refuse.
unfoldable pub clamp_ttl : ℤ → ℤ → ℤ → Option ℤ
clamp_ttl now policy_ttl_secs requested_ttl_secs =
    let ttl = min_ℤ (min_ℤ requested_ttl_secs policy_ttl_secs) max_bearer_ttl_secs in
    if leb_ℤ ttl (pos 0) then none else some (saturating_add now ttl)
