-- ===== src/Relay.antt =====
-- The engine's relay path (crates/secrets-engine/src/lib.rs): the swap of a bearer for the real key.
-- The vault's open of a sealed record (an AEAD) and the upstream's `send` are parameters; the clock and the presence gate are read once, as a `Moment`. Each handler
-- runs on the whole state and returns the next one; its audit rows are kept as the events that they
-- record (their hash chain is in Audit), and `sent` is the trace of what was handed to the upstream.
-- A store or an audit write that fails is not represented, as the in-memory store fails only on a
-- poisoned lock.
pub mod Swap
pub mod Revocation
pub mod Revoke
pub mod Mint
pub mod Expiry
pub mod Minted
pub mod Recognised
pub mod Remote
pub mod Relays
pub mod Dead
mod Tests
use envctl.Prelude.{
  ℕ, Bool, true, false, not, ◌&&◌, Option, none, some, List, [], ◌∷◌, ◌++◌, if◌then◌else◌, Bytes,
  codes, any, ℤ, pos, eqb_ℤ, List_eq, ℕ_eq,
}
use envctl.Text.{eq_ignore_ascii_case}
use envctl.Broker.Policy.{
  Method, Provider, RelayPolicy, SwapMode, proxy_mitm, base_url_repoint, native_sub_token,
  canonical_upstreams,
}
use envctl.Broker.Gate.{GateState, present, unproven, gate_absent_since_ms}
use envctl.Broker.Decide.{
  VerifiedBearer, CanonRequest, RelayDecision, allow, deny, DenyReason, decide,
}
use envctl.Broker.Usage.{Broker, bump}
use envctl.Broker.Wire.{
  Crypto, parse_bearer, verify_bearer, verify_bearer_row, mac_bearer_row, broker_hmac_key,
  broker_row_mac_key,
}
use envctl.Broker.Wire.Message.{row_message}
use envctl.Vault.Rows.{BearerRow, RelayPolicyRow, SecretRow}
use envctl.Vault.Aad.{record_aad, secret_version}
use envctl.Vault.Store.{Secrets, find, load_bearer, save_bearer, get_secret_latest}

pub record EgressReq : Type 0 where
  pub method : Method
  pub host : Bytes
  pub path : Bytes
  pub headers : List (Bytes × Bytes)
  pub bytes_out : ℕ
  pub peer_uid : Option ℕ
  pub peer_pid : Option ℕ
  pub observed_sni : Option Bytes

-- What an audit row of the relay path records: the outcome of a swap, a revocation, or a mint.
pub data RelayEvent : Type 0 where
  swap_denied : (relay_id token_id : Option Bytes) (reason : DenyReason) → RelayEvent
  swap_internal swap_fenced swap_sent swap_upstream_failed : RelayEvent
  bearer_revoked : (token_id : Bytes) (apply : Bool) (count : ℕ) → RelayEvent
  relay_revoked : (relay_id : Bytes) (apply : Bool) (count : ℕ) → RelayEvent
  mint_refused : (verb relay_id reason : Bytes) → RelayEvent
  relay_minted : (relay_id token_id : Bytes) (expires_at_ms : ℤ) → RelayEvent

-- A key that was handed to the upstream, with the request's host.
pub record Sent : Type 0 where
  pub to_host : Bytes
  pub key : Bytes

-- `dek` is there while the vault is unlocked; a floor that is missing or garbled is `none`.
pub record EngineState : Type 0 where
  pub dek : Option Bytes
  pub issuance_floor_ms : Option ℤ
  pub relays : List RelayPolicyRow
  pub bearers : List BearerRow
  pub secrets : Secrets
  pub broker : Broker
  pub events : List RelayEvent
  pub sent : List Sent

-- What the handler reads of the host; a gate that cannot be resolved is `none`.
pub record Moment : Type 0 where
  pub now_ms : ℤ
  pub boottime_ms : ℤ
  pub presence_proven : Option Bool

pub record AllowPrepared : Type 0 where
  pub relay_id : Bytes
  pub token_id : Bytes
  pub provider : Provider
  pub host : Bytes
  pub real_key : Bytes

-- `Err` is an internal error, which the caller refuses.
pub data Prepared : Type 0 where
  prepare_err : Prepared
  prepare_deny : DenyReason → Prepared
  prepare_allow : AllowPrepared → Prepared

pub data SwapOutcome : Type 0 where
  swap_allowed : (resp : Bytes) → SwapOutcome
  denied : DenyReason → SwapOutcome
  internal_refused : SwapOutcome

-- `untrusted-sni-not-observed` after a NUL, which no host name has.
unfoldable pub trusted_sni_for : SwapMode → EgressReq → Option Bytes
trusted_sni_for proxy_mitm req = elim req.observed_sni [
  | none ↦ some (0 ∷ codes "untrusted-sni-not-observed")
  | some sni ↦ some sni
]
trusted_sni_for (base_url_repoint upstream_base) req = none
trusted_sni_for (native_sub_token ttl_secs) req = none

unfoldable pub find_policy_by_id : ℤ → List RelayPolicyRow → Option RelayPolicyRow
unfolding find
find_policy_by_id policy_id relays = find (λ r. eqb_ℤ r.id policy_id) relays

unfoldable pub verified : BearerRow → VerifiedBearer
verified row = record {
  policy_id = row.policy_id;
  token_id = row.token_id;
  expires_at_ms = row.expires_at_ms;
  issued_at_ms = row.issued_at_ms;
  issued_boottime_ms = row.issued_boottime_ms;
  client_uid = row.client_uid;
  client_pid = row.client_pid;
  client_id = row.client_id;
  dpop_jkt = row.dpop_jkt;
  revoked = row.revoked;
}

-- The request with the usage that `bump` reports; the local plane has no remote context.
unfoldable pub canon : RelayPolicy → EgressReq → ℕ × ℕ × ℕ → CanonRequest
canon p req (total_requests, total_bytes, rate_in_window) = record {
  method = req.method;
  host = req.host;
  sni = trusted_sni_for p.swap req;
  path = req.path;
  bytes_out = req.bytes_out;
  peer_uid = req.peer_uid;
  peer_pid = req.peer_pid;
  usage_requests = total_requests;
  usage_bytes = total_bytes;
  rate_in_window = rate_in_window;
  remote = none;
}

unfoldable pub record_event : RelayEvent → EngineState → EngineState
record_event e st = record st { events = st.events ++ e ∷ [] }

unfoldable pub deny_swap :
    EngineState → (relay_id token_id : Option Bytes) → DenyReason → EngineState × Prepared
deny_swap st relay_id token_id reason =
    (record_event (swap_denied relay_id token_id reason) st, prepare_deny reason)

abbrev pub gate_state : Bool → GateState
gate_state true = present
gate_state false = unproven

-- The decision on a bearer row, its policy and the usage, as the handler calls it.
unfoldable pub decide_swap :
    RelayPolicy
    → BearerRow
    → EgressReq
    → ℕ × ℕ × ℕ
    → Moment
    → (proven : Bool) (floor : ℤ) → RelayDecision
decide_swap p row req usage m proven floor =
    decide p (verified row) (canon p req usage) m.now_ms m.boottime_ms
      (gate_absent_since_ms (gate_state proven) m.now_ms) floor

module _ (crypto : Crypto) (open_sealed : (dek aad nonce ct_tag : Bytes) → Option Bytes)
    (send : EgressReq → Bytes → Option Bytes) where
  unfoldable pub open_real_key : Bytes → Bytes → List SecretRow → Option Bytes
  open_real_key dek secret_name rows = elim (get_secret_latest secret_name rows) [
    | none ↦ none
    | some row ↦
        open_sealed dek (record_aad secret_version row.row_id (pos row.version) row.dek_generation)
          row.nonce row.ct_tag
  ]

  -- The opened key, with what the send site needs; a key that does not open is an error.
  unfoldable pub prepare_opened :
      EngineState → BearerRow → RelayPolicy → EgressReq → Option Bytes → EngineState × Prepared
  prepare_opened st row p req none = (st, prepare_err)
  prepare_opened st row p req (some key) = (
    st,
    prepare_allow (record {
      relay_id = p.relay_id;
      token_id = row.token_id;
      provider = p.provider;
      host = req.host;
      real_key = key;
    }),
  )

  -- The `match decide(..)` at the end: the key is opened only here.
  unfoldable pub on_decision :
      EngineState
      → Bytes
      → BearerRow
      → RelayPolicy
      → EgressReq
      → RelayDecision
      → EngineState × Prepared
  on_decision st dek row p req (deny reason) =
      deny_swap st (some p.relay_id) (some row.token_id) reason
  on_decision st dek row p req allow =
      prepare_opened st row p req (open_real_key dek p.secret_name st.secrets.rows)

  -- From the presence gate on: count the request, then decide.
  unfoldable pub prepare_gate :
      EngineState
      → Bytes
      → ℤ
      → BearerRow
      → RelayPolicy
      → EgressReq
      → Moment
      → Option Bool
      → EngineState × Prepared
  prepare_gate st dek floor row p req m none = (st, prepare_err)
  prepare_gate st dek floor row p req m (some proven) =
      let (broker, usage) = bump st.broker row.token_id m.now_ms req.bytes_out in
      on_decision (record st { broker = broker }) dek row p req
        (decide_swap p row req usage m proven floor)

  unfoldable pub prepare_policy :
      EngineState
      → Bytes
      → ℤ
      → Bytes
      → BearerRow
      → EgressReq
      → Moment
      → Option RelayPolicyRow
      → EngineState × Prepared
  prepare_policy st dek floor token_id row req m none =
      deny_swap st none (some token_id) DenyReason.unknown_bearer
  prepare_policy st dek floor token_id row req m (some policy_row) =
      prepare_gate st dek floor row policy_row.policy req m m.presence_proven

  -- The two MACs: of the wire string, then of the row.
  unfoldable pub prepare_row :
      EngineState
      → Bytes
      → ℤ
      → (token_id raw : Bytes) → EgressReq
      → Moment
      → Option BearerRow
      → EngineState × Prepared
  prepare_row st dek floor token_id raw req m none =
      deny_swap st none (some token_id) DenyReason.unknown_bearer
  prepare_row st dek floor token_id raw req m (some row) =
      if not (verify_bearer crypto (broker_hmac_key crypto dek) raw row.mac)
      then deny_swap st none (some token_id) DenyReason.unknown_bearer
      else if not
          (verify_bearer_row crypto (broker_row_mac_key crypto dek) (row_message row) row.row_mac)
      then deny_swap st none (some token_id) DenyReason.unknown_bearer
      else prepare_policy st dek floor token_id row req m
          (find_policy_by_id row.policy_id st.relays)

  -- The vault's key and the issuance floor; either may be missing.
  unfoldable pub prepare_unlocked :
      EngineState
      → (token_id raw : Bytes) → EgressReq
      → Moment
      → (dek : Option Bytes) (floor : Option ℤ) → EngineState × Prepared
  prepare_unlocked st token_id raw req m none floor = (st, prepare_err)
  prepare_unlocked st token_id raw req m (some dek) none = (st, prepare_err)
  prepare_unlocked st token_id raw req m (some dek) (some floor) =
      prepare_row st dek floor token_id raw req m (load_bearer token_id st.bearers)

  unfoldable pub prepare_parsed :
      EngineState → EgressReq → Moment → Option (Bytes × Bytes) → EngineState × Prepared
  prepare_parsed st req m none = deny_swap st none none DenyReason.unknown_bearer
  prepare_parsed st req m (some (token_id, raw)) =
      prepare_unlocked st token_id raw req m st.dek st.issuance_floor_ms

  unfoldable pub relay_swap_prepare :
      EngineState → Bytes → EgressReq → Moment → EngineState × Prepared
  relay_swap_prepare st bearer req m = prepare_parsed st req m (parse_bearer bearer)

  -- The fence at the send site.
  unfoldable pub upstream_fence : AllowPrepared → EgressReq → Bool
  upstream_fence a req =
      any (λ h. eq_ignore_ascii_case h req.host && eq_ignore_ascii_case h a.host)
        (canonical_upstreams a.provider)

  -- What the upstream answered.
  unfoldable pub on_sent : EngineState → Option Bytes → EngineState × SwapOutcome
  on_sent st (some resp) = (record_event swap_sent st, swap_allowed resp)
  on_sent st none = (record_event swap_upstream_failed st, internal_refused)

  unfoldable pub on_prepared : EgressReq → EngineState → Prepared → EngineState × SwapOutcome
  on_prepared req st prepare_err = (record_event swap_internal st, internal_refused)
  on_prepared req st (prepare_deny reason) = (st, denied reason)
  on_prepared req st (prepare_allow a) =
      let st' = record st {
        sent = st.sent ++ record { to_host = req.host; key = a.real_key } ∷ [];
      } in
      if not (upstream_fence a req)
      then (record_event swap_fenced st, internal_refused)
      else on_sent st' (send req a.real_key)

  unfoldable pub relay_swap : EngineState → Bytes → EgressReq → Moment → EngineState × SwapOutcome
  relay_swap st bearer req m =
      let (st', prepared) = relay_swap_prepare st bearer req m in on_prepared req st' prepared
