-- ===== src/Relay/Swap.antt =====
-- When the swap hands a key to the upstream.
use envctl.Prelude.{
  ℕ, ◌≡◌, ◌⊎◌, inl, inr, refl, Bool, true, false, not, ◌&&◌, Option, none, some, List, [], ◌∷◌,
  ◌++◌, arith, Bytes, any, ℤ, if◌then◌else◌, List_eq, ℕ_eq, AnyOf,
}
use envctl.Text.{eq_ignore_ascii_case, SameHost}
use envctl.Broker.Policy.{RelayPolicy, canonical_upstreams}
use envctl.Broker.Decide.{RelayDecision, allow, deny, DenyReason, host_in}
use envctl.Broker.Decide.Exact.{decide-allow_iff, host_in_iff}
use envctl.Broker.Usage.{bump}
use envctl.Broker.Wire.{
  Crypto, parse_bearer, verify_bearer, verify_bearer_row, broker_hmac_key, broker_row_mac_key,
}
use envctl.Broker.Wire.Message.{row_message}
use envctl.Vault.Rows.{BearerRow, RelayPolicyRow}
use envctl.Vault.Store.{load_bearer}
use envctl.Relay.{
  EgressReq, EngineState, Moment, Prepared, prepare_err, prepare_deny, prepare_allow, Sent,
  SwapOutcome, decide_swap, verified, find_policy_by_id, canon, open_real_key, on_decision,
  prepare_gate, prepare_policy, prepare_row, prepare_unlocked, relay_swap_prepare, on_prepared,
  relay_swap, upstream_fence, deny_swap, record_event, prepare_opened, prepare_parsed, on_sent,
  swap_allowed, denied, internal_refused,
}

-- What the first half of the swap returns for the request `req`, on a state whose trace is `sent`:
-- the trace as it was, and a key only for a canonical host of the provider and only if `P` holds.
abbrev Prepares : (Bytes → Type 0) → List Sent → EgressReq → EngineState × Prepared → Type 0
Prepares P sent req (st, prepare_err) = st.sent ≡ sent
Prepares P sent req (st, prepare_deny reason) = st.sent ≡ sent
Prepares P sent req (st, prepare_allow a) =
    (st.sent ≡ sent)
    × (a.host ≡ req.host)
    × (host_in req.host (canonical_upstreams a.provider) ≡ true)
    × P a.real_key

decide_swap-canonical :
    (p : RelayPolicy) (row : BearerRow) (req : EgressReq) (usage : ℕ × ℕ × ℕ) (m : Moment)
    (proven : Bool) (floor : ℤ)
    → decide_swap p row req usage m proven floor ≡ allow
    → host_in req.host (canonical_upstreams p.provider) ≡ true
unfolding decide_swap canon
decide_swap-canonical p row req (a, b, c) m proven floor h =
    (host_in_iff req.host (canonical_upstreams p.provider)).1
      ((decide-allow_iff p (verified row) _ _ _ _ _).0 h).upstream

fence_lem :
    (host : Bytes) (hs : List Bytes)
    → host_in host hs ≡ true
    → any (λ h. eq_ignore_ascii_case h host && eq_ignore_ascii_case h host) hs ≡ true
unfolding host_in
fence_lem host [] e = e
fence_lem host (h ∷ hs) e = ground (arith, fence_lem host hs)

-- The outcomes that return no response of the upstream.
unfoldable pub IsRefusal : SwapOutcome → Type 0
IsRefusal (swap_allowed resp) = ⊥
IsRefusal (denied reason) = Unit
IsRefusal internal_refused = Unit

module _ (crypto : Crypto) (open_sealed : (dek aad nonce ct_tag : Bytes) → Option Bytes)
    (send : EgressReq → Bytes → Option Bytes) (req : EgressReq) (m : Moment) where
  -- The key of the policy's secret, under a decision that allows the request.
  pub record Decided (st : EngineState) (dek : Bytes) (floor : ℤ) (row : BearerRow)
      (p : RelayPolicy) (key : Bytes) : Type 0 where
    pub proven : Bool
    pub gate : m.presence_proven ≡ some proven
    pub allowed :
        decide_swap p row req (bump st.broker row.token_id m.now_ms req.bytes_out).1 m proven floor
        ≡ allow
    pub opened : open_real_key crypto open_sealed send dek p.secret_name st.secrets.rows ≡ some key

  -- What stands behind a key that is sent: an unlocked vault, a stored bearer whose two MACs hold, its
  -- policy, and a decision that allows this request at this moment.
  pub record Backed (st : EngineState) (bearer : Bytes) (key : Bytes) : Type 0 where
    pub token_id : Bytes
    pub raw : Bytes
    pub dek : Bytes
    pub floor : ℤ
    pub row : BearerRow
    pub policy_row : RelayPolicyRow
    pub parsed : parse_bearer bearer ≡ some (token_id, raw)
    pub unlocked : st.dek ≡ some dek
    pub floor_known : st.issuance_floor_ms ≡ some floor
    pub loaded : load_bearer token_id st.bearers ≡ some row
    pub mac : verify_bearer crypto (broker_hmac_key crypto dek) raw row.mac ≡ true
    pub row_mac :
        verify_bearer_row crypto (broker_row_mac_key crypto dek) (row_message row) row.row_mac
        ≡ true
    pub policy : find_policy_by_id row.policy_id st.relays ≡ some policy_row
    pub decided : Decided st dek floor row policy_row.policy key

  module _ (P : Bytes → Type 0) where
    opened-lem :
        (st : EngineState) (row : BearerRow) (p : RelayPolicy) (o : Option Bytes)
        → host_in req.host (canonical_upstreams p.provider) ≡ true
        → ((key : Bytes) → o ≡ some key → P key)
        → Prepares P st.sent req (prepare_opened crypto open_sealed send st row p req o)
    unfolding prepare_opened
    opened-lem st row p none c f = refl
    opened-lem st row p (some key) c f = (refl, refl, c, f key refl)

    decision-lem :
        (st : EngineState) (dek : Bytes) (row : BearerRow) (p : RelayPolicy) (d : RelayDecision)
        → (d ≡ allow → host_in req.host (canonical_upstreams p.provider) ≡ true)
        → (d ≡ allow
            → (key : Bytes)
            → open_real_key crypto open_sealed send dek p.secret_name st.secrets.rows ≡ some key
            → P key)
        → Prepares P st.sent req (on_decision crypto open_sealed send st dek row p req d)
    unfolding on_decision deny_swap record_event
    decision-lem st dek row p (deny reason) c f = refl
    decision-lem st dek row p allow c f = opened-lem st row p _ (c refl) (f refl)

    gate-lem :
        (st : EngineState) (dek : Bytes) (floor : ℤ) (row : BearerRow) (p : RelayPolicy)
        (o : Option Bool)
        → m.presence_proven ≡ o
        → ((key : Bytes) → Decided st dek floor row p key → P key)
        → Prepares P st.sent req (prepare_gate crypto open_sealed send st dek floor row p req m o)
    unfolding prepare_gate
    gate-lem st dek floor row p none e f = refl
    gate-lem st dek floor row p (some proven) e f =
        let (broker, usage) = bump st.broker row.token_id m.now_ms req.bytes_out in
        decision-lem (record st { broker = broker }) dek row p
          (decide_swap p row req usage m proven floor)
          (decide_swap-canonical p row req usage m proven floor)
          (λ allowed key opened.
            f key (record { proven = proven; gate = e; allowed = allowed; opened = opened }))

    policy-lem :
        (st : EngineState) (dek : Bytes) (floor : ℤ) (token_id : Bytes) (row : BearerRow)
        (o : Option RelayPolicyRow)
        → ((pr : RelayPolicyRow)
            → o ≡ some pr
            → (key : Bytes) → Decided st dek floor row pr.policy key
            → P key)
        → Prepares P st.sent req
            (prepare_policy crypto open_sealed send st dek floor token_id row req m o)
    unfolding prepare_policy deny_swap record_event
    policy-lem st dek floor token_id row none f = refl
    policy-lem st dek floor token_id row (some pr) f =
        gate-lem st dek floor row pr.policy m.presence_proven refl (f pr refl)

    -- The tests of the two MACs, on their results.
    macs-lem :
        (st : EngineState) (token_id : Bytes) (r : EngineState × Prepared) (mac row_mac : Bool)
        → (mac ≡ true → row_mac ≡ true → Prepares P st.sent req r)
        → Prepares P st.sent req (
            if not mac
            then deny_swap st none (some token_id) DenyReason.unknown_bearer
            else if not row_mac
            then deny_swap st none (some token_id) DenyReason.unknown_bearer
            else r)
    unfolding deny_swap record_event
    macs-lem st token_id r true true f = f refl refl
    macs-lem st token_id r true false f = refl
    macs-lem st token_id r false row_mac f = refl

  relay_swap_prepare-lem :
      (st : EngineState) (bearer : Bytes)
      → Prepares
          (Backed st bearer)
          st.sent
          req
          (relay_swap_prepare crypto open_sealed send st bearer req m)
  unfolding relay_swap_prepare prepare_parsed prepare_unlocked prepare_row deny_swap record_event
  relay_swap_prepare-lem st bearer = parsed_lem (parse_bearer bearer) refl
    where
      row_lem :
          (token_id raw dek : Bytes) (floor : ℤ) (o : Option BearerRow)
          → parse_bearer bearer ≡ some (token_id, raw)
          → st.dek ≡ some dek
          → st.issuance_floor_ms ≡ some floor
          → load_bearer token_id st.bearers ≡ o
          → Prepares
              (Backed st bearer)
              st.sent
              req
              (prepare_row crypto open_sealed send st dek floor token_id raw req m o)
      row_lem token_id raw dek floor none e d g l = refl
      row_lem token_id raw dek floor (some row) e d g l =
          macs-lem (Backed st bearer) st token_id _ _ _ (λ mac row_mac.
            policy-lem (Backed st bearer) st dek floor token_id row _ (λ pr policy key decided.
              record {
                token_id = token_id;
                raw = raw;
                dek = dek;
                floor = floor;
                row = row;
                policy_row = pr;
                parsed = e;
                unlocked = d;
                floor_known = g;
                loaded = l;
                mac = mac;
                row_mac = row_mac;
                policy = policy;
                decided = decided;
              }))

      unlocked_lem :
          (token_id raw : Bytes) (d : Option Bytes) (g : Option ℤ)
          → parse_bearer bearer ≡ some (token_id, raw)
          → st.dek ≡ d
          → st.issuance_floor_ms ≡ g
          → Prepares
              (Backed st bearer)
              st.sent
              req
              (prepare_unlocked crypto open_sealed send st token_id raw req m d g)
      unlocked_lem token_id raw none g e hd hg = refl
      unlocked_lem token_id raw (some dek) none e hd hg = refl
      unlocked_lem token_id raw (some dek) (some floor) e hd hg =
          row_lem token_id raw dek floor _ e hd hg refl

      parsed_lem :
          (o : Option (Bytes × Bytes))
          → parse_bearer bearer ≡ o
          → Prepares
              (Backed st bearer)
              st.sent
              req
              (prepare_parsed crypto open_sealed send st req m o)
      parsed_lem none e = refl
      parsed_lem (some (token_id, raw)) e =
          unlocked_lem token_id raw st.dek st.issuance_floor_ms e refl refl

  -- The result of a swap: either nothing was sent, and the outcome is a refusal; or one key was sent,
  -- to the request's host, which is canonical for the provider of the policy that backs the key.
  unfoldable pub Accounted : EngineState → Bytes → EngineState × SwapOutcome → Type 0
  Accounted st bearer (st', out) =
      ((st'.sent ≡ st.sent) × IsRefusal out)
      ⊎ (key : Bytes) × (b : Backed st bearer key) × (st'.sent
          ≡ st.sent ++ record { to_host = req.host; key = key } ∷ [])
        × AnyOf (λ h. SameHost h req.host) (canonical_upstreams b.policy_row.policy.provider)

  canonical_lem :
      (st : EngineState) (bearer key : Bytes) (b : Backed st bearer key)
      → AnyOf (λ h. SameHost h req.host) (canonical_upstreams b.policy_row.policy.provider)
  canonical_lem st bearer key b =
      (host_in_iff req.host (canonical_upstreams b.policy_row.policy.provider)).0 (
        decide_swap-canonical b.policy_row.policy b.row req _ m b.decided.proven b.floor
          b.decided.allowed)

  on_sent-lem :
      (st : EngineState) (bearer : Bytes) (s : EngineState) (key : Bytes) (b : Backed st bearer key)
      (o : Option Bytes)
      → s.sent ≡ st.sent ++ record { to_host = req.host; key = key } ∷ []
      → Accounted st bearer (on_sent crypto open_sealed send s o)
  unfolding on_sent record_event Accounted
  on_sent-lem st bearer s key b none e = inr (key, b, e, canonical_lem st bearer key b)
  on_sent-lem st bearer s key b (some resp) e = inr (key, b, e, canonical_lem st bearer key b)

  on_prepared-lem :
      (st : EngineState) (bearer : Bytes) (s : EngineState) (prepared : Prepared)
      → Prepares (Backed st bearer) st.sent req (s, prepared)
      → Accounted st bearer (on_prepared crypto open_sealed send req s prepared)
  unfolding on_prepared record_event Accounted IsRefusal
  on_prepared-lem st bearer s prepare_err h = inl (h, tt)
  on_prepared-lem st bearer s (prepare_deny reason) h = inl (h, tt)
  on_prepared-lem st bearer s (prepare_allow a) (same, host, c, b) =
      let fence : upstream_fence crypto open_sealed send a req ≡ true =
        unfold upstream_fence in
        rw (host, fence_lem req.host (canonical_upstreams a.provider) c) refl in
      rw (fence) (on_sent-lem st bearer _ a.real_key b (send req a.real_key) (rw same refl))

  -- A swap hands a key to the upstream only when the vault is unlocked, the bearer parses and both its
  -- MACs hold, its policy is stored and the decision allows the request, and then only that policy's
  -- key, to a canonical host of its provider. In every other case nothing is sent and the outcome is
  -- a refusal.
  pub relay_swap-Accounted :
      (st : EngineState) (bearer : Bytes)
      → Accounted st bearer (relay_swap crypto open_sealed send st bearer req m)
  unfolding relay_swap
  relay_swap-Accounted st bearer = on_prepared-lem st bearer _ _ (relay_swap_prepare-lem st bearer)
