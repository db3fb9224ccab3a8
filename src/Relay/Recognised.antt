-- ===== src/Relay/Recognised.antt =====
-- A swap with a bearer that was minted.
use mathlib.Core.Path.{subst}
use envctl.Prelude.{
  ◌≡◌, refl, ap, ◌∙◌, false, Option, some, List, Bytes, pos, ℤ, ◌<ℤ◌, i64_max, IsI64,
}
use envctl.Broker.Policy.{RelayPolicy}
use envctl.Broker.Wire.{Crypto}
use envctl.Vault.Rows.{BearerRow, RelayPolicyRow}
use envctl.Relay.{
  EgressReq, EngineState, Moment, relay_swap_prepare, prepare_parsed, prepare_unlocked, prepare_row,
  prepare_policy, find_policy_by_id,
}
use envctl.Vault.Store.{load_relay_policy, save_relay_policy}
use envctl.Vault.Store.Policies.{HasDistinctIds, find-save_relay_policy}
use envctl.Relay.Mint.{
  BearerBinding, uid_of, pid_of, client_of, jkt_of, Entropy, Bearer, minted, mint_bearer_core,
  with_relay_id,
}
use envctl.Relay.Minted.{Minted, Outcome, IsDrawn, mint_bearer_core-Outcome}

-- The row that a mint leaves for the bearer `b` in the state `st'`, and the policy row that its policy
-- id stands for.
pub record IsRowOf (spec : RelayPolicy) (binding : BearerBinding) (m : Moment) (st' : EngineState)
    (b : Bearer) (row : BearerRow) (policy_row : RelayPolicyRow) : Type 0 where
  pub uid : row.client_uid ≡ uid_of binding
  pub pid : row.client_pid ≡ pid_of binding
  pub client : row.client_id ≡ client_of binding
  pub jkt : row.dpop_jkt ≡ jkt_of binding
  pub live : row.revoked ≡ false
  pub issued : row.issued_at_ms ≡ m.now_ms
  pub issued_boottime : row.issued_boottime_ms ≡ m.boottime_ms
  pub policy_id : policy_row.id ≡ row.policy_id
  pub policy : (relay_bytes : Bytes) × (policy_row.policy ≡ with_relay_id spec relay_bytes)
  pub relay : load_relay_policy b.relay_id st'.relays ≡ some policy_row

module _ (crypto : Crypto) (open_sealed : (dek aad nonce ct_tag : Bytes) → Option Bytes)
    (send : EgressReq → Bytes → Option Bytes) where
  authentic :
      (st st' : EngineState) (spec : RelayPolicy) (binding : BearerBinding) (m : Moment)
      (b : Bearer) (floor : ℤ) (req : EgressReq) (later : Moment)
      → (k : Minted crypto st spec binding m st' b)
      → prepare_row crypto open_sealed send st' k.dek floor b.token_id b.raw req later (some k.row)
        ≡ prepare_policy crypto open_sealed send st' k.dek floor b.token_id k.row req later
            (find_policy_by_id k.row.policy_id st'.relays)
  unfolding prepare_row
  authentic st st' spec binding m b floor req later k = rw (k.wire_authentic, k.row_authentic) refl

  recognised :
      (st st' : EngineState) (spec : RelayPolicy) (binding : BearerBinding) (m : Moment)
      (b : Bearer) (floor : ℤ) (req : EgressReq) (later : Moment)
      → (k : Minted crypto st spec binding m st' b) → st.issuance_floor_ms ≡ some floor
      → relay_swap_prepare crypto open_sealed send st' b.raw req later
        ≡ prepare_policy crypto open_sealed send st' k.dek floor b.token_id k.row req later
            (find_policy_by_id k.row.policy_id st'.relays)
  unfolding relay_swap_prepare prepare_parsed prepare_unlocked
  recognised st st' spec binding m b floor req later k f =
      ap (prepare_parsed crypto open_sealed send st' req later) k.parses
      ∙ ap
          (λ d.
            prepare_unlocked crypto open_sealed send st' b.token_id b.raw req later d
              st'.issuance_floor_ms)
          (k.same_dek ∙ k.unlocked)
      ∙ ap (prepare_unlocked crypto open_sealed send st' b.token_id b.raw req later (some k.dek))
          (k.same_floor ∙ f)
      ∙ ap (prepare_row crypto open_sealed send st' k.dek floor b.token_id b.raw req later) k.loaded
      ∙ authentic st st' spec binding m b floor req later k

  saved_policy :
      (relays relays' : List RelayPolicyRow) (id : ℤ) (policy : RelayPolicy)
      → HasDistinctIds relays
      → save_relay_policy (record { id = pos 0; policy = policy }) relays ≡ (relays', id)
      → find_policy_by_id id relays' ≡ some (record { id = id; policy = policy })
  unfolding find_policy_by_id
  saved_policy relays relays' id policy d e =
      subst
        (λ (p : List RelayPolicyRow × ℤ).
          find_policy_by_id p.1 p.0 ≡ some (record { id = p.1; policy = policy }))
        e (find-save_relay_policy (record { id = pos 0; policy = policy }) relays refl d)

  -- A swap that presents a bearer right after its mint gets through the parse, the row, both MACs and
  -- the lookup of the policy: what becomes of it is decided by prepare_policy on the minted row and the
  -- policy of the bearer's relay alone, whatever the request and the later moment. The row carries the
  -- mint's binding and moment and is live, and the policy is the requested one, its relay id filled in
  -- where it had none. The drawn token and secret are not empty, the clock is in front of the largest
  -- `i64`, an issuance floor is set, and the policies stored before the mint have distinct row ids.
  pub mint-relay_swap_prepare :
      (spec : RelayPolicy) (requested_ttl_secs : ℤ) (binding : BearerBinding) (random : Entropy)
      (m later : Moment) (st st' : EngineState) (b : Bearer) (floor : ℤ) (req : EgressReq)
      → IsDrawn random
      → IsI64 m.now_ms
      → m.now_ms <ℤ i64_max
      → HasDistinctIds st.relays
      → st.issuance_floor_ms ≡ some floor
      → mint_bearer_core crypto st spec requested_ttl_secs binding random m ≡ (st', minted b)
      → (dek : Bytes) × (row : BearerRow) × (policy_row : RelayPolicyRow) × (relay_swap_prepare
            crypto open_sealed send st' b.raw req later
          ≡ prepare_policy crypto open_sealed send st' dek floor b.token_id row req later
              (some policy_row))
        × IsRowOf spec binding m st' b row policy_row
  unfolding Outcome
  mint-relay_swap_prepare spec requested_ttl_secs binding random m later st st' b floor req drawn
        clock before_end distinct f e =
      let k : Minted crypto st spec binding m st' b = rw (e) at (
        mint_bearer_core-Outcome crypto spec requested_ttl_secs binding random m drawn clock
          before_end st) in
      let (relay_bytes, same_relay, saved, stored) = k.policy in
      let policy_row : RelayPolicyRow = record {
        id = k.row.policy_id;
        policy = with_relay_id spec relay_bytes;
      } in
      let found = saved_policy st.relays st'.relays k.row.policy_id _ distinct saved in
      (
        k.dek,
        k.row,
        policy_row,
        recognised st st' spec binding m b floor req later k f
            ∙ ap (prepare_policy crypto open_sealed send st' k.dek floor b.token_id k.row req later)
                found,
        record {
          uid = k.bound_uid;
          pid = k.bound_pid;
          client = k.bound_client;
          jkt = k.bound_jkt;
          live = k.live;
          issued = k.issued;
          issued_boottime = k.issued_boottime;
          policy_id = refl;
          policy = (relay_bytes, refl);
          relay = stored;
        },
      )
