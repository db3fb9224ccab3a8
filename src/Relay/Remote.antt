-- ===== src/Relay/Remote.antt =====
-- `relay_mint_remote` of crates/secrets-engine/src/lib.rs against the registry of remote clients.
use envctl.Prelude.{
  ◌≡◌, refl, ap, Bool, true, false, not, ◌&&◌, Option, none, some, Bytes, arith, ℤ, ◌<ℤ◌, i64_max,
  IsI64, ◌==◌, ==_iff, List_eq, ℕ_eq, Bool-cases, inl, inr, List,
}
use envctl.Broker.Policy.{RelayPolicy}
use envctl.Broker.Wire.{Crypto, is_some}
use envctl.Vault.Rows.{RemoteClient}
use envctl.Vault.Store.{load_remote_client}
use envctl.Relay.{EngineState, Moment}
use envctl.Relay.Mint.{
  remote_client, Entropy, Bearer, MintResult, MintError, minted, mint_failed, refuse,
  mint_bearer_core, mint_registered, relay_mint_remote,
}
use envctl.Relay.Minted.{Minted, Outcome, IsDrawn, mint_bearer_core-Outcome}

-- The client is registered with this key, enabled and not revoked.
pub record IsRegistered (clients : List RemoteClient) (client_id dpop_jkt : Bytes) : Type 0 where
  pub client : RemoteClient
  pub stored : load_remote_client client_id clients ≡ some client
  pub enabled : client.enabled ≡ true
  pub unrevoked : client.revoked_at_ms ≡ none
  pub same_key : client.dpop_jkt ≡ dpop_jkt

failed_mint :
    (st st' : EngineState) (e : MintError) (b : Bearer)
    → ◌≡◌ {A = EngineState × MintResult} (st, mint_failed e) (st', minted b)
    → ⊥
failed_mint st st' e b h = mismatch (ap (λ p. p.1) h)
  where
    mismatch : ◌≡◌ {A = MintResult} (mint_failed e) (minted b) → ⊥
    mismatch k = cc

not_some : (o : Option ℤ) → is_some o ≡ false → o ≡ none
not_some none h = refl
not_some (some x) h = cc

three : (a b c : Bool) → (a && not b && c) ≡ true → (a ≡ true) × (b ≡ false) × (c ≡ true)
three a b c h = ground arith

module _ (crypto : Crypto) (spec : RelayPolicy) (requested_ttl_secs : ℤ)
    (client_id dpop_jkt : Bytes) (random : Entropy) (m : Moment) (drawn : IsDrawn random)
    (clock : IsI64 m.now_ms) (before_end : m.now_ms <ℤ i64_max) where
  -- A remote mint gives a bearer only to a client that is registered with the presented key, enabled
  -- and not revoked; the bearer is then minted as the core mints it, bound to that client.
  pub relay_mint_remote-IsRegistered :
      (clients : List RemoteClient) (st st' : EngineState) (b : Bearer)
      → relay_mint_remote crypto clients st spec requested_ttl_secs client_id dpop_jkt random m
        ≡ (st', minted b)
      → IsRegistered clients client_id dpop_jkt
        × Minted crypto st spec (remote_client client_id dpop_jkt) m st' b
  unfolding relay_mint_remote mint_registered refuse Outcome
  relay_mint_remote-IsRegistered clients st st' b h =
      loaded (load_remote_client client_id clients) refl h
    where
      minted_lem :
          mint_bearer_core crypto st spec requested_ttl_secs
              (remote_client client_id dpop_jkt)
              random
              m
            ≡ (st', minted b)
          → Minted crypto st spec (remote_client client_id dpop_jkt) m st' b
      minted_lem e = rw (e) at (
          mint_bearer_core-Outcome crypto spec requested_ttl_secs (remote_client client_id dpop_jkt)
            random m drawn clock before_end st)

      loaded :
          (o : Option RemoteClient)
          → load_remote_client client_id clients ≡ o
          → mint_registered crypto st spec requested_ttl_secs client_id dpop_jkt random m o
            ≡ (st', minted b)
          → IsRegistered clients client_id dpop_jkt
            × Minted crypto st spec (remote_client client_id dpop_jkt) m st' b
      loaded none e k = absurd (failed_mint _ st' _ b k)
      loaded (some c) e k =
          elim (Bool-cases (c.enabled && not (is_some c.revoked_at_ms) && c.dpop_jkt == dpop_jkt)) [
            | inl good ↦
                let (on, live, key) =
                  three c.enabled (is_some c.revoked_at_ms) (c.dpop_jkt == dpop_jkt) good in
                (
                  record {
                    client = c;
                    stored = e;
                    enabled = on;
                    unrevoked = not_some c.revoked_at_ms live;
                    same_key = (==_iff c.dpop_jkt dpop_jkt).0 key;
                  },
                  minted_lem (rw (good) at k),
                )
            | inr bad ↦ absurd (failed_mint _ st' _ b (rw (bad) at k))
          ]
