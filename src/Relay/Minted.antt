-- ===== src/Relay/Minted.antt =====
-- What a mint that succeeds has checked, and what it leaves in the store.
use envctl.Prelude.{
  ◌<◌, ◌≡◌, ◌≢◌, refl, Bool, true, false, not, ◌&&◌, Option, none, some, [], ◌∷◌, Bytes, AllOf, ℤ,
  pos, ◌≤ℤ◌, ◌<ℤ◌, ◌+ℤ◌, i64_max, IsI64, saturating_mul, ==_refl, List_eq, ℕ_eq, Bool-cases, inl,
  inr,
}
use envctl.Hex.{hex_encode, b64url_nopad, hex_encode-alphanumeric}
use envctl.Broker.Policy.{RelayPolicy, clamp_ttl}
use envctl.Broker.Wire.{
  Crypto, parse_bearer, mac_bearer, mac_bearer_row, verify_bearer, verify_bearer_row,
  broker_hmac_key, broker_row_mac_key, is_some,
}
use envctl.Broker.Wire.Message.{row_message}
use envctl.Broker.Wire.Parse.{parse_bearer_iff}
use envctl.Vault.Rows.{BearerRow}
use envctl.Vault.Store.{save_relay_policy, load_bearer, load_relay_policy}
use envctl.Vault.Store.Upsert.{load_bearer-save_bearer_self, load_relay_policy-save_relay_policy}
use envctl.Relay.{EngineState, Moment, record_event}
use envctl.Relay.Mint.{
  BearerBinding, uid_of, pid_of, client_of, jkt_of, Entropy, Bearer, MintError, MintResult, minted,
  mint_failed, div_1000, with_relay_id, wire, refuse, minted_row, mint_stored, mint_clamped,
  mint_gated, mint_unlocked, mint_bearer_core,
}
use envctl.Relay.Expiry.{expiry_bounds}

-- What a mint that gave the bearer `b` has checked of the state `st`, and left in `st'`.
pub record Minted (crypto : Crypto) (st : EngineState) (spec : RelayPolicy)
    (binding : BearerBinding) (m : Moment) (st' : EngineState) (b : Bearer) : Type 0 where
  pub dek : Bytes
  pub row : BearerRow
  pub unlocked : st.dek ≡ some dek
  pub possession : m.presence_proven ≡ some true
  pub principal :
      (not (is_some (uid_of binding))
        && not (is_some (pid_of binding))
        && not (is_some (client_of binding)))
      ≡ false
  pub loaded : load_bearer b.token_id st'.bearers ≡ some row
  pub live : row.revoked ≡ false
  pub bound_uid : row.client_uid ≡ uid_of binding
  pub bound_pid : row.client_pid ≡ pid_of binding
  pub bound_client : row.client_id ≡ client_of binding
  pub bound_jkt : row.dpop_jkt ≡ jkt_of binding
  pub issued : row.issued_at_ms ≡ m.now_ms
  pub issued_boottime : row.issued_boottime_ms ≡ m.boottime_ms
  pub policy :
      (relay_bytes : Bytes) × (b.relay_id ≡ (with_relay_id spec relay_bytes).relay_id)
      × (save_relay_policy
            (record { id = pos 0; policy = with_relay_id spec relay_bytes })
            st.relays
          ≡ (st'.relays, row.policy_id))
      × (load_relay_policy b.relay_id st'.relays
          ≡ some (record { id = row.policy_id; policy = with_relay_id spec relay_bytes }))
  pub after : m.now_ms <ℤ row.expires_at_ms
  pub within_a_day : row.expires_at_ms ≤ℤ m.now_ms +ℤ pos 86400000
  pub wire_authentic : verify_bearer crypto (broker_hmac_key crypto dek) b.raw row.mac ≡ true
  pub row_authentic :
      verify_bearer_row crypto (broker_row_mac_key crypto dek) (row_message row) row.row_mac ≡ true
  pub parses : parse_bearer b.raw ≡ some (b.token_id, b.raw)
  pub nothing_sent : st'.sent ≡ st.sent
  pub same_dek : st'.dek ≡ st.dek
  pub same_floor : st'.issuance_floor_ms ≡ st.issuance_floor_ms

-- A mint that fails stores no policy and no bearer.
unfoldable pub Outcome :
    (crypto : Crypto) (st : EngineState) (spec : RelayPolicy) (binding : BearerBinding) (m : Moment)
    → EngineState × MintResult
    → Type 0
Outcome crypto st spec binding m (st', minted b) = Minted crypto st spec binding m st' b
Outcome crypto st spec binding m (st', mint_failed err) =
    (st'.bearers ≡ st.bearers) × (st'.relays ≡ st.relays) × (st'.sent ≡ st.sent)

hex_encode-cons : (bs : Bytes) → bs ≢ [] → hex_encode bs ≢ []
unfolding hex_encode
hex_encode-cons [] h e = h refl
hex_encode-cons (b ∷ bs) h e = cc

b64url_nopad-cons : (bs : Bytes) → bs ≢ [] → b64url_nopad bs ≢ []
unfolding b64url_nopad
b64url_nopad-cons [] h e = h refl
b64url_nopad-cons (a ∷ []) h e = cc
b64url_nopad-cons (a ∷ b ∷ []) h e = cc
b64url_nopad-cons (a ∷ b ∷ c ∷ s) h e = cc

refuse-Outcome :
    (crypto : Crypto) (st : EngineState) (spec : RelayPolicy) (binding : BearerBinding) (m : Moment)
    (verb relay_id reason : Bytes) (err : MintError)
    → Outcome crypto st spec binding m (refuse verb relay_id reason err st)
unfolding refuse record_event Outcome
refuse-Outcome crypto st spec binding m verb relay_id reason err = (refl, refl, refl)

-- The bytes of the generator, and the clock.
pub record IsDrawn (random : Entropy) : Type 0 where
  pub token_range : AllOf (λ b. b < 256) random.token_bytes
  pub token_some : random.token_bytes ≢ []
  pub secret_some : random.secret_bytes ≢ []

module _ (crypto : Crypto) (spec : RelayPolicy) (requested_ttl_secs : ℤ) (binding : BearerBinding)
    (random : Entropy) (m : Moment) (drawn : IsDrawn random) (clock : IsI64 m.now_ms)
    (before_end : m.now_ms <ℤ i64_max) where
  minted_row-wire :
      (dek token_id raw : Bytes) (policy_id expires_at_ms : ℤ)
      → verify_bearer crypto
          (broker_hmac_key crypto dek)
          raw
          (minted_row crypto dek token_id raw policy_id expires_at_ms binding m).mac
        ≡ true
  unfolding verify_bearer minted_row mac_bearer
  minted_row-wire dek token_id raw policy_id expires_at_ms =
      ==_refl {A = Bytes} (minted_row crypto dek token_id raw policy_id expires_at_ms binding m).mac

  minted_row-authentic :
      (dek token_id raw : Bytes) (policy_id expires_at_ms : ℤ)
      → let row = minted_row crypto dek token_id raw policy_id expires_at_ms binding m in
        verify_bearer_row crypto (broker_row_mac_key crypto dek) (row_message row) row.row_mac
        ≡ true
  unfolding verify_bearer_row minted_row mac_bearer_row row_message
  minted_row-authentic dek token_id raw policy_id expires_at_ms =
      ==_refl {A = Bytes}
        (minted_row crypto dek token_id raw policy_id expires_at_ms binding m).row_mac

  mint_stored-Minted :
      (st : EngineState) (dek : Bytes) (e : ℤ)
      → st.dek ≡ some dek
      → m.presence_proven ≡ some true
      → (not (is_some (uid_of binding))
          && not (is_some (pid_of binding))
          && not (is_some (client_of binding)))
        ≡ false
      → clamp_ttl (div_1000 m.now_ms) spec.policy_ttl_secs requested_ttl_secs ≡ some e
      → Outcome crypto st spec binding m (mint_stored crypto st dek spec e binding random m)
  unfolding mint_stored minted_row record_event Outcome verify_bearer verify_bearer_row wire
      row_message mac_bearer mac_bearer_row
  mint_stored-Minted st dek e u p n c =
      let token_id = hex_encode random.token_bytes in
      let raw = wire token_id (b64url_nopad random.secret_bytes) in
      let policy_id =
        (save_relay_policy (record { id = pos 0; policy = with_relay_id spec random.relay_bytes })
          st.relays).1 in
      let row = minted_row crypto dek token_id raw policy_id (saturating_mul e 1000) binding m in
      let bounds =
        expiry_bounds m.now_ms spec.policy_ttl_secs requested_ttl_secs e clock before_end c in
      record {
        dek = dek;
        row = row;
        unlocked = u;
        possession = p;
        principal = n;
        loaded = load_bearer-save_bearer_self row st.bearers;
        live = refl;
        bound_uid = refl;
        bound_pid = refl;
        bound_client = refl;
        bound_jkt = refl;
        issued = refl;
        issued_boottime = refl;
        policy = (random.relay_bytes, refl, refl, load_relay_policy-save_relay_policy _ st.relays);
        after = bounds.0;
        within_a_day = bounds.1;
        wire_authentic = minted_row-wire dek token_id raw policy_id (saturating_mul e 1000);
        row_authentic = minted_row-authentic dek token_id raw policy_id (saturating_mul e 1000);
        parses = (parse_bearer_iff raw (hex_encode random.token_bytes) raw).1 (
          b64url_nopad random.secret_bytes,
          refl,
          (
            hex_encode-cons random.token_bytes drawn.token_some,
            hex_encode-alphanumeric random.token_bytes drawn.token_range,
          ),
          b64url_nopad-cons random.secret_bytes drawn.secret_some,
          refl,
        );
        nothing_sent = refl;
        same_dek = refl;
        same_floor = refl;
      }

  mint_clamped-Outcome :
      (st : EngineState) (dek : Bytes) (o : Option ℤ)
      → st.dek ≡ some dek
      → m.presence_proven ≡ some true
      → (not (is_some (uid_of binding))
          && not (is_some (pid_of binding))
          && not (is_some (client_of binding)))
        ≡ false
      → clamp_ttl (div_1000 m.now_ms) spec.policy_ttl_secs requested_ttl_secs ≡ o
      → Outcome crypto st spec binding m (mint_clamped crypto st dek spec o binding random m)
  unfolding mint_clamped
  mint_clamped-Outcome st dek none u p n c = refuse-Outcome crypto st spec binding m _ _ _ _
  mint_clamped-Outcome st dek (some e) u p n c = mint_stored-Minted st dek e u p n c

  mint_gated-Outcome :
      (st : EngineState) (dek : Bytes) (o : Option Bool)
      → st.dek ≡ some dek
      → m.presence_proven ≡ o
      → (not (is_some (uid_of binding))
          && not (is_some (pid_of binding))
          && not (is_some (client_of binding)))
        ≡ false
      → Outcome crypto st spec binding m
          (mint_gated crypto st dek spec requested_ttl_secs binding random m o)
  unfolding mint_gated Outcome
  mint_gated-Outcome st dek none u p n = (refl, refl, refl)
  mint_gated-Outcome st dek (some false) u p n = refuse-Outcome crypto st spec binding m _ _ _ _
  mint_gated-Outcome st dek (some true) u p n = mint_clamped-Outcome st dek _ u p n refl

  mint_unlocked-Outcome :
      (st : EngineState) (o : Option Bytes)
      → st.dek ≡ o
      → Outcome crypto st spec binding m
          (mint_unlocked crypto st spec requested_ttl_secs binding random m o)
  unfolding mint_unlocked Outcome
  mint_unlocked-Outcome st none u = (refl, refl, refl)
  mint_unlocked-Outcome st (some dek) u =
      elim (Bool-cases (
        not (is_some (uid_of binding))
        && not (is_some (pid_of binding))
        && not (is_some (client_of binding)))) [
          | inl e ↦ rw (e) (refuse-Outcome crypto st spec binding m _ _ _ _)
          | inr e ↦ rw (e) (mint_gated-Outcome st dek m.presence_proven u refl e)
        ]

  -- A mint either fails and stores nothing, or: the vault was unlocked, possession was proven and the
  -- binding names a principal; the new row is found under the bearer's id, is live, carries the
  -- binding's uid, pid, client and key thumbprint and the mint's two clock readings, expires after
  -- the mint and within a day of it, and names the stored policy of the bearer's relay, which is the
  -- requested one, its relay id filled in where it had none; and the wire string parses back to the
  -- id and passes both MAC checks of a swap. The drawn token and secret are not empty, and the clock
  -- is in front of the largest `i64`.
  pub mint_bearer_core-Outcome :
      (st : EngineState)
      → Outcome crypto st spec binding m
          (mint_bearer_core crypto st spec requested_ttl_secs binding random m)
  unfolding mint_bearer_core
  mint_bearer_core-Outcome st = mint_unlocked-Outcome st st.dek refl
