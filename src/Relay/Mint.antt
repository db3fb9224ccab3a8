-- ===== src/Relay/Mint.antt =====
-- The mint of a bearer, on both planes: `mint_bearer_core`, `relay_mint` and `relay_mint_remote` of
-- crates/secrets-engine/src/lib.rs. The random bytes are arguments, and so are the registered remote
-- clients, which a mint only reads. The expiry's text form is not represented.
use envctl.Prelude.{
  ℕ, ◌/◌, Bool, true, false, not, ◌&&◌, Option, none, some, List, [], ◌∷◌, ◌++◌, if◌then◌else◌,
  Bytes, codes, is_empty, ℤ, pos, negsuc, saturating_mul, ◌==◌, List_eq, ℕ_eq,
}
use envctl.Hex.{hex_encode, b64url_nopad}
use envctl.Broker.Policy.{RelayPolicy, RelayKind, named, ephemeral, clamp_ttl}
use envctl.Broker.Wire.{
  Crypto, bearer_prefix, mac_bearer, mac_bearer_row, broker_hmac_key, broker_row_mac_key, is_some,
}
use envctl.Broker.Wire.Message.{row_message}
use envctl.Vault.Rows.{BearerRow, RemoteClient}
use envctl.Vault.Store.{save_relay_policy, save_bearer, load_remote_client}
use envctl.Relay.{EngineState, Moment, record_event, mint_refused, relay_minted}

-- `BearerBinding`
pub data BearerBinding : Type 0 where
  local_peer : (peer_uid peer_pid : Option ℕ) → BearerBinding
  remote_client : (client_id dpop_jkt : Bytes) → BearerBinding

-- What the operating system's generator gives a mint: 8, 16 and 32 bytes.
pub record Entropy : Type 0 where
  pub relay_bytes : Bytes
  pub token_bytes : Bytes
  pub secret_bytes : Bytes

pub record Bearer : Type 0 where
  pub relay_id : Bytes
  pub token_id : Bytes
  pub raw : Bytes

pub data MintError : Type 0 where
  locked usb_absent no_principal gate_error dead_ttl client_refused client_unknown : MintError

pub data MintResult : Type 0 where
  minted : Bearer → MintResult
  mint_failed : MintError → MintResult

abbrev pub uid_of : BearerBinding → Option ℕ
uid_of (local_peer peer_uid peer_pid) = peer_uid
uid_of (remote_client client_id dpop_jkt) = none

abbrev pub pid_of : BearerBinding → Option ℕ
pid_of (local_peer peer_uid peer_pid) = peer_pid
pid_of (remote_client client_id dpop_jkt) = none

abbrev pub client_of : BearerBinding → Option Bytes
client_of (local_peer peer_uid peer_pid) = none
client_of (remote_client client_id dpop_jkt) = some client_id

abbrev pub jkt_of : BearerBinding → Option Bytes
jkt_of (local_peer peer_uid peer_pid) = none
jkt_of (remote_client client_id dpop_jkt) = some dpop_jkt

-- `div_euclid(1000)`
unfoldable pub div_1000 : ℤ → ℤ
div_1000 (pos n) = pos (n / 1000)
div_1000 (negsuc n) = negsuc (n / 1000)

abbrev pub is_ephemeral : RelayKind → Bool
is_ephemeral named = false
is_ephemeral ephemeral = true

-- An ephemeral relay without an id gets a generated one.
unfoldable pub with_relay_id : RelayPolicy → Bytes → RelayPolicy
with_relay_id spec random =
    if is_ephemeral spec.kind && is_empty spec.relay_id
    then record spec { relay_id = codes "eph_" ++ hex_encode random }
    else spec

unfoldable pub wire : (token_id secret : Bytes) → Bytes
wire token_id secret = bearer_prefix ++ (token_id ++ b'_' ∷ secret)

unfoldable pub refuse : Bytes → Bytes → Bytes → MintError → EngineState → EngineState × MintResult
refuse verb relay_id reason err st =
    (record_event (mint_refused verb relay_id reason) st, mint_failed err)

module _ (crypto : Crypto) where
  -- The row of the minted bearer: its MAC over the wire string, and the row MAC over its fields.
  unfoldable pub minted_row :
      Bytes
      → (token_id raw : Bytes) → (policy_id expires_at_ms : ℤ) → BearerBinding
      → Moment
      → BearerRow
  minted_row dek token_id raw policy_id expires_at_ms binding m =
      let row : BearerRow = record {
        token_id = token_id;
        policy_id = policy_id;
        mac = mac_bearer crypto (broker_hmac_key crypto dek) raw;
        expires_at_ms = expires_at_ms;
        issued_at_ms = m.now_ms;
        issued_boottime_ms = m.boottime_ms;
        client_uid = uid_of binding;
        client_pid = pid_of binding;
        client_id = client_of binding;
        dpop_jkt = jkt_of binding;
        revoked = false;
        row_mac = [];
      } in
      record row {
        row_mac = mac_bearer_row crypto (broker_row_mac_key crypto dek) (row_message row);
      }

  -- From the relay id on: store the policy and the row.
  unfoldable pub mint_stored :
      EngineState
      → Bytes
      → RelayPolicy
      → (expires_at_secs : ℤ) → BearerBinding
      → Entropy
      → Moment
      → EngineState × MintResult
  mint_stored st dek spec expires_at_secs binding random m =
      let expires_at_ms = saturating_mul expires_at_secs 1000 in
      let spec' = with_relay_id spec random.relay_bytes in
      let (relays, policy_id) =
        save_relay_policy (record { id = pos 0; policy = spec' }) st.relays in
      let token_id = hex_encode random.token_bytes in
      let raw = wire token_id (b64url_nopad random.secret_bytes) in
      let row = minted_row dek token_id raw policy_id expires_at_ms binding m in
      (
        record_event (relay_minted spec'.relay_id token_id expires_at_ms)
            (record st { relays = relays; bearers = save_bearer row st.bearers }),
        minted (record { relay_id = spec'.relay_id; token_id = token_id; raw = raw }),
      )

  unfoldable pub mint_clamped :
      EngineState
      → Bytes
      → RelayPolicy
      → Option ℤ
      → BearerBinding
      → Entropy
      → Moment
      → EngineState × MintResult
  mint_clamped st dek spec none binding random m =
      refuse (codes "relay_mint") spec.relay_id (codes "ttl clamp refused (non-positive)") dead_ttl
        st
  mint_clamped st dek spec (some expires_at_secs) binding random m =
      mint_stored st dek spec expires_at_secs binding random m

  -- The gate on possession of the USB keyfile.
  unfoldable pub mint_gated :
      EngineState
      → Bytes
      → RelayPolicy
      → ℤ
      → BearerBinding
      → Entropy
      → Moment
      → Option Bool
      → EngineState × MintResult
  mint_gated st dek spec requested_ttl_secs binding random m none = (st, mint_failed gate_error)
  mint_gated st dek spec requested_ttl_secs binding random m (some false) =
      refuse (codes "relay_mint") spec.relay_id (codes "usb possession not proven") usb_absent st
  mint_gated st dek spec requested_ttl_secs binding random m (some true) =
      mint_clamped st dek spec
        (clamp_ttl (div_1000 m.now_ms) spec.policy_ttl_secs requested_ttl_secs) binding random m

  unfoldable pub mint_unlocked :
      EngineState
      → RelayPolicy
      → ℤ
      → BearerBinding
      → Entropy
      → Moment
      → Option Bytes
      → EngineState × MintResult
  mint_unlocked st spec requested_ttl_secs binding random m none = (st, mint_failed locked)
  mint_unlocked st spec requested_ttl_secs binding random m (some dek) =
      if not (is_some (uid_of binding))
        && not (is_some (pid_of binding))
        && not (is_some (client_of binding))
      then refuse (codes "relay_mint") spec.relay_id
          (codes "bearer binding has no principal (uid/pid/client_id all absent)") no_principal st
      else mint_gated st dek spec requested_ttl_secs binding random m m.presence_proven

  unfoldable pub mint_bearer_core :
      EngineState
      → RelayPolicy
      → (requested_ttl_secs : ℤ) → BearerBinding
      → Entropy
      → Moment
      → EngineState × MintResult
  mint_bearer_core st spec requested_ttl_secs binding random m =
      mint_unlocked st spec requested_ttl_secs binding random m st.dek

  unfoldable pub relay_mint :
      EngineState
      → RelayPolicy
      → (requested_ttl_secs : ℤ) → (peer_uid peer_pid : Option ℕ) → Entropy
      → Moment
      → EngineState × MintResult
  relay_mint st spec requested_ttl_secs peer_uid peer_pid random m =
      mint_bearer_core st spec requested_ttl_secs (local_peer peer_uid peer_pid) random m

  -- The check of the registration.
  unfoldable pub mint_registered :
      EngineState
      → RelayPolicy
      → ℤ
      → (client_id dpop_jkt : Bytes) → Entropy
      → Moment
      → Option RemoteClient
      → EngineState × MintResult
  mint_registered st spec requested_ttl_secs client_id dpop_jkt random m none =
      refuse (codes "relay_mint_remote") spec.relay_id (codes "unknown remote client")
        client_unknown st
  mint_registered st spec requested_ttl_secs client_id dpop_jkt random m (some c) =
      if c.enabled && not (is_some c.revoked_at_ms) && c.dpop_jkt == dpop_jkt
      then mint_bearer_core st spec requested_ttl_secs (remote_client client_id dpop_jkt) random m
      else refuse (codes "relay_mint_remote") spec.relay_id
          (codes "remote client disabled/revoked or jkt mismatch") client_refused st

  unfoldable pub relay_mint_remote :
      List RemoteClient
      → EngineState
      → RelayPolicy
      → (requested_ttl_secs : ℤ) → (client_id dpop_jkt : Bytes) → Entropy
      → Moment
      → EngineState × MintResult
  relay_mint_remote clients st spec requested_ttl_secs client_id dpop_jkt random m =
      mint_registered st spec requested_ttl_secs client_id dpop_jkt random m
        (load_remote_client client_id clients)
