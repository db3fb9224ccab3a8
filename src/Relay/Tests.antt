-- ===== src/Relay/Tests.antt =====
-- The relay's theorems at a concrete vault with one relay and one bearer, under a toy MAC.
use envctl.Prelude.{
  saturating_add, saturate, min_ℤ, ◌+ℤ◌, arith, ◌≡◌, refl, Bool, true, false, Option, none, some,
  List, AllOf, ℕ, [], ◌∷◌, Bytes, codes, pos,
}
use envctl.Text.{strip_prefix}
use envctl.Broker.Policy.{clamp_ttl, RelayPolicy, post, anthropic, named, base_url_repoint}
use envctl.Broker.Wire.{
  Crypto, parse_bearer, split_once, is_ascii_alphanumeric, mac_bearer_row, broker_row_mac_key,
}
use envctl.Vault.Rows.{RelayPolicyRow, RemoteClient, BearerRow, SecretRow}
use envctl.Vault.Store.{load_remote_client, find, upsert, load_bearer, save_bearer}
use envctl.Relay.{
  relay_swap_prepare, prepare_policy, EgressReq, EngineState, Moment, RelayEvent, bearer_revoked,
  relay_swap, record_event,
}
use envctl.Relay.Revocation.{relay_revoke_bearer, revoke_loaded, store_revoked, reseal_bearer_row}
use envctl.Hex.{from_digit, b64url_nopad, b64_char, hex_encode}
use envctl.Relay.Mint.{
  remote_client, relay_mint_remote, mint_registered, local_peer, Entropy, Bearer, MintResult,
  minted, mint_bearer_core, mint_unlocked, mint_gated, mint_clamped, mint_stored, with_relay_id,
  wire, div_1000,
}
use envctl.Relay.Remote.{IsRegistered, relay_mint_remote-IsRegistered}
use envctl.Relay.Recognised.{IsRowOf, mint-relay_swap_prepare}
use envctl.Relay.Minted.{Minted, Outcome, IsDrawn, mint_bearer_core-Outcome}
use envctl.Sets.{Distinct}
use envctl.Vault.Store.{load_relay_policy, list_bearers_for_relay}
use envctl.Relay.Relays.{revoke_policy, relay_revoke}
use envctl.Relay.Dead.{RefusesSwaps, token_ids, relay_revoke-RefusesSwaps}
use envctl.Relay.Swap.{Accounted, IsRefusal, relay_swap-Accounted}
use envctl.Relay.Revoke.{revoke-relay_swap}

abbrev dek : Bytes
dek = codes "dek"

abbrev crypto : Crypto
crypto = record { keyed_hash = λ key message. key; derive_key = λ info key. key }

abbrev open_sealed : (dek aad nonce ct_tag : Bytes) → Option Bytes
open_sealed k aad nonce ct_tag = some ct_tag

abbrev send : EgressReq → Bytes → Option Bytes
send req key = some (codes "ok")

abbrev policy : RelayPolicy
policy = record {
  relay_id = codes "r1";
  kind = named;
  provider = anthropic;
  secret_name = codes "k";
  swap = base_url_repoint (codes "http://localhost");
  host_allow = codes "api.anthropic.com" ∷ [];
  path_allow = codes "/v1/*" ∷ [];
  method_allow = post ∷ [];
  policy_ttl_secs = pos 3600;
  rate_per_min = none;
  quota_total_requests = none;
  quota_total_bytes = none;
  enabled = true;
  revoked = false;
}

abbrev row : Bool → BearerRow
row revoked = record {
  token_id = codes "t1";
  policy_id = pos 1;
  mac = dek;
  expires_at_ms = pos 1700003000000;
  issued_at_ms = pos 1699999000000;
  issued_boottime_ms = pos 4000000;
  client_uid = some 1000;
  client_pid = none;
  client_id = none;
  dpop_jkt = none;
  revoked = revoked;
  row_mac = dek;
}

abbrev secret : SecretRow
secret = record {
  row_id = pos 1;
  name = codes "k";
  version = 1;
  provider = anthropic;
  note = [];
  broker_only = true;
  dek_generation = pos 1;
  nonce = [];
  ct_tag = codes "key";
  created_ts = [];
}

-- The vault with the bearer live or revoked, and what was recorded.
abbrev vault : Bool → List RelayEvent → EngineState
vault revoked events = record {
  dek = some dek;
  issuance_floor_ms = some (pos 1699000000000);
  relays = record { id = pos 1; policy = policy } ∷ [];
  bearers = row revoked ∷ [];
  secrets = record { rows = secret ∷ []; next_secret_row_id = pos 1 };
  broker = record { counters = [] };
  events = events;
  sent = [];
}

abbrev request : EgressReq
request = record {
  method = post;
  host = codes "api.anthropic.com";
  path = codes "/v1/messages";
  headers = [];
  bytes_out = 10;
  peer_uid = some 1000;
  peer_pid = none;
  observed_sni = none;
}

abbrev moment : Moment
moment = record {
  now_ms = pos 1700000000000;
  boottime_ms = pos 5000000;
  presence_proven = some true;
}

abbrev bearer : Bytes
bearer = codes "evrelay_t1_s"

relay_swap-Accounted_example :
    Accounted crypto open_sealed send request moment
      (vault false [])
      bearer
      (relay_swap crypto open_sealed send (vault false []) bearer request moment)
relay_swap-Accounted_example =
    relay_swap-Accounted crypto open_sealed send request moment (vault false []) bearer

abbrev revoked_events : List RelayEvent
revoked_events = bearer_revoked (codes "t1") true 1 ∷ []

revocation :
    relay_revoke_bearer crypto (vault false []) (codes "t1") true
    ≡ some (vault true revoked_events, 1)
unfolding relay_revoke_bearer revoke_loaded store_revoked reseal_bearer_row record_event load_bearer
    find save_bearer upsert mac_bearer_row broker_row_mac_key
revocation = refl

parsed : parse_bearer bearer ≡ some (codes "t1", bearer)
unfolding parse_bearer strip_prefix split_once is_ascii_alphanumeric
parsed = refl

revoke-relay_swap_example :
    ((relay_swap crypto open_sealed send (vault true revoked_events) bearer request moment).0.sent
      ≡ [])
    × IsRefusal
        (relay_swap crypto open_sealed send (vault true revoked_events) bearer request moment).1
revoke-relay_swap_example =
    revoke-relay_swap crypto open_sealed send (vault false []) (vault true revoked_events)
      (codes "t1") bearer bearer 1 request moment revocation parsed

abbrev drawn : Entropy
drawn = record {
  relay_bytes = 1 ∷ 2 ∷ [];
  token_bytes = 18 ∷ 255 ∷ [];
  secret_bytes = 3 ∷ 4 ∷ 5 ∷ 6 ∷ [];
}

drawn-IsDrawn : IsDrawn drawn
drawn-IsDrawn = record {
  token_range = (omega arith, (omega arith, tt));
  token_some = λ e. cc;
  secret_some = λ e. cc;
}

mint_bearer_core-Outcome_example :
    Outcome crypto (vault false []) policy (local_peer (some 1000) none) moment (
      mint_bearer_core crypto
        (vault false [])
        policy
        (pos 600)
        (local_peer (some 1000) none)
        drawn
        moment)
mint_bearer_core-Outcome_example =
    mint_bearer_core-Outcome crypto policy (pos 600) (local_peer (some 1000) none) drawn moment
      drawn-IsDrawn (omega arith, omega arith) (omega arith) (vault false [])

vault-Distinct : Distinct (token_ids (vault false []).bearers)
unfolding Distinct
vault-Distinct = (refl, tt)

relay_revoke-RefusesSwaps_example :
    AllOf
      (λ b.
        (st' : EngineState) × (n : ℕ) × (relay_revoke crypto (vault false []) (codes "r1") true
          ≡ (st', some n))
        × RefusesSwaps crypto open_sealed send st' b)
      (list_bearers_for_relay
        (codes "r1")
        (revoke_policy
          (load_relay_policy (codes "r1") (vault false []).relays)
          (vault false []).relays)
        (vault false []).bearers)
relay_revoke-RefusesSwaps_example =
    relay_revoke-RefusesSwaps crypto open_sealed send (vault false []) (codes "r1") dek refl
      vault-Distinct

abbrev outcome : EngineState × MintResult
outcome =
    mint_bearer_core crypto (vault false []) policy (pos 600) (local_peer (some 1000) none) drawn
      moment

abbrev fresh : Bearer
fresh = record { relay_id = codes "r1"; token_id = codes "12ff"; raw = codes "evrelay_12ff_AwQFBg" }

minted_fresh : outcome ≡ (outcome.0, minted fresh)
unfolding mint_bearer_core mint_unlocked mint_gated mint_clamped mint_stored with_relay_id wire
    hex_encode from_digit b64url_nopad b64_char clamp_ttl saturating_add saturate min_ℤ div_1000
    ◌+ℤ◌
minted_fresh = refl

mint-relay_swap_prepare_example :
    (k : Bytes) × (row : BearerRow) × (policy_row : RelayPolicyRow) × (relay_swap_prepare crypto
        open_sealed send outcome.0 fresh.raw request moment
      ≡ prepare_policy crypto open_sealed send outcome.0 k
          (pos 1699000000000)
          fresh.token_id
          row
          request
          moment
          (some policy_row))
    × IsRowOf policy (local_peer (some 1000) none) moment outcome.0 fresh row policy_row
mint-relay_swap_prepare_example =
    mint-relay_swap_prepare crypto open_sealed send policy (pos 600) (local_peer (some 1000) none)
      drawn moment moment (vault false []) outcome.0 fresh (pos 1699000000000) request drawn-IsDrawn
      (omega arith, omega arith) (omega arith) (tt, tt) refl minted_fresh

abbrev clients : List RemoteClient
clients =
    record {
      client_id = codes "c1";
      dpop_jkt = codes "j";
      enabled = true;
      hardware_bound = false;
      created_at_ms = pos 0;
      revoked_at_ms = none;
    }
    ∷ []

abbrev remote_outcome : EngineState × MintResult
remote_outcome =
    relay_mint_remote crypto clients (vault false []) policy (pos 600) (codes "c1") (codes "j")
      drawn moment

minted_remotely : remote_outcome ≡ (remote_outcome.0, minted fresh)
unfolding relay_mint_remote mint_registered load_remote_client find mint_bearer_core mint_unlocked
    mint_gated mint_clamped mint_stored with_relay_id wire hex_encode from_digit b64url_nopad
    b64_char clamp_ttl saturating_add saturate min_ℤ div_1000 ◌+ℤ◌
minted_remotely = refl

relay_mint_remote-IsRegistered_example :
    IsRegistered clients (codes "c1") (codes "j")
    × Minted crypto
        (vault false [])
        policy
        (remote_client (codes "c1") (codes "j"))
        moment
        remote_outcome.0
        fresh
relay_mint_remote-IsRegistered_example =
    relay_mint_remote-IsRegistered crypto policy (pos 600) (codes "c1") (codes "j") drawn moment
      drawn-IsDrawn (omega arith, omega arith) (omega arith) clients (vault false [])
      remote_outcome.0 fresh minted_remotely
