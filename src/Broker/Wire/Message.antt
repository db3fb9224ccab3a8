-- ===== src/Broker/Wire/Message.antt =====
-- The MAC message of a bearer row determines the row's security fields.
use mathlib.Core.List.{append_assoc}
use envctl.Prelude.{
  ℕ, ◌^◌, ◌<◌, ◌≡◌, refl, sym, ◌∙◌, Bool, Option, none, some, ◌++◌, arith, Bytes, length, IsI64, ap,
}
use envctl.Encoding.{u64_be, u32-peel, u64-peel, i64-peel, sized-peel, byte-peel}
use envctl.Vault.Rows.{BearerRow}
use envctl.Broker.Wire.{
  encode_opt_u32, encode_opt_bytes, encode_opt_jkt, flag, bearer_row_mac_domain,
  bearer_row_mac_message,
}

abbrev pub OptBelow : ℕ → Option ℕ → Type 0
OptBelow top none = Unit
OptBelow top (some n) = n < top

abbrev pub OptSized : (ℕ → Type 0) → Option Bytes → Type 0
OptSized P none = Unit
OptSized P (some b) = P (length b)

opt_u32-peel :
    (a b : Option ℕ) (xs ys : Bytes)
    → OptBelow (2 ^ 32) a
    → OptBelow (2 ^ 32) b
    → encode_opt_u32 a ++ xs ≡ encode_opt_u32 b ++ ys
    → (a ≡ b) × (xs ≡ ys)
unfolding encode_opt_u32
opt_u32-peel none none xs ys ha hb e = ground arith
opt_u32-peel none (some n) xs ys ha hb e = ground arith
opt_u32-peel (some m) none xs ys ha hb e = ground arith
opt_u32-peel (some m) (some n) xs ys ha hb e =
    let (_, e') = byte-peel 1 1 _ _ e in
    let (same, rest) = u32-peel m n xs ys ha hb e' in (ap some same, rest)

opt_bytes-peel :
    (a b : Option Bytes) (xs ys : Bytes)
    → OptSized (λ n. n < 2 ^ 64) a
    → OptSized (λ n. n < 2 ^ 64) b
    → encode_opt_bytes a ++ xs ≡ encode_opt_bytes b ++ ys
    → (a ≡ b) × (xs ≡ ys)
unfolding encode_opt_bytes
opt_bytes-peel none none xs ys ha hb e = ground arith
opt_bytes-peel none (some n) xs ys ha hb e = ground arith
opt_bytes-peel (some m) none xs ys ha hb e = ground arith
opt_bytes-peel (some m) (some n) xs ys ha hb e =
    let (_, e') = byte-peel 1 1 _ _ e in
    let (sizes, fields) =
      u64-peel (length m) (length n) (m ++ xs) (n ++ ys) ha hb (
        sym (append_assoc (u64_be (length m)) m xs) ∙ e' ∙ append_assoc (u64_be (length n)) n ys) in
    let (same, rest) = sized-peel m n xs ys sizes fields in (ap some same, rest)

opt_jkt-peel :
    (a b : Option Bytes) (xs ys : Bytes)
    → OptSized (λ n. n ≡ 32) a
    → OptSized (λ n. n ≡ 32) b
    → encode_opt_jkt a ++ xs ≡ encode_opt_jkt b ++ ys
    → (a ≡ b) × (xs ≡ ys)
unfolding encode_opt_jkt
opt_jkt-peel none none xs ys ha hb e =
    let (_, rest) = sized-peel (encode_opt_jkt none) (encode_opt_jkt none) xs ys refl e in
    (refl, rest)
opt_jkt-peel none (some n) xs ys ha hb e = ground arith
opt_jkt-peel (some m) none xs ys ha hb e = ground arith
opt_jkt-peel (some m) (some n) xs ys ha hb e =
    let (_, e') = byte-peel 1 1 _ _ e in
    let (same, rest) = sized-peel m n xs ys (ha ∙ sym hb) e' in (ap some same, rest)

flag-injective : (a b : Bool) → flag a ≡ flag b → a ≡ b
flag-injective a b e = ground arith

-- The widths of the source's types: `i64`, `u32`, `[u8; 32]`, and lengths that a `u64` holds.
pub record IsRow (r : BearerRow) : Type 0 where
  pub token_id : length r.token_id < 2 ^ 64
  pub policy_id : IsI64 r.policy_id
  pub expires_at_ms : IsI64 r.expires_at_ms
  pub issued_at_ms : IsI64 r.issued_at_ms
  pub issued_boottime_ms : IsI64 r.issued_boottime_ms
  pub client_uid : OptBelow (2 ^ 32) r.client_uid
  pub client_pid : OptBelow (2 ^ 32) r.client_pid
  pub client_id : OptSized (λ n. n < 2 ^ 64) r.client_id
  pub dpop_jkt : OptSized (λ n. n ≡ 32) r.dpop_jkt

-- Two rows agree in every field that `decide` trusts.
pub record SameClaims (r s : BearerRow) : Type 0 where
  pub token_id : r.token_id ≡ s.token_id
  pub policy_id : r.policy_id ≡ s.policy_id
  pub expires_at_ms : r.expires_at_ms ≡ s.expires_at_ms
  pub issued_at_ms : r.issued_at_ms ≡ s.issued_at_ms
  pub issued_boottime_ms : r.issued_boottime_ms ≡ s.issued_boottime_ms
  pub client_uid : r.client_uid ≡ s.client_uid
  pub client_pid : r.client_pid ≡ s.client_pid
  pub client_id : r.client_id ≡ s.client_id
  pub dpop_jkt : r.dpop_jkt ≡ s.dpop_jkt
  pub revoked : r.revoked ≡ s.revoked

-- The message that the engine MACs for a row.
unfoldable pub row_message : BearerRow → Bytes
row_message r =
    bearer_row_mac_message r.token_id r.policy_id r.expires_at_ms r.issued_at_ms
      r.issued_boottime_ms r.client_uid r.client_pid r.client_id r.dpop_jkt r.revoked

-- Rows of the source's types with the same MAC message agree in every field that `decide` trusts.
pub row_message-injective :
    (r s : BearerRow) → IsRow r → IsRow s → row_message r ≡ row_message s → SameClaims r s
unfolding row_message bearer_row_mac_message
row_message-injective r s vr vs e0 =
    let (_, e1) = sized-peel bearer_row_mac_domain bearer_row_mac_domain _ _ refl e0 in
    let (_, e2) = byte-peel _ _ _ _ e1 in
    let (sizes, e3) =
      u64-peel (length r.token_id) (length s.token_id) _ _ vr.token_id vs.token_id e2 in
    let (token_id, e4) = sized-peel r.token_id s.token_id _ _ sizes e3 in
    let (policy_id, e5) = i64-peel _ _ _ _ vr.policy_id vs.policy_id e4 in
    let (expires, e6) = i64-peel _ _ _ _ vr.expires_at_ms vs.expires_at_ms e5 in
    let (issued, e7) = i64-peel _ _ _ _ vr.issued_at_ms vs.issued_at_ms e6 in
    let (boottime, e8) = i64-peel _ _ _ _ vr.issued_boottime_ms vs.issued_boottime_ms e7 in
    let (uid, e9) = opt_u32-peel r.client_uid s.client_uid _ _ vr.client_uid vs.client_uid e8 in
    let (pid, e10) = opt_u32-peel r.client_pid s.client_pid _ _ vr.client_pid vs.client_pid e9 in
    let (cid, e11) = opt_bytes-peel r.client_id s.client_id _ _ vr.client_id vs.client_id e10 in
    let (jkt, e12) = opt_jkt-peel r.dpop_jkt s.dpop_jkt _ _ vr.dpop_jkt vs.dpop_jkt e11 in
    let (revoked, _) = byte-peel _ _ _ _ e12 in
    record {
      token_id = token_id;
      policy_id = policy_id;
      expires_at_ms = expires;
      issued_at_ms = issued;
      issued_boottime_ms = boottime;
      client_uid = uid;
      client_pid = pid;
      client_id = cid;
      dpop_jkt = jkt;
      revoked = flag-injective r.revoked s.revoked revoked;
    }
