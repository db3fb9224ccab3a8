-- ===== src/Audit/Tests.antt =====
-- The audit theorems at concrete logs, with a toy hash of one output length and a toy keyed hash.
use envctl.Prelude.{
  ◌%◌, ◌≡◌, refl, none, some, List, [], ◌∷◌, ◌++◌, arith, Bytes, codes, length, pos,
}
use envctl.Encoding.{i64_be, u32_be, be}
use envctl.Broker.Wire.{Crypto}
use envctl.Audit.{
  ok, refused, AuditRecord, intact, broken_at, genesis_hash, canonical_row, row_hash, new_row,
  link_row, verify_from, verify_chain, last, append_audit, push_len_prefixed, actor_bytes,
  subject_bytes,
}
use envctl.Audit.Canonical.{IsRecord}
use envctl.Audit.Chain.{FirstBreak, append_audit-intact, verify_chain-broken}
use envctl.Audit.Tamper.{SameRows, verify_chain-determined}
use envctl.Audit.Anchor.{Meta, advance_audit_anchor_if_unlocked, verify_audit_anchor_with}
use envctl.Audit.Anchor.Prefix.{advance-verify, anchor-prefix}

abbrev to_vec : Bytes → Bytes
to_vec b = b

abbrev hash : Bytes → Bytes
hash b = length b % 256 ∷ []

abbrev crypto : Crypto
crypto = record { keyed_hash = λ key message. message; derive_key = λ info key. key }

-- The row that opens a log, sealed: its hash covers 50 bytes, of which one is the genesis hash.
abbrev first : AuditRecord Bytes
first = record {
  seq = pos 1;
  ts = codes "t";
  actor_uid = some 7;
  event_type = codes "e";
  subject = none;
  detail = [];
  outcome = ok;
  prev_hash = 24 ∷ [];
  row_hash = 50 ∷ [];
}

abbrev second : AuditRecord Bytes
second = new_row to_vec hash (codes "u") none (codes "f") (some (codes "s")) [] refused

sealed_first : verify_chain to_vec hash (first ∷ []) ≡ intact
unfolding verify_chain verify_from row_hash canonical_row genesis_hash push_len_prefixed actor_bytes
    subject_bytes i64_be u32_be be
sealed_first = refl

append_audit-intact_example :
    (verify_chain to_vec hash (append_audit to_vec hash (first ∷ []) second).0 ≡ intact)
    × ((append_audit to_vec hash (first ∷ []) second).1 ≡ pos 2)
append_audit-intact_example = append_audit-intact to_vec hash (first ∷ []) second sealed_first

unsealed : verify_chain to_vec hash (second ∷ []) ≡ broken_at (pos 0)
unfolding verify_chain verify_from new_row
unsealed = refl

verify_chain-broken_example :
    FirstBreak to_vec hash 0 (genesis_hash to_vec hash) (second ∷ []) (pos 0)
verify_chain-broken_example = verify_chain-broken to_vec hash (second ∷ []) (pos 0) unsealed

first-IsRecord : IsRecord to_vec hash first
first-IsRecord = record {
  seq = (omega arith, omega arith);
  ts = omega arith;
  actor_uid = omega arith;
  event_type = omega arith;
  subject = tt;
  detail = omega arith;
}

abbrev relinked : AuditRecord Bytes
relinked = record first { prev_hash = []; row_hash = [] }

relinked-IsRecord : IsRecord to_vec hash relinked
relinked-IsRecord = record {
  seq = (omega arith, omega arith);
  ts = omega arith;
  actor_uid = omega arith;
  event_type = omega arith;
  subject = tt;
  detail = omega arith;
}

same_row : canonical_row to_vec hash first ≡ canonical_row to_vec hash relinked
unfolding canonical_row
same_row = refl

verify_chain-determined_example : SameRows to_vec hash (first ∷ []) (first ∷ [])
verify_chain-determined_example =
    verify_chain-determined to_vec hash (first ∷ []) (first ∷ []) (λ x y. refl) (first-IsRecord, tt)
      (first-IsRecord, tt) ((λ e. refl), tt) refl sealed_first sealed_first refl

abbrev meta : Meta
meta = record { high_water = none; audit_head = none }

abbrev dek : Bytes
dek = codes "dek"

longer : verify_chain to_vec hash (first ∷ link_row to_vec hash (some first) second ∷ []) ≡ intact
unfolding append_audit last
longer = append_audit-intact_example.0

advance-verify_example :
    verify_audit_anchor_with to_vec hash crypto dek
      (advance_audit_anchor_if_unlocked to_vec hash crypto (some dek) meta (first ∷ []))
      (first ∷ link_row to_vec hash (some first) second ∷ [])
    ≡ intact
advance-verify_example =
    advance-verify to_vec hash crypto dek meta (first ∷ [])
      (link_row to_vec hash (some first) second ∷ []) (omega arith) sealed_first longer

accepted :
    verify_audit_anchor_with to_vec hash crypto dek
      (advance_audit_anchor_if_unlocked to_vec hash crypto (some dek) meta (first ∷ []))
      (first ∷ [])
    ≡ intact
accepted =
    advance-verify to_vec hash crypto dek meta (first ∷ []) [] (omega arith) sealed_first
      sealed_first

anchor-prefix_example :
    (front rest : List (AuditRecord Bytes)) × (first ∷ [] ≡ front ++ rest)
    × SameRows to_vec hash (first ∷ []) front
anchor-prefix_example =
    anchor-prefix to_vec hash crypto dek meta first [] (first ∷ []) (λ x y. refl)
      (first-IsRecord, tt) (first-IsRecord, tt) ((λ e. refl), tt) (λ g e same. same) (omega arith)
      sealed_first accepted
