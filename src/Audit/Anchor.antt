-- ===== src/Audit/Anchor.antt =====
-- The DEK-keyed anchor of the audit log (crates/secrets-engine/src/lib.rs): the stored high-water
-- and head MAC, their update, and their check. The meta table keeps both as text (decimal and
-- hexadecimal); here they are the values, so a text that does not parse is left out.
pub mod Prefix
use envctl.Prelude.{
  ℕ, zero, suc, ◌+◌, ◌-◌, Bool, true, false, not, Option, none, some, List, [], ◌∷◌, ◌++◌,
  if◌then◌else◌, Bytes, codes, get_elem?, ℤ, pos, negsuc, eqb_ℤ, ltb_ℤ, max_ℤ, ◌==◌, List_eq, ℕ_eq,
  ◌≡◌,
}
use envctl.Encoding.{i64_be}
use envctl.Broker.Wire.{Crypto}
use envctl.Audit.{AuditRecord, Verdict, intact, broken_at, verify_chain, last}

abbrev pub audit_head_key_info : Bytes
audit_head_key_info = codes "env-ctl/v1/audit-head/key"

abbrev pub audit_head_domain : Bytes
audit_head_domain = codes "env-ctl/v1/audit-head"

pub record Meta : Type 0 where
  pub high_water : Option ℤ
  pub audit_head : Option Bytes

-- What the head MAC covers.
unfoldable pub head_message : (high_water seq : ℤ) → Bytes → Bytes
head_message high_water seq tail_row_hash =
    audit_head_domain ++ (i64_be high_water ++ (i64_be seq ++ tail_row_hash))

unfoldable pub audit_head_mac : Crypto → Bytes → (high_water seq : ℤ) → Bytes → Bytes
audit_head_mac crypto dek high_water seq tail_row_hash =
    crypto.keyed_hash (crypto.derive_key audit_head_key_info dek)
      (head_message high_water seq tail_row_hash)

abbrev pub stored_high_water : Option ℤ → ℤ
stored_high_water none = pos 0
stored_high_water (some hw) = hw

unfoldable pub write_audit_anchor : Crypto → Bytes → Meta → ℤ → Bytes → Meta
write_audit_anchor crypto dek meta new_seq tail_hash =
    let high_water = max_ℤ (stored_high_water meta.high_water) new_seq in
    record {
      high_water = some high_water;
      audit_head = some (audit_head_mac crypto dek high_water high_water tail_hash);
    }

module _ {Json : Type 0} (to_vec : Json → Bytes) (hash : Bytes → Bytes) (crypto : Crypto) where
  abbrev pub last_seq : Option (AuditRecord Json) → ℤ
  last_seq none = pos 0
  last_seq (some r) = r.seq

  abbrev pub last_hash : Option (AuditRecord Json) → Bytes
  last_hash none = []
  last_hash (some r) = r.row_hash

  -- `none` is a locked vault, which has no key to anchor with.
  unfoldable pub advance_audit_anchor_if_unlocked :
      Option Bytes → Meta → List (AuditRecord Json) → Meta
  advance_audit_anchor_if_unlocked none meta rows = meta
  advance_audit_anchor_if_unlocked (some dek) meta rows =
      let tail = last to_vec hash rows in
      write_audit_anchor crypto dek meta (last_seq tail) (last_hash tail)

  abbrev row_hash_at : ℤ → Option (AuditRecord Json) → Option Bytes
  row_hash_at hw none = none
  row_hash_at hw (some r) = if eqb_ℤ r.seq hw then some r.row_hash else none

  -- The hash that the anchor commits to: `none` where the row is not there.
  unfoldable pub anchored_hash : ℤ → List (AuditRecord Json) → Option Bytes
  anchored_hash (pos zero) rows = some []
  anchored_hash (pos (suc n)) rows = row_hash_at (pos (suc n)) (get_elem? rows n)
  anchored_hash (negsuc n) rows = none

  unfoldable pub check_head : Bytes → Bytes → ℤ → ℤ → Option Bytes → Verdict
  check_head dek stored_mac stored_hw cur_seq none = broken_at cur_seq
  check_head dek stored_mac stored_hw cur_seq (some anchored) =
      if not (audit_head_mac crypto dek stored_hw stored_hw anchored == stored_mac)
      then broken_at cur_seq
      else intact

  -- The stored MAC and the stored high-water: no MAC was ever written, or the fence is missing.
  unfoldable pub check_stored : Bytes → Option Bytes → Option ℤ → List (AuditRecord Json) → Verdict
  check_stored dek none high_water rows = intact
  check_stored dek (some stored_mac) none rows = broken_at (pos 0)
  check_stored dek (some stored_mac) (some stored_hw) rows =
      let cur_seq = last_seq (last to_vec hash rows) in
      if ltb_ℤ cur_seq stored_hw
      then broken_at cur_seq
      else check_head dek stored_mac stored_hw cur_seq (anchored_hash stored_hw rows)

  abbrev pub and_then : Verdict → Verdict → Verdict
  and_then (broken_at seq) k = broken_at seq
  and_then intact k = k

  unfoldable pub verify_audit_anchor_with : Bytes → Meta → List (AuditRecord Json) → Verdict
  verify_audit_anchor_with dek meta rows =
      and_then (verify_chain to_vec hash rows)
        (check_stored dek meta.audit_head meta.high_water rows)
