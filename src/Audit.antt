-- ===== src/Audit.antt =====
-- crates/secrets-engine/src/vault/audit.rs and `AuditRecord` of event.rs: the hash-chained log.
-- BLAKE3 and the JSON serialiser are not part of the repository and are parameters: `hash`, and
-- `to_vec` on a type `Json` of details.
pub mod Canonical
pub mod Chain
pub mod Tamper
pub mod Anchor
mod Tests
use envctl.Prelude.{
  ℕ, ◌+◌, ◌%◌, ◌^◌, ◌≡◌, Bool, Option, none, some, List, [], ◌∷◌, ◌++◌, Bytes, codes, length, ℤ,
  pos, ◌+ℤ◌, eqb_ℤ, not, if◌then◌else◌, ◌==◌, List_eq, ℕ_eq,
}
use envctl.Encoding.{i64_be, u32_be}

pub data AuditOutcome : Type 0 where
  ok refused failed : AuditOutcome

abbrev pub outcome_byte : AuditOutcome → ℕ
outcome_byte ok = 1
outcome_byte refused = 2
outcome_byte failed = 3

pub record AuditRecord (Json : Type 0) : Type 0 where
  pub seq : ℤ
  pub ts : Bytes
  pub actor_uid : Option ℕ
  pub event_type : Bytes
  pub subject : Option Bytes
  pub detail : Json
  pub outcome : AuditOutcome
  pub prev_hash : Bytes
  pub row_hash : Bytes

abbrev pub audit_row_domain : Bytes
audit_row_domain = codes "env-ctl/v1/audit-row"

-- The length is cast to a `u32`.
unfoldable pub push_len_prefixed : Bytes → Bytes
push_len_prefixed bytes = u32_be (length bytes % 2 ^ 32) ++ bytes

unfoldable pub actor_bytes : Option ℕ → Bytes
actor_bytes (some uid) = 1 ∷ u32_be uid
actor_bytes none = 0 ∷ u32_be 0

unfoldable pub subject_bytes : Option Bytes → Bytes
subject_bytes (some s) = 1 ∷ push_len_prefixed s
subject_bytes none = 0 ∷ []

-- The result of a walk over the chain: the sequence number of the first row that breaks it.
pub data Verdict : Type 0 where
  intact : Verdict
  broken_at : ℤ → Verdict

module _ {Json : Type 0} (to_vec : Json → Bytes) (hash : Bytes → Bytes) where
  unfoldable pub genesis_hash : Bytes
  genesis_hash = hash (codes "env-ctl/v1/audit-genesis")

  unfoldable pub canonical_row : AuditRecord Json → Bytes
  canonical_row rec =
      audit_row_domain
      ++ (i64_be rec.seq
          ++ (push_len_prefixed rec.ts
              ++ (actor_bytes rec.actor_uid
                  ++ (push_len_prefixed rec.event_type
                      ++ (subject_bytes rec.subject
                          ++ (push_len_prefixed (to_vec rec.detail)
                              ++ outcome_byte rec.outcome ∷ []))))))

  unfoldable pub row_hash : Bytes → AuditRecord Json → Bytes
  row_hash prev_hash rec = hash (prev_hash ++ canonical_row rec)

  unfoldable pub new_row :
      Bytes → Option ℕ → Bytes → Option Bytes → Json → AuditOutcome → AuditRecord Json
  new_row ts actor_uid event_type subject detail outcome = record {
    seq = pos 0;
    ts = ts;
    actor_uid = actor_uid;
    event_type = event_type;
    subject = subject;
    detail = detail;
    outcome = outcome;
    prev_hash = [];
    row_hash = [];
  }

  abbrev pub next_seq : Option (AuditRecord Json) → ℤ
  next_seq none = pos 0 +ℤ pos 1
  next_seq (some r) = r.seq +ℤ pos 1

  abbrev pub tail_hash : Option (AuditRecord Json) → Bytes
  tail_hash none = genesis_hash
  tail_hash (some r) = r.row_hash

  unfoldable pub link_row : Option (AuditRecord Json) → AuditRecord Json → AuditRecord Json
  link_row prev rec =
      let rec' = record rec { seq = next_seq prev; prev_hash = tail_hash prev } in
      record rec' { row_hash = row_hash rec'.prev_hash rec' }

  -- The loop of `verify_chain`: `i` rows were walked, and `prev_hash` is the hash of the last.
  unfoldable pub verify_from : ℕ → Bytes → List (AuditRecord Json) → Verdict
  verify_from i prev_hash [] = intact
  verify_from i prev_hash (row ∷ rows) =
      let rest = verify_from (i + 1) row.row_hash rows in
      if not (eqb_ℤ row.seq (pos (i + 1)))
      then broken_at row.seq
      else if not (row.prev_hash == prev_hash)
      then broken_at row.seq
      else if not (row.row_hash == row_hash row.prev_hash row)
      then broken_at row.seq
      else rest

  unfoldable pub verify_chain : List (AuditRecord Json) → Verdict
  verify_chain rows = verify_from 0 genesis_hash rows

  unfoldable pub last : List (AuditRecord Json) → Option (AuditRecord Json)
  last [] = none
  last (r ∷ []) = some r
  last (r ∷ s ∷ rows) = last (s ∷ rows)

  -- `append_audit` of the in-memory store: the new log, and the row's number.
  unfoldable pub append_audit :
      List (AuditRecord Json) → AuditRecord Json → List (AuditRecord Json) × ℤ
  append_audit rows rec = let sealed = link_row (last rows) rec in (rows ++ sealed ∷ [], sealed.seq)
