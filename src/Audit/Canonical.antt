-- ===== src/Audit/Canonical.antt =====
-- The canonical bytes of an audit row determine every field that its hash commits to.
use mathlib.Core.List.{append_assoc}
use envctl.Prelude.{
  ℕ, ◌^◌, ◌<◌, ◌≡◌, refl, sym, ◌∙◌, ap, Option, none, some, ◌++◌, arith, Bytes, length, IsI64, ◌%◌,
}
use envctl.Encoding.{u32_be, u32-peel, i64-peel, sized-peel, byte-peel}
use envctl.Audit.{
  AuditOutcome, AuditRecord, outcome_byte, audit_row_domain, push_len_prefixed, actor_bytes,
  subject_bytes, canonical_row,
}

prefixed-peel :
    (a b xs ys : Bytes)
    → length a < 2 ^ 32
    → length b < 2 ^ 32
    → push_len_prefixed a ++ xs ≡ push_len_prefixed b ++ ys
    → (a ≡ b) × (xs ≡ ys)
unfolding push_len_prefixed
prefixed-peel a b xs ys ha hb e =
    let (sizes, rest) =
      u32-peel (length a % 2 ^ 32) (length b % 2 ^ 32) (a ++ xs) (b ++ ys) (omega arith)
        (omega arith)
        (sym (append_assoc (u32_be (length a % 2 ^ 32)) a xs)
          ∙ e
          ∙ append_assoc (u32_be (length b % 2 ^ 32)) b ys) in
    sized-peel a b xs ys (omega arith) rest

abbrev pub ActorFits : Option ℕ → Type 0
ActorFits none = Unit
ActorFits (some uid) = uid < 2 ^ 32

abbrev pub SubjectFits : Option Bytes → Type 0
SubjectFits none = Unit
SubjectFits (some s) = length s < 2 ^ 32

actor-peel :
    (a b : Option ℕ) (xs ys : Bytes)
    → ActorFits a
    → ActorFits b
    → actor_bytes a ++ xs ≡ actor_bytes b ++ ys
    → (a ≡ b) × (xs ≡ ys)
unfolding actor_bytes
actor-peel none none xs ys ha hb e =
    let (_, rest) = sized-peel (actor_bytes none) (actor_bytes none) xs ys refl e in (refl, rest)
actor-peel none (some n) xs ys ha hb e = ground arith
actor-peel (some m) none xs ys ha hb e = ground arith
actor-peel (some m) (some n) xs ys ha hb e =
    let (_, e') = byte-peel 1 1 _ _ e in
    let (same, rest) = u32-peel m n xs ys ha hb e' in (ap some same, rest)

subject-peel :
    (a b : Option Bytes) (xs ys : Bytes)
    → SubjectFits a
    → SubjectFits b
    → subject_bytes a ++ xs ≡ subject_bytes b ++ ys
    → (a ≡ b) × (xs ≡ ys)
unfolding subject_bytes
subject-peel none none xs ys ha hb e = ground arith
subject-peel none (some n) xs ys ha hb e = ground arith
subject-peel (some m) none xs ys ha hb e = ground arith
subject-peel (some m) (some n) xs ys ha hb e =
    let (_, e') = byte-peel 1 1 _ _ e in
    let (same, rest) = prefixed-peel m n xs ys ha hb e' in (ap some same, rest)

outcome_byte-injective : (a b : AuditOutcome) → outcome_byte a ≡ outcome_byte b → a ≡ b
outcome_byte-injective a b e = ground arith

module _ {Json : Type 0} (to_vec : Json → Bytes) (hash : Bytes → Bytes) where
  -- Fields of the source's widths.
  pub record IsRecord (r : AuditRecord Json) : Type 0 where
    pub seq : IsI64 r.seq
    pub ts : length r.ts < 2 ^ 32
    pub actor_uid : ActorFits r.actor_uid
    pub event_type : length r.event_type < 2 ^ 32
    pub subject : SubjectFits r.subject
    pub detail : length (to_vec r.detail) < 2 ^ 32

  -- Two rows agree in everything that a row's hash commits to but the link.
  pub record SameContent (r s : AuditRecord Json) : Type 0 where
    pub seq : r.seq ≡ s.seq
    pub ts : r.ts ≡ s.ts
    pub actor_uid : r.actor_uid ≡ s.actor_uid
    pub event_type : r.event_type ≡ s.event_type
    pub subject : r.subject ≡ s.subject
    pub detail : to_vec r.detail ≡ to_vec s.detail
    pub outcome : r.outcome ≡ s.outcome

  -- Records whose fields have the source's widths have the same canonical bytes only if they agree in
  -- every field but the link and the hash (a detail, in the bytes that it is written as).
  pub canonical_row-injective :
      (r s : AuditRecord Json)
      → IsRecord r
      → IsRecord s
      → canonical_row to_vec hash r ≡ canonical_row to_vec hash s
      → SameContent r s
  unfolding canonical_row
  canonical_row-injective r s vr vs e0 =
      let (_, e1) = sized-peel audit_row_domain audit_row_domain _ _ refl e0 in
      let (seq, e2) = i64-peel r.seq s.seq _ _ vr.seq vs.seq e1 in
      let (ts, e3) = prefixed-peel r.ts s.ts _ _ vr.ts vs.ts e2 in
      let (actor, e4) = actor-peel r.actor_uid s.actor_uid _ _ vr.actor_uid vs.actor_uid e3 in
      let (event, e5) =
        prefixed-peel r.event_type s.event_type _ _ vr.event_type vs.event_type e4 in
      let (subject, e6) = subject-peel r.subject s.subject _ _ vr.subject vs.subject e5 in
      let (detail, e7) =
        prefixed-peel (to_vec r.detail) (to_vec s.detail) _ _ vr.detail vs.detail e6 in
      let (outcome, _) = byte-peel _ _ _ _ e7 in
      record {
        seq = seq;
        ts = ts;
        actor_uid = actor;
        event_type = event;
        subject = subject;
        detail = detail;
        outcome = outcome_byte-injective r.outcome s.outcome outcome;
      }
