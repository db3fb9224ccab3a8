-- ===== src/Audit/Tamper.antt =====
-- Two chains that verify and end in the same hash are the same chain, unless the hash collides on
-- two rows at the same position.
use envctl.Prelude.{
  ℕ, ◌+◌, ◌≡◌, refl, sym, ◌∙◌, List, [], ◌∷◌, ◌++◌, arith, Bytes, length, append-injective,
}
use envctl.Audit.{AuditRecord, intact, genesis_hash, canonical_row, row_hash, verify_chain}
use envctl.Audit.Canonical.{IsRecord, SameContent, canonical_row-injective}
use envctl.Audit.Chain.{IsChainFrom, end_hash, verify_from_iff}

module _ {Json : Type 0} (to_vec : Json → Bytes) (hash : Bytes → Bytes) where
  -- What is hashed for a row.
  abbrev pub hashed : AuditRecord Json → Bytes
  hashed r = r.prev_hash ++ canonical_row to_vec hash r

  -- The hash does not collide on the rows at a common position.
  abbrev pub NoCollision : List (AuditRecord Json) → List (AuditRecord Json) → Type 0
  NoCollision (r ∷ rs) (s ∷ ss) =
      (hash (hashed r) ≡ hash (hashed s) → hashed r ≡ hashed s) × NoCollision rs ss
  NoCollision _ _ = Unit

  abbrev pub AllRecords : List (AuditRecord Json) → Type 0
  AllRecords [] = Unit
  AllRecords (r ∷ rs) = IsRecord to_vec hash r × AllRecords rs

  abbrev pub SameRows : List (AuditRecord Json) → List (AuditRecord Json) → Type 0
  SameRows [] [] = Unit
  SameRows (r ∷ rs) (s ∷ ss) =
      SameContent to_vec hash r s × (r.row_hash ≡ s.row_hash) × SameRows rs ss
  SameRows _ _ = ⊥

  same_rows :
      (i : ℕ) (p q : Bytes) (rs ss : List (AuditRecord Json))
      → ((x y : Bytes) → length (hash x) ≡ length (hash y))
      → length p ≡ length q
      → length rs ≡ length ss
      → IsChainFrom to_vec hash i p rs
      → IsChainFrom to_vec hash i q ss
      → AllRecords rs
      → AllRecords ss
      → NoCollision rs ss
      → end_hash to_vec hash p rs ≡ end_hash to_vec hash q ss
      → (p ≡ q) × SameRows rs ss
  unfolding row_hash
  same_rows i p q [] [] width lp n cr cs vr vs free e = (e, tt)
  same_rows i p q [] (s ∷ ss) width lp n cr cs vr vs free e = absurd (omega arith)
  same_rows i p q (r ∷ rs) [] width lp n cr cs vr vs free e = absurd (omega arith)
  same_rows i p q (r ∷ rs) (s ∷ ss) width lp n (lr, cr) (ls, cs) (vr, vrs) (vs, vss) (free, frees)
        e =
      let wide : length r.row_hash ≡ length s.row_hash =
        rw (lr.sealed, ls.sealed) (width (hashed r) (hashed s)) in
      let (tails, rows) =
        same_rows (i + 1) r.row_hash s.row_hash rs ss width wide (omega arith) cr cs vrs vss frees
          e in
      let inputs = free (sym lr.sealed ∙ tails ∙ ls.sealed) in
      let lp' : length r.prev_hash ≡ length s.prev_hash = rw (lr.linked, ls.linked) lp in
      let (prevs, contents) = append-injective r.prev_hash _ s.prev_hash _ lp' inputs in
      (
        sym lr.linked ∙ prevs ∙ ls.linked,
        (canonical_row-injective to_vec hash r s vr vs contents, tails, rows),
      )

  -- Two logs that verify, have the same length and end in the same hash hold the same rows in every
  -- field that is hashed. The hash has one output length, and does not collide on the rows that
  -- stand at a common position of the two; the fields have the source's widths.
  pub verify_chain-determined :
      (rs ss : List (AuditRecord Json))
      → ((x y : Bytes) → length (hash x) ≡ length (hash y))
      → AllRecords rs
      → AllRecords ss
      → NoCollision rs ss
      → length rs ≡ length ss
      → verify_chain to_vec hash rs ≡ intact
      → verify_chain to_vec hash ss ≡ intact
      → end_hash to_vec hash (genesis_hash to_vec hash) rs
        ≡ end_hash to_vec hash (genesis_hash to_vec hash) ss
      → SameRows rs ss
  unfolding verify_chain
  verify_chain-determined rs ss width vrs vss free n hr hs e =
      (same_rows 0 _ _ rs ss width refl n ((verify_from_iff to_vec hash 0 _ rs).0 hr)
        ((verify_from_iff to_vec hash 0 _ ss).0 hs) vrs vss free e).1
