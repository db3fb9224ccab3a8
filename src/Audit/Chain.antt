-- ===== src/Audit/Chain.antt =====
-- What `verify_chain` accepts, and that `append_audit` keeps a log acceptable.
use envctl.Prelude.{
  ℕ, suc, ◌+◌, ◌≡◌, refl, ◌∙◌, ap, true, Option, some, List, [], ◌∷◌, ◌++◌, arith, Bytes, length, ℤ,
  pos, ◌+ℤ◌, eqb_ℤ, eq_of_parts, ==_iff, List_eq, ℕ_eq, ◌↔◌, ◌⊎◌, inl, inr,
}
use envctl.Audit.{
  AuditRecord, intact, broken_at, genesis_hash, next_seq, tail_hash, row_hash, link_row,
  verify_from, verify_chain, last, append_audit, canonical_row,
}

eqb_ℤ_iff : (a b : ℤ) → (eqb_ℤ a b ≡ true) ↔ (a ≡ b)
eqb_ℤ_iff a b = ((λ h. eq_of_parts a b (ground arith)), (λ e. rw e (ground arith)))

module _ {Json : Type 0} (to_vec : Json → Bytes) (hash : Bytes → Bytes) where
  -- Row number `i + 1` of a chain whose previous row has the hash `prev`.
  pub record Links (i : ℕ) (prev : Bytes) (r : AuditRecord Json) : Type 0 where
    pub numbered : r.seq ≡ pos (i + 1)
    pub linked : r.prev_hash ≡ prev
    pub sealed : r.row_hash ≡ row_hash to_vec hash r.prev_hash r

  abbrev pub IsChainFrom : ℕ → Bytes → List (AuditRecord Json) → Type 0
  IsChainFrom i prev [] = Unit
  IsChainFrom i prev (r ∷ rows) = Links i prev r × IsChainFrom (i + 1) r.row_hash rows

  abbrev pub IsChain : List (AuditRecord Json) → Type 0
  IsChain rows = IsChainFrom 0 (genesis_hash to_vec hash) rows

  abbrev pub end_hash : Bytes → List (AuditRecord Json) → Bytes
  end_hash prev [] = prev
  end_hash prev (r ∷ rows) = end_hash r.row_hash rows

  pub verify_from_iff :
      (i : ℕ) (prev : Bytes) (rows : List (AuditRecord Json))
      → (verify_from to_vec hash i prev rows ≡ intact) ↔ IsChainFrom i prev rows
  unfolding verify_from
  verify_from_iff i prev [] = ((λ h. tt), (λ h. refl))
  verify_from_iff i prev (r ∷ rows) = ground (
    arith,
    eqb_ℤ_iff r.seq (pos (i + 1)),
    ==_iff r.prev_hash prev,
    ==_iff r.row_hash (row_hash to_vec hash r.prev_hash r),
    verify_from_iff (i + 1) r.row_hash rows,
  )

  pub verify_chain_iff :
      (rows : List (AuditRecord Json)) → (verify_chain to_vec hash rows ≡ intact) ↔ IsChain rows
  unfolding verify_chain
  verify_chain_iff rows = verify_from_iff 0 (genesis_hash to_vec hash) rows

  pub IsChainFrom-append :
      (i j : ℕ) (prev : Bytes) (xs ys : List (AuditRecord Json))
      → j ≡ i + length xs
      → IsChainFrom i prev xs
      → IsChainFrom j (end_hash prev xs) ys
      → IsChainFrom i prev (xs ++ ys)
  IsChainFrom-append i j prev [] ys e hx hy = let same : j ≡ i = omega arith in rw (← same) hy
  IsChainFrom-append i j prev (x ∷ xs) ys e (l, hx) hy =
      (l, IsChainFrom-append (i + 1) j x.row_hash xs ys (omega arith) hx hy)

  pub last_lem :
      (i : ℕ) (prev : Bytes) (x : AuditRecord Json) (xs : List (AuditRecord Json))
      → IsChainFrom i prev (x ∷ xs)
      → (r : AuditRecord Json) × (last to_vec hash (x ∷ xs) ≡ some r)
        × (r.seq ≡ pos (i + length (x ∷ xs)))
        × (r.row_hash ≡ end_hash prev (x ∷ xs))
  unfolding last
  last_lem i prev x [] (l, h) = (x, refl, l.numbered, refl)
  last_lem i prev x (y ∷ xs) (l, h) =
      let (r, e, n, t) = last_lem (i + 1) x.row_hash y xs h in (r, e, n ∙ ap pos (omega arith), t)

  link_row-Links :
      (i : ℕ) (prev : Option (AuditRecord Json)) (h : Bytes) (rec : AuditRecord Json)
      → next_seq to_vec hash prev ≡ pos (i + 1)
      → tail_hash to_vec hash prev ≡ h
      → Links i h (link_row to_vec hash prev rec)
  unfolding link_row row_hash canonical_row
  link_row-Links i prev h rec n t = record { numbered = n; linked = t; sealed = refl }

  tail_facts :
      (rows : List (AuditRecord Json))
      → IsChain rows
      → (next_seq to_vec hash (last to_vec hash rows) ≡ pos (length rows + 1))
        × (tail_hash to_vec hash (last to_vec hash rows) ≡ end_hash (genesis_hash to_vec hash) rows)
  tail_facts [] h = unfold last ◌+ℤ◌ in (ground arith, refl)
  tail_facts (x ∷ xs) h =
      let (r, e, n, t) = last_lem 0 (genesis_hash to_vec hash) x xs h in
      rw e (rw n (unfold ◌+ℤ◌ in ground arith), t)

  -- A log that verifies still verifies when a record is appended, whatever the record says, and the
  -- new row is numbered by the length of the log.
  pub append_audit-intact :
      (rows : List (AuditRecord Json)) (rec : AuditRecord Json)
      → verify_chain to_vec hash rows ≡ intact
      → (verify_chain to_vec hash (append_audit to_vec hash rows rec).0 ≡ intact)
        × ((append_audit to_vec hash rows rec).1 ≡ pos (length rows + 1))
  unfolding verify_chain append_audit
  append_audit-intact rows rec h =
      let chain = (verify_from_iff 0 (genesis_hash to_vec hash) rows).0 h in
      let (n, t) = tail_facts rows chain in
      let link = link_row-Links (length rows) (last to_vec hash rows) _ rec n t in
      (
        (verify_from_iff 0 (genesis_hash to_vec hash) _).1
            (IsChainFrom-append 0 (length rows) _ rows _ (omega arith) chain (link, tt)),
        link.numbered,
      )

  -- The first row that breaks a chain, behind the rows that verify.
  pub record FirstBreak (i : ℕ) (prev : Bytes) (rows : List (AuditRecord Json)) (s : ℤ)
      : Type 0 where
    pub front : List (AuditRecord Json)
    pub bad : AuditRecord Json
    pub rest : List (AuditRecord Json)
    pub split : rows ≡ front ++ bad ∷ rest
    pub good : IsChainFrom i prev front
    pub unlinked : ¬ (Links (i + length front) (end_hash prev front) bad)
    pub named : bad.seq ≡ s

  first_row :
      (i : ℕ) (prev : Bytes) (r : AuditRecord Json) (rows : List (AuditRecord Json)) (s : ℤ)
      → verify_from to_vec hash i prev (r ∷ rows) ≡ broken_at s
      → (¬ (Links i prev r)) × (r.seq ≡ s)
        ⊎ (Links i prev r) × (verify_from to_vec hash (i + 1) r.row_hash rows ≡ broken_at s)
  unfolding verify_from
  first_row i prev r rows s h = ground (
    arith,
    eqb_ℤ_iff r.seq (pos (i + 1)),
    ==_iff r.prev_hash prev,
    ==_iff r.row_hash (row_hash to_vec hash r.prev_hash r),
  )

  verify_from-broken :
      (i : ℕ) (prev : Bytes) (rows : List (AuditRecord Json)) (s : ℤ)
      → verify_from to_vec hash i prev rows ≡ broken_at s
      → FirstBreak i prev rows s
  unfolding verify_from
  verify_from-broken i prev [] s h = cc
  verify_from-broken i prev (r ∷ rows) s h = elim (first_row i prev r rows s h) [
    | inl (unlinked, named) ↦ record {
      front = [];
      bad = r;
      rest = rows;
      split = refl;
      good = tt;
      unlinked = let same : i + 0 ≡ i = omega arith in rw same unlinked;
      named = named;
    }
    | inr (link, h') ↦
        let b = verify_from-broken (i + 1) r.row_hash rows s h' in
        let same : i + 1 + length b.front ≡ i + suc (length b.front) = omega arith in
        record {
          front = r ∷ b.front;
          bad = b.bad;
          rest = b.rest;
          split = ap (λ t. r ∷ t) b.split;
          good = (link, b.good);
          unlinked = rw (← same) b.unlinked;
          named = b.named;
        }
  ]

  -- `verify_chain` reports the number of the first row that is not linked: the rows in front of it
  -- are a chain, and it is not the next row of that chain.
  pub verify_chain-broken :
      (rows : List (AuditRecord Json)) (s : ℤ)
      → verify_chain to_vec hash rows ≡ broken_at s
      → FirstBreak 0 (genesis_hash to_vec hash) rows s
  unfolding verify_chain
  verify_chain-broken rows s h = verify_from-broken 0 _ rows s h
