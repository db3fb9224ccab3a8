-- ===== src/Audit/Anchor/Prefix.antt =====
-- What an anchor that verifies proves: the rows that were anchored are still the front of the log.
use envctl.Prelude.{
  ℕ, zero, suc, ◌+◌, ◌≡◌, refl, sym, ◌∙◌, ap, false, Option, none, some, List, [], ◌∷◌, ◌++◌, arith,
  Bytes, length, get_elem?, ℤ, pos, ◌≤ℤ◌, max_ℤ, ==_refl, ==_iff, List_eq, ℕ_eq, if◌then◌else◌,
  ltb_ℤ, length-append, eq_of_parts,
}
use envctl.Encoding.{i64_be, sized-peel}
use envctl.Broker.Wire.{Crypto}
use envctl.Audit.{AuditRecord, intact, broken_at, genesis_hash, verify_chain, last}
use envctl.Audit.Chain.{IsChainFrom, end_hash, verify_chain_iff, last_lem}
use envctl.Audit.Tamper.{AllRecords, NoCollision, SameRows, verify_chain-determined}
use envctl.Audit.Anchor.{
  Meta, head_message, audit_head_mac, audit_head_domain, audit_head_key_info, write_audit_anchor,
  last_seq, last_hash, stored_high_water, anchored_hash, check_head, check_stored,
  verify_audit_anchor_with, advance_audit_anchor_if_unlocked,
}

head_message-injective :
    (hw : ℤ) (h h' : Bytes) → head_message hw hw h ≡ head_message hw hw h' → h ≡ h'
unfolding head_message
head_message-injective hw h h' e0 =
    let (_, e1) = sized-peel audit_head_domain audit_head_domain _ _ refl e0 in
    let (_, e2) = sized-peel (i64_be hw) (i64_be hw) _ _ refl e1 in
    let (_, e3) = sized-peel (i64_be hw) (i64_be hw) _ _ refl e2 in e3

module _ {Json : Type 0} (to_vec : Json → Bytes) (hash : Bytes → Bytes) (crypto : Crypto) where
  last-append :
      (i : ℕ) (x : AuditRecord Json) (xs later : List (AuditRecord Json))
      → get_elem? (x ∷ xs ++ later) (length xs) ≡ last to_vec hash (x ∷ xs)
  unfolding last
  last-append i x [] later = refl
  last-append i x (y ∷ xs) later = last-append i y xs later

  anchored_hash-append :
      (rows later : List (AuditRecord Json))
      → IsChainFrom to_vec hash 0 (genesis_hash to_vec hash) rows
      → (last_seq to_vec hash crypto (last to_vec hash rows) ≡ pos (length rows))
        × (anchored_hash to_vec hash crypto (pos (length rows)) (rows ++ later)
            ≡ some (last_hash to_vec hash crypto (last to_vec hash rows)))
  unfolding anchored_hash
  anchored_hash-append [] later c = unfold last in (refl, refl)
  anchored_hash-append (x ∷ xs) later c =
      let (r, e, n, t) = last_lem to_vec hash 0 (genesis_hash to_vec hash) x xs c in
      let seq : r.seq ≡ pos (suc (length xs)) = n ∙ ap pos (omega arith) in
      (rw e seq, rw (last-append 0 x xs later, e, seq) (ground arith))

  above : (a b : ℤ) → a ≤ℤ b → max_ℤ a b ≡ b
  unfolding max_ℤ
  above a b h = let e = eq_of_parts a b in ground arith

  -- What is written for a log that verifies.
  written :
      (dek : Bytes) (meta : Meta) (rows : List (AuditRecord Json))
      → stored_high_water meta.high_water ≤ℤ pos (length rows)
      → IsChainFrom to_vec hash 0 (genesis_hash to_vec hash) rows
      → advance_audit_anchor_if_unlocked to_vec hash crypto (some dek) meta rows ≡ record {
        high_water = some (pos (length rows));
        audit_head = some (
            audit_head_mac crypto dek
              (pos (length rows))
              (pos (length rows))
              (last_hash to_vec hash crypto (last to_vec hash rows)));
      }
  unfolding advance_audit_anchor_if_unlocked write_audit_anchor
  written dek meta rows below c =
      let (seq, _) = anchored_hash-append rows [] c in
      rw (seq, above (stored_high_water meta.high_water) (pos (length rows)) below)

  -- The anchor that an unlocked vault writes for a log that verifies is accepted for that log and
  -- for every longer log that verifies, such as one with rows appended while the vault was locked.
  -- The stored high-water was not above the log.
  pub advance-verify :
      (dek : Bytes) (meta : Meta) (rows later : List (AuditRecord Json))
      → stored_high_water meta.high_water ≤ℤ pos (length rows)
      → verify_chain to_vec hash rows ≡ intact
      → verify_chain to_vec hash (rows ++ later) ≡ intact
      → verify_audit_anchor_with to_vec hash crypto dek
          (advance_audit_anchor_if_unlocked to_vec hash crypto (some dek) meta rows)
          (rows ++ later)
        ≡ intact
  advance-verify dek meta rows later below h h' =
      let c = (verify_chain_iff to_vec hash rows).0 h in
      let c' = (verify_chain_iff to_vec hash (rows ++ later)).0 h' in
      let (seq', _) = anchored_hash-append (rows ++ later) [] c' in
      let (_, anchored) = anchored_hash-append rows later c in
      let grown : ltb_ℤ (pos (length (rows ++ later))) (pos (length rows)) ≡ false =
        let n = length-append rows later in ground arith in
      rw (written dek meta rows below c) (
        unfold verify_audit_anchor_with check_stored check_head in
        rw (h', seq', grown, anchored, ==_refl) refl)

  -- The front of a chain, up to and with its row number `n`.
  record Front (i : ℕ) (p : Bytes) (rows : List (AuditRecord Json)) (n : ℕ) (h : Bytes)
      : Type 0 where
    front : List (AuditRecord Json)
    rest : List (AuditRecord Json)
    split : rows ≡ front ++ rest
    size : length front ≡ suc n
    chain : IsChainFrom to_vec hash i p front
    ends : end_hash to_vec hash p front ≡ h
    records : AllRecords to_vec hash front
    free :
        (old : List (AuditRecord Json))
        → NoCollision to_vec hash old rows
        → NoCollision to_vec hash old front

  NoCollision-front :
      (r : AuditRecord Json) (xs ys : List (AuditRecord Json))
      → ((old : List (AuditRecord Json))
          → NoCollision to_vec hash old ys
          → NoCollision to_vec hash old xs)
      → (old : List (AuditRecord Json)) → NoCollision to_vec hash old (r ∷ ys)
      → NoCollision to_vec hash old (r ∷ xs)
  NoCollision-front r xs ys f [] h = tt
  NoCollision-front r xs ys f (o ∷ old) (h, hs) = (h, f old hs)

  cut_at :
      (i : ℕ) (p : Bytes) (rows : List (AuditRecord Json)) (n : ℕ) (r : AuditRecord Json)
      → IsChainFrom to_vec hash i p rows
      → AllRecords to_vec hash rows
      → get_elem? rows n ≡ some r
      → Front i p rows n r.row_hash
  cut_at i p [] n r c v e = cc
  cut_at i p (x ∷ rows) zero r (l, c) (v, vs) e =
      let same : x ≡ r = cc in
      record {
        front = x ∷ [];
        rest = rows;
        split = refl;
        size = refl;
        chain = (l, tt);
        ends = ap (λ (t : AuditRecord Json). t.row_hash) same;
        records = (v, tt);
        free = NoCollision-front x [] rows (λ old h. none_left old);
      }
    where
      none_left : (old : List (AuditRecord Json)) → NoCollision to_vec hash old []
      none_left [] = tt
      none_left (o ∷ old) = tt
  cut_at i p (x ∷ rows) (suc n) r (l, c) (v, vs) e =
      let f = cut_at (i + 1) x.row_hash rows n r c vs e in
      record {
        front = x ∷ f.front;
        rest = f.rest;
        split = ap (λ t. x ∷ t) f.split;
        size = ap suc f.size;
        chain = (l, f.chain);
        ends = f.ends;
        records = (v, f.records);
        free = NoCollision-front x f.front rows f.free;
      }

  abbrev head_key : Bytes → Bytes
  head_key dek = crypto.derive_key audit_head_key_info dek

  -- The keyed hash does not collide on the head message of `h` and that of a row's hash that
  -- stands where `h` was anchored.
  abbrev pub NoHeadCollision : Bytes → ℤ → Bytes → List (AuditRecord Json) → Type 0
  NoHeadCollision dek hw h rows =
      (g : Bytes)
      → anchored_hash to_vec hash crypto hw rows ≡ some g
      → crypto.keyed_hash (head_key dek) (head_message hw hw g)
        ≡ crypto.keyed_hash (head_key dek) (head_message hw hw h)
      → head_message hw hw g ≡ head_message hw hw h

  -- What an accepted head proves of the row that stands at the high-water.
  accepted_head :
      (dek h : Bytes) (hw : ℤ) (rows : List (AuditRecord Json))
      → NoHeadCollision dek hw h rows
      → check_stored to_vec hash crypto dek
          (some (audit_head_mac crypto dek hw hw h))
          (some hw)
          rows
        ≡ intact
      → anchored_hash to_vec hash crypto hw rows ≡ some h
  unfolding check_stored check_head audit_head_mac
  accepted_head dek h hw rows free e = go (anchored_hash to_vec hash crypto hw rows) refl e
    where
      go :
          (o : Option Bytes)
          → anchored_hash to_vec hash crypto hw rows ≡ o
          → (if ltb_ℤ (last_seq to_vec hash crypto (last to_vec hash rows)) hw
              then broken_at (last_seq to_vec hash crypto (last to_vec hash rows))
              else check_head to_vec hash crypto dek
                  (audit_head_mac crypto dek hw hw h)
                  hw
                  (last_seq to_vec hash crypto (last to_vec hash rows))
                  o)
            ≡ intact
          → anchored_hash to_vec hash crypto hw rows ≡ some h
      go none a e = ground arith
      go (some g) a e =
          let same = free g a in
          let inj = head_message-injective hw g h in
          ground (
            arith,
            inj,
            ==_iff (audit_head_mac crypto dek hw hw g) (audit_head_mac crypto dek hw hw h),
          )

  row_at :
      (n : ℕ) (rows : List (AuditRecord Json)) (h : Bytes)
      → anchored_hash to_vec hash crypto (pos (suc n)) rows ≡ some h
      → (r : AuditRecord Json) × (get_elem? rows n ≡ some r) × (r.row_hash ≡ h)
  unfolding anchored_hash
  row_at n rows h e = go (get_elem? rows n) refl
    where
      go :
          (o : Option (AuditRecord Json))
          → get_elem? rows n ≡ o
          → (r : AuditRecord Json) × (get_elem? rows n ≡ some r) × (r.row_hash ≡ h)
      go none g = ground arith
      go (some r) g = (r, g, ground arith)

  accepted_stored :
      (dek : Bytes) (meta : Meta) (rows : List (AuditRecord Json))
      → verify_audit_anchor_with to_vec hash crypto dek meta rows ≡ intact
      → (verify_chain to_vec hash rows ≡ intact)
        × (check_stored to_vec hash crypto dek meta.audit_head meta.high_water rows ≡ intact)
  unfolding verify_audit_anchor_with
  accepted_stored dek meta rows h = ground arith

  -- When the anchor that was written for the log `old` is accepted for a log `rows`, the rows of
  -- `old` are still the front of `rows`, unchanged in every field that is hashed: no truncation
  -- below the anchored row and no rewriting of it or of what stands before it is accepted. The row
  -- hash has one output length and does not collide on rows at a common position, the keyed hash
  -- does not collide on the head messages, and the fields have the source's widths.
  pub anchor-prefix :
      (dek : Bytes) (meta : Meta) (x : AuditRecord Json) (xs rows : List (AuditRecord Json))
      → ((a b : Bytes) → length (hash a) ≡ length (hash b))
      → AllRecords to_vec hash (x ∷ xs)
      → AllRecords to_vec hash rows
      → NoCollision to_vec hash (x ∷ xs) rows
      → NoHeadCollision dek
          (pos (length (x ∷ xs)))
          (last_hash to_vec hash crypto (last to_vec hash (x ∷ xs)))
          rows
      → stored_high_water meta.high_water ≤ℤ pos (length (x ∷ xs))
      → verify_chain to_vec hash (x ∷ xs) ≡ intact
      → verify_audit_anchor_with to_vec hash crypto dek
          (advance_audit_anchor_if_unlocked to_vec hash crypto (some dek) meta (x ∷ xs))
          rows
        ≡ intact
      → (front rest : List (AuditRecord Json)) × (rows ≡ front ++ rest)
        × SameRows to_vec hash (x ∷ xs) front
  anchor-prefix dek meta x xs rows width vo vr free free_head below ho h =
      let old = x ∷ xs in
      let co = (verify_chain_iff to_vec hash old).0 ho in
      let (chain, head) = accepted_stored dek _ rows (rw (written dek meta old below co) at h) in
      let anchored = accepted_head dek _ (pos (length old)) rows free_head head in
      let (r, at_n, hash_n) = row_at (length xs) rows _ anchored in
      let f =
        cut_at 0 (genesis_hash to_vec hash) rows (length xs) r
          ((verify_chain_iff to_vec hash rows).0 chain) vr at_n in
      let (l, e, _, t) = last_lem to_vec hash 0 (genesis_hash to_vec hash) x xs co in
      let ends : end_hash to_vec hash (genesis_hash to_vec hash) old
          ≡ end_hash to_vec hash (genesis_hash to_vec hash) f.front =
        sym t ∙ sym (rw e at hash_n) ∙ sym f.ends in
      (
        f.front,
        f.rest,
        f.split,
        verify_chain-determined to_vec hash old f.front width vo f.records (f.free old free)
            (sym f.size) ho ((verify_chain_iff to_vec hash f.front).1 f.chain) ends,
      )
