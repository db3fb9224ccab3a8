-- ===== src/Vault/Store/Policies.antt =====
-- crates/secrets-engine/src/vault/store.rs: a saved relay policy, found again by the id that
-- `InMemStore::save_relay_policy` gave it.
use envctl.Prelude.{
  ◌≡◌, refl, Bool, true, false, Option, none, some, List, [], ◌∷◌, arith, AllOf, Bool-cases, inl,
  inr, ◌==◌, List_eq, ℕ_eq, ℤ, pos, ◌+ℤ◌, eqb_ℤ, leb_ℤ, max_ℤ,
}
use envctl.Vault.Rows.{RelayPolicyRow}
use envctl.Vault.Store.{
  find, upsert, max_id, fresh_id, assigned_id, load_relay_policy, save_relay_policy,
}

-- No two policy rows have one id.
abbrev pub HasDistinctIds : List RelayPolicyRow → Type 0
HasDistinctIds [] = Unit
HasDistinctIds (r ∷ rows) = AllOf (λ q. eqb_ℤ q.id r.id ≡ false) rows × HasDistinctIds rows

eqb_ℤ_refl : (a : ℤ) → eqb_ℤ a a ≡ true
eqb_ℤ_refl a = ground arith

eqb_ℤ_flip : (a b : ℤ) → eqb_ℤ a b ≡ false → eqb_ℤ b a ≡ false
eqb_ℤ_flip a b h = ground arith

find-AllOf :
    (p : RelayPolicyRow → Bool) (P : RelayPolicyRow → Type 0) (rows : List RelayPolicyRow)
    (r : RelayPolicyRow)
    → find p rows ≡ some r
    → AllOf P rows
    → P r
unfolding find
find-AllOf p P [] r h a = cc
find-AllOf p P (x ∷ rows) r h (a, rest) = elim (Bool-cases (p x)) [
  | inl e ↦ let same : x ≡ r = ground arith in rw (← same) a
  | inr e ↦ let later : find p rows ≡ some r = ground arith in find-AllOf p P rows r later rest
]

replaced-found :
    (p : RelayPolicyRow → Bool) (new old : RelayPolicyRow) (rows : List RelayPolicyRow)
    → find p rows ≡ some old
    → HasDistinctIds rows
    → new.id ≡ old.id
    → find (λ r. eqb_ℤ r.id new.id) (upsert p new rows) ≡ some new
unfolding find upsert
replaced-found p new old [] f d e = cc
replaced-found p new old (x ∷ rows) f (a, d) e = elim (Bool-cases (p x)) [
  | inl h ↦ rw (h, eqb_ℤ_refl new.id) refl
  | inr h ↦
      let later : find p rows ≡ some old = ground arith in
      let other : eqb_ℤ old.id x.id ≡ false =
        find-AllOf p (λ q. eqb_ℤ q.id x.id ≡ false) rows old later a in
      let misses : eqb_ℤ x.id new.id ≡ false = rw (e) (eqb_ℤ_flip old.id x.id other) in
      rw (h, misses) (replaced-found p new old rows later d e)
]

added-found :
    (p : RelayPolicyRow → Bool) (new : RelayPolicyRow) (rows : List RelayPolicyRow)
    → find p rows ≡ none
    → AllOf (λ q. eqb_ℤ q.id new.id ≡ false) rows
    → find (λ r. eqb_ℤ r.id new.id) (upsert p new rows) ≡ some new
unfolding find upsert
added-found p new [] f a = rw (eqb_ℤ_refl new.id) refl
added-found p new (x ∷ rows) f (a, rest) = elim (Bool-cases (p x)) [
  | inl h ↦ absurd (ground arith)
  | inr h ↦
      let later : find p rows ≡ none = ground arith in rw (h, a) (added-found p new rows later rest)
]

AllOf-below :
    (m m' : ℤ) (rows : List RelayPolicyRow)
    → leb_ℤ m m' ≡ true
    → AllOf (λ q. leb_ℤ q.id m ≡ true) rows
    → AllOf (λ q. leb_ℤ q.id m' ≡ true) rows
AllOf-below m m' [] h a = tt
AllOf-below m m' (r ∷ rows) h (a, rest) = (ground arith, AllOf-below m m' rows h rest)

le-max_ℤ : (a b : ℤ) → (leb_ℤ a (max_ℤ a b) ≡ true) × (leb_ℤ b (max_ℤ a b) ≡ true)
unfolding max_ℤ
le-max_ℤ a b = ground arith

-- There is no row, or no row has an id above the bound.
abbrev IsBound : Option ℤ → List RelayPolicyRow → Type 0
IsBound none rows = rows ≡ []
IsBound (some m) rows = AllOf (λ q. leb_ℤ q.id m ≡ true) rows

max_id-IsBound : (rows : List RelayPolicyRow) → IsBound (max_id rows) rows
unfolding max_id
max_id-IsBound [] = refl
max_id-IsBound (r ∷ rows) = by_rest (max_id rows) (max_id-IsBound rows)
  where
    by_rest :
        (o : Option ℤ)
        → IsBound o rows
        → IsBound (elim o [ none ↦ some r.id | some n ↦ some (max_ℤ r.id n) ]) (r ∷ rows)
    by_rest none e = rw (e) (ground arith, tt)
    by_rest (some n) a =
        let (l, l') = le-max_ℤ r.id n in (l, AllOf-below n (max_ℤ r.id n) rows l' a)

above : (b c : ℤ) → leb_ℤ b c ≡ true → eqb_ℤ b (c +ℤ pos 1) ≡ false
unfolding ◌+ℤ◌
above b c h = ground arith

AllOf-other :
    (m : ℤ) (rows : List RelayPolicyRow)
    → AllOf (λ q. leb_ℤ q.id m ≡ true) rows
    → AllOf (λ q. eqb_ℤ q.id (m +ℤ pos 1) ≡ false) rows
AllOf-other m [] a = tt
AllOf-other m (r ∷ rows) (a, rest) = (above r.id m a, AllOf-other m rows rest)

fresh_id-IsNew :
    (rows : List RelayPolicyRow) → AllOf (λ q. eqb_ℤ q.id (fresh_id (max_id rows)) ≡ false) rows
unfolding fresh_id
fresh_id-IsNew rows = by_max (max_id rows) (max_id-IsBound rows)
  where
    by_max : (o : Option ℤ) → IsBound o rows → AllOf (λ q. eqb_ℤ q.id (fresh_id o) ≡ false) rows
    by_max none e = rw (e) tt
    by_max (some m) a = AllOf-other m rows a

-- A policy that is saved without an id is the one that its new id finds.
pub find-save_relay_policy :
    (row : RelayPolicyRow) (relays : List RelayPolicyRow)
    → row.id ≡ pos 0
    → HasDistinctIds relays
    → let (relays', id) = save_relay_policy row relays in
      find (λ r. eqb_ℤ r.id id) relays' ≡ some (record { id = id; policy = row.policy })
unfolding save_relay_policy assigned_id load_relay_policy
find-save_relay_policy row relays z d =
    rw (z) (by_existing (load_relay_policy row.policy.relay_id relays) refl)
  where
    own : RelayPolicyRow → Bool
    own r = r.policy.relay_id == row.policy.relay_id

    by_existing :
        (o : Option RelayPolicyRow)
        → load_relay_policy row.policy.relay_id relays ≡ o
        → let new : RelayPolicyRow = record { id = assigned_id o relays; policy = row.policy } in
          find (λ r. eqb_ℤ r.id new.id) (upsert own new relays) ≡ some new
    by_existing none f = added-found own _ relays f (fresh_id-IsNew relays)
    by_existing (some old) f = replaced-found own _ old relays f d refl
