-- ===== src/Vault/Store/Versions.antt =====
-- What the secret rows of `InMemStore` keep: every row id was reserved once and is used once, and
-- the newest version of a name is the one that was put last.
use envctl.Prelude.{
  ◌+◌, ◌<◌, ◌≡◌, refl, Bool, true, false, ◌||◌, ◌≢◌, some, List, [], ◌∷◌, ◌++◌, arith, Bytes, any,
  ◌==◌, ==_iff, ==_refl, List_eq, ℕ_eq, ℤ, pos, ◌+ℤ◌, eqb_ℤ, leb_ℤ, ltb_ℤ,
}
use envctl.Vault.Rows.{SecretRow}
use envctl.Vault.Store.{
  Secrets, stored, put_secret, reserve_secret_row_id, max_secret_version, get_secret_latest,
}

-- No two rows have one id, and every id lies in 1..=high.
unfoldable pub DistinctIds : ℤ → List SecretRow → Type 0
DistinctIds high [] = Unit
DistinctIds high (r ∷ rows) =
    ltb_ℤ (pos 0) r.row_id ≡ true
    × leb_ℤ r.row_id high ≡ true
    × any (λ q. eqb_ℤ q.row_id r.row_id) rows ≡ false
    × DistinctIds high rows

get_secret_latest-append :
    (name : Bytes) (rows : List SecretRow) (row : SecretRow)
    → (row.name == name) ≡ true
    → max_secret_version name rows < row.version
    → get_secret_latest name (rows ++ row ∷ []) ≡ some row
unfolding get_secret_latest max_secret_version
get_secret_latest-append name [] row n v = rw n
get_secret_latest-append name (r ∷ rows) row n v =
    ground (arith, get_secret_latest-append name rows row)

get_secret_latest-append_other :
    (name : Bytes) (rows : List SecretRow) (row : SecretRow)
    → (row.name == name) ≡ false
    → get_secret_latest name (rows ++ row ∷ []) ≡ get_secret_latest name rows
unfolding get_secret_latest
get_secret_latest-append_other name [] row n = rw n
get_secret_latest-append_other name (r ∷ rows) row n =
    rw (get_secret_latest-append_other name rows row n)

-- What a stored secret tells: the new rows, the returned id and the tests that it passed.
put_secret-stored :
    (row : SecretRow) (s s' : Secrets) (id : ℤ)
    → put_secret row s ≡ stored s' id
    → (s' ≡ record s { rows = s.rows ++ row ∷ [] })
      × (id ≡ row.row_id)
      × leb_ℤ row.row_id (pos 0) ≡ false
      × ltb_ℤ s.next_secret_row_id row.row_id ≡ false
      × any (λ r. eqb_ℤ r.row_id row.row_id) s.rows ≡ false
      × row.version ≡ max_secret_version row.name s.rows + 1
unfolding put_secret
put_secret-stored row s s' id h = ground arith

test-false : (a b : Bytes) → a ≢ b → (a == b) ≡ false
test-false a b ne = ground (arith, ==_iff a b)

-- After a secret is stored, the latest version of its name is that secret, and of each other name
-- the one it was.
pub get_secret_latest-put_secret :
    (row : SecretRow) (s s' : Secrets) (id : ℤ) (name : Bytes)
    → put_secret row s ≡ stored s' id
    → get_secret_latest row.name s'.rows ≡ some row
      × (row.name ≢ name → get_secret_latest name s'.rows ≡ get_secret_latest name s.rows)
get_secret_latest-put_secret row s s' id name h =
    let (e, _, _, _, _, v) = put_secret-stored row s s' id h in
    (
      rw (e, get_secret_latest-append row.name s.rows row (==_refl row.name) (omega (arith, v))),
      λ ne. rw (e, get_secret_latest-append_other name s.rows row (test-false row.name name ne)),
    )

any-append :
    (p : SecretRow → Bool) (xs : List SecretRow) (y : SecretRow)
    → any p (xs ++ y ∷ []) ≡ any p xs || p y
any-append p [] y = ground arith
any-append p (x ∷ xs) y = ground (arith, any-append p xs y)

eqb_ℤ_sym : (a b : ℤ) → eqb_ℤ a b ≡ eqb_ℤ b a
eqb_ℤ_sym a b = ground arith

DistinctIds-append :
    (high : ℤ) (rows : List SecretRow) (row : SecretRow)
    → DistinctIds high rows
    → ltb_ℤ (pos 0) row.row_id ≡ true
    → leb_ℤ row.row_id high ≡ true
    → any (λ r. eqb_ℤ r.row_id row.row_id) rows ≡ false
    → DistinctIds high (rows ++ row ∷ [])
unfolding DistinctIds
DistinctIds-append high [] row d l h a = (l, h, refl, tt)
DistinctIds-append high (r ∷ rows) row d l h a =
    let (p, q, n, ds) = d in
    let tail = DistinctIds-append high rows row ds l h (ground arith) in
    let new = any-append (λ x. eqb_ℤ x.row_id r.row_id) rows row in
    let flip = eqb_ℤ_sym r.row_id row.row_id in (p, q, ground arith, tail)

DistinctIds-weaken :
    (high high' : ℤ) (rows : List SecretRow)
    → leb_ℤ high high' ≡ true
    → DistinctIds high rows
    → DistinctIds high' rows
unfolding DistinctIds
DistinctIds-weaken high high' [] l d = tt
DistinctIds-weaken high high' (r ∷ rows) l d =
    let (p, q, n, ds) = d in (p, ground arith, n, DistinctIds-weaken high high' rows l ds)

above : (a : ℤ) → leb_ℤ a (a +ℤ pos 1) ≡ true × ltb_ℤ a (a +ℤ pos 1) ≡ true
unfolding ◌+ℤ◌
above a = ground arith

-- Reserving a row id and storing a secret both keep the row ids distinct and within 1..=the mark,
-- and the reserved id is above the old mark, so no row has it.
pub store-DistinctIds :
    (row : SecretRow) (s s' : Secrets) (id : ℤ)
    → DistinctIds s.next_secret_row_id s.rows
    → put_secret row s ≡ stored s' id
    → DistinctIds s'.next_secret_row_id s'.rows
      × DistinctIds (reserve_secret_row_id s).0.next_secret_row_id s.rows
      × ltb_ℤ s.next_secret_row_id (reserve_secret_row_id s).1 ≡ true
unfolding reserve_secret_row_id
store-DistinctIds row s s' id d h =
    let (e, _, p, q, n, _) = put_secret-stored row s s' id h in
    let next = s.next_secret_row_id in
    let grown = DistinctIds-append next s.rows row d (ground arith) (ground arith) n in
    (rw (e) grown, DistinctIds-weaken next (next +ℤ pos 1) s.rows (above next).0 d, (above next).1)
