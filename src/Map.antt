-- ===== src/Map.antt =====
-- A map as an association list: the maps of the source (`HashMap`, `BTreeMap`) up to the order of
-- their entries.
use envctl.Prelude.{
  ◌≡◌, refl, false, Option, none, some, List, [], ◌∷◌, arith, PartialEq, ◌==◌, if◌then◌else◌,
}

module _ {ℓ κ} {K : Type ℓ} {V : Type κ} ⦃e : PartialEq K⦄ where
  unfoldable pub lookup : K → List (K × V) → Option V
  lookup key [] = none
  lookup key ((other, value) ∷ entries) = if other == key then some value else lookup key entries

  unfoldable pub insert : K → V → List (K × V) → List (K × V)
  insert key value [] = (key, value) ∷ []
  insert key value ((other, w) ∷ entries) =
      if other == key then (key, value) ∷ entries else (other, w) ∷ insert key value entries

  pub lookup-insert :
      (key other : K) (value : V) (entries : List (K × V))
      → lookup other (insert key value entries)
        ≡ (if key == other then some value else lookup other entries)
  unfolding lookup insert
  lookup-insert key other value [] = refl
  lookup-insert key other value ((i, w) ∷ entries) = ground (
    arith,
    e.test_iff key other,
    e.test_iff i key,
    e.test_iff i other,
    lookup-insert key other value entries,
  )

  pub lookup-insert_self :
      (key : K) (value : V) (entries : List (K × V))
      → lookup key (insert key value entries) ≡ some value
  lookup-insert_self key value entries = rw (lookup-insert, (e.test_iff key key).1 refl)

  pub lookup-insert_ne :
      (key other : K) (value : V) (entries : List (K × V))
      → (key == other) ≡ false
      → lookup other (insert key value entries) ≡ lookup other entries
  lookup-insert_ne key other value entries h = rw (lookup-insert, h)
