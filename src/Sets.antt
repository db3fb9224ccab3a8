-- ===== src/Sets.antt =====
-- Membership, distinctness and the `BTreeSet` of texts, in the byte order of `str`.
pub mod Counting
use envctl.Prelude.{
  ℕ, suc, ◌+◌, ◌≤◌, ◌<◌, ◌≡◌, ◌≢◌, refl, sym, ap, ◌∙◌, Bool, true, false, not, ◌&&◌, ◌||◌, List, [],
  ◌∷◌, ◌++◌, map, arith, if◌then◌else◌, ltb, nat_eq, Bytes, length, any, AllOf, ◌==◌, ==_iff,
  ==_refl, List_eq, ℕ_eq, PartialEq, Bool-cases, inl, inr,
}

abbrev pub elem : Bytes → List Bytes → Bool
elem a xs = any (λ b. b == a) xs

unfoldable pub Distinct : List Bytes → Type 0
Distinct [] = Unit
Distinct (x ∷ xs) = elem x xs ≡ false × Distinct xs

-- `Ord for str`
unfoldable pub ltb_bytes : Bytes → Bytes → Bool
ltb_bytes [] [] = false
ltb_bytes [] (y ∷ ys) = true
ltb_bytes (x ∷ xs) [] = false
ltb_bytes (x ∷ xs) (y ∷ ys) = ltb x y || (nat_eq x y && ltb_bytes xs ys)

pub ltb_bytes_irrefl : (a : Bytes) → ltb_bytes a a ≡ false
unfolding ltb_bytes
ltb_bytes_irrefl [] = refl
ltb_bytes_irrefl (x ∷ xs) = ground (arith, ltb_bytes_irrefl xs)

pub ltb_bytes_trans :
    (a b c : Bytes) → ltb_bytes a b ≡ true → ltb_bytes b c ≡ true → ltb_bytes a c ≡ true
unfolding ltb_bytes
ltb_bytes_trans [] [] c p q = q
ltb_bytes_trans [] (y ∷ ys) [] p q = q
ltb_bytes_trans [] (y ∷ ys) (z ∷ zs) p q = refl
ltb_bytes_trans (x ∷ xs) [] c p q = cc
ltb_bytes_trans (x ∷ xs) (y ∷ ys) [] p q = q
ltb_bytes_trans (x ∷ xs) (y ∷ ys) (z ∷ zs) p q = ground (arith, ltb_bytes_trans xs ys zs)

-- Of two texts that differ, one is the smaller.
pub ltb_bytes_total :
    (a b : Bytes) → (a == b) ≡ false → ltb_bytes a b ≡ false → ltb_bytes b a ≡ true
unfolding ltb_bytes
ltb_bytes_total [] [] p q = cc
ltb_bytes_total [] (y ∷ ys) p q = cc
ltb_bytes_total (x ∷ xs) [] p q = refl
ltb_bytes_total (x ∷ xs) (y ∷ ys) p q = ground (arith, ltb_bytes_total xs ys)

-- `BTreeSet::insert`
unfoldable pub insert_set : Bytes → List Bytes → List Bytes
insert_set x [] = x ∷ []
insert_set x (y ∷ ys) =
    if y == x then y ∷ ys else if ltb_bytes x y then x ∷ y ∷ ys else y ∷ insert_set x ys

-- `collect::<BTreeSet<_>>`
unfoldable pub to_set : List Bytes → List Bytes
to_set [] = []
to_set (x ∷ xs) = insert_set x (to_set xs)

pub ==_sym : (a b : Bytes) → (a == b) ≡ (b == a)
==_sym a b = ground (arith, ==_iff a b, ==_iff b a)

elem-insert_set : (a x : Bytes) (ys : List Bytes) → elem a (insert_set x ys) ≡ (x == a) || elem a ys
unfolding insert_set
elem-insert_set a x [] = refl
elem-insert_set a x (y ∷ ys) = ground (arith, elem-insert_set a x ys, ==_iff y x)

pub elem-to_set : (a : Bytes) (xs : List Bytes) → elem a (to_set xs) ≡ elem a xs
unfolding to_set
elem-to_set a [] = refl
elem-to_set a (x ∷ xs) =
    elem-insert_set a x (to_set xs) ∙ ap (λ b. (x == a) || b) (elem-to_set a xs)

IsAscending : List Bytes → Type 0
IsAscending [] = Unit
IsAscending (x ∷ xs) = AllOf (λ y. ltb_bytes x y ≡ true) xs × IsAscending xs

below_all :
    (x y : Bytes) (ys : List Bytes)
    → ltb_bytes x y ≡ true
    → AllOf (λ z. ltb_bytes y z ≡ true) ys
    → AllOf (λ z. ltb_bytes x z ≡ true) ys
below_all x y [] h a = tt
below_all x y (z ∷ zs) h a = (ltb_bytes_trans x y z h a.0, below_all x y zs h a.1)

AllOf-insert_set :
    (x y : Bytes) (ys : List Bytes)
    → ltb_bytes y x ≡ true
    → AllOf (λ z. ltb_bytes y z ≡ true) ys
    → AllOf (λ z. ltb_bytes y z ≡ true) (insert_set x ys)
unfolding insert_set
AllOf-insert_set x y [] h a = (h, tt)
AllOf-insert_set x y (z ∷ zs) h a = ground (arith, AllOf-insert_set x y zs)

insert_set-IsAscending :
    (x : Bytes) (ys : List Bytes) → IsAscending ys → IsAscending (insert_set x ys)
unfolding insert_set IsAscending
insert_set-IsAscending x [] h = (tt, tt)
insert_set-IsAscending x (y ∷ ys) h = elim (Bool-cases (y == x)) [
  | inl same ↦ rw (same) h
  | inr other ↦ elim (Bool-cases (ltb_bytes x y)) [
    | inl low ↦ rw (other, low) ((low, below_all x y ys low h.0), h)
    | inr high ↦
        rw (other, high)
          (
            AllOf-insert_set x y ys (ltb_bytes_total x y (==_sym x y ∙ other) high) h.0,
            insert_set-IsAscending x ys h.1,
          )
  ]
]

not_elem : (x : Bytes) (ys : List Bytes) → AllOf (λ y. ltb_bytes x y ≡ true) ys → elem x ys ≡ false
not_elem x [] h = refl
not_elem x (y ∷ ys) h = ground (arith, not_elem x ys, ltb_bytes_irrefl x, ==_iff y x)

IsAscending-Distinct : (xs : List Bytes) → IsAscending xs → Distinct xs
unfolding IsAscending Distinct
IsAscending-Distinct [] h = tt
IsAscending-Distinct (x ∷ xs) h = (not_elem x xs h.0, IsAscending-Distinct xs h.1)

to_set-IsAscending : (xs : List Bytes) → IsAscending (to_set xs)
unfolding to_set IsAscending
to_set-IsAscending [] = tt
to_set-IsAscending (x ∷ xs) = insert_set-IsAscending x (to_set xs) (to_set-IsAscending xs)

pub to_set-Distinct : (xs : List Bytes) → Distinct (to_set xs)
to_set-Distinct xs = IsAscending-Distinct (to_set xs) (to_set-IsAscending xs)
