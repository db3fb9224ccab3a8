-- ===== src/Sets/Counting.antt =====
-- Distinct texts, counted: a list of distinct texts is no longer than a list that holds them all.
use envctl.Prelude.{
  ◌+◌, ◌≤◌, ◌≡◌, refl, ◌∙◌, Bool, true, false, ◌||◌, List, [], ◌∷◌, ◌++◌, arith, if◌then◌else◌,
  Bytes, length, AllOf, ◌==◌, ==_iff, List_eq, ℕ_eq,
}
use envctl.Sets.{elem, Distinct, ==_sym}

pub AllOf-append {ℓ} :
    {A : Type ℓ} (P : A → Type 0) (xs ys : List A) → AllOf P xs → AllOf P ys → AllOf P (xs ++ ys)
AllOf-append P [] ys p q = q
AllOf-append P (x ∷ xs) ys p q = (p.0, AllOf-append P xs ys p.1 q)

pub AllOf-map {ℓ} :
    {A : Type ℓ} (P Q : A → Type 0) (xs : List A) → ((a : A) → P a → Q a) → AllOf P xs → AllOf Q xs
AllOf-map P Q [] f p = tt
AllOf-map P Q (x ∷ xs) f p = (f x p.0, AllOf-map P Q xs f p.1)

pub AllOf-zip {ℓ} :
    {A : Type ℓ} (P Q R : A → Type 0) (xs : List A)
    → ((a : A) → P a → Q a → R a)
    → AllOf P xs
    → AllOf Q xs
    → AllOf R xs
AllOf-zip P Q R [] f p q = tt
AllOf-zip P Q R (x ∷ xs) f p q = (f x p.0 q.0, AllOf-zip P Q R xs f p.1 q.1)

pub AllOf-any {ℓ} : {A : Type ℓ} (P : A → Type 0) (xs : List A) → ((a : A) → P a) → AllOf P xs
AllOf-any P [] f = tt
AllOf-any P (x ∷ xs) f = (f x, AllOf-any P xs f)

pub elem-append : (a : Bytes) (xs ys : List Bytes) → elem a (xs ++ ys) ≡ elem a xs || elem a ys
elem-append a [] ys = refl
elem-append a (x ∷ xs) ys = ground (arith, elem-append a xs ys)

-- What holds of all members holds of a member.
pub AllOf-elem :
    (P : Bytes → Type 0) (a : Bytes) (xs : List Bytes) → elem a xs ≡ true → AllOf P xs → P a
AllOf-elem P a [] e p = cc
AllOf-elem P a (x ∷ xs) e p = pick (x == a) refl e (λ h. AllOf-elem P a xs h p.1)
  where
    pick : (b : Bool) → (x == a) ≡ b → (b || elem a xs) ≡ true → (elem a xs ≡ true → P a) → P a
    pick true same h k = rw (← (==_iff x a).0 same) p.0
    pick false other h k = k h

pub Distinct-append :
    (xs ys : List Bytes)
    → Distinct xs
    → Distinct ys
    → AllOf (λ y. elem y xs ≡ false) ys
    → Distinct (xs ++ ys)
unfolding Distinct
Distinct-append [] ys p q h = q
Distinct-append (x ∷ xs) ys p q h =
    let rest = Distinct-append xs ys p.1 q (AllOf-map _ _ ys (λ y e. ground arith) h) in
    (elem-append x xs ys ∙ rw (p.0) (missing ys h), rest)
  where
    missing : (zs : List Bytes) → AllOf (λ y. elem y (x ∷ xs) ≡ false) zs → elem x zs ≡ false
    missing [] m = refl
    missing (z ∷ zs) m = ground (arith, missing zs, ==_sym x z)

-- The list without the first occurrence of a text.
remove : Bytes → List Bytes → List Bytes
remove a [] = []
remove a (x ∷ xs) = if x == a then xs else x ∷ remove a xs

length-remove :
    (a : Bytes) (xs : List Bytes) → elem a xs ≡ true → length xs ≡ 1 + length (remove a xs)
unfolding remove
length-remove a [] e = cc
length-remove a (x ∷ xs) e = ground (arith, length-remove a xs)

elem-remove : (a b : Bytes) (xs : List Bytes) → (a == b) ≡ false → elem b (remove a xs) ≡ elem b xs
unfolding remove
elem-remove a b [] h = refl
elem-remove a b (x ∷ xs) h = ground (arith, elem-remove a b xs, ==_iff x a, ==_iff x b, ==_iff a b)

pub length-Distinct :
    (xs ys : List Bytes) → Distinct xs → AllOf (λ x. elem x ys ≡ true) xs → length xs ≤ length ys
unfolding Distinct
length-Distinct [] ys d h = omega arith
length-Distinct (x ∷ xs) ys d h =
    let rest = length-Distinct xs (remove x ys) d.1 (kept xs d.0 h.1) in
    omega (arith, length-remove x ys h.0, rest)
  where
    kept :
        (zs : List Bytes)
        → elem x zs ≡ false
        → AllOf (λ z. elem z ys ≡ true) zs
        → AllOf (λ z. elem z (remove x ys) ≡ true) zs
    kept [] n p = tt
    kept (z ∷ zs) n p =
        (elem-remove x z ys (==_sym x z ∙ ground arith) ∙ p.0, kept zs (ground arith) p.1)
