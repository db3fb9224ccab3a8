-- ===== src/Graph/Paths.antt =====
-- `dependency_paths` against the chains of requirements.
use mathlib.Core.List.{append_assoc}
use mathlib.Core.Path.{subst}
use envctl.Prelude.{
  ℕ, zero, suc, ◌+◌, ◌<◌, ◌≡◌, ◌↔◌, ◌⊎◌, refl, sym, ap, ◌∙◌, true, false, Option, none, some, List,
  [], ◌∷◌, ◌++◌, arith, Bytes, length, length-append, AllOf, AnyOf, ◌==◌, ==_iff, ==_refl, List_eq,
  ℕ_eq, Bool-cases, inl, inr,
}
use envctl.Sets.{elem, Distinct}
use envctl.Sets.Counting.{AllOf-append, Distinct-append, length-Distinct}
use envctl.Manifest.{Component}
use envctl.Registry.{ids, find_component}
use envctl.Registry.Sound.{length-ids}
use envctl.Graph.{requires_of, reverse, both, walk_all, walk_requires, walk, dependency_paths}

-- A chain of requirements from `id` down to a component that requires nothing, of components that are
-- neither in `acc` nor in the chain above them.
pub data Climb (cs : List Component) : (acc : List Bytes) → Bytes → List Bytes → Type 0 where
  foundation : (acc : List Bytes) (id : Bytes) → requires_of cs id ≡ [] → Climb cs acc id (id ∷ [])
  climb :
      (acc : List Bytes) (id r : Bytes) (q : List Bytes)
      → elem r (requires_of cs id) ≡ true
      → elem r (acc ++ id ∷ []) ≡ false
      → Climb cs (acc ++ id ∷ []) r q
      → Climb cs acc id (id ∷ q)

abbrev pub In : List Bytes → List (List Bytes) → Type 0
In p out = AnyOf (λ x. x ≡ p) out

In-append : (p : List Bytes) (xs ys : List (List Bytes)) → In p (xs ++ ys) ↔ (In p xs ⊎ In p ys)
In-append p [] ys = (inr, λ h. elim h [ inl x ↦ elim x [ ] | inr y ↦ y ])
In-append p (x ∷ xs) ys = (to (In-append p xs ys), from (In-append p xs ys))
  where
    to : (In p (xs ++ ys) ↔ (In p xs ⊎ In p ys)) → In p (x ∷ xs ++ ys) → (In p (x ∷ xs) ⊎ In p ys)
    to rest (inl e) = inl (inl e)
    to rest (inr h) = elim (rest.0 h) [ inl a ↦ inl (inr a) | inr b ↦ inr b ]

    from : (In p (xs ++ ys) ↔ (In p xs ⊎ In p ys)) → (In p (x ∷ xs) ⊎ In p ys) → In p (x ∷ xs ++ ys)
    from rest (inl (inl e)) = inl e
    from rest (inl (inr a)) = inr (rest.1 (inl a))
    from rest (inr b) = inr (rest.1 (inr b))

requires_of-known :
    (cs : List Component) (id r : Bytes) (rs : List Bytes)
    → requires_of cs id ≡ r ∷ rs
    → elem id (ids cs) ≡ true
unfolding requires_of find_component
requires_of-known [] id r rs h = cc
requires_of-known (c ∷ cs) id r rs h = elim (Bool-cases (c.id == id)) [
  | inl e ↦ rw (e) refl
  | inr e ↦ rw (e) (requires_of-known cs id r rs (rw (requires_of, find_component, e) at h))
]

module _ (cs : List Component) where
  -- The paths that are to be found below the chain `acc`, at `id`.
  PathAt : (acc : List Bytes) → Bytes → List Bytes → Type 0
  PathAt acc id p = (q : List Bytes) × Climb cs acc id q × (p ≡ reverse (acc ++ q))

  Found : (acc : List Bytes) → Bytes → Option (List (List Bytes)) → Type 0
  Found acc id none = ⊥
  Found acc id (some out) = (p : List Bytes) → In p out ↔ PathAt acc id p

  -- The same, at the requirements that are not in the chain.
  PathsAt : (acc reqs : List Bytes) → List Bytes → Type 0
  PathsAt acc reqs p = (r : Bytes) × (elem r reqs ≡ true) × (elem r acc ≡ false) × PathAt acc r p

  FoundAll : (acc reqs : List Bytes) → Option (List (List Bytes)) → Type 0
  FoundAll acc reqs none = ⊥
  FoundAll acc reqs (some out) = (p : List Bytes) → In p out ↔ PathsAt acc reqs p

  both-FoundAll :
      (acc : List Bytes) (r : Bytes) (rs : List Bytes) (a b : Option (List (List Bytes)))
      → elem r acc ≡ false
      → Found acc r a
      → FoundAll acc rs b
      → FoundAll acc (r ∷ rs) (both a b)
  unfolding Found FoundAll PathsAt
  both-FoundAll acc r rs none b e f g = f
  both-FoundAll acc r rs (some xs) none e f g = g
  both-FoundAll acc r rs (some xs) (some ys) e f g = λ p. (
    (λ h. elim ((In-append p xs ys).0 h) [
      | inl x ↦ (r, ground (arith, ==_refl r), e, (f p).0 x)
      | inr y ↦ let (s, i, o, c) = (g p).0 y in (s, ground (arith, i), o, c)
    ]),
    (λ (s, i, o, c). (In-append p xs ys).1 (elim (Bool-cases (r == s)) [
      | inl same ↦ inl ((f p).1 (subst (λ x. PathAt acc x p) (sym ((==_iff r s).0 same)) c))
      | inr other ↦ inr ((g p).1 (s, ground arith, o, c))
    ])),
  )

  walk_all-FoundAll :
      (f : Bytes → List Bytes → Option (List (List Bytes))) (acc rs : List Bytes)
      → ((r : Bytes) → elem r acc ≡ false → Found acc r (f r acc))
      → FoundAll acc rs (walk_all f acc rs)
  unfolding walk_all FoundAll PathsAt
  walk_all-FoundAll f acc [] h = λ p. ((λ e. elim e [ ]), (λ (s, i, o, c). absurd (none_of i)))
    where
      none_of : false ≡ true → ⊥
      none_of e = cc
  walk_all-FoundAll f acc (r ∷ rs) h = elim (Bool-cases (elem r acc)) [
    | inl e ↦ rw (e) (skipped e (walk_all f acc rs) (walk_all-FoundAll f acc rs h))
    | inr e ↦ rw (e) (
        both-FoundAll acc r rs (f r acc) (walk_all f acc rs) e (h r e)
          (walk_all-FoundAll f acc rs h))
  ]
    where
      skipped :
          elem r acc ≡ true
          → (o : Option (List (List Bytes))) → FoundAll acc rs o
          → FoundAll acc (r ∷ rs) o
      skipped e none g = g
      skipped e (some out) g = λ p. (
        (λ y. let (s, i, o, c) = (g p).0 y in (s, ground (arith, i), o, c)),
        (λ (s, i, o, c). (g p).1 (s, later s i o, o, c)),
      )
        where
          later : (s : Bytes) → elem s (r ∷ rs) ≡ true → elem s acc ≡ false → elem s rs ≡ true
          later s i o = ground (arith, ==_iff r s)

  clash : {x : Bytes} {xs : List Bytes} → ◌≡◌ {A = List Bytes} [] (x ∷ xs) → ⊥
  clash e = cc

  nothing : (r : Bytes) (reqs : List Bytes) → reqs ≡ [] → elem r reqs ≡ true → ⊥
  nothing r [] e h = cc
  nothing r (x ∷ xs) e h = cc

  at_foundation :
      (acc : List Bytes) (id : Bytes)
      → requires_of cs id ≡ []
      → Found acc id (some (reverse (acc ++ id ∷ []) ∷ []))
  unfolding Found PathAt
  at_foundation acc id e = λ p. (
    (λ h. elim h [ inl x ↦ (id ∷ [], foundation acc id e, sym x) | inr y ↦ elim y [ ] ]),
    (λ (q, c, x). only p q c x),
  )
    where
      only :
          (p q : List Bytes)
          → Climb cs acc id q
          → p ≡ reverse (acc ++ q)
          → In p (reverse (acc ++ id ∷ []) ∷ [])
      only p _ (foundation a i k) x = inl (sym x)
      only p _ (climb a i r q m o c) x = absurd (nothing r (requires_of cs i) e m)

  at_requires :
      (acc : List Bytes) (id r : Bytes) (rs : List Bytes) (o : Option (List (List Bytes)))
      → requires_of cs id ≡ r ∷ rs
      → FoundAll (acc ++ id ∷ []) (r ∷ rs) o
      → Found acc id o
  unfolding Found FoundAll PathsAt PathAt
  at_requires acc id r rs none e g = g
  at_requires acc id r rs (some out) e g = λ p. (
    (λ h.
        let (s, i, o, (q, c, x)) = (g p).0 h in
        (id ∷ q, climb acc id s q (rw (e) i) o c, x ∙ ap reverse (append_assoc acc (id ∷ []) q))),
    (λ (q, c, x). below p q c x),
  )
    where
      below : (p q : List Bytes) → Climb cs acc id q → p ≡ reverse (acc ++ q) → In p out
      below p _ (foundation a i k) x = absurd (clash (sym k ∙ e))
      below p _ (climb a i s q m o c) x =
          (g p).1 (s, rw (e) at m, o, (q, c, x ∙ ap reverse (sym (append_assoc acc (id ∷ []) q))))

  walk-Found :
      (fuel : ℕ) (id : Bytes) (acc : List Bytes)
      → length cs < length acc + fuel
      → Distinct acc
      → AllOf (λ a. elem a (ids cs) ≡ true) acc
      → elem id acc ≡ false
      → Found acc id (walk fuel cs id acc)
  unfolding walk walk_requires Distinct
  walk-Found zero id acc l d k n =
      let bound = length-Distinct acc (ids cs) d k in
      let same = length-ids cs in absurd (omega arith)
  walk-Found (suc fuel) id acc l d k n = at (requires_of cs id) refl (λ known r e.
      walk-Found fuel r (acc ++ id ∷ []) (let m = length-append acc (id ∷ []) in omega arith)
        (Distinct-append acc (id ∷ []) d (single id) (n, tt))
        (AllOf-append _ acc (id ∷ []) k (known, tt)) e)
    where
      single : (x : Bytes) → Distinct (x ∷ [])
      single x = (refl, tt)

      at :
          (reqs : List Bytes)
          → requires_of cs id ≡ reqs
          → (elem id (ids cs) ≡ true
              → (r : Bytes) → elem r (acc ++ id ∷ []) ≡ false
              → Found (acc ++ id ∷ []) r (walk fuel cs r (acc ++ id ∷ [])))
          → Found acc id (walk_requires (walk fuel cs) (acc ++ id ∷ []) reqs)
      at [] e f = at_foundation acc id e
      at (r ∷ rs) e f = at_requires acc id r rs _ e (
          walk_all-FoundAll (λ x a. walk fuel cs x a) (acc ++ id ∷ []) (r ∷ rs)
            (f (requires_of-known cs id r rs e)))

  found_component :
      (id : Bytes) (xs : List Component)
      → elem id (ids xs) ≡ true
      → (c : Component) × (find_component xs id ≡ some c)
  unfolding find_component
  found_component id [] h = cc
  found_component id (x ∷ xs) h = elim (Bool-cases (x.id == id)) [
    | inl e ↦ (x, rw (e) refl)
    | inr e ↦ let (c, k) = found_component id xs (ground arith) in (c, rw (e) k)
  ]

  -- With fuel above the number of components, `dependency_paths` of a component returns, and its
  -- paths are exactly the chains of requirements from the component down to one that requires nothing,
  -- which repeat no component, each read from its foundation. This holds of a cyclic registry too.
  pub dependency_paths-Climb :
      (fuel : ℕ) (id : Bytes)
      → length cs < fuel
      → elem id (ids cs) ≡ true
      → (out : List (List Bytes)) × (dependency_paths fuel cs id ≡ some out)
        × ((p : List Bytes) → In p out ↔ ((q : List Bytes) × Climb cs [] id q × (p ≡ reverse q)))
  unfolding dependency_paths Distinct Found PathAt
  dependency_paths-Climb fuel id l k =
      let (c, e) = found_component id cs k in
      rw (dependency_paths, e)
        (returned (walk fuel cs id []) (walk-Found fuel id [] (omega arith) tt tt refl))
    where
      returned :
          (o : Option (List (List Bytes)))
          → Found [] id o
          → (out : List (List Bytes)) × (o ≡ some out)
            × ((p : List Bytes)
                → In p out ↔ ((q : List Bytes) × Climb cs [] id q × (p ≡ reverse q)))
      returned none f = absurd f
      returned (some out) f = (out, refl, f)
