-- ===== src/Registry/Closure.antt =====
-- `closure` and `reverse_dependents` of crates/engine/src/model.rs against the requirements.
use envctl.Prelude.{
  ℕ, ◌≤◌, ◌≡◌, ◌≢◌, ◌↔◌, ◌⊎◌, inl, inr, refl, Bool, true, false, Option, none, some, List, [], ◌∷◌,
  arith, if◌then◌else◌, Bytes, length, AllOf, ==_iff, ◌==◌, List_eq, ℕ_eq, Bool-cases,
}
use envctl.Sets.{elem}
use envctl.Sets.Counting.{AllOf-map, AllOf-elem}
use envctl.Manifest.{Component}
use envctl.Registry.{
  ids, is_prereq_of, keep_id, keep_ids, in_closure, members, closure, depends_on,
  reverse_dependents,
}
use envctl.Registry.Complete.{at_id}
use envctl.Registry.Round.{IsTopological}
use envctl.Registry.Prereq.{IsPrereq, Decides, Decides-map, Ends, Ends-order}

differ : (a b : Bytes) → a ≡ b → (a == b) ≡ false → ⊥
differ a b e h = ground (arith, ==_iff a b)

-- The entries of the order that satisfy `P`, each where it stands there, and no others.
pub data Keeps (P : Bytes → Type 0) : (order kept : List Bytes) → Type 0 where
  done : Keeps P [] []
  keep : {i : Bytes} {is js : List Bytes} → P i → Keeps P is js → Keeps P (i ∷ is) (i ∷ js)
  skip : {i : Bytes} {is js : List Bytes} → ¬ P i → Keeps P is js → Keeps P (i ∷ is) js

-- What is kept are the ids of the order that satisfy `P`.
pub Keeps-elem :
    {P : Bytes → Type 0} {order kept : List Bytes}
    → Keeps P order kept
    → (x : Bytes) → (elem x kept ≡ true) ↔ ((elem x order ≡ true) × P x)
Keeps-elem done x = ((λ e. cc), (λ e. e.0))
Keeps-elem {P} (keep {i} p k) x = elim (Bool-cases (i == x)) [
  | inl same ↦ rw (same) ((λ e. (refl, rw (← (==_iff i x).0 same) p)), (λ e. refl))
  | inr other ↦ rw (other) (Keeps-elem k x)
]
Keeps-elem {P} (skip {i} n k) x = elim (Bool-cases (i == x)) [
  | inl same ↦ (
    (λ e. (rw (same) refl, ((Keeps-elem k x).0 e).1)),
    (λ e. absurd (n (rw (← (==_iff i x).0 same) at e.1))),
  )
  | inr other ↦ rw (other) (Keeps-elem k x)
]

keep_ids-Keeps :
    (f : Bytes → Option Bool) (P : Bytes → Type 0) (order : List Bytes)
    → AllOf (λ i. Decides (f i) (P i)) order
    → (kept : List Bytes) × (keep_ids f order ≡ some kept) × Keeps P order kept
unfolding keep_ids
keep_ids-Keeps f P [] h = ([], refl, done)
keep_ids-Keeps f P (i ∷ order) h =
    let (rest, e, keeps) = keep_ids-Keeps f P order h.1 in rw (e) (kept_lem (f i) h.0 rest keeps)
  where
    kept_lem :
        (o : Option Bool)
        → Decides o (P i)
        → (rest : List Bytes) → Keeps P order rest
        → (kept : List Bytes) × (keep_id i o (some rest) ≡ some kept) × Keeps P (i ∷ order) kept
    kept_lem none p rest k = elim p [ ]
    kept_lem (some true) p rest k = (i ∷ rest, refl, keep p k)
    kept_lem (some false) p rest k = (rest, refl, skip p k)

module _ (cs : List Component) (order : List Bytes) (t : IsTopological cs order) where
  ends : (cand : Bytes) → AllOf (Ends cs cand (length order)) order
  unfolding Ends
  ends cand =
      AllOf-map _ _ order (λ x e fuel l. e fuel (omega arith))
        (Ends-order cs cand [] order 0 tt t.requires_first)

  -- On a registry with an order, `closure` of a component returns with fuel for the length of the order,
  -- and its ids are the entries of the order that are the component or that it requires, directly or
  -- through others: each as often as the order has it, in the order's order, and no others.
  pub closure_lem :
      (fuel : ℕ) (id : Bytes)
      → length order ≤ fuel
      → elem id (ids cs) ≡ true
      → (kept : List Bytes) × (closure fuel cs order id ≡ some (members kept))
        × Keeps (λ x. (x ≡ id) ⊎ IsPrereq cs x id) order kept
  unfolding closure in_closure Ends
  closure_lem fuel id l k =
      let at : elem id order ≡ true =
        at_id _ cs id k (AllOf-map _ _ cs (λ c e same. rw (← same) e) t.complete) in
      let (kept, e, keeps) =
        keep_ids-Keeps (in_closure fuel cs id) (λ x. (x ≡ id) ⊎ IsPrereq cs x id) order
          (AllOf-map _ _ order
            (λ x o. in_lem x (AllOf-elem (Ends cs x (length order)) id order at (ends x) fuel l))
            (all_of order)) in
      (kept, rw (k, e) refl, keeps)
    where
      in_lem :
          (x : Bytes)
          → Decides (is_prereq_of fuel cs x id) (IsPrereq cs x id)
          → Decides
              (if x == id then some true else is_prereq_of fuel cs x id)
              ((x ≡ id) ⊎ IsPrereq cs x id)
      in_lem x d = elim (Bool-cases (x == id)) [
        | inl same ↦ rw (same) (inl ((==_iff x id).0 same))
        | inr other ↦ rw (other) (
            Decides-map (is_prereq_of fuel cs x id) (IsPrereq cs x id) _ inr
              (λ q. elim q [ inl e ↦ absurd (differ x id e other) | inr p ↦ p ]) d)
      ]

      all_of : (os : List Bytes) → AllOf (λ x. Unit {0}) os
      all_of [] = tt
      all_of (o ∷ os) = (tt, all_of os)

  -- The reverse dependents of an id are the ids of the order, other than it, that require it, directly
  -- or through others; the recursion ends with the same fuel.
  pub reverse_dependents_lem :
      (fuel : ℕ) (id : Bytes)
      → length order ≤ fuel
      → (kept : List Bytes) × (reverse_dependents fuel cs order id ≡ some kept)
        × Keeps (λ x. (x ≢ id) × IsPrereq cs id x) order kept
  unfolding reverse_dependents depends_on Ends
  reverse_dependents_lem fuel id l =
      keep_ids-Keeps (depends_on fuel cs id) (λ x. (x ≢ id) × IsPrereq cs id x) order
        (AllOf-map _ _ order (λ x d. on_lem x (d fuel l)) (ends id))
    where
      on_lem :
          (x : Bytes)
          → Decides (is_prereq_of fuel cs id x) (IsPrereq cs id x)
          → Decides
              (if x == id then some false else is_prereq_of fuel cs id x)
              ((x ≢ id) × IsPrereq cs id x)
      on_lem x d = elim (Bool-cases (x == id)) [
        | inl same ↦ rw (same) (λ p. p.0 ((==_iff x id).0 same))
        | inr other ↦ rw (other) (
            Decides-map (is_prereq_of fuel cs id x) (IsPrereq cs id x) _
              (λ p. ((λ e. differ x id e other), p)) (λ p. p.1) d)
      ]
