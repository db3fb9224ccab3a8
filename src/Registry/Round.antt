-- ===== src/Registry/Round.antt =====
-- The invariant of the rounds, and what an order of the components promises.
use mathlib.Core.List.{append_assoc, append-nil}
use envctl.Prelude.{
  ℕ, ◌+◌, ◌-◌, ◌≡◌, refl, sym, ap, ◌∙◌, Bool, true, false, ◌&&◌, List, [], ◌∷◌, ◌++◌, arith, Bytes,
  nat_eq, AllOf, AnyOf, ==_refl, List_eq, ℕ_eq,
}
use envctl.Sets.{elem, to_set, Distinct, ==_sym, elem-to_set}
use envctl.Sets.Counting.{
  AllOf-append, AllOf-map, AllOf-zip, AllOf-any, elem-append, AllOf-elem, Distinct-append,
}
use envctl.Manifest.{Component}
use envctl.Registry.{ids, Degrees, hits, relax_all}
use envctl.Registry.Kahn.{missing-zero, waiting, hit, waiting-append, freed, relax_all-Relaxed}
use envctl.Registry.Counts.{elem-freed, freed-Distinct, AllOf-freed}

-- Every component comes after all that it requires, behind the ids of `done`.
unfoldable pub RequiresFirst : List Component → (done order : List Bytes) → Type 0
RequiresFirst cs done [] = Unit
RequiresFirst cs done (n ∷ order) =
    AllOf (λ c. c.id ≡ n → AllOf (λ d. elem d done ≡ true) c.requires) cs
    × RequiresFirst cs (done ++ n ∷ []) order

-- An order of all components, each once, behind its requirements.
pub record IsTopological (cs : List Component) (order : List Bytes) : Type 0 where
  pub distinct : Distinct order
  pub known : AllOf (λ i. elem i (ids cs) ≡ true) order
  pub complete : AllOf (λ c. elem c.id order ≡ true) cs
  pub requires_first : RequiresFirst cs [] order

-- A set of components with `id` in it, each of which requires a component of the set.
pub record IsStuck (cs : List Component) (id : Bytes) : Type 0 where
  pub stuck : Bytes → Bool
  pub member : stuck id ≡ true
  pub known : elem id (ids cs) ≡ true
  pub blocked :
      AllOf
        (λ c. stuck c.id ≡ true → AnyOf (λ d. stuck d ≡ true × elem d (ids cs) ≡ true) c.requires)
        cs

RequiresFirst-append :
    (cs : List Component) (done order : List Bytes) (n : Bytes)
    → RequiresFirst cs done order
    → AllOf (λ c. c.id ≡ n → AllOf (λ d. elem d (done ++ order) ≡ true) c.requires) cs
    → RequiresFirst cs done (order ++ n ∷ [])
unfolding RequiresFirst
RequiresFirst-append cs done [] n h k = (rw (append-nil done) at k, tt)
RequiresFirst-append cs done (m ∷ order) n h k = (
  h.0,
  RequiresFirst-append cs (done ++ m ∷ []) order n h.1 (rw (append_assoc done (m ∷ []) order) k),
)

-- What holds between two rounds.
pub record Inv (cs : List Component) (deg : Degrees) (q out : List Bytes) : Type 0 where
  pub degrees : AllOf (λ c. deg c.id ≡ waiting out c) cs
  pub seen : AllOf (λ c. elem c.id (out ++ q) ≡ nat_eq (waiting out c) 0) cs
  pub distinct : Distinct (out ++ q)
  pub known : AllOf (λ i. elem i (ids cs) ≡ true) (out ++ q)
  pub first : RequiresFirst cs [] out

Distinct-middle : (xs ys : List Bytes) (n : Bytes) → Distinct (xs ++ n ∷ ys) → elem n xs ≡ false
unfolding Distinct
Distinct-middle [] ys n d = refl
Distinct-middle (x ∷ xs) ys n d =
    ground (arith, Distinct-middle xs ys n, elem-append x xs (n ∷ ys), ==_sym x n)

pub ids-known : (cs : List Component) → AllOf (λ c. elem c.id (ids cs) ≡ true) cs
ids-known [] = tt
ids-known (c ∷ cs) =
    (ground (arith, ==_refl c.id), AllOf-map _ _ cs (λ x e. ground arith) (ids-known cs))

pub members : (xs : List Bytes) → AllOf (λ d. elem d xs ≡ true) xs
members [] = tt
members (x ∷ xs) = (ground (arith, ==_refl x), AllOf-map _ _ xs (λ d e. ground arith) (members xs))

-- The requirements of a component that waits for nothing are in the output.
pub ready :
    (out : List Bytes) (c : Component)
    → waiting out c ≡ 0
    → AllOf (λ d. elem d out ≡ true) c.requires
ready out c h =
    AllOf-map _ _ c.requires
      (λ d e.
        AllOf-elem (λ x. elem x out ≡ true) d (to_set c.requires) (elem-to_set d c.requires ∙ e)
          (missing-zero out (to_set c.requires) h))
      (members c.requires)

grow : (out q fs : List Bytes) (n : Bytes) → (out ++ n ∷ []) ++ (q ++ fs) ≡ (out ++ n ∷ q) ++ fs
grow out q fs n =
    sym (append_assoc (out ++ n ∷ []) q fs)
    ∙ ap (λ (l : List Bytes). l ++ fs) (append_assoc out (n ∷ []) q)

done_lem : (w : ℕ) → nat_eq w 0 ≡ true → w ≡ 0
done_lem w h = ground arith

fresh_lem :
    (c : Component) (out : List Bytes) (n : Bytes) {b : Bool}
    → waiting (out ++ n ∷ []) c + hit n c ≡ waiting out c
    → b ≡ nat_eq (waiting out c) 0
    → hits n c ≡ true
    → b ≡ false
fresh_lem c out n w e on = ground arith

module _ (cs : List Component) (ok : Distinct (ids cs)) where
  seen_lem :
      (c : Component) (deg : Degrees) (q out : List Bytes) (n : Bytes)
      → elem c.id (freed n deg cs) ≡ hits n c && nat_eq (deg c.id - 1) 0
      → elem c.id (out ++ n ∷ q) ≡ nat_eq (waiting out c) 0
      → deg c.id ≡ waiting out c
      → waiting (out ++ n ∷ []) c + hit n c ≡ waiting out c
      → elem c.id ((out ++ n ∷ q) ++ freed n deg cs) ≡ nat_eq (waiting (out ++ n ∷ []) c) 0
  seen_lem c deg q out n f e d w = ground (arith, elem-append c.id (out ++ n ∷ q) (freed n deg cs))

  pub Inv-round :
      (deg : Degrees) (q out : List Bytes) (n : Bytes)
      → Inv cs deg (n ∷ q) out
      → Inv cs (relax_all n cs (deg, q)).0 (relax_all n cs (deg, q)).1 (out ++ n ∷ [])
  Inv-round deg q out n h =
      let r = relax_all-Relaxed n cs deg q ok in
      let new = Distinct-middle out q n h.distinct in
      let fewer =
        AllOf-any (λ c. waiting (out ++ n ∷ []) c + hit n c ≡ waiting out c) cs
          (λ c. waiting-append out n c new) in
      let queued =
        ap (λ (l : List Bytes). (out ++ n ∷ []) ++ l) r.queue ∙ grow out q (freed n deg cs) n in
      let at_n =
        AllOf-elem (λ i. (elem i (out ++ n ∷ q)) ≡ true) n (out ++ n ∷ q)
          (elem-append n out (n ∷ q) ∙ ground (arith, ==_refl n)) (members (out ++ n ∷ q)) in
      let waits =
        AllOf-zip _ _
          (λ c. (deg c.id ≡ waiting out c) × (waiting (out ++ n ∷ []) c + hit n c ≡ waiting out c))
          cs (λ c a b. (a, b)) h.degrees fewer in
      record {
        degrees = AllOf-zip _ _ _ cs (λ c e f. omega (arith, e, f.0, f.1)) r.degrees waits;
        seen = rw (queued) (
            AllOf-zip _ _ _ cs (λ c e f. seen_lem c deg q out n e.0 e.1 f.0 f.1)
              (AllOf-zip _ _
                (λ c.
                  (elem c.id (freed n deg cs) ≡ hits n c && nat_eq (deg c.id - 1) 0)
                  × (elem c.id (out ++ n ∷ q) ≡ nat_eq (waiting out c) 0))
                cs (λ c a b. (a, b)) (elem-freed n deg cs ok) h.seen)
              waits);
        distinct = rw (queued) (
            Distinct-append (out ++ n ∷ q) (freed n deg cs) h.distinct (freed-Distinct n deg cs ok)
              (AllOf-freed (λ y. elem y (out ++ n ∷ q) ≡ false) n deg cs
                (AllOf-zip _ _ _ cs (λ c e f on. fresh_lem c out n e f on) fewer h.seen)));
        known = rw (queued) (
            AllOf-append _ (out ++ n ∷ q) (freed n deg cs) h.known
              (AllOf-freed _ n deg cs (AllOf-map _ _ cs (λ c e on. e) (ids-known cs))));
        first = RequiresFirst-append cs [] out n h.first (
            AllOf-map _ _ cs
              (λ c e same. ready out c (done_lem (waiting out c) (sym e ∙ rw (same) at_n))) h.seen);
      }
