-- ===== src/Registry/Complete.antt =====
-- `topo_sort` on components that have an order.
use envctl.Prelude.{
  ◌≡◌, refl, ap, ◌∙◌, Bool, true, false, Option, none, some, List, [], ◌∷◌, ◌++◌, arith, Bytes,
  AllOf, AnyOf, ==_iff, ◌==◌, List_eq, ℕ_eq, Bool-cases, inl, inr,
}
use envctl.Sets.{elem, Distinct}
use envctl.Sets.Counting.{AllOf-append, AllOf-map, AllOf-zip, AllOf-elem}
use envctl.Manifest.{Component}
use envctl.Registry.{
  ids, TopoResult, sorted, failed, unknown_dependency, dependency_cycle, topo_sort,
}
use envctl.Registry.Counts.{IsUnknown}
use envctl.Registry.Round.{RequiresFirst, IsTopological}
use envctl.Registry.Sound.{Explained, topo_sort-Explained}

-- A statement on all components of an id that there is.
pub at_id :
    (R : Type 0) (cs : List Component) (n : Bytes)
    → elem n (ids cs) ≡ true
    → AllOf (λ c. c.id ≡ n → R) cs
    → R
at_id R [] n e h = cc
at_id R (c ∷ cs) n e h = elim (Bool-cases (c.id == n)) [
  | inl same ↦ h.0 ((==_iff c.id n).0 same)
  | inr other ↦ at_id R cs n (ground arith) h.1
]

AllOf-diagonal :
    (R : Component → Component → Type 0) (cs : List Component)
    → AllOf (λ c. AllOf (R c) cs) cs
    → AllOf (λ c. R c c) cs
AllOf-diagonal R [] h = tt
AllOf-diagonal R (c ∷ cs) h = (h.0.0, AllOf-diagonal R cs (AllOf-map _ _ cs (λ x p. p.1) h.1))

clash : {b : Bool} → b ≡ true → b ≡ false → ⊥
clash t f = cc

none_of :
    (P Q : Bytes → Type 0) (ds : List Bytes)
    → ((d : Bytes) → P d → Q d → ⊥)
    → AllOf P ds
    → AnyOf Q ds
    → ⊥
none_of P Q [] f p q = q
none_of P Q (d ∷ ds) f p (inl q) = f d p.0 q
none_of P Q (d ∷ ds) f p (inr q) = none_of P Q ds f p.1 q

-- The ids of an order are not stuck, when those in front of it are not.
not_stuck :
    (cs : List Component) (stuck : Bytes → Bool) (done order : List Bytes)
    → AllOf
        (λ c. stuck c.id ≡ true → AnyOf (λ d. stuck d ≡ true × elem d (ids cs) ≡ true) c.requires)
        cs
    → AllOf (λ d. stuck d ≡ false) done
    → AllOf (λ n. elem n (ids cs) ≡ true) order
    → RequiresFirst cs done order
    → AllOf (λ n. stuck n ≡ false) order
unfolding RequiresFirst
not_stuck cs stuck done [] b d k h = tt
not_stuck cs stuck done (n ∷ order) b d k h =
    let contra =
      AllOf-zip _ _ (λ c. c.id ≡ n → stuck n ≡ true → ⊥) cs
        (λ c bc hc same on.
          none_of _ _ c.requires
            (λ x in_done bad. clash bad.0 (AllOf-elem (λ y. stuck y ≡ false) x done in_done d))
            (hc same) (bc (ap stuck same ∙ on)))
        b h.0 in
    let free : stuck n ≡ false = decided (stuck n) (at_id (stuck n ≡ true → ⊥) cs n k.0 contra) in
    (
      free,
      not_stuck cs stuck (done ++ n ∷ []) order b (AllOf-append _ done (n ∷ []) d (free, tt)) k.1
          h.1,
    )
  where
    decided : (b : Bool) → (b ≡ true → ⊥) → b ≡ false
    decided true f = absurd (f refl)
    decided false f = refl

-- The requirements of what stands in an order are components.
requires_known :
    (cs : List Component) (done order : List Bytes)
    → AllOf (λ n. elem n (ids cs) ≡ true) done
    → AllOf (λ n. elem n (ids cs) ≡ true) order
    → RequiresFirst cs done order
    → AllOf (λ n. AllOf (λ c. c.id ≡ n → AllOf (λ d. elem d (ids cs) ≡ true) c.requires) cs) order
unfolding RequiresFirst
requires_known cs done [] kd k h = tt
requires_known cs done (n ∷ order) kd k h = (
  AllOf-map _ _ cs
      (λ c hc same.
        AllOf-map _ _ c.requires
          (λ x in_done. AllOf-elem (λ y. elem y (ids cs) ≡ true) x done in_done kd) (hc same))
      h.0,
  requires_known cs (done ++ n ∷ []) order (AllOf-append _ done (n ∷ []) kd (k.0, tt)) k.1 h.1,
)

all_known :
    (cs : List Component) (order : List Bytes)
    → IsTopological cs order
    → AllOf (λ c. AllOf (λ d. elem d (ids cs) ≡ true) c.requires) cs
all_known cs order t =
    let known = requires_known cs [] order tt t.known t.requires_first in
    AllOf-map _ _ cs (λ c f. f refl)
      (AllOf-diagonal (λ c x. x.id ≡ c.id → AllOf (λ d. elem d (ids cs) ≡ true) x.requires) cs
        (AllOf-map _ _ cs
          (λ c e.
            AllOf-elem
              (λ n. AllOf (λ x. x.id ≡ n → AllOf (λ d. elem d (ids cs) ≡ true) x.requires) cs) c.id
              order e known)
          t.complete))

no_unknown :
    (keys : List Bytes) (by dep : Bytes) (cs : List Component)
    → elem dep keys ≡ false
    → AllOf (λ c. AllOf (λ d. elem d keys ≡ true) c.requires) cs
    → AnyOf (λ c. (c.id ≡ by) × (elem dep c.requires ≡ true)) cs
    → ⊥
no_unknown keys by dep [] f h q = q
no_unknown keys by dep (c ∷ cs) f h (inl q) =
    clash (AllOf-elem (λ d. elem d keys ≡ true) dep c.requires q.1 h.0) f
no_unknown keys by dep (c ∷ cs) f h (inr q) = no_unknown keys by dep cs f h.1 q

-- When there is an order of the components behind their requirements, `topo_sort` returns one: it
-- reports no cycle and no unknown dependency.
pub topo_sort_complete :
    (cs : List Component) (order : List Bytes)
    → Distinct (ids cs)
    → IsTopological cs order
    → (out : List Bytes) × (topo_sort cs ≡ some (sorted out)) × IsTopological cs out
unfolding Explained IsUnknown
topo_sort_complete cs order ok t = found (topo_sort cs) refl (topo_sort-Explained cs ok)
  where
    found :
        (r : Option TopoResult)
        → topo_sort cs ≡ r
        → Explained cs r
        → (out : List Bytes) × (topo_sort cs ≡ some (sorted out)) × IsTopological cs out
    found none e h = elim h [ ]
    found (some (sorted out)) e h = (out, e, h)
    found (some (failed (unknown_dependency by dep))) e h =
        absurd (no_unknown (ids cs) by dep cs h.1 (all_known cs order t) h.0)
    found (some (failed (dependency_cycle id))) e h = absurd (
        clash h.member (
          AllOf-elem (λ n. h.stuck n ≡ false) id order
            (at_id (elem id order ≡ true) cs id h.known
              (AllOf-map _ _ cs (λ c m same. rw (← same) m) t.complete))
            (not_stuck cs h.stuck [] order h.blocked tt t.known t.requires_first)))
