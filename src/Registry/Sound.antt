-- ===== src/Registry/Sound.antt =====
-- The order that `topo_sort` returns, and what its errors mean.
use mathlib.Core.List.{append-nil}
use envctl.Prelude.{
  ℕ, zero, suc, ◌+◌, ◌≤◌, ◌<◌, ◌≡◌, ◌≢◌, refl, sym, ◌∙◌, Bool, true, false, not, ◌&&◌, Option, none,
  some, List, [], ◌∷◌, ◌++◌, arith, Bytes, length, length-append, nat_eq, AllOf, AnyOf, List_eq,
  ℕ_eq, Bool-cases, inl, inr, ◌⊎◌,
}
use envctl.Sets.{elem, to_set, Distinct, elem-to_set}
use envctl.Sets.Counting.{AllOf-map, AllOf-zip, AllOf-elem, length-Distinct}
use envctl.Manifest.{Component}
use envctl.Registry.{
  ids, TopoResult, sorted, failed, unknown_dependency, dependency_cycle, Degrees, drain, sources,
  first_missing, check_length, topo_drained, topo_counted, topo_sort, Counted, counted, unknown,
}
use envctl.Registry.Kahn.{missing, missing-nil, waiting}
use envctl.Registry.Counts.{
  IsUnknown, AllCounted, AllResult, count_all-Result, elem-sources, sources-Distinct,
}
use envctl.Registry.Round.{
  RequiresFirst, IsTopological, IsStuck, Inv, Inv-round, ids-known, members,
}

pub length-ids : (cs : List Component) → length (ids cs) ≡ length cs
length-ids [] = refl
length-ids (c ∷ cs) = omega (arith, length-ids cs)

missing-all : (out ds : List Bytes) → AllOf (λ d. elem d out ≡ true) ds → missing out ds ≡ 0
unfolding missing
missing-all out [] h = refl
missing-all out (d ∷ ds) h = ground (arith, missing-all out ds)

all_or_one :
    (out ds : List Bytes) → AllOf (λ d. elem d out ≡ true) ds ⊎ AnyOf (λ d. elem d out ≡ false) ds
all_or_one out [] = inl tt
all_or_one out (d ∷ ds) = ground (arith, all_or_one out ds)

AllOf-of_set : (P : Bytes → Type 0) (ds : List Bytes) → AllOf P (to_set ds) → AllOf P ds
AllOf-of_set P ds h =
    AllOf-map _ _ ds (λ d e. AllOf-elem P d (to_set ds) (elem-to_set d ds ∙ e) h) (members ds)

AllOf-to_set : (P : Bytes → Type 0) (ds : List Bytes) → AllOf P ds → AllOf P (to_set ds)
AllOf-to_set P ds h =
    AllOf-map _ _ (to_set ds) (λ d e. AllOf-elem P d ds (sym (elem-to_set d ds) ∙ e) h)
      (members (to_set ds))

-- A component that waits requires something that is not in the output.
waits :
    (out : List Bytes) (c : Component)
    → waiting out c ≢ 0
    → AnyOf (λ d. elem d out ≡ false) c.requires
waits out c h = elim (all_or_one out c.requires) [
  | inl a ↦ absurd (h (missing-all out (to_set c.requires) (AllOf-to_set _ c.requires a)))
  | inr one ↦ one
]

AnyOf-zip :
    (P Q R : Bytes → Type 0) (ds : List Bytes)
    → ((d : Bytes) → P d → Q d → R d)
    → AllOf P ds
    → AnyOf Q ds
    → AnyOf R ds
AnyOf-zip P Q R [] f p q = elim q [ ]
AnyOf-zip P Q R (d ∷ ds) f p (inl q) = inl (f d p.0 q)
AnyOf-zip P Q R (d ∷ ds) f p (inr q) = inr (AnyOf-zip P Q R ds f p.1 q)

AllOf-sources :
    (P : Bytes → Type 0) (deg : Degrees) (ks : List Bytes) → AllOf P ks → AllOf P (sources deg ks)
unfolding sources
AllOf-sources P deg [] h = tt
AllOf-sources P deg (k ∷ ks) h = elim (Bool-cases (nat_eq (deg k) 0)) [
  | inl e ↦ rw (e) (h.0, AllOf-sources P deg ks h.1)
  | inr e ↦ rw (e) (AllOf-sources P deg ks h.1)
]

start_lem :
    (c : Component) (deg : Degrees) {b : Bool}
    → deg c.id ≡ 0 + length (to_set c.requires)
    → b ≡ true
    → (b && nat_eq (deg c.id) 0) ≡ nat_eq (waiting [] c) 0
start_lem c deg e k = ground (arith, missing-nil (to_set c.requires))

stuck_lem : (w : ℕ) {b : Bool} → b ≡ nat_eq w 0 → not b ≡ true → w ≢ 0
stuck_lem w e h = ground arith

first_missing-lem :
    (out ks : List Bytes) (all : List Bytes)
    → AllOf (λ k. elem k all ≡ true) ks
    → ¬ (AllOf (λ k. elem k out ≡ true) ks)
    → (elem (first_missing out ks) out ≡ false) × (elem (first_missing out ks) all ≡ true)
unfolding first_missing
first_missing-lem out [] all k h = absurd (h tt)
first_missing-lem out (x ∷ ks) all k h = elim (Bool-cases (elem x out)) [
  | inl e ↦ rw (e) (first_missing-lem out ks all k.1 (λ p. h (e, p)))
  | inr e ↦ rw (e) (e, k.0)
]

-- What `topo_sort` promises of each of its results; it never runs out of fuel.
unfoldable pub Explained : List Component → Option TopoResult → Type 0
Explained cs none = ⊥
Explained cs (some (sorted out)) = IsTopological cs out
Explained cs (some (failed (unknown_dependency by dep))) = IsUnknown (ids cs) cs by dep
Explained cs (some (failed (dependency_cycle id))) = IsStuck cs id

module _ (cs : List Component) (ok : Distinct (ids cs)) where
  size :
      (out : List Bytes)
      → Distinct out
      → AllOf (λ i. elem i (ids cs) ≡ true) out
      → length out ≤ length cs
  size out d k = omega (arith, length-Distinct out (ids cs) d k, length-ids cs)

  drain-Inv :
      (fuel : ℕ) (deg : Degrees) (q out : List Bytes)
      → length cs ≤ length out + fuel
      → Inv cs deg q out
      → (end : List Bytes) × (deg' : Degrees) × (drain fuel cs deg q out ≡ some end)
        × Inv cs deg' [] end
  unfolding drain
  drain-Inv fuel deg [] out f h = (out, deg, refl, h)
  drain-Inv zero deg (n ∷ q) out f h =
      let s = size (out ++ n ∷ q) h.distinct h.known in
      absurd (omega (arith, s, length-append out (n ∷ q)))
  drain-Inv (suc fuel) deg (n ∷ q) out f h =
      drain-Inv fuel _ _ (out ++ n ∷ []) (omega (arith, length-append out (n ∷ [])))
        (Inv-round cs ok deg q out n h)

  Inv-start :
      (deg : Degrees) → AllCounted (ids cs) cs (λ j. 0) deg → Inv cs deg (sources deg (ids cs)) []
  Inv-start deg h = record {
    degrees = AllOf-map _ _ cs (λ c e. e ∙ omega (arith, missing-nil (to_set c.requires))) h.own;
    seen =
        AllOf-zip _ _ _ cs (λ c e k. elem-sources deg c.id (ids cs) ∙ start_lem c deg e k) h.own
          (ids-known cs);
    distinct = sources-Distinct deg (ids cs) ok;
    known = AllOf-sources _ deg (ids cs) (members (ids cs));
    first = unfold RequiresFirst in tt;
  }

  absent :
      (out : List Bytes) (i : Bytes)
      → elem i (ids cs) ≡ true
      → elem i out ≡ false
      → Distinct out
      → AllOf (λ i. elem i (ids cs) ≡ true) out
      → length out < length cs
  unfolding Distinct
  absent out i k e d ks = let s = size (i ∷ out) (e, d) (k, ks) in omega (arith, s)

  complete_lem :
      (out : List Bytes)
      → length out ≡ length cs
      → Distinct out
      → AllOf (λ i. elem i (ids cs) ≡ true) out
      → AllOf (λ c. elem c.id out ≡ true) cs
  complete_lem out n d k = AllOf-map _ _ cs (λ c e. held c e (elem c.id out) refl) (ids-known cs)
    where
      held : (c : Component) → elem c.id (ids cs) ≡ true → (b : Bool) → elem c.id out ≡ b → b ≡ true
      held c e true h = refl
      held c e false h = let s = absent out c.id e h d k in absurd (omega (arith, s))

  sorted_lem :
      (deg : Degrees) (out : List Bytes)
      → Inv cs deg [] out
      → length out ≡ length cs
      → IsTopological cs out
  sorted_lem deg out h n =
      let d = rw (append-nil out) at h.distinct in
      let k = rw (append-nil out) at h.known in
      record {
        distinct = d;
        known = k;
        complete = complete_lem out n d k;
        requires_first = h.first;
      }

  IsStuck-set :
      (deg start : Degrees) (out : List Bytes)
      → AllCounted (ids cs) cs (λ j. 0) start
      → Inv cs deg [] out
      → length out ≢ length cs
      → IsStuck cs (first_missing out (ids cs))
  IsStuck-set deg start out a h n =
      let seen = rw (append-nil out) at h.seen in
      let d = rw (append-nil out) at h.distinct in
      let short = λ (all : AllOf (λ k. elem k out ≡ true) (ids cs)). n (
        omega (
          arith,
          length-Distinct (ids cs) out ok all,
          size out d (rw (append-nil out) at h.known),
          length-ids cs,
        )) in
      let (gone, known) = first_missing-lem out (ids cs) (ids cs) (members (ids cs)) short in
      record {
        stuck = λ i. not (elem i out);
        member = rw (gone) refl;
        known = known;
        blocked =
            AllOf-zip _ _ _ cs
              (λ c e k on.
                AnyOf-zip _ _ _ c.requires (λ x kx gx. (rw (gx) refl, kx))
                  (AllOf-of_set _ c.requires k) (waits out c (stuck_lem (waiting out c) e on)))
              seen a.known;
      }

  checked :
      (deg start : Degrees) (out : List Bytes)
      → AllCounted (ids cs) cs (λ j. 0) start
      → Inv cs deg [] out
      → Explained cs (some (check_length cs out))
  unfolding check_length Explained
  checked deg start out a h = elim (Bool-cases (nat_eq (length out) (length cs))) [
    | inl e ↦ rw (e) (sorted_lem deg out h (ground arith))
    | inr e ↦ rw (e) (IsStuck-set deg start out a h (ground arith))
  ]

  counted_lem : (r : Counted) → AllResult (ids cs) cs (λ j. 0) r → Explained cs (topo_counted cs r)
  unfolding topo_counted topo_drained AllResult Explained
  counted_lem (unknown by dep) h = h
  counted_lem (counted deg) h =
      let (out, deg', e, inv) =
        drain-Inv (length cs) deg (sources deg (ids cs)) [] (omega arith) (Inv-start deg h) in
      rw (e) (checked deg' deg out h inv)

  -- For components with distinct ids `topo_sort` always returns a result. An order holds every
  -- component once, behind all that it requires; an unknown dependency is one that a component requires
  -- and that is no component; and a cycle is reported with a component of a set in which every
  -- component requires one of the set.
  pub topo_sort-Explained : Explained cs (topo_sort cs)
  unfolding topo_sort
  topo_sort-Explained = counted_lem _ (count_all-Result (ids cs) cs (λ j. 0) ok)
