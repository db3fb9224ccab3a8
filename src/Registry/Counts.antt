-- ===== src/Registry/Counts.antt =====
-- What the counting of indegrees returns, and what a queue of sources or freed ids holds.
use envctl.Prelude.{
  ℕ, ◌+◌, ◌-◌, ◌≡◌, refl, sym, ap, ◌∙◌, true, false, ◌&&◌, List, [], ◌∷◌, arith, Bytes, length,
  nat_eq, AllOf, AnyOf, ◌==◌, ==_iff, ==_refl, List_eq, ℕ_eq, Bool-cases, inl, inr,
}
use envctl.Sets.{elem, to_set, Distinct, ==_sym, elem-to_set}
use envctl.Sets.Counting.{AllOf-zip}
use envctl.Manifest.{Component}
use envctl.Registry.{
  ids, Degrees, update, hits, Counted, counted, unknown, count_requires, count_all, sources,
}
use envctl.Registry.Kahn.{freed}

-- A requirement that is no key.
unfoldable pub IsUnknown : List Bytes → List Component → Bytes → Bytes → Type 0
IsUnknown keys cs by dep =
    AnyOf (λ c. (c.id ≡ by) × (elem dep c.requires ≡ true)) cs × elem dep keys ≡ false

pub record RequiresCounted (keys : List Bytes) (id : Bytes) (ds : List Bytes) (deg deg' : Degrees)
    : Type 0 where
  pub own : deg' id ≡ deg id + length ds
  pub others : (j : Bytes) → (id == j) ≡ false → deg' j ≡ deg j
  pub known : AllOf (λ d. elem d keys ≡ true) ds

RequiresResult : List Bytes → Bytes → List Bytes → Degrees → Counted → Type 0
RequiresResult keys id ds deg (counted deg') = RequiresCounted keys id ds deg deg'
RequiresResult keys id ds deg (unknown by dep) =
    (by ≡ id) × (elem dep ds ≡ true) × (elem dep keys ≡ false)

counted_more :
    (keys : List Bytes) (id d : Bytes) (ds : List Bytes) (deg : Degrees) (r : Counted)
    → elem d keys ≡ true
    → RequiresResult keys id ds (update id (deg id + 1) deg) r
    → RequiresResult keys id (d ∷ ds) deg r
unfolding RequiresResult update
counted_more keys id d ds deg (counted deg') k h = record {
  own = let e = h.own in let s = ==_refl id in ground arith;
  others = λ j n. let e = h.others j n in ground arith;
  known = (k, h.known);
}
counted_more keys id d ds deg (unknown by dep) k (b, e, f) = (b, ground arith, f)

count_requires-Result :
    (keys : List Bytes) (id : Bytes) (ds : List Bytes) (deg : Degrees)
    → RequiresResult keys id ds deg (count_requires keys id ds deg)
unfolding count_requires RequiresResult
count_requires-Result keys id [] deg = record {
  own = omega arith;
  others = λ j n. refl;
  known = tt;
}
count_requires-Result keys id (d ∷ ds) deg = elim (Bool-cases (elem d keys)) [
  | inl k ↦ rw (k) (
      counted_more keys id d ds deg _ k
        (count_requires-Result keys id ds (update id (deg id + 1) deg)))
  | inr k ↦ rw (k) (refl, ground (arith, ==_refl d), k)
]

pub record AllCounted (keys : List Bytes) (cs : List Component) (deg deg' : Degrees) : Type 0 where
  pub own : AllOf (λ c. deg' c.id ≡ deg c.id + length (to_set c.requires)) cs
  pub others : (j : Bytes) → elem j (ids cs) ≡ false → deg' j ≡ deg j
  pub known : AllOf (λ c. AllOf (λ d. elem d keys ≡ true) (to_set c.requires)) cs

unfoldable pub AllResult : List Bytes → List Component → Degrees → Counted → Type 0
AllResult keys cs deg (counted deg') = AllCounted keys cs deg deg'
AllResult keys cs deg (unknown by dep) = IsUnknown keys cs by dep

unchanged :
    (k : Bytes) (deg deg' : Degrees) (cs : List Component)
    → ((j : Bytes) → (k == j) ≡ false → deg' j ≡ deg j)
    → elem k (ids cs) ≡ false
    → AllOf (λ c. deg' c.id ≡ deg c.id) cs
unchanged k deg deg' [] f h = tt
unchanged k deg deg' (c ∷ cs) f h =
    (f c.id (==_sym k c.id ∙ ground arith), unchanged k deg deg' cs f (ground arith))

rest_counted :
    (keys : List Bytes) (c : Component) (cs : List Component) (deg deg1 : Degrees) (r : Counted)
    → elem c.id (ids cs) ≡ false
    → RequiresCounted keys c.id (to_set c.requires) deg deg1
    → AllResult keys cs deg1 r
    → AllResult keys (c ∷ cs) deg r
unfolding AllResult IsUnknown
rest_counted keys c cs deg deg1 (counted deg') new h ih = record {
  own = (
    ih.others c.id new ∙ h.own,
    AllOf-zip _ _ _ cs (λ x e f. e ∙ ap (λ (k : ℕ). k + length (to_set x.requires)) f) ih.own
        (unchanged c.id deg deg1 cs h.others new),
  );
  others = λ j e. ih.others j (ground arith) ∙ h.others j (ground arith);
  known = (h.known, ih.known);
}
rest_counted keys c cs deg deg1 (unknown by dep) new h (a, b) = (inr a, b)

count_from :
    (keys : List Bytes) (c : Component) (cs : List Component) (deg : Degrees) (r : Counted)
    → elem c.id (ids cs) ≡ false
    → RequiresResult keys c.id (to_set c.requires) deg r
    → ((deg' : Degrees) → AllResult keys cs deg' (count_all keys cs deg'))
    → AllResult keys
        (c ∷ cs)
        deg
        (elim r [ counted deg' ↦ count_all keys cs deg' | unknown by dep ↦ unknown by dep ])
unfolding RequiresResult AllResult IsUnknown
count_from keys c cs deg (counted deg') new h ih = rest_counted keys c cs deg deg' _ new h (ih deg')
count_from keys c cs deg (unknown by dep) new (b, e, f) ih =
    (inl (sym b, sym (elem-to_set dep c.requires) ∙ e), f)

pub count_all-Result :
    (keys : List Bytes) (cs : List Component) (deg : Degrees)
    → Distinct (ids cs)
    → AllResult keys cs deg (count_all keys cs deg)
unfolding count_all AllResult Distinct
count_all-Result keys [] deg d = record { own = tt; others = λ j e. refl; known = tt }
count_all-Result keys (c ∷ cs) deg d =
    count_from keys c cs deg _ d.0 (count_requires-Result keys c.id (to_set c.requires) deg)
      (λ deg'. count_all-Result keys cs deg' d.1)

pub elem-sources :
    (deg : Degrees) (j : Bytes) (ks : List Bytes)
    → elem j (sources deg ks) ≡ elem j ks && nat_eq (deg j) 0
unfolding sources
elem-sources deg j [] = refl
elem-sources deg j (k ∷ ks) = elim (Bool-cases (k == j)) [
  | inl same ↦
      let e = (==_iff k j).0 same in rw (e) (ground (arith, elem-sources deg j ks, ==_refl j))
  | inr other ↦ ground (arith, elem-sources deg j ks)
]

pub sources-Distinct : (deg : Degrees) (ks : List Bytes) → Distinct ks → Distinct (sources deg ks)
unfolding sources Distinct
sources-Distinct deg [] d = tt
sources-Distinct deg (k ∷ ks) d = elim (Bool-cases (nat_eq (deg k) 0)) [
  | inl e ↦ rw (e) (elem-sources deg k ks ∙ rw (d.0) refl, sources-Distinct deg ks d.1)
  | inr e ↦ rw (e) (sources-Distinct deg ks d.1)
]

-- Which ids a round queues.
pub elem-freed_other :
    (n : Bytes) (deg : Degrees) (cs : List Component) (j : Bytes)
    → elem j (ids cs) ≡ false
    → elem j (freed n deg cs) ≡ false
unfolding freed
elem-freed_other n deg [] j h = refl
elem-freed_other n deg (c ∷ cs) j h = ground (arith, elem-freed_other n deg cs j)

freed_tail :
    (n : Bytes) (deg : Degrees) (c : Component) (cs xs : List Component)
    → elem c.id (ids xs) ≡ false
    → AllOf (λ x. elem x.id (freed n deg cs) ≡ hits n x && nat_eq (deg x.id - 1) 0) xs
    → AllOf (λ x. elem x.id (freed n deg (c ∷ cs)) ≡ hits n x && nat_eq (deg x.id - 1) 0) xs
unfolding freed
freed_tail n deg c cs [] new h = tt
freed_tail n deg c cs (x ∷ xs) new h = (
  let e = h.0 in let s = ==_sym c.id x.id in ground arith,
  freed_tail n deg c cs xs (ground arith) h.1,
)

pub elem-freed :
    (n : Bytes) (deg : Degrees) (cs : List Component)
    → Distinct (ids cs)
    → AllOf (λ c. elem c.id (freed n deg cs) ≡ hits n c && nat_eq (deg c.id - 1) 0) cs
unfolding Distinct
elem-freed n deg [] d = tt
elem-freed n deg (c ∷ cs) d = (
  unfold freed in ground (arith, elem-freed_other n deg cs c.id d.0, ==_refl c.id),
  freed_tail n deg c cs cs d.0 (elem-freed n deg cs d.1),
)

pub freed-Distinct :
    (n : Bytes) (deg : Degrees) (cs : List Component)
    → Distinct (ids cs)
    → Distinct (freed n deg cs)
unfolding freed Distinct
freed-Distinct n deg [] d = tt
freed-Distinct n deg (c ∷ cs) d = elim (Bool-cases (hits n c && nat_eq (deg c.id - 1) 0)) [
  | inl e ↦ rw (e) (elem-freed_other n deg cs c.id d.0, freed-Distinct n deg cs d.1)
  | inr e ↦ rw (e) (freed-Distinct n deg cs d.1)
]

pub AllOf-freed :
    (P : Bytes → Type 0) (n : Bytes) (deg : Degrees) (cs : List Component)
    → AllOf (λ c. hits n c ≡ true → P c.id) cs
    → AllOf P (freed n deg cs)
unfolding freed
AllOf-freed P n deg [] h = tt
AllOf-freed P n deg (c ∷ cs) h = elim (Bool-cases (hits n c)) [
  | inl e ↦ elim (Bool-cases (nat_eq (deg c.id - 1) 0)) [
    | inl z ↦ rw (e, z) (h.0 e, AllOf-freed P n deg cs h.1)
    | inr z ↦ rw (e, z) (AllOf-freed P n deg cs h.1)
  ]
  | inr e ↦ rw (e) (AllOf-freed P n deg cs h.1)
]
