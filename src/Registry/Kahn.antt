-- ===== src/Registry/Kahn.antt =====
-- One round of Kahn's algorithm in `topo_sort`, and the degrees after it.
use mathlib.Core.List.{append-nil, append_assoc}
use envctl.Prelude.{
  ℕ, ◌+◌, ◌-◌, ◌≡◌, refl, sym, ap, ◌∙◌, true, false, ◌&&◌, List, [], ◌∷◌, ◌++◌, arith,
  if◌then◌else◌, Bytes, length, nat_eq, AllOf, ◌==◌, ==_iff, ==_refl, List_eq, ℕ_eq, Bool-cases,
  inl, inr,
}
use envctl.Sets.{elem, to_set, Distinct, elem-to_set, to_set-Distinct, ==_sym}
use envctl.Sets.Counting.{AllOf-zip, elem-append}
use envctl.Manifest.{Component}
use envctl.Registry.{ids, Degrees, update, hits, relax, relax_all}

-- How many of the requirements are not in the output.
unfoldable pub missing : List Bytes → List Bytes → ℕ
missing out [] = 0
missing out (d ∷ ds) = (if elem d out then 0 else 1) + missing out ds

abbrev pub waiting : List Bytes → Component → ℕ
waiting out c = missing out (to_set c.requires)

abbrev pub hit : Bytes → Component → ℕ
hit n c = if hits n c then 1 else 0

pub missing-zero : (out ds : List Bytes) → missing out ds ≡ 0 → AllOf (λ d. elem d out ≡ true) ds
unfolding missing
missing-zero out [] h = tt
missing-zero out (d ∷ ds) h = ground (arith, missing-zero out ds)

pub missing-nil : (ds : List Bytes) → missing [] ds ≡ length ds
unfolding missing
missing-nil [] = refl
missing-nil (d ∷ ds) = ground (arith, missing-nil ds)

missing-append_other :
    (out ds : List Bytes) (n : Bytes)
    → elem n ds ≡ false
    → missing (out ++ n ∷ []) ds ≡ missing out ds
unfolding missing
missing-append_other out [] n h = refl
missing-append_other out (d ∷ ds) n h =
    ground (arith, missing-append_other out ds n, elem-append d out (n ∷ []), ==_sym n d)

-- A new output is one requirement less for those that require it.
pub missing-append :
    (out ds : List Bytes) (n : Bytes)
    → elem n out ≡ false
    → Distinct ds
    → missing (out ++ n ∷ []) ds + (if elem n ds then 1 else 0) ≡ missing out ds
unfolding missing Distinct
missing-append out [] n f d = refl
missing-append out (x ∷ ds) n f d = elim (Bool-cases (x == n)) [
  | inl same ↦
      let e = (==_iff x n).0 same in
      let gone : elem n ds ≡ false = rw (← e) d.0 in
      let absent : elem x out ≡ false = rw (e) f in
      ground (arith, missing-append_other out ds n gone, elem-append x out (n ∷ []), ==_sym n x)
  | inr other ↦
      ground (arith, missing-append out ds n f d.1, elem-append x out (n ∷ []), ==_sym n x)
]

pub waiting-append :
    (out : List Bytes) (n : Bytes) (c : Component)
    → elem n out ≡ false
    → waiting (out ++ n ∷ []) c + hit n c ≡ waiting out c
waiting-append out n c f =
    rw (← elem-to_set n c.requires)
      (missing-append out (to_set c.requires) n f (to_set-Distinct c.requires))

-- The ids that a round queues.
unfoldable pub freed : Bytes → Degrees → List Component → List Bytes
freed n deg [] = []
freed n deg (c ∷ cs) =
    let rest = freed n deg cs in if hits n c && nat_eq (deg c.id - 1) 0 then c.id ∷ rest else rest

freed-update :
    (n k : Bytes) (v : ℕ) (deg : Degrees) (cs : List Component)
    → elem k (ids cs) ≡ false
    → freed n (update k v deg) cs ≡ freed n deg cs
unfolding freed update
freed-update n k v deg [] h = refl
freed-update n k v deg (c ∷ cs) h = ground (arith, freed-update n k v deg cs, ==_sym k c.id)

-- What a round does to the degrees and the queue.
pub record Relaxed (n : Bytes) (cs : List Component) (deg : Degrees) (q : List Bytes)
    (r : Degrees × List Bytes) : Type 0 where
  pub degrees : AllOf (λ c. r.0 c.id ≡ deg c.id - hit n c) cs
  pub others : (j : Bytes) → elem j (ids cs) ≡ false → r.0 j ≡ deg j
  pub queue : r.1 ≡ q ++ freed n deg cs

update_others :
    (k : Bytes) (v : ℕ) (deg : Degrees) (cs : List Component)
    → elem k (ids cs) ≡ false
    → AllOf (λ c. update k v deg c.id ≡ deg c.id) cs
unfolding update
update_others k v deg [] h = tt
update_others k v deg (c ∷ cs) h =
    (ground (arith, ==_sym k c.id), update_others k v deg cs (ground arith))

Relaxed-hit :
    (n : Bytes) (c : Component) (cs : List Component) (deg : Degrees) (q : List Bytes)
    (r : Degrees × List Bytes)
    → elem c.id (ids cs) ≡ false
    → hits n c ≡ true
    → Relaxed n cs
        (update c.id (deg c.id - 1) deg)
        (if nat_eq (deg c.id - 1) 0 then q ++ c.id ∷ [] else q)
        r
    → Relaxed n (c ∷ cs) deg q r
Relaxed-hit n c cs deg q r new h ih = record {
  degrees = (
    rw (h) (ih.others c.id new ∙ unfold update in rw (==_refl c.id) refl),
    AllOf-zip _ _ _ cs (λ x e f. e ∙ ap (λ (k : ℕ). k - hit n x) f) ih.degrees
        (update_others c.id (deg c.id - 1) deg cs new),
  );
  others = λ j e. ih.others j (ground arith) ∙ unfold update in ground arith;
  queue =
      let fewer = freed-update n c.id (deg c.id - 1) deg cs new in
      elim (Bool-cases (nat_eq (deg c.id - 1) 0)) [
        | inl zero_now ↦
            ih.queue
            ∙ rw (zero_now, fewer)
                (append_assoc q (c.id ∷ []) (freed n deg cs)
                  ∙ (unfold freed in rw (h, zero_now) refl))
        | inr more ↦ ih.queue ∙ rw (more, fewer) (unfold freed in rw (h, more) refl)
      ];
}

Relaxed-skip :
    (n : Bytes) (c : Component) (cs : List Component) (deg : Degrees) (q : List Bytes)
    (r : Degrees × List Bytes)
    → elem c.id (ids cs) ≡ false
    → hits n c ≡ false
    → Relaxed n cs deg q r
    → Relaxed n (c ∷ cs) deg q r
Relaxed-skip n c cs deg q r new h ih = record {
  degrees = (let e = ih.others c.id new in rw (h) (omega (arith, e)), ih.degrees);
  others = λ j e. ih.others j (ground arith);
  queue = ih.queue ∙ unfold freed in rw (h) refl;
}

pub relax_all-Relaxed :
    (n : Bytes) (cs : List Component) (deg : Degrees) (q : List Bytes)
    → Distinct (ids cs)
    → Relaxed n cs deg q (relax_all n cs (deg, q))
unfolding relax_all relax Distinct
relax_all-Relaxed n [] deg q d = record {
  degrees = tt;
  others = λ j e. refl;
  queue = unfold freed in sym (append-nil q);
}
relax_all-Relaxed n (c ∷ cs) deg q d = elim (Bool-cases (hits n c)) [
  | inl h ↦ Relaxed-hit n c cs deg q _ d.0 h (rw (h) (relax_all-Relaxed n cs _ _ d.1))
  | inr h ↦ Relaxed-skip n c cs deg q _ d.0 h (rw (h) (relax_all-Relaxed n cs deg q d.1))
]
