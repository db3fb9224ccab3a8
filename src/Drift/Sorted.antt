-- ===== src/Drift/Sorted.antt =====
-- The order of `compute`'s list, and what `DriftSummary::from_items` counts in it.
use envctl.Prelude.{
  ℕ, ◌+◌, ◌≤◌, ◌≡◌, refl, Bool, true, false, Option, none, some, List, [], ◌∷◌, ◌++◌, arith,
  if◌then◌else◌, leb, length, AllOf, nat_eq, Bool-cases, inl, inr,
}
use envctl.Manifest.{Registry}
use envctl.Drift.{
  DriftItem, DriftSummary, EnvReport, Severity, high, medium, low, rank, insert_item, sort_items,
  compute, tally, tally_all, from_items, worst_severity, all_items, driver_items,
}

-- From the most severe down.
pub IsSorted : List DriftItem → Type 0
IsSorted [] = Unit
IsSorted (d ∷ ds) = AllOf (λ e. rank d.severity ≤ rank e.severity) ds × IsSorted ds

abbrev pub is_severity : Severity → Severity → Bool
is_severity a b = nat_eq (rank a) (rank b)

unfoldable pub count : Severity → List DriftItem → ℕ
count sev [] = 0
count sev (d ∷ ds) = (if is_severity sev d.severity then 1 else 0) + count sev ds

abbrev pub first_severity : List DriftItem → Option Severity
first_severity [] = none
first_severity (d ∷ ds) = some d.severity

either :
    (P : List DriftItem → Type 0) {a b : List DriftItem} (c : Bool)
    → P a
    → P b
    → P (if c then a else b)
either P true p q = p
either P false p q = q

AllOf-insert_item :
    (P : DriftItem → Type 0) (d : DriftItem) (es : List DriftItem)
    → P d
    → AllOf P es
    → AllOf P (insert_item d es)
unfolding insert_item
AllOf-insert_item P d [] p h = (p, tt)
AllOf-insert_item P d (e ∷ es) p h =
    either (AllOf P) (leb (rank d.severity) (rank e.severity)) (p, h)
      (h.0, AllOf-insert_item P d es p h.1)

AllOf-rank :
    (j k : ℕ) (ds : List DriftItem)
    → j ≤ k
    → AllOf (λ e. k ≤ rank e.severity) ds
    → AllOf (λ e. j ≤ rank e.severity) ds
AllOf-rank j k [] l h = tt
AllOf-rank j k (d ∷ ds) l h = (omega (arith, l, h.0), AllOf-rank j k ds l h.1)

insert_item-IsSorted :
    (d : DriftItem) (es : List DriftItem) → IsSorted es → IsSorted (insert_item d es)
unfolding insert_item IsSorted
insert_item-IsSorted d [] h = (tt, tt)
insert_item-IsSorted d (e ∷ es) h = elim (Bool-cases (leb (rank d.severity) (rank e.severity))) [
  | inl t ↦
      rw (t)
        ((ground arith, AllOf-rank (rank d.severity) (rank e.severity) es (ground arith) h.0), h)
  | inr f ↦ rw (f) (
    AllOf-insert_item (λ x. rank e.severity ≤ rank x.severity) d es (ground arith) h.0,
    insert_item-IsSorted d es h.1,
  )
]

pub sort_items-IsSorted : (ds : List DriftItem) → IsSorted (sort_items ds)
unfolding sort_items IsSorted
sort_items-IsSorted [] = tt
sort_items-IsSorted (d ∷ ds) = insert_item-IsSorted d (sort_items ds) (sort_items-IsSorted ds)

pub tally_all-count :
    (s : DriftSummary) (ds : List DriftItem)
    → (tally_all s ds).high_count ≡ s.high_count + count high ds
      × (tally_all s ds).medium_count ≡ s.medium_count + count medium ds
      × (tally_all s ds).low_count ≡ s.low_count + count low ds
      × (tally_all s ds).total ≡ s.total + length ds
unfolding tally_all count tally
tally_all-count s [] = ground arith
tally_all-count s (d ∷ ds) =
    let rest = tally_all-count (tally s d.severity) ds in ground (arith, rest)

count-above :
    (sev : Severity) (k : ℕ) (ds : List DriftItem)
    → rank sev + 1 ≤ k
    → AllOf (λ e. k ≤ rank e.severity) ds
    → count sev ds ≡ 0
unfolding count
count-above sev k [] l h = refl
count-above sev k (d ∷ ds) l h = ground (arith, count-above sev k ds l h.1)

pub from_items-count :
    (ds : List DriftItem)
    → (from_items ds).high_count ≡ count high ds
      × (from_items ds).medium_count ≡ count medium ds
      × (from_items ds).low_count ≡ count low ds
      × (from_items ds).total ≡ length ds
unfolding from_items
from_items-count ds = ground (
  arith,
  tally_all-count (record { high_count = 0; medium_count = 0; low_count = 0; total = 0 }) ds,
)

worst_severity-IsSorted :
    (ds : List DriftItem) → IsSorted ds → worst_severity (from_items ds) ≡ first_severity ds
unfolding worst_severity IsSorted count
worst_severity-IsSorted [] h = ground (arith, from_items-count [])
worst_severity-IsSorted (d ∷ ds) h =
    let counted = from_items-count (d ∷ ds) in
    let no_high = λ (l : 1 ≤ rank d.severity). count-above high (rank d.severity) ds l h.0 in
    let no_medium = λ (l : 2 ≤ rank d.severity). count-above medium (rank d.severity) ds l h.0 in
    ground arith

-- The drift list comes most severe first, and the summary of it counts every item once and names
-- the severity of its first item as the worst.
pub compute-worst_severity :
    (report : EnvReport) (reg : Registry)
    → IsSorted (compute report reg)
      × worst_severity (from_items (compute report reg)) ≡ first_severity (compute report reg)
      × (from_items (compute report reg)).total ≡ length (compute report reg)
unfolding compute
compute-worst_severity report reg =
    let items = all_items report reg report.components ++ driver_items report in
    let sorted = sort_items-IsSorted items in
    (
      sorted,
      worst_severity-IsSorted (sort_items items) sorted,
      (from_items-count (sort_items items)).3,
    )
