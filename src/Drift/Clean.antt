-- ===== src/Drift/Clean.antt =====
-- What an empty drift list means for the host.
use envctl.Prelude.{
  ◌+◌, ◌≡◌, ◌≢◌, ◌↔◌, ◌⊎◌, refl, true, false, not, some, List, [], ◌∷◌, ◌++◌, arith, AllOf, length,
  length-append, ==_iff, is_empty, Option_eq, Bool_eq, List_eq, ℕ_eq, codes,
}
use envctl.Manifest.{Registry, get}
use envctl.Drift.{
  DriftItem, EnvReport, ComponentState, contains, has_install_path, holds, missing_items,
  unhealthy_items, wiring_items, component_items, all_items, driver_items, insert_item, sort_items,
  compute, from_items, is_clean,
}
use envctl.Drift.Sorted.{from_items-count}

-- There is no card, or the driver of the card is live.
pub DriverInOrder : EnvReport → Type 0
DriverInOrder report = report.gpu_present ≡ false ⊎ report.driver_loaded ≡ true

-- Not applicable without a card; or absent, with nothing to install; or detected, not known to be
-- unhealthy, and wired where the manifest declares shell wiring.
pub InOrder : Registry → ComponentState → Type 0
InOrder reg c =
    contains c.note (codes "no GPU") ≡ true
    ⊎ (c.detected ≡ false × holds has_install_path (get reg c.id) ≡ false)
    ⊎ (c.detected ≡ true
        × c.healthy ≢ some false
        × (holds (λ x. not (is_empty x.wiring.shell_rc)) (get reg c.id) ≡ false
            ⊎ c.wiring_present ≡ true))

length-insert_item :
    (d : DriftItem) (es : List DriftItem) → length (insert_item d es) ≡ 1 + length es
unfolding insert_item
length-insert_item d [] = ground arith
length-insert_item d (e ∷ es) = ground (arith, length-insert_item d es)

length-sort_items : (ds : List DriftItem) → length (sort_items ds) ≡ length ds
unfolding sort_items
length-sort_items [] = refl
length-sort_items (d ∷ ds) =
    ground (arith, length-insert_item d (sort_items ds), length-sort_items ds)

length-driver_items :
    (report : EnvReport) → (length (driver_items report) ≡ 0) ↔ DriverInOrder report
unfolding driver_items DriverInOrder
length-driver_items report = ground arith

length-component_items :
    (report : EnvReport) (reg : Registry) (c : ComponentState)
    → DriverInOrder report
    → (length (component_items report reg c) ≡ 0) ↔ InOrder reg c
unfolding component_items missing_items unhealthy_items wiring_items InOrder DriverInOrder
length-component_items report reg c ok = ground (arith, ==_iff c.healthy (some false))

length-all_items :
    (report : EnvReport) (reg : Registry) (cs : List ComponentState)
    → DriverInOrder report
    → (length (all_items report reg cs) ≡ 0) ↔ AllOf (InOrder reg) cs
unfolding all_items
length-all_items report reg [] ok = ground arith
length-all_items report reg (c ∷ cs) ok = ground (
  arith,
  length-append (component_items report reg c) (all_items report reg cs),
  length-component_items report reg c ok,
  length-all_items report reg cs ok,
)

-- The summary of the drift is clean exactly where the driver and every reported component are in
-- order.
pub is_clean-compute_iff :
    (report : EnvReport) (reg : Registry)
    → (is_clean (from_items (compute report reg)) ≡ true)
      ↔ (DriverInOrder report × AllOf (InOrder reg) report.components)
unfolding is_clean compute
is_clean-compute_iff report reg =
    let items = all_items report reg report.components ++ driver_items report in
    ground (
      arith,
      (from_items-count (sort_items items)).3,
      length-sort_items items,
      length-append (all_items report reg report.components) (driver_items report),
      length-driver_items report,
      length-all_items report reg report.components,
    )
