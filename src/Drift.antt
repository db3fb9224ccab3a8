-- ===== src/Drift.antt =====
-- crates/engine/src/drift.rs: the difference between the detected environment and the manifest.
pub mod Sorted
pub mod Clean
mod Tests
use envctl.Prelude.{
  ℕ, ◌+◌, ◌≡◌, Bool, true, false, not, ◌&&◌, ◌||◌, Option, none, some, List, [], ◌∷◌, ◌++◌,
  if◌then◌else◌, leb, ltb, nat_eq, Bytes, codes, is_empty, ◌==◌, List_eq, ℕ_eq, Bool_eq, Option_eq,
}
use envctl.Text.{starts_with}
use envctl.Broker.Wire.{is_some}
use envctl.Manifest.{Component, Wiring, Registry, get}

pub data DriftKind : Type 0 where
  missing unhealthy wiring_missing driver_inactive : DriftKind

pub data Severity : Type 0 where
  high medium low : Severity

pub record DriftItem : Type 0 where
  pub component : Bytes
  pub kind : DriftKind
  pub severity : Severity
  pub suggested_verb : Bytes
  pub detail : Bytes

pub record ToolState : Type 0 where
  pub name : Bytes
  pub path : Option Bytes
  pub version : Option Bytes

pub record ComponentState : Type 0 where
  pub id : Bytes
  pub name : Bytes
  pub detected : Bool
  pub healthy : Option Bool
  pub wiring_present : Bool
  pub note : Bytes

pub record EnvReport : Type 0 where
  pub generated_at : Bytes
  pub kernel : Option Bytes
  pub os : Option Bytes
  pub cpu_model : Option Bytes
  pub cpu_threads : ℕ
  pub mem_total_mb : ℕ
  pub gpu_present : Bool
  pub gpu_count : ℕ
  pub gpus : List Bytes
  pub driver_loaded : Bool
  pub driver_version : Option Bytes
  pub cuda_version : Option Bytes
  pub open_kernel_module : Bool
  pub software_rendered : Bool
  pub tools : List ToolState
  pub components : List ComponentState
  pub drift : List DriftItem

-- `str::contains`
unfoldable pub contains : Bytes → Bytes → Bool
contains [] needle = starts_with [] needle
contains (c ∷ s) needle = starts_with (c ∷ s) needle || contains s needle

-- An install hook, or a footprint that an install writes.
unfoldable pub has_install_path : Component → Bool
has_install_path x =
    let w = x.wiring in
    is_some x.install_hook
    || not (is_empty w.shell_rc)
    || not (is_empty w.path_entries)
    || not (is_empty w.apt_repos)
    || not (is_empty w.nix_conf_lines)
    || not (is_empty w.cdi_specs)
    || not (is_empty w.alternatives)

-- `comp.map(..).unwrap_or(false)`
abbrev pub holds : (Component → Bool) → Option Component → Bool
holds p none = false
holds p (some x) = p x

abbrev pub is_meta : Bytes → Bool
is_meta id = starts_with id (codes "group-") || starts_with id (codes "meta-")

unfoldable pub missing_items : EnvReport → Option Component → ComponentState → List DriftItem
missing_items report comp c =
    let driver_inactive_owns =
      c.id == codes "nvidia-open" && report.gpu_present && not report.driver_loaded in
    if holds has_install_path comp && not driver_inactive_owns
    then record {
      component = c.id;
      kind = missing;
      severity = if is_meta c.id then low else medium;
      suggested_verb = codes "envctl install " ++ c.id;
      detail = codes "declared but not installed";
    }
      ∷ []
    else []

unfoldable pub unhealthy_items : Option Component → ComponentState → List DriftItem
unhealthy_items comp c =
    let destructive = holds (λ x. x.destructive) comp in
    if c.healthy == some false
    then record {
      component = c.id;
      kind = unhealthy;
      severity = high;
      suggested_verb =
          if destructive
          then codes "envctl auto-fix "
            ++ (c.id ++ codes "   (dry-run first; review, then --apply)")
          else codes "envctl auto-fix " ++ (c.id ++ codes " --apply");
      detail =
          if destructive
          then codes "verify failed — destructive fix, run dry-run and confirm before --apply"
          else codes "installed but verify failed";
    }
      ∷ []
    else []

unfoldable pub wiring_items : Option Component → ComponentState → List DriftItem
wiring_items comp c =
    if holds (λ x. not (is_empty x.wiring.shell_rc)) comp && not c.wiring_present
    then record {
      component = c.id;
      kind = wiring_missing;
      severity = low;
      suggested_verb = codes "envctl install " ++ c.id;
      detail = codes "detected, but envctl's shell-rc wiring block is absent";
    }
      ∷ []
    else []

-- The body of the loop over the components.
unfoldable pub component_items : EnvReport → Registry → ComponentState → List DriftItem
component_items report reg c =
    let comp = get reg c.id in
    if contains c.note (codes "no GPU")
    then []
    else if not c.detected
    then missing_items report comp c
    else unhealthy_items comp c ++ wiring_items comp c

unfoldable pub all_items : EnvReport → Registry → List ComponentState → List DriftItem
all_items report reg [] = []
all_items report reg (c ∷ cs) = component_items report reg c ++ all_items report reg cs

unfoldable pub driver_items : EnvReport → List DriftItem
driver_items report =
    if report.gpu_present && not report.driver_loaded
    then record {
      component = codes "nvidia-open";
      kind = driver_inactive;
      severity = high;
      suggested_verb = codes "envctl install nvidia-open  (then REBOOT)";
      detail = codes "GPUs present but the kernel driver is not loaded (software-rendered)";
    }
      ∷ []
    else []

abbrev pub rank : Severity → ℕ
rank high = 0
rank medium = 1
rank low = 2

-- `sort_by_key`, which is stable: an item goes before the later ones of its rank.
unfoldable pub insert_item : DriftItem → List DriftItem → List DriftItem
insert_item d [] = d ∷ []
insert_item d (e ∷ es) =
    if leb (rank d.severity) (rank e.severity) then d ∷ e ∷ es else e ∷ insert_item d es

unfoldable pub sort_items : List DriftItem → List DriftItem
sort_items [] = []
sort_items (d ∷ ds) = insert_item d (sort_items ds)

unfoldable pub compute : EnvReport → Registry → List DriftItem
compute report reg = sort_items (all_items report reg report.components ++ driver_items report)

pub record DriftSummary : Type 0 where
  pub high_count : ℕ
  pub medium_count : ℕ
  pub low_count : ℕ
  pub total : ℕ

unfoldable pub tally : DriftSummary → Severity → DriftSummary
tally s high = record s { high_count = s.high_count + 1; total = s.total + 1 }
tally s medium = record s { medium_count = s.medium_count + 1; total = s.total + 1 }
tally s low = record s { low_count = s.low_count + 1; total = s.total + 1 }

-- The loop of `from_items`.
unfoldable pub tally_all : DriftSummary → List DriftItem → DriftSummary
tally_all s [] = s
tally_all s (d ∷ ds) = tally_all (tally s d.severity) ds

unfoldable pub from_items : List DriftItem → DriftSummary
from_items items =
    tally_all (record { high_count = 0; medium_count = 0; low_count = 0; total = 0 }) items

unfoldable pub is_clean : DriftSummary → Bool
is_clean s = nat_eq s.total 0

unfoldable pub worst_severity : DriftSummary → Option Severity
worst_severity s =
    if ltb 0 s.high_count
    then some high
    else if ltb 0 s.medium_count
    then some medium
    else if ltb 0 s.low_count
    then some low
    else none
