-- ===== src/Executor.antt =====
-- The best-effort run: `run_phase` of crates/engine/src/error.rs and `run` of
-- crates/engine/src/executor.rs, with `RunPlan` and `RunSummary` of crates/engine/src/model.rs. The
-- registry is its components in key order and its topological order. A `HashSet` is a list of distinct
-- ids in the order of insertion, where the source's order is unspecified. The outer `Option` of the
-- selection is a recursion of the registry's queries that ran out of fuel.
pub mod Step
pub mod Select
pub mod Enroll
pub mod Turn
pub mod Turns
pub mod Rosters
pub mod Returns
pub mod Blocked
pub mod Within
pub mod Scope
pub mod Guarded
mod Tests
use envctl.Prelude.{
  ℕ, Bool, true, false, not, ◌&&◌, ◌||◌, ltb, Option, none, some, List, [], ◌∷◌, ◌++◌,
  if◌then◌else◌, Bytes, codes, any, all, is_empty, ◌==◌, List_eq, ℕ_eq, Option_eq,
}
use envctl.Text.{strip_prefix}
use envctl.Sets.{elem, to_set}
use envctl.Manifest.{Phase, Hook, Component, Wiring, hook}
use envctl.Drift.{contains}
use envctl.Host.{OpStatus, OpResult, RunContext, ResetGates, WiringReport, Host}
use envctl.Guard.{is_ok, check_guards, resolve_live_root_uuid}
use envctl.Registry.{
  find_component, closure, reverse_dependents, ClosureResult, members, unknown_component,
}

pub record RunPlan : Type 0 where
  pub phase : Phase
  pub targets : List Bytes
  pub dry_run : Bool
  pub gates : ResetGates

pub record RunSummary : Type 0 where
  pub results : List OpResult
  pub failed : List Bytes
  pub refused : List Bytes
  pub skipped_blocked : List Bytes
  pub incomplete : List Bytes

abbrev pub empty_summary : RunSummary
empty_summary = record {
  results = [];
  failed = [];
  refused = [];
  skipped_blocked = [];
  incomplete = [];
}

-- `RunSummary::ok`
unfoldable pub summary_ok : RunSummary → Bool
summary_ok s = is_empty s.failed && is_empty s.refused && is_empty s.incomplete

unfoldable pub mkres_id : Bytes → Phase → OpStatus → Bytes → Bool → OpResult
mkres_id id phase status msg dry_run = record {
  component = id;
  phase = phase;
  status = status;
  exit_code = none;
  message = msg;
  dry_run = dry_run;
}

unfoldable pub mkres : Component → Phase → OpStatus → Bytes → Bool → OpResult
mkres comp phase status msg dry_run = record {
  component = comp.id;
  phase = phase;
  status = status;
  exit_code = none;
  message = msg;
  dry_run = dry_run;
}

unfoldable pub finish : OpResult → RunSummary → RunSummary
finish res s = record s { results = s.results ++ res ∷ [] }

unfoldable pub push_refused : Bytes → RunSummary → RunSummary
push_refused id s = record s { refused = s.refused ++ id ∷ [] }

unfoldable pub wiring_empty : Wiring → Bool
wiring_empty w =
    is_empty w.path_entries
    && is_empty w.shell_rc
    && is_empty w.desktop_entries
    && is_empty w.systemd_user
    && is_empty w.apt_repos
    && is_empty w.nix_conf_lines
    && is_empty w.cdi_specs
    && is_empty w.alternatives
    && is_empty w.data_paths
    && is_empty w.config_paths

unfoldable pub has_system_scope : Wiring → Bool
has_system_scope w =
    not (is_empty w.apt_repos)
    || not (is_empty w.nix_conf_lines)
    || not (is_empty w.cdi_specs)
    || not (is_empty w.alternatives)

abbrev pub is_remove : Phase → Bool
is_remove Phase.remove = true
is_remove Phase.detect = false
is_remove Phase.install = false
is_remove Phase.verify = false
is_remove Phase.fix = false

-- `matches!(phase, Phase::Remove | Phase::Fix)`
abbrev pub is_destructive : Phase → Bool
is_destructive Phase.remove = true
is_destructive Phase.fix = true
is_destructive Phase.detect = false
is_destructive Phase.install = false
is_destructive Phase.verify = false

-- `matches!(phase, Phase::Install | Phase::Fix)`
abbrev pub is_forward : Phase → Bool
is_forward Phase.install = true
is_forward Phase.fix = true
is_forward Phase.detect = false
is_forward Phase.verify = false
is_forward Phase.remove = false

-- `matches!(status, OpStatus::Ok | OpStatus::NoHook)`
abbrev pub acted : OpStatus → Bool
acted OpStatus.ok = true
acted OpStatus.no_hook = true
acted OpStatus.failed = false
acted OpStatus.skipped = false
acted OpStatus.skipped_blocked = false
acted OpStatus.refused = false
acted OpStatus.dry_run_only = false
acted OpStatus.reboot_required = false
acted OpStatus.incomplete = false

module _ {W : Type 0} (host : Host W) where
  unfoldable pub resolve_context : W → RunContext
  resolve_context w = record {
    gpu_present = ltb 0 (host.pci_nvidia_count w);
    live_root_uuid = resolve_live_root_uuid host w;
  }

  -- The `match comp.hook(phase)` at the end of `run_phase`.
  unfoldable pub dispatch : Component → Phase → Bool → Option Hook → W → W × OpResult
  dispatch comp phase dry_run none w = (w, mkres comp phase OpStatus.no_hook [] dry_run)
  dispatch comp phase dry_run (some h) w = host.run comp.id phase h dry_run w

  -- What the guards' answer leads to.
  unfoldable pub guarded : Component → Phase → Bool → W × Option Bytes → W × OpResult
  guarded comp phase dry_run (w, some reason) =
      (w, mkres comp phase OpStatus.refused reason dry_run)
  guarded comp phase dry_run (w, none) = dispatch comp phase dry_run (hook comp phase) w

  unfoldable pub run_phase : RunContext → Component → Phase → (dry_run : Bool) → W → W × OpResult
  run_phase ctx comp phase dry_run w =
      if comp.gpu_required && not ctx.gpu_present
      then (w, mkres comp phase OpStatus.skipped (codes "skipped: no NVIDIA GPU") dry_run)
      else if comp.destructive && is_destructive phase
      then guarded comp phase dry_run (check_guards host ctx comp.guards w)
      else dispatch comp phase dry_run (hook comp phase) w

  -- Whether the phase's hook succeeds, and `absent` where the component has none: the probes of the
  -- run, and its verification afterwards.
  unfoldable pub probe : (absent : Bool) → RunContext → Component → Phase → W → W × Bool
  probe absent ctx comp phase w = elim (hook comp phase) [
    | none ↦ (w, absent)
    | some h ↦ let (w', r) = run_phase ctx comp phase false w in (w', is_ok r.status)
  ]

  -- A file that the block's path names holds the block's marker.
  unfoldable pub file_has : W → Bytes → Option Bytes → Bool
  file_has w text none = false
  file_has w text (some file) = elim (host.read_to_string w file) [
    | none ↦ false
    | some t ↦ contains t text
  ]

  unfoldable pub under_home : Bytes → Option Bytes
  under_home rest = elim host.home [ none ↦ none | some h ↦ some (h ++ codes "/" ++ rest) ]

  unfoldable pub home_file : Bytes → Option Bytes
  home_file file = elim (strip_prefix (codes "~/") file) [
    | none ↦ some file
    | some rest ↦ under_home rest
  ]

  unfoldable pub wiring_present : W → Wiring → Bool
  wiring_present w x =
      all (λ b. file_has w (codes "BEGIN " ++ b.marker) (home_file b.file)) x.shell_rc
      && (is_empty x.path_entries
          || file_has w (codes "BEGIN envctl PATH") (under_home (codes ".bashrc")))
      && all (λ a. host.exists w (codes "/etc/apt/sources.list.d/" ++ a.list_file)) x.apt_repos
      && (is_empty x.nix_conf_lines
          || all (λ l. file_has w l.line (some (codes "/etc/nix/nix.custom.conf")))
              x.nix_conf_lines)
      && all (λ c. host.exists w c.output) x.cdi_specs
      && all (λ a. host.exists w a.link) x.alternatives
