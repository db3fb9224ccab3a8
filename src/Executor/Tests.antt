-- ===== src/Executor/Tests.antt =====
-- The run's theorems at two components, of which the second requires the first, on a machine whose
-- hooks succeed.
use envctl.Prelude.{
  ◌≡◌, ◌⊎◌, refl, true, false, List_eq, ℕ_eq, none, some, [], ◌∷◌, Bytes, codes, AllOf, arith,
}
use envctl.Manifest.{Phase, Component, hook}
use envctl.Host.{RunContext, ResetGates, Host, OpStatus}
use envctl.Guard.Proven.{Passed}
use envctl.Registry.{
  find_component, closure, keep_ids, in_closure, is_prereq_of, prereq_found, any_returns,
}
use envctl.Registry.Tests.{component, two, order, two-IsTopological}
use envctl.Executor.{RunPlan, RunSummary, dispatch, run_phase}
use envctl.Executor.Select.{
  unknown_id, done, base_order, first_unknown, look_up, push_new, add_closures, run,
}
use envctl.Executor.Enroll.{IsHonest}
use envctl.Executor.Rosters.{Listed}
use envctl.Executor.Returns.{UnknownTarget, run-Listed}
use envctl.Executor.Blocked.{Respects, run-Respects}
use envctl.Executor.Scope.{Touches, InScope, run-InScope}
use envctl.Executor.Guarded.{Skipped, Refused, run_phase-Passed}

abbrev machine : Host Unit
machine = record {
  home = none;
  exists = λ w path. true;
  read_to_string = λ w path. none;
  which = λ w name. true;
  output = λ w args. none;
  run = λ comp phase h dry_run w. (
    w,
    record {
      component = comp;
      phase = phase;
      status = OpStatus.ok;
      exit_code = none;
      message = [];
      dry_run = dry_run;
    },
  );
  pci_nvidia_count = λ w. 0;
  apply_wiring = λ x w. (w, record { notes = []; failures = [] });
  revert_wiring = λ x gates ctx w. (w, record { notes = []; failures = [] });
}

machine-IsHonest : IsHonest machine
machine-IsHonest = record {
  own = λ comp phase h dry_run w. refl;
  unblocked = λ comp phase h dry_run w. refl;
  complete = λ comp phase h dry_run w. refl;
}

abbrev gates : ResetGates
gates = record {
  all_components = false;
  confirm = true;
  cascade = true;
  keep_config = false;
  purge = false;
}

abbrev plan : Phase → Bytes → RunPlan
plan phase target = record { phase = phase; targets = target ∷ []; dry_run = false; gates = gates }

abbrev context : RunContext
context = record { gpu_present = false; live_root_uuid = none }

abbrev risky : Component
risky = record (component (codes "c") []) { destructive = true }

run_phase-Passed_example :
    Skipped machine context risky tt (run_phase machine context risky Phase.remove false tt)
    ⊎ Refused machine context risky tt (run_phase machine context risky Phase.remove false tt)
    ⊎ ((w1 : Unit {0}) × Passed machine context [] tt w1
        × (run_phase machine context risky Phase.remove false tt
            ≡ dispatch machine risky Phase.remove false (hook risky Phase.remove) w1))
run_phase-Passed_example = run_phase-Passed machine context risky Phase.remove false tt refl refl

run-Listed_example :
    ((id : Bytes) × (run machine 2 two order (plan Phase.install (codes "b")) tt
        ≡ some (unknown_id id))
      × UnknownTarget two (codes "b" ∷ []) id)
    ⊎ ((w' : Unit {0}) × (s : RunSummary) × (run machine 2 two order
            (plan Phase.install (codes "b"))
            tt
          ≡ some (done (w', s)))
        × Listed s)
run-Listed_example =
    run-Listed two order two-IsTopological 2 (omega arith) machine machine-IsHonest
      (plan Phase.install (codes "b")) tt

selected : base_order 2 two order (plan Phase.install (codes "b")) ≡ some (done two)
unfolding base_order add_closures closure keep_ids in_closure is_prereq_of prereq_found any_returns
    find_component look_up push_new
selected = refl

run-Respects_example :
    (w' : Unit {0}) × (s : RunSummary) × (run machine 2 two order
        (plan Phase.install (codes "b"))
        tt
      ≡ some (done (w', s)))
    × Respects [] two s.results
run-Respects_example =
    run-Respects machine machine-IsHonest (plan Phase.install (codes "b")) refl 2 two order two tt
      selected

named : first_unknown two (codes "a" ∷ []) ≡ none
unfolding first_unknown find_component
named = refl

run-InScope_example :
    (w' : Unit {0}) × (s : RunSummary) × (run machine 2 two order (plan Phase.remove (codes "a")) tt
      ≡ some (done (w', s)))
    × AllOf (Touches (InScope two (plan Phase.remove (codes "a")))) s.results
run-InScope_example =
    run-InScope machine machine-IsHonest (plan Phase.remove (codes "a")) two order 2
      two-IsTopological (omega arith) tt refl refl named
