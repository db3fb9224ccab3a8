-- ===== src/Executor/Step.antt =====
-- The body of the loop of `run`: one component's turn, with its wiring and its verification.
use envctl.Prelude.{
  Bool, true, false, not, ◌&&◌, List, [], ◌∷◌, ◌++◌, if◌then◌else◌, Bytes, codes, any, is_empty,
  List_eq, ℕ_eq, Option_eq,
}
use envctl.Sets.{elem}
use envctl.Manifest.{Phase, Component}
use envctl.Host.{OpStatus, OpResult, RunContext, ResetGates, WiringReport, Host}
use envctl.Executor.{
  RunPlan, RunSummary, mkres, finish, push_refused, wiring_empty, has_system_scope, is_forward,
  acted, run_phase, probe, wiring_present,
}

-- What a run changes: the machine, the summary, and the ids that failed.
pub record Run (W : Type 0) : Type 0 where
  pub world : W
  pub summary : RunSummary
  pub failed_ids : List Bytes

unfoldable pub conclude : {W : Type 0} → OpResult → Run W → Run W
conclude res r = record r { summary = finish res r.summary }

unfoldable pub push_incomplete : {W : Type 0} → Component → Run W → Run W
push_incomplete comp r = record r {
  summary = record r.summary { incomplete = r.summary.incomplete ++ comp.id ∷ [] };
}

-- The failures of a report turn a result that acted into an incomplete one.
unfoldable pub reported :
    {W : Type 0} → Bytes → Component → OpResult → Run W → W × WiringReport → Run W × OpResult
reported msg comp res r (w, rep) =
    if not (is_empty rep.failures) && acted res.status
    then (
      push_incomplete comp (record r { world = w }),
      record res { status = OpStatus.incomplete; message = msg },
    )
    else (record r { world = w }, res)

-- The `match res.status` on the rosters.
unfoldable pub enroll : {W : Type 0} → Component → OpStatus → Run W → Run W
enroll comp OpStatus.failed r = record r {
  summary = record r.summary { failed = r.summary.failed ++ comp.id ∷ [] };
  failed_ids = r.failed_ids ++ comp.id ∷ [];
}
enroll comp OpStatus.refused r = record r { summary = push_refused comp.id r.summary }
enroll comp OpStatus.skipped_blocked r = record r {
  summary = record r.summary { skipped_blocked = r.summary.skipped_blocked ++ comp.id ∷ [] };
}
enroll comp OpStatus.ok r = r
enroll comp OpStatus.skipped r = r
enroll comp OpStatus.dry_run_only r = r
enroll comp OpStatus.no_hook r = r
enroll comp OpStatus.reboot_required r = r
enroll comp OpStatus.incomplete r = r

module _ {W : Type 0} (host : Host W) where
  unfoldable pub apply_wiring : Component → Run W × OpResult → Run W × OpResult
  apply_wiring comp (r, res) =
      if wiring_empty comp.wiring
      then (r, res)
      else reported (codes "wiring apply reported failures (see log)") comp res r
          (host.apply_wiring comp.wiring r.world)

  unfoldable pub revert_wiring :
      RunContext → ResetGates → Component → Run W × OpResult → Run W × OpResult
  revert_wiring ctx gates comp (r, res) =
      if wiring_empty comp.wiring
      then (r, res)
      else reported (codes "wiring revert reported failures (see log)") comp res r
          (host.revert_wiring comp.wiring gates ctx r.world)

  -- The verification afterwards: where it disagrees, its result takes the place of the phase's.
  unfoldable pub reverified : (agrees : Bool) → Component → OpResult → Run W × OpResult → Run W
  reverified true comp instead (r, res) = conclude res r
  reverified false comp instead (r, res) = conclude instead (push_incomplete comp r)

  unfoldable pub reverify_absent : RunContext → Component → Run W × OpResult → Run W
  reverify_absent ctx comp (r, res) =
      let (w, detected) = probe host false ctx comp Phase.detect r.world in
      reverified (not detected) comp
        (mkres comp Phase.remove OpStatus.incomplete
          (codes "removed, but still detected (orphaned/partial remove) — re-run reset or inspect")
          false)
        (record r { world = w }, res)

  unfoldable pub reverify_healthy : RunContext → Component → Run W × OpResult → Run W
  reverify_healthy ctx comp (r, res) =
      let (w, healthy) = probe host true ctx comp Phase.verify r.world in
      reverified healthy comp
        (mkres comp Phase.fix OpStatus.incomplete
          (codes "fix ran, but verify still fails — review log / escalate") false)
        (record r { world = w }, res)

  -- The wiring and the verification after a phase that acted.
  unfoldable pub follow_up : Phase → RunContext → RunPlan → Component → OpResult → Run W → Run W
  follow_up Phase.install ctx plan comp res r =
      let (r', res') = apply_wiring comp (r, res) in conclude res' r'
  follow_up Phase.remove ctx plan comp res r =
      reverify_absent ctx comp (revert_wiring ctx plan.gates comp (r, res))
  follow_up Phase.fix ctx plan comp res r = reverify_healthy ctx comp (apply_wiring comp (r, res))
  follow_up Phase.detect ctx plan comp res r = conclude res r
  follow_up Phase.verify ctx plan comp res r = conclude res r

  -- The phase itself, its rosters, and what follows where it acted.
  unfoldable pub attempt : RunContext → RunPlan → Component → Run W → Run W
  attempt ctx plan comp r =
      let (w, res) = run_phase host ctx comp plan.phase plan.dry_run r.world in
      let r' = enroll comp res.status (record r { world = w }) in
      if not plan.dry_run && acted res.status
      then follow_up plan.phase ctx plan comp res r'
      else conclude res r'

  -- Skip an install that is detected, but reconcile its wiring.
  unfoldable pub install_or_skip : RunContext → RunPlan → Component → Run W → W × Bool → Run W
  install_or_skip ctx plan comp r (w, true) =
      let (r', res) = apply_wiring comp (
        record r { world = w },
        mkres comp plan.phase OpStatus.skipped (codes "already present") false,
      ) in
      conclude res r'
  install_or_skip ctx plan comp r (w, false) = attempt ctx plan comp (record r { world = w })

  unfoldable pub skip_fix : Bytes → Component → Run W → Run W
  skip_fix msg comp r = conclude (mkres comp Phase.fix OpStatus.skipped msg false) r

  -- The gate on the system scope, for a component that is not healthy.
  unfoldable pub fix_unhealthy : RunContext → RunPlan → Component → Run W → Run W
  fix_unhealthy ctx plan comp r =
      if has_system_scope comp.wiring && not plan.gates.confirm
      then conclude
          (mkres comp Phase.fix OpStatus.refused (codes "system-scope fix needs --confirm") false)
          (record r { summary = push_refused comp.id r.summary })
      else attempt ctx plan comp r

  unfoldable pub fix_verified : RunContext → RunPlan → Component → Run W → W × Bool → Run W
  fix_verified ctx plan comp r (w, healthy) =
      if healthy && wiring_present host w comp.wiring
      then skip_fix (codes "already healthy") comp (record r { world = w })
      else fix_unhealthy ctx plan comp (record r { world = w })

  unfoldable pub fix_detected : RunContext → RunPlan → Component → Run W → W × Bool → Run W
  fix_detected ctx plan comp r (w, false) =
      skip_fix (codes "not installed; use install") comp (record r { world = w })
  fix_detected ctx plan comp r (w, true) =
      fix_verified ctx plan comp (record r { world = w }) (probe host true ctx comp Phase.verify w)

  unfoldable pub triage : Phase → RunContext → RunPlan → Component → Run W → Run W
  triage Phase.install ctx plan comp r =
      install_or_skip ctx plan comp r (probe host false ctx comp Phase.detect r.world)
  triage Phase.fix ctx plan comp r =
      fix_detected ctx plan comp r (probe host true ctx comp Phase.detect r.world)
  triage Phase.detect ctx plan comp r = attempt ctx plan comp r
  triage Phase.verify ctx plan comp r = attempt ctx plan comp r
  triage Phase.remove ctx plan comp r = attempt ctx plan comp r

  -- One turn of the loop.
  unfoldable pub step : RunContext → RunPlan → Component → Run W → Run W
  step ctx plan comp r =
      if is_forward plan.phase && any (λ d. elem d r.failed_ids) comp.requires
      then conclude
          (mkres comp plan.phase OpStatus.skipped_blocked (codes "dependency failed") plan.dry_run)
          (enroll comp OpStatus.skipped_blocked r)
      else if plan.dry_run
      then attempt ctx plan comp r
      else triage plan.phase ctx plan comp r

  unfoldable pub steps : RunContext → RunPlan → List Component → Run W → Run W
  steps ctx plan [] r = r
  steps ctx plan (c ∷ cs) r = steps ctx plan cs (step ctx plan c r)
