-- ===== src/Executor/Turns.antt =====
-- The result of a turn of the loop of `run`, on every path through it.
use envctl.Prelude.{
  ◌≡◌, refl, Bool, true, false, not, ◌&&◌, ◌||◌, List, arith, if◌then◌else◌, Bytes, any, List_eq,
  ℕ_eq, Bool-cases, inl, inr,
}
use envctl.Sets.{elem}
use envctl.Manifest.{Phase, Component}
use envctl.Host.{OpStatus, OpResult, RunContext, Host}
use envctl.Executor.{
  RunPlan, mkres, push_refused, wiring_empty, has_system_scope, is_forward, acted, run_phase,
  wiring_present,
}
use envctl.Executor.Step.{
  Run, conclude, reported, enroll, apply_wiring, attempt, install_or_skip, skip_fix, fix_unhealthy,
  fix_verified, fix_detected, triage, step,
}
use envctl.Executor.Enroll.{same_status, IsHonest, Pending, Turn, conclude-Turn, enroll-Enrolled}
use envctl.Executor.Turn.{run_phase-own, Ends, moved, Settled, follow_up-Ends}

-- The machine's state is no part of what a turn says.
pub from_world :
    {W : Type 0} (b : Bool) (comp : Component) (r r' : Run W) (w : W) (res : OpResult)
    → Turn b comp (record r { world = w }) r' res
    → Turn b comp r r' res
from_world b comp r r' w res t = record {
  results = t.results;
  own = t.own;
  blocks = t.blocks;
  enrolled = record {
    failed = t.enrolled.failed;
    refused = t.enrolled.refused;
    skipped_blocked = t.enrolled.skipped_blocked;
    incomplete = t.enrolled.incomplete;
    failed_ids = t.enrolled.failed_ids;
  };
}

enroll-results :
    {W : Type 0} (comp : Component) (st : OpStatus) (r : Run W)
    → (enroll comp st r).summary.results ≡ r.summary.results
unfolding enroll push_refused
enroll-results comp OpStatus.ok r = refl
enroll-results comp OpStatus.failed r = refl
enroll-results comp OpStatus.skipped r = refl
enroll-results comp OpStatus.skipped_blocked r = refl
enroll-results comp OpStatus.refused r = refl
enroll-results comp OpStatus.dry_run_only r = refl
enroll-results comp OpStatus.no_hook r = refl
enroll-results comp OpStatus.reboot_required r = refl
enroll-results comp OpStatus.incomplete r = refl

and_false : (b : Bool) → (b && false) ≡ false
and_false b = ground arith

acted-settled :
    (st : OpStatus) (b : Bool)
    → (b && acted st) ≡ true
    → (acted st || same_status st OpStatus.incomplete) ≡ true
acted-settled st b e = ground arith

pub enroll-Pending :
    {W : Type 0} (comp : Component) (st : OpStatus) (r : Run W) (res : OpResult)
    → res.component ≡ comp.id
    → res.status ≡ st
    → same_status st OpStatus.incomplete ≡ false
    → Pending (same_status st OpStatus.skipped_blocked) comp r (enroll comp st r) res
enroll-Pending comp st r res o e i = record {
  results = enroll-results comp st r;
  own = o;
  blocks = rw (e) refl;
  enrolled = enroll-Enrolled comp st r res o e i;
}

-- A requirement of the component has failed in this run, and the phase goes forward.
abbrev pub is_blocked : RunPlan → Component → List Bytes → Bool
is_blocked plan comp ids = is_forward plan.phase && any (λ d. elem d ids) comp.requires

module _ {W : Type 0} (host : Host W) (honest : IsHonest host) where
  attempt-Ends :
      (ctx : RunContext) (plan : RunPlan) (comp : Component) (r : Run W)
      → Ends host honest comp r (attempt host ctx plan comp r)
  unfolding attempt Ends Settled
  attempt-Ends ctx plan comp r =
      let p = run_phase host ctx comp plan.phase plan.dry_run r.world in
      let (own, unblocked, complete) =
        run_phase-own host honest ctx comp plan.phase plan.dry_run r.world in
      let pending : Pending false comp (record r { world = p.0 })
          (enroll comp p.1.status (record r { world = p.0 })) p.1 =
        rw (unblocked) at
          (enroll-Pending comp p.1.status (record r { world = p.0 }) p.1 own refl complete) in
      elim (Bool-cases (not plan.dry_run && acted p.1.status)) [
        | inl e ↦ rw (e) (
            let (res, t) =
              follow_up-Ends host honest plan.phase ctx plan comp _ _ p.1
                (pending, acted-settled p.1.status _ e) in
            (res, from_world false comp r _ p.0 res t))
        | inr e ↦
            rw (e)
              (p.1, from_world false comp r _ p.0 p.1 (conclude-Turn false comp _ _ p.1 pending))
      ]

  moved_on :
      (comp : Component) (r r' : Run W) (w : W)
      → Ends host honest comp (record r { world = w }) r'
      → Ends host honest comp r r'
  unfolding Ends
  moved_on comp r r' w (res, t) = (res, from_world false comp r r' w res t)

  -- A result of a status that no hook gave: nothing is pending but itself.
  skipped-Pending :
      (comp : Component) (r : Run W) (res : OpResult)
      → res.component ≡ comp.id
      → res.status ≡ OpStatus.skipped
      → Pending false comp r r res
  unfolding enroll
  skipped-Pending comp r res o e = enroll-Pending comp OpStatus.skipped r res o e refl

  apply_wiring-skipped :
      (comp : Component) (r : Run W) (res : OpResult)
      → res.component ≡ comp.id
      → res.status ≡ OpStatus.skipped
      → let s = apply_wiring host comp (r, res) in Ends host honest comp r (conclude s.1 s.0)
  unfolding apply_wiring reported Ends
  apply_wiring-skipped comp r res o e = elim (Bool-cases (wiring_empty comp.wiring)) [
    | inl h ↦ rw (h) (res, conclude-Turn false comp r r res (skipped-Pending comp r res o e))
    | inr h ↦
        rw (h, off _ _ e)
          (
            res,
            conclude-Turn false comp r _ res
                (moved host honest false comp r r res _ (skipped-Pending comp r res o e)),
          )
  ]
    where
      off : (b : Bool) (st : OpStatus) → st ≡ OpStatus.skipped → (b && acted st) ≡ false
      off b st i = rw (i) (and_false b)

  install_or_skip-Ends :
      (ctx : RunContext) (plan : RunPlan) (comp : Component) (r : Run W) (p : W × Bool)
      → Ends host honest comp r (install_or_skip host ctx plan comp r p)
  unfolding install_or_skip mkres
  install_or_skip-Ends ctx plan comp r (w, true) =
      moved_on comp r _ w (apply_wiring-skipped comp (record r { world = w }) _ refl refl)
  install_or_skip-Ends ctx plan comp r (w, false) =
      moved_on comp r _ w (attempt-Ends ctx plan comp (record r { world = w }))

  skip_fix-Ends :
      (msg : Bytes) (comp : Component) (r : Run W)
      → Ends host honest comp r (skip_fix host msg comp r)
  unfolding skip_fix mkres Ends
  skip_fix-Ends msg comp r =
      (_, conclude-Turn false comp r r _ (skipped-Pending comp r _ refl refl))

  fix_unhealthy-Ends :
      (ctx : RunContext) (plan : RunPlan) (comp : Component) (r : Run W)
      → Ends host honest comp r (fix_unhealthy host ctx plan comp r)
  unfolding fix_unhealthy mkres Ends enroll
  fix_unhealthy-Ends ctx plan comp r =
      elim (Bool-cases (has_system_scope comp.wiring && not plan.gates.confirm)) [
        | inl e ↦ rw (e) (
          _,
          conclude-Turn false comp r _ _ (enroll-Pending comp OpStatus.refused r _ refl refl refl),
        )
        | inr e ↦ rw (e) (attempt-Ends ctx plan comp r)
      ]

  fix_verified-Ends :
      (ctx : RunContext) (plan : RunPlan) (comp : Component) (r : Run W) (p : W × Bool)
      → Ends host honest comp r (fix_verified host ctx plan comp r p)
  unfolding fix_verified
  fix_verified-Ends ctx plan comp r (w, healthy) =
      elim (Bool-cases (healthy && wiring_present host w comp.wiring)) [
        | inl e ↦ rw (e) (moved_on comp r _ w (skip_fix-Ends _ comp (record r { world = w })))
        | inr e ↦
            rw (e) (moved_on comp r _ w (fix_unhealthy-Ends ctx plan comp (record r { world = w })))
      ]

  fix_detected-Ends :
      (ctx : RunContext) (plan : RunPlan) (comp : Component) (r : Run W) (p : W × Bool)
      → Ends host honest comp r (fix_detected host ctx plan comp r p)
  unfolding fix_detected
  fix_detected-Ends ctx plan comp r (w, false) =
      moved_on comp r _ w (skip_fix-Ends _ comp (record r { world = w }))
  fix_detected-Ends ctx plan comp r (w, true) =
      moved_on comp r _ w (fix_verified-Ends ctx plan comp (record r { world = w }) _)

  triage-Ends :
      (phase : Phase) (ctx : RunContext) (plan : RunPlan) (comp : Component) (r : Run W)
      → Ends host honest comp r (triage host phase ctx plan comp r)
  unfolding triage
  triage-Ends Phase.install ctx plan comp r = install_or_skip-Ends ctx plan comp r _
  triage-Ends Phase.fix ctx plan comp r = fix_detected-Ends ctx plan comp r _
  triage-Ends Phase.detect ctx plan comp r = attempt-Ends ctx plan comp r
  triage-Ends Phase.verify ctx plan comp r = attempt-Ends ctx plan comp r
  triage-Ends Phase.remove ctx plan comp r = attempt-Ends ctx plan comp r

  either :
      (comp : Component) (r : Run W) (b : Bool) (x y : Run W)
      → Ends host honest comp r x
      → Ends host honest comp r y
      → Ends host honest comp r (if b then x else y)
  either comp r true x y p q = p
  either comp r false x y p q = q

  pub step-Turn :
      (ctx : RunContext) (plan : RunPlan) (comp : Component) (r : Run W)
      → (res : OpResult) × Turn
          (is_blocked plan comp r.failed_ids)
          comp
          r
          (step host ctx plan comp r)
          res
  unfolding step mkres Ends
  step-Turn ctx plan comp r = elim (Bool-cases (is_blocked plan comp r.failed_ids)) [
    | inl e ↦ rw (e) (
      _,
      conclude-Turn true comp r _ _
          (enroll-Pending comp OpStatus.skipped_blocked r _ refl refl refl),
    )
    | inr e ↦ rw (e) (
        either comp r plan.dry_run _ _ (attempt-Ends ctx plan comp r)
          (triage-Ends plan.phase ctx plan comp r))
  ]
