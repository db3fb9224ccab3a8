-- ===== src/Executor/Turn.antt =====
-- The paths through a turn of the loop of `run`: the phase, the wiring and the verification after it.
use envctl.Prelude.{
  ◌≡◌, refl, Bool, true, false, not, ◌&&◌, ◌||◌, Option, none, some, Bytes, is_empty, List_eq, ℕ_eq,
  Bool-cases, inl, inr,
}
use envctl.Manifest.{Phase, Hook, Component, hook}
use envctl.Host.{OpStatus, OpResult, RunContext, ResetGates, Host, WiringReport}
use envctl.Guard.{check_guards}
use envctl.Executor.{
  RunPlan, mkres, wiring_empty, is_destructive, acted, guarded, dispatch, run_phase,
}
use envctl.Executor.Step.{
  Run, conclude, reported, apply_wiring, revert_wiring, reverified, reverify_absent,
  reverify_healthy, follow_up,
}
use envctl.Executor.Enroll.{
  same_status, IsHonest, Pending, Turn, conclude-Turn, push_incomplete-Pending,
}

module _ {W : Type 0} (host : Host W) (honest : IsHonest host) where
  dispatch-own :
      (comp : Component) (phase : Phase) (dry_run : Bool) (o : Option Hook) (w : W)
      → let res = (dispatch host comp phase dry_run o w).1 in
        (res.component ≡ comp.id)
        × (same_status res.status OpStatus.skipped_blocked ≡ false)
        × (same_status res.status OpStatus.incomplete ≡ false)
  unfolding dispatch mkres
  dispatch-own comp phase dry_run none w = (refl, refl, refl)
  dispatch-own comp phase dry_run (some h) w = (
    honest.own comp.id phase h dry_run w,
    honest.unblocked comp.id phase h dry_run w,
    honest.complete comp.id phase h dry_run w,
  )

  guarded-own :
      (comp : Component) (phase : Phase) (dry_run : Bool) (g : W × Option Bytes)
      → let res = (guarded host comp phase dry_run g).1 in
        (res.component ≡ comp.id)
        × (same_status res.status OpStatus.skipped_blocked ≡ false)
        × (same_status res.status OpStatus.incomplete ≡ false)
  unfolding guarded mkres
  guarded-own comp phase dry_run (w, some reason) = (refl, refl, refl)
  guarded-own comp phase dry_run (w, none) = dispatch-own comp phase dry_run (hook comp phase) w

  pub run_phase-own :
      (ctx : RunContext) (comp : Component) (phase : Phase) (dry_run : Bool) (w : W)
      → let res = (run_phase host ctx comp phase dry_run w).1 in
        (res.component ≡ comp.id)
        × (same_status res.status OpStatus.skipped_blocked ≡ false)
        × (same_status res.status OpStatus.incomplete ≡ false)
  unfolding run_phase mkres
  run_phase-own ctx comp phase dry_run w =
      elim (Bool-cases (comp.gpu_required && not ctx.gpu_present)) [
        | inl e ↦ rw (e) (refl, refl, refl)
        | inr e ↦ elim (Bool-cases (comp.destructive && is_destructive phase)) [
          | inl d ↦ rw (e, d) (guarded-own comp phase dry_run (check_guards host ctx comp.guards w))
          | inr d ↦ rw (e, d) (dispatch-own comp phase dry_run (hook comp phase) w)
        ]
      ]

  -- What a step of the handler makes of a pending result: a turn.
  unfoldable pub Ends : (comp : Component) (r0 r : Run W) → Type 0
  Ends comp r0 r = (res : OpResult) × Turn false comp r0 r res

  pub moved :
      (b : Bool) (comp : Component) (r0 r : Run W) (res : OpResult) (w : W)
      → Pending b comp r0 r res
      → Pending b comp r0 (record r { world = w }) res
  moved b comp r0 r res w p = record {
    results = p.results;
    own = p.own;
    blocks = p.blocks;
    enrolled = record {
      failed = p.enrolled.failed;
      refused = p.enrolled.refused;
      skipped_blocked = p.enrolled.skipped_blocked;
      incomplete = p.enrolled.incomplete;
      failed_ids = p.enrolled.failed_ids;
    };
  }

  -- Whether the wiring left the result alone or made it incomplete, a result that acted is still
  -- one, or incomplete.
  unfoldable pub Settled : (comp : Component) (r0 : Run W) → Run W × OpResult → Type 0
  Settled comp r0 (r, res) =
      Pending false comp r0 r res
      × ((acted res.status || same_status res.status OpStatus.incomplete) ≡ true)

  reported-Settled :
      (msg : Bytes) (comp : Component) (r0 r : Run W) (res : OpResult) (wr : W × WiringReport)
      → Pending false comp r0 r res
      → (acted res.status || same_status res.status OpStatus.incomplete) ≡ true
      → Settled comp r0 (reported msg comp res r wr)
  unfolding reported Settled
  reported-Settled msg comp r0 r res (w, rep) p a =
      elim (Bool-cases (not (is_empty rep.failures) && acted res.status)) [
        | inl e ↦ rw (e) (
          push_incomplete-Pending false comp r0 r res
              (record res { status = OpStatus.incomplete; message = msg }) w p a p.own refl,
          refl,
        )
        | inr e ↦ rw (e) (moved false comp r0 r res w p, a)
      ]

  apply_wiring-Settled :
      (comp : Component) (r0 r : Run W) (res : OpResult)
      → Settled comp r0 (r, res)
      → Settled comp r0 (apply_wiring host comp (r, res))
  unfolding apply_wiring Settled
  apply_wiring-Settled comp r0 r res s = elim (Bool-cases (wiring_empty comp.wiring)) [
    | inl e ↦ rw (e) s
    | inr e ↦ rw (e) (reported-Settled _ comp r0 r res _ s.0 s.1)
  ]

  revert_wiring-Settled :
      (ctx : RunContext) (gates : ResetGates) (comp : Component) (r0 r : Run W) (res : OpResult)
      → Settled comp r0 (r, res)
      → Settled comp r0 (revert_wiring host ctx gates comp (r, res))
  unfolding revert_wiring Settled
  revert_wiring-Settled ctx gates comp r0 r res s = elim (Bool-cases (wiring_empty comp.wiring)) [
    | inl e ↦ rw (e) s
    | inr e ↦ rw (e) (reported-Settled _ comp r0 r res _ s.0 s.1)
  ]

  conclude-Ends :
      (comp : Component) (r0 : Run W) (s : Run W × OpResult)
      → Settled comp r0 s
      → Ends comp r0 (conclude s.1 s.0)
  unfolding Ends Settled
  conclude-Ends comp r0 (r, res) p = (res, conclude-Turn false comp r0 r res p.0)

  reverified-Ends :
      (agrees : Bool) (comp : Component) (r0 : Run W) (instead : OpResult) (r : Run W)
      (res : OpResult) (w : W)
      → Settled comp r0 (r, res)
      → instead.component ≡ comp.id
      → instead.status ≡ OpStatus.incomplete
      → Ends comp r0 (reverified host agrees comp instead (record r { world = w }, res))
  unfolding reverified Ends Settled
  reverified-Ends true comp r0 instead r res w s o e =
      (res, conclude-Turn false comp r0 _ res (moved false comp r0 r res w s.0))
  reverified-Ends false comp r0 instead r res w s o e = (
    instead,
    conclude-Turn false comp r0 _ instead
        (push_incomplete-Pending false comp r0 r res instead w s.0 s.1 o e),
  )

  reverify_absent-Ends :
      (ctx : RunContext) (comp : Component) (r0 : Run W) (s : Run W × OpResult)
      → Settled comp r0 s
      → Ends comp r0 (reverify_absent host ctx comp s)
  unfolding reverify_absent mkres
  reverify_absent-Ends ctx comp r0 (r, res) s = reverified-Ends _ comp r0 _ r res _ s refl refl

  reverify_healthy-Ends :
      (ctx : RunContext) (comp : Component) (r0 : Run W) (s : Run W × OpResult)
      → Settled comp r0 s
      → Ends comp r0 (reverify_healthy host ctx comp s)
  unfolding reverify_healthy mkres
  reverify_healthy-Ends ctx comp r0 (r, res) s = reverified-Ends _ comp r0 _ r res _ s refl refl

  pub follow_up-Ends :
      (phase : Phase) (ctx : RunContext) (plan : RunPlan) (comp : Component) (r0 r : Run W)
      (res : OpResult)
      → Settled comp r0 (r, res)
      → Ends comp r0 (follow_up host phase ctx plan comp res r)
  unfolding follow_up Settled
  follow_up-Ends Phase.install ctx plan comp r0 r res s =
      conclude-Ends comp r0 _ (apply_wiring-Settled comp r0 r res s)
  follow_up-Ends Phase.remove ctx plan comp r0 r res s =
      reverify_absent-Ends ctx comp r0 _ (revert_wiring-Settled ctx plan.gates comp r0 r res s)
  follow_up-Ends Phase.fix ctx plan comp r0 r res s =
      reverify_healthy-Ends ctx comp r0 _ (apply_wiring-Settled comp r0 r res s)
  follow_up-Ends Phase.detect ctx plan comp r0 r res s = conclude-Ends comp r0 (r, res) s
  follow_up-Ends Phase.verify ctx plan comp r0 r res s = conclude-Ends comp r0 (r, res) s
