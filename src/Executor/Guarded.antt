-- ===== src/Executor/Guarded.antt =====
-- A destructive phase against the guards.
use envctl.Prelude.{
  ◌≡◌, ◌⊎◌, refl, sym, ap, Bool, true, not, ◌&&◌, Option, none, some, Bytes, arith, Bool-cases, inl,
  inr,
}
use envctl.Manifest.{Phase, Component, hook}
use envctl.Host.{OpStatus, OpResult, RunContext, Host}
use envctl.Guard.{check_guards}
use envctl.Guard.Proven.{Passed, check_guards-Passed}
use envctl.Executor.{is_destructive, run_phase, guarded, dispatch, mkres}

module _ {W : Type 0} (host : Host W) (ctx : RunContext) where
  -- The state is as it was: nothing has run.
  pub Skipped : Component → W → W × OpResult → Type 0
  Skipped comp w (w', res) =
      ((comp.gpu_required && not ctx.gpu_present) ≡ true)
      × (w' ≡ w)
      × (res.status ≡ OpStatus.skipped)

  -- A guard gave a reason, and nothing has run since.
  pub Refused : Component → W → W × OpResult → Type 0
  Refused comp w (w', res) =
      (reason : Bytes) × ((check_guards host ctx comp.guards w).1 ≡ some reason)
      × (w' ≡ (check_guards host ctx comp.guards w).0)
      × (res.status ≡ OpStatus.refused)

  -- A destructive component's removal or fix goes one of three ways. Where it needs a GPU that is not
  -- there, it is skipped and the state is untouched. Where a guard refuses, it is refused, and the
  -- state is the one in which the checks of the guards ended, changed by no hook since. Otherwise all
  -- its guards have held, one after the other, and its hook runs.
  pub run_phase-Passed :
      (comp : Component) (phase : Phase) (dry_run : Bool) (w : W)
      → comp.destructive ≡ true
      → is_destructive phase ≡ true
      → Skipped comp w (run_phase host ctx comp phase dry_run w)
        ⊎ Refused comp w (run_phase host ctx comp phase dry_run w)
        ⊎ ((w1 : W) × Passed host ctx comp.guards w w1
            × (run_phase host ctx comp phase dry_run w
                ≡ dispatch host comp phase dry_run (hook comp phase) w1))
  unfolding run_phase guarded mkres Skipped Refused
  run_phase-Passed comp phase dry_run w d p =
      elim (Bool-cases (comp.gpu_required && not ctx.gpu_present)) [
        | inl e ↦ inl (rw (e) (refl, refl, refl))
        | inr e ↦ rw (e, both) (inr (checked (check_guards host ctx comp.guards w) refl))
      ]
    where
      both : (comp.destructive && is_destructive phase) ≡ true
      both = ground (arith, d, p)

      checked :
          (g : W × Option Bytes)
          → check_guards host ctx comp.guards w ≡ g
          → Refused comp w (guarded host comp phase dry_run g)
            ⊎ ((w1 : W) × Passed host ctx comp.guards w w1
                × (guarded host comp phase dry_run g
                    ≡ dispatch host comp phase dry_run (hook comp phase) w1))
      checked (w1, some reason) e = inl (reason, ap (λ p. p.1) e, ap (λ p. p.0) (sym e), refl)
      checked (w1, none) e = inr (w1, check_guards-Passed host ctx comp.guards w w1 e, refl)
