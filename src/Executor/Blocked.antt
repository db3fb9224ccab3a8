-- ===== src/Executor/Blocked.antt =====
-- The dependency gate of the forward phases.
use envctl.Prelude.{
  ℕ, ◌≡◌, refl, sym, ap, ◌∙◌, Bool, true, false, ◌||◌, some, List, [], ◌∷◌, ◌++◌, Bytes, any,
  List_eq, ℕ_eq,
}
use mathlib.Core.List.{append_assoc, append-nil}
use envctl.Sets.{elem}
use envctl.Manifest.{Phase, Component}
use envctl.Host.{OpStatus, OpResult, RunContext, Host}
use envctl.Executor.{RunPlan, RunSummary, empty_summary, is_forward, is_remove, resolve_context}
use envctl.Executor.Step.{Run, step, steps}
use envctl.Executor.Select.{done, base_order, gate, run_gated, run_based, run, dedup_rosters}
use envctl.Executor.Enroll.{same_status, names, IsHonest}
use envctl.Executor.Turns.{step-Turn, is_blocked}
use envctl.Executor.Rosters.{any-append}

-- Some requirement of the component has a failed result among these.
abbrev pub requirement_failed : Component → List OpResult → Bool
requirement_failed c rs = any (λ d. any (names OpStatus.failed d) rs) c.requires

-- Each component has one result, in the order of the components, and the result is blocked exactly
-- where a requirement failed in front of it.
pub Respects : (before : List OpResult) → List Component → List OpResult → Type 0
Respects before [] [] = Unit {0}
Respects before [] (r ∷ rs) = ⊥
Respects before (c ∷ cs) [] = ⊥
Respects before (c ∷ cs) (r ∷ rs) =
    (r.component ≡ c.id)
    × (same_status r.status OpStatus.skipped_blocked ≡ requirement_failed c before)
    × Respects (before ++ r ∷ []) cs rs

any-ext : (f g : Bytes → Bool) → ((x : Bytes) → f x ≡ g x) → (xs : List Bytes) → any f xs ≡ any g xs
any-ext f g h [] = refl
any-ext f g h (x ∷ xs) = rw (h x, any-ext f g h xs) refl

module _ {W : Type 0} (host : Host W) (honest : IsHonest host) (plan : RunPlan)
    (forward : is_forward plan.phase ≡ true) where
  blocked-failed :
      (c : Component) (ids : List Bytes) (rs : List OpResult)
      → ((x : Bytes) → elem x ids ≡ any (names OpStatus.failed x) rs)
      → is_blocked plan c ids ≡ requirement_failed c rs
  blocked-failed c ids rs h = rw (forward) (any-ext _ _ h c.requires)

  failed_ids-step :
      (ids ids' : List Bytes) (rs rs' : List OpResult) (res : OpResult)
      → ((x : Bytes) → elem x ids ≡ any (names OpStatus.failed x) rs)
      → ((x : Bytes) → elem x ids' ≡ (elem x ids || names OpStatus.failed x res))
      → rs' ≡ rs ++ res ∷ []
      → (x : Bytes) → elem x ids' ≡ any (names OpStatus.failed x) rs'
  failed_ids-step ids ids' rs rs' res h k e x =
      k x ∙ rw (h x, e, any-append (names OpStatus.failed x) rs res) refl

  steps-Respects :
      (ctx : RunContext) (cs : List Component) (r : Run W)
      → ((x : Bytes) → elem x r.failed_ids ≡ any (names OpStatus.failed x) r.summary.results)
      → (rs : List OpResult) × ((steps host ctx plan cs r).summary.results
          ≡ r.summary.results ++ rs)
        × Respects r.summary.results cs rs
  unfolding steps Respects
  steps-Respects ctx [] r h = ([], sym (append-nil _), tt)
  steps-Respects ctx (c ∷ cs) r h =
      let (res, t) = step-Turn host honest ctx plan c r in
      let (rs, e, k) = steps-Respects ctx cs (step host ctx plan c r) (
        failed_ids-step r.failed_ids _ r.summary.results _ res h t.enrolled.failed_ids t.results) in
      (
        res ∷ rs,
        e ∙ ap (λ l. l ++ rs) t.results ∙ append_assoc r.summary.results (res ∷ []) rs,
        (t.own, t.blocks ∙ blocked-failed c r.failed_ids r.summary.results h, rw (t.results) at k),
      )

  not_remove : is_remove plan.phase ≡ false
  not_remove = by_phase plan.phase forward
    where
      by_phase : (p : Phase) → is_forward p ≡ true → is_remove p ≡ false
      by_phase Phase.install e = refl
      by_phase Phase.fix e = refl
      by_phase Phase.detect e = cc
      by_phase Phase.verify e = cc
      by_phase Phase.remove e = cc

  -- An install or a fix of a plan whose order is selected returns, with one result for each component
  -- of the order, in that order; a result is blocked exactly where a requirement of its component has a
  -- failed result in front of it. A requirement that was itself blocked does not block.
  pub run-Respects :
      (fuel : ℕ) (cs : List Component) (order : List Bytes) (now : List Component) (w : W)
      → base_order fuel cs order plan ≡ some (done now)
      → (w' : W) × (s : RunSummary) × (run host fuel cs order plan w ≡ some (done (w', s)))
        × Respects [] now s.results
  unfolding run run_based gate run_gated dedup_rosters
  run-Respects fuel cs order now w b =
      let ctx = resolve_context host w in
      let (rs, e, k) =
        steps-Respects ctx now (record { world = w; summary = empty_summary; failed_ids = [] })
          (λ x. refl) in
      let r =
        steps host ctx plan now (record { world = w; summary = empty_summary; failed_ids = [] }) in
      (
        r.world,
        dedup_rosters host r.summary,
        rw (run, b, run_based, gate, not_remove) refl,
        rw (e) k,
      )
