-- ===== src/Executor/Scope.antt =====
-- What a removal of crates/engine/src/executor.rs may touch.
use envctl.Prelude.{
  ℕ, ◌≡◌, ◌≤◌, ◌⊎◌, refl, true, false, not, ◌&&◌, ◌||◌, none, some, List, [], ◌∷◌, Bytes, is_empty,
  length, AllOf, List_eq, ℕ_eq, Bool-cases, inl, inr,
}
use envctl.Sets.{elem}
use envctl.Sets.Counting.{AllOf-append, AllOf-map}
use envctl.Manifest.{Phase, Component}
use envctl.Host.{OpStatus, OpResult, RunContext, Host}
use envctl.Guard.{is_ok}
use envctl.Registry.Round.{IsTopological}
use envctl.Registry.Prereq.{IsPrereq}
use envctl.Registry.Closure.{reverse_dependents_lem, Keeps-elem}
use envctl.Executor.{
  RunPlan, RunSummary, empty_summary, is_remove, run_phase, mkres_id, finish, push_refused,
  resolve_context,
}
use envctl.Executor.Step.{Run, step, steps}
use envctl.Executor.Select.{
  done, base_order, first_unknown, look_up, keep_elem, reversed, insert_new, surviving, comp_ids,
  rebuild, refuse_with, refuse_targets, Probed, note_dependent, probe_dependents, probe_targets,
  gate_cascade, gate, Gated, go, stop, run_gated, run_based, run, dedup_rosters,
}
use envctl.Executor.Enroll.{same_status, IsHonest}
use envctl.Executor.Turns.{step-Turn}
use envctl.Executor.Within.{
  Within, keep_elem-Within, reversed-Within, surviving-all, elem-all, look_up-Within, fold_either,
}

-- A result that is a refusal, or of an id with the property.
abbrev pub Touches : (Bytes → Type 0) → OpResult → Type 0
Touches P r = (same_status r.status OpStatus.refused ≡ true) ⊎ P r.component

module _ {W : Type 0} (host : Host W) (honest : IsHonest host) (P : Bytes → Type 0) where
  steps-Touches :
      (ctx : RunContext) (plan : RunPlan) (cs : List Component) (r : Run W)
      → Within P cs
      → AllOf (Touches P) r.summary.results
      → AllOf (Touches P) (steps host ctx plan cs r).summary.results
  unfolding steps
  steps-Touches ctx plan [] r h a = a
  steps-Touches ctx plan (c ∷ cs) r h a =
      let (res, t) = step-Turn host honest ctx plan c r in
      steps-Touches ctx plan cs (step host ctx plan c r) h.1 (
        rw (t.results)
          (AllOf-append (Touches P) r.summary.results (res ∷ []) a (inr (rw (t.own) h.0), tt)))

  refuse_with-Touches :
      (id reason : Bytes) (plan : RunPlan) (s : RunSummary)
      → AllOf (Touches P) s.results
      → AllOf (Touches P) (refuse_with id reason plan s).results
  unfolding refuse_with finish push_refused mkres_id
  refuse_with-Touches id reason plan s a =
      AllOf-append (Touches P) s.results (_ ∷ []) a (inl refl, tt)

  refuse_targets-Touches :
      (plan : RunPlan) (ts : List Bytes) (s : RunSummary)
      → AllOf (Touches P) s.results
      → AllOf (Touches P) (refuse_targets plan ts s).results
  unfolding refuse_targets
  refuse_targets-Touches plan [] s a = a
  refuse_targets-Touches plan (t ∷ ts) s a =
      refuse_targets-Touches plan ts _ (refuse_with-Touches t _ plan s a)

  -- What the gates let through.
  Lets : Gated W → Type 0
  Lets (go w now s) = Within P now × AllOf (Touches P) s.results
  Lets (stop w s) = AllOf (Touches P) s.results

  run_gated-Touches :
      (ctx : RunContext) (plan : RunPlan) (g : Gated W)
      → Lets g
      → AllOf (Touches P) (run_gated host ctx plan g).1.results
  unfolding run_gated Lets dedup_rosters
  run_gated-Touches ctx plan (stop w s) l = l
  run_gated-Touches ctx plan (go w now s) l = steps-Touches ctx plan now _ l.0 l.1

-- A target, or with `--cascade` a component that requires one, directly or through others.
abbrev pub InScope : List Component → RunPlan → Bytes → Type 0
InScope cs plan x =
    (elem x plan.targets ≡ true)
    ⊎ ((plan.gates.cascade ≡ true) × ((t : Bytes) × (elem t plan.targets ≡ true) × IsPrereq cs t x))

module _ {W : Type 0} (host : Host W) (honest : IsHonest host) (plan : RunPlan)
    (cs : List Component) (order : List Bytes) where
  insert_new-all :
      (P : Bytes → Type 0) (x : Bytes) (set : List Bytes)
      → P x
      → AllOf P set
      → AllOf P (insert_new x set)
  unfolding insert_new
  insert_new-all P x set p a = elim (Bool-cases (elem x set)) [
    | inl e ↦ rw (e) a
    | inr e ↦ rw (e) (AllOf-append P set (x ∷ []) a (p, tt))
  ]

  probe_dependents-InScope :
      (ctx : RunContext) (set : List Bytes) (t : Bytes) (rdeps : List Component) (p : Probed W)
      → elem t plan.targets ≡ true
      → Within (IsPrereq cs t) rdeps
      → AllOf (InScope cs plan) p.fold
      → AllOf (InScope cs plan) (probe_dependents host ctx plan set t rdeps p).fold
  unfolding probe_dependents note_dependent
  probe_dependents-InScope ctx set t [] p e q a = a
  probe_dependents-InScope ctx set t (c ∷ rdeps) p e q a =
      probe_dependents-InScope ctx set t rdeps _ e q.1
        (noted (run_phase host ctx c Phase.detect false p.world))
    where
      noted :
          (r : W × OpResult) → AllOf (InScope cs plan) (note_dependent host plan set t c r p).fold
      noted (w, r) =
          fold_either (AllOf (InScope cs plan)) (is_ok r.status && not (elem c.id set))
            plan.gates.cascade _ _ _
            (λ k. insert_new-all (InScope cs plan) c.id p.fold (inr (k, (t, e, q.0))) a) a a

  probe_targets-InScope :
      (fuel : ℕ) (top : IsTopological cs order) (enough : length order ≤ fuel) (ctx : RunContext)
      (set ts : List Bytes) (p : Probed W)
      → AllOf (λ t. elem t plan.targets ≡ true) ts
      → AllOf (InScope cs plan) p.fold
      → (q : Probed W) × (probe_targets host fuel cs order ctx plan set ts p ≡ some q)
        × AllOf (InScope cs plan) q.fold
  unfolding probe_targets
  probe_targets-InScope fuel top enough ctx set [] p h a = (p, refl, a)
  probe_targets-InScope fuel top enough ctx set (t ∷ ts) p h a =
      let (rdeps, k, keeps) = reverse_dependents_lem cs order top fuel t enough in
      let within =
        look_up-Within (IsPrereq cs t) cs rdeps
          (AllOf-map _ _ rdeps (λ x e. ((Keeps-elem keeps x).0 e).1.1) (elem-all rdeps)) in
      rw (probe_targets, k)
        (probe_targets-InScope fuel top enough ctx set ts _ h.1
          (probe_dependents-InScope ctx set t (look_up cs rdeps) p h.0 within a))

  rebuild-InScope :
      (fold refuse : List Bytes) (now : List Component)
      → AllOf (InScope cs plan) fold
      → Within (InScope cs plan) now
      → Within (InScope cs plan) (rebuild cs order plan fold refuse now)
  unfolding rebuild
  rebuild-InScope fold refuse now f h =
      elim (Bool-cases (not (is_empty refuse) || not (is_empty fold))) [
        | inl e ↦ rw (e) (
            reversed-Within (InScope cs plan) _ (
              keep_elem-Within (InScope cs plan) _ (look_up cs order) (
                AllOf-append (InScope cs plan) (surviving refuse plan.targets) fold
                  (surviving-all (InScope cs plan) refuse plan.targets
                    (AllOf-map _ _ plan.targets (λ x e. inl e) (elem-all plan.targets)))
                  f)))
        | inr e ↦ rw (e) h
      ]

  gate_cascade-Lets :
      (now : List Component) (q : Probed W)
      → Within (InScope cs plan) now
      → AllOf (InScope cs plan) q.fold
      → (g : Gated W) × (gate_cascade host cs order plan now (some q) ≡ some g)
        × Lets host honest (InScope cs plan) g
  unfolding gate_cascade Lets
  gate_cascade-Lets now q within a =
      let refusals =
        refuse_targets-Touches host honest (InScope cs plan) plan q.refuse empty_summary tt in
      elim (Bool-cases (not (is_empty q.fold) && not plan.gates.confirm && not plan.dry_run)) [
        | inl stops ↦
            rw (stops)
              (_, refl, refuse_with-Touches host honest (InScope cs plan) _ _ plan _ refusals)
        | inr goes ↦ rw (goes) (_, refl, (rebuild-InScope q.fold q.refuse now a within, refusals))
      ]

  gate-Lets :
      (fuel : ℕ) (top : IsTopological cs order) (enough : length order ≤ fuel) (ctx : RunContext)
      (now : List Component) (w : W)
      → is_remove plan.phase ≡ true
      → is_empty plan.targets ≡ false
      → Within (InScope cs plan) now
      → (g : Gated W) × (gate host fuel cs order ctx plan now w ≡ some g)
        × Lets host honest (InScope cs plan) g
  unfolding gate
  gate-Lets fuel top enough ctx now w r e within =
      let (q, k, a) =
        probe_targets-InScope fuel top enough ctx (comp_ids now) plan.targets
          (record { world = w; fold = []; refuse = [] }) (elem-all plan.targets) tt in
      rw (r, e, k) (gate_cascade-Lets now q within a)

  base_order-remove :
      (fuel : ℕ)
      → is_remove plan.phase ≡ true
      → is_empty plan.targets ≡ false
      → first_unknown cs plan.targets ≡ none
      → base_order fuel cs order plan ≡ some (done (keep_elem plan.targets (look_up cs order)))
  unfolding base_order
  base_order-remove fuel r e known = rw (e, r, known) refl

  -- A removal with named targets and enough fuel returns its summary, and every result of it that is
  -- not a refusal is of a named target, or with `--cascade` of a component that requires a named target,
  -- directly or through others.
  pub run-InScope :
      (fuel : ℕ) (top : IsTopological cs order) (enough : length order ≤ fuel) (w : W)
      → is_remove plan.phase ≡ true
      → is_empty plan.targets ≡ false
      → first_unknown cs plan.targets ≡ none
      → (w' : W) × (s : RunSummary) × (run host fuel cs order plan w ≡ some (done (w', s)))
        × AllOf (Touches (InScope cs plan)) s.results
  unfolding run run_based
  run-InScope fuel top enough w r e known =
      let base = keep_elem plan.targets (look_up cs order) in
      let named : AllOf (InScope cs plan) plan.targets =
        AllOf-map _ _ plan.targets (λ x e. inl e) (elem-all plan.targets) in
      let within =
        reversed-Within (InScope cs plan) base
          (keep_elem-Within (InScope cs plan) plan.targets (look_up cs order) named) in
      let (g, k, l) =
        gate-Lets fuel top enough (resolve_context host w) (reversed base) w r e within in
      rw (run, base_order-remove fuel r e known, run_based, r, k)
        (
          _,
          _,
          refl,
          run_gated-Touches host honest (InScope cs plan) (resolve_context host w) plan g l,
        )
