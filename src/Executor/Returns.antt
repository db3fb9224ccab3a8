-- ===== src/Executor/Returns.antt =====
-- What `run` of crates/engine/src/executor.rs returns on a registry with an order.
use envctl.Prelude.{
  ℕ, ◌≡◌, ◌≤◌, ◌⊎◌, refl, ap, true, false, not, ◌&&◌, Option, none, some, List, [], ◌∷◌, arith,
  if◌then◌else◌, Bytes, is_empty, length, ==_refl, List_eq, ℕ_eq, Bool-cases, inl, inr,
}
use mathlib.Core.Path.{subst}
use envctl.Sets.{elem}
use envctl.Manifest.{Component}
use envctl.Host.{RunContext, Host}
use envctl.Registry.{ids, closure, members, unknown_component, find_component}
use envctl.Registry.Round.{IsTopological}
use envctl.Registry.Closure.{closure_lem, reverse_dependents_lem}
use envctl.Executor.{RunPlan, RunSummary, empty_summary, is_remove, resolve_context}
use envctl.Executor.Select.{
  Bail, unknown_id, done, first_unknown, add_closures, push_new, look_up, base_order, keep_elem,
  reversed, Gated, Probed, comp_ids, probe_dependents, probe_targets, gate_cascade, gate, run_based,
  run,
}
use envctl.Executor.Enroll.{IsHonest}
use envctl.Executor.Rosters.{
  Listed, Gated-Listed, run_gated-Listed, empty-Listed, refuse_targets-Listed, refuse_with-Listed,
}

-- A target that no component has is named.
abbrev pub UnknownTarget : List Component → List Bytes → Bytes → Type 0
UnknownTarget cs targets id = (elem id targets ≡ true) × (elem id (ids cs) ≡ false)

further :
    (cs : List Component) (t : Bytes) (ts : List Bytes) (id : Bytes)
    → UnknownTarget cs ts id
    → UnknownTarget cs (t ∷ ts) id
further cs t ts id (a, b) = (ground (arith, a), b)

find_component-none :
    (cs : List Component) (id : Bytes) → find_component cs id ≡ none → elem id (ids cs) ≡ false
unfolding find_component
find_component-none [] id h = refl
find_component-none (c ∷ cs) id h = ground (arith, find_component-none cs id)

named_first :
    (cs : List Component) (t : Bytes) (ts : List Bytes)
    → find_component cs t ≡ none
    → UnknownTarget cs (t ∷ ts) t
named_first cs t ts e = (ground (arith, ==_refl t), find_component-none cs t e)

first_unknown-UnknownTarget :
    (cs : List Component) (ts : List Bytes) (id : Bytes)
    → first_unknown cs ts ≡ some id
    → UnknownTarget cs ts id
unfolding first_unknown
first_unknown-UnknownTarget cs [] id h = cc
first_unknown-UnknownTarget cs (t ∷ ts) id h =
    found (find_component cs t) refl h (first_unknown-UnknownTarget cs ts id)
  where
    found :
        (o : Option Component)
        → find_component cs t ≡ o
        → elim o [ none ↦ some t | some c ↦ first_unknown cs ts ] ≡ some id
        → (first_unknown cs ts ≡ some id → UnknownTarget cs ts id)
        → UnknownTarget cs (t ∷ ts) id
    found none e k r =
        let same : t ≡ id = ap (λ (o : Option Bytes). elim o [ none ↦ t | some y ↦ y ]) k in
        subst (λ x. UnknownTarget cs (t ∷ ts) x) same (named_first cs t ts e)
    found (some c) e k r = further cs t ts id (r k)

module _ (cs : List Component) (order : List Bytes) (t : IsTopological cs order) (fuel : ℕ)
    (enough : length order ≤ fuel) where
  -- A selection that returns, and bails on unknown targets only.
  Selects : List Bytes → Option (Bail (List Component)) → Type 0
  Selects ts none = ⊥
  Selects ts (some (unknown_id id)) = UnknownTarget cs ts id
  Selects ts (some (done v)) = Unit {0}

  Selects-further :
      (x : Bytes) (ts : List Bytes) (o : Option (Bail (List Component)))
      → Selects ts o
      → Selects (x ∷ ts) o
  unfolding Selects
  Selects-further x ts none s = s
  Selects-further x ts (some (unknown_id id)) s = further cs x ts id s
  Selects-further x ts (some (done v)) s = tt

  unknown_first :
      (x : Bytes) (ts : List Bytes) → elem x (ids cs) ≡ false → UnknownTarget cs (x ∷ ts) x
  unknown_first x ts e = (ground (arith, ==_refl x), e)

  closure-cases :
      (x : Bytes)
      → ((elem x (ids cs) ≡ false) × (closure fuel cs order x ≡ some (unknown_component x)))
        ⊎ ((kept : List Bytes) × (closure fuel cs order x ≡ some (members kept)))
  unfolding closure
  closure-cases x = elim (Bool-cases (elem x (ids cs))) [
    | inl e ↦ let k = closure_lem cs order t fuel x enough e in inr (k.0, k.1)
    | inr e ↦ inl (e, rw (e) refl)
  ]

  add_closures-Selects :
      (v : List Component) (ts : List Bytes) → Selects ts (add_closures fuel cs order v ts)
  unfolding add_closures Selects
  add_closures-Selects v [] = tt
  add_closures-Selects v (x ∷ ts) = elim (closure-cases x) [
    | inl (e, k) ↦ rw (add_closures, k) (unknown_first x ts e)
    | inr (kept, k) ↦
        rw (add_closures, k)
          (Selects-further x ts _ (add_closures-Selects (push_new v (look_up cs kept)) ts))
  ]

  base_order-Selects : (plan : RunPlan) → Selects plan.targets (base_order fuel cs order plan)
  unfolding base_order Selects
  base_order-Selects plan = elim (Bool-cases (is_empty plan.targets)) [
    | inl e ↦ rw (e) tt
    | inr e ↦ elim (Bool-cases (is_remove plan.phase)) [
      | inl r ↦ rw (e, r) (removal (first_unknown cs plan.targets) refl)
      | inr r ↦ rw (e, r) (add_closures-Selects [] plan.targets)
    ]
  ]
    where
      removal :
          (o : Option Bytes)
          → first_unknown cs plan.targets ≡ o
          → Selects plan.targets (elim o [
            | some id ↦ some (unknown_id id)
            | none ↦ some (done (keep_elem plan.targets (look_up cs order)))
          ])
      removal none k = tt
      removal (some id) k = first_unknown-UnknownTarget cs plan.targets id k

  probe_targets-returns :
      {W : Type 0} (host : Host W) (ctx : RunContext) (plan : RunPlan) (set ts : List Bytes)
      (p : Probed W)
      → (q : Probed W) × (probe_targets host fuel cs order ctx plan set ts p ≡ some q)
  unfolding probe_targets
  probe_targets-returns host ctx plan set [] p = (p, refl)
  probe_targets-returns host ctx plan set (x ∷ ts) p =
      let (rdeps, k, _) = reverse_dependents_lem cs order t fuel x enough in
      rw (probe_targets, k)
        (probe_targets-returns host ctx plan set ts
          (probe_dependents host ctx plan set x (look_up cs rdeps) p))

  gate_cascade-Listed :
      {W : Type 0} (host : Host W) (honest : IsHonest host) (ctx : RunContext) (plan : RunPlan)
      (now : List Component) (p : Probed W)
      → (g : Gated W) × (gate_cascade host cs order plan now (some p) ≡ some g)
        × Gated-Listed host honest ctx plan g
  unfolding gate_cascade Gated-Listed
  gate_cascade-Listed host honest ctx plan now p =
      let l = refuse_targets-Listed plan p.refuse empty_summary empty-Listed in
      elim (Bool-cases (not (is_empty p.fold) && not plan.gates.confirm && not plan.dry_run)) [
        | inl e ↦ rw (e) (_, refl, refuse_with-Listed _ _ plan _ l)
        | inr e ↦ rw (e) (_, refl, l)
      ]

  gate-Listed :
      {W : Type 0} (host : Host W) (honest : IsHonest host) (ctx : RunContext) (plan : RunPlan)
      (now : List Component) (w : W)
      → (g : Gated W) × (gate host fuel cs order ctx plan now w ≡ some g)
        × Gated-Listed host honest ctx plan g
  unfolding gate Gated-Listed
  gate-Listed host honest ctx plan now w = elim (Bool-cases (is_remove plan.phase)) [
    | inl r ↦ elim (Bool-cases (is_empty plan.targets)) [
      | inl e ↦ elim (Bool-cases (plan.gates.all_components && plan.gates.confirm)) [
        | inl a ↦ rw (r, e, a) (_, refl, empty-Listed)
        | inr a ↦ rw (r, e, a) (_, refl, refuse_with-Listed _ _ plan _ empty-Listed)
      ]
      | inr e ↦
          let (p, k) =
            probe_targets-returns host ctx plan (comp_ids now) plan.targets
              (record { world = w; fold = []; refuse = [] }) in
          rw (r, e, k) (gate_cascade-Listed host honest ctx plan now p)
    ]
    | inr r ↦ rw (r) (_, refl, empty-Listed)
  ]

  -- On a registry with an order and with fuel for its length, a run on a plan bails on a target that no
  -- component has, or it returns a summary whose rosters hold an id exactly where some result of it has
  -- the roster's status.
  pub run-Listed :
      {W : Type 0} (host : Host W) (honest : IsHonest host) (plan : RunPlan) (w : W)
      → ((id : Bytes) × (run host fuel cs order plan w ≡ some (unknown_id id))
          × UnknownTarget cs plan.targets id)
        ⊎ ((w' : W) × (s : RunSummary) × (run host fuel cs order plan w ≡ some (done (w', s)))
            × Listed s)
  unfolding run run_based Selects
  run-Listed {W = W} host honest plan w =
      based (base_order fuel cs order plan) (base_order-Selects plan)
    where
      based :
          (o : Option (Bail (List Component)))
          → Selects plan.targets o
          → ((id : Bytes) × (elim o [
            | none ↦ none
            | some base ↦ run_based host fuel cs order (resolve_context host w) plan w base
          ]
                ≡ some (unknown_id id))
              × UnknownTarget cs plan.targets id)
            ⊎ ((w' : W) × (s : RunSummary) × (elim o [
              | none ↦ none
              | some base ↦ run_based host fuel cs order (resolve_context host w) plan w base
            ]
                  ≡ some (done (w', s)))
                × Listed s)
      based none s = absurd s
      based (some (unknown_id id)) s = inl (id, refl, s)
      based (some (done v)) s =
          let (g, k, l) =
            gate-Listed host honest (resolve_context host w) plan
              (if is_remove plan.phase then reversed v else v) w in
          rw (run_based, k)
            (inr (_, _, refl, run_gated-Listed host honest (resolve_context host w) plan g l))
