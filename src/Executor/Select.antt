-- ===== src/Executor/Select.antt =====
-- `run`: the order of the components, the gates of a reset, and the loop over what is left.
use envctl.Prelude.{
  ℕ, false, not, ◌&&◌, ◌||◌, Option, none, some, List, [], ◌∷◌, ◌++◌, if◌then◌else◌, Bytes, codes,
  any, is_empty, ◌==◌, List_eq, ℕ_eq, Option_eq,
}
use envctl.Sets.{elem, to_set}
use envctl.Manifest.{Phase, Component}
use envctl.Host.{OpStatus, OpResult, RunContext, Host}
use envctl.Guard.{is_ok}
use envctl.Registry.{find_component, closure, reverse_dependents, members, unknown_component}
use envctl.Executor.{
  RunPlan, RunSummary, empty_summary, mkres_id, finish, push_refused, is_remove, run_phase,
  resolve_context,
}
use envctl.Executor.Step.{steps}

-- `Registry::ordered`, and the ids of a list of components looked up.
unfoldable pub look_up : List Component → List Bytes → List Component
look_up cs [] = []
look_up cs (id ∷ ids) = elim (find_component cs id) [
  | none ↦ look_up cs ids
  | some c ↦ c ∷ look_up cs ids
]

unfoldable pub keep_elem : List Bytes → List Component → List Component
keep_elem set [] = []
keep_elem set (c ∷ cs) = let rest = keep_elem set cs in if elem c.id set then c ∷ rest else rest

-- `if !v.iter().any(|x| x.id == c.id) { v.push(c) }`
unfoldable pub push_new : List Component → List Component → List Component
push_new v [] = v
push_new v (c ∷ cs) =
    push_new (if any (λ (x : Component). x.id == c.id) v then v else v ++ c ∷ []) cs

unfoldable pub reversed : List Component → List Component
reversed [] = []
reversed (c ∷ cs) = reversed cs ++ c ∷ []

-- The outcome of a step that may `bail!` on an unknown component.
pub data Bail (A : Type 0) : Type 0 where
  unknown_id : Bytes → Bail A
  done : A → Bail A

unfoldable pub first_unknown : List Component → List Bytes → Option Bytes
first_unknown cs [] = none
first_unknown cs (id ∷ ids) = elim (find_component cs id) [
  | none ↦ some id
  | some c ↦ first_unknown cs ids
]

-- The loop over the targets that adds their closures.
unfoldable pub add_closures :
    ℕ
    → List Component
    → (order : List Bytes) → List Component
    → List Bytes
    → Option (Bail (List Component))
add_closures fuel cs order v [] = some (done v)
add_closures fuel cs order v (id ∷ ids) = elim (closure fuel cs order id) [
  | none ↦ none
  | some (unknown_component x) ↦ some (unknown_id x)
  | some (members kept) ↦ add_closures fuel cs order (push_new v (look_up cs kept)) ids
]

-- The forward order of the plan's components.
unfoldable pub base_order :
    ℕ → List Component → (order : List Bytes) → RunPlan → Option (Bail (List Component))
base_order fuel cs order plan =
    if is_empty plan.targets
    then some (done (look_up cs order))
    else if is_remove plan.phase
    then elim (first_unknown cs plan.targets) [
      | some id ↦ some (unknown_id id)
      | none ↦ some (done (keep_elem plan.targets (look_up cs order)))
    ]
    else add_closures fuel cs order [] plan.targets

-- `HashSet::insert`
unfoldable pub insert_new : Bytes → List Bytes → List Bytes
insert_new id set = if elem id set then set else set ++ id ∷ []

-- `list.join(", ")`
unfoldable pub join : List Bytes → Bytes
join [] = []
join (x ∷ []) = x
join (x ∷ y ∷ xs) = x ++ codes ", " ++ join (y ∷ xs)

-- What the gates of a reset decide: to go on with these components, or to stop with this summary.
pub data Gated (W : Type 0) : Type 0 where
  go : W → List Component → RunSummary → Gated W
  stop : W → RunSummary → Gated W

-- The probes of the reverse dependents: the machine, and the sets `fold` and `refuse`.
pub record Probed (W : Type 0) : Type 0 where
  pub world : W
  pub fold : List Bytes
  pub refuse : List Bytes

unfoldable pub refuse_with : Bytes → Bytes → RunPlan → RunSummary → RunSummary
refuse_with id reason plan s =
    finish (mkres_id id Phase.remove OpStatus.refused reason plan.dry_run) (push_refused id s)

unfoldable pub refuse_targets : RunPlan → List Bytes → RunSummary → RunSummary
refuse_targets plan [] s = s
refuse_targets plan (tid ∷ tids) s = refuse_targets plan tids (
    refuse_with tid
      (codes "refusing remove of "
        ++ tid
        ++ codes ": a live reverse-dependent is not in the set (use --cascade)")
      plan s)

-- The targets that are not refused.
unfoldable pub surviving : List Bytes → List Bytes → List Bytes
surviving refuse [] = []
surviving refuse (t ∷ ts) =
    let rest = surviving refuse ts in if not (elem t refuse) then t ∷ rest else rest

abbrev pub comp_ids : List Component → List Bytes
comp_ids [] = []
comp_ids (c ∷ cs) = c.id ∷ comp_ids cs

-- The components that a reset keeps in its order.
unfoldable pub rebuild :
    List Component
    → (order : List Bytes) → RunPlan
    → (fold refuse : List Bytes) → List Component
    → List Component
rebuild cs order plan fold refuse now =
    if not (is_empty refuse) || not (is_empty fold)
    then reversed (keep_elem (surviving refuse plan.targets ++ fold) (look_up cs order))
    else now

module _ {W : Type 0} (host : Host W) where
  -- A live dependent outside the set is folded in, or its target refused.
  unfoldable pub note_dependent :
      RunPlan
      → (target_set : List Bytes) → (tid : Bytes) → Component
      → W × OpResult
      → Probed W
      → Probed W
  note_dependent plan target_set tid rdep (w, r) p =
      if is_ok r.status && not (elem rdep.id target_set)
      then if plan.gates.cascade
        then record p { world = w; fold = insert_new rdep.id p.fold }
        else record p { world = w; refuse = insert_new tid p.refuse }
      else record p { world = w }

  unfoldable pub probe_dependents :
      RunContext
      → RunPlan
      → (target_set : List Bytes) → (tid : Bytes) → List Component
      → Probed W
      → Probed W
  probe_dependents ctx plan target_set tid [] p = p
  probe_dependents ctx plan target_set tid (rdep ∷ rdeps) p =
      probe_dependents ctx plan target_set tid rdeps (
        note_dependent plan target_set tid rdep (run_phase host ctx rdep Phase.detect false p.world)
          p)

  unfoldable pub probe_targets :
      ℕ
      → List Component
      → (order : List Bytes) → RunContext
      → RunPlan
      → (target_set tids : List Bytes) → Probed W
      → Option (Probed W)
  probe_targets fuel cs order ctx plan target_set [] p = some p
  probe_targets fuel cs order ctx plan target_set (tid ∷ tids) p =
      elim (reverse_dependents fuel cs order tid) [
        | none ↦ none
        | some rdeps ↦
            probe_targets fuel cs order ctx plan target_set tids
              (probe_dependents ctx plan target_set tid (look_up cs rdeps) p)
      ]

  -- Gates (2) and (3), on what the probes found.
  unfoldable pub gate_cascade :
      List Component
      → (order : List Bytes) → RunPlan
      → List Component
      → Option (Probed W)
      → Option (Gated W)
  gate_cascade cs order plan now none = none
  gate_cascade cs order plan now (some p) =
      let s = refuse_targets plan p.refuse empty_summary in
      if not (is_empty p.fold) && not plan.gates.confirm && not plan.dry_run
      then some (
          stop p.world (
            refuse_with (codes "<cascade>")
              (codes "refusing cascade: would also remove "
                ++ join (to_set p.fold)
                ++ codes " — pass --confirm")
              plan s))
      else some (go p.world (rebuild cs order plan p.fold p.refuse now) s)

  -- The gates of a reset; the other phases have none.
  unfoldable pub gate :
      ℕ
      → List Component
      → (order : List Bytes) → RunContext
      → RunPlan
      → List Component
      → W
      → Option (Gated W)
  gate fuel cs order ctx plan now w =
      if not (is_remove plan.phase)
      then some (go w now empty_summary)
      else if is_empty plan.targets
      then if not (plan.gates.all_components && plan.gates.confirm)
        then some (
            stop w (
              refuse_with (codes "<reset>")
                (codes "refusing whole-roster reset: pass --all --confirm") plan empty_summary))
        else some (go w now empty_summary)
      else gate_cascade cs order plan now (
          probe_targets fuel cs order ctx plan (comp_ids now) plan.targets
            (record { world = w; fold = []; refuse = [] }))

  -- The rosters are sorted and without repetition at the end.
  unfoldable pub dedup_rosters : RunSummary → RunSummary
  dedup_rosters s = record s {
    failed = to_set s.failed;
    refused = to_set s.refused;
    skipped_blocked = to_set s.skipped_blocked;
    incomplete = to_set s.incomplete;
  }

  unfoldable pub run_gated : RunContext → RunPlan → Gated W → W × RunSummary
  run_gated ctx plan (stop w s) = (w, s)
  run_gated ctx plan (go w now s) =
      let r = steps host ctx plan now (record { world = w; summary = s; failed_ids = [] }) in
      (r.world, dedup_rosters r.summary)

  unfoldable pub run_based :
      ℕ
      → List Component
      → (order : List Bytes) → RunContext
      → RunPlan
      → W
      → Bail (List Component)
      → Option (Bail (W × RunSummary))
  run_based fuel cs order ctx plan w (unknown_id id) = some (unknown_id id)
  run_based fuel cs order ctx plan w (done base) =
      elim (gate fuel cs order ctx plan (if is_remove plan.phase then reversed base else base) w) [
        | none ↦ none
        | some g ↦ some (done (run_gated ctx plan g))
      ]

  -- `run`; `sudo -v` beforehand authorizes and changes nothing else.
  unfoldable pub run :
      ℕ → List Component → (order : List Bytes) → RunPlan → W → Option (Bail (W × RunSummary))
  run fuel cs order plan w = elim (base_order fuel cs order plan) [
    | none ↦ none
    | some base ↦ run_based fuel cs order (resolve_context host w) plan w base
  ]
