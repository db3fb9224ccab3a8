-- ===== src/Executor/Rosters.antt =====
-- The rosters of a summary against its results, after any loop and any gate.
use envctl.Prelude.{
  ◌≡◌, refl, sym, ◌∙◌, Bool, true, false, not, ◌&&◌, ◌||◌, List, [], ◌∷◌, ◌++◌, arith, Bytes, any,
  is_empty, ◌==◌, ==_refl, List_eq, ℕ_eq,
}
use envctl.Sets.{elem, elem-to_set}
use envctl.Sets.Counting.{elem-append}
use envctl.Manifest.{Phase, Component}
use envctl.Host.{OpStatus, OpResult, RunContext, Host}
use envctl.Executor.{RunPlan, RunSummary, empty_summary, mkres_id, finish, push_refused, summary_ok}
use envctl.Executor.Step.{Run, step, steps}
use envctl.Executor.Select.{refuse_with, refuse_targets, dedup_rosters, Gated, go, stop, run_gated}
use envctl.Executor.Enroll.{same_status, names, IsHonest, Enrolled}
use envctl.Executor.Turns.{step-Turn}

-- An id is on a roster exactly where some result of it has the roster's status.
pub record Listed (s : RunSummary) : Type 0 where
  pub failed : (x : Bytes) → elem x s.failed ≡ any (names OpStatus.failed x) s.results
  pub refused : (x : Bytes) → elem x s.refused ≡ any (names OpStatus.refused x) s.results
  pub skipped_blocked :
      (x : Bytes) → elem x s.skipped_blocked ≡ any (names OpStatus.skipped_blocked x) s.results
  pub incomplete : (x : Bytes) → elem x s.incomplete ≡ any (names OpStatus.incomplete x) s.results

pub any-append {ℓ} :
    {A : Type ℓ} (p : A → Bool) (xs : List A) (y : A) → any p (xs ++ y ∷ []) ≡ (any p xs || p y)
any-append p [] y = ground arith
any-append p (x ∷ xs) y = ground (arith, any-append p xs y)

extend :
    (l l' : Bool) (p : OpResult → Bool) (rs rs' : List OpResult) (res : OpResult)
    → l ≡ any p rs
    → l' ≡ (l || p res)
    → rs' ≡ rs ++ res ∷ []
    → l' ≡ any p rs'
extend l l' p rs rs' res a b c = rw (b, a, c, any-append p rs res) refl

Listed-Enrolled :
    (s0 s : RunSummary) (ids0 ids : List Bytes) (res : OpResult)
    → Listed s0
    → s.results ≡ s0.results ++ res ∷ []
    → Enrolled s0 s ids0 ids res
    → Listed s
Listed-Enrolled s0 s ids0 ids res l e n = record {
  failed = λ x. extend _ _ _ _ _ res (l.failed x) (n.failed x) e;
  refused = λ x. extend _ _ _ _ _ res (l.refused x) (n.refused x) e;
  skipped_blocked = λ x. extend _ _ _ _ _ res (l.skipped_blocked x) (n.skipped_blocked x) e;
  incomplete = λ x. extend _ _ _ _ _ res (l.incomplete x) (n.incomplete x) e;
}

off : (a b : Bool) → a ≡ (a || (b && false))
off a b = ground arith

on : (a b : Bool) → (a || (b || false)) ≡ (a || (b && true))
on a b = ground arith

pub refuse_with-Listed :
    (id reason : Bytes) (plan : RunPlan) (s : RunSummary)
    → Listed s
    → Listed (refuse_with id reason plan s)
unfolding refuse_with finish push_refused mkres_id
refuse_with-Listed id reason plan s l =
    Listed-Enrolled s _ [] [] (mkres_id id Phase.remove OpStatus.refused reason plan.dry_run) l refl
      (record {
        failed = λ x. off _ (id == x);
        refused = λ x. elem-append x s.refused (id ∷ []) ∙ on _ (id == x);
        skipped_blocked = λ x. off _ (id == x);
        incomplete = λ x. off _ (id == x);
        failed_ids = λ x. off _ (id == x);
      })

pub refuse_targets-Listed :
    (plan : RunPlan) (tids : List Bytes) (s : RunSummary)
    → Listed s
    → Listed (refuse_targets plan tids s)
unfolding refuse_targets
refuse_targets-Listed plan [] s l = l
refuse_targets-Listed plan (tid ∷ tids) s l =
    refuse_targets-Listed plan tids _ (refuse_with-Listed tid _ plan s l)

pub empty-Listed : Listed empty_summary
empty-Listed = record {
  failed = λ x. refl;
  refused = λ x. refl;
  skipped_blocked = λ x. refl;
  incomplete = λ x. refl;
}

dedup_rosters-Listed :
    {W : Type 0} (host : Host W) (s : RunSummary) → Listed s → Listed (dedup_rosters host s)
unfolding dedup_rosters
dedup_rosters-Listed host s l = record {
  failed = λ x. elem-to_set x s.failed ∙ l.failed x;
  refused = λ x. elem-to_set x s.refused ∙ l.refused x;
  skipped_blocked = λ x. elem-to_set x s.skipped_blocked ∙ l.skipped_blocked x;
  incomplete = λ x. elem-to_set x s.incomplete ∙ l.incomplete x;
}

module _ {W : Type 0} (host : Host W) (honest : IsHonest host) (ctx : RunContext)
    (plan : RunPlan) where
  steps-Listed :
      (cs : List Component) (r : Run W)
      → Listed r.summary
      → Listed (steps host ctx plan cs r).summary
  unfolding steps
  steps-Listed [] r l = l
  steps-Listed (c ∷ cs) r l =
      let (res, t) = step-Turn host honest ctx plan c r in
      steps-Listed cs (step host ctx plan c r)
        (Listed-Enrolled r.summary _ r.failed_ids _ res l t.results t.enrolled)

  -- Where the gates of a reset stop, or the loop ends, the summary's rosters are right when those
  -- before were.
  unfoldable pub Gated-Listed : Gated W → Type 0
  Gated-Listed (go w now s) = Listed s
  Gated-Listed (stop w s) = Listed s

  pub run_gated-Listed : (g : Gated W) → Gated-Listed g → Listed (run_gated host ctx plan g).1
  unfolding run_gated Gated-Listed
  run_gated-Listed (stop w s) l = l
  run_gated-Listed (go w now s) l = dedup_rosters-Listed host _ (steps-Listed now _ l)

abbrev pub is_bad : OpResult → Bool
is_bad r =
    same_status r.status OpStatus.failed
    || same_status r.status OpStatus.refused
    || same_status r.status OpStatus.incomplete

any-same :
    (st : OpStatus) (rs : List OpResult)
    → ((x : Bytes) → any (names st x) rs ≡ false)
    → any (λ r. same_status r.status st) rs ≡ false
any-same st [] h = refl
any-same st (r ∷ rs) h = ground (
  arith,
  h r.component,
  ==_refl r.component,
  any-same st rs (λ x. tail_lem (names st x r) _ (h x)),
)
  where
    tail_lem : (a b : Bool) → (a || b) ≡ false → b ≡ false
    tail_lem a b e = ground arith

same-any :
    (st : OpStatus) (x : Bytes) (rs : List OpResult)
    → any (names st x) rs ≡ true
    → any (λ r. same_status r.status st) rs ≡ true
same-any st x [] h = cc
same-any st x (r ∷ rs) h = either_lem _ _ _ _ (same-any st x rs) h
  where
    either_lem : (c s t u : Bool) → (t ≡ true → u ≡ true) → ((c && s) || t) ≡ true → (s || u) ≡ true
    either_lem c s true u f h = rw (f refl) (last_lem s)
      where
        last_lem : (s : Bool) → (s || true) ≡ true
        last_lem s = ground arith
    either_lem c s false u f h = ground arith

is_empty-any :
    (st : OpStatus) (l : List Bytes) (rs : List OpResult)
    → ((x : Bytes) → elem x l ≡ any (names st x) rs)
    → is_empty l ≡ not (any (λ r. same_status r.status st) rs)
is_empty-any st [] rs h = rw (any-same st rs (λ x. sym (h x))) refl
is_empty-any st (x ∷ xs) rs h = rw (same-any st x rs (sym (h x) ∙ ground (arith, ==_refl x))) refl

is_bad-any :
    (rs : List OpResult)
    → any is_bad rs ≡ (
        any (λ r. same_status r.status OpStatus.failed) rs
        || any (λ r. same_status r.status OpStatus.refused) rs
        || any (λ r. same_status r.status OpStatus.incomplete) rs)
is_bad-any [] = refl
is_bad-any (r ∷ rs) = ground (arith, is_bad-any rs)

-- A summary whose rosters are right is ok exactly where no result failed, was refused or is incomplete.
pub summary_ok-Listed : (s : RunSummary) → Listed s → summary_ok s ≡ not (any is_bad s.results)
unfolding summary_ok
summary_ok-Listed s l =
    rw
      (
        is_empty-any OpStatus.failed s.failed s.results l.failed,
        is_empty-any OpStatus.refused s.refused s.results l.refused,
        is_empty-any OpStatus.incomplete s.incomplete s.results l.incomplete,
        is_bad-any s.results,
      )
      (none_of _ _ _)
  where
    none_of : (a b c : Bool) → (not a && not b && not c) ≡ not (a || b || c)
    none_of a b c = ground arith
