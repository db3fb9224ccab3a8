-- ===== src/Executor/Enroll.antt =====
-- What a result enters on the rosters, and what is pending while a turn goes on.
use envctl.Prelude.{
  ℕ, ◌≡◌, refl, ap, ◌∙◌, Bool, true, false, ◌&&◌, ◌||◌, List, [], ◌∷◌, ◌++◌, arith, Bytes, nat_eq,
  ◌==◌, List_eq, ℕ_eq,
}
use envctl.Sets.{elem}
use envctl.Sets.Counting.{elem-append}
use envctl.Manifest.{Phase, Hook, Component}
use envctl.Host.{OpStatus, OpResult, Host}
use envctl.Executor.{RunSummary, finish, push_refused, acted}
use envctl.Executor.Step.{Run, conclude, push_incomplete, enroll}

abbrev pub status_code : OpStatus → ℕ
status_code OpStatus.ok = 0
status_code OpStatus.failed = 1
status_code OpStatus.skipped = 2
status_code OpStatus.skipped_blocked = 3
status_code OpStatus.refused = 4
status_code OpStatus.dry_run_only = 5
status_code OpStatus.no_hook = 6
status_code OpStatus.reboot_required = 7
status_code OpStatus.incomplete = 8

abbrev pub same_status : OpStatus → OpStatus → Bool
same_status a b = nat_eq (status_code a) (status_code b)

-- The result is of this component and has this status.
abbrev pub names : OpStatus → Bytes → OpResult → Bool
names st x res = res.component == x && same_status res.status st

-- A hook's result is of the component that it was run for, and neither blocked nor incomplete: these
-- two are the run's own.
pub record IsHonest {W : Type 0} (host : Host W) : Type 0 where
  pub own :
      (comp : Bytes) (phase : Phase) (h : Hook) (dry_run : Bool) (w : W)
      → (host.run comp phase h dry_run w).1.component ≡ comp
  pub unblocked :
      (comp : Bytes) (phase : Phase) (h : Hook) (dry_run : Bool) (w : W)
      → same_status (host.run comp phase h dry_run w).1.status OpStatus.skipped_blocked ≡ false
  pub complete :
      (comp : Bytes) (phase : Phase) (h : Hook) (dry_run : Bool) (w : W)
      → same_status (host.run comp phase h dry_run w).1.status OpStatus.incomplete ≡ false

-- The rosters of `s` are those of `s0`, with what the result says.
pub record Enrolled (s0 s : RunSummary) (ids0 ids : List Bytes) (res : OpResult) : Type 0 where
  pub failed : (x : Bytes) → elem x s.failed ≡ (elem x s0.failed || names OpStatus.failed x res)
  pub refused : (x : Bytes) → elem x s.refused ≡ (elem x s0.refused || names OpStatus.refused x res)
  pub skipped_blocked :
      (x : Bytes)
      → elem x s.skipped_blocked
        ≡ (elem x s0.skipped_blocked || names OpStatus.skipped_blocked x res)
  pub incomplete :
      (x : Bytes) → elem x s.incomplete ≡ (elem x s0.incomplete || names OpStatus.incomplete x res)
  pub failed_ids : (x : Bytes) → elem x ids ≡ (elem x ids0 || names OpStatus.failed x res)

-- The rosters have the result already, the list of results not yet.
pub record Pending {W : Type 0} (blocked : Bool) (comp : Component) (r0 r : Run W) (res : OpResult)
    : Type 0 where
  pub results : r.summary.results ≡ r0.summary.results
  pub own : res.component ≡ comp.id
  pub blocks : same_status res.status OpStatus.skipped_blocked ≡ blocked
  pub enrolled : Enrolled r0.summary r.summary r0.failed_ids r.failed_ids res

-- The turn of `comp` from `r0` to `r` gave the result `res`.
pub record Turn {W : Type 0} (blocked : Bool) (comp : Component) (r0 r : Run W) (res : OpResult)
    : Type 0 where
  pub results : r.summary.results ≡ r0.summary.results ++ res ∷ []
  pub own : res.component ≡ comp.id
  pub blocks : same_status res.status OpStatus.skipped_blocked ≡ blocked
  pub enrolled : Enrolled r0.summary r.summary r0.failed_ids r.failed_ids res

pub conclude-Turn :
    {W : Type 0} (b : Bool) (comp : Component) (r0 r : Run W) (res : OpResult)
    → Pending b comp r0 r res
    → Turn b comp r0 (conclude res r) res
unfolding conclude finish
conclude-Turn b comp r0 r res p = record {
  results = ap (λ rs. rs ++ res ∷ []) p.results;
  own = p.own;
  blocks = p.blocks;
  enrolled = record {
    failed = p.enrolled.failed;
    refused = p.enrolled.refused;
    skipped_blocked = p.enrolled.skipped_blocked;
    incomplete = p.enrolled.incomplete;
    failed_ids = p.enrolled.failed_ids;
  };
}

entered : (a b : Bool) → (a || (b || false)) ≡ (a || (b && true))
entered a b = ground arith

untouched : (a b : Bool) → a ≡ (a || (b && false))
untouched a b = ground arith

-- The status decides which roster the component is entered on.
pub enroll-Enrolled :
    {W : Type 0} (comp : Component) (st : OpStatus) (r : Run W) (res : OpResult)
    → res.component ≡ comp.id
    → res.status ≡ st
    → same_status st OpStatus.incomplete ≡ false
    → Enrolled r.summary (enroll comp st r).summary r.failed_ids (enroll comp st r).failed_ids res
unfolding enroll push_refused
enroll-Enrolled comp OpStatus.ok r res o e i = record {
  failed = λ x. rw (e) (untouched (elem x r.summary.failed) (res.component == x));
  refused = λ x. rw (e) (untouched (elem x r.summary.refused) (res.component == x));
  skipped_blocked = λ x. rw (e) (untouched (elem x r.summary.skipped_blocked) (res.component == x));
  incomplete = λ x. rw (e) (untouched (elem x r.summary.incomplete) (res.component == x));
  failed_ids = λ x. rw (e) (untouched (elem x r.failed_ids) (res.component == x));
}
enroll-Enrolled comp OpStatus.failed r res o e i = record {
  failed = λ x.
      rw (elem-append x r.summary.failed (comp.id ∷ []), e, o)
        (entered (elem x r.summary.failed) (comp.id == x));
  refused = λ x. rw (e) (untouched (elem x r.summary.refused) (res.component == x));
  skipped_blocked = λ x. rw (e) (untouched (elem x r.summary.skipped_blocked) (res.component == x));
  incomplete = λ x. rw (e) (untouched (elem x r.summary.incomplete) (res.component == x));
  failed_ids = λ x.
      rw (elem-append x r.failed_ids (comp.id ∷ []), e, o)
        (entered (elem x r.failed_ids) (comp.id == x));
}
enroll-Enrolled comp OpStatus.skipped r res o e i = record {
  failed = λ x. rw (e) (untouched (elem x r.summary.failed) (res.component == x));
  refused = λ x. rw (e) (untouched (elem x r.summary.refused) (res.component == x));
  skipped_blocked = λ x. rw (e) (untouched (elem x r.summary.skipped_blocked) (res.component == x));
  incomplete = λ x. rw (e) (untouched (elem x r.summary.incomplete) (res.component == x));
  failed_ids = λ x. rw (e) (untouched (elem x r.failed_ids) (res.component == x));
}
enroll-Enrolled comp OpStatus.skipped_blocked r res o e i = record {
  failed = λ x. rw (e) (untouched (elem x r.summary.failed) (res.component == x));
  refused = λ x. rw (e) (untouched (elem x r.summary.refused) (res.component == x));
  skipped_blocked = λ x.
      rw (elem-append x r.summary.skipped_blocked (comp.id ∷ []), e, o)
        (entered (elem x r.summary.skipped_blocked) (comp.id == x));
  incomplete = λ x. rw (e) (untouched (elem x r.summary.incomplete) (res.component == x));
  failed_ids = λ x. rw (e) (untouched (elem x r.failed_ids) (res.component == x));
}
enroll-Enrolled comp OpStatus.refused r res o e i = record {
  failed = λ x. rw (e) (untouched (elem x r.summary.failed) (res.component == x));
  refused = λ x.
      rw (elem-append x r.summary.refused (comp.id ∷ []), e, o)
        (entered (elem x r.summary.refused) (comp.id == x));
  skipped_blocked = λ x. rw (e) (untouched (elem x r.summary.skipped_blocked) (res.component == x));
  incomplete = λ x. rw (e) (untouched (elem x r.summary.incomplete) (res.component == x));
  failed_ids = λ x. rw (e) (untouched (elem x r.failed_ids) (res.component == x));
}
enroll-Enrolled comp OpStatus.dry_run_only r res o e i = record {
  failed = λ x. rw (e) (untouched (elem x r.summary.failed) (res.component == x));
  refused = λ x. rw (e) (untouched (elem x r.summary.refused) (res.component == x));
  skipped_blocked = λ x. rw (e) (untouched (elem x r.summary.skipped_blocked) (res.component == x));
  incomplete = λ x. rw (e) (untouched (elem x r.summary.incomplete) (res.component == x));
  failed_ids = λ x. rw (e) (untouched (elem x r.failed_ids) (res.component == x));
}
enroll-Enrolled comp OpStatus.no_hook r res o e i = record {
  failed = λ x. rw (e) (untouched (elem x r.summary.failed) (res.component == x));
  refused = λ x. rw (e) (untouched (elem x r.summary.refused) (res.component == x));
  skipped_blocked = λ x. rw (e) (untouched (elem x r.summary.skipped_blocked) (res.component == x));
  incomplete = λ x. rw (e) (untouched (elem x r.summary.incomplete) (res.component == x));
  failed_ids = λ x. rw (e) (untouched (elem x r.failed_ids) (res.component == x));
}
enroll-Enrolled comp OpStatus.reboot_required r res o e i = record {
  failed = λ x. rw (e) (untouched (elem x r.summary.failed) (res.component == x));
  refused = λ x. rw (e) (untouched (elem x r.summary.refused) (res.component == x));
  skipped_blocked = λ x. rw (e) (untouched (elem x r.summary.skipped_blocked) (res.component == x));
  incomplete = λ x. rw (e) (untouched (elem x r.summary.incomplete) (res.component == x));
  failed_ids = λ x. rw (e) (untouched (elem x r.failed_ids) (res.component == x));
}
enroll-Enrolled comp OpStatus.incomplete r res o e i = cc

quiet :
    (st : OpStatus)
    → (acted st || same_status st OpStatus.incomplete) ≡ true
    → (same_status st OpStatus.failed ≡ false)
      × (same_status st OpStatus.refused ≡ false)
      × (same_status st OpStatus.skipped_blocked ≡ false)
quiet OpStatus.ok h = (refl, refl, refl)
quiet OpStatus.failed h = cc
quiet OpStatus.skipped h = cc
quiet OpStatus.skipped_blocked h = cc
quiet OpStatus.refused h = cc
quiet OpStatus.dry_run_only h = cc
quiet OpStatus.no_hook h = (refl, refl, refl)
quiet OpStatus.reboot_required h = cc
quiet OpStatus.incomplete h = (refl, refl, refl)

both_quiet : (a b c : Bool) → (a || (b && false)) ≡ (a || (c && false))
both_quiet a b c = ground arith

re_entered : (a b i : Bool) → ((a || (b && i)) || (b || false)) ≡ (a || (b && true))
re_entered a b i = ground arith

-- A result that is not the one that the loop started with, of a status that is on no roster but the
-- incomplete.
pub push_incomplete-Pending :
    {W : Type 0} (b : Bool) (comp : Component) (r0 r : Run W) (res new : OpResult) (w : W)
    → Pending b comp r0 r res
    → (acted res.status || same_status res.status OpStatus.incomplete) ≡ true
    → new.component ≡ comp.id
    → new.status ≡ OpStatus.incomplete
    → Pending false comp r0 (push_incomplete comp (record r { world = w })) new
unfolding push_incomplete
push_incomplete-Pending b comp r0 r res new w p a o e = record {
  results = p.results;
  own = o;
  blocks = rw (e) refl;
  enrolled = record {
    failed = λ x. p.enrolled.failed x ∙ rw (e, (quiet res.status a).0) (both_quiet _ _ _);
    refused = λ x. p.enrolled.refused x ∙ rw (e, (quiet res.status a).1) (both_quiet _ _ _);
    skipped_blocked =
        λ x. p.enrolled.skipped_blocked x ∙ rw (e, (quiet res.status a).2) (both_quiet _ _ _);
    incomplete = λ x.
        elem-append x r.summary.incomplete (comp.id ∷ [])
        ∙ rw (p.enrolled.incomplete x, p.own, o, e) (re_entered _ _ _);
    failed_ids = λ x. p.enrolled.failed_ids x ∙ rw (e, (quiet res.status a).0) (both_quiet _ _ _);
  };
}
