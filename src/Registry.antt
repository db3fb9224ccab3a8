-- ===== src/Registry.antt =====
-- `Registry` of crates/engine/src/model.rs: the topological order of the components, and the queries
-- on it. The manifest's `BTreeMap` is the list of its components in key order, each under its own id.
-- The `HashMap` of indegrees, which has every key, is a function; the `VecDeque` is a list.
pub mod Kahn
pub mod Counts
pub mod Round
pub mod Sound
pub mod Complete
pub mod Prereq
pub mod Closure
pub mod Tests
use envctl.Prelude.{
  ℕ, zero, suc, ◌+◌, ◌-◌, ◌≡◌, Bool, true, false, not, ◌&&◌, Option, none, some, List, [], ◌∷◌,
  ◌++◌, map, if◌then◌else◌, Bytes, length, any, nat_eq, ◌==◌, List_eq, ℕ_eq,
}
use envctl.Sets.{elem, to_set}
use envctl.Manifest.{Component}

abbrev pub ids : List Component → List Bytes
ids [] = []
ids (c ∷ cs) = c.id ∷ ids cs

pub data TopoError : Type 0 where
  unknown_dependency : (by dep : Bytes) → TopoError
  dependency_cycle : (id : Bytes) → TopoError

pub data TopoResult : Type 0 where
  sorted : List Bytes → TopoResult
  failed : TopoError → TopoResult

abbrev pub Degrees : Type 0
Degrees = Bytes → ℕ

unfoldable pub update : Bytes → ℕ → Degrees → Degrees
update id n deg j = if id == j then n else deg j

pub data Counted : Type 0 where
  counted : Degrees → Counted
  unknown : (by dep : Bytes) → Counted

-- The inner loop over the distinct requirements of one component.
unfoldable pub count_requires : List Bytes → Bytes → List Bytes → Degrees → Counted
count_requires keys id [] deg = counted deg
count_requires keys id (dep ∷ deps) deg =
    if not (elem dep keys)
    then unknown id dep
    else count_requires keys id deps (update id (deg id + 1) deg)

-- The loop over the components.
unfoldable pub count_all : List Bytes → List Component → Degrees → Counted
count_all keys [] deg = counted deg
count_all keys (c ∷ cs) deg = elim (count_requires keys c.id (to_set c.requires) deg) [
  | counted deg' ↦ count_all keys cs deg'
  | unknown by dep ↦ unknown by dep
]

abbrev pub hits : Bytes → Component → Bool
hits n c = any (λ d. d == n) c.requires

-- The body of the loop over the dependents of `n`: the degree falls, and at 0 the id is queued.
unfoldable pub relax : Bytes → Component → Degrees × List Bytes → Degrees × List Bytes
relax n c (deg, q) =
    if hits n c
    then (update c.id (deg c.id - 1) deg, if nat_eq (deg c.id - 1) 0 then q ++ c.id ∷ [] else q)
    else (deg, q)

unfoldable pub relax_all : Bytes → List Component → Degrees × List Bytes → Degrees × List Bytes
relax_all n [] s = s
relax_all n (c ∷ cs) s = relax_all n cs (relax n c s)

-- The `while let` loop, on fuel: `none` means that the fuel ran out before the queue was empty.
unfoldable pub drain : ℕ → List Component → Degrees → (q out : List Bytes) → Option (List Bytes)
drain fuel cs deg [] out = some out
drain zero cs deg (n ∷ q) out = none
drain (suc fuel) cs deg (n ∷ q) out =
    let s = relax_all n cs (deg, q) in drain fuel cs s.0 s.1 (out ++ n ∷ [])

unfoldable pub sources : Degrees → List Bytes → List Bytes
sources deg [] = []
sources deg (k ∷ ks) = let rest = sources deg ks in if nat_eq (deg k) 0 then k ∷ rest else rest

-- The first key that is not in the output: `find(..).unwrap_or_default()`.
unfoldable pub first_missing : List Bytes → List Bytes → Bytes
first_missing out [] = []
first_missing out (k ∷ ks) = if not (elem k out) then k else first_missing out ks

unfoldable pub check_length : List Component → List Bytes → TopoResult
check_length cs out =
    if not (nat_eq (length out) (length cs))
    then failed (dependency_cycle (first_missing out (ids cs)))
    else sorted out

unfoldable pub topo_drained : List Component → Option (List Bytes) → Option TopoResult
topo_drained cs none = none
topo_drained cs (some out) = some (check_length cs out)

-- Every round outputs one component, so their number is fuel enough.
unfoldable pub topo_counted : List Component → Counted → Option TopoResult
topo_counted cs (unknown by dep) = some (failed (unknown_dependency by dep))
topo_counted cs (counted deg) = topo_drained cs (drain (length cs) cs deg (sources deg (ids cs)) [])

unfoldable pub topo_sort : List Component → Option TopoResult
topo_sort cs = topo_counted cs (count_all (ids cs) cs (λ j. 0))

-- `BTreeMap::get`
unfoldable pub find_component : List Component → Bytes → Option Component
find_component [] id = none
find_component (c ∷ cs) id = if c.id == id then some c else find_component cs id

-- `iter().any(..)` for a test that may not return.
unfoldable pub any_returns : (Bytes → Option Bool) → List Bytes → Option Bool
any_returns f [] = some false
any_returns f (d ∷ ds) = elim (f d) [
  | none ↦ none
  | some true ↦ some true
  | some false ↦ any_returns f ds
]

-- The body of `is_prereq_of` on the target's component, for the recursive call `f`.
unfoldable pub prereq_found :
    (Bytes → Option Bool) → (cand : Bytes) → Option Component → Option Bool
prereq_found f cand none = some false
prereq_found f cand (some t) =
    if any (λ d. d == cand) t.requires then some true else any_returns f t.requires

-- `is_prereq_of`, on fuel for its recursion, which a cycle would not end.
unfoldable pub is_prereq_of : ℕ → List Component → (cand target : Bytes) → Option Bool
is_prereq_of zero cs cand target = none
is_prereq_of (suc fuel) cs cand target =
    prereq_found (is_prereq_of fuel cs cand) cand (find_component cs target)

abbrev pub keep_id : Bytes → Option Bool → Option (List Bytes) → Option (List Bytes)
keep_id i none rest = none
keep_id i (some b) none = none
keep_id i (some true) (some rest) = some (i ∷ rest)
keep_id i (some false) (some rest) = some rest

-- The ids of the order that the test keeps: the loop of `closure` and of `reverse_dependents`.
unfoldable pub keep_ids : (Bytes → Option Bool) → List Bytes → Option (List Bytes)
keep_ids f [] = some []
keep_ids f (i ∷ is) = keep_id i (f i) (keep_ids f is)

-- `cid == id || is_prereq_of(cid, id)`
unfoldable pub in_closure : ℕ → List Component → (id cid : Bytes) → Option Bool
in_closure fuel cs id cid = if cid == id then some true else is_prereq_of fuel cs cid id

pub data ClosureResult : Type 0 where
  members : List Bytes → ClosureResult
  unknown_component : Bytes → ClosureResult

-- The outer `none` is a recursion that ran out of fuel.
unfoldable pub closure : ℕ → List Component → (order : List Bytes) → Bytes → Option ClosureResult
closure fuel cs order id =
    if not (elem id (ids cs))
    then some (unknown_component id)
    else elim (keep_ids (in_closure fuel cs id) order) [
      | none ↦ none
      | some kept ↦ some (members kept)
    ]

-- `cid != id && is_prereq_of(id, cid)`
unfoldable pub depends_on : ℕ → List Component → (id cid : Bytes) → Option Bool
depends_on fuel cs id cid = if cid == id then some false else is_prereq_of fuel cs id cid

unfoldable pub reverse_dependents :
    ℕ → List Component → (order : List Bytes) → Bytes → Option (List Bytes)
reverse_dependents fuel cs order id = keep_ids (depends_on fuel cs id) order
