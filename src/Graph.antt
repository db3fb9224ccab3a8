-- ===== src/Graph.antt =====
-- `dependency_paths` of crates/engine/src/graph.rs: the paths from the foundations, which require
-- nothing, to a component. `none` means that the fuel of the recursion ran out.
pub mod Paths
mod Tests
use envctl.Prelude.{
  ℕ, zero, suc, Bool, Option, none, some, List, [], ◌∷◌, ◌++◌, if◌then◌else◌, Bytes, ◌==◌, List_eq,
  ℕ_eq,
}
use envctl.Sets.{elem}
use envctl.Manifest.{Component}
use envctl.Registry.{find_component}

-- `comp.map(|c| c.requires.clone()).unwrap_or_default()`
unfoldable pub requires_of : List Component → Bytes → List Bytes
requires_of cs id = elim (find_component cs id) [ none ↦ [] | some c ↦ c.requires ]

-- `Vec::reverse`
unfoldable pub reverse : List Bytes → List Bytes
reverse [] = []
reverse (x ∷ xs) = reverse xs ++ x ∷ []

abbrev pub both :
    Option (List (List Bytes)) → Option (List (List Bytes)) → Option (List (List Bytes))
both none rest = none
both (some found) none = none
both (some found) (some rest) = some (found ++ rest)

-- The loop over the requirements, for the recursive call `walk`.
unfoldable pub walk_all :
    (walk : Bytes → List Bytes → Option (List (List Bytes)))
    → (acc reqs : List Bytes) → Option (List (List Bytes))
walk_all walk acc [] = some []
walk_all walk acc (r ∷ rs) =
    let rest = walk_all walk acc rs in if elem r acc then rest else both (walk r acc) rest

unfoldable pub walk_requires :
    (walk : Bytes → List Bytes → Option (List (List Bytes)))
    → (acc reqs : List Bytes) → Option (List (List Bytes))
walk_requires walk acc [] = some (reverse acc ∷ [])
walk_requires walk acc (r ∷ rs) = walk_all walk acc (r ∷ rs)

-- The paths that `walk` pushes; `acc` is the chain above, which it leaves as it was.
unfoldable pub walk : ℕ → List Component → Bytes → List Bytes → Option (List (List Bytes))
walk zero cs id acc = none
walk (suc fuel) cs id acc = walk_requires (walk fuel cs) (acc ++ id ∷ []) (requires_of cs id)

unfoldable pub dependency_paths : ℕ → List Component → Bytes → Option (List (List Bytes))
dependency_paths fuel cs id = elim (find_component cs id) [
  | none ↦ some []
  | some c ↦ walk fuel cs id []
]
