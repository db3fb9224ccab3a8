-- ===== src/Graph/Tests.antt =====
-- The paths to a component that requires one foundation.
use envctl.Prelude.{◌≡◌, ◌↔◌, refl, some, List, [], Bytes, codes, arith}
use envctl.Registry.Tests.{two}
use envctl.Graph.{reverse, dependency_paths}
use envctl.Graph.Paths.{Climb, In, dependency_paths-Climb}

dependency_paths-Climb_example :
    (out : List (List Bytes)) × (dependency_paths 3 two (codes "b") ≡ some out)
    × ((p : List Bytes)
        → In p out ↔ ((q : List Bytes) × Climb two [] (codes "b") q × (p ≡ reverse q)))
dependency_paths-Climb_example = dependency_paths-Climb two 3 (codes "b") (omega arith) refl
