-- ===== src/Registry/Tests.antt =====
-- The registry's theorems at two components, of which the second requires the first.
use envctl.Prelude.{◌≡◌, ◌⊎◌, refl, false, none, some, List, [], ◌∷◌, Bytes, codes, arith}
use envctl.Sets.{Distinct}
use envctl.Manifest.{Component, Wiring}
use envctl.Registry.{ids, sorted, topo_sort, closure, members}
use envctl.Registry.Round.{RequiresFirst, IsTopological}
use envctl.Registry.Sound.{Explained, topo_sort-Explained}
use envctl.Registry.Complete.{topo_sort_complete}
use envctl.Registry.Prereq.{IsPrereq}
use envctl.Registry.Closure.{Keeps, closure_lem}

abbrev pub no_wiring : Wiring
no_wiring = record {
  path_entries = [];
  shell_rc = [];
  desktop_entries = [];
  systemd_user = [];
  apt_repos = [];
  nix_conf_lines = [];
  cdi_specs = [];
  alternatives = [];
  data_paths = [];
  config_paths = [];
}

abbrev pub component : Bytes → List Bytes → Component
component id requires = record {
  id = id;
  name = id;
  description = [];
  requires = requires;
  gpu_required = false;
  destructive = false;
  detect_hook = none;
  install_hook = none;
  verify_hook = none;
  fix_hook = none;
  remove_hook = none;
  wiring = no_wiring;
  guards = [];
}

abbrev pub two : List Component
two = component (codes "a") [] ∷ component (codes "b") (codes "a" ∷ []) ∷ []

abbrev pub order : List Bytes
order = codes "a" ∷ codes "b" ∷ []

two-Distinct : Distinct (ids two)
unfolding Distinct
two-Distinct = (refl, (refl, tt))

two-RequiresFirst : RequiresFirst two [] order
unfolding RequiresFirst
two-RequiresFirst =
    (((λ e. tt), ((λ e. ground arith), tt)), (((λ e. tt), ((λ e. (refl, tt)), tt)), tt))

pub two-IsTopological : IsTopological two order
two-IsTopological = record {
  distinct = two-Distinct;
  known = (refl, (refl, tt));
  complete = (refl, (refl, tt));
  requires_first = two-RequiresFirst;
}

topo_sort-Explained_example : Explained two (topo_sort two)
topo_sort-Explained_example = topo_sort-Explained two two-Distinct

topo_sort_complete_example :
    (out : List Bytes) × (topo_sort two ≡ some (sorted out)) × IsTopological two out
topo_sort_complete_example = topo_sort_complete two order two-Distinct two-IsTopological

closure_lem_example :
    (kept : List Bytes) × (closure 2 two order (codes "b") ≡ some (members kept))
    × Keeps (λ x. (x ≡ codes "b") ⊎ IsPrereq two x (codes "b")) order kept
closure_lem_example = closure_lem two order two-IsTopological 2 (codes "b") (omega arith) refl
