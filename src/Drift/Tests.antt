-- ===== src/Drift/Tests.antt =====
-- The drift theorems at a concrete report: a card without its driver, and a tool that failed.
use envctl.Prelude.{◌≡◌, ◌↔◌, true, false, none, some, [], ◌∷◌, codes, length, AllOf}
use envctl.Manifest.{Registry}
use envctl.Drift.{EnvReport, ComponentState, compute, from_items, is_clean, worst_severity}
use envctl.Drift.Sorted.{IsSorted, first_severity, compute-worst_severity}
use envctl.Drift.Clean.{DriverInOrder, InOrder, is_clean-compute_iff}

abbrev bun : ComponentState
bun = record {
  id = codes "bun";
  name = codes "bun";
  detected = true;
  healthy = some false;
  wiring_present = true;
  note = [];
}

abbrev report : EnvReport
report = record {
  generated_at = [];
  kernel = none;
  os = none;
  cpu_model = none;
  cpu_threads = 8;
  mem_total_mb = 1024;
  gpu_present = true;
  gpu_count = 1;
  gpus = [];
  driver_loaded = false;
  driver_version = none;
  cuda_version = none;
  open_kernel_module = false;
  software_rendered = true;
  tools = [];
  components = bun ∷ [];
  drift = [];
}

abbrev registry : Registry
registry = record { by_id = []; order = [] }

compute-worst_severity_example :
    IsSorted (compute report registry)
    × worst_severity (from_items (compute report registry))
      ≡ first_severity (compute report registry)
    × (from_items (compute report registry)).total ≡ length (compute report registry)
compute-worst_severity_example = compute-worst_severity report registry

is_clean-compute_iff_example :
    (is_clean (from_items (compute report registry)) ≡ true)
    ↔ (DriverInOrder report × AllOf (InOrder registry) (bun ∷ []))
is_clean-compute_iff_example = is_clean-compute_iff report registry
