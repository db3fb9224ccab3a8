-- ===== src/Guard/Tests.antt =====
-- The guards' theorems on a machine with one disk, `u1` at `d1`, beside the live root `u0` at `d0`.
use envctl.Prelude.{
  ◌≡◌, refl, true, false, none, some, List, [], ◌∷◌, ◌++◌, Bytes, codes, List_eq, ℕ_eq,
}
use envctl.Text.{strip_prefix}
use envctl.Map.{lookup}
use envctl.Manifest.{Guard, uuid_resolves, not_live_device, path_exists}
use envctl.Host.{
  RunContext, Host, Output, OpStatus, expand_tilde, trim, trim_start, trim_end, is_space,
}
use envctl.Guard.{
  resolve_dev, uuid_of, printed, check_guards, check_rest, check_one, check_resolved, check_live,
  check_mount, live_root_source, resolve_live_root_uuid, mount_uuid_of, or_else, uuid_behind,
  verify_path_uuid, strip_subvol, before_bracket,
}
use envctl.Guard.Blind.{check_one-not_live_device}
use envctl.Guard.Proven.{Passed, check_guards-Passed, Proven, verify_path_uuid-Verified}

abbrev prints : Bytes → Output
prints s = record { success = true; stdout = s }

abbrev blkid : List (List Bytes × Output)
blkid =
    (codes "blkid" ∷ codes "-U" ∷ codes "u1" ∷ [], prints (codes "d1"))
    ∷ (
      codes "blkid" ∷ codes "-s" ∷ codes "UUID" ∷ codes "-o" ∷ codes "value" ∷ codes "d1" ∷ [],
      prints (codes "u1"),
    )
    ∷ []

abbrev findmnt : List (List Bytes × Output)
findmnt =
    (codes "findmnt" ∷ codes "-no" ∷ codes "SOURCE" ∷ codes "/" ∷ [], prints (codes "d0"))
    ∷ (
      codes "findmnt" ∷ codes "-no" ∷ codes "UUID" ∷ codes "--target" ∷ codes "/p" ∷ [],
      prints (codes "u1"),
    )
    ∷ []

-- A machine that knows these commands, has every path, and whose hooks succeed.
abbrev machine : List (List Bytes × Output) → Host Unit
machine table = record {
  home = none;
  exists = λ w path. true;
  read_to_string = λ w path. none;
  which = λ w name. true;
  output = λ w args. lookup args table;
  run = λ comp phase h dry_run w. (
    w,
    record {
      component = comp;
      phase = phase;
      status = OpStatus.ok;
      exit_code = none;
      message = [];
      dry_run = dry_run;
    },
  );
  pci_nvidia_count = λ w. 0;
  apply_wiring = λ x w. (w, record { notes = []; failures = [] });
  revert_wiring = λ x gates ctx w. (w, record { notes = []; failures = [] });
}

abbrev context : RunContext
context = record { gpu_present = false; live_root_uuid = some (codes "u0") }

findmnt-none : (args : List Bytes) → (machine blkid).output tt (codes "findmnt" ∷ args) ≡ none
unfolding lookup
findmnt-none args = refl

u1-dev : resolve_dev (machine blkid) tt (codes "u1") ≡ some (codes "d1")
unfolding lookup resolve_dev printed trim trim_start trim_end is_space
u1-dev = refl

check_one-not_live_device_example :
    check_one
      (machine blkid)
      (record { gpu_present = false; live_root_uuid = resolve_live_root_uuid (machine blkid) tt })
      (not_live_device (codes "u1"))
      tt
    ≡ (tt, none)
check_one-not_live_device_example =
    check_one-not_live_device (machine blkid) tt (codes "u1") (codes "d1") false findmnt-none u1-dev

abbrev guards : List Guard
guards = path_exists (codes "/p") ∷ uuid_resolves (codes "u1") ∷ not_live_device (codes "u1") ∷ []

guards-pass : check_guards (machine (blkid ++ findmnt)) context guards tt ≡ (tt, none)
unfolding check_guards check_rest check_one check_resolved check_live live_root_source lookup
    resolve_dev uuid_of printed trim trim_start trim_end is_space strip_subvol before_bracket
guards-pass = refl

check_guards-Passed_example : Passed (machine (blkid ++ findmnt)) context guards tt tt
check_guards-Passed_example =
    check_guards-Passed (machine (blkid ++ findmnt)) context guards tt tt guards-pass

target-verified :
    verify_path_uuid (machine (blkid ++ findmnt)) context (codes "/p") (codes "u1") tt ≡ none
unfolding verify_path_uuid check_one check_resolved check_live check_mount mount_uuid_of or_else
    uuid_behind live_root_source lookup resolve_dev uuid_of printed trim trim_start trim_end
    is_space strip_subvol before_bracket expand_tilde strip_prefix
target-verified = refl

verify_path_uuid-Verified_example :
    ((machine (blkid ++ findmnt)).exists tt (expand_tilde none (codes "/p")) ≡ true)
    × Proven (machine (blkid ++ findmnt)) context (uuid_resolves (codes "u1")) tt
    × Proven (machine (blkid ++ findmnt)) context (not_live_device (codes "u1")) tt
    × (mount_uuid_of (machine (blkid ++ findmnt)) tt (expand_tilde none (codes "/p"))
        ≡ some (codes "u1"))
verify_path_uuid-Verified_example =
    verify_path_uuid-Verified (machine (blkid ++ findmnt)) context (codes "/p") (codes "u1") tt
      target-verified
