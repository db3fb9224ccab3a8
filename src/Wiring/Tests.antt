-- ===== src/Wiring/Tests.antt =====
-- The theorems on the wiring, on a machine whose files are a map and whose commands are a table.
use envctl.Prelude.{
  ◌≡◌, ◌≢◌, refl, ap, ◌∙◌, true, false, Option, none, some, List, [], ◌∷◌, ◌++◌, Bytes, codes, inl,
  inr, Bool-cases, if◌then◌else◌, ◌==◌, ==_iff, List_eq, ℕ_eq,
}
use envctl.Text.{starts_with, strip_prefix}
use envctl.Map.{lookup, insert, lookup-insert_self, lookup-insert_ne}
use envctl.Broker.Wire.{is_some}
use envctl.Drift.{contains}
use envctl.Host.{
  Host, Output, OpStatus, RunContext, ResetGates, expand_tilde, trim, trim_start, trim_end,
  is_space,
}
use envctl.Manifest.{ShellRcBlock, Wiring}
use envctl.Slices.{Lacks-any, find, take, drop}
use envctl.Wiring.{
  newline, begin_marker, end_marker, block_text, excise, excise_from, cut, span_end,
  path_export_block,
}
use envctl.Wiring.Markers.{IsOwned}
use envctl.Wiring.Machine.{Machine, State, exited, ok}
use envctl.Wiring.ShellRc.{
  unwrap_or_default, apply_shell_rc, append_block, revert_shell_rc, revert_read, write_excision,
}
use envctl.Guard.{
  resolve_dev, uuid_of, printed, check_one, check_resolved, check_live, check_mount,
  live_root_source, mount_uuid_of, or_else, uuid_behind, verify_path_uuid, strip_subvol,
  before_bracket,
}
use envctl.Registry.Tests.{no_wiring}
use envctl.Wiring.Apply.{
  fresh, revert, revert_all, revert_owned, remove_config, purge_data, purge_uuid, purge_verified,
}
use envctl.Wiring.Purge.{Chain, ConfigStep, PurgeStep, revert-Gated}
use envctl.Wiring.Restore.{IsFaithful, revert-apply, IsSurgical, revert_shell_rc-IsSurgical}

abbrev Files : Type 0
Files = List (Bytes × Bytes)

abbrev copied_to : (to : Bytes) → Option Bytes → Files → Files
copied_to to none w = w
copied_to to (some text) w = insert to text w

abbrev without : Bytes → Files → Files
without path [] = []
without path ((p, text) ∷ w) =
    let rest = without path w in if p == path then rest else (p, text) ∷ rest

abbrev moved : (path to : Bytes) → Option Bytes → Files → Files × Option Bytes
moved path to none w = (w, some (codes "no such file"))
moved path to (some text) w = (insert to text (without path w), none)

abbrev files_host : List (List Bytes × Output) → Host Files
files_host table = record {
  home = some (codes "/h");
  exists = λ w path. is_some (lookup path w);
  read_to_string = λ w path. lookup path w;
  which = λ w name. true;
  output = λ w args. lookup args table;
  run = λ comp phase h dry_run w. (
    w,
    record {
      component = comp;
      phase = phase;
      status = OpStatus.ok;
      exit_code = none;
      message = [];
      dry_run = dry_run;
    },
  );
  pci_nvidia_count = λ w. 0;
  apply_wiring = λ x w. (w, record { notes = []; failures = [] });
  revert_wiring = λ x gates ctx w. (w, record { notes = []; failures = [] });
}

abbrev files_machine : Machine Files
files_machine = record {
  xdg_config_home = none;
  is_symlink = λ w path. false;
  resolve = λ w name. none;
  now_epoch = λ w. codes "7";
  parent = λ path. none;
  to_string = λ n. codes "50";
  copy = λ path to w. copied_to to (lookup path w) w;
  append = λ path body w. (insert path (unwrap_or_default (lookup path w) ++ body) w, none);
  write = λ path body w. (insert path body w, none);
  rename = λ path to w. moved path to (lookup path w) w;
  remove_file = λ path w. (without path w, none);
  create_dir_all = λ path w. (w, none);
  status = λ argv w. (w, exited true []);
  pipe = λ argv stdin w. (w, exited true []);
}

copied_to-other :
    (to other : Bytes) (o : Option Bytes) (w : Files)
    → to ≢ other
    → lookup other (copied_to to o w) ≡ lookup other w
copied_to-other to other none w ne = refl
copied_to-other to other (some text) w ne = elim (Bool-cases (to == other)) [
  | inl e ↦ absurd (ne ((==_iff to other).0 e))
  | inr e ↦ lookup-insert_ne to other text w e
]

files-IsFaithful : IsFaithful (files_host []) files_machine
files-IsFaithful = record {
  copied = λ path to other w ne. copied_to-other to other (lookup path w) w ne;
  appended = λ path text body w r e.
      lookup-insert_self path (unwrap_or_default (lookup path w) ++ body) w
      ∙ ap (λ o. some (unwrap_or_default o ++ body)) r;
  written = λ path body w e. lookup-insert_self path body w;
}

abbrev block : ShellRcBlock
block = record { file = codes "~/.rc"; marker = codes "m"; content = codes "a" }

abbrev before : State Files
before = record {
  world = (codes "/h/.rc", codes "x") ∷ [];
  report = record { notes = []; failures = [] };
}

block-IsOwned : IsOwned block
unfolding contains starts_with strip_prefix trim_end is_space
block-IsOwned = record {
  begin_line = Lacks-any newline (begin_marker block.marker) refl;
  end_line = Lacks-any newline (end_marker block.marker) refl;
  unended = refl;
}

rc-path : expand_tilde (some (codes "/h")) (codes "~/.rc") ≡ codes "/h/.rc"
unfolding expand_tilde strip_prefix
rc-path = refl

revert-apply_example :
    (apply_shell_rc
        (files_host [])
        files_machine
        block
        (apply_shell_rc (files_host []) files_machine block before).0
      ≡ ((apply_shell_rc (files_host []) files_machine block before).0, ok tt))
    × (lookup
          (expand_tilde (some (codes "/h")) (codes "~/.rc"))
          (revert_shell_rc
            (files_host [])
            files_machine
            block
            (apply_shell_rc (files_host []) files_machine block before).0).0.world
        ≡ some (codes "x" ++ (newline ∷ [])))
unfolding lookup insert expand_tilde contains starts_with strip_prefix apply_shell_rc append_block
    revert_shell_rc revert_read write_excision block_text excise excise_from cut span_end find
    trim_end is_space take drop
revert-apply_example =
    revert-apply (files_host []) files_machine files-IsFaithful block (codes "x") before
      block-IsOwned refl refl refl refl

revert_shell_rc-IsSurgical_example :
    IsSurgical
      (files_host [])
      files_machine
      block
      before
      (revert_shell_rc (files_host []) files_machine block before).0.world
revert_shell_rc-IsSurgical_example =
    revert_shell_rc-IsSurgical (files_host []) files_machine block before

-- A file with the block, applied: the whole text, and what the revert leaves of it.
applied :
    (lookup (codes "/h/.rc") (apply_shell_rc (files_host []) files_machine block before).0.world)
    ≡ some (
        codes "x"
        ++ (newline
            ∷ (codes "# >>> BEGIN m (added by envctl) >>>"
                ++ (newline
                    ∷ (codes "a" ++ (newline ∷ (codes "# <<< END m <<<" ++ (newline ∷ []))))))))
unfolding lookup insert expand_tilde contains starts_with strip_prefix apply_shell_rc append_block
    block_text trim_end is_space
applied = refl

abbrev table : List (List Bytes × Output)
table =
    (codes "blkid" ∷ codes "-U" ∷ codes "u1" ∷ [], record { success = true; stdout = codes "d1" })
    ∷ (
      codes "blkid" ∷ codes "-s" ∷ codes "UUID" ∷ codes "-o" ∷ codes "value" ∷ codes "d1" ∷ [],
      record { success = true; stdout = codes "u1" },
    )
    ∷ (
      codes "findmnt" ∷ codes "-no" ∷ codes "UUID" ∷ codes "--target" ∷ codes "/p" ∷ [],
      record { success = true; stdout = codes "u1" },
    )
    ∷ []

abbrev purging : ResetGates
purging = record {
  all_components = false;
  confirm = true;
  cascade = false;
  keep_config = true;
  purge = true;
}

abbrev context : RunContext
context = record { gpu_present = false; live_root_uuid = some (codes "u0") }

abbrev data_wiring : Wiring
data_wiring = record no_wiring {
  config_paths = record { path = codes "/c"; uuid = none } ∷ [];
  data_paths = record { path = codes "/p"; uuid = some (codes "u1") } ∷ [];
}

abbrev data_world : Files
data_world = (codes "/c", codes "c") ∷ (codes "/p", codes "p") ∷ []

-- The data goes to the trash, and the configuration stays.
purged :
    (revert (files_host table) files_machine data_wiring purging context data_world).0
    ≡ (codes "/c", codes "c") ∷ (codes "/p.envctl-trash.7", codes "p") ∷ []
unfolding revert revert_all revert_owned remove_config purge_data purge_uuid purge_verified
    path_export_block verify_path_uuid check_one check_resolved check_live check_mount mount_uuid_of
    or_else uuid_behind live_root_source lookup insert resolve_dev uuid_of printed trim trim_start
    trim_end is_space strip_subvol before_bracket expand_tilde strip_prefix
purged = refl

revert-Gated_example :
    (after : Files) × Chain
      (ConfigStep (files_host table) files_machine purging)
      data_wiring.config_paths
      (revert_owned
        (files_host table)
        files_machine
        data_wiring
        (fresh (files_host table) files_machine data_world)).0.world
      after
    × Chain
        (PurgeStep (files_host table) files_machine purging context)
        data_wiring.data_paths
        after
        (revert (files_host table) files_machine data_wiring purging context data_world).0
revert-Gated_example =
    revert-Gated (files_host table) files_machine purging context data_wiring data_world
