-- ===== src/Wiring/Apply.antt =====
-- crates/engine/src/wiring.rs: `apply` and `revert`.
use envctl.Prelude.{true, false, Option, none, some, [], ◌++◌, if◌then◌else◌, Bytes, codes}
use envctl.Host.{Host, RunContext, ResetGates, WiringReport, expand_tilde}
use envctl.Manifest.{DataPath, Wiring, ShellRcBlock}
use envctl.Guard.{verify_path_uuid}
use envctl.Wiring.{path_export_block}
use envctl.Wiring.Machine.{
  Machine, Result, ok, err, Edit, State, pure, see, ◌>>=◌, ◌>>◌, file_op, note, fail, reporting,
  whenever, each, each_changed,
}
use envctl.Wiring.ShellRc.{apply_shell_rc, revert_shell_rc}
use envctl.Wiring.System.{
  apply_desktop, revert_desktop, apply_systemd, revert_systemd, apply_cdi, revert_cdi,
  apply_alternative, revert_alternative,
}
use envctl.Wiring.Apt.{
  apply_apt_repo, revert_apt_repo, apply_nix_line, revert_nix_line, restart_nix_daemon,
  apt_get_update,
}

module _ {W : Type 0} (host : Host W) (m : Machine W) where
  abbrev pub path_block :
      (ShellRcBlock → Edit W (Unit {0})) → Option ShellRcBlock → Edit W (Unit {0})
  path_block f none = pure tt
  path_block f (some blk) = reporting (codes "path_entries") (f blk)

  -- The state that `apply` and `revert` begin with.
  abbrev pub fresh : W → State W
  fresh w = record { world = w; report = record { notes = []; failures = [] } }

  unfoldable pub apply_all : Wiring → Edit W (Unit {0})
  unfolding path_export_block
  apply_all w = do
    path_block (apply_shell_rc host m) (path_export_block w)
    each (λ blk. reporting (codes "shell_rc") (apply_shell_rc host m blk)) w.shell_rc
    each (λ d. reporting (codes "desktop_entry") (apply_desktop host m d)) w.desktop_entries
    each (λ u. reporting (codes "systemd_user") (apply_systemd host m u)) w.systemd_user
    apt_dirty ←
        each_changed (codes "apt_repo") (λ r. r.apt_update) (apply_apt_repo host m) false
          w.apt_repos
    whenever apt_dirty (apt_get_update host m)
    touched_nix ←
        each_changed (codes "nix_conf_line") (λ l. true) (apply_nix_line host m) false
          w.nix_conf_lines
    whenever touched_nix (restart_nix_daemon host m)
    each (λ c. reporting (codes "cdi_spec") (apply_cdi host m c)) w.cdi_specs
    each (λ a. reporting (codes "alternative") (apply_alternative host m a)) w.alternatives

  unfoldable pub apply : Wiring → W → W × WiringReport
  unfolding apply_all
  apply w world = let (s, r) = apply_all w (fresh world) in (s.world, s.report)

  unfoldable pub revert_owned : Wiring → Edit W (Unit {0})
  unfolding path_export_block
  revert_owned w = do
    path_block (revert_shell_rc host m) (path_export_block w)
    each (λ blk. reporting (codes "shell_rc") (revert_shell_rc host m blk)) w.shell_rc
    each (λ d. reporting (codes "desktop_entry") (revert_desktop host m d)) w.desktop_entries
    each (λ u. reporting (codes "systemd_user") (revert_systemd host m u)) w.systemd_user
    apt_dirty ←
        each_changed (codes "apt_repo") (λ r. r.apt_update) (revert_apt_repo host m) false
          w.apt_repos
    whenever apt_dirty (apt_get_update host m)
    touched_nix ←
        each_changed (codes "nix_conf_line") (λ l. true) (revert_nix_line host m) false
          w.nix_conf_lines
    whenever touched_nix (restart_nix_daemon host m)
    each (λ c. reporting (codes "cdi_spec") (revert_cdi host m c)) w.cdi_specs
    each (λ a. reporting (codes "alternative") (revert_alternative host m a)) w.alternatives

  -- A rename to the trash, with its note or its failure.
  abbrev pub trashed :
      (kind text trash : Bytes) → State W × Result (Unit {0}) → State W × Result (Unit {0})
  trashed kind text trash (s, ok u) = note (text ++ (codes " -> " ++ trash)) s
  trashed kind text trash (s, err e) = fail kind e s

  abbrev pub move_to : (kind text path trash : Bytes) → Edit W (Unit {0})
  move_to kind text path trash s = trashed kind text trash (file_op (m.rename path trash) s)

  unfoldable pub remove_config : ResetGates → DataPath → Edit W (Unit {0})
  remove_config gates cp = do
    exists ← see (λ w. host.exists w (expand_tilde host.home cp.path))
    now ← see m.now_epoch
    if gates.keep_config
        then note (codes "kept config " ++ (cp.path ++ codes " (--keep-config)"))
        else whenever exists (
            move_to (codes "config_path") (codes "removed config " ++ cp.path)
              (expand_tilde host.home cp.path)
              (expand_tilde host.home cp.path ++ (codes ".bak." ++ now)))

  unfoldable pub purge_verified : DataPath → Option Bytes → Edit W (Unit {0})
  purge_verified dp (some reason) =
      fail (codes "data_path") (codes "refused purge of " ++ (dp.path ++ (codes ": " ++ reason)))
  purge_verified dp none = do
    link ← see (λ w. m.is_symlink w (expand_tilde host.home dp.path))
    now ← see m.now_epoch
    if link
        then fail (codes "data_path")
            (codes "refusing to purge " ++ (dp.path ++ codes ": it is a symlink"))
        else move_to (codes "data_path") (codes "purged " ++ dp.path)
            (expand_tilde host.home dp.path)
            (expand_tilde host.home dp.path ++ (codes ".envctl-trash." ++ now))

  unfoldable pub purge_uuid : RunContext → DataPath → Option Bytes → Edit W (Unit {0})
  unfolding purge_verified
  purge_uuid ctx dp none =
      fail (codes "data_path") (codes "cannot purge " ++ (dp.path ++ codes ": no uuid declared"))
  purge_uuid ctx dp (some uuid) = do
    reason ← see (verify_path_uuid host ctx dp.path uuid)
    purge_verified dp reason

  unfoldable pub purge_data : ResetGates → RunContext → DataPath → Edit W (Unit {0})
  unfolding purge_uuid
  purge_data gates ctx dp =
      if gates.purge
      then purge_uuid ctx dp dp.uuid
      else note (codes "left user data intact (would purge with --purge): " ++ dp.path)

  unfoldable pub revert_all : Wiring → ResetGates → RunContext → Edit W (Unit {0})
  unfolding revert_owned remove_config purge_data
  revert_all w gates ctx = do
    revert_owned w
    each (remove_config gates) w.config_paths
    each (purge_data gates ctx) w.data_paths

  unfoldable pub revert : Wiring → ResetGates → RunContext → W → W × WiringReport
  unfolding revert_all
  revert w gates ctx world =
      let (s, r) = revert_all w gates ctx (fresh world) in (s.world, s.report)
