-- ===== src/Wiring/System.antt =====
-- crates/engine/src/wiring.rs: the desktop entries, the systemd user units, the CDI specifications
-- and the alternatives, and the commands that they run.
use envctl.Prelude.{
  Bool, true, false, not, ◌&&◌, Option, none, some, List, [], ◌∷◌, ◌++◌, if◌then◌else◌, Bytes,
  codes, ◌==◌, List_eq, ℕ_eq,
}
use envctl.Text.{starts_with}
use envctl.Host.{Host}
use envctl.Manifest.{DesktopEntry, SystemdUnit, CdiSpec, Alternative}
use envctl.Wiring.Machine.{
  Machine, Exit, not_started, exited, Result, ok, err, Edit, pure, see, ◌>>=◌, ◌>>◌, file_op, note,
  fail, ignoring, whenever, State,
}
use envctl.Wiring.ShellRc.{back_up, unwrap_or_default}

-- `argv.join(" ")`
abbrev pub argv_joined : (sep : Bytes) → List Bytes → Bytes
argv_joined sep [] = []
argv_joined sep (a ∷ []) = a
argv_joined sep (a ∷ b ∷ rest) = a ++ (sep ++ argv_joined sep (b ∷ rest))

abbrev pub exit_result : (failed : Bytes → Bytes) → Exit → Result (Unit {0})
exit_result failed (not_started e) = err e
exit_result failed (exited true code) = ok tt
exit_result failed (exited false code) = err (failed code)

module _ {W : Type 0} (host : Host W) (m : Machine W) where
  abbrev pub ran : (argv : List Bytes) → (failed : Bytes → Bytes) → Edit W (Unit {0})
  ran argv failed s =
      let (w, e) = m.status argv s.world in (record s { world = w }, exit_result failed e)

  unfoldable pub sudo : List Bytes → Edit W (Unit {0})
  sudo argv =
      ran (codes "sudo" ∷ codes "-n" ∷ argv)
        (λ code. codes "sudo " ++ (argv_joined (codes " ") argv ++ (codes " exited " ++ code)))

  unfoldable pub run_bash : Bytes → Edit W (Unit {0})
  run_bash script =
      ran (codes "bash" ∷ codes "-c" ∷ script ∷ []) (λ code. codes "bash step failed: " ++ script)

  unfoldable pub read_sudo : Bytes → W → Option Bytes
  read_sudo path w = elim (host.output w (codes "sudo" ∷ codes "-n" ∷ codes "cat" ∷ path ∷ [])) [
    | none ↦ none
    | some out ↦ if out.success then some out.stdout else none
  ]

  unfoldable pub write_sudo : (path body : Bytes) → Edit W (Unit {0})
  write_sudo path body s =
      let (w, e) = m.pipe (codes "sudo" ∷ codes "-n" ∷ codes "tee" ∷ path ∷ []) body s.world in
      (
        record s { world = w },
        exit_result (λ code. codes "sudo tee " ++ (path ++ codes " failed")) e,
      )

  -- A command whose outcome is ignored.
  abbrev pub tried : List Bytes → Edit W (Unit {0})
  tried argv = ignoring (ran argv (λ code. code))

  abbrev pub home : Bytes
  home = elim host.home [ none ↦ codes "/root" | some h ↦ h ]

  abbrev pub config_base : Bytes
  config_base = elim m.xdg_config_home [ none ↦ home ++ codes "/.config" | some base ↦ base ]

  unfoldable pub xdg_autostart : Bytes → Bytes
  xdg_autostart filename = config_base ++ (codes "/autostart/" ++ filename)

  unfoldable pub systemd_user_dir : Bytes
  systemd_user_dir = config_base ++ codes "/systemd/user"

  abbrev pub create_parent : Option Bytes → Edit W (Unit {0})
  create_parent none = pure tt
  create_parent (some dir) = file_op (m.create_dir_all dir)

  -- The write of a file whose text differs, its old text backed up.
  abbrev pub write_over : (path content : Bytes) → (exists : Bool) → Edit W (Unit {0})
  write_over path content exists =
      whenever exists (back_up host m path) >> file_op (m.write path content)

  unfoldable pub apply_desktop : DesktopEntry → Edit W (Unit {0})
  unfolding xdg_autostart
  apply_desktop d = do
    create_parent (m.parent (xdg_autostart d.filename))
    exists ← see (λ w. host.exists w (xdg_autostart d.filename))
    old ← see (λ w. unwrap_or_default (host.read_to_string w (xdg_autostart d.filename)))
    if exists && old == d.content
        then pure tt
        else write_over (xdg_autostart d.filename) d.content exists

  unfoldable pub revert_desktop : DesktopEntry → Edit W (Unit {0})
  unfolding xdg_autostart
  revert_desktop d = do
    exists ← see (λ w. host.exists w (xdg_autostart d.filename))
    whenever exists (
        back_up host m (xdg_autostart d.filename)
        >> file_op (m.remove_file (xdg_autostart d.filename)))

  abbrev pub unit_path : SystemdUnit → Bytes
  unfolding systemd_user_dir
  unit_path u = systemd_user_dir ++ (codes "/" ++ u.name)

  abbrev pub systemctl : List Bytes → Edit W (Unit {0})
  systemctl args = tried (codes "systemctl" ∷ codes "--user" ∷ args)

  unfoldable pub apply_systemd : SystemdUnit → Edit W (Unit {0})
  unfolding systemd_user_dir
  apply_systemd u = do
    file_op (m.create_dir_all systemd_user_dir)
    old ← see (λ w. unwrap_or_default (host.read_to_string w (unit_path u)))
    exists ← see (λ w. host.exists w (unit_path u))
    whenever (not (old == u.content)) (write_over (unit_path u) u.content exists)
    systemctl (codes "daemon-reload" ∷ [])
    whenever u.enable (systemctl (codes "enable" ∷ codes "--now" ∷ u.name ∷ []))

  unfoldable pub revert_systemd : SystemdUnit → Edit W (Unit {0})
  revert_systemd u = do
    systemctl (codes "disable" ∷ codes "--now" ∷ u.name ∷ [])
    exists ← see (λ w. host.exists w (unit_path u))
    whenever exists (back_up host m (unit_path u) >> file_op (m.remove_file (unit_path u)))
    systemctl (codes "daemon-reload" ∷ [])

  -- `sudo install -dm 755`
  abbrev pub install_dir : Option Bytes → Edit W (Unit {0})
  unfolding sudo
  install_dir none = pure tt
  install_dir (some dir) = sudo (codes "install" ∷ codes "-dm" ∷ codes "755" ∷ dir ∷ [])

  -- `sudo cp` to the backup's name
  abbrev pub sudo_back_up : (path : Bytes) → Edit W (Unit {0})
  unfolding sudo
  sudo_back_up path = do
    now ← see m.now_epoch
    sudo (codes "cp" ∷ path ∷ (path ++ (codes ".bak." ++ now)) ∷ [])

  abbrev pub sudo_remove : (path : Bytes) → Edit W (Unit {0})
  unfolding sudo
  sudo_remove path = sudo (codes "rm" ∷ codes "-f" ∷ path ∷ [])

  unfoldable pub apply_cdi : CdiSpec → Edit W (Unit {0})
  unfolding sudo
  apply_cdi c = do
    exists ← see (λ w. host.exists w c.output)
    whenever (not exists) (
        install_dir (m.parent c.output)
        >> ignoring (
            sudo
              (codes "nvidia-ctk" ∷ (c.generate_args ++ ((codes "--output=" ++ c.output) ∷ [])))))

  unfoldable pub revert_cdi : CdiSpec → Edit W (Unit {0})
  revert_cdi c = do
    exists ← see (λ w. host.exists w c.output)
    whenever exists (
        sudo_back_up c.output
        >> sudo_remove c.output
        >> note (codes "removed CDI spec " ++ c.output))

  unfoldable pub resolve_target : Bytes → W → Option Bytes
  resolve_target t w =
      if starts_with t (codes "/") && host.exists w t then some t else m.resolve w t

  -- A `sudo` whose error is reported, with what follows on success.
  abbrev pub or_fail : State W × Result (Unit {0}) → Edit W (Unit {0}) → State W × Result (Unit {0})
  or_fail (s, ok u) next = next s
  or_fail (s, err e) next = fail (codes "alternative") e s

  abbrev pub sudo_or_fail : List Bytes → Edit W (Unit {0}) → Edit W (Unit {0})
  unfolding sudo
  sudo_or_fail argv next s = or_fail (sudo argv s) next

  abbrev pub alternatives : List Bytes → Edit W (Unit {0}) → Edit W (Unit {0})
  alternatives args next = sudo_or_fail (codes "update-alternatives" ∷ args) next

  unfoldable pub apply_target : Alternative → Option Bytes → Edit W (Unit {0})
  apply_target a none = note (
      codes "alternative '"
      ++ (a.name ++ (codes "': target '" ++ (a.target ++ codes "' not found; skipped"))))
  apply_target a (some target) =
      alternatives (codes "--install" ∷ a.link ∷ a.name ∷ target ∷ m.to_string a.priority ∷ []) (
        alternatives (codes "--set" ∷ a.name ∷ target ∷ [])
          (note (codes "set alternative " ++ (a.name ++ (codes " -> " ++ target)))))

  unfoldable pub apply_alternative : Alternative → Edit W (Unit {0})
  unfolding apply_target
  apply_alternative a = do target ← see (resolve_target a.target); apply_target a target

  unfoldable pub revert_target : Alternative → Option Bytes → Edit W (Unit {0})
  revert_target a none = alternatives (codes "--remove-all" ∷ a.name ∷ []) (
      note (
        codes "removed alternative "
        ++ (a.name
            ++ (codes " (target '" ++ (a.target ++ codes "' unresolved; used --remove-all)")))))
  revert_target a (some target) =
      alternatives (codes "--remove" ∷ a.name ∷ target ∷ [])
        (note (codes "removed alternative " ++ (a.name ++ (codes " -> " ++ target))))

  unfoldable pub revert_alternative : Alternative → Edit W (Unit {0})
  unfolding revert_target
  revert_alternative a = do target ← see (resolve_target a.target); revert_target a target
