-- ===== src/Wiring/Apt.antt =====
-- crates/engine/src/wiring.rs: the apt sources with their keyrings, and the lines of nix.custom.conf.
use envctl.Prelude.{
  Bool, true, false, not, ◌||◌, Option, none, some, List, [], ◌∷◌, ◌++◌, if◌then◌else◌, Bytes,
  codes, any, ◌==◌, List_eq, ℕ_eq,
}
use envctl.Host.{Host, trim_end}
use envctl.Slices.{lines}
use envctl.Manifest.{AptRepo, NixConfLine}
use envctl.Wiring.{newline, sh_q, check_list_file}
use envctl.Wiring.Machine.{
  Machine, Result, ok, err, Edit, State, pure, bail, see, ◌>>=◌, ◌>>◌, note, ignoring, whenever,
}
use envctl.Wiring.ShellRc.{unwrap_or_default}
use envctl.Wiring.System.{
  sudo, run_bash, read_sudo, write_sudo, tried, install_dir, sudo_back_up, sudo_remove,
}

abbrev pub nix_conf : Bytes
nix_conf = codes "/etc/nix/nix.custom.conf"

abbrev pub list_path : AptRepo → Bytes
list_path r = codes "/etc/apt/sources.list.d/" ++ r.list_file

abbrev pub fetch_keyring : AptRepo → Bytes
unfolding sh_q
fetch_keyring r =
    let pipefail = codes "set -o pipefail; curl -fsSL " ++ sh_q r.keyring_url in
    if r.dearmor
    then pipefail ++ (codes " | sudo gpg --dearmor -o " ++ sh_q r.keyring_path)
    else pipefail ++ (codes " | sudo tee " ++ (sh_q r.keyring_path ++ codes " >/dev/null"))

-- `printf '%s\n' LINE | sudo tee FILE`
abbrev pub printf_to : (line : Bytes) → (tee : Bytes) → (path : Bytes) → Bytes
unfolding sh_q
printf_to line tee path =
    codes "printf '%s\\n' "
    ++ (sh_q line ++ (codes " | sudo " ++ (tee ++ (sh_q path ++ codes " >/dev/null"))))

-- The text of the configuration without a line.
abbrev pub keep_lines : (line : Bytes) → List Bytes → Bytes
keep_lines line [] = []
keep_lines line (l ∷ ls) =
    let rest = keep_lines line ls in if l == line then rest else l ++ (newline ∷ rest)

abbrev pub has_line : (line : Bytes) → (text : Bytes) → Bool
unfolding lines
has_line line text = any (λ l. l == line) (lines text)

module _ {W : Type 0} (host : Host W) (m : Machine W) where
  abbrev pub invalid_list_file : AptRepo → Edit W (Unit {0})
  unfolding check_list_file
  invalid_list_file r =
      if check_list_file r.list_file
      then pure tt
      else bail (
          codes "invalid apt list_file '"
          ++ (r.list_file ++ codes "': must be a single path component"))

  -- A fetch that failed drops the partial keyring.
  abbrev pub fetched : AptRepo → State W × Result (Unit {0}) → State W × Result (Unit {0})
  unfolding sudo
  fetched r (s, ok u) = (s, ok tt)
  fetched r (s, err e) =
      (ignoring (sudo host m (codes "rm" ∷ codes "-f" ∷ r.keyring_path ∷ [])) >> bail e) s

  unfoldable pub write_keyring : AptRepo → Edit W (Unit {0})
  unfolding run_bash sudo
  write_keyring r = do
    install_dir host m (m.parent r.keyring_path)
    λ s. fetched r (run_bash host m (fetch_keyring r) s)
    sudo host m (codes "chmod" ∷ codes "go+r" ∷ r.keyring_path ∷ [])
    note (codes "wrote keyring " ++ r.keyring_path)

  unfoldable pub write_list : AptRepo → (exists : Bool) → Edit W (Unit {0})
  unfolding run_bash
  write_list r exists = do
    whenever exists (sudo_back_up host m (list_path r))
    run_bash host m (printf_to (trim_end r.list_line) (codes "tee ") (list_path r))
    note (codes "wrote apt source " ++ list_path r)

  unfoldable pub apply_apt_repo : AptRepo → Edit W Bool
  unfolding write_keyring write_list
  apply_apt_repo r = do
    invalid_list_file r
    keyring ← see (λ w. host.exists w r.keyring_path)
    whenever (not keyring) (write_keyring r)
    listed ← see (λ w. unwrap_or_default (host.read_to_string w (list_path r)))
    exists ← see (λ w. host.exists w (list_path r))
    whenever (not (listed == trim_end r.list_line ++ (newline ∷ []))) (write_list r exists)
    pure (not keyring || not (listed == trim_end r.list_line ++ (newline ∷ [])))

  abbrev pub remove_backed_up : (path label : Bytes) → Edit W (Unit {0})
  remove_backed_up path label =
      sudo_back_up host m path >> sudo_remove host m path >> note (label ++ path)

  -- The list first, and the keyring only when the list is gone.
  unfoldable pub revert_apt_repo : AptRepo → Edit W Bool
  revert_apt_repo r = do
    invalid_list_file r
    listed ← see (λ w. host.exists w (list_path r))
    whenever listed (remove_backed_up (list_path r) (codes "removed apt source "))
    keyring ← see (λ w. host.exists w r.keyring_path)
    whenever keyring (remove_backed_up r.keyring_path (codes "removed keyring "))
    pure (listed || keyring)

  unfoldable pub append_line : NixConfLine → Edit W Bool
  unfolding run_bash
  append_line l = do
    sudo_back_up host m nix_conf
    run_bash host m (printf_to l.line (codes "tee -a ") nix_conf)
    pure true

  unfoldable pub apply_nix_line : NixConfLine → Edit W Bool
  unfolding sudo read_sudo append_line
  apply_nix_line l = do
    sudo host m (codes "install" ∷ codes "-dm" ∷ codes "755" ∷ codes "/etc/nix" ∷ [])
    sudo host m (codes "touch" ∷ nix_conf ∷ [])
    cur ← see (λ w. unwrap_or_default (read_sudo host m nix_conf w))
    if has_line l.line cur then pure false else append_line l

  unfoldable pub remove_line : NixConfLine → (cur : Bytes) → Edit W Bool
  unfolding write_sudo lines
  remove_line l cur = do
    sudo_back_up host m nix_conf
    write_sudo host m nix_conf (keep_lines l.line (lines cur))
    note (codes "removed nix.custom.conf line: " ++ l.line)
    pure true

  abbrev pub revert_line : NixConfLine → Option Bytes → Edit W Bool
  unfolding remove_line
  revert_line l none = pure false
  revert_line l (some cur) = if has_line l.line cur then remove_line l cur else pure false

  unfoldable pub revert_nix_line : NixConfLine → Edit W Bool
  unfolding read_sudo
  revert_nix_line l = do cur ← see (read_sudo host m nix_conf); revert_line l cur

  unfoldable pub restart_nix_daemon : Edit W (Unit {0})
  restart_nix_daemon = do
    tried host m (codes "sudo" ∷ codes "systemctl" ∷ codes "restart" ∷ codes "nix-daemon" ∷ [])
    note (codes "restarted nix-daemon (nix.custom.conf changed)")

  unfoldable pub apt_get_update : Edit W (Unit {0})
  unfolding sudo
  apt_get_update = ignoring (sudo host m (codes "apt-get" ∷ codes "update" ∷ codes "-y" ∷ []))
