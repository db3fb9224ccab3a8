-- ===== src/Manifest.antt =====
-- The manifest's data: crates/engine/src/component.rs, the wiring types of crates/engine/src/model.rs
-- and the registry's lookup. A `BTreeMap` is its entries in key order.
use envctl.Prelude.{ℕ, Bool, Option, List, Bytes, List_eq, ℕ_eq}
use envctl.Map.{lookup}

pub data Phase : Type 0 where
  detect install verify fix remove : Phase

pub data Hook : Type 0 where
  command :
      (command : Bytes) (args : List Bytes) (env : List (Bytes × Bytes)) (needs_sudo : Bool) → Hook
  script :
      (script : Bytes) (path : Option Bytes) (env : List (Bytes × Bytes))
      (needs_sudo login_shell : Bool)
      → Hook
  shipped_script : (path : Bytes) (args : List Bytes) (needs_sudo : Bool) → Hook

pub data Guard : Type 0 where
  uuid_resolves not_live_device path_exists not_mounted : Bytes → Guard
  hook_succeeds : Hook → Guard

pub record ShellRcBlock : Type 0 where
  pub file : Bytes
  pub marker : Bytes
  pub content : Bytes

pub record DesktopEntry : Type 0 where
  pub filename : Bytes
  pub content : Bytes
  pub one_shot : Bool

pub record SystemdUnit : Type 0 where
  pub name : Bytes
  pub content : Bytes
  pub enable : Bool

pub record AptRepo : Type 0 where
  pub list_file : Bytes
  pub list_line : Bytes
  pub keyring_path : Bytes
  pub keyring_url : Bytes
  pub dearmor : Bool
  pub apt_update : Bool

pub record NixConfLine : Type 0 where
  pub line : Bytes

pub record CdiSpec : Type 0 where
  pub output : Bytes
  pub generate_args : List Bytes

pub record Alternative : Type 0 where
  pub link : Bytes
  pub name : Bytes
  pub target : Bytes
  pub priority : ℕ

pub record DataPath : Type 0 where
  pub path : Bytes
  pub uuid : Option Bytes

pub record Wiring : Type 0 where
  pub path_entries : List Bytes
  pub shell_rc : List ShellRcBlock
  pub desktop_entries : List DesktopEntry
  pub systemd_user : List SystemdUnit
  pub apt_repos : List AptRepo
  pub nix_conf_lines : List NixConfLine
  pub cdi_specs : List CdiSpec
  pub alternatives : List Alternative
  pub data_paths : List DataPath
  pub config_paths : List DataPath

pub record Component : Type 0 where
  pub id : Bytes
  pub name : Bytes
  pub description : Bytes
  pub requires : List Bytes
  pub gpu_required : Bool
  pub destructive : Bool
  pub detect_hook : Option Hook
  pub install_hook : Option Hook
  pub verify_hook : Option Hook
  pub fix_hook : Option Hook
  pub remove_hook : Option Hook
  pub wiring : Wiring
  pub guards : List Guard

unfoldable pub hook : Component → Phase → Option Hook
hook c detect = c.detect_hook
hook c install = c.install_hook
hook c verify = c.verify_hook
hook c fix = c.fix_hook
hook c remove = c.remove_hook

pub record Registry : Type 0 where
  pub by_id : List (Bytes × Component)
  pub order : List Bytes

unfoldable pub get : Registry → Bytes → Option Component
get reg id = lookup id reg.by_id
