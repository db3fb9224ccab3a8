-- ===== src/Host.antt =====
-- What the engine asks of the machine: the outcome types of crates/engine/src/model.rs, the
-- `HookRunner` of crates/engine/src/component.rs, the wiring report of crates/engine/src/wiring.rs,
-- and the standard library's files and commands. `W` is the machine's state: commands and file tests
-- read it, hooks and wiring change it. How long a hook takes, the event sink, and a hook runner that
-- panics are not represented.
use envctl.Prelude.{
  ℕ, Bool, ◌||◌, ◌&&◌, leb, Option, none, some, List, [], ◌∷◌, ◌++◌, if◌then◌else◌, Bytes, codes, ℤ,
  ◌==◌, ℕ_eq,
}
use envctl.Text.{strip_prefix}
use envctl.Manifest.{Phase, Hook, Wiring}

pub data OpStatus : Type 0 where
  ok failed skipped skipped_blocked refused dry_run_only no_hook reboot_required incomplete :
      OpStatus

pub record OpResult : Type 0 where
  pub component : Bytes
  pub phase : Phase
  pub status : OpStatus
  pub exit_code : Option ℤ
  pub message : Bytes
  pub dry_run : Bool

pub record RunContext : Type 0 where
  pub gpu_present : Bool
  pub live_root_uuid : Option Bytes

pub record ResetGates : Type 0 where
  pub all_components : Bool
  pub confirm : Bool
  pub cascade : Bool
  pub keep_config : Bool
  pub purge : Bool

pub record WiringReport : Type 0 where
  pub notes : List Bytes
  pub failures : List (Bytes × Bytes)

-- The output of a command that could be started.
pub record Output : Type 0 where
  pub success : Bool
  pub stdout : Bytes

pub record Host (W : Type 0) : Type 0 where
  pub home : Option Bytes
  pub exists : W → Bytes → Bool
  pub read_to_string : W → Bytes → Option Bytes
  pub which : W → Bytes → Bool
  pub output : W → List Bytes → Option Output
  pub run : (comp : Bytes) → Phase → Hook → (dry_run : Bool) → W → W × OpResult
  pub pci_nvidia_count : W → ℕ
  pub apply_wiring : Wiring → W → W × WiringReport
  pub revert_wiring : Wiring → ResetGates → RunContext → W → W × WiringReport

unfoldable pub is_space : ℕ → Bool
is_space c = (leb 9 c && leb c 13) || c == 32

unfoldable pub trim_start : Bytes → Bytes
trim_start [] = []
trim_start (c ∷ s) = if is_space c then trim_start s else c ∷ s

abbrev pub cons_trimmed : ℕ → Bytes → Bytes
cons_trimmed c [] = if is_space c then [] else c ∷ []
cons_trimmed c (d ∷ s) = c ∷ d ∷ s

unfoldable pub trim_end : Bytes → Bytes
trim_end [] = []
trim_end (c ∷ s) = cons_trimmed c (trim_end s)

unfoldable pub trim : Bytes → Bytes
trim s = trim_end (trim_start s)

-- `expand_tilde`, for the value of `HOME`.
unfoldable pub expand_tilde : Option Bytes → Bytes → Bytes
expand_tilde home p = elim (strip_prefix (codes "~/") p) [
  | none ↦ p
  | some rest ↦ elim home [ none ↦ p | some h ↦ h ++ codes "/" ++ rest ]
]
