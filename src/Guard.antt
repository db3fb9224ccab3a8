-- ===== src/Guard.antt =====
-- crates/engine/src/guard.rs: the guards that stand in front of a destructive phase. Commands and file
-- tests are the host's; what a command prints is ASCII, which `trim` supposes.
pub mod Proven
pub mod Blind
mod Tests
use envctl.Prelude.{
  ℕ, Bool, true, false, not, ◌||◌, ◌&&◌, Option, none, some, List, [], ◌∷◌, ◌++◌, if◌then◌else◌,
  Bytes, codes, is_empty, ◌==◌, List_eq, ℕ_eq, Option_eq,
}
use envctl.Manifest.{
  Guard, uuid_resolves, not_live_device, path_exists, not_mounted, hook_succeeds, Phase,
}
use envctl.Host.{OpStatus, OpResult, RunContext, Host, Output, trim, trim_end, expand_tilde}

abbrev pub is_ok : OpStatus → Bool
is_ok OpStatus.ok = true
is_ok OpStatus.failed = false
is_ok OpStatus.skipped = false
is_ok OpStatus.skipped_blocked = false
is_ok OpStatus.refused = false
is_ok OpStatus.dry_run_only = false
is_ok OpStatus.no_hook = false
is_ok OpStatus.reboot_required = false
is_ok OpStatus.incomplete = false

-- Up to the first `[`, none of it where there is no `[`.
unfoldable pub before_bracket : Bytes → Option Bytes
before_bracket [] = none
before_bracket (c ∷ s) =
    if c == b'['
    then some []
    else elim (before_bracket s) [ none ↦ none | some front ↦ some (c ∷ front) ]

unfoldable pub strip_subvol : Bytes → Bytes
strip_subvol src = elim (before_bracket src) [ none ↦ src | some front ↦ trim_end front ]

abbrev pub non_empty : Bytes → Option Bytes
non_empty s = if is_empty s then none else some s

-- The text that a command prints when it succeeds; none if it fails or prints nothing.
unfoldable pub printed : (Bytes → Bytes) → Option Output → Option Bytes
printed f none = none
printed f (some out) = if not out.success then none else non_empty (f out.stdout)

abbrev pub succeeds : Option Output → Bool
succeeds none = false
succeeds (some out) = out.success

module _ {W : Type 0} (host : Host W) where
  -- `blkid -U <uuid>`
  unfoldable pub resolve_dev : W → Bytes → Option Bytes
  resolve_dev w uuid = printed trim (host.output w (codes "blkid" ∷ codes "-U" ∷ uuid ∷ []))

  -- `blkid -s UUID -o value <dev>`
  unfoldable pub uuid_of : W → Bytes → Option Bytes
  uuid_of w dev = printed trim (
      host.output w
        (codes "blkid" ∷ codes "-s" ∷ codes "UUID" ∷ codes "-o" ∷ codes "value" ∷ dev ∷ []))

  unfoldable pub live_root_source : W → Option Bytes
  live_root_source w =
      printed (λ s. strip_subvol (trim s))
        (host.output w (codes "findmnt" ∷ codes "-no" ∷ codes "SOURCE" ∷ codes "/" ∷ []))

  unfoldable pub findmnt_missing : W → Bool
  findmnt_missing w = not (host.which w (codes "findmnt"))

  unfoldable pub mounted_device : W → Option Bytes → Bool
  mounted_device w none = false
  mounted_device w (some dev) = succeeds (host.output w (codes "findmnt" ∷ codes "-S" ∷ dev ∷ []))

  unfoldable pub uuid_is_mounted : W → Bytes → Bool
  uuid_is_mounted w uuid =
      if mounted_device w (resolve_dev w uuid)
      then true
      else succeeds
          (host.output w (codes "findmnt" ∷ codes "--source" ∷ (codes "UUID=" ++ uuid) ∷ []))

  -- The fallback from a device to its UUID.
  unfoldable pub uuid_behind : W → Option Bytes → Option Bytes
  uuid_behind w none = none
  uuid_behind w (some dev) = uuid_of w dev

  unfoldable pub or_else : Option Bytes → Option Bytes → Option Bytes
  or_else none other = other
  or_else (some s) other = some s

  unfoldable pub resolve_live_root_uuid : W → Option Bytes
  resolve_live_root_uuid w =
      or_else
        (printed trim
          (host.output w (codes "findmnt" ∷ codes "-no" ∷ codes "UUID" ∷ codes "/" ∷ [])))
        (uuid_behind w (live_root_source w))

  unfoldable pub mount_uuid_of : W → Bytes → Option Bytes
  mount_uuid_of w path =
      or_else
        (printed trim (
          host.output w
            (codes "findmnt" ∷ codes "-no" ∷ codes "UUID" ∷ codes "--target" ∷ path ∷ [])))
        (uuid_behind w (
          printed (λ s. strip_subvol (trim s))
            (host.output w
              (codes "findmnt" ∷ codes "-no" ∷ codes "SOURCE" ∷ codes "--target" ∷ path ∷ []))))

  unfoldable pub check_resolved : W → Bytes → Option Bytes → Option Bytes
  check_resolved w uuid none =
      some
        (codes "refused: UUID " ++ uuid ++ codes " did not resolve (blkid unavailable or unknown)")
  check_resolved w uuid (some dev) =
      if uuid_of w dev == some uuid
      then none
      else some (
          codes "refused: UUID "
          ++ uuid
          ++ codes " resolved to "
          ++ dev
          ++ codes " but re-verify did not match")

  -- The device and the live device.
  unfoldable pub check_live : Bytes → Option Bytes → Option Bytes → Option Bytes
  check_live uuid none live = some (
      codes "refused: "
      ++ uuid
      ++ codes " did not resolve — cannot prove it is not the live device")
  check_live uuid (some dev) none = none
  check_live uuid (some dev) (some live) =
      if dev == live
      then some (codes "refused: " ++ uuid ++ codes " resolves to the live device " ++ live)
      else none

  unfoldable pub check_hook : W × OpResult → W × Option Bytes
  check_hook (w, r) = (
    w,
    if is_ok r.status
        then none
        else some (codes "refused: guard hook did not succeed (" ++ r.message ++ codes ")"),
  )

  -- `Some(reason)` refuses.
  unfoldable pub check_one : RunContext → Guard → W → W × Option Bytes
  check_one ctx (path_exists path) w = (
    w,
    if host.exists w (expand_tilde host.home path)
        then none
        else some (codes "refused: required path missing: " ++ path),
  )
  check_one ctx (hook_succeeds h) w = check_hook (host.run (codes "<guard>") Phase.detect h false w)
  check_one ctx (uuid_resolves uuid) w = (w, check_resolved w uuid (resolve_dev w uuid))
  check_one ctx (not_live_device uuid) w = (
    w,
    if ctx.live_root_uuid == some uuid
        then some (codes "refused: " ++ uuid ++ codes " is the LIVE root filesystem")
        else check_live uuid (resolve_dev w uuid) (live_root_source w),
  )
  check_one ctx (not_mounted uuid) w = (
    w,
    if findmnt_missing w
        then some (codes "refused: cannot run findmnt to prove " ++ uuid ++ codes " is unmounted")
        else if uuid_is_mounted w uuid
        then some (codes "refused: " ++ uuid ++ codes " is currently mounted")
        else none,
  )

  -- The guards after one that gave this answer.
  unfoldable pub check_rest : (W → W × Option Bytes) → W × Option Bytes → W × Option Bytes
  check_rest rest (w, some reason) = (w, some reason)
  check_rest rest (w, none) = rest w

  unfoldable pub check_guards : RunContext → List Guard → W → W × Option Bytes
  check_guards ctx [] w = (w, none)
  check_guards ctx (g ∷ gs) w = check_rest (check_guards ctx gs) (check_one ctx g w)

  unfoldable pub check_mount : (path uuid : Bytes) → Option Bytes → Option Bytes
  check_mount path uuid none =
      some (codes "refused: cannot determine the fs UUID carrying " ++ path)
  check_mount path uuid (some f) =
      if f == uuid
      then none
      else some (
          codes "refused: "
          ++ path
          ++ codes " is on UUID "
          ++ f
          ++ codes ", not the declared "
          ++ uuid)

  -- The re-verification of a `--purge` target.
  unfoldable pub verify_path_uuid : RunContext → (path uuid : Bytes) → W → Option Bytes
  verify_path_uuid ctx path uuid w =
      let p = expand_tilde host.home path in
      if not (host.exists w p)
      then some (codes "refused: purge target missing: " ++ path)
      else or_else (check_one ctx (uuid_resolves uuid) w).1 (
          or_else (check_one ctx (not_live_device uuid) w).1
            (check_mount path uuid (mount_uuid_of w p)))
