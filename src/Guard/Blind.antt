-- ===== src/Guard/Blind.antt =====
-- The guard on the live device, on a machine whose `findmnt` does not run.
use envctl.Prelude.{◌≡◌, refl, Bool, none, some, List, ◌∷◌, Bytes, codes, List_eq, ℕ_eq, Option_eq}
use envctl.Manifest.{not_live_device}
use envctl.Host.{Host}
use envctl.Guard.{
  resolve_dev, live_root_source, resolve_live_root_uuid, uuid_behind, or_else, printed, check_one,
  check_live,
}

-- Where `findmnt` cannot be run, no live root is found when the run starts, and the guard
-- `not_live_device` then passes for every UUID that `blkid` resolves, that of the live root too.
pub check_one-not_live_device :
    {W : Type 0} (host : Host W) (w : W) (uuid dev : Bytes) (gpu : Bool)
    → ((args : List Bytes) → host.output w (codes "findmnt" ∷ args) ≡ none)
    → resolve_dev host w uuid ≡ some dev
    → check_one host
        (record { gpu_present = gpu; live_root_uuid = resolve_live_root_uuid host w })
        (not_live_device uuid)
        w
      ≡ (w, none)
unfolding check_one check_live live_root_source resolve_live_root_uuid uuid_behind or_else printed
check_one-not_live_device host w uuid dev gpu blind e = rw (blind, e, live_root_source, blind) refl
