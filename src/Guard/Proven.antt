-- ===== src/Guard/Proven.antt =====
-- What a guard that passes has shown.
use envctl.Prelude.{
  ◌≡◌, ◌≢◌, refl, sym, ap, Bool, true, false, Option, none, some, List, [], ◌∷◌, ◌++◌, Bytes, codes,
  ◌==◌, List_eq, ℕ_eq, Option_eq, arith, if◌then◌else◌, ==_iff, not-true,
}
use envctl.Manifest.{
  Guard, not_live_device, uuid_resolves, path_exists, not_mounted, hook_succeeds, Phase,
}
use envctl.Host.{RunContext, Host, OpStatus, expand_tilde}
use envctl.Guard.{
  is_ok, succeeds, resolve_dev, uuid_of, live_root_source, findmnt_missing, uuid_is_mounted,
  mounted_device, or_else, check_one, check_resolved, check_live, check_hook, check_rest,
  check_guards, check_mount, mount_uuid_of, verify_path_uuid,
}

passes : (b : Bool) (m : Bytes) → (if b then none else some m) ≡ none → b ≡ true
passes b m h = ground arith

spares : (b : Bool) (m : Bytes) → (if b then some m else none) ≡ none → b ≡ false
spares b m h = ground arith

neither : (a b : Bool) → (if a then true else b) ≡ false → (a ≡ false) × (b ≡ false)
neither a b h = ground arith

spares-then :
    (b : Bool) (m : Bytes) (o : Option Bytes)
    → (if b then some m else o) ≡ none
    → (b ≡ false) × (o ≡ none)
spares-then b m o h = ground arith

module _ {W : Type 0} (host : Host W) (ctx : RunContext) where
  pub Reverified : W → Bytes → Type 0
  Reverified w uuid =
      (dev : Bytes) × (resolve_dev host w uuid ≡ some dev) × (uuid_of host w dev ≡ some uuid)

  pub NotLive : W → Bytes → Type 0
  NotLive w uuid =
      (ctx.live_root_uuid ≢ some uuid)
      × ((dev : Bytes) × (resolve_dev host w uuid ≡ some dev)
          × (live_root_source host w ≢ some dev))

  pub Unmounted : W → Bytes → Type 0
  Unmounted w uuid =
      (host.which w (codes "findmnt") ≡ true)
      × (mounted_device host w (resolve_dev host w uuid) ≡ false)
      × (succeeds
            (host.output w (codes "findmnt" ∷ codes "--source" ∷ (codes "UUID=" ++ uuid) ∷ []))
          ≡ false)

  -- What the guard promises, in the state in which it is checked.
  pub Proven : Guard → W → Type 0
  Proven (path_exists path) w = host.exists w (expand_tilde host.home path) ≡ true
  Proven (hook_succeeds h) w =
      (host.run (codes "<guard>") Phase.detect h false w).1.status ≡ OpStatus.ok
  Proven (uuid_resolves uuid) w = Reverified w uuid
  Proven (not_live_device uuid) w = NotLive w uuid
  Proven (not_mounted uuid) w = Unmounted w uuid

  check_resolved-Reverified :
      (w : W) (uuid : Bytes) (o : Option Bytes)
      → resolve_dev host w uuid ≡ o
      → check_resolved host w uuid o ≡ none
      → Reverified w uuid
  unfolding check_resolved Reverified
  check_resolved-Reverified w uuid none e h = cc
  check_resolved-Reverified w uuid (some dev) e h =
      (dev, e, (==_iff (uuid_of host w dev) (some uuid)).0 (passes _ _ h))

  differs : (a b : Bytes) → (a == b) ≡ false → a ≢ b
  differs a b h e = ground (arith, ==_iff a b)

  check_live-differs :
      (w : W) (uuid : Bytes) (o live : Option Bytes)
      → check_live host uuid o live ≡ none
      → (dev : Bytes) × (o ≡ some dev) × (live ≢ some dev)
  unfolding check_live
  check_live-differs w uuid none live h = cc
  check_live-differs w uuid (some dev) none h = (dev, refl, λ e. cc)
  check_live-differs w uuid (some dev) (some live) h = (
    dev,
    refl,
    λ e.
        differs dev live (spares _ _ h)
          (ap (λ (o : Option Bytes). elim o [ none ↦ dev | some d ↦ d ]) (sym e)),
  )

  not_root : (o : Option Bytes) (uuid : Bytes) → (o == some uuid) ≡ false → o ≢ some uuid
  not_root o uuid h e = ground (arith, ==_iff o (some uuid))

  check_one-Proven : (g : Guard) (w w' : W) → check_one host ctx g w ≡ (w', none) → Proven g w
  unfolding check_one check_hook Proven NotLive Unmounted findmnt_missing uuid_is_mounted
  check_one-Proven (path_exists path) w w' h = passes _ _ (ap (λ p. p.1) h)
  check_one-Proven (hook_succeeds hk) w w' h = ok_lem _ (passes _ _ (ap (λ p. p.1) h))
    where
      ok_lem : (s : OpStatus) → is_ok s ≡ true → s ≡ OpStatus.ok
      ok_lem OpStatus.ok e = refl
      ok_lem OpStatus.failed e = cc
      ok_lem OpStatus.skipped e = cc
      ok_lem OpStatus.skipped_blocked e = cc
      ok_lem OpStatus.refused e = cc
      ok_lem OpStatus.dry_run_only e = cc
      ok_lem OpStatus.no_hook e = cc
      ok_lem OpStatus.reboot_required e = cc
      ok_lem OpStatus.incomplete e = cc
  check_one-Proven (uuid_resolves uuid) w w' h =
      check_resolved-Reverified w uuid _ refl (ap (λ p. p.1) h)
  check_one-Proven (not_live_device uuid) w w' h =
      let (a, b) = spares-then _ _ _ (ap (λ p. p.1) h) in
      (not_root _ uuid a, check_live-differs w uuid _ _ b)
  check_one-Proven (not_mounted uuid) w w' h =
      let (a, b) = spares-then _ _ _ (ap (λ p. p.1) h) in
      let (m, n) = neither _ _ (spares _ _ b) in ((not-true _).0 a, m, n)

  -- The guards were checked one after the other, from the first state to the second, and each held
  -- in the state in which it was checked.
  pub data Passed : List Guard → W → W → Type 0 where
    none_left : (w : W) → Passed [] w w
    proven :
        (g : Guard) (gs : List Guard) (w w1 w2 : W)
        → Proven g w
        → check_one host ctx g w ≡ (w1, none)
        → Passed gs w1 w2
        → Passed (g ∷ gs) w w2

  -- Guards that refuse nothing have all held, each in the state in which it was checked.
  pub check_guards-Passed :
      (gs : List Guard) (w w' : W) → check_guards host ctx gs w ≡ (w', none) → Passed gs w w'
  unfolding check_guards check_rest
  check_guards-Passed [] w w' h = rw (ap (λ p. p.0) h) (none_left w')
  check_guards-Passed (g ∷ gs) w w' h =
      after (check_one host ctx g w) refl (λ w1. check_guards-Passed gs w1 w') h
    where
      refusal : (reason : Bytes) → ◌≡◌ {A = Option Bytes} (some reason) none → ⊥
      refusal reason k = cc

      after :
          (r : W × Option Bytes)
          → check_one host ctx g w ≡ r
          → ((w1 : W) → check_guards host ctx gs w1 ≡ (w', none) → Passed gs w1 w')
          → check_rest host (check_guards host ctx gs) r ≡ (w', none)
          → Passed (g ∷ gs) w w'
      after (w1, none) e rest k = proven g gs w w1 w' (check_one-Proven g w w1 e) e (rest w1 k)
      after (w1, some reason) e rest k = absurd (refusal reason (ap (λ p. p.1) k))

  both_none : (a b : Option Bytes) → or_else host a b ≡ none → (a ≡ none) × (b ≡ none)
  unfolding or_else
  both_none none b h = (refl, h)
  both_none (some x) b h = cc

  check_one-state :
      (g : Guard) (w : W)
      → (check_one host ctx g w).1 ≡ none
      → check_one host ctx g w ≡ ((check_one host ctx g w).0, none)
  check_one-state g w h = ap (λ o. ((check_one host ctx g w).0, o)) h

  check_mount-same :
      (path uuid : Bytes) (o : Option Bytes) → check_mount host path uuid o ≡ none → o ≡ some uuid
  unfolding check_mount
  check_mount-same path uuid none h = cc
  check_mount-same path uuid (some f) h = ap some ((==_iff f uuid).0 (passes _ _ h))

  -- A purge target that is not refused exists, its UUID resolves to a device that reports it, the
  -- mount that carries the target reports it too, and neither the UUID nor the device is the one that
  -- is known as the live root's. Where the live root's UUID or its device is not known, nothing is said
  -- of it.
  pub verify_path_uuid-Verified :
      (path uuid : Bytes) (w : W)
      → verify_path_uuid host ctx path uuid w ≡ none
      → (host.exists w (expand_tilde host.home path) ≡ true)
        × Proven (uuid_resolves uuid) w
        × Proven (not_live_device uuid) w
        × (mount_uuid_of host w (expand_tilde host.home path) ≡ some uuid)
  unfolding verify_path_uuid
  verify_path_uuid-Verified path uuid w h =
      let (found, rest) = spares-then _ _ _ h in
      let (a, others) = both_none _ _ rest in
      let (b, c) = both_none _ _ others in
      (
        (not-true _).0 found,
        check_one-Proven (uuid_resolves uuid) w _ (check_one-state (uuid_resolves uuid) w a),
        check_one-Proven (not_live_device uuid) w _ (check_one-state (not_live_device uuid) w b),
        check_mount-same path uuid _ c,
      )
