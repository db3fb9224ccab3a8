-- ===== src/Wiring/Purge.antt =====
-- crates/engine/src/wiring.rs: what `revert` does to configuration and data.
use mathlib.Core.Path.{subst}
use envctl.Prelude.{
  ◌≡◌, ◌⊎◌, inl, inr, refl, sym, ap, ◌∙◌, Bool, true, false, Option, none, some, List, [], ◌∷◌,
  ◌++◌, if◌then◌else◌, Bytes, codes,
}
use envctl.Host.{Host, RunContext, ResetGates, expand_tilde}
use envctl.Manifest.{DataPath, Wiring}
use envctl.Guard.{verify_path_uuid}
use envctl.Wiring.Machine.{
  Machine, Result, ok, err, Edit, State, ◌>>◌, file_op, note, fail, whenever, each,
}
use envctl.Wiring.Total.{IsTotal, continue-ok, revert_owned-IsTotal, each-IsTotal}
use envctl.Wiring.Apply.{
  fresh, revert_owned, trashed, move_to, remove_config, purge_verified, purge_uuid, purge_data,
  revert_all, revert,
}

-- One change of the machine for each path, in the list's order.
pub data Chain {W : Type 0} (R : DataPath → W → W → Type 0) : List DataPath → W → W → Type 0 where
  done : {w : W} → Chain R [] w w
  next :
      {d : DataPath} {ds : List DataPath} {w w' w'' : W}
      → R d w w'
      → Chain R ds w' w''
      → Chain R (d ∷ ds) w w''

module _ {W : Type 0} (R : DataPath → W → W → Type 0) where
  each-Chain :
      (f : DataPath → Edit W (Unit {0})) (xs : List DataPath)
      → ((a : DataPath) → IsTotal (f a))
      → ((a : DataPath) (s : State W) → R a s.world (f a s).0.world)
      → (s : State W) → Chain R xs s.world (each f xs s).0.world
  each-Chain f [] t r s = done
  each-Chain f (a ∷ xs) t r s =
      let e = (t a s).1 in
      let at = continue-ok (f a s).1 tt (λ u. each f xs) (f a s).0 e in
      next (r a s) (rw at (each-Chain f xs t r (f a s).0))

module _ {W : Type 0} (host : Host W) (m : Machine W) where
  -- A path that was there and not to be kept was renamed, and for no other path a change was made.
  abbrev pub ConfigStep : ResetGates → DataPath → W → W → Type 0
  ConfigStep gates d w w' =
      let p = expand_tilde host.home d.path in
      (((gates.keep_config ≡ true) ⊎ (host.exists w p ≡ false)) × (w' ≡ w))
      ⊎ ((gates.keep_config ≡ false)
          × (host.exists w p ≡ true)
          × (w' ≡ (m.rename p (p ++ (codes ".bak." ++ m.now_epoch w)) w).0))

  -- A gate of the purge that keeps the path where it is.
  abbrev pub IsHeld : ResetGates → RunContext → DataPath → W → Type 0
  IsHeld gates ctx d w =
      (gates.purge ≡ false)
      ⊎ (d.uuid ≡ none)
      ⊎ ((uuid : Bytes) × (d.uuid ≡ some uuid)
          × ((reason : Bytes) × (verify_path_uuid host ctx d.path uuid w ≡ some reason)))
      ⊎ (m.is_symlink w (expand_tilde host.home d.path) ≡ true)

  -- A gate held the path, and the machine is as it was, or every gate of the purge was passed and the
  -- path was renamed.
  abbrev pub PurgeStep : ResetGates → RunContext → DataPath → W → W → Type 0
  PurgeStep gates ctx d w w' =
      let p = expand_tilde host.home d.path in
      (IsHeld gates ctx d w × (w' ≡ w))
      ⊎ ((uuid : Bytes) × (gates.purge ≡ true)
          × (d.uuid ≡ some uuid)
          × (verify_path_uuid host ctx d.path uuid w ≡ none)
          × (m.is_symlink w p ≡ false)
          × (w' ≡ (m.rename p (p ++ (codes ".envctl-trash." ++ m.now_epoch w)) w).0))

  trashed-world :
      (kind text trash : Bytes) (p : State W × Result (Unit {0}))
      → ((trashed host m kind text trash p).0.world ≡ p.0.world)
        × ((trashed host m kind text trash p).1 ≡ ok tt)
  trashed-world kind text trash (s, ok u) = (refl, refl)
  trashed-world kind text trash (s, err e) = (refl, refl)

  move_to-world :
      (kind text path trash : Bytes) (s : State W)
      → ((move_to host m kind text path trash s).0.world ≡ (m.rename path trash s.world).0)
        × ((move_to host m kind text path trash s).1 ≡ ok tt)
  move_to-world kind text path trash s =
      trashed-world kind text trash (file_op (m.rename path trash) s)

  module _ (gates : ResetGates) where
    remove_config-step :
        (d : DataPath) (s : State W)
        → ConfigStep gates d s.world (remove_config host m gates d s).0.world
          × ((remove_config host m gates d s).1 ≡ ok tt)
    unfolding remove_config
    remove_config-step d s =
        by_gates gates.keep_config refl (host.exists s.world (expand_tilde host.home d.path)) refl
      where
        path : Bytes
        path = expand_tilde host.home d.path

        act : Bool → Bool → Edit W (Unit {0})
        act keep exists =
            if keep
            then note (codes "kept config " ++ (d.path ++ codes " (--keep-config)"))
            else whenever exists (
                move_to host m (codes "config_path") (codes "removed config " ++ d.path) path
                  (path ++ (codes ".bak." ++ m.now_epoch s.world)))

        by_gates :
            (keep : Bool)
            → gates.keep_config ≡ keep
            → (exists : Bool) → host.exists s.world path ≡ exists
            → ConfigStep gates d s.world (act keep exists s).0.world
              × ((act keep exists s).1 ≡ ok tt)
        by_gates true k exists e = (inl (inl k, refl), refl)
        by_gates false k true e =
            let (w, r) =
              move_to-world (codes "config_path") (codes "removed config " ++ d.path) path
                (path ++ (codes ".bak." ++ m.now_epoch s.world)) s in
            (inr (k, e, w), r)
        by_gates false k false e = (inl (inr e, refl), refl)

    module _ (ctx : RunContext) where
      purge_data-step :
          (d : DataPath) (s : State W)
          → PurgeStep gates ctx d s.world (purge_data host m gates ctx d s).0.world
            × ((purge_data host m gates ctx d s).1 ≡ ok tt)
      unfolding purge_data purge_uuid purge_verified
      purge_data-step d s = by_purge gates.purge refl
        where
          path : Bytes
          path = expand_tilde host.home d.path

          Stepped : State W × Result (Unit {0}) → Type 0
          Stepped p = PurgeStep gates ctx d s.world p.0.world × (p.1 ≡ ok tt)

          trash : Bytes
          trash = path ++ (codes ".envctl-trash." ++ m.now_epoch s.world)

          by_link :
              (uuid : Bytes)
              → gates.purge ≡ true
              → d.uuid ≡ some uuid
              → verify_path_uuid host ctx d.path uuid s.world ≡ none
              → (link : Bool) → m.is_symlink s.world path ≡ link
              → Stepped (
                  (if link
                      then fail
                          (codes "data_path")
                          (codes "refusing to purge " ++ (d.path ++ codes ": it is a symlink"))
                      else move_to host m
                          (codes "data_path")
                          (codes "purged " ++ d.path)
                          path
                          trash)
                    s)
          by_link uuid p u v true l = (inl (inr (inr (inr l)), refl), refl)
          by_link uuid p u v false l =
              let (w, r) =
                move_to-world (codes "data_path") (codes "purged " ++ d.path) path trash s in
              (inr (uuid, p, u, v, l, w), r)

          by_reason :
              (uuid : Bytes)
              → gates.purge ≡ true
              → d.uuid ≡ some uuid
              → (o : Option Bytes) → verify_path_uuid host ctx d.path uuid s.world ≡ o
              → Stepped (purge_verified host m d o s)
          by_reason uuid p u (some reason) v =
              (inl (inr (inr (inl (uuid, u, (reason, v)))), refl), refl)
          by_reason uuid p u none v = by_link uuid p u v (m.is_symlink s.world path) refl

          by_uuid :
              gates.purge ≡ true
              → (o : Option Bytes) → d.uuid ≡ o
              → Stepped (purge_uuid host m ctx d o s)
          by_uuid p none u = (inl (inr (inl u), refl), refl)
          by_uuid p (some uuid) u =
              by_reason uuid p u (verify_path_uuid host ctx d.path uuid s.world) refl

          by_purge :
              (b : Bool)
              → gates.purge ≡ b
              → Stepped (
                  (if b
                      then purge_uuid host m ctx d d.uuid
                      else note
                          (codes "left user data intact (would purge with --purge): " ++ d.path))
                    s)
          by_purge true p = by_uuid p d.uuid refl
          by_purge false p = (inl (inl p, refl), refl)

      -- On any machine, and whatever fails, what revert does after the wiring's own edits is one step for
      -- each configuration path and then one for each data path, in their order, none left out. The
      -- rename to the trash is called for a configuration path exactly when it exists and --keep-config
      -- is off, and for a data path exactly when --purge is on, a UUID is declared, verify_path_uuid
      -- refuses nothing in that state, and the path is no symlink. Every other step changes nothing.
      pub revert-Gated :
          (w : Wiring) (world : W)
          → (after : W) × Chain
              (ConfigStep gates)
              w.config_paths
              (revert_owned host m w (fresh host m world)).0.world
              after
            × Chain (PurgeStep gates ctx) w.data_paths after (revert host m w gates ctx world).0
      unfolding revert revert_all
      revert-Gated w world =
          let s = fresh host m world in
          let owned = revert_owned host m w in
          let configs = each (remove_config host m gates) w.config_paths in
          let purges = each (purge_data host m gates ctx) w.data_paths in
          let config_total : (d : DataPath) → IsTotal (remove_config host m gates d) =
            λ d t. (tt, (remove_config-step d t).1) in
          let purge_total : (d : DataPath) → IsTotal (purge_data host m gates ctx d) =
            λ d t. (tt, (purge_data-step d t).1) in
          let s1 = (owned s).0 in
          let s2 = (configs s1).0 in
          let after_owned =
            continue-ok (owned s).1 tt (λ _. configs >> purges) s1
              (revert_owned-IsTotal host m w s).1 in
          let after_configs =
            continue-ok (configs s1).1 tt (λ _. purges) s2
              (each-IsTotal (remove_config host m gates) w.config_paths config_total s1).1 in
          let reached : revert_all host m w gates ctx s ≡ purges s2 = after_owned ∙ after_configs in
          let same : (purges s2).0.world ≡ (revert host m w gates ctx world).0 =
            ap (λ (p : State W × Result (Unit {0})). p.0.world) (sym reached) in
          (
            s2.world,
            each-Chain (ConfigStep gates) (remove_config host m gates) w.config_paths config_total
                (λ d t. (remove_config-step d t).0) s1,
            subst (λ (x : W). Chain (PurgeStep gates ctx) w.data_paths s2.world x) same
                (each-Chain (PurgeStep gates ctx) (purge_data host m gates ctx) w.data_paths
                  purge_total (λ d t. (purge_data-step d t).0) s2),
          )
