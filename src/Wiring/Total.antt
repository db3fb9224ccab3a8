-- ===== src/Wiring/Total.antt =====
-- crates/engine/src/wiring.rs: the errors of `apply` and `revert`, which are reported and passed over.
use envctl.Prelude.{◌≡◌, refl, Bool, true, false, Option, none, some, List, [], ◌∷◌, Bytes, codes}
use envctl.Host.{Host}
use envctl.Manifest.{Wiring, ShellRcBlock}
use envctl.Wiring.{path_export_block}
use envctl.Wiring.Machine.{
  Machine, Result, ok, err, Edit, State, continue, ◌>>=◌, ◌>>◌, reporting, report_error, whenever,
  each, each_changed, changed_or,
}
use envctl.Wiring.Apply.{path_block, revert_owned, apply_all}
use envctl.Wiring.ShellRc.{apply_shell_rc, revert_shell_rc}
use envctl.Wiring.System.{
  apply_desktop, revert_desktop, apply_systemd, revert_systemd, apply_cdi, revert_cdi,
  apply_alternative, revert_alternative,
}
use envctl.Wiring.Apt.{
  apply_apt_repo, revert_apt_repo, apply_nix_line, revert_nix_line, restart_nix_daemon,
  apt_get_update,
}

-- An edit that ends without an error wherever it starts.
abbrev pub IsTotal : {W A : Type 0} → Edit W A → Type 0
IsTotal {W} {A} m = (s : State W) → (a : A) × ((m s).1 ≡ ok a)

module _ {W A B : Type 0} where
  pub continue-ok :
      (r : Result A) (a : A) (k : A → Edit W B) (s : State W) → r ≡ ok a → continue r k s ≡ k a s
  continue-ok r a k s e = rw e refl

  bind-IsTotal :
      (m : Edit W A) (k : A → Edit W B) → IsTotal m → ((a : A) → IsTotal (k a)) → IsTotal (m >>= k)
  bind-IsTotal m k t u s =
      let (a, e) = t s in let (b, f) = u a (m s).0 in (b, rw (continue-ok (m s).1 a k (m s).0 e) f)

module _ {W : Type 0} where
  report_error-ok :
      (kind : Bytes) (p : State W × Result (Unit {0})) → (report_error kind p).1 ≡ ok tt
  report_error-ok kind (s, ok u) = refl
  report_error-ok kind (s, err e) = refl

  pub reporting-IsTotal : (kind : Bytes) (m : Edit W (Unit {0})) → IsTotal (reporting kind m)
  reporting-IsTotal kind m s = (tt, report_error-ok kind (m s))

  whenever-IsTotal : (b : Bool) (m : Edit W (Unit {0})) → IsTotal m → IsTotal (whenever b m)
  whenever-IsTotal true m t s = t s
  whenever-IsTotal false m t s = (tt, refl)

  changed_or-ok :
      (kind : Bytes) (dirty counts : Bool) (p : State W × Result Bool)
      → (d : Bool) × ((changed_or kind dirty counts p).1 ≡ ok d)
  changed_or-ok kind dirty counts (s, ok changed) = (_, refl)
  changed_or-ok kind dirty counts (s, err e) = (dirty, refl)

module _ {W A : Type 0} where
  pub each-IsTotal :
      (f : A → Edit W (Unit {0})) (xs : List A) → ((a : A) → IsTotal (f a)) → IsTotal (each f xs)
  each-IsTotal f [] t s = (tt, refl)
  each-IsTotal f (a ∷ xs) t s =
      bind-IsTotal (f a) (λ u. each f xs) (t a) (λ u. each-IsTotal f xs t) s

  each_changed-IsTotal :
      (kind : Bytes) (counts : A → Bool) (f : A → Edit W Bool) (dirty : Bool) (xs : List A)
      → IsTotal (each_changed kind counts f dirty xs)
  each_changed-IsTotal kind counts f dirty [] s = (dirty, refl)
  each_changed-IsTotal kind counts f dirty (a ∷ xs) s =
      bind-IsTotal (λ s. changed_or kind dirty (counts a) (f a s))
        (λ d. each_changed kind counts f d xs) (λ s. changed_or-ok kind dirty (counts a) (f a s))
        (λ d. each_changed-IsTotal kind counts f d xs) s

module _ {W : Type 0} where
  -- The kinds of wiring, one after the other.
  kinds-IsTotal :
      (paths rc desktop units : Edit W (Unit {0})) (apt : Edit W Bool)
      (update : Bool → Edit W (Unit {0})) (nix : Edit W Bool) (restart : Bool → Edit W (Unit {0}))
      (cdi alternatives : Edit W (Unit {0}))
      → IsTotal paths
      → IsTotal rc
      → IsTotal desktop
      → IsTotal units
      → IsTotal apt
      → ((b : Bool) → IsTotal (update b))
      → IsTotal nix
      → ((b : Bool) → IsTotal (restart b))
      → IsTotal cdi
      → IsTotal alternatives
      → IsTotal
          (do paths; rc; desktop; units; d ← apt; update d; t ← nix; restart t; cdi; alternatives)
  kinds-IsTotal a b c d e f g h i j ta tb tc td te tf tg th ti tj =
      let rest9 = i >> j in
      let t9 : IsTotal rest9 = bind-IsTotal i (λ _. j) ti (λ _. tj) in
      let rest8 = λ (y : Bool). h y >> rest9 in
      let rest7 = g >>= rest8 in
      let t7 : IsTotal rest7 =
        bind-IsTotal g rest8 tg (λ y. bind-IsTotal (h y) (λ _. rest9) (th y) (λ _. t9)) in
      let rest6 = λ (x : Bool). f x >> rest7 in
      let rest5 = e >>= rest6 in
      let t5 : IsTotal rest5 =
        bind-IsTotal e rest6 te (λ x. bind-IsTotal (f x) (λ _. rest7) (tf x) (λ _. t7)) in
      let rest4 = d >> rest5 in
      let t4 : IsTotal rest4 = bind-IsTotal d (λ _. rest5) td (λ _. t5) in
      let rest3 = c >> rest4 in
      let t3 : IsTotal rest3 = bind-IsTotal c (λ _. rest4) tc (λ _. t4) in
      let rest2 = b >> rest3 in
      let t2 : IsTotal rest2 = bind-IsTotal b (λ _. rest3) tb (λ _. t3) in
      bind-IsTotal a (λ _. rest2) ta (λ _. t2)

module _ {W : Type 0} (host : Host W) (m : Machine W) where
  path_block-IsTotal :
      (f : ShellRcBlock → Edit W (Unit {0})) (o : Option ShellRcBlock)
      → IsTotal (path_block host m f o)
  path_block-IsTotal f none s = (tt, refl)
  path_block-IsTotal f (some blk) s = reporting-IsTotal (codes "path_entries") (f blk) s

  each-reporting-IsTotal :
      {A : Type 0} (kind : Bytes) (f : A → Edit W (Unit {0})) (xs : List A)
      → IsTotal (each (λ a. reporting kind (f a)) xs)
  each-reporting-IsTotal kind f xs = each-IsTotal _ xs (λ a. reporting-IsTotal kind (f a))

  update-IsTotal : (b : Bool) → IsTotal (whenever b (apt_get_update host m))
  unfolding apt_get_update
  update-IsTotal b = whenever-IsTotal b _ (λ s. (tt, refl))

  restart-IsTotal : (b : Bool) → IsTotal (whenever b (restart_nix_daemon host m))
  unfolding restart_nix_daemon
  restart-IsTotal b = whenever-IsTotal b _ (λ s. (tt, refl))

  pub revert_owned-IsTotal : (w : Wiring) → IsTotal (revert_owned host m w)
  unfolding revert_owned
  revert_owned-IsTotal w =
      kinds-IsTotal (path_block host m (revert_shell_rc host m) (path_export_block w))
        (each (λ blk. reporting (codes "shell_rc") (revert_shell_rc host m blk)) w.shell_rc)
        (each (λ d. reporting (codes "desktop_entry") (revert_desktop host m d)) w.desktop_entries)
        (each (λ u. reporting (codes "systemd_user") (revert_systemd host m u)) w.systemd_user)
        (each_changed (codes "apt_repo") (λ r. r.apt_update) (revert_apt_repo host m) false
          w.apt_repos)
        (λ d. whenever d (apt_get_update host m))
        (each_changed (codes "nix_conf_line") (λ l. true) (revert_nix_line host m) false
          w.nix_conf_lines)
        (λ t. whenever t (restart_nix_daemon host m))
        (each (λ c. reporting (codes "cdi_spec") (revert_cdi host m c)) w.cdi_specs)
        (each (λ a. reporting (codes "alternative") (revert_alternative host m a)) w.alternatives)
        (path_block-IsTotal (revert_shell_rc host m) (path_export_block w))
        (each-reporting-IsTotal _ _ w.shell_rc) (each-reporting-IsTotal _ _ w.desktop_entries)
        (each-reporting-IsTotal _ _ w.systemd_user) (each_changed-IsTotal _ _ _ false w.apt_repos)
        update-IsTotal (each_changed-IsTotal _ _ _ false w.nix_conf_lines) restart-IsTotal
        (each-reporting-IsTotal _ _ w.cdi_specs) (each-reporting-IsTotal _ _ w.alternatives)

  pub apply_all-IsTotal : (w : Wiring) → IsTotal (apply_all host m w)
  unfolding apply_all
  apply_all-IsTotal w =
      kinds-IsTotal (path_block host m (apply_shell_rc host m) (path_export_block w))
        (each (λ blk. reporting (codes "shell_rc") (apply_shell_rc host m blk)) w.shell_rc)
        (each (λ d. reporting (codes "desktop_entry") (apply_desktop host m d)) w.desktop_entries)
        (each (λ u. reporting (codes "systemd_user") (apply_systemd host m u)) w.systemd_user)
        (each_changed (codes "apt_repo") (λ r. r.apt_update) (apply_apt_repo host m) false
          w.apt_repos)
        (λ d. whenever d (apt_get_update host m))
        (each_changed (codes "nix_conf_line") (λ l. true) (apply_nix_line host m) false
          w.nix_conf_lines)
        (λ t. whenever t (restart_nix_daemon host m))
        (each (λ c. reporting (codes "cdi_spec") (apply_cdi host m c)) w.cdi_specs)
        (each (λ a. reporting (codes "alternative") (apply_alternative host m a)) w.alternatives)
        (path_block-IsTotal (apply_shell_rc host m) (path_export_block w))
        (each-reporting-IsTotal _ _ w.shell_rc) (each-reporting-IsTotal _ _ w.desktop_entries)
        (each-reporting-IsTotal _ _ w.systemd_user) (each_changed-IsTotal _ _ _ false w.apt_repos)
        update-IsTotal (each_changed-IsTotal _ _ _ false w.nix_conf_lines) restart-IsTotal
        (each-reporting-IsTotal _ _ w.cdi_specs) (each-reporting-IsTotal _ _ w.alternatives)
