-- ===== src/Registry/Prereq.antt =====
-- `is_prereq_of` of crates/engine/src/model.rs against the requirements.
use mathlib.Core.List.{append_assoc, append-nil}
use envctl.Prelude.{
  ℕ, zero, suc, ◌+◌, ◌≤◌, ◌≡◌, ◌⊎◌, inl, inr, refl, sym, ap, ◌∙◌, Bool, true, false, Option, none,
  some, List, [], ◌∷◌, ◌++◌, arith, if◌then◌else◌, Bytes, length, any, AllOf, AnyOf, ==_refl,
  ==_iff, ◌==◌, List_eq, ℕ_eq, Bool-cases,
}
use envctl.Sets.{elem}
use envctl.Sets.Counting.{AllOf-append, AllOf-map, AllOf-elem}
use envctl.Manifest.{Component}
use envctl.Registry.{find_component, any_returns, is_prereq_of, prereq_found}
use envctl.Registry.Round.{RequiresFirst}

-- `cand` is required by `target`, directly or through others.
pub data IsPrereq (cs : List Component) (cand : Bytes) : Bytes → Type 0 where
  direct :
      (target : Bytes) (t : Component)
      → find_component cs target ≡ some t
      → elem cand t.requires ≡ true
      → IsPrereq cs cand target
  via :
      (target : Bytes) (t : Component) (d : Bytes)
      → find_component cs target ≡ some t
      → elem d t.requires ≡ true
      → IsPrereq cs cand d
      → IsPrereq cs cand target

pub find_component-id :
    (cs : List Component) (id : Bytes) (c : Component) → find_component cs id ≡ some c → c.id ≡ id
unfolding find_component
find_component-id [] id c h = cc
find_component-id (x ∷ cs) id c h = ground (arith, find_component-id cs id c, ==_iff x.id id)

-- A statement on all components holds of the one that is found.
AllOf-find :
    (P : Component → Type 0) (cs : List Component) (id : Bytes) (c : Component)
    → find_component cs id ≡ some c
    → AllOf P cs
    → P c
unfolding find_component
AllOf-find P [] id c h p = cc
AllOf-find P (x ∷ cs) id c h p = elim (Bool-cases (x.id == id)) [
  | inl e ↦ let same = (rw e at h) in found same
  | inr e ↦ AllOf-find P cs id c (rw e at h) p.1
]
  where
    found : ◌≡◌ {A = Option Component} (some x) (some c) → P c
    found same =
        let e : x ≡ c = ap (λ (o : Option Component). elim o [ none ↦ x | some y ↦ y ]) same in
        rw (← e) p.0

-- A test that returns, and decides `P`.
abbrev pub Decides : Option Bool → Type 0 → Type 0
Decides none P = ⊥
Decides (some true) P = P
Decides (some false) P = ¬ P

pub Decides-map : (o : Option Bool) (P Q : Type 0) → (P → Q) → (Q → P) → Decides o P → Decides o Q
Decides-map none P Q f g h = h
Decides-map (some true) P Q f g h = f h
Decides-map (some false) P Q f g h = λ q. h (g q)

any_returns-Decides :
    (f : Bytes → Option Bool) (P : Bytes → Type 0) (ds : List Bytes)
    → AllOf (λ d. Decides (f d) (P d)) ds
    → Decides (any_returns f ds) (AnyOf P ds)
unfolding any_returns
any_returns-Decides f P [] h = λ q. q
any_returns-Decides f P (d ∷ ds) h = step (f d) h.0 (any_returns-Decides f P ds h.1)
  where
    step :
        (o : Option Bool)
        → Decides o (P d)
        → Decides (any_returns f ds) (AnyOf P ds)
        → Decides
            (elim o [ none ↦ none | some true ↦ some true | some false ↦ any_returns f ds ])
            (P d ⊎ AnyOf P ds)
    step none p r = p
    step (some true) p r = inl p
    step (some false) p r =
        Decides-map (any_returns f ds) (AnyOf P ds) (P d ⊎ AnyOf P ds) inr
          (λ q. elim q [ inl x ↦ absurd (p x) | inr x ↦ x ]) r

AnyOf-elem :
    (P : Bytes → Type 0) (d : Bytes) (ds : List Bytes) → elem d ds ≡ true → P d → AnyOf P ds
AnyOf-elem P d [] e p = cc
AnyOf-elem P d (x ∷ ds) e p = elim (Bool-cases (x == d)) [
  | inl same ↦ inl (rw (← (==_iff x d).0 same) at p)
  | inr other ↦ inr (AnyOf-elem P d ds (ground arith) p)
]

elem-AnyOf :
    (P Q : Bytes → Type 0) (ds : List Bytes) (R : Type 0)
    → ((d : Bytes) → elem d ds ≡ true → P d → R)
    → AnyOf P ds
    → R
elem-AnyOf P Q [] R f h = elim h [ ]
elem-AnyOf P Q (d ∷ ds) R f (inl h) = f d (ground (arith, ==_refl d)) h
elem-AnyOf P Q (d ∷ ds) R f (inr h) = elem-AnyOf P Q ds R (λ x e p. f x (ground arith) p) h

same_component : {t u : Component} → ◌≡◌ {A = Option Component} (some t) (some u) → t ≡ u
same_component {t} {u} e = ap (λ (o : Option Component). elim o [ none ↦ t | some y ↦ y ]) e

no_component : {t : Component} → ◌≡◌ {A = Option Component} none (some t) → ⊥
no_component e = cc

clash : {a b : Bool} → a ≡ b → a ≡ true → b ≡ false → ⊥
clash e t f = cc

-- The body of `is_prereq_of`, for a component whose requirements are decided.
required_lem :
    (cs : List Component) (cand target : Bytes) (t : Component) (f : Bytes → Option Bool)
    → find_component cs target ≡ some t
    → AllOf (λ d. Decides (f d) (IsPrereq cs cand d)) t.requires
    → Decides
        (if any (λ d. d == cand) t.requires then some true else any_returns f t.requires)
        (IsPrereq cs cand target)
required_lem cs cand target t f e h = elim (Bool-cases (elem cand t.requires)) [
  | inl now ↦ rw (now) (direct target t e now)
  | inr later ↦ rw (later) (
      Decides-map (any_returns f t.requires) (AnyOf (IsPrereq cs cand) t.requires)
        (IsPrereq cs cand target)
        (elem-AnyOf (IsPrereq cs cand) (IsPrereq cs cand) t.requires _
          (λ d r p. via target t d e r p))
        (λ p. back p e later) (any_returns-Decides f (IsPrereq cs cand) t.requires h))
]
  where
    back :
        {x : Bytes}
        → IsPrereq cs cand x
        → find_component cs x ≡ some t
        → elem cand t.requires ≡ false
        → AnyOf (IsPrereq cs cand) t.requires
    back (direct x u e' r) ex later = absurd (
        clash (ap (λ (c : Component). elem cand c.requires) (same_component (sym e' ∙ ex))) r later)
    back (via x u d e' r p) ex later =
        AnyOf-elem (IsPrereq cs cand) d t.requires
          (sym (ap (λ (c : Component). elem d c.requires) (same_component (sym e' ∙ ex))) ∙ r) p

module _ (cs : List Component) (cand : Bytes) where
  -- Fuel `k` is enough for the target `t`.
  unfoldable pub Ends : ℕ → Bytes → Type 0
  Ends k t = (fuel : ℕ) → k ≤ fuel → Decides (is_prereq_of fuel cs cand t) (IsPrereq cs cand t)

  absent_lem : (t : Bytes) → find_component cs t ≡ none → IsPrereq cs cand t → ⊥
  absent_lem t e (direct x u e' r) = no_component (sym e ∙ e')
  absent_lem t e (via x u d e' r p) = no_component (sym e ∙ e')

  Ends-step :
      (done : List Bytes) (n : Bytes) (k : ℕ)
      → AllOf (Ends k) done
      → AllOf (λ c. c.id ≡ n → AllOf (λ d. elem d done ≡ true) c.requires) cs
      → Ends (suc k) n
  unfolding is_prereq_of Ends
  Ends-step done n k h r zero l = absurd (omega arith)
  Ends-step done n k h r (suc fuel) l = found (find_component cs n) refl
    where
      found :
          (o : Option Component)
          → find_component cs n ≡ o
          → Decides (prereq_found (is_prereq_of fuel cs cand) cand o) (IsPrereq cs cand n)
      found none e = unfold prereq_found in absent_lem n e
      found (some t) e =
          unfold prereq_found in
          required_lem cs cand n t (is_prereq_of fuel cs cand) e (
            AllOf-map _ _ t.requires (λ d i. AllOf-elem (Ends k) d done i h fuel (omega arith))
              (AllOf-find _ cs n t e r (find_component-id cs n t e)))

  pub Ends-order :
      (done order : List Bytes) (k : ℕ)
      → AllOf (Ends k) done
      → RequiresFirst cs done order
      → AllOf (Ends (k + length order)) (done ++ order)
  unfolding RequiresFirst Ends
  Ends-order done [] k h r =
      rw (append-nil done) (AllOf-map _ _ done (λ t e fuel l. e fuel (omega arith)) h)
  Ends-order done (n ∷ order) k h r =
      let ih =
        Ends-order (done ++ n ∷ []) order (suc k)
          (AllOf-append _ done (n ∷ []) (AllOf-map _ _ done (λ t e fuel l. e fuel (omega arith)) h)
            (Ends-step done n k h r.0, tt))
          r.1 in
      AllOf-map _ _ (done ++ n ∷ order) (λ t e fuel l. e fuel (omega arith))
        (rw (append_assoc done (n ∷ []) order) at ih)
