-- ===== src/Executor/Within.antt =====
-- What holds of all components of a selection.
use envctl.Prelude.{
  ◌≡◌, refl, Bool, true, false, not, Option, none, some, List, [], ◌∷◌, arith, if◌then◌else◌, Bytes,
  AllOf, ==_refl, List_eq, ℕ_eq, Bool-cases, inl, inr,
}
use envctl.Sets.{elem}
use envctl.Sets.Counting.{AllOf-append, AllOf-map, AllOf-elem}
use envctl.Manifest.{Component}
use envctl.Registry.{find_component}
use envctl.Registry.Prereq.{find_component-id}
use envctl.Executor.Select.{look_up, keep_elem, reversed, surviving, Probed}

-- A property of the ids of a list of components.
abbrev pub Within : (Bytes → Type 0) → List Component → Type 0
Within P cs = AllOf (λ (c : Component). P c.id) cs

pub keep_elem-Within :
    (P : Bytes → Type 0) (set : List Bytes) (cs : List Component)
    → AllOf P set
    → Within P (keep_elem set cs)
unfolding keep_elem
keep_elem-Within P set [] h = tt
keep_elem-Within P set (c ∷ cs) h = elim (Bool-cases (elem c.id set)) [
  | inl e ↦ rw (e) (AllOf-elem P c.id set e h, keep_elem-Within P set cs h)
  | inr e ↦ rw (e) (keep_elem-Within P set cs h)
]

pub reversed-Within :
    (P : Bytes → Type 0) (cs : List Component) → Within P cs → Within P (reversed cs)
unfolding reversed
reversed-Within P [] h = tt
reversed-Within P (c ∷ cs) h =
    AllOf-append _ (reversed cs) (c ∷ []) (reversed-Within P cs h.1) (h.0, tt)

pub surviving-all :
    (P : Bytes → Type 0) (refuse ts : List Bytes) → AllOf P ts → AllOf P (surviving refuse ts)
unfolding surviving
surviving-all P refuse [] h = tt
surviving-all P refuse (t ∷ ts) h = elim (Bool-cases (not (elem t refuse))) [
  | inl e ↦ rw (e) (h.0, surviving-all P refuse ts h.1)
  | inr e ↦ rw (e) (surviving-all P refuse ts h.1)
]

pub elem-all : (ts : List Bytes) → AllOf (λ t. elem t ts ≡ true) ts
elem-all [] = tt
elem-all (t ∷ ts) =
    (ground (arith, ==_refl t), AllOf-map _ _ ts (λ x e. ground (arith, e)) (elem-all ts))

pub look_up-Within :
    (P : Bytes → Type 0) (cs : List Component) (is : List Bytes)
    → AllOf P is
    → Within P (look_up cs is)
unfolding look_up
look_up-Within P cs [] h = tt
look_up-Within P cs (i ∷ is) h = looked (find_component cs i) refl (look_up-Within P cs is h.1)
  where
    looked :
        (o : Option Component)
        → find_component cs i ≡ o
        → Within P (look_up cs is)
        → Within P (elim o [ none ↦ look_up cs is | some c ↦ c ∷ look_up cs is ])
    looked none e r = r
    looked (some c) e r = (rw (find_component-id cs i c e) h.0, r)

pub fold_either :
    {W : Type 0} (Q : List Bytes → Type 0) (b k : Bool) (x y z : Probed W)
    → (k ≡ true → Q x.fold)
    → Q y.fold
    → Q z.fold
    → Q (if b then if k then x else y else z).fold
fold_either Q true true x y z p q r = p refl
fold_either Q true false x y z p q r = q
fold_either Q false k x y z p q r = r
