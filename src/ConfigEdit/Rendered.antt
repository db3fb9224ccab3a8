-- ===== src/ConfigEdit/Rendered.antt =====
-- crates/agent-env/src/config_edit.rs: the lines of `render_item`, read back.
use envctl.Prelude.{
  ℕ, zero, suc, ◌+◌, ◌≡◌, ◌⊎◌, inl, inr, refl, ap, ◌∙◌, true, false, ◌||◌, Option, none, some, List,
  [], ◌∷◌, ◌++◌, arith, Bool-cases, Bytes, codes, AllOf, is_empty, ◌==◌, List_eq, ℕ_eq,
}
use envctl.Text.{starts_with, strip_prefix}
use envctl.Host.{trim_start, is_space}
use envctl.Slices.{find}
use envctl.ConfigEdit.Lines.{
  is_dash, indent_of, is_top_level_key, field_kv, split_field, after_dash, colon,
}
use envctl.ConfigEdit.{
  Section, skills, mcps, commands, section_key, Pin, reference, branch, unpinned, Selector,
  wildcard, names, SourceItem, spaces, pin_lines, sub_dir_lines, name_lines, selector_lines,
  render_item, is_floating,
}
use envctl.ConfigEdit.Block.{IsDeeper}

trim_start-spaces : (n : ℕ) (s : Bytes) → trim_start (spaces n ++ s) ≡ trim_start s
unfolding spaces trim_start is_space
trim_start-spaces zero s = refl
trim_start-spaces (suc n) s = trim_start-spaces n s

indent_of-spaces : (n : ℕ) (s : Bytes) → indent_of (spaces n ++ s) ≡ n + indent_of s
unfolding spaces indent_of
indent_of-spaces zero s = omega arith
indent_of-spaces (suc n) s = omega (arith, indent_of-spaces n s)

-- `field_kv` behind its first `trim_start`.
abbrev pub field_of : Bytes → Option (Bytes × Bytes)
field_of t = elim (after_dash t (strip_prefix (codes "- ") t)) [
  | none ↦ none
  | some u ↦ split_field u (find u colon)
]

pub field_kv-spaces : (n : ℕ) (s : Bytes) → field_kv (spaces n ++ s) ≡ field_kv s
unfolding field_kv
field_kv-spaces n s = ap field_of (trim_start-spaces n s)

is_dash-spaces : (n : ℕ) (s : Bytes) → is_dash (spaces n ++ s) ≡ is_dash s
unfolding is_dash
is_dash-spaces n s = rw (trim_start-spaces n s) refl

top_level-spaces : (n : ℕ) (s : Bytes) → is_top_level_key (spaces (n + 2) ++ s) ≡ none
unfolding is_top_level_key spaces
top_level-spaces n s = ap (λ k. is_top_level_key (spaces k ++ s)) two_more
  where
    two_more : n + 2 ≡ suc (n + 1)
    two_more = omega arith

-- A line of the block behind its first.
pub record IsInner (n : ℕ) (line : Bytes) : Type 0 where
  pub deeper : IsDeeper n line
  pub inner : is_top_level_key line ≡ none

field-IsInner : (n : ℕ) (s : Bytes) → is_dash s ≡ false → IsInner n (spaces (n + 2) ++ s)
field-IsInner n s d = record {
  deeper = inl (is_dash-spaces (n + 2) s ∙ d);
  inner = top_level-spaces n s;
}

name-IsInner : (n : ℕ) (s : Bytes) → IsInner n (spaces (n + 2) ++ (codes "  - " ++ s))
unfolding indent_of
name-IsInner n s = record {
  deeper = inr (omega (arith, indent_of-spaces (n + 2) (codes "  - " ++ s)));
  inner = top_level-spaces n (codes "  - " ++ s);
}

pub AllOf-append :
    (P : Bytes → Type 0) (xs ys : List Bytes) → AllOf P xs → AllOf P ys → AllOf P (xs ++ ys)
AllOf-append P [] ys a b = b
AllOf-append P (x ∷ xs) ys (p, a) b = (p, AllOf-append P xs ys a b)

pin_lines-IsInner : (n : ℕ) (p : Pin) → AllOf (IsInner n) (pin_lines (spaces (n + 2)) p)
unfolding is_dash trim_start is_space starts_with strip_prefix
pin_lines-IsInner n (reference r) = (field-IsInner n (codes "ref: " ++ r) refl, tt)
pin_lines-IsInner n (branch b) = (field-IsInner n (codes "branch: " ++ b) refl, tt)
pin_lines-IsInner n unpinned = tt

sub_dir_lines-IsInner :
    (n : ℕ) (o : Option Bytes) → AllOf (IsInner n) (sub_dir_lines (spaces (n + 2)) o)
unfolding is_dash trim_start is_space starts_with strip_prefix
sub_dir_lines-IsInner n none = tt
sub_dir_lines-IsInner n (some sub) = (field-IsInner n (codes "sub-dir: " ++ sub) refl, tt)

name_lines-IsInner : (n : ℕ) (ns : List Bytes) → AllOf (IsInner n) (name_lines (spaces (n + 2)) ns)
name_lines-IsInner n [] = tt
name_lines-IsInner n (x ∷ ns) = (name-IsInner n x, name_lines-IsInner n ns)

key-IsInner :
    (n : ℕ) (section : Section) (s : Bytes)
    → IsInner n (spaces (n + 2) ++ (section_key section ++ s))
unfolding is_dash trim_start is_space starts_with strip_prefix section_key
key-IsInner n skills s = field-IsInner n (codes "skills" ++ s) refl
key-IsInner n mcps s = field-IsInner n (codes "mcps" ++ s) refl
key-IsInner n commands s = field-IsInner n (codes "commands" ++ s) refl

selector_lines-IsInner :
    (n : ℕ) (section : Section) (sel : Selector)
    → AllOf (IsInner n) (selector_lines (spaces (n + 2)) (section_key section) sel)
selector_lines-IsInner n section wildcard = (key-IsInner n section _, tt)
selector_lines-IsInner n section (names ns) =
    (key-IsInner n section (codes ":"), name_lines-IsInner n ns)

-- The lines of an item behind its first.
abbrev pub inner_lines : SourceItem → ℕ → Section → List Bytes
inner_lines item n section =
    pin_lines (spaces (n + 2)) item.pin
    ++ (sub_dir_lines (spaces (n + 2)) item.sub_dir
        ++ selector_lines (spaces (n + 2)) (section_key section) item.selector)

abbrev pub first_line : SourceItem → ℕ → Bytes
first_line item n = spaces n ++ (codes "- source: " ++ item.source)

pub render_item-lines :
    (item : SourceItem) (n : ℕ) (section : Section)
    → render_item item n section ≡ first_line item n ∷ inner_lines item n section
unfolding render_item
render_item-lines item n section = refl

pub inner_lines-IsInner :
    (item : SourceItem) (n : ℕ) (section : Section) → AllOf (IsInner n) (inner_lines item n section)
inner_lines-IsInner item n section = AllOf-append (IsInner n) _ _ (pin_lines-IsInner n item.pin) (
    AllOf-append (IsInner n) _ _ (sub_dir_lines-IsInner n item.sub_dir)
      (selector_lines-IsInner n section item.selector))

pub first_line-is_dash : (item : SourceItem) (n : ℕ) → is_dash (first_line item n) ≡ true
unfolding is_dash trim_start is_space starts_with strip_prefix
first_line-is_dash item n = is_dash-spaces n (codes "- source: " ++ item.source)

pub first_line-indent_of : (item : SourceItem) (n : ℕ) → indent_of (first_line item n) ≡ n
unfolding indent_of
first_line-indent_of item n = omega (arith, indent_of-spaces n (codes "- source: " ++ item.source))

pub first_line-inner : (item : SourceItem) (n : ℕ) → is_top_level_key (first_line item n) ≡ none
unfolding is_top_level_key spaces
first_line-inner item zero = refl
first_line-inner item (suc n) = refl

-- A blank line or a comment starts no item and sets no field.
pub float-cases :
    (l : Bytes)
    → is_floating l ≡ true
    → (trim_start l ≡ []) ⊎ ((s : Bytes) × (trim_start l ≡ b'#' ∷ s))
unfolding starts_with strip_prefix
float-cases l h = by_text (trim_start l) refl h
  where
    by_text :
        (t : Bytes)
        → trim_start l ≡ t
        → (is_empty t || starts_with t (codes "#")) ≡ true
        → (trim_start l ≡ []) ⊎ ((s : Bytes) × (trim_start l ≡ b'#' ∷ s))
    by_text [] e k = inl e
    by_text (c ∷ s) e k = elim (Bool-cases (b'#' == c)) [
      | inl q ↦ inr (s, ground arith)
      | inr q ↦ absurd (ground arith)
    ]

pub float-is_dash : (l : Bytes) → is_floating l ≡ true → is_dash l ≡ false
unfolding is_dash starts_with strip_prefix
float-is_dash l h = elim (float-cases l h) [
  | inl e ↦ ap (λ t. t == codes "-" || starts_with t (codes "- ")) e
  | inr (s, e) ↦ ap (λ t. t == codes "-" || starts_with t (codes "- ")) e
]
