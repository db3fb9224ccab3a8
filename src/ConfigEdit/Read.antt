-- ===== src/ConfigEdit/Read.antt =====
-- crates/agent-env/src/config_edit.rs: the fields that `extract_fields` reads from a rendered item.
use envctl.Prelude.{
  ℕ, suc, ◌+◌, ◌≡◌, inl, inr, refl, ap, ◌∙◌, Bool, true, false, Option, none, some, List, [], ◌∷◌,
  ◌++◌, arith, if◌then◌else◌, Bytes, codes, AllOf, List_eq, ℕ_eq,
}
use envctl.Text.{starts_with, strip_prefix}
use envctl.Host.{trim, trim_start, trim_end, cons_trimmed, is_space}
use envctl.Slices.{take, drop, find, shift}
use envctl.ConfigEdit.Lines.{
  field_kv, split_field, colon, Fields, take_field, fields_from, unquoted, bare_key,
}
use envctl.ConfigEdit.{
  Section, skills, mcps, commands, section_key, Pin, reference, branch, unpinned, pin_value,
  Selector, wildcard, names, SourceItem, spaces, pin_lines, sub_dir_lines, name_lines,
  selector_lines, render_item, is_floating,
}
use envctl.ConfigEdit.Rendered.{field_kv-spaces, field_of, float-cases}

-- The values of an item are read back as they were written, and its names set no field.
abbrev pub SetNothing : Selector → Type 0
SetNothing wildcard = Unit
SetNothing (names ns) = AllOf (λ (x : Bytes). field_kv (codes "- " ++ x) ≡ none) ns

abbrev pub IsRead : Option Bytes → Type 0
IsRead none = Unit
IsRead (some v) = unquoted (trim v) ≡ v

pub record IsPlain (item : SourceItem) : Type 0 where
  pub source_read : unquoted (trim item.source) ≡ item.source
  pub pin_read : IsRead (pin_value item.pin)
  pub sub_dir_read : IsRead item.sub_dir
  pub names_set_nothing : SetNothing item.selector

pub fields_from-append :
    (xs : List Bytes) (f : Fields) (ys : List Bytes)
    → fields_from f (xs ++ ys) ≡ fields_from (fields_from f xs) ys
fields_from-append [] f ys = refl
fields_from-append (x ∷ xs) f ys = fields_from-append xs (take_field f (field_kv x)) ys

abbrev pub fields : (source pin sub_dir : Option Bytes) → Fields
fields source pin sub_dir = record { source = source; pin = pin; sub_dir = sub_dir }

source_line-field :
    (n : ℕ) (src : Bytes)
    → unquoted (trim src) ≡ src
    → take_field (fields none none none) (field_kv (spaces n ++ (codes "- source: " ++ src)))
      ≡ fields (some src) none none
unfolding take_field field_kv find take drop trim trim_start trim_end is_space starts_with
    strip_prefix
source_line-field n src h =
    ap (take_field (fields none none none)) (field_kv-spaces n (codes "- source: " ++ src))
    ∙ ap (λ v. fields (some v) none none) h

pin_lines-field :
    (n : ℕ) (p : Pin) (src : Bytes)
    → IsRead (pin_value p)
    → fields_from (fields (some src) none none) (pin_lines (spaces n) p)
      ≡ fields (some src) (pin_value p) none
unfolding take_field field_kv find take drop trim trim_start trim_end is_space starts_with
    strip_prefix pin_value
pin_lines-field n (reference r) src h =
    ap (take_field (fields (some src) none none)) (field_kv-spaces n (codes "ref: " ++ r))
    ∙ ap (λ v. fields (some src) (some v) none) h
pin_lines-field n (branch b) src h =
    ap (take_field (fields (some src) none none)) (field_kv-spaces n (codes "branch: " ++ b))
    ∙ ap (λ v. fields (some src) (some v) none) h
pin_lines-field n unpinned src h = refl

sub_dir_lines-field :
    (n : ℕ) (o : Option Bytes) (src : Bytes) (p : Option Bytes)
    → IsRead o
    → fields_from (fields (some src) p none) (sub_dir_lines (spaces n) o) ≡ fields (some src) p o
unfolding take_field field_kv find take drop trim trim_start trim_end is_space starts_with
    strip_prefix
sub_dir_lines-field n none src p h = refl
sub_dir_lines-field n (some sub) src p h =
    ap (take_field (fields (some src) p none)) (field_kv-spaces n (codes "sub-dir: " ++ sub))
    ∙ ap (λ v. fields (some src) p (some v)) h

key_line-field :
    (n : ℕ) (section : Section) (s : Bytes) (f : Fields)
    → take_field f (field_kv (spaces n ++ (section_key section ++ (colon ++ s)))) ≡ f
unfolding take_field field_kv find take drop trim trim_start trim_end is_space starts_with
    strip_prefix section_key
key_line-field n skills s f = ap (take_field f) (field_kv-spaces n (codes "skills:" ++ s))
key_line-field n mcps s f = ap (take_field f) (field_kv-spaces n (codes "mcps:" ++ s))
key_line-field n commands s f = ap (take_field f) (field_kv-spaces n (codes "commands:" ++ s))

name_lines-field :
    (n : ℕ) (ns : List Bytes) (f : Fields)
    → AllOf (λ (x : Bytes). field_kv (codes "- " ++ x) ≡ none) ns
    → fields_from f (name_lines (spaces n) ns) ≡ f
unfolding take_field spaces
name_lines-field n [] f a = refl
name_lines-field n (x ∷ ns) f (h, a) =
    let read : field_kv (spaces n ++ (codes "  - " ++ x)) ≡ none =
      field_kv-spaces n (codes "  - " ++ x) ∙ field_kv-spaces 2 (codes "- " ++ x) ∙ h in
    ap (λ o. fields_from (take_field f o) (name_lines (spaces n) ns)) read
    ∙ name_lines-field n ns f a

selector_lines-field :
    (n : ℕ) (section : Section) (sel : Selector) (f : Fields)
    → SetNothing sel
    → fields_from f (selector_lines (spaces n) (section_key section) sel) ≡ f
selector_lines-field n section wildcard f h = key_line-field n section (codes " \"*\"") f
selector_lines-field n section (names ns) f h =
    ap (λ g. fields_from g (name_lines (spaces n) ns)) (key_line-field n section [] f)
    ∙ name_lines-field n ns f h

pub render_item-fields :
    (item : SourceItem) (n : ℕ) (section : Section)
    → IsPlain item
    → fields_from (fields none none none) (render_item item n section)
      ≡ fields (some item.source) (pin_value item.pin) item.sub_dir
unfolding render_item
render_item-fields item n section p =
    let pins = pin_lines (spaces (n + 2)) item.pin in
    let subs = sub_dir_lines (spaces (n + 2)) item.sub_dir in
    let sels = selector_lines (spaces (n + 2)) (section_key section) item.selector in
    ap (λ f. fields_from f (pins ++ (subs ++ sels))) (source_line-field n item.source p.source_read)
    ∙ fields_from-append pins _ (subs ++ sels)
    ∙ ap (λ f. fields_from f (subs ++ sels))
        (pin_lines-field (n + 2) item.pin item.source p.pin_read)
    ∙ fields_from-append subs _ sels
    ∙ ap (λ f. fields_from f sels)
        (sub_dir_lines-field (n + 2) item.sub_dir item.source (pin_value item.pin) p.sub_dir_read)
    ∙ selector_lines-field (n + 2) section item.selector _ p.names_set_nothing

hash-field : (f : Fields) (k v : Bytes) → take_field f (some (cons_trimmed b'#' k, v)) ≡ f
unfolding take_field is_space
hash-field f [] v = refl
hash-field f (d ∷ k) v = refl

comment-field : (f : Fields) (s : Bytes) → take_field f (field_of (b'#' ∷ s)) ≡ f
unfolding take_field strip_prefix find starts_with take trim trim_start trim_end is_space
comment-field f s = by_colon (find s colon)
  where
    by_bare :
        (b : Bool) (k v : Bytes)
        → take_field f (if b then some (cons_trimmed b'#' k, v) else none) ≡ f
    by_bare true k v = hash-field f k v
    by_bare false k v = refl

    at_suc : (i : ℕ) → 1 + i ≡ suc i
    at_suc i = omega arith

    by_colon : (o : Option ℕ) → take_field f (split_field (b'#' ∷ s) (shift 1 o)) ≡ f
    by_colon none = refl
    by_colon (some i) =
        ap (λ k. take_field f (split_field (b'#' ∷ s) (some k))) (at_suc i)
        ∙ by_bare (bare_key (cons_trimmed b'#' (trim_end (take s i)))) (trim_end (take s i))
            (unquoted (trim (drop (b'#' ∷ s) (suc i + 1))))

pub float-field : (f : Fields) (l : Bytes) → is_floating l ≡ true → take_field f (field_kv l) ≡ f
unfolding field_kv take_field strip_prefix find starts_with
float-field f l h = elim (float-cases l h) [
  | inl e ↦ ap (λ t. take_field f (field_of t)) e
  | inr (s, e) ↦ ap (λ t. take_field f (field_of t)) e ∙ comment-field f s
]

pub floats-fields :
    (ls : List Bytes) (f : Fields)
    → AllOf (λ (l : Bytes). is_floating l ≡ true) ls
    → fields_from f ls ≡ f
floats-fields [] f a = refl
floats-fields (l ∷ ls) f (h, a) =
    ap (λ g. fields_from g ls) (float-field f l h) ∙ floats-fields ls f a
