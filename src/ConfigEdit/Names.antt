-- ===== src/ConfigEdit/Names.antt =====
-- crates/agent-env/src/config_edit.rs: `remove_names`, and the split of a source at its `@<ref>`.
use envctl.Prelude.{
  ℕ, zero, suc, ◌+◌, Bool, false, not, ◌||◌, Option, none, some, List, [], ◌∷◌, if◌then◌else◌,
  Bytes, codes, is_empty, any, all, leb, ◌==◌, List_eq, ℕ_eq,
}
use envctl.Text.{strip_prefix}
use envctl.Drift.{contains}
use envctl.Host.{trim, trim_start}
use envctl.Slices.{take, drop, lines}
use envctl.ConfigEdit.Lines.{
  slice, find_top_level, indent_of, field_kv, unquoted, ParsedItem, colon,
}
use envctl.ConfigEdit.{
  Section, section_key, RemoveOutcome, not_found, whole_item, removed, no_list, wildcard_list,
  object_form, names_missing, Edited, ok, err, join_lines, drain_lines, find_match, section_items,
}

-- The selector field's line.
pub record SelectorField : Type 0 where
  pub index : ℕ
  pub value : Bytes
  pub indent : ℕ

abbrev pub is_field : (key : Bytes) → Option (Bytes × Bytes) → Bool
is_field key none = false
is_field key (some (k, v)) = k == key

abbrev pub field_value : Option (Bytes × Bytes) → Bytes
field_value none = []
field_value (some (k, v)) = v

-- The first line of an item that sets `key`, from the index of its first line on.
unfoldable pub find_selector : (key : Bytes) → ℕ → List Bytes → Option SelectorField
find_selector key i [] = none
find_selector key i (l ∷ ls) =
    let later = find_selector key (suc i) ls in
    if is_field key (field_kv l)
    then some (record { index = i; value = field_value (field_kv l); indent = indent_of l })
    else later

-- A scalar name under the selector, and whether it is in object form.
pub record NameLine : Type 0 where
  pub index : ℕ
  pub name : Bytes
  pub is_object : Bool

abbrev pub push_name : ℕ → Option Bytes → List NameLine → List NameLine
push_name i none rest = rest
push_name i (some after) rest =
    record { index = i; name = unquoted (trim after); is_object = contains (trim after) colon }
    ∷ rest

-- The loop ends at the first line that is not deeper than the selector.
unfoldable pub names_from : (indent : ℕ) → ℕ → List Bytes → List NameLine
names_from indent i [] = []
names_from indent i (l ∷ ls) =
    let rest = names_from indent (suc i) ls in
    if is_empty (trim_start l)
    then rest
    else if leb (indent_of l) indent
    then []
    else push_name i (strip_prefix (codes "- ") (trim_start l)) rest

abbrev pub has_name : List Bytes → Bytes → Bool
has_name names n = any (λ m. m == n) names

abbrev pub names_of : List NameLine → List Bytes
names_of [] = []
names_of (l ∷ ls) = l.name ∷ names_of ls

abbrev pub not_in : List Bytes → List Bytes → List Bytes
not_in have [] = []
not_in have (n ∷ ns) = let rest = not_in have ns in if has_name have n then rest else n ∷ rest

-- The indices of the lines to delete, ascending as they were read.
abbrev pub to_delete : List Bytes → List NameLine → List ℕ
to_delete names [] = []
to_delete names (l ∷ ls) =
    let rest = to_delete names ls in if has_name names l.name then l.index ∷ rest else rest

unfoldable pub remove_at : List Bytes → ℕ → List Bytes
remove_at [] i = []
remove_at (l ∷ ls) zero = ls
remove_at (l ∷ ls) (suc i) = l ∷ remove_at ls i

-- The last index first.
unfoldable pub remove_all : List Bytes → List ℕ → List Bytes
remove_all ls [] = ls
remove_all ls (i ∷ is) = remove_at (remove_all ls is) i

unfoldable pub subtract :
    (text : Bytes)
    → ParsedItem
    → (names : List Bytes) → List NameLine
    → Edited (Bytes × RemoveOutcome)
subtract text it names found =
    if any (λ l. l.is_object) found
    then err object_form
    else if not (is_empty (not_in (names_of found) names))
    then err (names_missing (not_in (names_of found) names))
    else if all (has_name names) (names_of found)
    then ok (join_lines (drain_lines (lines text) it.start it.end) text, whole_item)
    else ok (join_lines (remove_all (lines text) (to_delete names found)) text, removed names)

unfoldable pub under_selector :
    (text : Bytes)
    → ParsedItem
    → (names : List Bytes) → Option SelectorField
    → Edited (Bytes × RemoveOutcome)
under_selector text it names none = err no_list
under_selector text it names (some field) =
    if not (is_empty field.value)
    then err wildcard_list
    else subtract text it names
        (names_from field.indent (field.index + 1) (slice (lines text) (field.index + 1) it.end))

unfoldable pub subtract_match :
    (text key : Bytes)
    → (names : List Bytes) → Edited (Option ParsedItem)
    → Edited (Bytes × RemoveOutcome)
subtract_match text key names (err e) = err e
subtract_match text key names (ok none) = ok (text, not_found)
subtract_match text key names (ok (some it)) =
    under_selector text it names (find_selector key it.start (slice (lines text) it.start it.end))

unfoldable pub subtract_under :
    (text : Bytes)
    → Section
    → (source : Bytes) → (pin sub_dir : Option Bytes) → (names : List Bytes) → Option ℕ
    → Edited (Bytes × RemoveOutcome)
subtract_under text section source pin sub_dir names none = ok (text, not_found)
subtract_under text section source pin sub_dir names (some idx) =
    subtract_match text (section_key section) names
      (find_match (section_items (lines text) idx) source pin sub_dir)

unfoldable pub remove_names :
    (text : Bytes)
    → Section
    → (source : Bytes) → (pin sub_dir : Option Bytes) → (names : List Bytes)
    → Edited (Bytes × RemoveOutcome)
remove_names text section source pin sub_dir names =
    subtract_under text section source pin sub_dir names
      (find_top_level (lines text) (section_key section))

-- `str::rfind` of one character
unfoldable pub rfind : ℕ → Bytes → Option ℕ
rfind c [] = none
rfind c (d ∷ s) = elim (rfind c s) [
  | none ↦ if d == c then some 0 else none
  | some i ↦ some (suc i)
]

abbrev pub split_unless_empty : (source left right : Bytes) → Bytes × Option Bytes
split_unless_empty source left right =
    if is_empty right || is_empty left then (source, none) else (left, some right)

abbrev pub split_tail : (source : Bytes) → (last_slash : ℕ) → Option ℕ → Bytes × Option Bytes
split_tail source last_slash none = (source, none)
split_tail source last_slash (some i) =
    split_unless_empty source (take source (last_slash + i)) (drop source (last_slash + i + 1))

abbrev pub split_slash : (source : Bytes) → Option ℕ → Bytes × Option Bytes
split_slash source none = (source, none)
split_slash source (some last_slash) =
    split_tail source last_slash (rfind b'@' (drop source last_slash))

unfoldable pub split_at_ref : Bytes → Bytes × Option Bytes
split_at_ref source = split_slash source (rfind b'/' source)
