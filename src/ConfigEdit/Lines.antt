-- ===== src/ConfigEdit/Lines.antt =====
-- crates/agent-env/src/config_edit.rs: the line helpers, and the items of a section with the fields
-- that identify them. A line index in range is looked up with `line_at`.
use envctl.Prelude.{
  ℕ, zero, suc, ◌+◌, ◌-◌, Bool, true, false, not, ◌&&◌, ◌||◌, Option, none, some, List, [], ◌∷◌,
  if◌then◌else◌, Bytes, codes, length, is_empty, any, leb, ◌==◌, List_eq, ℕ_eq, Option_eq,
}
use envctl.Text.{starts_with, strip_prefix}
use envctl.Host.{is_space, trim, trim_start, trim_end}
use envctl.Slices.{take, drop, find}

-- `lines[i]`
abbrev pub line_at : List Bytes → ℕ → Bytes
line_at [] i = []
line_at (l ∷ ls) zero = l
line_at (l ∷ ls) (suc i) = line_at ls i

abbrev pub colon : Bytes
colon = codes ":"

-- The key of a field or of a top-level line: not empty, and without white space.
abbrev pub bare_key : Bytes → Bool
bare_key key = not (is_empty key) && not (any is_space key)

abbrev pub starts_indented : Bytes → Bool
starts_indented [] = false
starts_indented (c ∷ s) = c == 32 || (c == 9 || (c == b'#' || c == b'-'))

abbrev pub key_before : Bytes → Option ℕ → Option Bytes
key_before t none = none
key_before t (some i) = if bare_key (take t i) then some (take t i) else none

unfoldable pub is_top_level_key : Bytes → Option Bytes
is_top_level_key line =
    if starts_indented line
    then none
    else if is_empty (trim_end line)
    then none
    else key_before (trim_end line) (find (trim_end line) colon)

-- `position`
abbrev pub position : (Bytes → Bool) → List Bytes → Option ℕ
position p [] = none
position p (l ∷ ls) =
    let later : Option ℕ = elim (position p ls) [ none ↦ none | some i ↦ some (suc i) ] in
    if p l then some 0 else later

unfoldable pub find_top_level : List Bytes → (key : Bytes) → Option ℕ
unfolding is_top_level_key
find_top_level ls key = position (λ l. is_top_level_key l == some key) ls

abbrev pub is_some_key : Option Bytes → Bool
is_some_key none = false
is_some_key (some key) = true

unfoldable pub next_top_level : List Bytes → (from : ℕ) → ℕ
unfolding is_top_level_key
next_top_level ls from = elim (position (λ l. is_some_key (is_top_level_key l)) (drop ls from)) [
  | none ↦ length ls
  | some i ↦ from + i
]

unfoldable pub section_inline_value : (line key : Bytes) → Option Bytes
section_inline_value line key = elim (strip_prefix key (trim_end line)) [
  | none ↦ none
  | some rest ↦ elim (strip_prefix colon (trim_start rest)) [
    | none ↦ none
    | some value ↦ some (trim value)
  ]
]

-- The length less that of the line without its leading spaces.
unfoldable pub indent_of : Bytes → ℕ
indent_of [] = 0
indent_of (c ∷ s) = let n = indent_of s in if c == 32 then suc n else 0

unfoldable pub is_dash : Bytes → Bool
is_dash line = trim_start line == codes "-" || starts_with (trim_start line) (codes "- ")

-- `trim_matches` of one character
abbrev pub trim_start_of : ℕ → Bytes → Bytes
trim_start_of q [] = []
trim_start_of q (c ∷ s) = let rest = trim_start_of q s in if c == q then rest else c ∷ s

abbrev pub cons_kept : ℕ → ℕ → Bytes → Bytes
cons_kept q c [] = if c == q then [] else c ∷ []
cons_kept q c (d ∷ s) = c ∷ d ∷ s

abbrev pub trim_end_of : ℕ → Bytes → Bytes
trim_end_of q [] = []
trim_end_of q (c ∷ s) = cons_kept q c (trim_end_of q s)

unfoldable pub trim_matches : ℕ → Bytes → Bytes
trim_matches q s = trim_end_of q (trim_start_of q s)

-- Both kinds of quotes, the double ones first.
unfoldable pub unquoted : Bytes → Bytes
unfolding trim_matches
unquoted s = trim_matches b'\'' (trim_matches b'"' s)

abbrev pub split_field : Bytes → Option ℕ → Option (Bytes × Bytes)
split_field t none = none
split_field t (some i) =
    let key = trim (take t i) in
    if bare_key key then some (key, unquoted (trim (drop t (i + 1)))) else none

abbrev pub after_dash : Bytes → Option Bytes → Option Bytes
after_dash t none = if t == codes "-" then none else some t
after_dash t (some rest) = some (trim_start rest)

unfoldable pub field_kv : Bytes → Option (Bytes × Bytes)
field_kv line = elim (after_dash (trim_start line) (strip_prefix (codes "- ") (trim_start line))) [
  | none ↦ none
  | some t ↦ split_field t (find t colon)
]

pub record Fields : Type 0 where
  pub source : Option Bytes
  pub pin : Option Bytes
  pub sub_dir : Option Bytes

abbrev pub or_first : Option Bytes → Bytes → Option Bytes
or_first none v = some v
or_first (some old) v = some old

-- One turn of the loop of `extract_fields`.
unfoldable pub take_field : Fields → Option (Bytes × Bytes) → Fields
take_field f none = f
take_field f (some (key, v)) =
    if key == codes "source"
    then record f { source = or_first f.source v }
    else if key == codes "ref" || key == codes "branch"
    then record f { pin = or_first f.pin v }
    else if key == codes "sub-dir" || key == codes "sub_dir"
    then record f { sub_dir = or_first f.sub_dir v }
    else f

abbrev pub fields_from : Fields → List Bytes → Fields
fields_from f [] = f
fields_from f (l ∷ ls) = fields_from (take_field f (field_kv l)) ls

-- `lines[start..end]`
abbrev pub slice : List Bytes → (start end : ℕ) → List Bytes
slice ls start end = take (drop ls start) (end - start)

unfoldable pub extract_fields : List Bytes → (start end : ℕ) → Fields
extract_fields ls start end =
    fields_from (record { source = none; pin = none; sub_dir = none }) (slice ls start end)

pub record ParsedItem : Type 0 where
  pub start : ℕ
  pub end : ℕ
  pub indent : ℕ
  pub fields : Fields

-- The indices of the dash lines, from the index of the first line on.
abbrev pub dashes : ℕ → List Bytes → List ℕ
dashes i [] = []
dashes i (l ∷ ls) = let rest = dashes (suc i) ls in if is_dash l then i ∷ rest else rest

abbrev pub min_indent : List Bytes → ℕ → List ℕ → ℕ
min_indent ls least [] = least
min_indent ls least (i ∷ is) =
    min_indent ls (if leb least (indent_of (line_at ls i)) then least else indent_of (line_at ls i))
      is

abbrev pub with_indent : List Bytes → ℕ → List ℕ → List ℕ
with_indent ls n [] = []
with_indent ls n (i ∷ is) =
    let rest = with_indent ls n is in if indent_of (line_at ls i) == n then i ∷ rest else rest

-- An item ends where the next one starts, the last one where the section does.
abbrev pub next_start : List ℕ → (sec_end : ℕ) → ℕ
next_start [] sec_end = sec_end
next_start (i ∷ is) sec_end = i

abbrev pub items_at : List Bytes → (indent sec_end : ℕ) → List ℕ → List ParsedItem
items_at ls indent sec_end [] = []
items_at ls indent sec_end (start ∷ starts) =
    record {
      start = start;
      end = next_start starts sec_end;
      indent = indent;
      fields = extract_fields ls start (next_start starts sec_end);
    }
    ∷ items_at ls indent sec_end starts

abbrev pub items_of : List Bytes → (sec_end : ℕ) → List ℕ → List ParsedItem
items_of ls sec_end [] = []
items_of ls sec_end (i ∷ is) =
    let n = min_indent ls (indent_of (line_at ls i)) is in
    items_at ls n sec_end (with_indent ls n (i ∷ is))

unfoldable pub parse_items : List Bytes → (sec_start sec_end : ℕ) → List ParsedItem
parse_items ls sec_start sec_end =
    items_of ls sec_end (dashes sec_start (slice ls sec_start sec_end))
