-- ===== src/ConfigEdit.antt =====
-- crates/agent-env/src/config_edit.rs: the edits of a YAML configuration by its lines, which keep
-- comments and order. Error texts are not represented: each error is a constructor.
pub mod Lines
pub mod Frame
pub mod Place
pub mod Inserted
pub mod Removed
pub mod Items
pub mod Block
pub mod Rendered
pub mod Read
pub mod View
pub mod Found
pub mod Lookup
pub mod Exists
pub mod Names
pub mod Without
pub mod Subtracted
mod Tests
use envctl.Prelude.{
  ℕ, zero, suc, ◌+◌, ◌≡◌, Bool, true, false, not, ◌&&◌, ◌||◌, Option, none, some, List, [], ◌∷◌,
  ◌++◌, if◌then◌else◌, Bytes, codes, length, is_empty, any, ltb, leb, ◌==◌, List_eq, ℕ_eq,
  Option_eq,
}
use envctl.Text.{starts_with, strip_prefix}
use envctl.Drift.{contains}
use envctl.Host.{trim, trim_start, trim_end}
use envctl.Slices.{take, drop, find, lines}
use envctl.Wiring.ShellRc.{unwrap_or_default}
use envctl.ConfigEdit.Lines.{
  line_at, slice, find_top_level, next_top_level, section_inline_value, indent_of, field_kv,
  unquoted, Fields, ParsedItem, parse_items,
}

pub data Section : Type 0 where
  skills mcps commands : Section

unfoldable pub section_key : Section → Bytes
section_key skills = codes "skills"
section_key mcps = codes "mcps"
section_key commands = codes "commands"

pub data Pin : Type 0 where
  reference branch : Bytes → Pin
  unpinned : Pin

unfoldable pub pin_value : Pin → Option Bytes
pin_value (reference r) = some r
pin_value (branch b) = some b
pin_value unpinned = none

pub data Selector : Type 0 where
  wildcard : Selector
  names : List Bytes → Selector

pub record SourceItem : Type 0 where
  pub source : Bytes
  pub pin : Pin
  pub sub_dir : Option Bytes
  pub selector : Selector

pub data RemoveOutcome : Type 0 where
  not_found whole_item : RemoveOutcome
  removed : List Bytes → RemoveOutcome

-- The errors, in the order of the source.
pub data EditError : Type 0 where
  inline_list ambiguous_source no_list wildcard_list object_form : EditError
  names_missing : List Bytes → EditError

pub data Edited (A : Type 0) : Type 0 where
  ok : A → Edited A
  err : EditError → Edited A

-- `is_remote_source`, which `ensure_local_config` refuses.
unfoldable pub is_remote_source : Bytes → Bool
is_remote_source raw = contains raw (codes "://")

unfoldable pub spaces : ℕ → Bytes
spaces zero = []
spaces (suc n) = 32 ∷ spaces n

abbrev pub pin_lines : (pad : Bytes) → Pin → List Bytes
pin_lines pad (reference r) = (pad ++ (codes "ref: " ++ r)) ∷ []
pin_lines pad (branch b) = (pad ++ (codes "branch: " ++ b)) ∷ []
pin_lines pad unpinned = []

abbrev pub sub_dir_lines : (pad : Bytes) → Option Bytes → List Bytes
sub_dir_lines pad none = []
sub_dir_lines pad (some sub) = (pad ++ (codes "sub-dir: " ++ sub)) ∷ []

abbrev pub name_lines : (pad : Bytes) → List Bytes → List Bytes
name_lines pad [] = []
name_lines pad (n ∷ ns) = (pad ++ (codes "  - " ++ n)) ∷ name_lines pad ns

abbrev pub selector_lines : (pad field : Bytes) → Selector → List Bytes
selector_lines pad field wildcard = (pad ++ (field ++ codes ": \"*\"")) ∷ []
selector_lines pad field (names ns) = (pad ++ (field ++ codes ":")) ∷ name_lines pad ns

unfoldable pub render_item : SourceItem → (indent : ℕ) → Section → List Bytes
unfolding section_key spaces
render_item item indent section =
    (spaces indent ++ (codes "- source: " ++ item.source))
    ∷ (pin_lines (spaces (indent + 2)) item.pin
        ++ (sub_dir_lines (spaces (indent + 2)) item.sub_dir
            ++ selector_lines (spaces (indent + 2)) (section_key section) item.selector))

abbrev pub joined : List Bytes → Bytes
joined [] = []
joined (l ∷ []) = l
joined (l ∷ l' ∷ ls) = l ++ (10 ∷ joined (l' ∷ ls))

abbrev pub ends_with_newline : Bytes → Bool
ends_with_newline [] = false
ends_with_newline (c ∷ []) = c == 10
ends_with_newline (c ∷ d ∷ s) = ends_with_newline (d ∷ s)

unfoldable pub join_lines : List Bytes → (original : Bytes) → Bytes
join_lines ls original =
    if ends_with_newline original || is_empty original then joined ls ++ (10 ∷ []) else joined ls

unfoldable pub splice : List Bytes → (at : ℕ) → List Bytes → List Bytes
splice ls at block = take ls at ++ (block ++ drop ls at)

-- `lines.drain(start..end)`
unfoldable pub drain_lines : List Bytes → (start end : ℕ) → List Bytes
drain_lines ls start end = take ls start ++ drop ls end

-- `lines[i] = line`
unfoldable pub set_line : List Bytes → ℕ → Bytes → List Bytes
set_line [] i line = []
set_line (l ∷ ls) zero line = line ∷ ls
set_line (l ∷ ls) (suc i) line = l ∷ set_line ls i line

abbrev pub is_floating : Bytes → Bool
is_floating line = is_empty (trim_start line) || starts_with (trim_start line) (codes "#")

-- The loop that steps back over blank lines and comments, not above `floor`.
unfoldable pub step_back : List Bytes → (floor : ℕ) → (insert_at : ℕ) → ℕ
step_back ls floor zero = zero
step_back ls floor (suc n) =
    let rest = step_back ls floor n in
    if ltb floor (suc n) && is_floating (line_at ls n) then rest else suc n

abbrev pub first_indent : List ParsedItem → ℕ
first_indent [] = 2
first_indent (it ∷ its) = it.indent

abbrev pub last_end : (otherwise : ℕ) → List ParsedItem → ℕ
last_end otherwise [] = otherwise
last_end otherwise (it ∷ its) = last_end it.end its

-- The header line `key: []` or `key:` becomes `key:`.
unfoldable pub normalized : List Bytes → ℕ → (key : Bytes) → Option Bytes → List Bytes
normalized ls idx key none = ls
normalized ls idx key (some val) = set_line ls idx (key ++ codes ":")

abbrev pub is_inline : Option Bytes → Bool
is_inline none = false
is_inline (some val) = not (is_empty val) && (not (val == codes "[]") && not (val == codes "{}"))

-- The lines of a section that is there, once its header is normal.
unfoldable pub insert_under : List Bytes → (idx : ℕ) → Section → SourceItem → List Bytes
unfolding next_top_level parse_items step_back render_item splice
insert_under ls idx section item =
    let items = parse_items ls (idx + 1) (next_top_level ls (idx + 1)) in
    splice ls (step_back ls (idx + 1) (last_end (idx + 1) items))
      (render_item item (first_indent items) section)

abbrev pub last_is_blank : List Bytes → Bool
last_is_blank [] = true
last_is_blank (l ∷ []) = is_empty (trim l)
last_is_blank (l ∷ l' ∷ ls) = last_is_blank (l' ∷ ls)

-- A fresh section at the end of the file.
unfoldable pub append_section : List Bytes → Section → SourceItem → List Bytes
unfolding section_key render_item
append_section ls section item =
    ls
    ++ ((if last_is_blank ls then [] else [] ∷ [])
        ++ ((section_key section ++ codes ":") ∷ render_item item 2 section))

unfoldable pub insert_at_section :
    List Bytes → Section → SourceItem → Option ℕ → Edited (List Bytes)
unfolding append_section insert_under normalized section_inline_value section_key
insert_at_section ls section item none = ok (append_section ls section item)
insert_at_section ls section item (some idx) =
    let inline = section_inline_value (line_at ls idx) (section_key section) in
    if is_inline inline
    then err inline_list
    else ok (insert_under (normalized ls idx (section_key section) inline) idx section item)

abbrev pub rejoined : (text : Bytes) → Edited (List Bytes) → Edited Bytes
rejoined text (ok ls) = ok (join_lines ls text)
rejoined text (err e) = err e

unfoldable pub insert_item : (text : Bytes) → Section → SourceItem → Edited Bytes
unfolding insert_at_section find_top_level section_key
insert_item text section item = rejoined text (
    insert_at_section (lines text) section item (find_top_level (lines text) (section_key section)))

abbrev pub pin_fits : (want have : Option Bytes) → Bool
pin_fits none have = true
pin_fits (some p) have = have == some p

abbrev pub sub_dir_fits : (want have : Option Bytes) → Bool
sub_dir_fits none have = true
sub_dir_fits (some sub) have = unwrap_or_default have == sub

abbrev pub fits : (source : Bytes) → (pin sub_dir : Option Bytes) → ParsedItem → Bool
fits source pin sub_dir it =
    it.fields.source == some source
    && (pin_fits pin it.fields.pin && sub_dir_fits sub_dir it.fields.sub_dir)

abbrev pub matches :
    (source : Bytes) → (pin sub_dir : Option Bytes) → List ParsedItem → List ParsedItem
matches source pin sub_dir [] = []
matches source pin sub_dir (it ∷ its) =
    let rest = matches source pin sub_dir its in
    if fits source pin sub_dir it then it ∷ rest else rest

abbrev pub single : List ParsedItem → Edited (Option ParsedItem)
single [] = ok none
single (it ∷ []) = ok (some it)
single (it ∷ it' ∷ its) = err ambiguous_source

unfoldable pub find_match :
    List ParsedItem → (source : Bytes) → (pin sub_dir : Option Bytes) → Edited (Option ParsedItem)
find_match items source pin sub_dir = single (matches source pin sub_dir items)

unfoldable pub remove_match : (text : Bytes) → Edited (Option ParsedItem) → Edited (Bytes × Bool)
unfolding join_lines drain_lines
remove_match text (err e) = err e
remove_match text (ok none) = ok (text, false)
remove_match text (ok (some it)) =
    ok (join_lines (drain_lines (lines text) it.start it.end) text, true)

-- The items of the section whose header stands at `idx`.
unfoldable pub section_items : List Bytes → (idx : ℕ) → List ParsedItem
unfolding parse_items next_top_level
section_items ls idx = parse_items ls (idx + 1) (next_top_level ls (idx + 1))

unfoldable pub remove_under :
    (text : Bytes)
    → (source : Bytes) → (pin sub_dir : Option Bytes) → Option ℕ
    → Edited (Bytes × Bool)
unfolding remove_match find_match section_items
remove_under text source pin sub_dir none = ok (text, false)
remove_under text source pin sub_dir (some idx) =
    remove_match text (find_match (section_items (lines text) idx) source pin sub_dir)

unfoldable pub remove_item :
    (text : Bytes)
    → Section
    → (source : Bytes) → (pin sub_dir : Option Bytes) → Edited (Bytes × Bool)
unfolding remove_under find_top_level section_key
remove_item text section source pin sub_dir =
    remove_under text source pin sub_dir (find_top_level (lines text) (section_key section))

abbrev pub same_identity : SourceItem → ParsedItem → Bool
same_identity item it =
    it.fields.source == some item.source
    && (unwrap_or_default it.fields.pin == unwrap_or_default (pin_value item.pin)
        && unwrap_or_default it.fields.sub_dir == unwrap_or_default item.sub_dir)

-- `item_exists` on the lines of the text.
unfoldable pub holds_item : List Bytes → Section → SourceItem → Bool
holds_item ls section item = elim (find_top_level ls (section_key section)) [
  | none ↦ false
  | some idx ↦ any (same_identity item) (section_items ls idx)
]

unfoldable pub item_exists : (text : Bytes) → Section → SourceItem → Bool
unfolding holds_item
item_exists text section item = holds_item (lines text) section item
