-- ===== src/ConfigEdit/Tests.antt =====
-- The edits of a configuration with one source under `skills:`.
use mathlib.Core.Path.{subst}
use envctl.Prelude.{
  ◌≡◌, ◌≢◌, ◌⊎◌, refl, true, some, none, List, [], ◌∷◌, Bytes, codes, List_eq, ℕ_eq,
}
use envctl.Text.{starts_with, strip_prefix}
use envctl.Drift.{contains}
use envctl.Host.{is_space, trim, trim_start, trim_end}
use envctl.Slices.{take, drop, find, lines}
use envctl.ConfigEdit.Lines.{
  is_top_level_key, find_top_level, next_top_level, section_inline_value, indent_of, is_dash,
  trim_matches, unquoted, field_kv, take_field, extract_fields, parse_items,
}
use envctl.ConfigEdit.{
  skills, section_key, pin_value, unpinned, wildcard, SourceItem, render_item, spaces, splice,
  drain_lines, step_back, set_line, normalized, insert_under, append_section, insert_at_section, ok,
  insert_item, join_lines, find_match, remove_match, section_items, removed, remove_under,
  remove_item, item_exists, holds_item,
}
use envctl.ConfigEdit.Read.{IsPlain}
use envctl.ConfigEdit.Exists.{IsTidy, insert_at_section-holds_item}
use envctl.ConfigEdit.Inserted.{IsInserted, IsAppended, insert_item-Inserted}
use envctl.ConfigEdit.Names.{
  names_from, find_selector, remove_at, remove_all, subtract, under_selector, subtract_match,
  subtract_under, remove_names, rfind, split_at_ref,
}
use envctl.ConfigEdit.Subtracted.{Subtraction, remove_names-Subtraction}
use envctl.ConfigEdit.Removed.{Removal, remove_item-Removal}

abbrev config : Bytes
config = codes "skills:\n  - source: a\n    skills: \"*\"\n\n# note\n"

abbrev item_b : SourceItem
item_b = record { source = codes "b"; pin = unpinned; sub_dir = none; selector = wildcard }

abbrev with_b : Bytes
with_b =
    codes "skills:\n  - source: a\n    skills: \"*\"\n  - source: b\n    skills: \"*\"\n\n# note\n"

inserted : insert_item config skills item_b ≡ ok with_b
unfolding insert_item insert_at_section insert_under append_section normalized set_line splice
    step_back render_item spaces section_key join_lines lines find_top_level next_top_level
    is_top_level_key section_inline_value indent_of is_dash parse_items extract_fields take_field
    field_kv unquoted trim_matches find take drop starts_with strip_prefix trim trim_start trim_end
    is_space
inserted = refl

exists_b : item_exists with_b skills item_b ≡ true
unfolding item_exists holds_item section_items section_key pin_value lines find_top_level
    next_top_level is_top_level_key indent_of is_dash parse_items extract_fields take_field field_kv
    unquoted trim_matches find take drop starts_with strip_prefix trim trim_start trim_end is_space
exists_b = refl

removed_b :
    remove_item with_b skills (codes "b") none none
    ≡ ok (codes "skills:\n  - source: a\n    skills: \"*\"\n", true)
unfolding remove_item remove_under remove_match find_match drain_lines section_items section_key
    join_lines lines find_top_level next_top_level is_top_level_key indent_of is_dash parse_items
    extract_fields take_field field_kv unquoted trim_matches find take drop starts_with strip_prefix
    trim trim_start trim_end is_space
removed_b = refl

insert_item-Inserted_example :
    (new : List Bytes) × (with_b ≡ join_lines new config)
    × (IsAppended skills item_b (lines config) new ⊎ IsInserted skills item_b (lines config) new)
insert_item-Inserted_example = insert_item-Inserted config skills item_b with_b inserted

remove_item-Removal_example :
    Removal with_b skills (codes "b") none none (remove_item with_b skills (codes "b") none none)
remove_item-Removal_example = remove_item-Removal with_b skills (codes "b") none none

abbrev named : Bytes
named = codes "skills:\n  - source: a\n    skills:\n      - x\n      - y\n"

abbrev without_x : Bytes
without_x = codes "skills:\n  - source: a\n    skills:\n      - y\n"

subtracted_x :
    remove_names named skills (codes "a") none none (codes "x" ∷ [])
    ≡ ok (without_x, removed (codes "x" ∷ []))
unfolding remove_names subtract_under subtract_match under_selector subtract find_selector
    names_from remove_all remove_at find_match section_items section_key join_lines lines
    find_top_level next_top_level is_top_level_key indent_of is_dash parse_items extract_fields
    take_field field_kv unquoted trim_matches find take drop starts_with strip_prefix trim
    trim_start trim_end is_space contains
subtracted_x = refl

remove_names-Subtraction_example :
    Subtraction named skills
      (codes "a")
      none
      none
      (codes "x" ∷ [])
      (without_x, removed (codes "x" ∷ []))
remove_names-Subtraction_example =
    remove_names-Subtraction named skills (codes "a") none none (codes "x" ∷ [])
      (without_x, removed (codes "x" ∷ [])) subtracted_x

split_tag : split_at_ref (codes "g/o@v1") ≡ (codes "g/o", some (codes "v1"))
unfolding split_at_ref rfind take drop
split_tag = refl

split_ssh : split_at_ref (codes "git@g:u/r") ≡ (codes "git@g:u/r", none)
unfolding split_at_ref rfind take drop
split_ssh = refl

config_found : find_top_level (lines config) (codes "skills") ≡ some 0
unfolding lines find_top_level is_top_level_key find take starts_with strip_prefix trim_end is_space
config_found = refl

config_has_items : section_items (lines config) 0 ≢ []
unfolding section_items section_key lines next_top_level is_top_level_key indent_of is_dash
    parse_items extract_fields take_field field_kv unquoted trim_matches find take drop starts_with
    strip_prefix trim trim_start trim_end is_space
config_has_items e = cc

config-IsTidy : IsTidy (lines config) skills
unfolding section_key
config-IsTidy idx f e =
    let z : idx ≡ 0 = cc (config_found) in
    absurd (config_has_items (subst (λ i. section_items (lines config) i ≡ []) z e))

item_b-IsPlain : IsPlain item_b
unfolding unquoted trim_matches trim trim_start trim_end is_space pin_value
item_b-IsPlain = record {
  source_read = refl;
  pin_read = tt;
  sub_dir_read = tt;
  names_set_nothing = tt;
}

edited :
    insert_at_section
      (lines config)
      skills
      item_b
      (find_top_level (lines config) (section_key skills))
    ≡ ok (lines with_b)
unfolding insert_at_section insert_under append_section normalized set_line splice step_back
    render_item spaces section_key lines find_top_level next_top_level is_top_level_key
    section_inline_value indent_of is_dash parse_items extract_fields take_field field_kv unquoted
    trim_matches find take drop starts_with strip_prefix trim trim_start trim_end is_space
edited = refl

insert_at_section-holds_item_example : holds_item (lines with_b) skills item_b ≡ true
insert_at_section-holds_item_example =
    insert_at_section-holds_item skills item_b (lines config) (lines with_b) item_b-IsPlain
      config-IsTidy edited
