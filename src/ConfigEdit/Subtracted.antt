-- ===== src/ConfigEdit/Subtracted.antt =====
-- crates/agent-env/src/config_edit.rs: the lines of the file after `remove_names`.
use mathlib.Core.Path.{subst}
use envctl.Prelude.{
  ℕ, ◌+◌, ◌≡◌, inl, inr, refl, Bool, true, false, not, Option, none, some, List, [], ◌∷◌, arith,
  if◌then◌else◌, Bool-cases, Bytes, AllOf, any, all, is_empty, ==_refl, List_eq, ℕ_eq,
}
use envctl.Slices.{lines}
use envctl.ConfigEdit.Lines.{slice, find_top_level, ParsedItem}
use envctl.ConfigEdit.{
  Section, section_key, RemoveOutcome, not_found, whole_item, removed, wildcard_list, object_form,
  names_missing, Edited, ok, err, join_lines, drain_lines, single, matches, find_match,
  section_items, remove_match, remove_under, remove_item,
}
use envctl.ConfigEdit.Removed.{
  Removal, FitsNothing, IsOnly, IsRemoved, matches-IsOnly, remove_item-Removal,
}
use envctl.ConfigEdit.Without.{Without, NamesOneOf, is_requested, subtract-Without}
use envctl.ConfigEdit.Names.{
  NameLine, SelectorField, find_selector, names_from, has_name, names_of, not_in, to_delete,
  remove_all, subtract, under_selector, subtract_match, subtract_under, remove_names,
}

-- `found` are the name lines under the selector of the one fitting item: an empty selector line of
-- that item, and the lines below it up to the item's end. None is in object form.
pub record IsRead (section : Section) (source : Bytes) (pin sub_dir : Option Bytes)
    (ls : List Bytes) (found : List NameLine) : Type 0 where
  pub idx : ℕ
  pub header : find_top_level ls (section_key section) ≡ some idx
  pub item : ParsedItem
  pub only : IsOnly source pin sub_dir (section_items ls idx) item
  pub field : SelectorField
  pub selects :
      find_selector (section_key section) item.start (slice ls item.start item.end) ≡ some field
  pub opens_list : is_empty field.value ≡ true
  pub below :
      found ≡ names_from field.indent (field.index + 1) (slice ls (field.index + 1) item.end)
  pub plain : any (λ l. l.is_object) found ≡ false

-- Each requested name was read.
abbrev pub HasAll : (names : List Bytes) → List NameLine → Type 0
HasAll names found = AllOf (λ n. has_name (names_of found) n ≡ true) names

-- Each name that was read is requested.
abbrev pub AsksAll : (names : List Bytes) → List NameLine → Type 0
AsksAll names found = AllOf (λ n. has_name names n ≡ true) (names_of found)

-- Some name that was read is not requested.
abbrev pub LeavesOne : (names : List Bytes) → List NameLine → Type 0
LeavesOne names found =
    (n : Bytes) × (has_name (names_of found) n ≡ true) × (has_name names n ≡ false)

not_in-none :
    (have names : List Bytes)
    → is_empty (not_in have names) ≡ true
    → AllOf (λ n. has_name have n ≡ true) names
not_in-none have [] h = tt
not_in-none have (n ∷ names) h = elim (Bool-cases (has_name have n)) [
  | inl e ↦ (e, not_in-none have names (ground arith))
  | inr e ↦ absurd (ground arith)
]

all-true :
    (names ns : List Bytes)
    → all (has_name names) ns ≡ true
    → AllOf (λ n. has_name names n ≡ true) ns
all-true names [] h = tt
all-true names (n ∷ ns) h = (ground arith, all-true names ns (ground arith))

all-false :
    (names ns : List Bytes)
    → all (has_name names) ns ≡ false
    → (n : Bytes) × (has_name ns n ≡ true) × (has_name names n ≡ false)
all-false names [] h = cc
all-false names (x ∷ ns) h = elim (Bool-cases (has_name names x)) [
  | inl e ↦
      let (n, a, b) = all-false names ns (ground arith) in
      let later : has_name (x ∷ ns) n ≡ true = ground arith in (n, later, b)
  | inr e ↦ (x, rw (==_refl x) refl, e)
]

module _ (text : Bytes) (section : Section) (source : Bytes) (pin sub_dir : Option Bytes) where
  -- What each outcome of `remove_names` says of the text.
  abbrev pub Subtraction : (names : List Bytes) → Bytes × RemoveOutcome → Type 0
  Subtraction names (out, not_found) =
      (out ≡ text) × FitsNothing section source pin sub_dir (lines text)
  Subtraction names (out, whole_item) =
      (found : List NameLine) × IsRead section source pin sub_dir (lines text) found
      × HasAll names found
      × AsksAll names found
      × ((new : List Bytes) × (out ≡ join_lines new text)
          × IsRemoved section source pin sub_dir (lines text) new)
  Subtraction names (out, removed ns) =
      (ns ≡ names)
      × ((found : List NameLine) × IsRead section source pin sub_dir (lines text) found
          × HasAll names found
          × LeavesOne names found
          × ((new : List Bytes) × (out ≡ join_lines new text)
              × Without (is_requested names found) (NamesOneOf names) 0 (lines text) new))

  single-ok : (its : List ParsedItem) (it : ParsedItem) → single its ≡ ok (some it) → its ≡ it ∷ []
  single-ok [] it h = cc
  single-ok (x ∷ []) it h = cc
  single-ok (x ∷ y ∷ its) it h = cc

  answer-Removal :
      (idx : ℕ) (r : Edited (Option ParsedItem))
      → find_top_level (lines text) (section_key section) ≡ some idx
      → find_match (section_items (lines text) idx) source pin sub_dir ≡ r
      → Removal text section source pin sub_dir (remove_match text r)
  unfolding remove_item remove_match remove_under
  answer-Removal idx r f g =
      let at : remove_item text section source pin sub_dir ≡ remove_match text r =
        rw (remove_item, f, remove_under, g) refl in
      subst (Removal text section source pin sub_dir) at
        (remove_item-Removal text section source pin sub_dir)

  module _ (names : List Bytes) where
    abbrev Answered : Edited (Bytes × RemoveOutcome) → Type 0
    Answered (ok answer) = Subtraction names answer
    Answered (err e) = Unit

    module _ (idx : ℕ) (it : ParsedItem)
        (header : find_top_level (lines text) (section_key section) ≡ some idx)
        (only : IsOnly source pin sub_dir (section_items (lines text) idx) it)
        (r : Removal text section source pin sub_dir (remove_match text (ok (some it)))) where
      subtract-Answered :
          (field : SelectorField)
          → find_selector (section_key section) it.start (slice (lines text) it.start it.end)
            ≡ some field
          → is_empty field.value ≡ true
          → Answered (
              subtract text it names (
                names_from field.indent
                  (field.index + 1)
                  (slice (lines text) (field.index + 1) it.end)))
      unfolding subtract remove_match drain_lines
      subtract-Answered field selects opens =
          by_tests (any (λ l. l.is_object) found) refl (is_empty (not_in (names_of found) names))
            refl (all (has_name names) (names_of found)) refl
        where
          found : List NameLine
          found =
              names_from field.indent (field.index + 1)
                (slice (lines text) (field.index + 1) it.end)

          reading :
              any (λ l. l.is_object) found ≡ false
              → IsRead section source pin sub_dir (lines text) found
          reading p = record {
            idx = idx;
            header = header;
            item = it;
            only = only;
            field = field;
            selects = selects;
            opens_list = opens;
            below = refl;
            plain = p;
          }

          by_tests :
              (object : Bool)
              → any (λ l. l.is_object) found ≡ object
              → (complete : Bool) → is_empty (not_in (names_of found) names) ≡ complete
              → (everything : Bool) → all (has_name names) (names_of found) ≡ everything
              → Answered (
                  if object
                  then err object_form
                  else if not complete
                  then err (names_missing (not_in (names_of found) names))
                  else if everything
                  then ok (join_lines (drain_lines (lines text) it.start it.end) text, whole_item)
                  else ok (
                    join_lines (remove_all (lines text) (to_delete names found)) text,
                    removed names,
                  ))
          by_tests true p complete c everything e = tt
          by_tests false p false c everything e = tt
          by_tests false p true c true e =
              (found, reading p, not_in-none _ names c, all-true names _ e, r)
          by_tests false p true c false e = (
            refl,
            (
              found,
              reading p,
              not_in-none _ names c,
              all-false names _ e,
              (_, refl, subtract-Without names field.indent (lines text) (field.index + 1) it.end),
            ),
          )

      under_selector-Answered :
          (o : Option SelectorField)
          → find_selector (section_key section) it.start (slice (lines text) it.start it.end) ≡ o
          → Answered (under_selector text it names o)
      unfolding under_selector
      under_selector-Answered none s = tt
      under_selector-Answered (some field) s = by_value (is_empty field.value) refl
        where
          by_value :
              (b : Bool)
              → is_empty field.value ≡ b
              → Answered (
                  if not b
                  then err wildcard_list
                  else subtract text it names (
                      names_from field.indent
                        (field.index + 1)
                        (slice (lines text) (field.index + 1) it.end)))
          by_value true e = subtract-Answered field s e
          by_value false e = tt

    remove_names-Answered : Answered (remove_names text section source pin sub_dir names)
    unfolding remove_names subtract_under subtract_match remove_match find_match
    remove_names-Answered = by_header (find_top_level (lines text) (section_key section)) refl
      where
        by_match :
            (idx : ℕ)
            → find_top_level (lines text) (section_key section) ≡ some idx
            → (r : Edited (Option ParsedItem))
            → find_match (section_items (lines text) idx) source pin sub_dir ≡ r
            → Answered (subtract_match text (section_key section) names r)
        by_match idx f (err e) g = tt
        by_match idx f (ok none) g = answer-Removal idx (ok none) f g
        by_match idx f (ok (some it)) g =
            let only =
              matches-IsOnly source pin sub_dir _ it
                (single-ok (matches source pin sub_dir (section_items (lines text) idx)) it g) in
            under_selector-Answered idx it f only (answer-Removal idx (ok (some it)) f g) _ refl

        by_header :
            (o : Option ℕ)
            → find_top_level (lines text) (section_key section) ≡ o
            → Answered (subtract_under text section source pin sub_dir names o)
        by_header none f = (refl, inl f)
        by_header (some idx) f = by_match idx f _ refl

    -- When remove_names succeeds and found no item, the text is unchanged, and there is no such section
    -- or nothing in it fits. Otherwise each requested name was read under the selector of the one
    -- fitting item, and none of the names there is in object form. When it dropped the whole item, all
    -- names that were read are requested, and the lines of that item are gone and no others. When it
    -- removed names, they are the requested ones, one that was read is not requested, and the lines that
    -- are gone are those at which a requested name was read; all others are there in their order.
    pub remove_names-Subtraction :
        (answer : Bytes × RemoveOutcome)
        → remove_names text section source pin sub_dir names ≡ ok answer
        → Subtraction names answer
    remove_names-Subtraction answer h = subst Answered h remove_names-Answered
