-- ===== src/ConfigEdit/Exists.antt =====
-- crates/agent-env/src/config_edit.rs: `item_exists` on the lines that `insert_item` writes.
use mathlib.Core.Path.{subst}
use mathlib.Core.List.{append-nil, append_assoc}
use envctl.Prelude.{
  ℕ, ◌+◌, ◌≡◌, inl, inr, refl, sym, ap, ◌∙◌, Bool, true, false, Option, none, some, List, [], ◌∷◌,
  ◌++◌, if◌then◌else◌, Bytes, codes, length, AllOf, any, ==_iff, ==_refl, ◌==◌, List_eq, ℕ_eq,
  Option_eq,
}
use envctl.Slices.{take, find}
use envctl.Text.{starts_with, strip_prefix}
use envctl.Host.{trim_end, is_space}
use envctl.ConfigEdit.Lines.{is_top_level_key, find_top_level, slice, next_top_level}
use envctl.ConfigEdit.{
  Section, skills, mcps, commands, section_key, SourceItem, render_item, insert_under,
  append_section, last_is_blank, insert_at_section, ok, section_items, same_identity, holds_item,
}
use envctl.ConfigEdit.Frame.{position-IsAt, position-none, position-at}
use envctl.ConfigEdit.Items.{least_indent, items_with}
use envctl.ConfigEdit.Inserted.{header_normalized}
use envctl.ConfigEdit.Block.{or_two}
use envctl.ConfigEdit.Rendered.{first_line, inner_lines, render_item-lines, AllOf-append}
use envctl.ConfigEdit.Read.{IsPlain}
use envctl.ConfigEdit.Found.{Floating, found-item}
use envctl.ConfigEdit.View.{
  is_header, Headless, body_of, rest_of, body_of-Headless, body_of-rest_of, section_items-view,
  slice-body, next_top_level-body,
}
use envctl.ConfigEdit.Lookup.{
  insert_under-parts, under, floats, floats-Floating, AllOf-parts, under-floats,
  least_indent-floats,
}

header-key :
    (section : Section)
    → is_top_level_key (section_key section ++ codes ":") ≡ some (section_key section)
unfolding is_top_level_key section_key trim_end is_space find take starts_with strip_prefix
header-key skills = refl
header-key mcps = refl
header-key commands = refl

-- A section without an item holds only blank lines and comments.
abbrev pub IsTidy : List Bytes → Section → Type 0
IsTidy ls section =
    (idx : ℕ)
    → find_top_level ls (section_key section) ≡ some idx
    → section_items ls idx ≡ []
    → Floating (slice ls (idx + 1) (next_top_level ls (idx + 1)))

module _ (section : Section) (item : SourceItem) (plain : IsPlain item) where
  key : Bytes
  key = section_key section

  is_key : Bytes → Bool
  unfolding key
  is_key l = is_top_level_key l == some key

  holds-at :
      (above below : List Bytes) (header : Bytes)
      → AllOf (λ (l : Bytes). is_key l ≡ false) above
      → is_top_level_key header ≡ some key
      → any (same_identity item) (section_items (above ++ (header ∷ below)) (length above)) ≡ true
      → holds_item (above ++ (header ∷ below)) section item ≡ true
  unfolding holds_item find_top_level is_key key
  holds-at above below header a h f =
      let at : find_top_level (above ++ (header ∷ below)) (section_key section)
          ≡ some (length above) =
        position-at is_key above below header a (rw (h) (==_refl (some key))) in
      ap
        (λ m. elim m [
          | none ↦ false
          | some idx ↦ any (same_identity item) (section_items (above ++ (header ∷ below)) idx)
        ])
        at
      ∙ f

  insert_under-holds :
      (above below : List Bytes) (header : Bytes)
      → AllOf (λ (l : Bytes). is_key l ≡ false) above
      → is_top_level_key header ≡ some key
      → (least_indent (body_of below) ≡ none → Floating (body_of below))
      → holds_item
          (insert_under (above ++ (header ∷ below)) (length above) section item)
          section
          item
        ≡ true
  insert_under-holds above below header a h tidy =
      let (n, e, least) = insert_under-parts above below header section item in
      let u = under above below header section item in
      let fl = floats above below header section item in
      let floating = floats-Floating above below header section item tidy in
      let parts =
        AllOf-parts (λ l. is_header l ≡ false) u fl
          (subst Headless (sym (under-floats above below header section item))
            (body_of-Headless below)) in
      let least' : n ≡ or_two (least_indent u) =
        least
        ∙ ap (λ b. or_two (least_indent b)) (sym (under-floats above below header section item))
        ∙ ap or_two (least_indent-floats u fl floating) in
      ap (λ ls. holds_item ls section item) e
      ∙ holds-at above
          ((u ++ (first_line item n ∷ (inner_lines item n section ++ fl))) ++ rest_of below) header
          a h
          (found-item above u fl (rest_of below) header section item n parts.0 parts.1
            (body_of-rest_of below) floating least' plain)

  IsTidy-body :
      (above below : List Bytes) (header : Bytes)
      → IsTidy (above ++ (header ∷ below)) section
      → find_top_level (above ++ (header ∷ below)) key ≡ some (length above)
      → least_indent (body_of below) ≡ none
      → Floating (body_of below)
  unfolding key
  IsTidy-body above below header tidy f m =
      let whole = above ++ (header ∷ below) in
      let empty : section_items whole (length above) ≡ [] =
        section_items-view above below header
        ∙ ap
            (items_with whole (rest_of below) (length above + 1)
              (length above + 1 + length (body_of below)) (body_of below))
            m in
      subst Floating
        (ap (slice whole (length above + 1)) (next_top_level-body above below header)
          ∙ slice-body above below header)
        (tidy (length above) f empty)

  found-holds :
      (above below : List Bytes) (header : Bytes) (new : List Bytes)
      → AllOf (λ (l : Bytes). is_key l ≡ false) above
      → is_top_level_key header ≡ some key
      → IsTidy (above ++ (header ∷ below)) section
      → find_top_level (above ++ (header ∷ below)) key ≡ some (length above)
      → insert_at_section (above ++ (header ∷ below)) section item (some (length above)) ≡ ok new
      → holds_item new section item ≡ true
  unfolding key
  found-holds above below header new a h tidy f i =
      let (nh, cases, b, same) = header_normalized section item above below header new i in
      let h' : is_top_level_key nh ≡ some (section_key section) = elim cases [
        | inl q ↦ ap is_top_level_key q ∙ h
        | inr q ↦ ap is_top_level_key q ∙ header-key section
      ] in
      subst (λ ls. holds_item ls section item ≡ true) same
        (insert_under-holds above below nh a h' (IsTidy-body above below header tidy f))

  blank-is_key : is_key [] ≡ false
  unfolding is_key is_top_level_key trim_end
  blank-is_key = refl

  append_section-holds :
      (ls : List Bytes)
      → find_top_level ls key ≡ none
      → holds_item (append_section ls section item) section item ≡ true
  unfolding append_section find_top_level key is_key
  append_section-holds ls f = by_blank (last_is_blank ls)
    where
      misses : AllOf (λ (l : Bytes). is_key l ≡ false) ls
      misses = position-none is_key ls f

      header : Bytes
      header = section_key section ++ codes ":"

      by_above :
          (above : List Bytes)
          → AllOf (λ (l : Bytes). is_key l ≡ false) above
          → holds_item (above ++ (header ∷ render_item item 2 section)) section item ≡ true
      by_above above a =
          let same : (first_line item 2 ∷ (inner_lines item 2 section ++ [])) ++ []
              ≡ render_item item 2 section =
            append-nil _
            ∙ append-nil (first_line item 2 ∷ inner_lines item 2 section)
            ∙ sym (render_item-lines item 2 section) in
          subst (λ b. holds_item (above ++ (header ∷ b)) section item ≡ true) same
            (holds-at above _ header a (header-key section)
              (found-item above [] [] [] header section item 2 tt tt refl tt refl plain))

      by_blank :
          (b : Bool)
          → holds_item
              (ls ++ ((if b then [] else [] ∷ []) ++ (header ∷ render_item item 2 section)))
              section
              item
            ≡ true
      by_blank true = by_above ls misses
      by_blank false =
          subst (λ x. holds_item x section item ≡ true)
            (append_assoc ls ([] ∷ []) (header ∷ render_item item 2 section))
            (by_above (ls ++ ([] ∷ []))
              (AllOf-append (λ l. is_key l ≡ false) ls ([] ∷ []) misses (blank-is_key, tt)))

-- In a configuration whose section, where it has no item, holds only blank lines and comments, for an
-- item whose values are read back as they are written and whose names set no field: when insert_item's
-- edit of the lines succeeds, item_exists finds the item in the lines that it gives.
pub insert_at_section-holds_item :
    (section : Section) (item : SourceItem) (ls new : List Bytes)
    → IsPlain item
    → IsTidy ls section
    → insert_at_section ls section item (find_top_level ls (section_key section)) ≡ ok new
    → holds_item new section item ≡ true
unfolding key is_key insert_at_section find_top_level
insert_at_section-holds_item section item ls new plain tidy i =
    by_header (find_top_level ls (section_key section)) refl i
  where
    by_header :
        (o : Option ℕ)
        → find_top_level ls (section_key section) ≡ o
        → insert_at_section ls section item o ≡ ok new
        → holds_item new section item ≡ true
    by_header none f j =
        let same : append_section ls section item ≡ new = cc in
        subst (λ x. holds_item x section item ≡ true) same
          (append_section-holds section item plain ls f)
    by_header (some idx) f j =
        let at = position-IsAt (is_key section item plain) ls idx f in
        let t : is_top_level_key at.line ≡ some (section_key section) = (==_iff _ _).0 at.holds in
        let f' : find_top_level ls (section_key section) ≡ some (length at.above) =
          f ∙ ap some (sym at.index) in
        let j' : insert_at_section ls section item (some (length at.above)) ≡ ok new =
          ap (λ k. insert_at_section ls section item (some k)) at.index ∙ j in
        found-holds section item plain at.above at.below at.line new at.before t
          (subst (λ x. IsTidy x section) at.whole tidy)
          (subst (λ x. find_top_level x (section_key section) ≡ some (length at.above)) at.whole f')
          (subst (λ x. insert_at_section x section item (some (length at.above)) ≡ ok new) at.whole
            j')
