-- ===== src/ConfigEdit/Inserted.antt =====
-- crates/agent-env/src/config_edit.rs: the lines of the file after `insert_item`.
use mathlib.Core.Path.{subst}
use envctl.Prelude.{
  ℕ, suc, ◌+◌, ◌≡◌, ◌⊎◌, inl, inr, refl, sym, ap, ◌∙◌, Bool, true, false, Option, none, some, List,
  [], ◌∷◌, ◌++◌, arith, if◌then◌else◌, Bool-cases, Bytes, codes, length, ==_iff, ◌==◌, List_eq,
  ℕ_eq, Option_eq,
}
use envctl.Slices.{lines}
use envctl.ConfigEdit.Lines.{is_top_level_key, find_top_level, section_inline_value}
use envctl.ConfigEdit.{
  Section, section_key, SourceItem, render_item, first_indent, normalized, is_inline, insert_under,
  section_items, last_is_blank, append_section, insert_at_section, Edited, ok, err, inline_list,
  rejoined, insert_item, join_lines,
}
use envctl.ConfigEdit.Frame.{line_at-at, position-IsAt, set_line-at}
use envctl.ConfigEdit.View.{Headless}
use envctl.ConfigEdit.Place.{IsPlaced, insert_under-Placed}

-- The item stands in its section, below the last item and with the indentation of the first, and every
-- other line is as it was, but for the header, which may become `key:`.
pub record IsInserted (section : Section) (item : SourceItem) (ls out : List Bytes) : Type 0 where
  pub above : List Bytes
  pub header : Bytes
  pub below : List Bytes
  pub under : List Bytes
  pub after : List Bytes
  pub new_header : Bytes
  pub whole : ls ≡ above ++ (header ∷ below)
  pub split : below ≡ under ++ after
  pub in_section : Headless under
  pub place :
      IsPlaced (above ++ (new_header ∷ below)) (length above) (length above + suc (length under))
  pub result :
      out
      ≡ above
        ++ (new_header
            ∷ (under
                ++ (render_item item
                      (first_indent (section_items (above ++ (new_header ∷ below)) (length above)))
                      section
                    ++ after)))
  pub is_header : is_top_level_key header ≡ some (section_key section)
  pub kept_header : (new_header ≡ header) ⊎ (new_header ≡ section_key section ++ codes ":")
  pub is_block : is_inline (section_inline_value header (section_key section)) ≡ false

-- The section is not there: it follows what was there, after a blank line.
abbrev pub IsAppended : Section → SourceItem → (ls out : List Bytes) → Type 0
IsAppended section item ls out =
    (find_top_level ls (section_key section) ≡ none)
    × ((blank : List Bytes) × ((blank ≡ []) ⊎ (blank ≡ [] ∷ []))
        × (out
            ≡ ls ++ (blank ++ ((section_key section ++ codes ":") ∷ render_item item 2 section))))

module _ (section : Section) (item : SourceItem) where
  key : Bytes
  key = section_key section

  insert_under-IsInserted :
      (above below : List Bytes) (header new_header : Bytes)
      → is_top_level_key header ≡ some key
      → (new_header ≡ header) ⊎ (new_header ≡ key ++ codes ":")
      → is_inline (section_inline_value header key) ≡ false
      → IsInserted section item
          (above ++ (header ∷ below))
          (insert_under (above ++ (new_header ∷ below)) (length above) section item)
  unfolding key
  insert_under-IsInserted above below header new_header t n b =
      let p = insert_under-Placed above below new_header section item in
      record {
        above = above;
        header = header;
        below = below;
        under = p.under;
        after = p.after;
        new_header = new_header;
        whole = refl;
        split = p.split;
        in_section = p.in_section;
        place = p.place;
        result = p.result;
        is_header = t;
        kept_header = n;
        is_block = b;
      }

  normalized-cases :
      (above below : List Bytes) (header : Bytes) (o : Option Bytes)
      → (new_header : Bytes) × ((new_header ≡ header) ⊎ (new_header ≡ key ++ codes ":"))
        × (normalized (above ++ (header ∷ below)) (length above) key o
            ≡ above ++ (new_header ∷ below))
  unfolding normalized
  normalized-cases above below header none = (header, inl refl, refl)
  normalized-cases above below header (some val) =
      (key ++ codes ":", inr refl, set_line-at above below header (key ++ codes ":") _ refl)

  pub header_normalized :
      (above below : List Bytes) (header : Bytes) (out : List Bytes)
      → insert_at_section (above ++ (header ∷ below)) section item (some (length above)) ≡ ok out
      → (new_header : Bytes) × ((new_header ≡ header)
          ⊎ (new_header ≡ section_key section ++ codes ":"))
        × (is_inline (section_inline_value header (section_key section)) ≡ false)
        × (insert_under (above ++ (new_header ∷ below)) (length above) section item ≡ out)
  unfolding insert_at_section key
  header_normalized above below header out h =
      let inline = section_inline_value header key in
      let (new_header, n, e) = normalized-cases above below header inline in
      let h' : (if is_inline inline
            then err inline_list
            else ok (
                insert_under (normalized (above ++ (header ∷ below)) (length above) key inline)
                  (length above) section item))
          ≡ ok out =
        subst
          (λ (l : Bytes).
            (if is_inline (section_inline_value l key)
              then err inline_list
              else ok (
                  insert_under
                    (normalized (above ++ (header ∷ below)) (length above) key
                      (section_inline_value l key))
                    (length above) section item))
            ≡ ok out)
          (line_at-at above below header) h in
      elim (Bool-cases (is_inline inline)) [
        | inl b ↦ absurd (ground arith)
        | inr b ↦
            let same : insert_under (above ++ (new_header ∷ below)) (length above) section item
                ≡ out =
              ground arith in
            (new_header, n, b, same)
      ]

  at_header :
      (above below : List Bytes) (header : Bytes) (out : List Bytes)
      → is_top_level_key header ≡ some key
      → insert_at_section (above ++ (header ∷ below)) section item (some (length above)) ≡ ok out
      → IsInserted section item (above ++ (header ∷ below)) out
  unfolding key
  at_header above below header out t h =
      let (new_header, n, b, same) = header_normalized above below header out h in
      subst (IsInserted section item (above ++ (header ∷ below))) same
        (insert_under-IsInserted above below header new_header t n b)

  insert_at_section-IsInserted :
      (ls out : List Bytes) (idx : ℕ)
      → find_top_level ls key ≡ some idx
      → insert_at_section ls section item (some idx) ≡ ok out
      → IsInserted section item ls out
  unfolding find_top_level key
  insert_at_section-IsInserted ls out idx f h =
      let at = position-IsAt (λ l. is_top_level_key l == some key) ls idx f in
      let t : is_top_level_key at.line ≡ some key = (==_iff _ _).0 at.holds in
      let h' : insert_at_section (at.above ++ (at.line ∷ at.below)) section item
            (some (length at.above))
          ≡ ok out =
        ap (λ l. insert_at_section l section item (some (length at.above))) (sym at.whole)
        ∙ ap (λ i. insert_at_section ls section item (some i)) at.index
        ∙ h in
      subst (λ (l : List Bytes). IsInserted section item l out) (sym at.whole)
        (at_header at.above at.below at.line out t h')

  insert_at_section-cases :
      (ls out : List Bytes) (o : Option ℕ)
      → find_top_level ls key ≡ o
      → insert_at_section ls section item o ≡ ok out
      → IsAppended section item ls out ⊎ IsInserted section item ls out
  unfolding insert_at_section append_section key
  insert_at_section-cases ls out none f h =
      inl (f, (blank (last_is_blank ls), blank-cases (last_is_blank ls), cc))
    where
      blank : Bool → List Bytes
      blank b = if b then [] else [] ∷ []

      blank-cases : (b : Bool) → (blank b ≡ []) ⊎ (blank b ≡ [] ∷ [])
      blank-cases true = inl refl
      blank-cases false = inr refl
  insert_at_section-cases ls out (some idx) f h = inr (insert_at_section-IsInserted ls out idx f h)

-- When insert_item succeeds, it writes the lines of the text with the rendered item added. Where the
-- section is missing, they are followed by at most one blank line, the header and the item. Where it
-- is there, the header had no inline list and may have become `key:`, every other line is as it was and
-- in its order, and the item stands in the section, with no top-level key between the header and it:
-- at the end of the section's last item, or below the header where there is none, except that it comes
-- before the blank lines and comments just above that end. Its indentation is that of the section's
-- first item, or 2.
pub insert_item-Inserted :
    (text : Bytes) (section : Section) (item : SourceItem) (out : Bytes)
    → insert_item text section item ≡ ok out
    → (new : List Bytes) × (out ≡ join_lines new text)
      × (IsAppended section item (lines text) new ⊎ IsInserted section item (lines text) new)
unfolding insert_item key
insert_item-Inserted text section item out h =
    by_result
      (insert_at_section (lines text) section item
        (find_top_level (lines text) (section_key section)))
      refl h
  where
    by_result :
        (r : Edited (List Bytes))
        → insert_at_section
            (lines text)
            section
            item
            (find_top_level (lines text) (section_key section))
          ≡ r
        → rejoined text r ≡ ok out
        → (new : List Bytes) × (out ≡ join_lines new text)
          × (IsAppended section item (lines text) new ⊎ IsInserted section item (lines text) new)
    by_result (ok new) e j =
        (new, cc, insert_at_section-cases section item (lines text) new _ refl e)
    by_result (err x) e j = cc
