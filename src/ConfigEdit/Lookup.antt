-- ===== src/ConfigEdit/Lookup.antt =====
-- crates/agent-env/src/config_edit.rs: where `insert_item` puts an item, for `item_exists`.
use mathlib.Core.Path.{subst}
use mathlib.Core.List.{append_assoc}
use envctl.Prelude.{
  ℕ, zero, suc, ◌+◌, ◌-◌, ◌≤◌, ◌<◌, ◌≡◌, ◌⊎◌, inl, inr, refl, sym, ap, ◌∙◌, true, Option, none,
  some, List, [], ◌∷◌, ◌++◌, arith, Bytes, length, length-append, AllOf, List_eq, ℕ_eq, Option_eq,
}
use envctl.Slices.{take, drop, take-append-drop, take-at, drop-at}
use envctl.ConfigEdit.Lines.{line_at, items_at, ParsedItem}
use envctl.ConfigEdit.{
  Section, SourceItem, render_item, splice, step_back, is_floating, first_indent, last_end,
  section_items, insert_under,
}
use envctl.ConfigEdit.Frame.{step_back-le, le-step_back, last_end-items_at}
use envctl.ConfigEdit.Items.{items_with, least_indent}
use envctl.ConfigEdit.Block.{
  or_two, least_then, first_indent-items_with, least_indent-append, least_indent-Hit,
  least_from-IsDeeper,
}
use envctl.ConfigEdit.Rendered.{inner_lines, first_line, render_item-lines, float-is_dash}
use envctl.ConfigEdit.Found.{Floating, AllOf-map}
use envctl.ConfigEdit.View.{
  body_of, rest_of, body-rest, section_items-view, step_back-floating, AllOf-line_at,
}

pub AllOf-parts :
    (P : Bytes → Type 0) (xs ys : List Bytes) → AllOf P (xs ++ ys) → AllOf P xs × AllOf P ys
AllOf-parts P [] ys a = (tt, a)
AllOf-parts P (x ∷ xs) ys (p, a) = let (b, c) = AllOf-parts P xs ys a in ((p, b), c)

least_indent-Floating : (ls : List Bytes) → Floating ls → least_indent ls ≡ none
least_indent-Floating [] a = refl
least_indent-Floating (l ∷ ls) (h, a) = rw (float-is_dash l h) (least_indent-Floating ls a)

-- Blank lines and comments behind the items change no indentation.
pub least_indent-floats :
    (under floats : List Bytes)
    → Floating floats
    → least_indent (under ++ floats) ≡ least_indent under
least_indent-floats under floats a =
    least_indent-append under floats ∙ by_under (least_indent under)
  where
    by_under : (m : Option ℕ) → least_then m floats ≡ m
    by_under none = least_indent-Floating floats a
    by_under (some m) =
        ap some (least_from-IsDeeper m floats (AllOf-map (λ l h. inl (float-is_dash l h)) floats a))

length-take : (ls : List Bytes) (n : ℕ) → n ≤ length ls → length (take ls n) ≡ n
unfolding take
length-take ls zero h = refl
length-take [] (suc n) h = absurd (omega arith)
length-take (l ∷ ls) (suc n) h = ap suc (length-take ls n (omega arith))

module _ (above below : List Bytes) (header : Bytes) (section : Section) (item : SourceItem) where
  w : List Bytes
  w = above ++ (header ∷ below)

  o : ℕ
  o = length above + 1

  body : List Bytes
  body = body_of below

  e : ℕ
  unfolding o body
  e = o + length body

  items : List ParsedItem
  unfolding w
  items = section_items w (length above)

  p : ℕ
  unfolding w o items
  p = step_back w o (last_end o items)

  k : ℕ
  unfolding p o
  k = p - o

  items-view : items ≡ items_with w (rest_of below) o e body (least_indent body)
  unfolding items w o e body
  items-view = section_items-view above below header

  last_end-items :
      (m : Option ℕ)
      → least_indent body ≡ m
      → ((m ≡ none) × (last_end o items ≡ o)) ⊎ (last_end o items ≡ e)
  unfolding e
  last_end-items none h =
      inl (refl, ap (last_end o) (items-view ∙ ap (items_with w (rest_of below) o e body) h))
  last_end-items (some n) h =
      let (i, is, q) = least_indent-Hit body n o h in
      inr (
        ap (last_end o)
          (items-view ∙ ap (items_with w (rest_of below) o e body) h ∙ ap (items_at w n e) q)
        ∙ last_end-items_at w n e o i is)

  o-le-p : o ≤ p
  unfolding p e
  o-le-p = elim (last_end-items (least_indent body) refl) [
    | inl (m, q) ↦ le-step_back w o (last_end o items) (omega (arith, q))
    | inr q ↦ le-step_back w o (last_end o items) (omega (arith, q))
  ]

  e-length : e ≡ length above + 1 + length body
  unfolding e o
  e-length = refl

  p-le-e : p ≤ e
  unfolding p e
  p-le-e = elim (last_end-items (least_indent body) refl) [
    | inl (m, q) ↦ omega (arith, q, step_back-le w o (last_end o items))
    | inr q ↦ omega (arith, q, step_back-le w o (last_end o items))
  ]

  pub under : List Bytes
  under = take body k

  pub floats : List Bytes
  floats = drop body k

  pub under-floats : under ++ floats ≡ body_of below
  unfolding under floats body
  under-floats = take-append-drop body k

  length-under : length under ≡ k
  unfolding under k e
  length-under = length-take body k (omega (arith, o-le-p, p-le-e))

  w-cut : w ≡ (above ++ (header ∷ under)) ++ (floats ++ rest_of below)
  unfolding w body
  w-cut =
      ap (λ b. above ++ (header ∷ b)) (sym (body-rest below))
      ∙ ap (λ b. above ++ (header ∷ (b ++ rest_of below))) (sym under-floats)
      ∙ ap (λ b. above ++ (header ∷ b)) (append_assoc under floats (rest_of below))
      ∙ sym (append_assoc above (header ∷ under) (floats ++ rest_of below))

  length-front : length (above ++ (header ∷ under)) ≡ p
  unfolding k o
  length-front = omega (arith, length-append above (header ∷ under), length-under, o-le-p)

  pub floats-Floating :
      (least_indent (body_of below) ≡ none → Floating (body_of below)) → Floating floats
  unfolding body p
  floats-Floating tidy = elim (last_end-items (least_indent body) refl) [
    | inl (m, q) ↦
        (AllOf-parts (λ l. is_floating l ≡ true) under floats
          (subst Floating (sym under-floats) (tidy m))).1
    | inr q ↦
        AllOf-line_at (λ l. is_floating l ≡ true) (above ++ (header ∷ under)) floats (rest_of below)
          λ i a b.
            subst (λ ls. is_floating (line_at ls i) ≡ true) w-cut
              (step_back-floating w o (last_end o items) i (omega (arith, a, length-front))
                (within i q b))
  ]
    where
      total : length under + length floats ≡ length body
      total = sym (length-append under floats) ∙ ap length under-floats

      within :
          (i : ℕ)
          → last_end o items ≡ e
          → i < length (above ++ (header ∷ under)) + length floats
          → i < last_end o items
      within i q b = omega (arith, q, b, total, length-append above (header ∷ under), e-length)

  -- The lines after the insertion.
  pub insert_under-parts :
      (n : ℕ) × (insert_under (above ++ (header ∷ below)) (length above) section item
        ≡ above
          ++ (header
              ∷ ((under ++ (first_line item n ∷ (inner_lines item n section ++ floats)))
                  ++ rest_of below)))
      × (n ≡ or_two (least_indent (body_of below)))
  unfolding insert_under splice section_items items p o w body e
  insert_under-parts =
      let n = first_indent items in
      let block = render_item item n section in
      let front = above ++ (header ∷ under) in
      let behind = floats ++ rest_of below in
      let cut : splice w p block ≡ front ++ (block ++ behind) =
        ap (λ x. x ++ (block ++ drop w p)) (take-at w front behind p w-cut length-front)
        ∙ ap (λ x. front ++ (block ++ x)) (drop-at w front behind p w-cut length-front) in
      (
        n,
        cut
            ∙ ap (λ b. front ++ (b ++ behind)) (render_item-lines item n section)
            ∙ simp append_assoc,
        ap first_indent items-view ∙ first_indent-items_with w o e body,
      )
