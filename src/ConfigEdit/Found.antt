-- ===== src/ConfigEdit/Found.antt =====
-- crates/agent-env/src/config_edit.rs: the item that `insert_item` wrote, looked for by `item_exists`.
use mathlib.Core.List.{append-nil, append_assoc}
use envctl.Prelude.{
  ℕ, ◌+◌, ◌-◌, ◌≡◌, inl, refl, sym, ap, ◌∙◌, Bool, true, false, ◌&&◌, none, some, List, [], ◌∷◌,
  ◌++◌, arith, Bytes, length, length-append, AllOf, any, ==_refl, List_eq, ℕ_eq, Option_eq,
}
use envctl.Slices.{take, take-at, drop-at}
use envctl.Wiring.ShellRc.{unwrap_or_default}
use envctl.ConfigEdit.Lines.{is_some_key, slice, items_at, ParsedItem, extract_fields, fields_from}
use envctl.ConfigEdit.{Section, SourceItem, pin_value, is_floating, section_items, same_identity}
use envctl.ConfigEdit.Items.{items_with, least_indent, dashes_at}
use envctl.ConfigEdit.Block.{IsDeeper, or_two, least_indent-block, dashes_at-block}
use envctl.ConfigEdit.Rendered.{
  IsInner, inner_lines, first_line, render_item-lines, inner_lines-IsInner, first_line-is_dash,
  first_line-indent_of, first_line-inner, float-is_dash, AllOf-append,
}
use envctl.ConfigEdit.Read.{IsPlain, fields, render_item-fields, fields_from-append, floats-fields}
use envctl.ConfigEdit.View.{
  is_header, Headless, body_of, rest_of, body_of-append, section_items-view,
}

abbrev pub Floating : List Bytes → Type 0
Floating = AllOf (λ (l : Bytes). is_floating l ≡ true)

-- An item that is the last of its section is among the items.
any-last :
    (f : ParsedItem → Bool) (ls : List Bytes) (n e p : ℕ) (xs : List ℕ)
    → f (record { start = p; end = e; indent = n; fields = extract_fields ls p e }) ≡ true
    → any f (items_at ls n e (xs ++ (p ∷ []))) ≡ true
any-last f ls n e p [] h = rw (h) refl
any-last f ls n e p (x ∷ xs) h = ground (arith, any-last f ls n e p xs h)

all_true : {a b c : Bool} → a ≡ true → b ≡ true → c ≡ true → (a && (b && c)) ≡ true
all_true h h' h'' = rw (h, h', h'') refl

identity-fields :
    (item : SourceItem) (start end n : ℕ)
    → same_identity item (record {
      start = start;
      end = end;
      indent = n;
      fields = fields (some item.source) (pin_value item.pin) item.sub_dir;
    })
      ≡ true
identity-fields item start end n =
    all_true (==_refl item.source) (==_refl (unwrap_or_default (pin_value item.pin)))
      (==_refl (unwrap_or_default item.sub_dir))

pub AllOf-map :
    {P Q : Bytes → Type 0} → ((l : Bytes) → P l → Q l) → (ls : List Bytes) → AllOf P ls → AllOf Q ls
AllOf-map f [] a = tt
AllOf-map f (l ∷ ls) (x, a) = (f l x, AllOf-map f ls a)

-- A section in three parts, with the item's lines before the last.
module _ (above under floats rest : List Bytes) (header : Bytes) (section : Section)
    (item : SourceItem) (n : ℕ) where
  dash : Bytes
  dash = first_line item n

  more : List Bytes
  more = inner_lines item n section

  body : List Bytes
  unfolding dash more
  body = under ++ (dash ∷ (more ++ floats))

  new : List Bytes
  unfolding body
  new = above ++ (header ∷ (body ++ rest))

  module _ (headless_under : Headless under) (headless_floats : Headless floats)
      (headless_rest : body_of rest ≡ []) (floating : Floating floats)
      (least : n ≡ or_two (least_indent under)) (plain : IsPlain item) where
    more-IsDeeper : AllOf (IsDeeper n) (more ++ floats)
    unfolding more
    more-IsDeeper =
        AllOf-append (IsDeeper n) more floats
          (AllOf-map (λ l (i : IsInner n l). i.deeper) more (inner_lines-IsInner item n section))
          (AllOf-map (λ l h. inl (float-is_dash l h)) floats floating)

    body-Headless : Headless body
    unfolding body more dash
    body-Headless =
        AllOf-append (λ l. is_header l ≡ false) under (dash ∷ (more ++ floats)) headless_under
          (
            ap is_some_key (first_line-inner item n),
            AllOf-append (λ l. is_header l ≡ false) more floats
                (AllOf-map (λ l (i : IsInner n l). ap is_some_key i.inner) more
                  (inner_lines-IsInner item n section))
                headless_floats,
          )

    body_of-new : body_of (body ++ rest) ≡ body
    body_of-new =
        body_of-append body rest body-Headless ∙ ap (body ++◌) headless_rest ∙ append-nil body

    o : ℕ
    o = length above + 1

    p : ℕ
    unfolding o
    p = o + length under

    e : ℕ
    unfolding o
    e = o + length body

    items-new :
        section_items new (length above) ≡ items_at new n e (dashes_at n o under ++ (p ∷ []))
    unfolding new body dash more o p e
    items-new =
        section_items-view above (body ++ rest) header
        ∙ ap (λ b. items_with new (rest_of (body ++ rest)) o (o + length b) b (least_indent b))
            body_of-new
        ∙ ap (items_with new (rest_of (body ++ rest)) o e body) (
            least_indent-block n under more floats dash (first_line-is_dash item n)
              (first_line-indent_of item n) more-IsDeeper least)
        ∙ ap (items_at new n e) (
            dashes_at-block n under more floats dash (first_line-is_dash item n)
              (first_line-indent_of item n) more-IsDeeper o)

    slice-new : slice new p e ≡ dash ∷ (more ++ floats)
    unfolding new body o p e
    slice-new =
        let block = dash ∷ (more ++ floats) in
        let front = above ++ (header ∷ under) in
        let cut : new ≡ front ++ (block ++ rest) =
          ap (λ x. above ++ (header ∷ x)) (append_assoc under block rest)
          ∙ sym (append_assoc above (header ∷ under) (block ++ rest)) in
        let n1 : length front ≡ p = omega (arith, length-append above (header ∷ under)) in
        let n2 : length block ≡ e - p = omega (arith, length-append under block) in
        ap (λ ls. take ls (e - p)) (drop-at new front (block ++ rest) p cut n1)
        ∙ take-at (block ++ rest) block rest (e - p) refl n2

    fields-new :
        extract_fields new p e ≡ fields (some item.source) (pin_value item.pin) item.sub_dir
    unfolding extract_fields dash more
    fields-new =
        ap (fields_from (fields none none none)) slice-new
        ∙ fields_from-append (dash ∷ more) (fields none none none) floats
        ∙ ap (λ f. fields_from f floats)
            (ap (fields_from (fields none none none)) (sym (render_item-lines item n section))
              ∙ render_item-fields item n section plain)
        ∙ floats-fields floats _ floating

    pub found-item :
        any (same_identity item) (
          section_items
            (above
              ++ (header
                  ∷ ((under ++ (first_line item n ∷ (inner_lines item n section ++ floats)))
                      ++ rest)))
            (length above))
        ≡ true
    unfolding new body dash more
    found-item =
        ap (any (same_identity item)) items-new
        ∙ any-last (same_identity item) new n e p (dashes_at n o under) (
            ap (λ f. same_identity item (record { start = p; end = e; indent = n; fields = f }))
              fields-new
            ∙ identity-fields item p e n)
