-- ===== src/ConfigEdit/Place.antt =====
-- crates/agent-env/src/config_edit.rs: the place at which `insert_item` puts an item into a section
-- that is there.
use mathlib.Core.List.{append_assoc}
use mathlib.Core.Path.{subst}
use envctl.Prelude.{
  ℕ, zero, suc, ◌+◌, ◌-◌, ◌≤◌, ◌<◌, ◌≡◌, ◌⊎◌, inl, inr, refl, sym, ap, ◌∙◌, true, false, ◌&&◌, List,
  [], ◌∷◌, ◌++◌, arith, Bool-cases, Bytes, length, length-append, ltb, ==_iff, ◌==◌, List_eq, ℕ_eq,
}
use envctl.Slices.{take, drop, take-append-drop, length-take}
use envctl.ConfigEdit.Lines.{line_at, next_top_level, parse_items, dashes, slice, ParsedItem}
use envctl.ConfigEdit.{
  Section, SourceItem, render_item, splice, step_back, is_floating, first_indent, last_end,
  insert_under, section_items,
}
use envctl.ConfigEdit.Frame.{
  step_back-le, le-step_back, last_end-items_of, le-next_top_level, take-past, drop-past,
}
use envctl.ConfigEdit.View.{
  Headless, body_of, rest_of, body-rest, body_of-Headless, next_top_level-body,
}

-- The place `p` is at the end of the last item of the section at `idx`, or below the section's header
-- where it has no item, but for the blank lines and comments just above that end, which stay behind
-- the place.
pub record IsPlaced (ls : List Bytes) (idx p : ℕ) : Type 0 where
  pub below_header : idx + 1 ≤ p
  pub before_end : p ≤ last_end (idx + 1) (section_items ls idx)
  pub passed :
      (i : ℕ)
      → p ≤ i
      → i < last_end (idx + 1) (section_items ls idx)
      → is_floating (line_at ls i) ≡ true
  pub settled : (p ≡ idx + 1) ⊎ ((i : ℕ) × (p ≡ suc i) × (is_floating (line_at ls i) ≡ false))

step_back-passed :
    (ls : List Bytes) (floor n i : ℕ)
    → step_back ls floor n ≤ i
    → i < n
    → is_floating (line_at ls i) ≡ true
unfolding step_back
step_back-passed ls floor zero i h k = absurd (omega (arith, k))
step_back-passed ls floor (suc n) i h k =
    elim (Bool-cases (ltb floor (suc n) && is_floating (line_at ls n))) [
      | inl e ↦
          let f : is_floating (line_at ls n) ≡ true = ground arith in
          let s : step_back ls floor n ≤ i = rw (e) at h in
          elim (Bool-cases (i == n)) [
            | inl q ↦ rw ((==_iff i n).0 q) f
            | inr q ↦
                let below : i < n = ground (arith, ==_iff i n) in
                step_back-passed ls floor n i s below
          ]
      | inr e ↦ absurd (omega (arith, k, rw (e) at h))
    ]

step_back-settled :
    (ls : List Bytes) (floor n : ℕ)
    → floor ≤ n
    → (step_back ls floor n ≡ floor)
      ⊎ ((i : ℕ) × (step_back ls floor n ≡ suc i) × (is_floating (line_at ls i) ≡ false))
unfolding step_back
step_back-settled ls floor zero h = inl (omega (arith, h))
step_back-settled ls floor (suc n) h = elim (Bool-cases (ltb floor (suc n))) [
  | inr a ↦ rw (a) (inl (ground arith))
  | inl a ↦ elim (Bool-cases (is_floating (line_at ls n))) [
    | inl f ↦ rw (a, f) (step_back-settled ls floor n (ground arith))
    | inr f ↦ rw (a, f) (inr (n, refl, f))
  ]
]

take-Headless :
    (xs ys : List Bytes) (k : ℕ) → k ≤ length xs → Headless xs → Headless (take (xs ++ ys) k)
unfolding take
take-Headless xs ys zero h a = tt
take-Headless [] ys (suc k) h a = absurd (omega (arith, h))
take-Headless (x ∷ xs) ys (suc k) h (a, b) = (a, take-Headless xs ys k (omega (arith, h)) b)

-- What `insert_under` makes of the lines below a header.
pub record Placed (above below : List Bytes) (header : Bytes) (section : Section)
    (item : SourceItem) : Type 0 where
  pub under : List Bytes
  pub after : List Bytes
  pub split : below ≡ under ++ after
  pub in_section : Headless under
  pub place :
      IsPlaced (above ++ (header ∷ below)) (length above) (length above + suc (length under))
  pub result :
      insert_under (above ++ (header ∷ below)) (length above) section item
      ≡ above
        ++ (header
            ∷ (under
                ++ (render_item item
                      (first_indent (section_items (above ++ (header ∷ below)) (length above)))
                      section
                    ++ after)))

module _ (above below : List Bytes) (header : Bytes) where
  whole : List Bytes
  whole = above ++ (header ∷ below)

  splice-below :
      (k : ℕ) (block : List Bytes)
      → splice whole (length above + suc k) block
        ≡ above ++ (header ∷ (take below k ++ (block ++ drop below k)))
  unfolding splice whole
  splice-below k block =
      rw (take-past above below header k, drop-past above below header k)
        (append_assoc above (header ∷ take below k) (block ++ drop below k))

  items : List ParsedItem
  items = section_items whole (length above)

  section_end : ℕ
  section_end = next_top_level whole (length above + 1)

  below-section_end : length above + 1 ≤ section_end
  unfolding section_end whole
  below-section_end =
      le-next_top_level whole (length above + 1)
        (omega (arith, length-append above (header ∷ below)))

  end-cases :
      (last_end (length above + 1) items ≡ length above + 1)
      ⊎ (last_end (length above + 1) items ≡ section_end)
  unfolding items section_items parse_items section_end
  end-cases =
      last_end-items_of whole section_end (length above + 1)
        (dashes (length above + 1) (slice whole (length above + 1) section_end))

  floor-le-last_end : length above + 1 ≤ last_end (length above + 1) items
  floor-le-last_end = elim end-cases [
    | inl e ↦ omega (arith, e)
    | inr e ↦ omega (arith, e, below-section_end)
  ]

  last_end-le : last_end (length above + 1) items ≤ section_end
  last_end-le = elim end-cases [
    | inl e ↦ omega (arith, e, below-section_end)
    | inr e ↦ omega (arith, e)
  ]

  section_end-body : section_end ≡ length above + 1 + length (body_of below)
  unfolding section_end whole
  section_end-body = next_top_level-body above below header

  place : ℕ
  place = step_back whole (length above + 1) (last_end (length above + 1) items)

  place-IsPlaced : IsPlaced whole (length above) place
  unfolding place items
  place-IsPlaced = record {
    below_header = le-step_back whole (length above + 1) _ floor-le-last_end;
    before_end = step_back-le whole (length above + 1) _;
    passed = step_back-passed whole (length above + 1) _;
    settled = step_back-settled whole (length above + 1) _ floor-le-last_end;
  }

  pub insert_under-Placed :
      (section : Section) (item : SourceItem) → Placed above below header section item
  unfolding insert_under items section_items whole place
  insert_under-Placed section item =
      let at = place-IsPlaced in
      let k = place - suc (length above) in
      let e : place ≡ length above + suc k = omega (arith, at.below_header) in
      let h : k ≤ length (body_of below) =
        omega (arith, e, at.before_end, last_end-le, section_end-body) in
      let all = body-rest below in
      let n : length (body_of below) + length (rest_of below) ≡ length below =
        sym (length-append (body_of below) (rest_of below)) ∙ ap length all in
      let under = take below k in
      let size : length under ≡ k = length-take below k (omega (arith, h, n)) in
      let headless : Headless under =
        subst (λ (ls : List Bytes). Headless (take ls k)) all
          (take-Headless (body_of below) (rest_of below) k h (body_of-Headless below)) in
      record {
        under = under;
        after = drop below k;
        split = sym (take-append-drop below k);
        in_section = headless;
        place =
            subst (IsPlaced whole (length above)) (e ∙ ap (λ j. length above + suc j) (sym size))
              at;
        result =
            ap (λ j. splice whole j (render_item item (first_indent items) section)) e
            ∙ splice-below k (render_item item (first_indent items) section);
      }
