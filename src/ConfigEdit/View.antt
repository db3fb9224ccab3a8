-- ===== src/ConfigEdit/View.antt =====
-- crates/agent-env/src/config_edit.rs: a section as the lines between its header and the next
-- top-level key.
use mathlib.Core.Path.{subst}
use mathlib.Core.List.{append_assoc}
use envctl.Prelude.{
  ℕ, zero, suc, ◌+◌, ◌-◌, ◌≤◌, ◌<◌, ◌≡◌, inl, inr, refl, sym, ap, ◌∙◌, Bool, true, false, ◌&&◌,
  Option, none, some, List, [], ◌∷◌, ◌++◌, arith, if◌then◌else◌, Bool-cases, Bytes, length,
  length-append, AllOf, ltb, ltb→lt, List_eq, ℕ_eq, Option_eq,
}
use envctl.Slices.{take, drop, drop-at, take-at}
use envctl.ConfigEdit.Lines.{
  line_at, slice, position, is_top_level_key, is_some_key, next_top_level, dashes, items_of,
  parse_items,
}
use envctl.ConfigEdit.{section_items, step_back, is_floating}
use envctl.ConfigEdit.Frame.{line_at-at}
use envctl.ConfigEdit.Items.{items_with, least_indent, items_of-items_with}

abbrev pub is_header : Bytes → Bool
is_header l = is_some_key (is_top_level_key l)

abbrev pub Headless : List Bytes → Type 0
Headless = AllOf (λ (l : Bytes). is_header l ≡ false)

abbrev pub body_of : List Bytes → List Bytes
body_of [] = []
body_of (l ∷ ls) = let rest = l ∷ body_of ls in if is_header l then [] else rest

abbrev pub rest_of : List Bytes → List Bytes
rest_of [] = []
rest_of (l ∷ ls) = let rest = rest_of ls in if is_header l then l ∷ ls else rest

pub body-rest : (ls : List Bytes) → body_of ls ++ rest_of ls ≡ ls
body-rest [] = refl
body-rest (l ∷ ls) = elim (Bool-cases (is_header l)) [
  | inl h ↦ rw (h) refl
  | inr h ↦ rw (h) (ap (l ∷◌) (body-rest ls))
]

pub body_of-Headless : (ls : List Bytes) → Headless (body_of ls)
body_of-Headless [] = tt
body_of-Headless (l ∷ ls) = by_test (is_header l) refl (body_of-Headless ls)
  where
    by_test :
        (b : Bool)
        → is_header l ≡ b
        → Headless (body_of ls)
        → Headless (if b then [] else l ∷ body_of ls)
    by_test true h a = tt
    by_test false h a = (h, a)

pub body_of-append : (xs ys : List Bytes) → Headless xs → body_of (xs ++ ys) ≡ xs ++ body_of ys
body_of-append [] ys a = refl
body_of-append (x ∷ xs) ys (h, a) = rw (h) (ap (x ∷◌) (body_of-append xs ys a))

pub rest_of-append : (xs ys : List Bytes) → Headless xs → rest_of (xs ++ ys) ≡ rest_of ys
rest_of-append [] ys a = refl
rest_of-append (x ∷ xs) ys (h, a) = rw (h) (rest_of-append xs ys a)

pub body_of-rest_of : (ls : List Bytes) → body_of (rest_of ls) ≡ []
body_of-rest_of [] = refl
body_of-rest_of (l ∷ ls) = elim (Bool-cases (is_header l)) [
  | inl h ↦ rw (h, h) refl
  | inr h ↦ rw (h) (body_of-rest_of ls)
]

abbrev end_at : (from whole : ℕ) → Option ℕ → ℕ
end_at from whole none = whole
end_at from whole (some i) = from + i

position-body_of :
    (ls : List Bytes) (from : ℕ)
    → end_at from (from + length ls) (position is_header ls) ≡ from + length (body_of ls)
position-body_of [] from = refl
position-body_of (l ∷ ls) from = elim (Bool-cases (is_header l)) [
  | inl h ↦ rw (h) refl
  | inr h ↦ rw (h) (by_later (position is_header ls) (position-body_of ls (suc from)))
]
  where
    by_later :
        (o : Option ℕ)
        → end_at (suc from) (suc from + length ls) o ≡ suc from + length (body_of ls)
        → end_at from (from + length (l ∷ ls)) (elim o [ none ↦ none | some i ↦ some (suc i) ])
          ≡ from + length (l ∷ body_of ls)
    by_later none e = omega (arith, e)
    by_later (some i) e = omega (arith, e)

module _ (above below : List Bytes) (header : Bytes) where
  whole : List Bytes
  whole = above ++ (header ∷ below)

  start : ℕ
  start = length above + 1

  drop-start : drop whole start ≡ below
  unfolding whole start
  drop-start =
      drop-at (above ++ (header ∷ below)) (above ++ (header ∷ [])) below (length above + 1)
        (sym (append_assoc above (header ∷ []) below))
        (omega (arith, length-append above (header ∷ [])))

  pub next_top_level-body :
      next_top_level (above ++ (header ∷ below)) (length above + 1)
      ≡ length above + 1 + length (body_of below)
  unfolding next_top_level whole start
  next_top_level-body =
      let n : length whole ≡ start + length below =
        omega (arith, length-append above (header ∷ below)) in
      ap (λ ls. end_at start (length whole) (position is_header ls)) drop-start
      ∙ ap (λ k. end_at start k (position is_header below)) n
      ∙ position-body_of below start

  pub slice-body :
      slice
        (above ++ (header ∷ below))
        (length above + 1)
        (length above + 1 + length (body_of below))
      ≡ body_of below
  unfolding whole start
  slice-body =
      let n : length above + 1 + length (body_of below) - (length above + 1)
          ≡ length (body_of below) =
        omega arith in
      ap (λ ls. take ls (length above + 1 + length (body_of below) - (length above + 1))) drop-start
      ∙ ap (take below) n
      ∙ take-at below (body_of below) (rest_of below) _ (sym (body-rest below)) refl

  pub section_items-view :
      section_items (above ++ (header ∷ below)) (length above)
      ≡ items_with
          (above ++ (header ∷ below))
          (rest_of below)
          (length above + 1)
          (length above + 1 + length (body_of below))
          (body_of below)
          (least_indent (body_of below))
  unfolding section_items parse_items whole
  section_items-view =
      let o = length above + 1 in
      let e = o + length (body_of below) in
      ap (λ k. items_of whole k (dashes o (slice whole o k))) next_top_level-body
      ∙ ap (λ b. items_of whole e (dashes o b)) slice-body
      ∙ items_of-items_with whole (rest_of below) o e (body_of below) (
        above ++ (header ∷ []),
        omega (arith, length-append above (header ∷ [])),
        ap (λ b. above ++ (header ∷ b)) (sym (body-rest below))
            ∙ sym (append_assoc above (header ∷ []) (body_of below ++ rest_of below)),
      )

-- The lines that `step_back` passes are blank or comments.
pub step_back-floating :
    (ls : List Bytes) (floor n i : ℕ)
    → step_back ls floor n ≤ i
    → i < n
    → is_floating (line_at ls i) ≡ true
unfolding step_back
step_back-floating ls floor zero i h k = absurd (omega arith)
step_back-floating ls floor (suc n) i h k =
    elim (Bool-cases (ltb floor (suc n) && is_floating (line_at ls n))) [
      | inl t ↦
          let h' : step_back ls floor n ≤ i =
            subst (λ (b : Bool). (if b then step_back ls floor n else suc n) ≤ i) t h in
          elim (Bool-cases (ltb i n)) [
            | inl s ↦ step_back-floating ls floor n i h' (ltb→lt i n s)
            | inr s ↦
                let e : i ≡ n = ground arith in
                ap (λ j. is_floating (line_at ls j)) e ∙ ground arith
          ]
      | inr t ↦
          let h' : suc n ≤ i =
            subst (λ (b : Bool). (if b then step_back ls floor n else suc n) ≤ i) t h in
          absurd (omega (arith, h', k))
    ]

-- What holds at every index of a part holds of its lines.
pub AllOf-line_at :
    (P : Bytes → Type 0) (pre part rest : List Bytes)
    → ((i : ℕ)
        → length pre ≤ i
        → i < length pre + length part
        → P (line_at (pre ++ (part ++ rest)) i))
    → AllOf P part
AllOf-line_at P pre [] rest h = tt
AllOf-line_at P pre (l ∷ part) rest h = (
  subst P (line_at-at pre (part ++ rest) l) (h (length pre) (omega arith) (omega arith)),
  AllOf-line_at P (pre ++ (l ∷ [])) part rest λ i a b.
      subst (λ ls. P (line_at ls i)) (sym (append_assoc pre (l ∷ []) (part ++ rest)))
        (h i (omega (arith, a, length-append pre (l ∷ [])))
          (omega (arith, b, length-append pre (l ∷ [])))),
)
