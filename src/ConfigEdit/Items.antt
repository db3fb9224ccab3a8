-- ===== src/ConfigEdit/Items.antt =====
-- crates/agent-env/src/config_edit.rs: `parse_items` on a section that lies between other lines, by
-- recursion on the section's lines.
use mathlib.Core.List.{append_assoc}
use envctl.Prelude.{
  ℕ, suc, ◌≡◌, inl, inr, refl, sym, ap, ◌∙◌, Bool, true, false, Option, none, some, List, [], ◌∷◌,
  ◌++◌, arith, if◌then◌else◌, Bool-cases, Bytes, length, length-append, leb, ◌==◌, List_eq, ℕ_eq,
}
use envctl.ConfigEdit.Lines.{
  line_at, is_dash, indent_of, dashes, min_indent, with_indent, items_at, items_of, ParsedItem,
}
use envctl.ConfigEdit.Frame.{line_at-at}

abbrev pub smaller : ℕ → ℕ → ℕ
smaller a b = if leb a b then a else b

-- The least indentation of the dash lines, and at most `least`.
abbrev pub least_from : ℕ → List Bytes → ℕ
least_from least [] = least
least_from least (l ∷ ls) = least_from (if is_dash l then smaller least (indent_of l) else least) ls

abbrev pub least_indent : List Bytes → Option ℕ
least_indent [] = none
least_indent (l ∷ ls) =
    let later = least_indent ls in if is_dash l then some (least_from (indent_of l) ls) else later

-- The indices of the dash lines at one indentation.
abbrev pub dashes_at : (n o : ℕ) → List Bytes → List ℕ
dashes_at n o [] = []
dashes_at n o (l ∷ ls) =
    let rest = dashes_at n (suc o) ls in
    if is_dash l then (if indent_of l == n then o ∷ rest else rest) else rest

pub dashes-dash :
    (o : ℕ) (l : Bytes) (body : List Bytes)
    → is_dash l ≡ true
    → dashes o (l ∷ body) ≡ o ∷ dashes (suc o) body
dashes-dash o l body d = rw (d) refl

dashes-other :
    (o : ℕ) (l : Bytes) (body : List Bytes)
    → is_dash l ≡ false
    → dashes o (l ∷ body) ≡ dashes (suc o) body
dashes-other o l body d = rw (d) refl

pub least-dash :
    (l : Bytes) (body : List Bytes)
    → is_dash l ≡ true
    → least_indent (l ∷ body) ≡ some (least_from (indent_of l) body)
least-dash l body d = rw (d) refl

pub least-other :
    (l : Bytes) (body : List Bytes)
    → is_dash l ≡ false
    → least_indent (l ∷ body) ≡ least_indent body
least-other l body d = rw (d) refl

pub at-other :
    (n o : ℕ) (l : Bytes) (body : List Bytes)
    → is_dash l ≡ false
    → dashes_at n o (l ∷ body) ≡ dashes_at n (suc o) body
at-other n o l body d = rw (d) refl

module _ (whole rest : List Bytes) where
  abbrev pub Places : ℕ → List Bytes → Type 0
  Places o body = (pre : List Bytes) × (length pre ≡ o) × (whole ≡ pre ++ (body ++ rest))

  Places-next : (o : ℕ) (l : Bytes) (body : List Bytes) → Places o (l ∷ body) → Places (suc o) body
  Places-next o l body (pre, h, w) = (
    pre ++ (l ∷ []),
    omega (arith, length-append pre (l ∷ []), h),
    w ∙ sym (append_assoc pre (l ∷ []) (body ++ rest)),
  )

  line_at-Places :
      (o : ℕ) (l : Bytes) (body : List Bytes) → Places o (l ∷ body) → line_at whole o ≡ l
  line_at-Places o l body (pre, h, w) = rw (w, ← h) (line_at-at pre (body ++ rest) l)

  min_indent-least_from :
      (o : ℕ) (body : List Bytes) (least : ℕ)
      → Places o body
      → min_indent whole least (dashes o body) ≡ least_from least body
  min_indent-least_from o [] least p = refl
  min_indent-least_from o (l ∷ body) least p = elim (Bool-cases (is_dash l)) [
    | inl d ↦
        ap (min_indent whole least) (dashes-dash o l body d)
        ∙ ap (λ k. min_indent whole (smaller least (indent_of k)) (dashes (suc o) body))
            (line_at-Places o l body p)
        ∙ min_indent-least_from (suc o) body (smaller least (indent_of l)) (Places-next o l body p)
        ∙ ap (λ (b : Bool). least_from (if b then smaller least (indent_of l) else least) body)
            (sym d)
    | inr d ↦ rw (d) (min_indent-least_from (suc o) body least (Places-next o l body p))
  ]

  with_indent-dashes_at :
      (n o : ℕ) (body : List Bytes)
      → Places o body
      → with_indent whole n (dashes o body) ≡ dashes_at n o body
  with_indent-dashes_at n o [] p = refl
  with_indent-dashes_at n o (l ∷ body) p =
      let ih = with_indent-dashes_at n (suc o) body (Places-next o l body p) in
      elim (Bool-cases (is_dash l)) [
        | inl d ↦ rw (d, line_at-Places o l body p, ih) refl
        | inr d ↦ rw (d) ih
      ]

  abbrev pub items_with : (o sec_end : ℕ) → List Bytes → Option ℕ → List ParsedItem
  items_with o sec_end body none = []
  items_with o sec_end body (some n) = items_at whole n sec_end (dashes_at n o body)

  with-dash :
      (o sec_end : ℕ) (l : Bytes) (body : List Bytes)
      → is_dash l ≡ true
      → items_with o sec_end (l ∷ body) (least_indent (l ∷ body))
        ≡ items_at whole
            (least_from (indent_of l) body)
            sec_end
            (dashes_at (least_from (indent_of l) body) o (l ∷ body))
  with-dash o sec_end l body d = ap (items_with o sec_end (l ∷ body)) (least-dash l body d)

  with-other :
      (o sec_end : ℕ) (l : Bytes) (body : List Bytes)
      → is_dash l ≡ false
      → items_with o sec_end (l ∷ body) (least_indent (l ∷ body))
        ≡ items_with (suc o) sec_end body (least_indent body)
  with-other o sec_end l body d =
      ap (items_with o sec_end (l ∷ body)) (least-other l body d) ∙ by_least (least_indent body)
    where
      by_least :
          (m : Option ℕ) → items_with o sec_end (l ∷ body) m ≡ items_with (suc o) sec_end body m
      by_least none = refl
      by_least (some n) = ap (items_at whole n sec_end) (at-other n o l body d)

  pub items_of-items_with :
      (o sec_end : ℕ) (body : List Bytes)
      → Places o body
      → items_of whole sec_end (dashes o body) ≡ items_with o sec_end body (least_indent body)
  items_of-items_with o sec_end [] p = refl
  items_of-items_with o sec_end (l ∷ body) p = elim (Bool-cases (is_dash l)) [
    | inl d ↦
        let next = Places-next o l body p in
        let n : min_indent whole (indent_of (line_at whole o)) (dashes (suc o) body)
            ≡ least_from (indent_of l) body =
          ap (λ k. min_indent whole (indent_of k) (dashes (suc o) body)) (line_at-Places o l body p)
          ∙ min_indent-least_from (suc o) body (indent_of l) next in
        let at_least = with_indent-dashes_at (least_from (indent_of l) body) o (l ∷ body) p in
        ap (items_of whole sec_end) (dashes-dash o l body d)
        ∙ ap (λ k. items_at whole k sec_end (with_indent whole k (o ∷ dashes (suc o) body))) n
        ∙ ap
            (λ is.
              items_at whole (least_from (indent_of l) body) sec_end
                (with_indent whole (least_from (indent_of l) body) is))
            (sym (dashes-dash o l body d))
        ∙ ap (items_at whole (least_from (indent_of l) body) sec_end) at_least
        ∙ sym (with-dash o sec_end l body d)
    | inr d ↦
        ap (items_of whole sec_end) (dashes-other o l body d)
        ∙ items_of-items_with (suc o) sec_end body (Places-next o l body p)
        ∙ sym (with-other o sec_end l body d)
  ]
