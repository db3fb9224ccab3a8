-- ===== src/Wiring/Cut.antt =====
-- crates/engine/src/wiring.rs: what `revert_shell_rc` cuts out of a text, whatever the text.
use mathlib.Core.List.{append_assoc}
use envctl.Prelude.{
  ℕ, ◌+◌, ◌≡◌, refl, sym, ap, ◌∙◌, false, none, some, [], ◌∷◌, ◌++◌, ◌⊎◌, inl, inr, arith,
  if◌then◌else◌, true, Bool-cases, Option-cases, Bytes, length, length-append, ◌==◌, ℕ_eq,
}
use envctl.Text.{starts_with, strip_prefix}
use envctl.Drift.{contains}
use envctl.Slices.{take, drop, find, find-some, find-contains, drop-at, take-at}
use envctl.Wiring.{
  newline, absent, unterminated, ambiguous, excised, span_end, cut, excise_from, excise,
}

-- What a cut leaves: the first begin marker opens the span, the first end marker behind it closes
-- it, with its newline, and no begin marker follows.
pub record IsCut (b e text out : Bytes) : Type 0 where
  pub before : Bytes
  pub span : Bytes
  pub tail : Bytes
  pub after : Bytes
  pub whole : text ≡ before ++ (span ++ (e ++ (tail ++ after)))
  pub opens : (rest : Bytes) × (span ++ (e ++ (tail ++ after)) ≡ b ++ rest)
  pub first : find text b ≡ some (length before)
  pub closes : find (span ++ (e ++ (tail ++ after))) e ≡ some (length span)
  pub newline_goes :
      (tail ≡ newline ∷ []) ⊎ ((tail ≡ []) × (starts_with after (newline ∷ []) ≡ false))
  pub only : contains after b ≡ false
  pub left : out ≡ before ++ after

cut_as :
    (b text p after : Bytes) (n m : ℕ)
    → take text n ≡ p
    → drop text m ≡ after
    → cut b text n m ≡ (if contains after b then ambiguous else excised (p ++ after))
unfolding cut
cut_as b text p after n m t d = rw (t, d) refl

module _ (b e text out before span : Bytes) (found : find text b ≡ some (length before)) where
  span_length : ℕ
  span_length = length before + length span + length e

  close_cut :
      (tail after : Bytes)
      → text ≡ before ++ (span ++ (e ++ (tail ++ after)))
      → (rest : Bytes) × (span ++ (e ++ (tail ++ after)) ≡ b ++ rest)
      → find (span ++ (e ++ (tail ++ after))) e ≡ some (length span)
      → (tail ≡ newline ∷ []) ⊎ ((tail ≡ []) × (starts_with after (newline ∷ []) ≡ false))
      → cut b text (length before) (span_length + length tail) ≡ excised out
      → IsCut b e text out
  unfolding cut span_length
  close_cut tail after w o c t h =
      let upto = before ++ (span ++ (e ++ tail)) in
      let n : length upto ≡ span_length + length tail = omega (
        arith,
        length-append before (span ++ (e ++ tail)),
        length-append span (e ++ tail),
        length-append e tail,
      ) in
      let dropped = drop-at text upto after _ (w ∙ simp append_assoc) n in
      let taken = take-at text before _ _ w refl in
      let h' : (if contains after b then ambiguous else excised (before ++ after)) ≡ excised out =
        sym (cut_as b text before after _ _ taken dropped) ∙ h in
      elim (Bool-cases (contains after b)) [
        | inl a ↦ absurd (ground arith)
        | inr a ↦ record {
          before = before;
          span = span;
          tail = tail;
          after = after;
          whole = w;
          opens = o;
          first = found;
          closes = c;
          newline_goes = t;
          only = a;
          left = ground arith;
        }
      ]

  cut-IsCut :
      (after : Bytes)
      → text ≡ before ++ (span ++ (e ++ after))
      → (rest : Bytes) × (span ++ (e ++ after) ≡ b ++ rest)
      → find (span ++ (e ++ after)) e ≡ some (length span)
      → cut b text (length before) (span_end text span_length) ≡ excised out
      → IsCut b e text out
  unfolding span_end starts_with strip_prefix span_length
  cut-IsCut after w o c h = by_first after w o c (at_after h)
    where
      dropped : drop text span_length ≡ after
      dropped =
          drop-at text (before ++ (span ++ e)) after _ (w ∙ simp append_assoc)
            (omega (arith, length-append before (span ++ e), length-append span e))

      at_after :
          cut b text (length before) (span_end text span_length) ≡ excised out
          → cut b text
              (length before)
              (if starts_with after (newline ∷ []) then span_length + 1 else span_length)
            ≡ excised out
      at_after k = rw (← dropped) k

      by_first :
          (rest : Bytes)
          → text ≡ before ++ (span ++ (e ++ rest))
          → (r : Bytes) × (span ++ (e ++ rest) ≡ b ++ r)
          → find (span ++ (e ++ rest)) e ≡ some (length span)
          → cut b text
              (length before)
              (if starts_with rest (newline ∷ []) then span_length + 1 else span_length)
            ≡ excised out
          → IsCut b e text out
      by_first [] w o c k = close_cut [] [] w o c (inr (refl, refl)) (ground arith)
      by_first (d ∷ rest) w o c k = elim (Bool-cases (newline == d)) [
        | inl q ↦ close_cut (d ∷ []) rest w o c (inl (ground arith)) (ground arith)
        | inr q ↦ close_cut [] (d ∷ rest) w o c (inr (refl, ground arith)) (ground arith)
      ]

excise_at :
    (b e text : Bytes) (bi : ℕ) → find text b ≡ some bi → excise b e text ≡ excise_from b e text bi
unfolding excise
excise_at b e text bi f = rw (excise, f) refl

excise_without : (b e text : Bytes) → find text b ≡ none → excise b e text ≡ absent
unfolding excise
excise_without b e text f = rw (excise, f) refl

unended_at :
    (b e text r : Bytes) (bi : ℕ)
    → drop text bi ≡ r
    → find r e ≡ none
    → excise_from b e text bi ≡ unterminated
unfolding excise_from
unended_at b e text r bi d f = rw (excise_from, d, f) refl

ended_at :
    (b e text r : Bytes) (bi j : ℕ)
    → drop text bi ≡ r
    → find r e ≡ some j
    → excise_from b e text bi ≡ cut b text bi (span_end text (bi + j + length e))
unfolding excise_from
ended_at b e text r bi j d f = rw (excise_from, d, f) refl

excise_from-IsCut :
    (b e text out before rest : Bytes)
    → text ≡ before ++ (b ++ rest)
    → find text b ≡ some (length before)
    → excise_from b e text (length before) ≡ excised out
    → IsCut b e text out
unfolding span_length
excise_from-IsCut b e text out before rest w f k =
    let d = drop-at text before (b ++ rest) (length before) w refl in
    elim (Option-cases (find (b ++ rest) e)) [
      | inl n ↦ absurd (ground (arith, unended_at b e text (b ++ rest) (length before) d n))
      | inr (j, g) ↦
          let (span, after, q, m) = find-some (b ++ rest) e j g in
          let g' : find (b ++ rest) e ≡ some (length span) = g ∙ ap some (sym m) in
          cut-IsCut b e text out before span f after (w ∙ ap (before ++◌) q) (rest, sym q)
            (ap (λ t. find t e) (sym q) ∙ g')
            (sym (ended_at b e text (b ++ rest) (length before) (length span) d g') ∙ k)
    ]

-- Whatever the text, what is cut out is one span between the markers.
pub excise-IsCut : (b e text out : Bytes) → excise b e text ≡ excised out → IsCut b e text out
excise-IsCut b e text out h = elim (Option-cases (find text b)) [
  | inl n ↦ absurd (ground (arith, excise_without b e text n))
  | inr (bi, f) ↦
      let (before, rest, w, m) = find-some text b bi f in
      let f' : find text b ≡ some (length before) = f ∙ ap some (sym m) in
      excise_from-IsCut b e text out before rest w f' (sym (excise_at b e text _ f') ∙ h)
]

pub excised-contains :
    (b e text out : Bytes) → excise b e text ≡ excised out → contains text b ≡ true
excised-contains b e text out h = elim (Bool-cases (contains text b)) [
  | inl c ↦ c
  | inr c ↦ absurd (ground (arith, excise_without b e text (find-contains text b c)))
]
