-- ===== src/Wiring/Markers.antt =====
-- crates/engine/src/wiring.rs: the span between the markers, as `apply_shell_rc` writes it and as
-- `revert_shell_rc` cuts it out.
use mathlib.Core.List.{append-nil, append_assoc}
use envctl.Prelude.{
  suc, ◌+◌, ◌≡◌, ◌≢◌, refl, sym, ap, ◌∙◌, false, some, [], ◌∷◌, ◌++◌, arith, if◌then◌else◌, Bytes,
  length, length-append, ℕ_eq,
}
use envctl.Text.{starts_with, strip_prefix}
use envctl.Drift.{contains}
use envctl.Host.{trim_end}
use envctl.Manifest.{ShellRcBlock}
use envctl.Slices.{find, Lacks, find-starts_with, find-across, shift, drop-at, take-at}
use envctl.Wiring.{
  newline, begin_marker, end_marker, block_text, ambiguous, excised, span_end, cut, excise_from,
  excise,
}

-- The marker is one line, and the block's own text does not hold the end marker.
pub record IsOwned (blk : ShellRcBlock) : Type 0 where
  pub begin_line : Lacks newline (begin_marker blk.marker)
  pub end_line : Lacks newline (end_marker blk.marker)
  pub unended :
      contains (begin_marker blk.marker ++ (newline ∷ trim_end blk.content)) (end_marker blk.marker)
      ≡ false

module _ (text b e c : Bytes) where
  ending : Bytes
  ending = newline ∷ (e ++ (newline ∷ []))

  block : Bytes
  unfolding ending
  block = b ++ (newline ∷ (c ++ ending))

  written : Bytes
  unfolding block
  written = text ++ (newline ∷ block)

  front : Bytes
  front = text ++ (newline ∷ [])

  inside : Bytes
  inside = b ++ (newline ∷ c)

  written-front : written ≡ front ++ block
  unfolding written front
  written-front = sym (append_assoc text (newline ∷ []) block)

  block-inside : block ≡ inside ++ ending
  unfolding block inside
  block-inside = sym (append_assoc b (newline ∷ c) ending)

  find-begin :
      Lacks newline b → b ≢ [] → contains text b ≡ false → find written b ≡ some (length front)
  unfolding written front block
  find-begin l ne h =
      find-across newline text block b l ne h
      ∙ ap (shift (suc (length text))) (find-starts_with b (newline ∷ (c ++ ending)))
      ∙ ap some (omega (arith, length-append text (newline ∷ [])))

  find-end :
      Lacks newline e
      → e ≢ []
      → contains inside e ≡ false
      → find block e ≡ some (suc (length inside))
  unfolding ending
  find-end l ne h =
      ap (λ t. find t e) block-inside
      ∙ find-across newline inside (e ++ (newline ∷ [])) e l ne h
      ∙ ap (shift (suc (length inside))) (find-starts_with e (newline ∷ []))
      ∙ ap some (omega arith)

  written-span : written ≡ ((front ++ (inside ++ (newline ∷ []))) ++ e) ++ (newline ∷ [])
  unfolding ending
  written-span = written-front ∙ ap (front ++◌) block-inside ∙ simp append_assoc

  length-span :
      length ((front ++ (inside ++ (newline ∷ []))) ++ e)
      ≡ length front + suc (length inside) + length e
  length-span = omega (
    arith,
    length-append (front ++ (inside ++ (newline ∷ []))) e,
    length-append front (inside ++ (newline ∷ [])),
    length-append inside (newline ∷ []),
  )

  span_end-written :
      span_end written (length front + suc (length inside) + length e)
      ≡ length front + suc (length inside) + length e + 1
  unfolding span_end front starts_with
  span_end-written = rw (drop-at written _ (newline ∷ []) _ written-span length-span) refl

  cut-written :
      b ≢ []
      → cut b written (length front) (length front + suc (length inside) + length e + 1)
        ≡ excised front
  unfolding cut
  cut-written ne =
      rw
        (
          drop-at written written [] _ (sym (append-nil written)) all_length,
          take-at written front block _ written-front refl,
          append-nil,
        )
        (no_begin b ne)
    where
      no_begin :
          (p : Bytes)
          → p ≢ []
          → (if contains [] p then ambiguous else excised front) ≡ excised front
      no_begin [] n = absurd (n refl)
      no_begin (c' ∷ p) n = unfold contains starts_with strip_prefix in refl

      all_length : length written ≡ length front + suc (length inside) + length e + 1
      all_length =
          ap length written-span ∙ length-append _ (newline ∷ []) ∙ omega (arith, length-span)

  excise-written :
      Lacks newline b
      → b ≢ []
      → contains text b ≡ false
      → Lacks newline e
      → e ≢ []
      → contains inside e ≡ false
      → excise b e written ≡ excised front
  unfolding excise excise_from
  excise-written lb nb hb le ne he =
      rw
        (
          excise,
          find-begin lb nb hb,
          excise_from,
          drop-at written front block _ written-front refl,
          find-end le ne he,
          span_end-written,
        )
        (cut-written nb)

-- What `apply_shell_rc` appended is cut out again, and the newline in front of it is left.
pub excise-block_text :
    (text : Bytes) (blk : ShellRcBlock)
    → IsOwned blk
    → contains text (begin_marker blk.marker) ≡ false
    → excise (begin_marker blk.marker) (end_marker blk.marker) (text ++ block_text blk)
      ≡ excised (text ++ (newline ∷ []))
unfolding block_text written block ending front inside
excise-block_text text blk o h =
    excise-written text (begin_marker blk.marker) (end_marker blk.marker) (trim_end blk.content)
      o.begin_line (λ x. cc) h o.end_line (λ x. cc) o.unended
