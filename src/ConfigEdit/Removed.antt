-- ===== src/ConfigEdit/Removed.antt =====
-- crates/agent-env/src/config_edit.rs: the lines of the file after `remove_item`.
use mathlib.Core.Path.{subst}
use envctl.Prelude.{
  ℕ, zero, suc, ◌+◌, ◌-◌, ◌≤◌, ◌<◌, ◌≡◌, ◌⊎◌, inl, inr, refl, sym, ap, ◌∙◌, Bool, true, false,
  Option, none, some, List, [], ◌∷◌, ◌++◌, arith, if◌then◌else◌, Bool-cases, Bytes, length,
  length-append, AllOf, ◌==◌, List_eq, ℕ_eq, Option_eq,
}
use envctl.Slices.{take, drop, take-append-drop, drop-drop, lines}
use envctl.ConfigEdit.Lines.{
  line_at, find_top_level, next_top_level, parse_items, items_of, items_at, with_indent, indent_of,
  is_dash, dashes, slice, ParsedItem,
}
use envctl.ConfigEdit.Frame.{position-IsAt, le-next_top_level}
use envctl.ConfigEdit.{
  Section, section_key, drain_lines, Edited, ok, err, ambiguous_source, join_lines, fits, matches,
  single, find_match, remove_match, section_items, remove_under, remove_item,
}

-- Ascending indices between `lo` and `hi`.
abbrev Ascending : (lo : ℕ) → List ℕ → (hi : ℕ) → Type 0
Ascending lo [] hi = Unit
Ascending lo (i ∷ is) hi = (lo ≤ i) × (i < hi) × Ascending (suc i) is hi

Ascending-weaken :
    (lo lo' : ℕ) (is : List ℕ) (hi : ℕ) → lo ≤ lo' → Ascending lo' is hi → Ascending lo is hi
Ascending-weaken lo lo' [] hi h a = tt
Ascending-weaken lo lo' (i ∷ is) hi h (a, b, c) = (omega (arith, a), b, c)

dashes-Ascending :
    (i : ℕ) (ls : List Bytes) (hi : ℕ) → i + length ls ≤ hi → Ascending i (dashes i ls) hi
dashes-Ascending i [] hi h = tt
dashes-Ascending i (l ∷ ls) hi h =
    by_dash (is_dash l) (dashes-Ascending (suc i) ls hi (omega arith))
  where
    by_dash :
        (b : Bool)
        → Ascending (suc i) (dashes (suc i) ls) hi
        → Ascending i (if b then i ∷ dashes (suc i) ls else dashes (suc i) ls) hi
    by_dash true a = (omega arith, omega arith, a)
    by_dash false a = Ascending-weaken i (suc i) _ hi (omega arith) a

with_indent-Ascending :
    (ls : List Bytes) (n lo : ℕ) (is : List ℕ) (hi : ℕ)
    → Ascending lo is hi
    → Ascending lo (with_indent ls n is) hi
with_indent-Ascending ls n lo [] hi a = tt
with_indent-Ascending ls n lo (i ∷ is) hi (a, b, c) =
    by_indent (indent_of (line_at ls i) == n) (with_indent-Ascending ls n (suc i) is hi c)
  where
    by_indent :
        (t : Bool)
        → Ascending (suc i) (with_indent ls n is) hi
        → Ascending lo (if t then i ∷ with_indent ls n is else with_indent ls n is) hi
    by_indent true r = (a, b, r)
    by_indent false r = Ascending-weaken lo (suc i) _ hi (omega (arith, a)) r

abbrev Spans : ParsedItem → Type 0
Spans it = it.start ≤ it.end

items_at-Spans :
    (ls : List Bytes) (indent sec_end lo : ℕ) (starts : List ℕ)
    → Ascending lo starts sec_end
    → AllOf Spans (items_at ls indent sec_end starts)
items_at-Spans ls indent sec_end lo [] a = tt
items_at-Spans ls indent sec_end lo (s ∷ []) (a, b, c) = (omega (arith, b), tt)
items_at-Spans ls indent sec_end lo (s ∷ i ∷ is) (a, b, (c, d, e)) =
    (omega (arith, c), items_at-Spans ls indent sec_end (suc s) (i ∷ is) (c, d, e))

items_of-Spans :
    (ls : List Bytes) (sec_end lo : ℕ) (is : List ℕ)
    → Ascending lo is sec_end
    → AllOf Spans (items_of ls sec_end is)
items_of-Spans ls sec_end lo [] a = tt
items_of-Spans ls sec_end lo (i ∷ is) a =
    items_at-Spans ls _ sec_end lo _ (with_indent-Ascending ls _ lo (i ∷ is) sec_end a)

length-take-le : (ls : List Bytes) (n : ℕ) → length (take ls n) ≤ n
unfolding take
length-take-le ls zero = omega arith
length-take-le [] (suc n) = omega arith
length-take-le (l ∷ ls) (suc n) = omega (arith, length-take-le ls n)

section_items-Spans :
    (ls : List Bytes) (idx : ℕ) (key : Bytes)
    → find_top_level ls key ≡ some idx
    → AllOf Spans (section_items ls idx)
unfolding section_items parse_items find_top_level
section_items-Spans ls idx key f =
    let at = position-IsAt _ ls idx f in
    let section_end = next_top_level ls (idx + 1) in
    let in_file : idx + 1 ≤ length ls =
      omega (arith, ap length at.whole, length-append at.above (at.line ∷ at.below), at.index) in
    let h = le-next_top_level ls (idx + 1) in_file in
    let within = length-take-le (drop ls (idx + 1)) (section_end - (idx + 1)) in
    items_of-Spans ls section_end (idx + 1) _ (
      dashes-Ascending (idx + 1) (slice ls (idx + 1) section_end) section_end
        (omega (arith, h, within)))

module _ (source : Bytes) (pin sub_dir : Option Bytes) where
  abbrev pub Misses : ParsedItem → Type 0
  Misses it = fits source pin sub_dir it ≡ false

  matches-none : (its : List ParsedItem) → matches source pin sub_dir its ≡ [] → AllOf Misses its
  matches-none [] h = tt
  matches-none (it ∷ its) h = elim (Bool-cases (fits source pin sub_dir it)) [
    | inl e ↦ absurd (ground arith)
    | inr e ↦ (e, matches-none its (ground arith))
  ]

  -- One item of the section fits, and no other.
  pub record IsOnly (its : List ParsedItem) (it : ParsedItem) : Type 0 where
    pub before : List ParsedItem
    pub after : List ParsedItem
    pub whole : its ≡ before ++ (it ∷ after)
    pub fitting : fits source pin sub_dir it ≡ true
    pub before_misses : AllOf Misses before
    pub after_misses : AllOf Misses after

  pub matches-IsOnly :
      (its : List ParsedItem) (it : ParsedItem)
      → matches source pin sub_dir its ≡ it ∷ []
      → IsOnly its it
  matches-IsOnly [] it h = cc
  matches-IsOnly (x ∷ its) it h = elim (Bool-cases (fits source pin sub_dir x)) [
    | inl e ↦
        let same : x ≡ it = ground arith in
        record {
          before = [];
          after = its;
          whole = ap (◌∷ its) same;
          fitting = rw (← same) e;
          before_misses = tt;
          after_misses = matches-none its (ground arith);
        }
    | inr e ↦
        let o = matches-IsOnly its it (ground arith) in
        record {
          before = x ∷ o.before;
          after = o.after;
          whole = ap (x ∷◌) o.whole;
          fitting = o.fitting;
          before_misses = (e, o.before_misses);
          after_misses = o.after_misses;
        }
  ]

-- The lines of one item are gone, and every other line is as it was.
pub record IsRemoved (section : Section) (source : Bytes) (pin sub_dir : Option Bytes)
    (ls out : List Bytes) : Type 0 where
  pub idx : ℕ
  pub header : find_top_level ls (section_key section) ≡ some idx
  pub item : ParsedItem
  pub only : IsOnly source pin sub_dir (section_items ls idx) item
  pub above : List Bytes
  pub below : List Bytes
  pub whole : ls ≡ above ++ (slice ls item.start item.end ++ below)
  pub result : out ≡ above ++ below
  pub above_is : above ≡ take ls item.start

-- Nothing of the section fits, or there is no such section.
abbrev pub FitsNothing :
    (section : Section) (source : Bytes) (pin sub_dir : Option Bytes) (ls : List Bytes) → Type 0
FitsNothing section source pin sub_dir ls =
    (find_top_level ls (section_key section) ≡ none)
    ⊎ ((idx : ℕ) × (find_top_level ls (section_key section) ≡ some idx)
        × AllOf (Misses source pin sub_dir) (section_items ls idx))

AllOf-member :
    (P : ParsedItem → Type 0) (xs : List ParsedItem) (y : ParsedItem) (ys : List ParsedItem)
    → AllOf P (xs ++ (y ∷ ys))
    → P y
AllOf-member P [] y ys (p, h) = p
AllOf-member P (x ∷ xs) y ys (p, h) = AllOf-member P xs y ys h

slice-whole :
    (ls : List Bytes) (start end : ℕ)
    → start ≤ end
    → ls ≡ take ls start ++ (slice ls start end ++ drop ls end)
slice-whole ls start end h =
    let n = end - start in
    let e : start + n ≡ end = omega arith in
    let rest : drop (drop ls start) n ≡ drop ls end =
      drop-drop ls start n ∙ ap (λ (k : ℕ). drop ls k) e in
    sym (take-append-drop ls start)
    ∙ ap (take ls start ++◌)
        (sym (take-append-drop (drop ls start) n) ∙ ap (slice ls start end ++◌) rest)

module _ (text : Bytes) (section : Section) (source : Bytes) (pin sub_dir : Option Bytes) where
  -- The answers of `remove_item`, the error included.
  abbrev pub Removal : Edited (Bytes × Bool) → Type 0
  Removal (ok (out, true)) =
      (new : List Bytes) × (out ≡ join_lines new text)
      × IsRemoved section source pin sub_dir (lines text) new
  Removal (ok (out, false)) = (out ≡ text) × FitsNothing section source pin sub_dir (lines text)
  Removal (err e) =
      (e ≡ ambiguous_source)
      × ((idx : ℕ) × (find_top_level (lines text) (section_key section) ≡ some idx)
          × ((first : ParsedItem) × (second : ParsedItem) × (rest : List ParsedItem) × (matches
                  source pin sub_dir (section_items (lines text) idx)
                ≡ first ∷ second ∷ rest)))

  -- What remove_item answers, for every text. When it removed something, exactly one item of the section
  -- fits the source and the filters, and the lines from that item's start to its end are gone and all
  -- others are as they were. When it removed nothing, the text is unchanged, and there is no such
  -- section or no item of it fits. Its one error means that at least two items fit.
  pub remove_item-Removal : Removal (remove_item text section source pin sub_dir)
  unfolding remove_item remove_under remove_match find_match drain_lines
  remove_item-Removal = by_header (find_top_level (lines text) (section_key section)) refl
    where
      by_matches :
          (idx : ℕ)
          → find_top_level (lines text) (section_key section) ≡ some idx
          → (found : List ParsedItem)
          → matches source pin sub_dir (section_items (lines text) idx) ≡ found
          → Removal (remove_match text (single found))
      by_matches idx f [] m = (refl, inr (idx, f, matches-none source pin sub_dir _ m))
      by_matches idx f (it ∷ []) m =
          let o = matches-IsOnly source pin sub_dir _ it m in
          let spans : Spans it =
            AllOf-member Spans o.before it o.after
              (subst (AllOf Spans) o.whole (section_items-Spans (lines text) idx _ f)) in
          (
            drain_lines (lines text) it.start it.end,
            refl,
            record {
              idx = idx;
              header = f;
              item = it;
              only = o;
              above = take (lines text) it.start;
              below = drop (lines text) it.end;
              whole = slice-whole (lines text) it.start it.end spans;
              result = refl;
              above_is = refl;
            },
          )
      by_matches idx f (it ∷ it' ∷ its) m = (refl, (idx, f, (it, it', its, m)))

      by_header :
          (o : Option ℕ)
          → find_top_level (lines text) (section_key section) ≡ o
          → Removal (remove_under text source pin sub_dir o)
      by_header none f = (refl, inl f)
      by_header (some idx) f = by_matches idx f _ refl
