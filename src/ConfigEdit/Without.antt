-- ===== src/ConfigEdit/Without.antt =====
-- crates/agent-env/src/config_edit.rs: the loop of `remove_names` that deletes lines by their index.
use mathlib.Core.Path.{subst}
use mathlib.Core.List.{append_assoc}
use envctl.Prelude.{
  ℕ, zero, suc, ◌+◌, ◌-◌, ◌≤◌, ◌<◌, ◌≡◌, ◌≢◌, inl, inr, refl, sym, ap, ◌∙◌, Bool, true, false,
  Option, none, some, List, [], ◌∷◌, ◌++◌, arith, if◌then◌else◌, Bool-cases, Bytes, codes, length,
  length-append, is_empty, any, leb, ◌&&◌, ◌==◌, ==_iff, ==_refl, List_eq, ℕ_eq,
}
use envctl.Text.{strip_prefix}
use envctl.Drift.{contains}
use envctl.Host.{trim, trim_start}
use envctl.Slices.{take, drop, take-append-drop, length-take}
use envctl.ConfigEdit.Lines.{slice, unquoted, indent_of, colon}
use envctl.ConfigEdit.Names.{
  NameLine, push_name, names_from, has_name, to_delete, remove_at, remove_all,
}

-- A list item whose scalar is `name`.
abbrev pub Names : (name line : Bytes) → Type 0
Names name line =
    (after : Bytes) × (strip_prefix (codes "- ") (trim_start line) ≡ some after)
    × (name ≡ unquoted (trim after))

-- The line at an index is gone exactly where `D` says so, each for a reason, and the others are there
-- in their order. The first line's index is `o`.
pub data Without (D : ℕ → Bool) (P : Bytes → Type 0)
    : (o : ℕ) → (ls out : List Bytes) → Type 0 where
  done : {o : ℕ} → Without D P o [] []
  keep :
      {o : ℕ} {l : Bytes} {ls out : List Bytes}
      → D o ≡ false
      → Without D P (suc o) ls out
      → Without D P o (l ∷ ls) (l ∷ out)
  gone :
      {o : ℕ} {l : Bytes} {ls out : List Bytes}
      → D o ≡ true
      → P l
      → Without D P (suc o) ls out
      → Without D P o (l ∷ ls) out

-- Ascending indices of lines that have a reason to go, the first line's index being `o`.
data Marks (P : Bytes → Type 0) : (o : ℕ) → List Bytes → List ℕ → Type 0 where
  none_left : {o : ℕ} {ls : List Bytes} → Marks P o ls []
  skip :
      {o : ℕ} {l : Bytes} {ls : List Bytes} {is : List ℕ}
      → Marks P (suc o) ls is
      → Marks P o (l ∷ ls) is
  mark :
      {o : ℕ} {l : Bytes} {ls : List Bytes} {is : List ℕ}
      → P l
      → Marks P (suc o) ls is
      → Marks P o (l ∷ ls) (o ∷ is)

drop-beyond : (ls : List Bytes) (n : ℕ) → length ls ≤ n → drop ls n ≡ []
unfolding drop
drop-beyond [] zero h = refl
drop-beyond [] (suc n) h = refl
drop-beyond (l ∷ ls) zero h = absurd (omega arith)
drop-beyond (l ∷ ls) (suc n) h = drop-beyond ls n (omega arith)

take-nil : (n : ℕ) → ◌≡◌ {A = List Bytes} (take [] n) []
unfolding take
take-nil zero = refl
take-nil (suc n) = refl

slice-beyond : (ls : List Bytes) (start end : ℕ) → length ls ≤ start → slice ls start end ≡ []
slice-beyond ls start end h = rw (drop-beyond ls start h) (take-nil (end - start))

remove_at-length :
    (pre out : List Bytes) (l : Bytes) (o : ℕ)
    → length pre ≡ o
    → remove_at (pre ++ (l ∷ out)) o ≡ pre ++ out
unfolding remove_at
remove_at-length [] out l o h = rw (← h) refl
remove_at-length (a ∷ pre) out l o h =
    rw (← h) (ap (a ∷◌) (remove_at-length pre out l (length pre) refl))

abbrev stands : List ℕ → ℕ → Bool
stands is i = any (λ j. j == i) is

first_misses : (o : ℕ) (is : List ℕ) (i : ℕ) → o ≢ i → stands (o ∷ is) i ≡ stands is i
first_misses o is i h = ground (arith, ==_iff o i)

first_stands : (o : ℕ) (is : List ℕ) → stands (o ∷ is) o ≡ true
first_stands o is = rw (==_refl o) refl

-- At this index a requested name was read.
abbrev pub is_requested : List Bytes → List NameLine → ℕ → Bool
is_requested names found i = any (λ l. l.index == i && has_name names l.name) found

stands-to_delete :
    (names : List Bytes) (found : List NameLine) (i : ℕ)
    → is_requested names found i ≡ stands (to_delete names found) i
stands-to_delete names [] i = refl
stands-to_delete names (l ∷ found) i =
    let rest = stands-to_delete names found i in
    elim (Bool-cases (has_name names l.name)) [
      | inl e ↦ elim (Bool-cases (l.index == i)) [ inl q ↦ rw (e, q) refl | inr q ↦ rw (e, q) rest ]
      | inr e ↦ elim (Bool-cases (l.index == i)) [ inl q ↦ rw (e, q) rest | inr q ↦ rw (e, q) rest ]
    ]

module _ (P : Bytes → Type 0) where
  Without-refl :
      (D : ℕ → Bool) (o : ℕ) (ls : List Bytes)
      → ((i : ℕ) → o ≤ i → D i ≡ false)
      → Without D P o ls ls
  Without-refl D o [] h = done
  Without-refl D o (l ∷ ls) h =
      keep (h o (omega arith)) (Without-refl D (suc o) ls (λ i k. h i (omega (arith, k))))

  Without-change :
      (D D' : ℕ → Bool) {o : ℕ} {ls out : List Bytes}
      → ((i : ℕ) → o ≤ i → D' i ≡ D i)
      → Without D P o ls out
      → Without D' P o ls out
  Without-change D D' h done = done
  Without-change D D' {o} h (keep d w) =
      keep (h o (omega arith) ∙ d) (Without-change D D' (λ i k. h i (omega (arith, k))) w)
  Without-change D D' {o} h (gone d p w) =
      gone (h o (omega arith) ∙ d) p (Without-change D D' (λ i k. h i (omega (arith, k))) w)

  Without-append :
      (D : ℕ → Bool) (o : ℕ) (pre ls out : List Bytes)
      → ((i : ℕ) → i < o + length pre → D i ≡ false)
      → Without D P (o + length pre) ls out
      → Without D P o (pre ++ ls) (pre ++ out)
  Without-append D o [] ls out h w = subst (λ (n : ℕ). Without D P n ls out) (omega arith) w
  Without-append D o (l ∷ pre) ls out h w =
      let n : o + length (l ∷ pre) ≡ suc o + length pre = omega arith in
      keep (h o (omega arith)) (
        Without-append D (suc o) pre ls out (λ i k. h i (omega (arith, k)))
          (subst (λ (m : ℕ). Without D P m ls out) n w))

  Marks-low :
      {o : ℕ} {ls : List Bytes} {is : List ℕ}
      → Marks P o ls is
      → (i : ℕ) → i < o
      → stands is i ≡ false
  Marks-low none_left i h = refl
  Marks-low (skip m) i h = Marks-low m i (omega (arith, h))
  Marks-low (mark {o} {l} {ls} {is} p m) i h =
      first_misses o is i (omega (arith, h)) ∙ Marks-low m i (omega (arith, h))

  Marks-append :
      {o : ℕ} {ls : List Bytes} {is : List ℕ} (below : List Bytes)
      → Marks P o ls is
      → Marks P o (ls ++ below) is
  Marks-append below none_left = none_left
  Marks-append below (skip m) = skip (Marks-append below m)
  Marks-append below (mark p m) = mark p (Marks-append below m)

  remove_all-Without :
      {o : ℕ} {ls : List Bytes} {is : List ℕ}
      → Marks P o ls is
      → (pre : List Bytes) → length pre ≡ o
      → (out : List Bytes) × (remove_all (pre ++ ls) is ≡ pre ++ out)
        × Without (stands is) P o ls out
  unfolding remove_all
  remove_all-Without {o} {ls} none_left pre h =
      (ls, refl, Without-refl (stands []) o ls (λ i h. refl))
  remove_all-Without (skip {o} {l} {ls} {is} m) pre h =
      let n : length (pre ++ (l ∷ [])) ≡ suc o = omega (arith, length-append pre (l ∷ []), h) in
      let (out, e, w) = remove_all-Without m (pre ++ (l ∷ [])) n in
      let shifted : remove_all (pre ++ (l ∷ ls)) is ≡ pre ++ (l ∷ out) =
        ap (λ x. remove_all x is) (sym (append_assoc pre (l ∷ []) ls))
        ∙ e
        ∙ append_assoc pre (l ∷ []) out in
      (l ∷ out, shifted, keep (Marks-low m o (omega arith)) w)
  remove_all-Without (mark {o} {l} {ls} {is} p m) pre h =
      let n : length (pre ++ (l ∷ [])) ≡ suc o = omega (arith, length-append pre (l ∷ []), h) in
      let (out, e, w) = remove_all-Without m (pre ++ (l ∷ [])) n in
      let shifted : remove_all (pre ++ (l ∷ ls)) is ≡ pre ++ (l ∷ out) =
        ap (λ x. remove_all x is) (sym (append_assoc pre (l ∷ []) ls))
        ∙ e
        ∙ append_assoc pre (l ∷ []) out in
      let later =
        Without-change (stands is) (stands (o ∷ is)) (λ i k. first_misses o is i (omega (arith, k)))
          w in
      (
        out,
        ap (λ x. remove_at x o) shifted ∙ remove_at-length pre out l o h,
        gone (first_stands o is) p later,
      )

-- A line that names one of `names`.
abbrev pub NamesOneOf : List Bytes → Bytes → Type 0
NamesOneOf names line = (name : Bytes) × (has_name names name ≡ true) × Names name line

module _ (names : List Bytes) (indent : ℕ) where
  names_from-Marks :
      (o : ℕ) (ls : List Bytes)
      → Marks (NamesOneOf names) o ls (to_delete names (names_from indent o ls))
  unfolding names_from
  names_from-Marks o [] = none_left
  names_from-Marks o (l ∷ ls) =
      by_line (is_empty (trim_start l)) (leb (indent_of l) indent)
        (strip_prefix (codes "- ") (trim_start l)) refl (names_from-Marks (suc o) ls)
    where
      rest : List NameLine
      rest = names_from indent (suc o) ls

      by_name :
          (b : Bool) (n : NameLine)
          → n.index ≡ o
          → has_name names n.name ≡ b
          → Names n.name l
          → Marks (NamesOneOf names) (suc o) ls (to_delete names rest)
          → Marks
              (NamesOneOf names)
              o
              (l ∷ ls)
              (if b then n.index ∷ to_delete names rest else to_delete names rest)
      by_name true n i e p m = rw (i) (mark (n.name, e, p) m)
      by_name false n i e p m = skip m

      by_line :
          (blank shallow : Bool) (after : Option Bytes)
          → strip_prefix (codes "- ") (trim_start l) ≡ after
          → Marks (NamesOneOf names) (suc o) ls (to_delete names rest)
          → Marks (NamesOneOf names) o (l ∷ ls) (
              to_delete names
                (if blank then rest else if shallow then [] else push_name o after rest))
      by_line true shallow after e m = skip m
      by_line false true after e m = none_left
      by_line false false none e m = skip m
      by_line false false (some a) e m =
          let n : NameLine = record {
            index = o;
            name = unquoted (trim a);
            is_object = contains (trim a) colon;
          } in
          by_name (has_name names n.name) n refl refl (a, e, refl) m

  -- The lines of a part that name a requested name, taken out of all lines.
  pub subtract-Without :
      (ls : List Bytes) (start end : ℕ)
      → let found = names_from indent start (slice ls start end) in
        Without
          (is_requested names found)
          (NamesOneOf names)
          0
          ls
          (remove_all ls (to_delete names found))
  unfolding names_from remove_all
  subtract-Without ls start end =
      let found = names_from indent start (slice ls start end) in
      Without-change (NamesOneOf names) (stands (to_delete names found)) (is_requested names found)
        (λ i h. stands-to_delete names found i)
        (elim (Bool-cases (leb start (length ls))) [
          | inl h ↦ within ls start end (ground arith)
          | inr h ↦
              let beyond : slice ls start end ≡ [] = slice-beyond ls start end (ground arith) in
              rw (beyond) (Without-refl (NamesOneOf names) (stands []) 0 ls (λ i k. refl))
        ])
    where
      within :
          (ls : List Bytes) (start end : ℕ)
          → start ≤ length ls
          → let is = to_delete names (names_from indent start (slice ls start end)) in
            Without (stands is) (NamesOneOf names) 0 ls (remove_all ls is)
      within ls start end h =
          let pre = take ls start in
          let part = slice ls start end in
          let below = drop (drop ls start) (end - start) in
          let n : length pre ≡ start = length-take ls start h in
          let whole : pre ++ (part ++ below) ≡ ls =
            ap (pre ++◌) (take-append-drop (drop ls start) (end - start))
            ∙ take-append-drop ls start in
          let is = to_delete names (names_from indent start part) in
          let marks = Marks-append (NamesOneOf names) below (names_from-Marks start part) in
          let (out, e, w) = remove_all-Without (NamesOneOf names) marks pre n in
          let e' : remove_all ls is ≡ pre ++ out = ap (λ x. remove_all x is) (sym whole) ∙ e in
          let low : (i : ℕ) → i < 0 + length pre → stands is i ≡ false =
            λ i k. Marks-low (NamesOneOf names) marks i (omega (arith, n, k)) in
          let w' =
            subst (λ (m : ℕ). Without (stands is) (NamesOneOf names) m (part ++ below) out)
              (omega (arith, n)) w in
          rw (e') (
            subst (λ (x : List Bytes). Without (stands is) (NamesOneOf names) 0 x (pre ++ out))
              whole
              (Without-append (NamesOneOf names) (stands is) 0 pre (part ++ below) out low w'))
