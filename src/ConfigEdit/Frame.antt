-- ===== src/ConfigEdit/Frame.antt =====
-- crates/agent-env/src/config_edit.rs: where a section's lines lie, and where an edit cuts them.
use envctl.Prelude.{
  AllOf, false, ℕ, zero, suc, ◌+◌, ◌≤◌, ◌≡◌, ◌⊎◌, inl, inr, refl, sym, ap, ◌∙◌, Bool, true, Option,
  none, some, List, [], ◌∷◌, ◌++◌, arith, Bool-cases, Bytes, length, List_eq, ℕ_eq, Option_eq,
}
use envctl.Slices.{take, drop}
use envctl.ConfigEdit.Lines.{
  line_at, position, is_top_level_key, next_top_level, is_some_key, items_at, items_of, with_indent,
  indent_of, min_indent,
}
use envctl.ConfigEdit.{last_end, step_back, set_line}

-- A line that is found holds the test, and stands at its index.
pub record IsAt (p : Bytes → Bool) (ls : List Bytes) (i : ℕ) : Type 0 where
  pub above : List Bytes
  pub line : Bytes
  pub below : List Bytes
  pub whole : ls ≡ above ++ (line ∷ below)
  pub index : length above ≡ i
  pub holds : p line ≡ true
  pub before : AllOf (λ (l : Bytes). p l ≡ false) above

zero-plus : (n : ℕ) → 0 + n ≡ n
zero-plus n = omega arith

suc-plus : (n m : ℕ) → suc n + m ≡ suc (n + m)
suc-plus n m = omega arith

pub line_at-at :
    (above below : List Bytes) (line : Bytes)
    → line_at (above ++ (line ∷ below)) (length above) ≡ line
line_at-at [] below line = refl
line_at-at (a ∷ above) below line = line_at-at above below line

later-some :
    (o : Option ℕ) (i : ℕ)
    → elim o [ none ↦ none | some j ↦ some (suc j) ] ≡ some i
    → (j : ℕ) × (o ≡ some j) × (i ≡ suc j)
later-some none i h = cc
later-some (some j) i h = (j, refl, cc)

pub position-IsAt :
    (p : Bytes → Bool) (ls : List Bytes) (i : ℕ) → position p ls ≡ some i → IsAt p ls i
position-IsAt p [] i h = cc
position-IsAt p (l ∷ ls) i h = elim (Bool-cases (p l)) [
  | inl e ↦
      let z : i ≡ 0 = ground arith in
      record {
        above = [];
        line = l;
        below = ls;
        whole = refl;
        index = sym z;
        holds = e;
        before = tt;
      }
  | inr e ↦
      let (j, q, n) = later-some (position p ls) i (ground arith) in
      let r = position-IsAt p ls j q in
      record {
        above = l ∷ r.above;
        line = r.line;
        below = r.below;
        whole = ap (l ∷◌) r.whole;
        index = ap suc r.index ∙ sym n;
        holds = r.holds;
        before = (e, r.before);
      }
]

pub position-none :
    (p : Bytes → Bool) (ls : List Bytes)
    → position p ls ≡ none
    → AllOf (λ (l : Bytes). p l ≡ false) ls
position-none p [] h = tt
position-none p (l ∷ ls) h = elim (Bool-cases (p l)) [
  | inl e ↦ absurd (ground arith)
  | inr e ↦ (e, position-none p ls (later-none (position p ls) (ground arith)))
]
  where
    later-none : (o : Option ℕ) → elim o [ none ↦ none | some j ↦ some (suc j) ] ≡ none → o ≡ none
    later-none none h = refl
    later-none (some j) h = cc

pub position-at :
    (p : Bytes → Bool) (above below : List Bytes) (line : Bytes)
    → AllOf (λ (l : Bytes). p l ≡ false) above
    → p line ≡ true
    → position p (above ++ (line ∷ below)) ≡ some (length above)
position-at p [] below line a h = rw (h) refl
position-at p (x ∷ above) below line (e, a) h = rw (e, position-at p above below line a h) refl

-- `step_back` stops at the floor or below a line that is neither blank nor a comment.
pub step_back-le : (ls : List Bytes) (floor n : ℕ) → step_back ls floor n ≤ n
unfolding step_back
step_back-le ls floor zero = omega arith
step_back-le ls floor (suc n) = ground (arith, step_back-le ls floor n)

pub le-step_back : (ls : List Bytes) (floor n : ℕ) → floor ≤ n → floor ≤ step_back ls floor n
unfolding step_back
le-step_back ls floor zero h = h
le-step_back ls floor (suc n) h = ground (arith, le-step_back ls floor n)

-- The last item ends where its section does.
pub last_end-items_at :
    (ls : List Bytes) (indent sec_end otherwise start : ℕ) (starts : List ℕ)
    → last_end otherwise (items_at ls indent sec_end (start ∷ starts)) ≡ sec_end
last_end-items_at ls indent sec_end otherwise start [] = refl
last_end-items_at ls indent sec_end otherwise start (i ∷ is) =
    last_end-items_at ls indent sec_end i i is

pub last_end-items_of :
    (ls : List Bytes) (sec_end otherwise : ℕ) (is : List ℕ)
    → (last_end otherwise (items_of ls sec_end is) ≡ otherwise)
      ⊎ (last_end otherwise (items_of ls sec_end is) ≡ sec_end)
last_end-items_of ls sec_end otherwise [] = inl refl
last_end-items_of ls sec_end otherwise (i ∷ is) =
    by_starts (with_indent ls (min_indent ls (indent_of (line_at ls i)) is) (i ∷ is))
  where
    n : ℕ
    n = min_indent ls (indent_of (line_at ls i)) is

    by_starts :
        (starts : List ℕ)
        → (last_end otherwise (items_at ls n sec_end starts) ≡ otherwise)
          ⊎ (last_end otherwise (items_at ls n sec_end starts) ≡ sec_end)
    by_starts [] = inl refl
    by_starts (s ∷ starts) = inr (last_end-items_at ls n sec_end otherwise s starts)

-- A section ends below its header.
pub le-next_top_level :
    (ls : List Bytes) (from : ℕ) → from ≤ length ls → from ≤ next_top_level ls from
unfolding next_top_level
le-next_top_level ls from h =
    by_found (position (λ l. is_some_key (is_top_level_key l)) (drop ls from))
  where
    by_found : (o : Option ℕ) → from ≤ elim o [ none ↦ length ls | some i ↦ from + i ]
    by_found none = h
    by_found (some i) = omega arith

pub set_line-at :
    (above below : List Bytes) (line new : Bytes) (i : ℕ)
    → length above ≡ i
    → set_line (above ++ (line ∷ below)) i new ≡ above ++ (new ∷ below)
unfolding set_line
set_line-at [] below line new i h = rw (← h, set_line) refl
set_line-at (a ∷ above) below line new i h =
    rw (← h) (ap (a ∷◌) (set_line-at above below line new (length above) refl))

-- A cut below a line keeps what is above it.
pub take-past :
    (above below : List Bytes) (line : Bytes) (n : ℕ)
    → take (above ++ (line ∷ below)) (length above + suc n) ≡ above ++ (line ∷ take below n)
unfolding take
take-past [] below line n = rw zero-plus refl
take-past (a ∷ above) below line n = rw suc-plus (ap (a ∷◌) (take-past above below line n))

pub drop-past :
    (above below : List Bytes) (line : Bytes) (n : ℕ)
    → drop (above ++ (line ∷ below)) (length above + suc n) ≡ drop below n
unfolding drop
drop-past [] below line n = rw zero-plus refl
drop-past (a ∷ above) below line n = rw suc-plus (drop-past above below line n)
