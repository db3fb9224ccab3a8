-- ===== src/Slices.antt =====
-- Searching and slicing of `str`, over bytes: documented behaviour of Rust's standard library that
-- the wiring and the configuration edits rest on.
use envctl.Prelude.{
  ℕ, zero, suc, ◌+◌, ◌≤◌, ◌≡◌, refl, sym, ap, ◌∙◌, ◌≢◌, true, false, ◌&&◌, List, [], ◌∷◌, ◌++◌,
  Option, none, some, arith, if◌then◌else◌, Bool-cases, inl, inr, Bytes, AllOf, any, length, ◌==◌,
  ℕ_eq,
}
use envctl.Text.{starts_with, strip_prefix, starts_with_iff}
use envctl.Drift.{contains}

suc-add : (n m : ℕ) → suc n + m ≡ suc (n + m)
suc-add n m = omega arith

module _ {ℓ} {A : Type ℓ} where
  unfoldable pub take : List A → ℕ → List A
  take xs zero = []
  take [] (suc n) = []
  take (x ∷ xs) (suc n) = x ∷ take xs n

  unfoldable pub drop : List A → ℕ → List A
  drop xs zero = xs
  drop [] (suc n) = []
  drop (x ∷ xs) (suc n) = drop xs n

  pub take-length : (xs ys : List A) → take (xs ++ ys) (length xs) ≡ xs
  unfolding take
  take-length [] ys = refl
  take-length (x ∷ xs) ys = ap (x ∷◌) (take-length xs ys)

  pub drop-length : (xs ys : List A) → drop (xs ++ ys) (length xs) ≡ ys
  unfolding drop
  drop-length [] ys = refl
  drop-length (x ∷ xs) ys = drop-length xs ys

  -- An index that is the length of a first part cuts behind it.
  pub drop-at : (t xs ys : List A) (n : ℕ) → t ≡ xs ++ ys → length xs ≡ n → drop t n ≡ ys
  drop-at t xs ys n e h = rw (e, ← h) (drop-length xs ys)

  pub take-at : (t xs ys : List A) (n : ℕ) → t ≡ xs ++ ys → length xs ≡ n → take t n ≡ xs
  take-at t xs ys n e h = rw (e, ← h) (take-length xs ys)

  pub take-append-drop : (xs : List A) (n : ℕ) → take xs n ++ drop xs n ≡ xs
  unfolding take drop
  take-append-drop xs zero = refl
  take-append-drop [] (suc n) = refl
  take-append-drop (x ∷ xs) (suc n) = ap (x ∷◌) (take-append-drop xs n)

  drop-nil : (n : ℕ) → drop [] n ≡ []
  unfolding drop
  drop-nil zero = refl
  drop-nil (suc n) = refl

  pub drop-drop : (xs : List A) (n m : ℕ) → drop (drop xs n) m ≡ drop xs (n + m)
  unfolding drop
  drop-drop xs zero m = ground arith
  drop-drop [] (suc n) m = drop-nil m ∙ sym (drop-nil (suc n + m))
  drop-drop (x ∷ xs) (suc n) m =
      drop-drop xs n m ∙ sym (ap (λ (k : ℕ). drop (x ∷ xs) k) (suc-add n m))

abbrev pub shift : ℕ → Option ℕ → Option ℕ
shift n none = none
shift n (some i) = some (n + i)

-- `str::find`
unfoldable pub find : Bytes → Bytes → Option ℕ
find [] pat = if starts_with [] pat then some 0 else none
find (c ∷ s) pat =
    let later = shift 1 (find s pat) in if starts_with (c ∷ s) pat then some 0 else later

-- A text that does not hold the byte `c`.
abbrev pub Lacks : ℕ → Bytes → Type 0
Lacks c s = AllOf (λ (d : ℕ). (d == c) ≡ false) s

pub Lacks-any : (c : ℕ) (s : Bytes) → any (λ d. d == c) s ≡ false → Lacks c s
Lacks-any c [] h = tt
Lacks-any c (d ∷ s) h = (ground arith, Lacks-any c s (ground arith))

pub find-starts_with : (pat s : Bytes) → find (pat ++ s) pat ≡ some 0
unfolding find
find-starts_with pat s = at_start (pat ++ s) ((starts_with_iff (pat ++ s) pat).1 (s, refl))
  where
    at_start : (t : Bytes) → starts_with t pat ≡ true → find t pat ≡ some 0
    at_start [] h = rw h refl
    at_start (c ∷ t) h = rw h refl

shift_iff :
    (n : ℕ) (o : Option ℕ) (i : ℕ) → shift n o ≡ some i → (j : ℕ) × (o ≡ some j) × (i ≡ n + j)
shift_iff n none i h = cc
shift_iff n (some j) i h = (j, refl, cc)

-- The pattern stands where it is found.
pub find-some :
    (s pat : Bytes) (i : ℕ)
    → find s pat ≡ some i
    → (pre : Bytes) × (post : Bytes) × (s ≡ pre ++ (pat ++ post)) × (length pre ≡ i)
unfolding find
find-some [] pat i h = elim (Bool-cases (starts_with [] pat)) [
  | inl e ↦ let (post, q) = (starts_with_iff [] pat).0 e in ([], post, q, ground arith)
  | inr e ↦ absurd (ground arith)
]
find-some (c ∷ s) pat i h = elim (Bool-cases (starts_with (c ∷ s) pat)) [
  | inl e ↦ let (post, q) = (starts_with_iff (c ∷ s) pat).0 e in ([], post, q, ground arith)
  | inr e ↦
      let (j, f, n) = shift_iff 1 (find s pat) i (ground arith) in
      let (pre, post, q, m) = find-some s pat j f in
      (c ∷ pre, post, ap (c ∷◌) q, omega (arith, m, n))
]

-- The source tests with `contains` and then searches.
pub find-contains : (s pat : Bytes) → (contains s pat ≡ false) → find s pat ≡ none
unfolding find contains
find-contains [] pat h = rw h refl
find-contains (c ∷ s) pat h = ground (arith, find-contains s pat)

pub contains-find : (s pat : Bytes) → (contains s pat ≡ true) → (i : ℕ) × (find s pat ≡ some i)
unfolding find contains
contains-find [] pat h = (0, rw h refl)
contains-find (c ∷ s) pat h = elim (Bool-cases (starts_with (c ∷ s) pat)) [
  | inl e ↦ (0, rw e refl)
  | inr e ↦ let (i, f) = contains-find s pat (ground arith) in (1 + i, rw (e, f) refl)
]

-- A pattern without the byte `c` does not reach over one.
starts_with-across :
    (c : ℕ) (s rest pat : Bytes)
    → Lacks c pat
    → starts_with (s ++ (c ∷ rest)) pat ≡ starts_with s pat
unfolding starts_with strip_prefix
starts_with-across c [] rest [] l = refl
starts_with-across c [] rest (p ∷ pat) (l, ls) = ground arith
starts_with-across c (d ∷ s) rest [] l = refl
starts_with-across c (d ∷ s) rest (p ∷ pat) (l, ls) =
    ground (arith, starts_with-across c s rest pat ls)

starts_with-at :
    (c : ℕ) (rest pat : Bytes) → Lacks c pat → pat ≢ [] → starts_with (c ∷ rest) pat ≡ false
unfolding starts_with strip_prefix
starts_with-at c rest [] l ne = absurd (ne refl)
starts_with-at c rest (p ∷ pat) (l, ls) ne = ground arith

-- A pattern that is not before a byte it lacks is found behind that byte.
pub find-across :
    (c : ℕ) (s rest pat : Bytes)
    → Lacks c pat
    → pat ≢ []
    → contains s pat ≡ false
    → find (s ++ (c ∷ rest)) pat ≡ shift (suc (length s)) (find rest pat)
unfolding find contains
find-across c [] rest pat l ne h = rw (starts_with-at c rest pat l ne) refl
find-across c (d ∷ s) rest pat l ne h =
    let clear : starts_with (d ∷ s) pat ≡ false = ground arith in
    let e = starts_with-across c (d ∷ s) rest pat l in
    let later = find-across c s rest pat l ne (ground arith) in
    rw (e, clear, later) (shift-shift (find rest pat))
  where
    shift-shift :
        (o : Option ℕ) → shift 1 (shift (suc (length s)) o) ≡ shift (suc (suc (length s))) o
    shift-shift none = refl
    shift-shift (some i) = ap some (omega arith)

-- `str::lines`: the pieces that a newline ends, and what is left; a carriage return before the
-- newline goes with it.
abbrev pub drop_cr : Bytes → Bytes
drop_cr [] = []
drop_cr (c ∷ []) = c ∷ []
drop_cr (c ∷ d ∷ s) = let rest = drop_cr (d ∷ s) in if c == 13 && d == 10 then rest else c ∷ rest

abbrev pub push_byte : ℕ → List Bytes → List Bytes
push_byte c [] = (c ∷ []) ∷ []
push_byte c (l ∷ ls) = (c ∷ l) ∷ ls

abbrev pub raw_lines : Bytes → List Bytes
raw_lines [] = []
raw_lines (c ∷ s) = let rest = raw_lines s in if c == 10 then [] ∷ rest else push_byte c rest

unfoldable pub lines : Bytes → List Bytes
lines s = raw_lines (drop_cr s)

pub length-take : (ls : List Bytes) (n : ℕ) → n ≤ length ls → length (take ls n) ≡ n
unfolding take
length-take ls zero h = refl
length-take [] (suc n) h = absurd (omega arith)
length-take (l ∷ ls) (suc n) h = ap suc (length-take ls n (omega arith))
