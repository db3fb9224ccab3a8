-- ===== src/Text.antt =====
-- The operations of `str` that the source calls on hosts, paths and names, over bytes: documented
-- behaviour of Rust's standard library, with what they mean as propositions.
use envctl.Prelude.{
  ℕ, ◌+◌, ◌≡◌, refl, Bool, true, false, ◌&&◌, List, [], ◌∷◌, ◌++◌, map, Option, none, some, arith,
  leb, ◌↔◌, if◌then◌else◌, Bytes, any, AnyOf, ◌==◌, List_eq, ℕ_eq,
}

-- `u8::to_ascii_lowercase`
unfoldable pub to_ascii_lowercase : ℕ → ℕ
to_ascii_lowercase c = if leb b'A' c && leb c b'Z' then c + 32 else c

-- Two texts that differ in the case of ASCII letters only.
abbrev pub SameHost : Bytes → Bytes → Type 0
SameHost a b = map to_ascii_lowercase a ≡ map to_ascii_lowercase b

-- `str::eq_ignore_ascii_case`
unfoldable pub eq_ignore_ascii_case : Bytes → Bytes → Bool
eq_ignore_ascii_case a b = map to_ascii_lowercase a == map to_ascii_lowercase b

pub eq_ignore_ascii_case_iff : (a b : Bytes) → (eq_ignore_ascii_case a b ≡ true) ↔ SameHost a b
unfolding eq_ignore_ascii_case
eq_ignore_ascii_case_iff a b = List_eq.test_iff _ _

-- `str::strip_prefix`
unfoldable pub strip_prefix : Bytes → Bytes → Option Bytes
strip_prefix [] s = some s
strip_prefix (p ∷ ps) [] = none
strip_prefix (p ∷ ps) (c ∷ s) = if p == c then strip_prefix ps s else none

-- `str::starts_with`
unfoldable pub starts_with : Bytes → Bytes → Bool
unfolding strip_prefix
starts_with s p = elim (strip_prefix p s) [ none ↦ false | some rest ↦ true ]

abbrev pub IsPrefixOf : Bytes → Bytes → Type 0
IsPrefixOf p s = (rest : Bytes) × (s ≡ p ++ rest)

pub strip_prefix-some : (p s rest : Bytes) → strip_prefix p s ≡ some rest → s ≡ p ++ rest
unfolding strip_prefix
strip_prefix-some [] s rest h = cc
strip_prefix-some (p ∷ ps) [] rest h = cc
strip_prefix-some (p ∷ ps) (c ∷ s) rest h = ground (arith, strip_prefix-some ps s rest)

pub strip_prefix-append : (p rest : Bytes) → strip_prefix p (p ++ rest) ≡ some rest
unfolding strip_prefix
strip_prefix-append [] rest = refl
strip_prefix-append (p ∷ ps) rest = ground (arith, strip_prefix-append ps rest)

pub starts_with_iff : (s p : Bytes) → (starts_with s p ≡ true) ↔ IsPrefixOf p s
unfolding starts_with
starts_with_iff s p = (to (strip_prefix p s) refl, back)
  where
    to :
        (o : Option Bytes)
        → strip_prefix p s ≡ o
        → elim o [ none ↦ false | some rest ↦ true ] ≡ true
        → IsPrefixOf p s
    to none e h = cc
    to (some rest) e h = (rest, strip_prefix-some p s rest e)

    back : IsPrefixOf p s → starts_with s p ≡ true
    back (rest, e) = rw (e, starts_with, strip_prefix-append)

-- `strip_suffix('*')`
unfoldable pub strip_star : Bytes → Option Bytes
strip_star [] = none
strip_star (c ∷ []) = if c == b'*' then some [] else none
strip_star (c ∷ d ∷ s) = elim (strip_star (d ∷ s)) [ none ↦ none | some r ↦ some (c ∷ r) ]

pub any_iff {ℓ} :
    {A : Type ℓ} (p : A → Bool) (P : A → Type 0)
    → ((a : A) → (p a ≡ true) ↔ P a)
    → (xs : List A) → (any p xs ≡ true) ↔ AnyOf P xs
any_iff p P r [] = ((λ h. cc), (λ h. elim h [ ]))
any_iff p P r (x ∷ xs) = ground (arith, r x, any_iff p P r xs)
