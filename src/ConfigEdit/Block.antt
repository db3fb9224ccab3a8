-- ===== src/ConfigEdit/Block.antt =====
-- crates/agent-env/src/config_edit.rs: the items of a section into which a block of lines was put, as
-- its last item.
use mathlib.Core.Path.{subst}
use envctl.Prelude.{
  ℕ, suc, ◌+◌, ◌≤◌, ◌≡◌, ◌⊎◌, inl, inr, refl, sym, ap, ◌∙◌, Bool, true, false, Option, none, some,
  List, [], ◌∷◌, ◌++◌, arith, if◌then◌else◌, Bool-cases, Bytes, length, AllOf, ==_refl, ◌==◌,
  List_eq, ℕ_eq,
}
use envctl.ConfigEdit.Lines.{is_dash, indent_of, items_at}
use envctl.ConfigEdit.{first_indent}
use envctl.ConfigEdit.Items.{
  smaller, least_from, least_indent, dashes_at, least-dash, least-other, at-other, items_with,
}

-- Not the start of an item at indentation `n`, nor of a shallower one.
abbrev pub IsDeeper : ℕ → Bytes → Type 0
IsDeeper n l = (is_dash l ≡ false) ⊎ (suc n ≤ indent_of l)

at-dash :
    (n o : ℕ) (l : Bytes) (body : List Bytes)
    → is_dash l ≡ true
    → indent_of l ≡ n
    → dashes_at n o (l ∷ body) ≡ o ∷ dashes_at n (suc o) body
at-dash n o l body d e = rw (d, e, ==_refl n) refl

at-deeper :
    (n o : ℕ) (l : Bytes) (body : List Bytes)
    → IsDeeper n l
    → dashes_at n o (l ∷ body) ≡ dashes_at n (suc o) body
at-deeper n o l body (inl d) = at-other n o l body d
at-deeper n o l body (inr h) = ground arith

least_from-deeper :
    (n : ℕ) (l : Bytes) (body : List Bytes)
    → IsDeeper n l
    → least_from n (l ∷ body) ≡ least_from n body
least_from-deeper n l body (inl d) = rw (d) refl
least_from-deeper n l body (inr h) = ap (λ k. least_from k body) (ground arith)

pub least_from-IsDeeper : (n : ℕ) (ls : List Bytes) → AllOf (IsDeeper n) ls → least_from n ls ≡ n
least_from-IsDeeper n [] a = refl
least_from-IsDeeper n (l ∷ ls) (d, a) = least_from-deeper n l ls d ∙ least_from-IsDeeper n ls a

pub dashes_at-IsDeeper : (n o : ℕ) (ls : List Bytes) → AllOf (IsDeeper n) ls → dashes_at n o ls ≡ []
dashes_at-IsDeeper n o [] a = refl
dashes_at-IsDeeper n o (l ∷ ls) (d, a) = at-deeper n o l ls d ∙ dashes_at-IsDeeper n (suc o) ls a

least_from-append :
    (xs : List Bytes) (n : ℕ) (ys : List Bytes)
    → least_from n (xs ++ ys) ≡ least_from (least_from n xs) ys
least_from-append [] n ys = refl
least_from-append (x ∷ xs) n ys =
    least_from-append xs (if is_dash x then smaller n (indent_of x) else n) ys

abbrev pub least_then : Option ℕ → List Bytes → Option ℕ
least_then none ys = least_indent ys
least_then (some n) ys = some (least_from n ys)

pub least_indent-append :
    (xs ys : List Bytes) → least_indent (xs ++ ys) ≡ least_then (least_indent xs) ys
least_indent-append [] ys = refl
least_indent-append (x ∷ xs) ys = elim (Bool-cases (is_dash x)) [
  | inl d ↦
      least-dash x (xs ++ ys) d
      ∙ ap some (least_from-append xs (indent_of x) ys)
      ∙ sym (ap (λ m. least_then m ys) (least-dash x xs d))
  | inr d ↦
      least-other x (xs ++ ys) d
      ∙ least_indent-append xs ys
      ∙ sym (ap (λ m. least_then m ys) (least-other x xs d))
]

dashes_at-append :
    (n o : ℕ) (xs ys : List Bytes)
    → dashes_at n o (xs ++ ys) ≡ dashes_at n o xs ++ dashes_at n (o + length xs) ys
dashes_at-append n o [] ys = ap (λ k. dashes_at n k ys) (omega arith)
dashes_at-append n o (x ∷ xs) ys =
    let k : suc o + length xs ≡ o + suc (length xs) = omega arith in
    let ih =
      dashes_at-append n (suc o) xs ys ∙ ap (λ j. dashes_at n (suc o) xs ++ dashes_at n j ys) k in
    elim (Bool-cases (is_dash x)) [
      | inl d ↦ elim (Bool-cases (indent_of x == n)) [
        | inl e ↦ rw (d, e) (ap (o ∷◌) ih)
        | inr e ↦ rw (d, e) ih
      ]
      | inr d ↦ rw (d) ih
    ]

smaller_self : (n : ℕ) → smaller n n ≡ n
smaller_self n = ground arith

some-injective : (a b : ℕ) → some a ≡ some b → a ≡ b
some-injective a b h = cc

abbrev pub or_two : Option ℕ → ℕ
or_two none = 2
or_two (some n) = n

abbrev pub Hit : (n o : ℕ) → List Bytes → Type 0
Hit n o ls = (i : ℕ) × (is : List ℕ) × (dashes_at n o ls ≡ i ∷ is)

Hit-cons : (n o : ℕ) (l : Bytes) (ls : List Bytes) → Hit n (suc o) ls → Hit n o (l ∷ ls)
Hit-cons n o l ls (i, is, e) = elim (Bool-cases (is_dash l)) [
  | inl d ↦ elim (Bool-cases (indent_of l == n)) [
    | inl q ↦ (o, i ∷ is, rw (d, q) (ap (o ∷◌) e))
    | inr q ↦ (i, is, rw (d, q) e)
  ]
  | inr d ↦ (i, is, rw (d) e)
]

smaller-cases : (a b : ℕ) → (smaller a b ≡ a) ⊎ (smaller a b ≡ b)
smaller-cases a b = ground arith

-- The least indentation is that of a dash line.
least_from-Hit :
    (ls : List Bytes) (least o : ℕ) → (least_from least ls ≡ least) ⊎ Hit (least_from least ls) o ls
least_from-Hit [] least o = inl refl
least_from-Hit (l ∷ ls) least o = elim (Bool-cases (is_dash l)) [
  | inl d ↦
      let k = smaller least (indent_of l) in
      let e : least_from least (l ∷ ls) ≡ least_from k ls =
        ap (λ (b : Bool). least_from (if b then k else least) ls) d in
      subst (λ m. (m ≡ least) ⊎ Hit m o (l ∷ ls)) (sym e)
        (elim (least_from-Hit ls k (suc o)) [
          | inl f ↦ elim (smaller-cases least (indent_of l)) [
            | inl g ↦ inl (f ∙ g)
            | inr g ↦ inr (
              o,
              dashes_at (least_from k ls) (suc o) ls,
              at-dash (least_from k ls) o l ls d (sym (f ∙ g)),
            )
          ]
          | inr h ↦ inr (Hit-cons (least_from k ls) o l ls h)
        ])
  | inr d ↦
      let e : least_from least (l ∷ ls) ≡ least_from least ls =
        ap (λ (b : Bool). least_from (if b then smaller least (indent_of l) else least) ls) d in
      subst (λ m. (m ≡ least) ⊎ Hit m o (l ∷ ls)) (sym e)
        (elim (least_from-Hit ls least (suc o)) [
          | inl f ↦ inl f
          | inr h ↦ inr (Hit-cons (least_from least ls) o l ls h)
        ])
]

pub least_indent-Hit : (ls : List Bytes) (n o : ℕ) → least_indent ls ≡ some n → Hit n o ls
least_indent-Hit [] n o h = cc
least_indent-Hit (l ∷ ls) n o h = elim (Bool-cases (is_dash l)) [
  | inl d ↦
      let e : least_from (indent_of l) ls ≡ n = some-injective _ _ (sym (least-dash l ls d) ∙ h) in
      elim (least_from-Hit ls (indent_of l) (suc o)) [
        | inl f ↦ (o, _, at-dash n o l ls d (sym f ∙ e))
        | inr g ↦ Hit-cons n o l ls (subst (λ k. Hit k (suc o) ls) e g)
      ]
  | inr d ↦ Hit-cons n o l ls (least_indent-Hit ls n (suc o) (sym (least-other l ls d) ∙ h))
]

-- The indentation that `insert_item` takes from the items.
pub first_indent-items_with :
    (whole : List Bytes) (o sec_end : ℕ) (body : List Bytes)
    → first_indent (items_with whole [] o sec_end body (least_indent body))
      ≡ or_two (least_indent body)
first_indent-items_with whole o sec_end body = by_least (least_indent body) refl
  where
    by_least :
        (m : Option ℕ)
        → least_indent body ≡ m
        → first_indent (items_with whole [] o sec_end body m) ≡ or_two m
    by_least none h = refl
    by_least (some n) h =
        let (i, is, e) = least_indent-Hit body n o h in
        ap (λ x. first_indent (items_at whole n sec_end x)) e

module _ (n : ℕ) (under more floats : List Bytes) (dash : Bytes) where
  abbrev pub block_body : List Bytes
  block_body = under ++ (dash ∷ (more ++ floats))

  module _ (is_item : is_dash dash ≡ true) (at_n : indent_of dash ≡ n)
      (deeper : AllOf (IsDeeper n) (more ++ floats)) where
    pub least_indent-block : n ≡ or_two (least_indent under) → least_indent block_body ≡ some n
    least_indent-block e =
        least_indent-append under (dash ∷ (more ++ floats)) ∙ by_under (least_indent under) e
      where
        by_under : (m : Option ℕ) → n ≡ or_two m → least_then m (dash ∷ (more ++ floats)) ≡ some n
        by_under none e =
            least-dash dash (more ++ floats) is_item
            ∙ ap (λ k. some (least_from k (more ++ floats))) at_n
            ∙ ap some (least_from-IsDeeper n (more ++ floats) deeper)
        by_under (some m) e =
            ap
              (λ (b : Bool).
                some (least_from (if b then smaller m (indent_of dash) else m) (more ++ floats)))
              is_item
            ∙ ap (λ k. some (least_from (smaller m k) (more ++ floats))) at_n
            ∙ ap (λ k. some (least_from (smaller k n) (more ++ floats))) (sym e)
            ∙ ap (λ k. some (least_from k (more ++ floats))) (smaller_self n)
            ∙ ap some (least_from-IsDeeper n (more ++ floats) deeper)

    pub dashes_at-block :
        (o : ℕ) → dashes_at n o block_body ≡ dashes_at n o under ++ ((o + length under) ∷ [])
    dashes_at-block o =
        dashes_at-append n o under (dash ∷ (more ++ floats))
        ∙ ap (dashes_at n o under ++◌) (
            at-dash n (o + length under) dash (more ++ floats) is_item at_n
            ∙ ap ((o + length under) ∷◌) (dashes_at-IsDeeper n _ (more ++ floats) deeper))
