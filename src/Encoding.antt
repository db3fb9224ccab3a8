-- ===== src/Encoding.antt =====
-- `to_be_bytes` of the machine integers, and the rules by which an encoding that is built of
-- fixed-width and length-prefixed fields is read back field by field.
use native.Mathlib.Nat.{pow-suc}
use envctl.Prelude.{
  ℕ, zero, suc, ◌-◌, ◌/◌, ◌%◌, ◌^◌, ◌<◌, ◌≡◌, refl, [], ◌∷◌, ◌++◌, arith, Bytes, length,
  length-append, append-injective, ℤ, pos, negsuc, IsI64,
}

-- The `k` low bytes of a number, the highest first.
unfoldable pub be : ℕ → ℕ → Bytes
be zero n = []
be (suc k) n = be k (n / 256) ++ n % 256 ∷ []

-- The bit pattern of an `i64`.
unfoldable pub bits64 : ℤ → ℕ
bits64 (pos n) = n
bits64 (negsuc n) = 2 ^ 64 - 1 - n

unfoldable pub u32_be : ℕ → Bytes
u32_be n = be 4 n

unfoldable pub u64_be : ℕ → Bytes
u64_be n = be 8 n

unfoldable pub i64_be : ℤ → Bytes
i64_be a = be 8 (bits64 a)

pub length-be : (k n : ℕ) → length (be k n) ≡ k
unfolding be
length-be zero n = refl
length-be (suc k) n =
    omega (arith, length-append (be k (n / 256)) (n % 256 ∷ []), length-be k (n / 256))

be-injective : (k m n : ℕ) → m < 256 ^ k → n < 256 ^ k → be k m ≡ be k n → m ≡ n
unfolding be
be-injective zero m n hm hn e = omega arith
be-injective (suc k) m n hm hn e =
    let (front, back) =
      append-injective (be k (m / 256)) _ (be k (n / 256)) _
        (omega (arith, length-be k (m / 256), length-be k (n / 256))) e in
    let low : m % 256 ≡ n % 256 = cc back in
    let high =
      be-injective k (m / 256) (n / 256) (omega (arith, pow-suc 256 k))
        (omega (arith, pow-suc 256 k)) front in
    omega arith

-- Two encodings that begin with a field of `k` bytes agree in the field and in the rest.
pub be-peel :
    (k m n : ℕ) (xs ys : Bytes)
    → m < 256 ^ k
    → n < 256 ^ k
    → be k m ++ xs ≡ be k n ++ ys
    → (m ≡ n) × (xs ≡ ys)
be-peel k m n xs ys hm hn e =
    let (front, back) =
      append-injective (be k m) xs (be k n) ys (omega (arith, length-be k m, length-be k n)) e in
    (be-injective k m n hm hn front, back)

pub u32-peel :
    (m n : ℕ) (xs ys : Bytes)
    → m < 2 ^ 32
    → n < 2 ^ 32
    → u32_be m ++ xs ≡ u32_be n ++ ys
    → (m ≡ n) × (xs ≡ ys)
unfolding u32_be
u32-peel m n xs ys hm hn e = be-peel 4 m n xs ys hm hn e

pub u64-peel :
    (m n : ℕ) (xs ys : Bytes)
    → m < 2 ^ 64
    → n < 2 ^ 64
    → u64_be m ++ xs ≡ u64_be n ++ ys
    → (m ≡ n) × (xs ≡ ys)
unfolding u64_be
u64-peel m n xs ys hm hn e = be-peel 8 m n xs ys hm hn e

bits64-lt : (a : ℤ) → IsI64 a → bits64 a < 2 ^ 64
unfolding bits64
bits64-lt a h = ground arith

bits64-injective : (a b : ℤ) → IsI64 a → IsI64 b → bits64 a ≡ bits64 b → a ≡ b
unfolding bits64
bits64-injective a b ha hb e = ground arith

pub i64-peel :
    (a b : ℤ) (xs ys : Bytes)
    → IsI64 a
    → IsI64 b
    → i64_be a ++ xs ≡ i64_be b ++ ys
    → (a ≡ b) × (xs ≡ ys)
unfolding i64_be
i64-peel a b xs ys ha hb e =
    let (bits, rest) = be-peel 8 (bits64 a) (bits64 b) xs ys (bits64-lt a ha) (bits64-lt b hb) e in
    (bits64-injective a b ha hb bits, rest)

-- A field whose length was read before it.
pub sized-peel : (a b xs ys : Bytes) → length a ≡ length b → a ++ xs ≡ b ++ ys → (a ≡ b) × (xs ≡ ys)
sized-peel a b xs ys n e = append-injective a xs b ys n e

pub byte-peel : (a b : ℕ) (xs ys : Bytes) → a ∷ xs ≡ b ∷ ys → (a ≡ b) × (xs ≡ ys)
byte-peel a b xs ys e = ground arith

pub length-i64_be : (a : ℤ) → length (i64_be a) ≡ 8
unfolding i64_be
length-i64_be a = length-be 8 (bits64 a)
