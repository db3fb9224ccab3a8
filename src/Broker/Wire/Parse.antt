-- ===== src/Broker/Wire/Parse.antt =====
-- `parse_bearer` accepts exactly the wire form `evrelay_{token_id}_{secret}`.
use envctl.Prelude.{
  ℕ, ◌≡◌, ◌≢◌, refl, true, false, Option, none, some, [], ◌∷◌, ◌++◌, arith, if◌then◌else◌, Bytes,
  all, ◌↔◌, ◌==◌, ℕ_eq,
}
use envctl.Text.{strip_prefix, strip_prefix-some, strip_prefix-append}
use envctl.Broker.Wire.{
  bearer_prefix, prepend, split_once, is_ascii_alphanumeric, accept_parts, parse_bearer,
}

split_once-some :
    (sep : ℕ) (s front back : Bytes)
    → split_once sep s ≡ some (front, back)
    → s ≡ front ++ sep ∷ back
unfolding split_once
split_once-some sep [] front back h = cc
split_once-some sep (c ∷ s) front back h = step (split_once sep s) (split_once-some sep s) h
  where
    step :
        (o : Option (Bytes × Bytes))
        → ((f b : Bytes) → o ≡ some (f, b) → s ≡ f ++ sep ∷ b)
        → if◌then◌else◌ {A = Option (Bytes × Bytes)} (c == sep) (some ([], s)) (prepend c o)
          ≡ some (front, back)
        → c ∷ s ≡ front ++ sep ∷ back
    step none ih e = ground arith
    step (some (f, b)) ih e = ground (arith, ih f b refl)

not_sep : (c : ℕ) → is_ascii_alphanumeric c ≡ true → (c == b'_') ≡ false
unfolding is_ascii_alphanumeric
not_sep c h = ground arith

split_once-append :
    (front back : Bytes)
    → all is_ascii_alphanumeric front ≡ true
    → split_once b'_' (front ++ b'_' ∷ back) ≡ some (front, back)
unfolding split_once
split_once-append [] back h = refl
split_once-append (c ∷ front) back h = ground (arith, not_sep c, split_once-append front back)

-- The token ids that the mint makes: ASCII letters and digits, at least one.
abbrev pub IsTokenId : Bytes → Type 0
IsTokenId t = (t ≢ []) × (all is_ascii_alphanumeric t ≡ true)

parts :
    (raw : Bytes) (o : Option (Bytes × Bytes)) (token_id whole : Bytes)
    → accept_parts raw o ≡ some (token_id, whole)
    → (secret : Bytes) × (o ≡ some (token_id, secret))
      × IsTokenId token_id
      × (secret ≢ [])
      × (whole ≡ raw)
parts raw none token_id whole h = cc
parts raw (some ([], b)) token_id whole h = cc
parts raw (some (x ∷ f, [])) token_id whole h = cc
parts raw (some (x ∷ f, y ∷ b)) token_id whole h =
    (y ∷ b, ground arith, (ground arith, ground arith), ground arith, ground arith)

accepted :
    (raw token_id secret : Bytes)
    → IsTokenId token_id
    → secret ≢ []
    → accept_parts raw (some (token_id, secret)) ≡ some (token_id, raw)
accepted raw [] secret ok ne = absurd (ok.0 refl)
accepted raw (x ∷ t) [] ok ne = absurd (ne refl)
accepted raw (x ∷ t) (y ∷ s) ok ne = ground arith

-- `parse_bearer` accepts a wire string as the token id `token_id` exactly when the string is the
-- prefix, that id, an underscore and a secret, the id being alphanumeric and neither part empty; it
-- then returns the whole string beside the id.
pub parse_bearer_iff :
    (raw token_id whole : Bytes)
    → (parse_bearer raw ≡ some (token_id, whole))
      ↔ (secret : Bytes) × (raw ≡ bearer_prefix ++ (token_id ++ b'_' ∷ secret))
        × IsTokenId token_id
        × (secret ≢ [])
        × (whole ≡ raw)
unfolding parse_bearer strip_prefix
parse_bearer_iff raw token_id whole = (to (strip_prefix bearer_prefix raw) refl, back)
  where
    to :
        (o : Option Bytes)
        → strip_prefix bearer_prefix raw ≡ o
        → elim o [ none ↦ none | some rest ↦ accept_parts raw (split_once b'_' rest) ]
          ≡ some (token_id, whole)
        → (secret : Bytes) × (raw ≡ bearer_prefix ++ (token_id ++ b'_' ∷ secret))
          × IsTokenId token_id
          × (secret ≢ [])
          × (whole ≡ raw)
    to none e h = cc
    to (some rest) e h =
        let (secret, split, ok, nonempty, w) = parts raw (split_once b'_' rest) token_id whole h in
        let shape = split_once-some b'_' rest token_id secret split in
        (secret, rw (← shape) (strip_prefix-some bearer_prefix raw rest e), ok, nonempty, w)

    back :
        ((secret : Bytes) × (raw ≡ bearer_prefix ++ (token_id ++ b'_' ∷ secret))
          × IsTokenId token_id
          × (secret ≢ [])
          × (whole ≡ raw))
        → parse_bearer raw ≡ some (token_id, whole)
    back (secret, shape, ok, nonempty, w) =
        let rest = token_id ++ b'_' ∷ secret in
        let e : strip_prefix bearer_prefix raw ≡ some rest =
          rw shape (strip_prefix-append bearer_prefix rest) in
        rw (e, split_once-append token_id secret ok.1, w) (accepted raw token_id secret ok nonempty)
