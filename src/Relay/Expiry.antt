-- ===== src/Relay/Expiry.antt =====
-- The expiry that a mint computes, against the clock.
use envctl.Prelude.{
  ◌+◌, ◌*◌, ◌<◌, ◌≤◌, ◌≡◌, refl, sym, ap, ◌∙◌, false, Option, none, some, arith, if◌then◌else◌, ℤ,
  pos, negsuc, pos_part, neg_part, ◌≤ℤ◌, ◌<ℤ◌, ◌+ℤ◌, leb_ℤ, i64_max, i64_min, IsI64, saturate,
  saturate_id, saturating_add, saturating_mul, scale, min_ℤ, +ℤ_parts, scale_parts, List_eq, ℕ_eq,
  Bool-cases, inl, inr,
}
use envctl.Broker.Policy.{clamp_ttl, max_bearer_ttl_secs}
use envctl.Relay.Mint.{div_1000}

ttl_bounds :
    (p r ttl : ℤ)
    → ttl ≡ min_ℤ (min_ℤ r p) max_bearer_ttl_secs
    → leb_ℤ ttl (pos 0) ≡ false
    → (0 < pos_part ttl) × (neg_part ttl ≡ 0) × (pos_part ttl < 86401)
unfolding min_ℤ
ttl_bounds p r ttl e h = ground arith

-- The seconds of a time in milliseconds, rounded down.
div_1000_bounds :
    (now : ℤ)
    → (pos_part (div_1000 now) * 1000 + neg_part now
        ≤ pos_part now + neg_part (div_1000 now) * 1000)
      × (pos_part now + neg_part (div_1000 now) * 1000
          < pos_part (div_1000 now) * 1000 + neg_part now + 1000)
unfolding div_1000
div_1000_bounds (pos n) = (omega arith, omega arith)
div_1000_bounds (negsuc n) = (omega arith, omega arith)

saturate_between :
    (a lo hi : ℤ)
    → lo <ℤ a
    → a ≤ℤ hi
    → lo <ℤ i64_max
    → i64_min ≤ℤ hi
    → (lo <ℤ saturate a) × (saturate a ≤ℤ hi)
unfolding saturate
saturate_between a lo hi l h m n = ground arith

sum_IsI64 :
    (now ttl : ℤ)
    → IsI64 now
    → 0 < pos_part ttl
    → neg_part ttl ≡ 0
    → pos_part ttl < 86401
    → IsI64 (div_1000 now +ℤ ttl)
sum_IsI64 now ttl i lo z hi =
    let d = div_1000_bounds now in let e = +ℤ_parts (div_1000 now) ttl in (omega arith, omega arith)

-- The expiry is after the mint and within a day of it.
pub expiry_bounds :
    (now p r e : ℤ)
    → IsI64 now
    → now <ℤ i64_max
    → clamp_ttl (div_1000 now) p r ≡ some e
    → (now <ℤ saturating_mul e 1000) × (saturating_mul e 1000 ≤ℤ now +ℤ pos 86400000)
unfolding clamp_ttl saturating_add saturating_mul
expiry_bounds now p r e i h c = by_ttl (min_ℤ (min_ℤ r p) max_bearer_ttl_secs) refl c
  where
    no_expiry : ◌≡◌ {A = Option ℤ} none (some e) → ⊥
    no_expiry x = cc

    within :
        (ttl : ℤ)
        → 0 < pos_part ttl
        → neg_part ttl ≡ 0
        → pos_part ttl < 86401
        → (now <ℤ saturate (scale (div_1000 now +ℤ ttl) 1000))
          × (saturate (scale (div_1000 now +ℤ ttl) 1000) ≤ℤ now +ℤ pos 86400000)
    within ttl lo z hi =
        let d = div_1000_bounds now in
        let e = +ℤ_parts (div_1000 now) ttl in
        let m = scale_parts (div_1000 now +ℤ ttl) 1000 in
        let n = +ℤ_parts now (pos 86400000) in
        saturate_between _ now _ (omega arith) (omega arith) h (omega arith)

    by_ttl :
        (ttl : ℤ)
        → ttl ≡ min_ℤ (min_ℤ r p) max_bearer_ttl_secs
        → (if leb_ℤ ttl (pos 0) then none else some (saturate (div_1000 now +ℤ ttl))) ≡ some e
        → (now <ℤ saturate (scale e 1000)) × (saturate (scale e 1000) ≤ℤ now +ℤ pos 86400000)
    by_ttl ttl t k = elim (Bool-cases (leb_ℤ ttl (pos 0))) [
      | inl dead ↦ absurd (no_expiry (rw (dead) at k))
      | inr live ↦
          let (lo, z, hi) = ttl_bounds p r ttl t live in
          let exact : e ≡ div_1000 now +ℤ ttl =
            sym (ap (λ (o : Option ℤ). elim o [ none ↦ e | some x ↦ x ]) (rw (live) at k))
            ∙ saturate_id _ (sum_IsI64 now ttl i lo z hi) in
          rw (exact) (within ttl lo z hi)
    ]
