-- ===== src/Broker/Decide/Reasons.antt =====
-- Why `decide` denies: each reason that it returns is true of the request.
use envctl.Prelude.{
  ℕ, ◌≤◌, ◌<◌, ◌≡◌, refl, Bool, true, false, not, Option, none, some, ◌↔◌, ◌⊎◌, inl, inr, arith,
  Bytes, AnyOf, ==_iff, Option_eq, List_eq, ℕ_eq, ltb→lt, leb→le, ℤ, ◌≤ℤ◌, saturating_sub,
  saturating_add, saturating_mul,
}
use envctl.Text.{any_iff, SameHost, eq_ignore_ascii_case_iff}
use envctl.Broker.Policy.{RelayPolicy, Method_eq, canonical_upstreams}
use envctl.Broker.Decide.{
  RelayDecision, allow, deny, DenyReason, ◌>>◌, deny_if, RemotePeer, VerifiedBearer, CanonRequest,
  plane_check, peer_check, sni_check, quota_check, rate_check, gate_check, clock_check,
  policy_deadline, decide,
}
use envctl.Broker.Decide.Exact.{
  Covers, SamePlane, Presents, SniAgrees, ClocksAgree, skew_iff, host_in_iff, path_allowed_iff,
}

-- A cap that the count has passed; a rate that it has reached.
abbrev pub Over : Option ℕ → ℕ → Type 0
Over none n = ⊥
Over (some q) n = q < n

abbrev pub Reached : Option ℕ → ℕ → Type 0
Reached none n = ⊥
Reached (some r) n = r ≤ n

-- The two planes differ.
abbrev pub CrossKind : Option RemotePeer → Option Bytes → Type 0
CrossKind (some rp) none = Unit
CrossKind none (some client_id) = Unit
CrossKind _ _ = ⊥

abbrev pub Unverified : Option RemotePeer → Type 0
Unverified (some rp) = rp.dpop_verified ≡ false
Unverified none = ⊥

module _ (p : RelayPolicy) (b : VerifiedBearer) (req : CanonRequest) (now_ms boottime_now_ms : ℤ)
    (gate_absent_since_ms : Option ℤ) (issuance_floor_ms : ℤ) where
  -- What a reason asserts of the request.
  abbrev pub Grounds : DenyReason → Type 0
  Grounds DenyReason.disabled = p.enabled ≡ false
  Grounds DenyReason.revoked = p.revoked ≡ true
  Grounds DenyReason.bearer_revoked = b.revoked ≡ true
  Grounds DenyReason.bearer_expired =
      (b.expires_at_ms ≤ℤ now_ms)
      ⊎ (saturating_sub b.expires_at_ms b.issued_at_ms
          ≤ℤ saturating_sub boottime_now_ms b.issued_boottime_ms)
  Grounds DenyReason.policy_expired =
      saturating_add b.issued_at_ms (saturating_mul p.policy_ttl_secs 1000) ≤ℤ now_ms
  Grounds DenyReason.host_not_allowed = ¬ (AnyOf (λ h. SameHost h req.host) p.host_allow)
  Grounds DenyReason.path_not_allowed = ¬ (AnyOf (λ pat. Covers pat req.path) p.path_allow)
  Grounds DenyReason.method_not_allowed = ¬ (AnyOf (λ m. m ≡ req.method) p.method_allow)
  Grounds DenyReason.upstream_not_allowed =
      ¬ (AnyOf (λ h. SameHost h req.host) (canonical_upstreams p.provider))
  Grounds DenyReason.cross_kind_presentation = CrossKind req.remote b.client_id
  Grounds DenyReason.remote_no_dpop = Unverified req.remote
  Grounds DenyReason.remote_binding_mismatch = ¬ (SamePlane req.remote b.client_id b.dpop_jkt)
  Grounds DenyReason.peer_mismatch =
      (¬ (Presents b.client_uid req.peer_uid)) ⊎ (¬ (Presents b.client_pid req.peer_pid))
  Grounds DenyReason.sni_host_mismatch = ¬ (SniAgrees req.sni req.host)
  Grounds DenyReason.budget_requests = Over p.quota_total_requests req.usage_requests
  Grounds DenyReason.budget_bytes = Over p.quota_total_bytes req.usage_bytes
  Grounds DenyReason.rate_limited = Reached p.rate_per_min req.rate_in_window
  Grounds DenyReason.gate_absent = (since : ℤ) × (gate_absent_since_ms ≡ some since)
  Grounds DenyReason.clock_rollback = ¬ (ClocksAgree b now_ms boottime_now_ms issuance_floor_ms)
  Grounds _ = ⊥

  abbrev Truthful : RelayDecision → Type 0
  Truthful allow = Unit
  Truthful (deny r) = Grounds r

  step : (m k : RelayDecision) → Truthful m → Truthful k → Truthful (m >> k)
  unfolding ◌>>◌
  step allow k hm hk = hk
  step (deny r) k hm hk = hm

  unless : (t : Bool) (r : DenyReason) → (t ≡ true → Grounds r) → Truthful (deny_if t r)
  unfolding deny_if
  unless true r h = h refl
  unless false r h = tt

  refuted : {P : Type 0} (t : Bool) → ((t ≡ true) ↔ P) → not t ≡ true → ¬ P
  refuted t r h x = let e = r.1 x in ground arith

  peer_check-Truthful :
      (bound presented : Option ℕ)
      → (¬ (Presents bound presented) → Grounds DenyReason.peer_mismatch)
      → Truthful (peer_check bound presented)
  unfolding peer_check
  peer_check-Truthful none presented g = tt
  peer_check-Truthful (some n) presented g =
      unless _ _ (λ h. g (refuted _ (==_iff presented (some n)) h))

  sni_check-Truthful :
      (sni : Option Bytes) (host : Bytes)
      → (¬ (SniAgrees sni host) → Grounds DenyReason.sni_host_mismatch)
      → Truthful (sni_check sni host)
  unfolding sni_check
  sni_check-Truthful none host g = tt
  sni_check-Truthful (some sni) host g =
      unless _ _ (λ h. g (refuted _ (eq_ignore_ascii_case_iff sni host) h))

  quota_check-Truthful :
      (quota : Option ℕ) (usage : ℕ) (r : DenyReason)
      → (Over quota usage → Grounds r)
      → Truthful (quota_check quota usage r)
  unfolding quota_check
  quota_check-Truthful none usage r g = tt
  quota_check-Truthful (some q) usage r g = unless _ _ (λ h. g (ltb→lt q usage h))

  rate_check-Truthful :
      (rate : Option ℕ) (in_window : ℕ)
      → (Reached rate in_window → Grounds DenyReason.rate_limited)
      → Truthful (rate_check rate in_window)
  unfolding rate_check
  rate_check-Truthful none in_window g = tt
  rate_check-Truthful (some r) in_window g = unless _ _ (λ h. g (leb→le r in_window h))

  gate_check-Truthful : (gate : Option ℤ) → gate_absent_since_ms ≡ gate → Truthful (gate_check gate)
  unfolding gate_check
  gate_check-Truthful none e = tt
  gate_check-Truthful (some ms) e = (ms, e)

  plane_check-Truthful :
      (remote : Option RemotePeer) (client_id dpop_jkt : Option Bytes)
      → req.remote ≡ remote
      → b.client_id ≡ client_id
      → b.dpop_jkt ≡ dpop_jkt
      → Truthful (plane_check remote client_id dpop_jkt)
  unfolding plane_check
  plane_check-Truthful (some rp) (some client_id) dpop_jkt er ec ej =
      step _ _ (unless _ _ (λ h. rw er (ground arith))) (
        step _ _
          (unless _ _
            (λ h. rw (er, ec, ej) (λ same. refuted _ (==_iff client_id rp.client_id) h same.1)))
          (unless _ _ (λ h.
            rw (er, ec, ej) (λ same. refuted _ (==_iff dpop_jkt (some rp.dpop_jkt)) h same.2))))
  plane_check-Truthful (some rp) none dpop_jkt er ec ej = rw (er, ec) tt
  plane_check-Truthful none (some client_id) dpop_jkt er ec ej = rw (er, ec) tt
  plane_check-Truthful none none dpop_jkt er ec ej = tt

  clock_check-Truthful : Truthful (clock_check b now_ms boottime_now_ms issuance_floor_ms)
  unfolding clock_check
  clock_check-Truthful =
      step _ _ (unless _ _ (λ h. λ c. let f = c.floor in let i = c.issued in ground arith)) (
        step _ _ (unless _ _ (λ h. λ c. let f = c.forwards in ground arith)) (
          step _ _ (unless _ _ (λ h. inr (ground arith)))
            (unless _ _ (λ h. λ c. let e = (skew_iff _ _).1 (c.ahead, c.behind) in cc (e, h)))))

  truthful : Truthful (decide p b req now_ms boottime_now_ms gate_absent_since_ms issuance_floor_ms)
  unfolding decide policy_deadline
  truthful = step _ _ (unless _ _ (λ h. ground arith)) (
      step _ _ (unless _ _ (λ h. h)) (
        step _ _ (unless _ _ (λ h. h)) (
          step _ _ (unless _ _ (λ h. inl (ground arith))) (
            step _ _ (unless _ _ (λ h. ground arith)) (
              step _ _ (unless _ _ (refuted _ (host_in_iff _ _))) (
                step _ _ (unless _ _ (refuted _ (path_allowed_iff _ _))) (
                  step _ _ (unless _ _ (refuted _ (any_iff _ _ (λ m. ==_iff m req.method) _))) (
                    step _ _ (unless _ _ (refuted _ (host_in_iff _ _))) (
                      step _ _
                        (plane_check-Truthful req.remote b.client_id b.dpop_jkt refl refl refl)
                        (step _ _ (peer_check-Truthful _ _ inl) (
                          step _ _ (peer_check-Truthful _ _ inr) (
                            step _ _ (sni_check-Truthful _ _ (λ n. n)) (
                              step _ _ (quota_check-Truthful _ _ _ (λ o. o)) (
                                step _ _ (quota_check-Truthful _ _ _ (λ o. o)) (
                                  step _ _ (rate_check-Truthful _ _ (λ o. o)) (
                                    step _ _ (gate_check-Truthful _ refl)
                                      clock_check-Truthful))))))))))))))))

  -- Every reason that `decide` returns is true of the request, the policy, the bearer and the clocks
  -- that it was given. The three reasons that only the callers raise are never returned.
  pub decide-deny :
      (r : DenyReason)
      → decide p b req now_ms boottime_now_ms gate_absent_since_ms issuance_floor_ms ≡ deny r
      → Grounds r
  decide-deny r h = rw h at truthful
