-- ===== src/Relay/Revoke.antt =====
-- What the revocation of one bearer means for later swaps.
use envctl.Prelude.{
  ℕ, ◌≡◌, refl, sym, ap, ◌∙◌, Bool, true, false, not, Option, none, some, List, [], ◌∷◌, arith,
  Bytes, inl, inr, if◌then◌else◌, ◌==◌, ==_iff, List_eq, ℕ_eq,
}
use envctl.Broker.Decide.Exact.{decide-allow_iff}
use envctl.Broker.Wire.{Crypto, parse_bearer}
use envctl.Vault.Rows.{BearerRow}
use envctl.Vault.Store.{find, load_bearer, save_bearer}
use envctl.Vault.Store.Upsert.{load_bearer-save_bearer_self}
use envctl.Relay.{
  EgressReq, EngineState, Moment, decide_swap, verified, canon, relay_swap, record_event,
  bearer_revoked,
}
use envctl.Relay.Revocation.{relay_revoke_bearer, revoke_loaded, store_revoked, reseal_bearer_row}
use envctl.Relay.Swap.{Accounted, relay_swap-Accounted, IsRefusal}

find-some {ℓ} : {A : Type ℓ} (p : A → Bool) (xs : List A) (x : A) → find p xs ≡ some x → p x ≡ true
unfolding find
find-some p [] x h = cc
find-some p (y ∷ ys) x h = ground (arith, find-some p ys x)

load_bearer-token_id :
    (token_id : Bytes) (bearers : List BearerRow) (row : BearerRow)
    → load_bearer token_id bearers ≡ some row
    → row.token_id ≡ token_id
unfolding load_bearer
load_bearer-token_id token_id bearers row h =
    (==_iff row.token_id token_id).0 (find-some (λ b. b.token_id == token_id) bearers row h)

clash : {b : Bool} → b ≡ true → b ≡ false → ⊥
clash t f = cc

no_row : (row : BearerRow) → ◌≡◌ {A = Option BearerRow} none (some row) → ⊥
no_row row e = cc

-- The bearers of a revocation's result, and the flag of a loaded row.
bearers_of : List BearerRow → Option (EngineState × ℕ) → List BearerRow
bearers_of bearers none = bearers
bearers_of bearers (some (st, n)) = st.bearers

flag_of : Option BearerRow → Bool
flag_of none = true
flag_of (some row) = row.revoked

module _ (crypto : Crypto) (open_sealed : (dek aad nonce ct_tag : Bytes) → Option Bytes)
    (send : EgressReq → Bytes → Option Bytes) where
  stored_lem :
      (st st' : EngineState) (token_id : Bytes) (n : ℕ) (sealed row : BearerRow)
      → sealed.token_id ≡ token_id
      → sealed.revoked ≡ true
      → store_revoked crypto st token_id (some sealed) ≡ some (st', n)
      → load_bearer token_id st'.bearers ≡ some row
      → row.revoked ≡ true
  unfolding store_revoked record_event bearers_of flag_of
  stored_lem st st' token_id n sealed row same flag h l =
      let kept = ap (bearers_of []) h in
      let saved = save_bearer sealed st.bearers in
      ap flag_of (sym l)
      ∙ ap (λ bs. flag_of (load_bearer token_id bs)) (sym kept)
      ∙ ap (λ t. flag_of (load_bearer t saved)) (sym same)
      ∙ ap flag_of (load_bearer-save_bearer_self sealed st.bearers)
      ∙ flag

  resealed_lem :
      (st st' : EngineState) (token_id : Bytes) (n : ℕ) (found row : BearerRow) (dek : Option Bytes)
      → found.token_id ≡ token_id
      → store_revoked crypto st token_id
          (reseal_bearer_row crypto dek (record found { revoked = true }))
        ≡ some (st', n)
      → load_bearer token_id st'.bearers ≡ some row
      → row.revoked ≡ true
  unfolding reseal_bearer_row store_revoked
  resealed_lem st st' token_id n found row none same h l = cc
  resealed_lem st st' token_id n found row (some dek) same h l =
      stored_lem st st' token_id n _ row same refl h l

  revoked_lem :
      (st st' : EngineState) (token_id : Bytes) (n : ℕ) (row : BearerRow) (o : Option BearerRow)
      → load_bearer token_id st.bearers ≡ o
      → revoke_loaded crypto st token_id true o ≡ some (st', n)
      → load_bearer token_id st'.bearers ≡ some row
      → row.revoked ≡ true
  unfolding revoke_loaded record_event bearers_of flag_of
  revoked_lem st st' token_id n row none e h l =
      let kept = ap (bearers_of []) h in
      absurd (no_row row (sym e ∙ ap (load_bearer token_id) kept ∙ l))
  revoked_lem st st' token_id n row (some found) e h l = live_lem found.revoked refl h
    where
      live_lem :
          (r : Bool)
          → found.revoked ≡ r
          → (if not r
              then store_revoked crypto st token_id
                  (reseal_bearer_row crypto st.dek (record found { revoked = true }))
              else some (record_event (bearer_revoked token_id true 0) st, 0))
            ≡ some (st', n)
          → row.revoked ≡ true
      live_lem false er hr =
          resealed_lem st st' token_id n found row st.dek
            (load_bearer-token_id token_id st.bearers found e) hr l
      live_lem true er hr =
          let kept = ap (bearers_of []) hr in
          ap flag_of (sym l ∙ ap (load_bearer token_id) (sym kept) ∙ e) ∙ er

  -- After a revocation of a bearer that succeeds, no swap that presents a bearer of that token id sends
  -- a key: every such swap is refused, whatever the request, the clocks and the gate.
  pub revoke-relay_swap :
      (st st' : EngineState) (token_id raw bearer : Bytes) (n : ℕ) (req : EgressReq) (m : Moment)
      → relay_revoke_bearer crypto st token_id true ≡ some (st', n)
      → parse_bearer bearer ≡ some (token_id, raw)
      → ((relay_swap crypto open_sealed send st' bearer req m).0.sent ≡ st'.sent)
        × IsRefusal (relay_swap crypto open_sealed send st' bearer req m).1
  unfolding relay_revoke_bearer Accounted decide_swap verified canon
  revoke-relay_swap st st' token_id raw bearer n req m h parsed =
      elim (relay_swap-Accounted crypto open_sealed send req m st' bearer) [
        | inl refused ↦ refused
        | inr (key, b, _, _) ↦
            let same : b.token_id ≡ token_id = let e = sym b.parsed ∙ parsed in ground arith in
            let dead = revoked_lem st st' token_id n b.row _ refl h (rw (← same) b.loaded) in
            let live =
              ((decide-allow_iff b.policy_row.policy (verified b.row) _ _ _ _ _).0
                b.decided.allowed).bearer_live in
            absurd (clash dead live)
      ]
