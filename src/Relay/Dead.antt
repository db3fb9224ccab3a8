-- ===== src/Relay/Dead.antt =====
-- What the revocation of a relay means for later swaps with its bearers.
use envctl.Prelude.{
  ℕ, ◌+◌, ◌≡◌, ◌⊎◌, refl, sym, ap, ◌∙◌, Bool, true, false, Option, none, some, List, [], ◌∷◌, arith,
  if◌then◌else◌, Bytes, AllOf, AnyOf, eqb_ℤ, ◌==◌, ==_iff, ==_refl, List_eq, ℕ_eq, Bool-cases, inl,
  inr,
}
use envctl.Sets.{elem, Distinct, ==_sym}
use envctl.Sets.Counting.{AllOf-map, AllOf-zip}
use envctl.Broker.Decide.Exact.{decide-allow_iff}
use envctl.Broker.Wire.{Crypto, parse_bearer}
use envctl.Vault.Rows.{BearerRow, RelayPolicyRow}
use envctl.Vault.Store.{
  find, upsert, filter_by, load_bearer, save_bearer, load_relay_policy, list_bearers_for_relay,
}
use envctl.Relay.{
  EgressReq, EngineState, Moment, decide_swap, verified, canon, relay_swap, record_event,
}
use envctl.Relay.Revocation.{reseal_bearer_row}
use envctl.Relay.Swap.{Accounted, relay_swap-Accounted, IsRefusal}
use envctl.Relay.Relays.{revoke_policy, revoke_listed, revoked_relay, relay_revoke}

abbrev pub token_ids : List BearerRow → List Bytes
token_ids [] = []
token_ids (b ∷ bs) = b.token_id ∷ token_ids bs

-- No row that the store returns for the token id is live.
pub IsDead : Bytes → List BearerRow → Type 0
IsDead t bearers = (row : BearerRow) → load_bearer t bearers ≡ some row → row.revoked ≡ true

load_bearer-save_bearer :
    (row : BearerRow) (t : Bytes) (bearers : List BearerRow)
    → load_bearer t (save_bearer row bearers)
      ≡ (if row.token_id == t then some row else load_bearer t bearers)
unfolding load_bearer save_bearer find upsert
load_bearer-save_bearer row t [] = refl
load_bearer-save_bearer row t (b ∷ bs) = ground (
  arith,
  ==_iff b.token_id row.token_id,
  ==_iff row.token_id t,
  ==_iff b.token_id t,
  load_bearer-save_bearer row t bs,
)

same_row : {a b : BearerRow} → ◌≡◌ {A = Option BearerRow} (some a) (some b) → a ≡ b
same_row {a} {b} e = ap (λ (o : Option BearerRow). elim o [ none ↦ a | some x ↦ x ]) e

save_bearer-IsDead :
    (row : BearerRow) (t : Bytes) (bearers : List BearerRow)
    → row.revoked ≡ true
    → (IsDead t bearers ⊎ (row.token_id ≡ t))
    → IsDead t (save_bearer row bearers)
unfolding IsDead
save_bearer-IsDead row t bearers r d found l = elim (Bool-cases (row.token_id == t)) [
  | inl e ↦
      ap (λ (x : BearerRow). x.revoked)
        (sym (same_row (rw (load_bearer-save_bearer row t bearers, e) at l)))
      ∙ r
  | inr e ↦ other e (rw (load_bearer-save_bearer row t bearers, e) at l) d
]
  where
    differ : (a b : Bytes) → a ≡ b → (a == b) ≡ false → ⊥
    differ a b x y = ground (arith, ==_iff a b)

    other :
        (row.token_id == t) ≡ false
        → load_bearer t bearers ≡ some found
        → (((x : BearerRow) → load_bearer t bearers ≡ some x → x.revoked ≡ true)
            ⊎ (row.token_id ≡ t))
        → found.revoked ≡ true
    other e k (inl dead) = dead found k
    other e k (inr same) = absurd (differ row.token_id t same e)

others :
    (x : BearerRow) (xs : List BearerRow)
    → elem x.token_id (token_ids xs) ≡ false
    → AllOf (λ c. (x.token_id == c.token_id) ≡ false) xs
others x [] h = tt
others x (c ∷ cs) h = (ground (arith, ==_sym x.token_id c.token_id), others x cs (ground arith))

-- Rows with distinct token ids are found under them.
found_self :
    (bearers : List BearerRow)
    → Distinct (token_ids bearers)
    → AllOf (λ b. load_bearer b.token_id bearers ≡ some b) bearers
unfolding Distinct load_bearer find
found_self [] d = tt
found_self (x ∷ xs) d = (
  rw (==_refl x.token_id) refl,
  AllOf-zip _ _ _ xs (λ c l e. rw (e) l) (found_self xs d.1) (others x xs d.0),
)

revoked-IsDead :
    (bearers : List BearerRow)
    → Distinct (token_ids bearers)
    → AllOf (λ b. IsDead b.token_id bearers ⊎ (b.revoked ≡ false)) bearers
unfolding IsDead
revoked-IsDead bearers d =
    AllOf-map _ _ bearers
      (λ b l. elim (Bool-cases b.revoked) [
        | inl r ↦ inl (λ row e. ap (λ (x : BearerRow). x.revoked) (same_row (sym e ∙ l)) ∙ r)
        | inr r ↦ inr r
      ])
      (found_self bearers d)

-- What holds of all bearers holds of a relay's.
listed-all :
    (P : BearerRow → Type 0) (relay_id : Bytes) (relays : List RelayPolicyRow)
    (bearers : List BearerRow)
    → AllOf P bearers
    → AllOf P (list_bearers_for_relay relay_id relays bearers)
unfolding list_bearers_for_relay
listed-all P relay_id relays bearers a =
    elim (load_relay_policy relay_id relays)
      as (λ o.
        AllOf P (elim o [ none ↦ [] | some r ↦ filter_by (λ b. eqb_ℤ b.policy_id r.id) bearers ])) [
          | none ↦ tt
          | some r ↦ kept (λ b. eqb_ℤ b.policy_id r.id) bearers a
        ]
  where
    kept : (p : BearerRow → Bool) (bs : List BearerRow) → AllOf P bs → AllOf P (filter_by p bs)
    kept p [] h = tt
    kept p (b ∷ bs) h = elim (Bool-cases (p b)) [
      | inl e ↦ rw (filter_by, e) (h.0, kept p bs h.1)
      | inr e ↦ rw (filter_by, e) (kept p bs h.1)
    ]

-- A bearer that is not revoked, of this token id.
abbrev pub IsLiveOf : Bytes → BearerRow → Type 0
IsLiveOf t b = (b.token_id ≡ t) × (b.revoked ≡ false)

self_any :
    (bs : List BearerRow) → AllOf (λ b. b.revoked ≡ false → AnyOf (IsLiveOf b.token_id) bs) bs
self_any [] = tt
self_any (b ∷ bs) = ((λ r. inl (refl, r)), AllOf-map _ _ bs (λ c f r. inr (f r)) (self_any bs))

module _ (crypto : Crypto) (open_sealed : (dek aad nonce ct_tag : Bytes) → Option Bytes)
    (send : EgressReq → Bytes → Option Bytes) where
  revoke_listed-IsDead :
      (dek t : Bytes) (listed bearers : List BearerRow) (n : ℕ)
      → (IsDead t bearers ⊎ AnyOf (IsLiveOf t) listed)
      → (out : List BearerRow) × (k : ℕ) × (revoke_listed crypto (some dek) listed bearers n
          ≡ some (out, k))
        × IsDead t out
  unfolding revoke_listed reseal_bearer_row
  revoke_listed-IsDead dek t [] bearers n (inl d) = (bearers, n, refl, d)
  revoke_listed-IsDead dek t [] bearers n (inr d) = elim d [ ]
  revoke_listed-IsDead dek t (b ∷ listed) bearers n d = elim (Bool-cases b.revoked) [
    | inl r ↦ rw (r) (revoke_listed-IsDead dek t listed bearers n (skip r d))
    | inr r ↦ rw (r) (revoke_listed-IsDead dek t listed _ (n + 1) (flip _ refl refl d))
  ]
    where
      clash : b.revoked ≡ true → b.revoked ≡ false → ⊥
      clash x y = cc

      skip :
          b.revoked ≡ true
          → (IsDead t bearers ⊎ AnyOf (IsLiveOf t) (b ∷ listed))
          → (IsDead t bearers ⊎ AnyOf (IsLiveOf t) listed)
      skip r (inl x) = inl x
      skip r (inr (inl x)) = absurd (clash r x.1)
      skip r (inr (inr x)) = inr x

      flip :
          (row : BearerRow)
          → row.revoked ≡ true
          → row.token_id ≡ b.token_id
          → (IsDead t bearers ⊎ AnyOf (IsLiveOf t) (b ∷ listed))
          → (IsDead t (save_bearer row bearers) ⊎ AnyOf (IsLiveOf t) listed)
      flip row r e (inl x) = inl (save_bearer-IsDead row t bearers r (inl x))
      flip row r e (inr (inl x)) = inl (save_bearer-IsDead row t bearers r (inr (e ∙ x.0)))
      flip row r e (inr (inr x)) = inr x

  -- A swap whose bearer names a dead token id is refused.
  swap-IsDead :
      (st : EngineState) (t raw bearer : Bytes) (req : EgressReq) (m : Moment)
      → IsDead t st.bearers
      → parse_bearer bearer ≡ some (t, raw)
      → ((relay_swap crypto open_sealed send st bearer req m).0.sent ≡ st.sent)
        × IsRefusal (relay_swap crypto open_sealed send st bearer req m).1
  unfolding Accounted decide_swap verified canon IsDead
  swap-IsDead st t raw bearer req m dead parsed =
      elim (relay_swap-Accounted crypto open_sealed send req m st bearer) [
        | inl refused ↦ refused
        | inr (key, b, _, _) ↦
            let same : b.token_id ≡ t = let e = sym b.parsed ∙ parsed in ground arith in
            let live =
              ((decide-allow_iff b.policy_row.policy (verified b.row) _ _ _ _ _).0
                b.decided.allowed).bearer_live in
            absurd (clash (dead b.row (rw (same) at b.loaded)) live)
      ]
    where
      clash : {x : Bool} → x ≡ true → x ≡ false → ⊥
      clash e f = cc

  -- The swaps that present a bearer of the row's token id are refused, and send no key.
  pub RefusesSwaps : EngineState → BearerRow → Type 0
  RefusesSwaps st b =
      (raw bearer : Bytes) (req : EgressReq) (m : Moment)
      → parse_bearer bearer ≡ some (b.token_id, raw)
      → ((relay_swap crypto open_sealed send st bearer req m).0.sent ≡ st.sent)
        × IsRefusal (relay_swap crypto open_sealed send st bearer req m).1

  -- The relay's revocation succeeds on an unlocked vault whose bearers have distinct token ids, and
  -- from then on every swap that presents a bearer of the relay is refused and sends no key.
  pub relay_revoke-RefusesSwaps :
      (st : EngineState) (relay_id dek : Bytes)
      → st.dek ≡ some dek
      → Distinct (token_ids st.bearers)
      → AllOf
          (λ b.
            (st' : EngineState) × (n : ℕ) × (relay_revoke crypto st relay_id true ≡ (st', some n))
            × RefusesSwaps st' b)
          (list_bearers_for_relay relay_id
            (revoke_policy (load_relay_policy relay_id st.relays) st.relays)
            st.bearers)
  unfolding relay_revoke revoked_relay record_event RefusesSwaps
  relay_revoke-RefusesSwaps st relay_id dek u d =
      let relays = revoke_policy (load_relay_policy relay_id st.relays) st.relays in
      let listed = list_bearers_for_relay relay_id relays st.bearers in
      AllOf-zip _ _ _ listed
        (λ b dead live.
          let (out, k, e, gone) =
            revoke_listed-IsDead dek b.token_id listed st.bearers 0
              (elim dead [ inl x ↦ inl x | inr x ↦ inr (live x) ]) in
          rw (u, e)
            (_, _, refl, λ raw bearer req m p. swap-IsDead _ b.token_id raw bearer req m gone p))
        (listed-all _ relay_id relays st.bearers (revoked-IsDead st.bearers d)) (self_any listed)
