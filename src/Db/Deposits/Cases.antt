-- ===== src/Db/Deposits/Cases.antt =====
-- How `claim_deposit_pickup` ends: it refuses and changes nothing, or hands the token out.
use shuestand.Prelude.{
  String, ℕ, ◌≡◌, false, Option, none, some, refl, subst, sym, ap, find_row, update_where,
  exists_row, ◌∷◌, Option-cases, Bool-cases, inl, inr,
}
use mathlib.Core.Path.{subst₂}
use shuestand.Db.Tables.{Tables, Deposit, Result, ok, err, row_not_found}
use shuestand.Db.States.Deposit.{DepositState, ready}
use shuestand.Db.Deposits.{has_id, claimable, claim_for, reveal, claim_row, claim_deposit_pickup}

abbrev pub claimed : String → String → ℕ → Tables → Tables
claimed id minted now t = record t {
  deposit_claims = record { deposit_id = id; minted_token = minted } ∷ t.deposit_claims;
  deposits = update_where (has_id id) (reveal now) t.deposits;
}

-- A claim that is met: what the row and the claims table showed, and what the tables become.
pub record Handed (id token minted : String) (now : ℕ) (t t' : Tables) : Type 0 where
  pub row : Deposit
  pub found : find_row (claimable id token) t.deposits ≡ some row
  pub was_ready : row.state ≡ ready
  pub was_minted : row.minted_token ≡ some minted
  pub unclaimed : exists_row (claim_for id) t.deposit_claims ≡ false
  pub after : t' ≡ claimed id minted now t

-- Every outcome of a claim.
pub data Outcome (id token : String) (now : ℕ) (t : Tables) : Result String × Tables → Type 0 where
  refused : Outcome id token now t (err row_not_found, t)
  handed :
      {minted : String} {t' : Tables}
      → Handed id token minted now t t'
      → Outcome id token now t (ok minted, t')

claim_row-Outcome :
    (id token : String) (now : ℕ) (t : Tables) (d : Deposit) (s : DepositState) (o : Option String)
    → find_row (claimable id token) t.deposits ≡ some d
    → d.state ≡ s
    → d.minted_token ≡ o
    → Outcome id token now t (claim_row id now s o t)
unfolding claim_row
claim_row-Outcome id token now t d s none f e m = refused
claim_row-Outcome id token now t d ready (some minted) f e m =
    elim (Bool-cases (exists_row (claim_for id) t.deposit_claims)) [
      | inl old ↦ rw old refused
      | inr new ↦ rw new (
          handed (record {
            row = d;
            found = f;
            was_ready = e;
            was_minted = m;
            unclaimed = new;
            after = refl;
          }))
    ]
claim_row-Outcome id token now t d _ (some minted) f e m = refused

pub claim-Outcome :
    (id token : String) (now : ℕ) (t : Tables)
    → Outcome id token now t (claim_deposit_pickup id token now t)
unfolding claim_deposit_pickup
claim-Outcome id token now t = elim (Option-cases (find_row (claimable id token) t.deposits)) [
  | inl e ↦ rw (e, claim_deposit_pickup) refused
  | inr (d, e) ↦
      rw (e, claim_deposit_pickup)
        (claim_row-Outcome id token now t d d.state d.minted_token e refl refl)
]

pub claim-Handed :
    (id token minted : String) (now : ℕ) (t t' : Tables)
    → claim_deposit_pickup id token now t ≡ (ok minted, t')
    → Handed id token minted now t t'
claim-Handed id token minted now t t' e = go _ (claim-Outcome id token now t) e
  where
    go :
        (r : Result String × Tables)
        → Outcome id token now t r
        → r ≡ (ok minted, t')
        → Handed id token minted now t t'
    go r refused q = cc
    go r (handed {minted = m} {t' = u} p) q =
        let same_token : m ≡ minted = cc in
        let same_tables : u ≡ t' = ap (λ x. x.1) q in
        subst₂ (λ m u. Handed id token m now t u) same_token same_tables p

pub claim_keeps {ℓ} :
    (P : Tables → Type ℓ) (id token : String) (now : ℕ) (t : Tables)
    → P t
    → ((minted : String) → P (claimed id minted now t))
    → P (claim_deposit_pickup id token now t).1
claim_keeps P id token now t h k =
    go (claim_deposit_pickup id token now t) (claim-Outcome id token now t)
  where
    go : (r : Result String × Tables) → Outcome id token now t r → P r.1
    go r refused = h
    go r (handed {minted = m} p) = subst P (sym p.after) (k m)
