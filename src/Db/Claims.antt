-- ===== src/Db/Claims.antt =====
-- backend/src/db.rs, `claim_deposit_pickup`: when it hands out ecash, over histories of statements.
use shuestand.Prelude.{
  ap, sym, ◌∙◌, inl, inr, Option, none, some, Option-cases, false, find_row, ◌↔◌, String, ℕ, List,
  true, ◌≡◌, refl, subst, arith, exists_row, eq_refl,
}
use shuestand.Db.Tables.{Tables, Deposit, Result, ok, err, row_not_found}
use shuestand.Db.Deposits.{claim_deposit_pickup, claim_row, claimable, claim_for}
use shuestand.Db.States.Deposit.{DepositState, ready}
use shuestand.Db.Deposits.Cases.{Outcome, refused, handed, claim-Outcome, claim-Handed, claim_keeps}
use shuestand.Db.Withdrawals.Cases.{locked_keeps}
use shuestand.Db.Statements.{Statement, apply, run, run-keeps}

abbrev IsClaimed : String → Tables → Type 0
IsClaimed id t = exists_row (claim_for id) t.deposit_claims ≡ true

apply-IsClaimed :
    (id : String) (s : Statement) (t : Tables) → IsClaimed id t → IsClaimed id (apply s t)
unfolding apply exists_row
apply-IsClaimed id (Statement.claim_deposit_pickup other x now) t h =
    claim_keeps (IsClaimed id) other x now t h (λ m. ground arith)
apply-IsClaimed id (Statement.record_payment_request_token_locked scale other x a raw now) t h =
    locked_keeps (IsClaimed id) scale other x a raw now t h h
apply-IsClaimed id _ t h = ground arith

claimed_refuses :
    (id token : String) (now : ℕ) (t : Tables)
    → IsClaimed id t
    → claim_deposit_pickup id token now t ≡ (err row_not_found, t)
claimed_refuses id token now t h = go _ (claim-Outcome id token now t)
  where
    go : (r : Result String × Tables) → Outcome id token now t r → r ≡ (err row_not_found, t)
    go r refused = refl
    go r (handed p) = cc (h, p.unclaimed)

handed-IsClaimed :
    (id token minted : String) (now : ℕ) (t t' : Tables)
    → claim_deposit_pickup id token now t ≡ (ok minted, t')
    → IsClaimed id t'
unfolding exists_row
handed-IsClaimed id token minted now t t' e =
    subst (IsClaimed id) (sym (claim-Handed id token minted now t t' e).after) (rw (eq_refl id))

-- A claim that was met is met once: whatever statements run after it, and whatever pickup token is
-- shown, a claim of the same deposit is refused and changes nothing.
pub claim_once :
    (id token minted : String) (now : ℕ) (t t' : Tables)
    → claim_deposit_pickup id token now t ≡ (ok minted, t')
    → (history : List Statement) (token' : String) (later : ℕ)
    → claim_deposit_pickup id token' later (run history t') ≡ (err row_not_found, run history t')
claim_once id token minted now t t' e history token' later =
    claimed_refuses id token' later (run history t') (
      run-keeps (IsClaimed id) (apply-IsClaimed id) history t'
        (handed-IsClaimed id token minted now t t' e))

-- A deposit that is ready under this pickup token, holds this ecash, and was not claimed.
abbrev pub Claimable : String → String → String → Tables → Type 0
Claimable id token minted t =
    (d : Deposit) × (find_row (claimable id token) t.deposits ≡ some d)
    × (d.state ≡ ready)
    × (d.minted_token ≡ some minted)
    × (exists_row (claim_for id) t.deposit_claims ≡ false)

claim_row-ready :
    (id minted : String) (now : ℕ) (state : DepositState) (token : Option String) (t : Tables)
    → ((claim_row id now state token t).0 ≡ ok minted) ↔ (
        (state ≡ ready)
        × (token ≡ some minted)
        × (exists_row (claim_for id) t.deposit_claims ≡ false))
unfolding claim_row
claim_row-ready id minted now state none t = ground arith
claim_row-ready id minted now state (some m) t = ground arith

-- A claim is met, and answered with the ecash, exactly when the deposit is claimable.
pub claim_iff :
    (id token minted : String) (now : ℕ) (t : Tables)
    → ((claim_deposit_pickup id token now t).0 ≡ ok minted) ↔ Claimable id token minted t
unfolding claim_deposit_pickup
claim_iff id token minted now t = elim (Option-cases (find_row (claimable id token) t.deposits)) [
  | inl gone ↦ (λ e. cc (rw (gone, claim_deposit_pickup) at e), λ c. cc (gone, c.1))
  | inr (d, there) ↦
      let (to, back) = claim_row-ready id minted now d.state d.minted_token t in
      (
        λ e.
            let (state, token', fresh) = to (rw (there, claim_deposit_pickup) at e) in
            (d, there, state, token', fresh),
        λ (d', there', state, token', fresh).
            let same : ◌≡◌ {A = Option Deposit} (some d) (some d') = sym there ∙ there' in
            let one : d ≡ d' = cc in
            rw (there, claim_deposit_pickup)
              (back (ap (λ y. y.state) one ∙ state, ap (λ y. y.minted_token) one ∙ token', fresh)),
      )
]
