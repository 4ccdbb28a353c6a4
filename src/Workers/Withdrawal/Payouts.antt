-- ===== src/Workers/Withdrawal/Payouts.antt =====
-- backend/src/workers/withdrawal.rs: what the executors and the worker pay out on chain.
use shuestand.Prelude.{
  String, ℕ, ◌+◌, ◌/◌, ◌≤◌, ◌<◌, ◌≡◌, ◌⊎◌, inl, inr, refl, Option, some, List, ◌∷◌, min, arith, ◌∙◌,
  ap, subst, Option-cases,
}
use shuestand.Failure.{pass}
use shuestand.Redemption.{validate_redemption, validate_redemption_iff, Sound}
use shuestand.Runtime.{World, Externals, Payout, call, pure, continue, ◌>>=◌}
use shuestand.Runtime.Laws.{call-SameEffects}
use shuestand.Runtime.Meets.{
  Meets, Meets-pure, Meets-lift, Meets-or_raise, Meets-if, Meets-bind, bind-leads, Any,
}
use shuestand.Db.Tables.{Withdrawal, Tables, Result}
use shuestand.Workers.Withdrawal.{
  WithdrawalOutcome, redeem, redeemed_amount, send_to_address, execute_onchain,
}

-- The payments so far are these.
abbrev pub Paid : List Payout → World → Type 0
Paid ps s = s.payouts ≡ ps

module _ (ps : List Payout) where
  pub Meets-call : {A : Type 0} (st : Tables → Result A × Tables) → Meets (Paid ps) Any (call st)
  Meets-call st = record {
    keeps = λ s h. (call-SameEffects st s).payouts ∙ h;
    answers = λ s h a e. tt;
  }

  Meets-redeem : (x : Externals) (token : String) → Meets (Paid ps) Any (redeem x token)
  unfolding redeem
  Meets-redeem x token = record { keeps = λ s h. h; answers = λ s h a e. tt }

  -- An amount that the code took from a redemption it checked.
  abbrev Checks : Withdrawal → ℕ → Type 0
  Checks w amount =
      (fee : Option ℕ) × (validate_redemption w.requested_amount_sats amount fee ≡ pass tt)

  redeemed_amount-Meets :
      (x : Externals) (now : ℕ) (w : Withdrawal)
      → Meets (Paid ps) (Checks w) (redeemed_amount x now w)
  unfolding redeemed_amount
  redeemed_amount-Meets x now w =
      Meets-if w.token_consumed _ _
        (λ _. Meets-bind Any _ _ (Meets-or_raise _ _ (λ a _. tt)) λ amount _.
          Meets-bind (λ _. Checks w amount) _ _ (Meets-lift _ (λ u e. (w.swap_fee_sats, e)))
            λ u c. Meets-pure amount c)
        (λ _. Meets-bind Any _ _ (Meets-or_raise _ _ (λ a _. tt)) λ token _.
          Meets-bind Any _ _ (Meets-redeem x token) λ r _.
            Meets-bind (λ _. Checks w r.amount_sats) _ _
              (Meets-lift _ (λ u e. (r.swap_fee_sats, e)))
              λ u c. Meets-bind Any _ _ (Meets-call _) λ v _. Meets-pure r.amount_sats c)

-- A payment that a withdrawal is owed: to its address, no more than it asked for, and short of that
-- by at most a twentieth.
pub record Owed (w : Withdrawal) (p : Payout) : Type 0 where
  pub requested : ℕ
  pub asked : w.requested_amount_sats ≡ some requested
  pub to_address : p.address ≡ w.delivery_address
  pub positive : 0 < p.amount_sats
  pub at_most : p.amount_sats ≤ requested
  pub at_least : requested ≤ p.amount_sats + requested / 20

-- At most one payment was added, and one that is owed.
abbrev pub PaysOnce : Withdrawal → List Payout → List Payout → Type 0
PaysOnce w before after = (after ≡ before) ⊎ ((p : Payout) × Owed w p × (after ≡ p ∷ before))

-- What the checks allow is owed.
min-Owed :
    (ps : List Payout) (w : Withdrawal) (amount requested : ℕ)
    → Checks ps w amount
    → w.requested_amount_sats ≡ some requested
    → Owed w (record { address = w.delivery_address; amount_sats = min amount requested })
min-Owed ps w amount requested (fee, valid) asked =
    let sound : Sound requested amount fee =
      (validate_redemption_iff requested amount fee).0
        (subst (λ o. validate_redemption o amount fee ≡ pass tt) asked valid) in
    record {
      requested = requested;
      asked = asked;
      to_address = refl;
      positive = omega arith;
      at_most = omega arith;
      at_least = omega arith;
    }

module _ (x : Externals) (now : ℕ) (w : Withdrawal) (ps : List Payout) where
  send_rest-PaysOnce :
      (p : Payout) (f : String → WithdrawalOutcome) (s : World)
      → Owed w p
      → Paid ps s
      → PaysOnce w ps ((send_to_address x p >>= λ txid. pure (f txid)) s).1.payouts
  unfolding ◌>>=◌ send_to_address
  send_rest-PaysOnce p f s owed h = elim (Option-cases (x.send_to_address s.payouts p)) [
    | inl e ↦ rw (e, send_to_address, continue) (inl h)
    | inr (txid, e) ↦ rw (e, send_to_address, continue) (inr (p, owed, ap (λ qs. p ∷ qs) h))
  ]

-- Whatever the mint, the wallet and the database answer, executing a withdrawal on chain makes at
-- most one payment. It goes to the withdrawal's address, pays no more than the requested amount,
-- and falls short of it by at most a twentieth.
pub execute_onchain-PaysOnce :
    (x : Externals) (now : ℕ) (w : Withdrawal) (s : World)
    → PaysOnce w s.payouts (execute_onchain x now w s).1.payouts
unfolding execute_onchain
execute_onchain-PaysOnce x now w s =
    bind-leads {P = Paid s.payouts} (Checks s.payouts w) (λ s'. PaysOnce w s.payouts s'.payouts) _ _
      (redeemed_amount-Meets s.payouts x now w)
      (λ amount c.
        bind-leads {P = Paid s.payouts} (λ r. w.requested_amount_sats ≡ some r)
          (λ s'. PaysOnce w s.payouts s'.payouts) _ _ (Meets-or_raise _ _ (λ r e. e))
          (λ requested e s' h.
            send_rest-PaysOnce x now w s.payouts _ _ s' (min-Owed s.payouts w amount requested c e)
              h)
          (λ s' h. inl h))
      (λ s' h. inl h) s refl
