-- ===== src/Workers/Withdrawal/Losing.antt =====
-- backend/src/workers/withdrawal.rs, `execute_onchain`: payments whose record may be lost.
use shuestand.Prelude.{
  String, ℕ, ◌≡◌, refl, ◌∙◌, ap, Option, some, List, [], ◌∷◌, true, false, min, select, order_by,
  update_where, select-update_where, order_by-update_where, eq_refl,
}
use shuestand.Failure.{pass}
use shuestand.Redemption.{validate_redemption}
use shuestand.Runtime.{World, up, down, Externals, Payout, lift, call, ◌>>=◌}
use shuestand.Db.Tables.{Withdrawal, Tables}
use shuestand.Db.States.Withdrawal.{queued, settled, one_of}
use shuestand.Db.Withdrawals.{has_id, list_withdrawals_by_state, record_token_consumed}
use shuestand.Workers.Withdrawal.{redeem, redeemed_amount, send_to_address, execute_onchain}

-- What is paid for a withdrawal.
abbrev pub owed_to : Withdrawal → ℕ → ℕ → Payout
owed_to w amount requested = record {
  address = w.delivery_address;
  amount_sats = min amount requested;
}

-- A row whose token was redeemed before for this amount, which the request allows.
pub record Redeemable (w : Withdrawal) (amount requested : ℕ) : Type 0 where
  pub consumed : w.token_consumed ≡ true
  pub worth : w.token_value_sats ≡ some amount
  pub asked : w.requested_amount_sats ≡ some requested
  pub valid : validate_redemption (some requested) amount w.swap_fee_sats ≡ pass tt

-- A pass whose record of the first payment is lost: the token was redeemed in an earlier pass, and
-- the second call of the database fails, or the mint redeems it in this one, and the third does.
pub data Loses (x : Externals) (w : Withdrawal) (amount requested : ℕ) (s : World) : Type 0 where
  redeemed_before :
      w.token_consumed ≡ true
      → w.token_value_sats ≡ some amount
      → validate_redemption (some requested) amount w.swap_fee_sats ≡ pass tt
      → s.links ≡ up ∷ down ∷ []
      → Loses x w amount requested s
  redeemed_now :
      (token : String) (fee : Option ℕ)
      → w.token_consumed ≡ false
      → w.token ≡ some token
      → x.redeem (token ∷ s.redemptions) token
        ≡ some (record { amount_sats = amount; swap_fee_sats = fee })
      → validate_redemption (some requested) amount fee ≡ pass tt
      → s.links ≡ up ∷ up ∷ down ∷ []
      → Loses x w amount requested s

module _ (x : Externals) (now : ℕ) (w : Withdrawal) (amount requested : ℕ)
    (ready : Redeemable w amount requested) (s : World) where
  redeemed-worth : redeemed_amount x now w s ≡ (pass amount, s)
  unfolding redeemed_amount ◌>>=◌
  redeemed-worth = rw (ready.consumed, redeemed_amount, ready.worth, ready.asked, ready.valid, lift)

  pub executes :
      (txid : String)
      → x.send_to_address s.payouts (owed_to w amount requested) ≡ some txid
      → execute_onchain x now w s ≡ (
        pass (record { next_state = settled; token_value_sats = some amount; txid = some txid }),
        record s { payouts = owed_to w amount requested ∷ s.payouts },
      )
  unfolding execute_onchain ◌>>=◌ send_to_address
  executes txid paid = rw (redeemed-worth, execute_onchain, ready.asked, paid, send_to_address) refl

-- The row and the tables once the token is recorded as consumed.
abbrev pub consumed_row : ℕ → ℕ → Option ℕ → Withdrawal → Withdrawal
consumed_row now amount fee w = record w {
  token_consumed = true;
  token_value_sats = some amount;
  swap_fee_sats = fee;
  updated_at = now;
}

abbrev pub consumed_tables : ℕ → ℕ → Option ℕ → String → Tables → Tables
consumed_tables now amount fee id t = record t {
  withdrawals = update_where (has_id id) (consumed_row now amount fee) t.withdrawals;
}

-- The queue is as before, with the first row redeemed.
pub consumed_queue :
    (now amount : ℕ) (fee : Option ℕ) (w : Withdrawal) (others : List Withdrawal) (t : Tables)
    → list_withdrawals_by_state (queued ∷ []) t ≡ w ∷ others
    → list_withdrawals_by_state (queued ∷ []) (consumed_tables now amount fee w.id t)
      ≡ consumed_row now amount fee w
        ∷ update_where (has_id w.id) (consumed_row now amount fee) others
unfolding list_withdrawals_by_state update_where
consumed_queue now amount fee w others t e =
    let p = has_id w.id in
    let f = consumed_row now amount fee in
    ap (λ ws. order_by (λ v. v.created_at) ws)
      (select-update_where p f (λ v. one_of (queued ∷ []) v.state) t.withdrawals (λ v. refl))
    ∙ order_by-update_where p f (λ v. v.created_at)
        (select (λ v. one_of (queued ∷ []) v.state) t.withdrawals) (λ v. refl)
    ∙ ap (λ ws. update_where p f ws) e
    ∙ rw (eq_refl w.id) refl

pub executes_fresh :
    (x : Externals) (now : ℕ) (w : Withdrawal) (amount requested : ℕ) (token : String)
    (fee : Option ℕ) (txid : String) (s : World)
    → w.token_consumed ≡ false
    → w.token ≡ some token
    → w.requested_amount_sats ≡ some requested
    → x.redeem (token ∷ s.redemptions) token
      ≡ some (record { amount_sats = amount; swap_fee_sats = fee })
    → validate_redemption (some requested) amount fee ≡ pass tt
    → s.links ≡ up ∷ down ∷ []
    → x.send_to_address s.payouts (owed_to w amount requested) ≡ some txid
    → execute_onchain x now w s ≡ (
      pass (record { next_state = settled; token_value_sats = some amount; txid = some txid }),
      record s {
        redemptions = token ∷ s.redemptions;
        tables = consumed_tables now amount fee w.id s.tables;
        links = down ∷ [];
        payouts = owed_to w amount requested ∷ s.payouts;
      },
    )
unfolding execute_onchain redeemed_amount redeem ◌>>=◌ send_to_address record_token_consumed call
executes_fresh x now w amount requested token fee txid s unspent holds asked redeemed valid links
      paid =
    rw
      (
        unspent, redeemed_amount, execute_onchain, holds, redeemed, redeem, asked, valid, lift,
        links, paid, send_to_address,
      )
      refl
