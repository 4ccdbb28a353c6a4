-- ===== src/Workers/Withdrawal/Repeat.antt =====
-- backend/src/workers/withdrawal.rs, `tick`: passes over a queue, of whose first row the record of the
-- payment is lost.
use shuestand.Workers.Withdrawal.Losing.{
  owed_to, Redeemable, Loses, redeemed_before, redeemed_now, executes, consumed_row,
  consumed_tables, consumed_queue, executes_fresh,
}
use shuestand.Prelude.{
  String, ℕ, ◌≡◌, refl, ◌∙◌, ap, Option, some, List, [], ◌∷◌, ◌++◌, Bool, false,
}
use shuestand.Failure.{Checked, pass, fail, database}
use shuestand.Redemption.{validate_redemption}
use shuestand.Runtime.{World, up, down, Externals, Payout, call, query, continue, ◌>>=◌}
use shuestand.Db.Tables.{Withdrawal, unavailable}
use shuestand.Db.States.Withdrawal.{queued}
use shuestand.Db.Withdrawals.{list_withdrawals_by_state}
use shuestand.Workers.Withdrawal.Tick.{PaysEach-grows, process_all-PaysEach, Meets-finish}
use shuestand.Workers.Withdrawal.{execute_onchain, finish, process, process_all, tick_queued}

-- A pass that begins by paying the first row has paid it, whatever comes after.
module _ (x : Externals) (notifies : Bool) (max_attempts now : ℕ) (w : Withdrawal)
    (amount requested : ℕ) (others : List Withdrawal) where
  rest_grows :
      (m : Checked (Unit {0}) × World) (ps : List Payout)
      → m.1.payouts ≡ ps
      → (more : List Payout) × ((continue
            (λ _. process_all x (execute_onchain x now) notifies max_attempts now others)
            m.0
            m.1).1.payouts
          ≡ more ++ ps)
  rest_grows (fail e, s) ps h = ([], h)
  rest_grows (pass u, s) ps h =
      let (more, e) =
        PaysEach-grows others s.payouts _
          (process_all-PaysEach x notifies max_attempts now others s) in
      (more, e ∙ ap (λ y. more ++ y) h)

  tick_pays :
      (txid : String) (s : World)
      → Redeemable w amount requested
      → list_withdrawals_by_state (queued ∷ []) s.tables ≡ w ∷ others
      → s.links ≡ []
      → x.send_to_address s.payouts (owed_to w amount requested) ≡ some txid
      → (more : List Payout) × ((tick_queued x
            (execute_onchain x now)
            notifies
            max_attempts
            now
            s).1.payouts
          ≡ more ++ owed_to w amount requested ∷ s.payouts)
  unfolding tick_queued ◌>>=◌ query call process_all process
  tick_pays txid s ready rows links paid =
      let p = owed_to w amount requested in
      let ended = executes x now w amount requested ready (record s { links = [] }) txid paid in
      rw (links, tick_queued, rows, ended)
        (rest_grows _ (p ∷ s.payouts)
          ((Meets-finish (p ∷ s.payouts) x notifies max_attempts now w _).keeps _ refl))

  tick_loses_old :
      (txid : String) (s : World)
      → Redeemable w amount requested
      → list_withdrawals_by_state (queued ∷ []) s.tables ≡ w ∷ others
      → s.links ≡ up ∷ down ∷ []
      → x.send_to_address s.payouts (owed_to w amount requested) ≡ some txid
      → tick_queued x (execute_onchain x now) notifies max_attempts now s ≡ (
        fail (database unavailable),
        record s { payouts = owed_to w amount requested ∷ s.payouts; links = [] },
      )
  unfolding tick_queued ◌>>=◌ query call process_all process finish
  tick_loses_old txid s ready rows links paid = rw (
    links,
    tick_queued,
    rows,
    executes x now w amount requested ready (record s { links = down ∷ [] }) txid paid,
  )

  tick_loses_fresh :
      (token : String) (fee : Option ℕ) (txid : String) (s : World)
      → w.token_consumed ≡ false
      → w.token ≡ some token
      → w.requested_amount_sats ≡ some requested
      → x.redeem (token ∷ s.redemptions) token
        ≡ some (record { amount_sats = amount; swap_fee_sats = fee })
      → validate_redemption (some requested) amount fee ≡ pass tt
      → list_withdrawals_by_state (queued ∷ []) s.tables ≡ w ∷ others
      → s.links ≡ up ∷ up ∷ down ∷ []
      → x.send_to_address s.payouts (owed_to w amount requested) ≡ some txid
      → tick_queued x (execute_onchain x now) notifies max_attempts now s ≡ (
        fail (database unavailable),
        record s {
          redemptions = token ∷ s.redemptions;
          tables = consumed_tables now amount fee w.id s.tables;
          payouts = owed_to w amount requested ∷ s.payouts;
          links = [];
        },
      )
  unfolding tick_queued ◌>>=◌ query call process_all process finish
  tick_loses_fresh token fee txid s unspent holds asked redeemed valid rows links paid = rw (
    links,
    tick_queued,
    rows,
    executes_fresh x now w amount requested token fee txid (record s { links = up ∷ down ∷ [] })
        unspent holds asked redeemed valid refl paid,
  )

-- A pass that pays the first withdrawal of the queue and loses the record of it, since the call of
-- the database that makes it fails, is followed by a pass that pays the withdrawal again, if the
-- database is up and the wallet answers then: whether the token was redeemed before the first of the
-- two or in it, and whatever else is queued.
pub lost_record_pays_twice :
    (x : Externals) (notifies : Bool) (max_attempts now later : ℕ) (w : Withdrawal)
    (others : List Withdrawal) (amount requested : ℕ) (txid txid' : String) (s : World)
    → list_withdrawals_by_state (queued ∷ []) s.tables ≡ w ∷ others
    → w.requested_amount_sats ≡ some requested
    → Loses x w amount requested s
    → x.send_to_address s.payouts (owed_to w amount requested) ≡ some txid
    → x.send_to_address (owed_to w amount requested ∷ s.payouts) (owed_to w amount requested)
      ≡ some txid'
    → (more : List Payout) × ((tick_queued x
          (execute_onchain x later)
          notifies
          max_attempts
          later
          (tick_queued x (execute_onchain x now) notifies max_attempts now s).1).1.payouts
        ≡ more ++ owed_to w amount requested ∷ owed_to w amount requested ∷ s.payouts)
lost_record_pays_twice x notifies max_attempts now later w others amount requested txid txid' s rows
      asked (redeemed_before consumed worth valid links) paid again =
    let ready : Redeemable w amount requested = record {
      consumed = consumed;
      worth = worth;
      asked = asked;
      valid = valid;
    } in
    rw
      (tick_loses_old x notifies max_attempts now w amount requested others txid s ready rows links
        paid)
      (tick_pays x notifies max_attempts later w amount requested others txid' _ ready rows refl
        again)
lost_record_pays_twice x notifies max_attempts now later w others amount requested txid txid' s rows
      asked (redeemed_now token fee unspent holds redeemed valid links) paid again =
    let w' = consumed_row now amount fee w in
    let ready : Redeemable w' amount requested = record {
      consumed = refl;
      worth = refl;
      asked = asked;
      valid = valid;
    } in
    rw
      (tick_loses_fresh x notifies max_attempts now w amount requested others token fee txid s
        unspent holds asked redeemed valid rows links paid)
      (tick_pays x notifies max_attempts later w' amount requested _ txid' _ ready
        (consumed_queue now amount fee w others s.tables rows) refl again)
