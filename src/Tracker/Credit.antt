-- ===== src/Tracker/Credit.antt =====
-- backend/src/main.rs, `process_confirmations`: what a deposit is credited with.
use shuestand.Prelude.{
  String, ℕ, ◌+◌, ◌≤◌, ◌<◌, ◌≡◌, refl, ◌∙◌, ◌⊎◌, some, List, [], ◌∷◌, Bool, arith, sum_by,
  sum_where, order_by, insert_by, find_row, find_row-update_where, eq_refl,
}
use shuestand.Db.Tables.{Tables, Deposit}
use shuestand.Db.States.Deposit.{partial_payment_received, confirming, minting}
use shuestand.Db.Deposits.{has_id, observe, update_deposit_chain_state}
use shuestand.Db.Addresses.{update_address_observation}
use shuestand.Runtime.{World, call, ◌>>=◌}
use shuestand.Tracker.{
  ObservedTx, seen_key, last_txid, best_confirmations, confirmations_for, is_deep, total_received,
  confirmed_covering_amount, next_state, credit,
}

module _ {ℓ} {A : Type ℓ} (key f : A → ℕ) where
  sum_by-insert_by : (a : A) (xs : List A) → sum_by f (insert_by key a xs) ≡ f a + sum_by f xs
  unfolding insert_by
  sum_by-insert_by a [] = refl
  sum_by-insert_by a (x ∷ xs) = ground (arith, sum_by-insert_by a xs)

  sum_by-order_by : (xs : List A) → sum_by f (order_by key xs) ≡ sum_by f xs
  unfolding order_by
  sum_by-order_by [] = refl
  sum_by-order_by (x ∷ xs) = omega (arith, sum_by-insert_by x (order_by key xs), sum_by-order_by xs)

  sum_where-insert_by :
      (p : A → Bool) (a : A) (xs : List A)
      → sum_where p f (insert_by key a xs) ≡ sum_where p f (a ∷ xs)
  unfolding insert_by sum_where
  sum_where-insert_by p a [] = refl
  sum_where-insert_by p a (x ∷ xs) = ground (arith, sum_where-insert_by p a xs)

  sum_where-order_by :
      (p : A → Bool) (xs : List A) → sum_where p f (order_by key xs) ≡ sum_where p f xs
  unfolding order_by sum_where
  sum_where-order_by p [] = refl
  sum_where-order_by p (x ∷ xs) =
      ground (arith, sum_where-insert_by p x (order_by key xs), sum_where-order_by p xs)

-- Whatever is covered was received.
sum_where-sum_by {ℓ} :
    {A : Type ℓ} (p : A → Bool) (f : A → ℕ) (xs : List A) → sum_where p f xs ≤ sum_by f xs
unfolding sum_where
sum_where-sum_by p f [] = omega arith
sum_where-sum_by p f (x ∷ xs) = ground (arith, sum_where-sum_by p f xs)

module _ (tip : ℕ) (d : Deposit) (txs : List ObservedTx) where
  abbrev received : ℕ
  received = total_received txs

  abbrev covered : ℕ
  covered = confirmed_covering_amount tip d.target_confirmations txs

  -- The three ways an observed deposit ends up.
  abbrev pub Credited : Deposit → Type 0
  Credited after =
      ((after.state ≡ minting) × (d.amount_sats ≤ covered) × (after.amount_sats ≡ covered))
      ⊎ (((after.state ≡ confirming)
            × (covered < d.amount_sats)
            × (d.amount_sats ≤ received)
            × (after.amount_sats ≡ d.amount_sats))
          ⊎ ((after.state ≡ partial_payment_received)
              × (received < d.amount_sats)
              × (after.amount_sats ≡ d.amount_sats)))

  observed-Credited :
      (txid : String) (n now : ℕ)
      → Credited (observe txid received covered n (next_state d.amount_sats received covered) now d)
  unfolding next_state observe total_received confirmed_covering_amount
  observed-Credited txid n now =
      let bound =
        sum_where-sum_by (is_deep tip d.target_confirmations) (λ obs. obs.received_sats) txs in
      ground arith

  -- The row after both statements of the tracker.
  row_after :
      (txid : String) (n now : ℕ) (t : Tables)
      → find_row (has_id d.id) t.deposits ≡ some d
      → (after : Deposit) × (find_row
            (has_id d.id)
            (update_deposit_chain_state d.id txid received covered n
              (next_state d.amount_sats received covered)
              now
              t).1.deposits
          ≡ some after)
        × Credited after
  unfolding update_deposit_chain_state observe
  row_after txid n now t found = (
    observe txid received covered n (next_state d.amount_sats received covered) now d,
    find_row-update_where (has_id d.id) (has_id d.id) _ t.deposits (λ x. refl)
        ∙ rw (found, eq_refl d.id) refl,
    observed-Credited txid n now,
  )

received-order_by :
    (txs : List ObservedTx) → total_received (order_by seen_key txs) ≡ total_received txs
unfolding total_received
received-order_by txs = sum_by-order_by seen_key (λ obs. obs.received_sats) txs

covered-order_by :
    (tip target : ℕ) (txs : List ObservedTx)
    → confirmed_covering_amount tip target (order_by seen_key txs)
      ≡ confirmed_covering_amount tip target txs
unfolding confirmed_covering_amount
covered-order_by tip target txs =
    sum_where-order_by seen_key (λ obs. obs.received_sats) (is_deep tip target) txs

sorted-Credited :
    (tip : ℕ) (d : Deposit) (txs : List ObservedTx) (after : Deposit)
    → Credited tip d (order_by seen_key txs) after
    → Credited tip d txs after
sorted-Credited tip d txs after c =
    rw (received-order_by txs, covered-order_by tip d.target_confirmations txs) at c

-- A deposit that the tracker observed, with the database up, is credited in one of three ways: it is
-- minting, for exactly what is confirmed deep enough, which is no less than it asked for; or it
-- received enough and is confirming; or it received too little and is partly paid. In the last two
-- its amount is as before. The order in which the chain lists the transactions does not matter.
pub credit_exact :
    (tip now : ℕ) (d : Deposit) (obs : ObservedTx) (rest : List ObservedTx) (s : World)
    → s.links ≡ []
    → find_row (has_id d.id) s.tables.deposits ≡ some d
    → (after : Deposit) × (find_row
          (has_id d.id)
          (credit tip now d (obs ∷ rest) s).1.tables.deposits
        ≡ some after)
      × Credited tip d (obs ∷ rest) after
unfolding credit ◌>>=◌ call update_address_observation update_deposit_chain_state
credit_exact tip now d obs rest s links found =
    let valid : List ObservedTx = order_by seen_key (obs ∷ rest) in
    let (after, row, c) =
      row_after tip d valid (last_txid valid)
        (confirmations_for d.amount_sats (total_received valid)
          (confirmed_covering_amount tip d.target_confirmations valid) d.target_confirmations
          (best_confirmations tip valid))
        now s.tables found in
    (after, rw (links, credit) row, sorted-Credited tip d (obs ∷ rest) after c)
