-- ===== src/Tests/Pickup.antt =====
-- The pickup of ecash at a fixed input.
use shuestand.Prelude.{◌≡◌, refl, some, true, [], ◌∷◌, find_row, exists_row}
use shuestand.Failure.{fail, refused_with, server_error}
use shuestand.Runtime.{World, reply_lost}
use shuestand.Db.Tables.{err, row_not_found}
use shuestand.Db.States.Deposit.{ready}
use shuestand.Db.Deposits.{claim_deposit_pickup}
use shuestand.Db.Statements.{run}
use shuestand.Http.Pickup.{pickup_deposit, lost_pickup_forfeits}
use shuestand.Tests.Data.{some_deposit, tables_of, world_of}

abbrev waiting : World
waiting = world_of (tables_of (some_deposit ready (some "cashuB") ∷ []) []) (reply_lost ∷ [])

lost_pickup_forfeits_example :
    let r = pickup_deposit (λ v. v) true 200 "dep_1" "pc_1" waiting in
    (r.0 ≡ fail (refused_with server_error))
    × (claim_deposit_pickup "dep_1" "claimed-dep_1" 300 (run [] r.1.tables)
        ≡ (err row_not_found, run [] r.1.tables))
unfolding find_row exists_row
lost_pickup_forfeits_example =
    lost_pickup_forfeits (λ v. v) true 200 "dep_1" "pc_1" "cashuB" [] waiting refl
      (some_deposit ready (some "cashuB"), refl, refl, refl, refl) refl [] "claimed-dep_1" 300
