-- ===== src/Http/Pickup.antt =====
-- backend/src/http.rs, `pickup_deposit`: the one time that the ecash of a deposit is handed out. The
-- calls of the database may fail, as for the workers. `trim` is the standard library's.
use shuestand.Prelude.{String, ℕ, ◌≡◌, refl, ap, List, [], ◌∷◌, Bool, false, if◌then◌else◌}
use shuestand.Failure.{
  Checked, pass, fail, database, refused_with, invalid_request, conflict, server_error,
}
use shuestand.Runtime.{World, Exec, Link, up, through, reply_lost, pure, raise, ◌>>◌, call}
use shuestand.Db.Tables.{Tables, ok, err, row_not_found, unavailable}
use shuestand.Db.Deposits.{claim_deposit_pickup}
use shuestand.Db.Statements.{Statement, run}
use shuestand.Db.Claims.{Claimable, claim_iff, claim_once}
use shuestand.Http.Site.{is_blank}
use shuestand.Transactions.{deposit_fulfilled, notify}

-- After the claim. The reasons for which there is nothing to hand out are not told apart.
unfoldable pub hand_out : Bool → ℕ → String → Checked String → Exec String
hand_out notifies now id (pass minted) = do notify notifies deposit_fulfilled id now; pure minted
hand_out notifies now id (fail (database row_not_found)) = raise (refused_with conflict)
hand_out notifies now id (fail e) = raise (refused_with server_error)

unfoldable pub pickup_deposit : (String → String) → Bool → ℕ → String → String → Exec String
pickup_deposit trim notifies now id pickup_token w =
    if is_blank trim pickup_token
    then (fail (refused_with invalid_request), w)
    else let (r, w') = call (claim_deposit_pickup id (trim pickup_token) now) w in
      hand_out notifies now id r w'

-- The world after a claim whose reply was lost.
abbrev lost_world : List Link → Tables → World → World
lost_world rest t w = record w { tables = t; links = rest }

lost_claim :
    (id token : String) (now : ℕ) (rest : List Link) (w : World)
    → w.links ≡ reply_lost ∷ rest
    → ◌≡◌ {A = Checked String × World} (call (claim_deposit_pickup id token now) w) (
      fail (database unavailable),
      lost_world rest (claim_deposit_pickup id token now w.tables).1 w,
    )
unfolding call
lost_claim id token now rest w e =
    let st = claim_deposit_pickup id token now in
    ap
      (λ ls. elim ls as (λ _. Checked String × World) [
        | [] ↦ through up [] st w
        | l ∷ later ↦ through l later st w
      ])
      e

pickup_lost :
    (trim : String → String) (notifies : Bool) (now : ℕ) (id token : String) (rest : List Link)
    (w : World)
    → is_blank trim token ≡ false
    → w.links ≡ reply_lost ∷ rest
    → ◌≡◌ {A = Checked String × World} (pickup_deposit trim notifies now id token w) (
      fail (refused_with server_error),
      lost_world rest (claim_deposit_pickup id (trim token) now w.tables).1 w,
    )
unfolding pickup_deposit hand_out raise
pickup_lost trim notifies now id token rest w readable lost =
    rw readable
      (ap (λ r. hand_out notifies now id r.0 r.1) (lost_claim id (trim token) now rest w lost))

-- A pickup of ecash that is ready, whose claim reaches the database and whose reply is lost, answers
-- that the server failed, and no later claim of the deposit is met, whatever statements run before it
-- and whatever pickup token is shown: the ecash is handed out to nobody.
pub lost_pickup_forfeits :
    (trim : String → String) (notifies : Bool) (now : ℕ) (id token minted : String)
    (rest : List Link) (w : World)
    → is_blank trim token ≡ false
    → Claimable id (trim token) minted w.tables
    → w.links ≡ reply_lost ∷ rest
    → (history : List Statement) (token' : String) (later : ℕ)
    → (let r = pickup_deposit trim notifies now id token w in
        let u = run history r.1.tables in
        (r.0 ≡ fail (refused_with server_error))
        × (claim_deposit_pickup id token' later u ≡ (err row_not_found, u)))
lost_pickup_forfeits trim notifies now id token minted rest w readable ready lost history token'
      later =
    let claim = claim_deposit_pickup id (trim token) now w.tables in
    let met : claim.0 ≡ ok minted = (claim_iff id (trim token) minted now w.tables).1 ready in
    let ended = pickup_lost trim notifies now id token rest w readable lost in
    rw ended (
      refl,
      claim_once id (trim token) minted now w.tables claim.1 (ap (λ a. (a, claim.1)) met) history
          token' later,
    )
