-- ===== src/Http/Deposits/Created.antt =====
-- backend/src/http.rs, `create_deposit`: what an answered request has done, and its row and session.
use shuestand.Prelude.{
  String, ℕ, ◌-◌, ◌≤◌, ◌<◌, ◌≡◌, refl, ap, ◌⊎◌, inl, inr, Option, none, some, List, Bool-cases, [],
  ◌∷◌, ◌++◌, Bool, true, false, ltb, if◌then◌else◌, exists_row,
}
use shuestand.Failure.{pass}
use shuestand.Run.Holds.{Ended, Holds}
use shuestand.Db.States.Deposit.{pending}
use shuestand.Http.Site.{session_id_of}
use shuestand.Db.Tables.{Deposit, Session, Tables, Result, ok, err, unique_violation}
use shuestand.Db.Addresses.{PoolAddress}
use shuestand.Db.Deposits.{insert_deposit, expire_stale_pending_deposits, has_id, inserted}
use shuestand.Db.Settings.{fetch_session_by_token_hash}
use shuestand.Http.{ApiResult, answer, refusal, unauthorized}
use shuestand.Http.Sessions.{resolve_session, admit}
use shuestand.Http.Site.{Site, Settings, statement, is_normal, answered_of}
use shuestand.Http.Deposits.{
  DepositRequest, DepositAnswers, max_deposit_sats, max_global_pending_deposits,
}
use shuestand.Http.Deposits.Guards.{Rows, waiting, Capped, Spare}

-- The tables after the stale deposits expired.
abbrev pub current : Settings → ℕ → Tables → Tables
current settings now t =
    (expire_stale_pending_deposits (now - settings.pending_deposit_ttl) now t).1

-- The session that a request presents.
abbrev pub Resolves : Settings → ℕ → Option (Option String) → Site → Option Session → Type 0
Resolves settings now presented before session =
    (resolve_session settings.session_ttl now presented before.tables).0 ≡ answer session

-- What the pool answered for the deposit, while the deposits were these.
abbrev pub Assigned : DepositAnswers → List Deposit → PoolAddress → Type 0
Assigned x ds address =
    (u : Tables) × (u.deposits ≡ ds) × ((x.assign_address x.fresh_id u).0 ≡ pass address)

-- What a request that was answered has done: the mode allowed it, the amount is within the limits and
-- the cap, the deposits that wait were fewer than the limits, of all and of the session that was
-- presented, and one row was added, of that session and with the address that the pool answered.
pub record Created (settings : Settings) (x : DepositAnswers) (now : ℕ)
    (presented : Option (Option String)) (req : DepositRequest) (before : Site) (d : Deposit)
    (after : Site) : Type 0 where
  pub allowed : is_normal before.operation_mode ≡ true
  pub least : settings.deposit_min_sats ≤ req.amount_sats
  pub most : req.amount_sats ≤ max_deposit_sats
  pub capped : Capped settings x req.amount_sats (current settings now before.tables)
  pub few : waiting (current settings now before.tables) < max_global_pending_deposits
  pub session : Option Session
  pub resolved : Resolves settings now presented before session
  pub spare : Spare settings session (current settings now before.tables)
  pub address : PoolAddress
  pub given : Assigned x (current settings now before.tables).deposits address
  pub id : d.id ≡ x.fresh_id
  pub amount : d.amount_sats ≡ req.amount_sats
  pub state : d.state ≡ pending
  pub received : d.received_sats ≡ 0
  pub owner : d.session_id ≡ session_id_of session
  pub paid_to : d.address ≡ address.address
  pub pickup : d.pickup_token ≡ x.fresh_pickup_token
  pub target : d.target_confirmations ≡ settings.deposit_target_confirmations
  pub made_at : d.created_at ≡ now
  pub added :
      after.tables.deposits ≡ (current settings now before.tables).deposits ++ inserted d ∷ []

-- What a request that was refused leaves: no row is added.
abbrev pub Unchanged : Settings → ℕ → Site → Site → Type 0
Unchanged settings now before after =
    (after.tables.deposits ≡ before.tables.deposits)
    ⊎ (after.tables.deposits ≡ (current settings now before.tables).deposits)

fetched :
    (hash : String) (u v : Tables)
    → u.sessions ≡ v.sessions
    → fetch_session_by_token_hash hash u ≡ fetch_session_by_token_hash hash v
unfolding fetch_session_by_token_hash
fetched hash u v e = ap (λ ss. fetch_session_by_token_hash hash (record v { sessions = ss })) e

-- The session that is resolved depends on the sessions alone.
pub resolved_by :
    (ttl now : ℕ) (presented : Option (Option String)) (u v : Tables)
    → u.sessions ≡ v.sessions
    → (resolve_session ttl now presented u).0 ≡ (resolve_session ttl now presented v).0
unfolding resolve_session admit
resolved_by ttl now none u v e = refl
resolved_by ttl now (some none) u v e = refl
resolved_by ttl now (some (some hash)) u v e =
    rw (fetched hash u v e, resolve_session) (same (fetch_session_by_token_hash hash v))
  where
    same :
        (r : Result Session)
        → (elim r as (λ x. ApiResult (Option Session) × Tables) [
          | err x ↦ (refusal unauthorized, u)
          | ok s ↦ admit ttl now s u
        ]).0
          ≡ (elim r as (λ x. ApiResult (Option Session) × Tables) [
            | err x ↦ (refusal unauthorized, v)
            | ok s ↦ admit ttl now s v
          ]).0
    same (err x) = refl
    same (ok s) = elim (Bool-cases (ltb s.expires_at now)) [
      | inl late ↦ rw late refl
      | inr fine ↦ rw fine refl
    ]

module _ (t : Tables) {E : Site → Type 0} (weak : (s : Site) → Rows t.deposits s.tables → E s)
    (d : Deposit) where
  inserted_end :
      (b : Bool) (s : Site)
      → Rows t.deposits s.tables
      → let r : Result (Unit {0}) × Tables =
          if b
          then (err unique_violation, s.tables)
          else (ok tt, record s.tables { deposits = s.tables.deposits ++ inserted d ∷ [] }) in
        Ended
          (λ a i. Rows (t.deposits ++ inserted d ∷ []) i.tables)
          E
          (answered_of r.0)
          (record s { tables = r.1 })
  inserted_end true s h = weak _ h
  inserted_end false s h = ap (λ ds. ds ++ inserted d ∷ []) h

  pub insert-Holds :
      Holds
        (λ s. Rows t.deposits s.tables)
        (λ a s. Rows (t.deposits ++ inserted d ∷ []) s.tables)
        E
        (statement (insert_deposit d))
  unfolding statement insert_deposit
  insert-Holds = record {
    leads = λ s h. inserted_end (exists_row (has_id d.id) s.tables.deposits) s h;
  }
