-- ===== src/Workers/Deposit.antt =====
-- backend/src/workers/deposit.rs: the deposit worker's tick. Log lines are left out, and with them
-- the delivery hint, which only a log line reads. `now` is the clock's answer, one for each tick.
pub mod Mintings
use shuestand.Prelude.{
  String, ℕ, ◌+◌, ◌%◌, ◌^◌, Option, none, some, List, [], ◌∷◌, Bool, true, false, leb, max,
  if◌then◌else◌,
}
use shuestand.Operations.{OperationMode, halt}
use shuestand.Failure.{Checked, pass, fail, external}
use shuestand.Runtime.{World, Externals, Exec, MintedToken, pure, ◌>>=◌, ◌>>◌, call, query}
use shuestand.Db.Tables.{Deposit}
use shuestand.Db.States.Deposit.{minting, delivering, ready, failed}
use shuestand.Db.Deposits.{
  list_deposits_by_state, record_mint_success, record_mint_failure, record_delivery_success,
  record_delivery_failure,
}

-- `sender.mint_token`, with its call logged.
unfoldable pub mint_token : Externals → ℕ → Exec MintedToken
mint_token x amount w =
    let log : List ℕ = amount ∷ w.mintings in
    (
      elim (x.mint_token log amount) [ none ↦ fail external | some m ↦ pass m ],
      record w { mintings = log },
    )

-- Whether attempt `count + 1`, on u32, is the last of `max_attempts.max(1)`.
abbrev pub is_exhausted : ℕ → ℕ → Bool
is_exhausted max_attempts count = leb (max max_attempts 1) ((count + 1) % 2 ^ 32)

unfoldable pub finish_mint : Externals → ℕ → ℕ → Deposit → Checked MintedToken → Exec (Unit {0})
finish_mint x max_attempts now d (pass m) =
    call (record_mint_success d.id m.token m.amount_sats delivering now)
finish_mint x max_attempts now d (fail e) = call (
    record_mint_failure d.id
      (if is_exhausted max_attempts d.mint_attempt_count then failed else minting) (x.describe e)
      now)

-- One round of the loop over the minting deposits.
unfoldable pub process_minting : Externals → ℕ → ℕ → Deposit → Exec (Unit {0})
unfolding mint_token finish_mint
process_minting x max_attempts now d s =
    let (r, s') = mint_token x d.amount_sats s in finish_mint x max_attempts now d r s'

unfoldable pub process_all_minting : Externals → ℕ → ℕ → List Deposit → Exec (Unit {0})
process_all_minting x max_attempts now [] = pure tt
process_all_minting x max_attempts now (d ∷ ds) =
    process_minting x max_attempts now d >> process_all_minting x max_attempts now ds

-- One round of the loop over the delivering deposits.
unfoldable pub deliver : ℕ → ℕ → Deposit → Option String → Exec (Unit {0})
deliver max_attempts now d none = call (
    record_delivery_failure d.id
      (if is_exhausted max_attempts d.delivery_attempt_count then failed else minting)
      "missing minted token; returning to minting" now)
deliver max_attempts now d (some token) = call (record_delivery_success d.id ready now)

unfoldable pub process_all_delivering : ℕ → ℕ → List Deposit → Exec (Unit {0})
process_all_delivering max_attempts now [] = pure tt
process_all_delivering max_attempts now (d ∷ ds) =
    deliver max_attempts now d d.minted_token >> process_all_delivering max_attempts now ds

unfoldable pub tick : Externals → ℕ → ℕ → Exec (Unit {0})
tick x max_attempts now = do
  rows ← query (list_deposits_by_state (minting ∷ []))
  process_all_minting x max_attempts now rows
  ready_rows ← query (list_deposits_by_state (delivering ∷ []))
  process_all_delivering max_attempts now ready_rows

-- `should_pause`.
abbrev pub is_halted : OperationMode → Bool
is_halted halt = true
is_halted _ = false

-- One round of `run`: a halted worker does nothing, and a tick's error is logged.
unfoldable pub run_once : Externals → ℕ → ℕ → OperationMode → World → World
run_once x max_attempts now mode s = if is_halted mode then s else (tick x max_attempts now s).1
