-- ===== src/Db/Deposits.antt =====
-- backend/src/db.rs: the statements on the deposits table. `now` is the clock's answer.
pub mod Cases
use shuestand.Prelude.{
  String, ℕ, ◌+◌, Option, none, some, List, [], ◌∷◌, ◌++◌, Bool, false, ◌&&◌, str_eq, leb, ◌==◌,
  max, if◌then◌else◌, is_none, coalesce, select, find_row, update_where, count_where, sum_where,
  exists_row, order_by,
}
use shuestand.Db.States.Deposit.{
  DepositState, pending, partial_payment_received, confirming, minting, delivering, ready,
  fulfilled, failed, same, one_of,
}
use shuestand.Db.Tables.{Deposit, Tables, Claim, Result, ok, err, row_not_found, unique_violation}
use Prim.Native.String.{◌++◌ as str_append}

abbrev pub has_id : String → Deposit → Bool
has_id id d = str_eq d.id id

abbrev pub session_is : String → Deposit → Bool
session_is s d = elim d.session_id [ none ↦ false | some owner ↦ str_eq owner s ]

-- An UPDATE whose caller reports a missing row.
abbrev pub update_or_missing :
    (Deposit → Bool) → (Deposit → Deposit) → Tables → Result (Unit {0}) × Tables
update_or_missing p f t =
    if count_where p t.deposits == 0
    then (err row_not_found, t)
    else (ok tt, record t { deposits = update_where p f t.deposits })

abbrev pub update_all : (Deposit → Bool) → (Deposit → Deposit) → Tables → Result (Unit {0}) × Tables
update_all p f t = (ok tt, record t { deposits = update_where p f t.deposits })

-- The columns that the INSERT leaves out have their defaults.
unfoldable pub inserted : Deposit → Deposit
inserted deposit = record deposit {
  minted_token = none;
  minted_amount_sats = none;
  token_ready_at = none;
  mint_attempt_count = 0;
  last_mint_attempt_at = none;
  mint_error = none;
  delivery_attempt_count = 0;
  last_delivery_attempt_at = none;
  delivery_error = none;
  transaction_counted_at = none;
}

-- `id` is the primary key.
unfoldable pub insert_deposit : Deposit → Tables → Result (Unit {0}) × Tables
insert_deposit deposit t =
    if exists_row (has_id deposit.id) t.deposits
    then (err unique_violation, t)
    else (ok tt, record t { deposits = t.deposits ++ inserted deposit ∷ [] })

unfoldable pub fetch_deposit : String → Tables → Result Deposit
fetch_deposit id t = elim (find_row (has_id id) t.deposits) [
  | none ↦ err row_not_found
  | some d ↦ ok d
]

-- `Deposit::token`, which `map_deposit` sets from the row.
unfoldable pub token_of : Deposit → Option String
token_of d = if same d.state fulfilled then d.minted_token else none

unfoldable pub list_open_deposits : Tables → List Deposit
list_open_deposits t =
    select (λ d. one_of (pending ∷ partial_payment_received ∷ confirming ∷ []) d.state) t.deposits

unfoldable pub list_deposits_by_state : List DepositState → Tables → List Deposit
list_deposits_by_state states t =
    order_by (λ d. d.created_at) (select (λ d. one_of states d.state) t.deposits)

unfoldable pub count_deposits_for_session_states : String → List DepositState → Tables → ℕ
count_deposits_for_session_states s states t =
    count_where (λ d. session_is s d && one_of states d.state) t.deposits

unfoldable pub count_deposits_by_states : List DepositState → Tables → ℕ
count_deposits_by_states states t = count_where (λ d. one_of states d.state) t.deposits

unfoldable pub reserved_cashu_deposit_sats : Tables → ℕ
reserved_cashu_deposit_sats t =
    sum_where
      (λ d.
        one_of (partial_payment_received ∷ confirming ∷ minting ∷ delivering ∷ ready ∷ []) d.state)
      (λ d. d.amount_sats) t.deposits

-- The SET clause of `update_deposit_chain_state`.
unfoldable pub observe : String → ℕ → ℕ → ℕ → DepositState → ℕ → Deposit → Deposit
observe txid received covering confirmations state now d = record d {
  txid = coalesce d.txid (some txid);
  received_sats = max d.received_sats received;
  amount_sats = if same state minting then max d.amount_sats covering else d.amount_sats;
  confirmations = confirmations;
  state = state;
  last_checked_at = some now;
  updated_at = now;
}

unfoldable pub update_deposit_chain_state :
    String → String → ℕ → ℕ → ℕ → DepositState → ℕ → Tables → Result (Unit {0}) × Tables
update_deposit_chain_state id txid received covering confirmations state now =
    update_all (has_id id) (observe txid received covering confirmations state now)

-- A CASE on `clear` and on the note, for both error columns.
abbrev pub noted : Bool → Option String → Option String → Option String
noted clear note old = if clear then none else coalesce note old

unfoldable pub manual_update_deposit_state :
    String → DepositState → Option String → Bool → ℕ → Tables → Result (Unit {0}) × Tables
manual_update_deposit_state id next note clear now = update_or_missing (has_id id) λ d. record d {
  state = next;
  updated_at = now;
  delivery_error = noted clear note d.delivery_error;
  mint_error = noted clear note d.mint_error;
}

abbrev pub is_stale : ℕ → Deposit → Bool
is_stale cutoff d =
    one_of (pending ∷ partial_payment_received ∷ []) d.state && leb d.created_at cutoff

-- Its result is the number of the rows that expired.
unfoldable pub expire_stale_pending_deposits : ℕ → ℕ → Tables → Result ℕ × Tables
expire_stale_pending_deposits cutoff now t = (
  ok (count_where (is_stale cutoff) t.deposits),
  record t {
    deposits =
        update_where (is_stale cutoff)
          (λ d. record d {
            state = failed;
            updated_at = now;
            mint_error = some "expired_pending_timeout";
            delivery_error = none;
          })
          t.deposits;
  },
)

unfoldable pub record_mint_success :
    String → String → ℕ → DepositState → ℕ → Tables → Result (Unit {0}) × Tables
record_mint_success id token amount next now = update_all (has_id id) λ d. record d {
  state = next;
  minted_token = some token;
  minted_amount_sats = some amount;
  mint_attempt_count = d.mint_attempt_count + 1;
  last_mint_attempt_at = some now;
  mint_error = none;
  updated_at = now;
}

unfoldable pub record_mint_failure :
    String → DepositState → String → ℕ → Tables → Result (Unit {0}) × Tables
record_mint_failure id next error now = update_all (has_id id) λ d. record d {
  state = next;
  mint_attempt_count = d.mint_attempt_count + 1;
  last_mint_attempt_at = some now;
  mint_error = some error;
  updated_at = now;
}

unfoldable pub record_delivery_success :
    String → DepositState → ℕ → Tables → Result (Unit {0}) × Tables
record_delivery_success id next now = update_all (has_id id) λ d. record d {
  state = next;
  token_ready_at = coalesce d.token_ready_at (some now);
  delivery_attempt_count = d.delivery_attempt_count + 1;
  last_delivery_attempt_at = some now;
  delivery_error = none;
  updated_at = now;
}

unfoldable pub record_delivery_failure :
    String → DepositState → String → ℕ → Tables → Result (Unit {0}) × Tables
record_delivery_failure id next error now = update_all (has_id id) λ d. record d {
  state = next;
  delivery_attempt_count = d.delivery_attempt_count + 1;
  last_delivery_attempt_at = some now;
  delivery_error = some error;
  updated_at = now;
}

-- The SET clause that a claim shares with `record_pickup_success`.
unfoldable pub reveal : ℕ → Deposit → Deposit
reveal now d = record d {
  state = fulfilled;
  pickup_revealed_at = some now;
  minted_token = none;
  pickup_token = str_append "claimed-" d.id;
  updated_at = now;
}

unfoldable pub record_pickup_success : String → ℕ → Tables → Result (Unit {0}) × Tables
record_pickup_success id now = update_or_missing (has_id id) (reveal now)

abbrev pub uncounted : String → Deposit → Bool
uncounted id d = has_id id d && is_none d.transaction_counted_at

-- Its result is whether a row was marked by this call.
unfoldable pub mark_deposit_transaction_counted : String → ℕ → Tables → Result Bool × Tables
mark_deposit_transaction_counted id now t = (
  ok (count_where (uncounted id) t.deposits == 1),
  record t {
    deposits =
        update_where (uncounted id) (λ d. record d { transaction_counted_at = some now })
          t.deposits;
  },
)

-- The row that the locking SELECT of a claim finds.
abbrev pub claimable : String → String → Deposit → Bool
claimable id token d = has_id id d && str_eq d.pickup_token token

abbrev pub claim_for : String → Claim → Bool
claim_for id c = str_eq c.deposit_id id

-- The transaction after the SELECT: every refusal rolls back, and reads as a missing row.
unfoldable pub claim_row :
    String → ℕ → DepositState → Option String → Tables → Result String × Tables
claim_row id now state none t = (err row_not_found, t)
claim_row id now state (some minted) t =
    if same state fulfilled
    then (err row_not_found, t)
    else if same state ready
    then (if exists_row (claim_for id) t.deposit_claims then (err row_not_found, t) else (
      ok minted,
      record t {
        deposit_claims = record { deposit_id = id; minted_token = minted } ∷ t.deposit_claims;
        deposits = update_where (has_id id) (reveal now) t.deposits;
      },
    ))
    else (err row_not_found, t)

unfoldable pub claim_deposit_pickup : String → String → ℕ → Tables → Result String × Tables
claim_deposit_pickup id token now t = elim (find_row (claimable id token) t.deposits) [
  | none ↦ (err row_not_found, t)
  | some d ↦ claim_row id now d.state d.minted_token t
]
