-- ===== src/Failure.antt =====
-- What an `anyhow::Result` of the workers and wallets may fail with, and the calls that fail.
use shuestand.Prelude.{String, Bool, true, false}
use shuestand.Db.Tables.{DbError}

-- backend/src/http.rs: the error answers.
pub data ApiError : Type 0 where
  unauthorized not_found invalid_request server_error : ApiError
  too_many_requests conflict service_unavailable : ApiError

pub data Failure : Type 0 where
  -- wallet/swap.rs, `validate_conversion_amount`, and workers/withdrawal.rs, `validate_redemption`.
  excessive_loss missing_requested_amount zero_value unaccounted_shortfall : Failure
  -- workers/withdrawal.rs, the executors.
  consumed_without_amount missing_token : Failure
  -- wallet/swap.rs, the swap to the canonical mint.
  amount_mismatch unmatched_proofs unsettled_proofs insufficient_melt_balance : Failure
  melt_not_paid minted_mismatch zero_value_proofs never_issued melt_never_succeeded : Failure
  -- bin/m5_recover.rs, an `ensure!` or `bail!` with its text.
  ensure_failed : String → Failure
  -- A call of a wallet, a mint or the chain that failed.
  external : Failure
  -- A handler that answers with an error.
  refused_with : ApiError → Failure
  -- A statement that failed, or a call of the database that did.
  database : DbError → Failure

pub data Checked {ℓ} (A : Type ℓ) : Type ℓ where
  pass : A → Checked A
  fail : Failure → Checked A

infixl 5 ◌>>=◌ ◌>>◌
abbrev pub ◌>>=◌ {ℓ κ} : {A : Type ℓ} {B : Type κ} → Checked A → (A → Checked B) → Checked B
pass a >>= f = f a
fail e >>= f = fail e

abbrev pub ◌>>◌ {ℓ} : {B : Type ℓ} → Checked (Unit {0}) → Checked B → Checked B
m >> k = m >>= λ _. k

-- `ensure!`, and the early return of an error under a test.
abbrev pub refuse_if : Bool → Failure → Checked (Unit {0})
refuse_if true e = fail e
refuse_if false e = pass tt
