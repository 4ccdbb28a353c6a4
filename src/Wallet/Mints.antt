-- ===== src/Wallet/Mints.antt =====
-- What backend/src/wallet/swap.rs asks of the wallet library and the mints behind it, which are not
-- under backend/src: every answer is a function of the number of calls so far, so that a mint may
-- answer the same question differently each time. `none` is an error.
use shuestand.Prelude.{String, ℕ, suc, Option, List}
use shuestand.Failure.{Checked, external}
use shuestand.Run.{Run, checked_or}

-- A proof of the wallet library, by the name it has there and its amount.
pub record Proof : Type 0 where
  pub secret : String
  pub amount : ℕ

pub data State : Type 0 where
  spent unspent pending reserved pending_spent : State

pub record ProofState : Type 0 where
  pub y : String
  pub state : State

pub record MintQuote : Type 0 where
  pub id : String
  pub request : String

pub record MeltQuote : Type 0 where
  pub id : String
  pub fee_reserve : ℕ

-- How the preparation of a melt went: the second is an error whose text holds "Insufficient funds".
pub data Preparation : Type 0 where
  prepared insufficient_funds refused : Preparation

pub data MeltQuoteState : Type 0 where
  unpaid paid pending unknown failed : MeltQuoteState

pub data MintQuoteState : Type 0 where
  unpaid paid issued : MintQuoteState

pub record Mints : Type 0 where
  -- The wallet library, without a call of a mint.
  pub canonical_mint : String
  pub token_mint_url : String → Option String
  pub token_total_amount : String → Option ℕ
  pub proof_y : Proof → Option String
  pub proofs_ys : List Proof → Option (List String)
  pub total_amount : List Proof → Option ℕ
  -- The calls.
  pub wallet_for_mint : ℕ → String → Option (Unit {0})
  pub get_proofs : ℕ → Option (List Proof)
  pub token_proofs : ℕ → String → Option (List Proof)
  pub receive_proofs : ℕ → List Proof → Option ℕ
  pub get_unspent_proofs : ℕ → Option (List Proof)
  pub check_proofs_spent : ℕ → List Proof → Option (List ProofState)
  pub get_proofs_fee : ℕ → List Proof → Option ℕ
  pub mint_quote : ℕ → ℕ → Option MintQuote
  pub melt_quote : ℕ → String → Option MeltQuote
  pub prepare_melt_proofs : ℕ → String → List Proof → Preparation
  pub confirm : ℕ → String → Option MeltQuoteState
  pub check_mint_quote_status : ℕ → String → Option MintQuoteState
  pub mint : ℕ → String → Option (List Proof)

-- A melt that was confirmed to the foreign mint, whatever came of it.
pub record Melt : Type 0 where
  pub quote : MeltQuote
  pub proofs : List Proof

-- The calls so far, the lists of proofs handed in to be received, and the melts; newest first.
pub record Journal : Type 0 where
  pub calls : ℕ
  pub receipts : List (List Proof)
  pub melts : List Melt

abbrev pub Swapping : Type 0 → Type 0
Swapping A = Run Journal A

-- One call.
unfoldable pub ask : {A : Type 0} → (ℕ → Option A) → Swapping A
ask f j = (checked_or (f j.calls) external, record j { calls = suc j.calls })

abbrev pub told : {A : Type 0} → (ℕ → A) → Swapping A
told f j = (Checked.pass (f j.calls), record j { calls = suc j.calls })
