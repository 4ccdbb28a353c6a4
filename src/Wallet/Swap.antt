-- ===== src/Wallet/Swap.antt =====
-- backend/src/wallet/swap.rs, `MintSwapService`, and the redeemer of
-- backend/src/workers/withdrawal.rs that uses it: a token of a foreign mint is received, and melted
-- to pay an invoice of the canonical mint.
pub mod Melting
pub mod Receiving
pub mod Safety
use shuestand.Prelude.{
  String, ℕ, zero, suc, ◌+◌, ◌-◌, ◌%◌, ◌^◌, min, max, Option, none, some, List, [], ◌∷◌, Bool, true,
  false, not, ◌==◌, ltb, str_eq, if◌then◌else◌, sum_by,
}
use shuestand.Failure.{
  Checked, pass, fail, refuse_if, external, amount_mismatch, insufficient_melt_balance,
  melt_not_paid, minted_mismatch, zero_value_proofs, never_issued, melt_never_succeeded,
}
use shuestand.Run.{Run, pure, raise, lift, checked_or, ◌>>=◌, ◌>>◌}
use shuestand.Redemption.{validate_conversion_amount}
use shuestand.Runtime.{Redeemed}
use shuestand.Wallet.Mints.{
  Mints, Proof, MintQuote, MeltQuote, Preparation, prepared, insufficient_funds, refused,
  MeltQuoteState, MintQuoteState, Melt, Journal, Swapping, ask, told,
}
use shuestand.Wallet.Proofs.{received_proofs, require_unspent}

-- `u64::saturating_add`.
abbrev pub sat_add : ℕ → ℕ → ℕ
sat_add a b = min (a + b) (2 ^ 64 - 1)

pub record MintSwapOutcome : Type 0 where
  pub original_amount_sats : ℕ
  pub canonical_amount_sats : ℕ

pub record Received : Type 0 where
  pub amount : ℕ
  pub proofs : List Proof

pub record Spendable : Type 0 where
  pub total : ℕ
  pub input_fee : ℕ

-- `DEFAULT_SWAP_MAX_ATTEMPTS`, and the rounds of `0..=MAX_MELT_FEE_REDUCTIONS`.
abbrev pub max_attempts : ℕ
max_attempts = 30

abbrev pub melt_rounds : ℕ
melt_rounds = 33

abbrev pub differs : Option ℕ → ℕ → Bool
differs none original = false
differs (some expected) original = not (expected == original)

abbrev pub needed : ℕ → ℕ → Spendable → ℕ
needed target fee_reserve s = sat_add (sat_add target fee_reserve) s.input_fee

-- The smaller invoice that is tried after a quote whose fee does not fit.
unfoldable pub next_target : ℕ → ℕ → Spendable → ℕ
next_target target fee_reserve s =
    let next = min (s.total - sat_add s.input_fee fee_reserve) target in
    if ltb next target then next else target - max fee_reserve 1

abbrev pub is_issued : MintQuoteState → Bool
is_issued MintQuoteState.unpaid = false
is_issued MintQuoteState.paid = true
is_issued MintQuoteState.issued = true

abbrev pub is_paid : MeltQuoteState → Bool
is_paid MeltQuoteState.paid = true
is_paid MeltQuoteState.unpaid = false
is_paid MeltQuoteState.pending = false
is_paid MeltQuoteState.unknown = false
is_paid MeltQuoteState.failed = false

abbrev pub preparation : Preparation → Checked (Unit {0})
preparation prepared = pass tt
preparation insufficient_funds = fail insufficient_melt_balance
preparation refused = fail external

abbrev pub noted : List Proof → Swapping (Unit {0})
noted proofs j = (pass tt, record j { receipts = proofs ∷ j.receipts })

abbrev pub sent : Melt → Swapping (Unit {0})
sent melt j = (pass tt, record j { melts = melt ∷ j.melts })

module _ (mints : Mints) where
  unfoldable pub receive_foreign_token : String → Swapping Received
  receive_foreign_token token = do
    held ← ask mints.get_proofs
    before ← lift (checked_or (mints.proofs_ys held) external)
    inputs ← ask (λ n. mints.token_proofs n token)
    noted inputs
    received ← ask (λ n. mints.receive_proofs n inputs)
    after ← ask mints.get_unspent_proofs
    proofs ← lift (received_proofs mints before after received)
    pure (record { amount = received; proofs = proofs })

  unfoldable pub spendable_amount_and_fee : List Proof → Swapping Spendable
  spendable_amount_and_fee proofs = do
    states ← ask (λ n. mints.check_proofs_spent n proofs)
    lift (require_unspent mints proofs states)
    total ← lift (checked_or (mints.total_amount proofs) external)
    fee ← ask (λ n. mints.get_proofs_fee n proofs)
    pure (record { total = total; input_fee = fee })

  unfoldable pub confirm_melt_with_quote : MeltQuote → List Proof → Swapping (Unit {0})
  confirm_melt_with_quote quote proofs = do
    states ← ask (λ n. mints.check_proofs_spent n proofs)
    lift (require_unspent mints proofs states)
    preparing ← told (λ n. mints.prepare_melt_proofs n quote.id proofs)
    lift (preparation preparing)
    sent (record { quote = quote; proofs = proofs })
    state ← ask (λ n. mints.confirm n quote.id)
    lift (refuse_if (not (is_paid state)) melt_not_paid)

  -- `iter().map(..).sum()` of a release build.
  abbrev pub minted : String → Swapping ℕ
  minted quote_id = do
    proofs ← ask (λ n. mints.mint n quote_id)
    let amount = sum_by (λ (p : Proof). p.amount) proofs % 2 ^ 64
    lift (refuse_if (amount == 0) zero_value_proofs)
    pure amount

  unfoldable pub mint_canonical_proofs : ℕ → String → Swapping ℕ
  mint_canonical_proofs zero quote_id = raise never_issued
  mint_canonical_proofs (suc attempts) quote_id =
      let rest = mint_canonical_proofs attempts quote_id in
      (do
        status ← ask (λ n. mints.check_mint_quote_status n quote_id)
        if is_issued status then minted quote_id else rest)

  abbrev pub pay : ℕ → ℕ → List Proof → MintQuote → MeltQuote → Swapping MintSwapOutcome
  pay original target proofs quote melt_quote = do
    confirm_melt_with_quote melt_quote proofs
    canonical ← mint_canonical_proofs max_attempts quote.id
    lift (refuse_if (not (canonical == target)) minted_mismatch)
    pure (record { original_amount_sats = original; canonical_amount_sats = canonical })

  -- The loop over smaller and smaller invoices.
  unfoldable pub melt_loop : ℕ → ℕ → List Proof → Spendable → ℕ → Swapping MintSwapOutcome
  melt_loop zero original proofs s target = raise melt_never_succeeded
  melt_loop (suc rounds) original proofs s target = do
    lift (validate_conversion_amount original target)
    quote ← ask (λ n. mints.mint_quote n target)
    melt_quote ← ask (λ n. mints.melt_quote n quote.request)
    let next = next_target target melt_quote.fee_reserve s
    let rest = melt_loop rounds original proofs s next
    if ltb s.total (needed target melt_quote.fee_reserve s)
        then (if next == 0 then raise insufficient_melt_balance else rest)
        else pay original target proofs quote melt_quote

  unfoldable pub swap_to_canonical : String → String → Option ℕ → Swapping MintSwapOutcome
  swap_to_canonical token foreign_mint_url expected = do
    ask (λ n. mints.wallet_for_mint n foreign_mint_url)
    original ← lift (checked_or (mints.token_total_amount token) external)
    lift (refuse_if (differs expected original) amount_mismatch)
    received ← receive_foreign_token token
    lift (validate_conversion_amount original received.amount)
    s ← spendable_amount_and_fee received.proofs
    melt_loop melt_rounds original received.proofs s (min (s.total - s.input_fee) original)

  -- workers/withdrawal.rs.
  unfoldable pub receive_with_all_keysets : String → Swapping ℕ
  receive_with_all_keysets token = do
    inputs ← ask (λ n. mints.token_proofs n token)
    noted inputs
    ask (λ n. mints.receive_proofs n inputs)

  unfoldable pub redeem : String → Swapping Redeemed
  redeem token = do
    mint_url ← lift (checked_or (mints.token_mint_url token) external)
    token_amount ← lift (checked_or (mints.token_total_amount token) external)
    if str_eq mint_url mints.canonical_mint
        then (do
          ask (λ n. mints.wallet_for_mint n mint_url)
          amount ← receive_with_all_keysets token
          pure (record { amount_sats = amount; swap_fee_sats = some (token_amount - amount) }))
        else (do
          outcome ← swap_to_canonical token mint_url (some token_amount)
          let fee = outcome.original_amount_sats - outcome.canonical_amount_sats
          pure (record { amount_sats = outcome.canonical_amount_sats; swap_fee_sats = some fee }))
