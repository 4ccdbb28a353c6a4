-- ===== src/Recovery.antt =====
-- backend/src/bin/m5_recover.rs: the tool that moves what is left at a foreign mint to the canonical
-- one. The two wallets and the mints are parameters, each answer a function of the calls so far.
pub mod States
pub mod Budget
pub mod Loss
use shuestand.Prelude.{
  String, ℕ, zero, suc, ◌+◌, ◌-◌, ◌*◌, ◌/◌, ◌^◌, ◌≤◌, Option, none, some, List, [], ◌∷◌, Bool, true,
  false, not, ◌&&◌, ◌||◌, ◌==◌, ltb, leb, str_eq, if◌then◌else◌, unwrap_or,
}
use shuestand.Failure.{Failure, Checked, pass, fail, refuse_if, external, ensure_failed}
use shuestand.Failure
use shuestand.Run.{Run, pure, raise, lift, checked_or, ◌>>=◌, ◌>>◌}
use shuestand.Wallet.Mints.{Proof, MintQuote, MeltQuote, MeltQuoteState, MintQuoteState}
use shuestand.Recovery.States.{Reported, StateEntry, states, all_unspent, verify_state_response}

-- A melt that was confirmed: its state, and the change that came back.
pub record Finalized : Type 0 where
  pub state : MeltQuoteState
  pub change : Option (List Proof)

pub record Venues : Type 0 where
  pub total_amount : List Proof → Option ℕ
  pub proofs_ys : List Proof → Option (List String)
  pub checkstate : ℕ → List String → Option (List Reported)
  pub canonical_checkstate : ℕ → List String → Option (List Reported)
  pub get_proofs_fee : ℕ → List Proof → Option ℕ
  pub mint_quote : ℕ → ℕ → Option MintQuote
  pub melt_quote : ℕ → String → Option MeltQuote
  pub prepare_melt_proofs : ℕ → String → List Proof → Option (Unit {0})
  pub confirm : ℕ → String → Option Finalized
  pub check_mint_quote_status : ℕ → String → Option MintQuoteState
  pub mint : ℕ → String → Option (List Proof)

-- The calls so far, and the invoices whose melt was confirmed to the mint, newest first.
pub record Journal : Type 0 where
  pub calls : ℕ
  pub paid : List ℕ

abbrev pub Recovering : Type 0 → Type 0
Recovering A = Run Journal A

unfoldable pub consult : {A : Type 0} → (ℕ → Option A) → Recovering A
consult f j = (checked_or (f j.calls) external, record j { calls = suc j.calls })

abbrev pub sent : ℕ → Recovering (Unit {0})
sent target j = (pass tt, record j { paid = target ∷ j.paid })

abbrev pub ensure : Bool → String → Checked (Unit {0})
ensure b text = refuse_if (not b) (ensure_failed text)

-- `checked_add`, `checked_sub`, and `context`.
abbrev pub checked_sum : ℕ → ℕ → Checked ℕ
checked_sum a b = if ltb (a + b) (2 ^ 64) then pass (a + b) else fail (ensure_failed "overflow")

abbrev pub checked_sub : ℕ → ℕ → Option ℕ
checked_sub a b = if ltb a b then none else some (a - b)

abbrev pub positive : Option ℕ → Option ℕ
positive none = none
positive (some a) = if a == 0 then none else some a

abbrev pub less : ℕ → Option ℕ → Option ℕ
less reserve none = none
less reserve (some rest) = positive (checked_sub rest reserve)

unfoldable pub payment_target : ℕ → ℕ → ℕ → Option ℕ
payment_target total input_fee reserve = less reserve (checked_sub total input_fee)

abbrev pub within_budget : ℕ → ℕ → Checked ℕ → Checked (Unit {0})
within_budget initial max_fee (fail e) = fail e
within_budget initial max_fee (pass accounted) =
    ensure (leb accounted initial && leb (initial - accounted) max_fee) "fee/loss budget exceeded"

unfoldable pub enforce_budget : ℕ → ℕ → ℕ → ℕ → Checked (Unit {0})
enforce_budget initial credited remaining max_fee =
    within_budget initial max_fee (checked_sum credited remaining)

-- An invoice that may be paid.
pub record Chosen : Type 0 where
  pub target : ℕ
  pub quote : MintQuote
  pub melt : MeltQuote

-- What the rounds end with.
pub record Outcome : Type 0 where
  pub credited : ℕ
  pub inputs : List Proof

abbrev pub is_issued : MintQuoteState → Bool
is_issued MintQuoteState.unpaid = false
is_issued MintQuoteState.paid = false
is_issued MintQuoteState.issued = true

abbrev pub is_mint_paid : MintQuoteState → Bool
is_mint_paid MintQuoteState.unpaid = false
is_mint_paid MintQuoteState.paid = true
is_mint_paid MintQuoteState.issued = false

abbrev pub is_paid : MeltQuoteState → Bool
is_paid MeltQuoteState.paid = true
is_paid MeltQuoteState.unpaid = false
is_paid MeltQuoteState.pending = false
is_paid MeltQuoteState.unknown = false
is_paid MeltQuoteState.failed = false

module _ (x : Venues) (live max_fee : ℕ) where
  -- The worst case of a quote is bounded before anything is sent.
  abbrev pub choose : ℕ → ℕ → MintQuote → MeltQuote → Recovering (Option Chosen)
  choose credited target quote melt = do
    reached ← lift (checked_sum credited target)
    lift (enforce_budget live reached 0 max_fee)
    pure (some (record { target = target; quote = quote; melt = melt }))

  -- Smaller and smaller invoices, until the reserve fits.
  abbrev pub weigh :
      ℕ
      → ℕ
      → MintQuote
      → MeltQuote
      → (ℕ → Recovering (Option Chosen))
      → Option ℕ
      → Recovering (Option Chosen)
  weigh credited target quote melt rest none = pure none
  weigh credited target quote melt rest (some next) =
      if ltb next target then rest next else choose credited target quote melt

  unfoldable pub find_quote : ℕ → ℕ → ℕ → ℕ → ℕ → Recovering (Option Chosen)
  find_quote zero total input_fee credited target = pure none
  find_quote (suc tries) total input_fee credited target = do
    quote ← consult (λ n. x.mint_quote n target)
    melt ← consult (λ n. x.melt_quote n quote.request)
    weigh credited target quote melt (find_quote tries total input_fee credited)
        (payment_target total input_fee melt.fee_reserve)

  unfoldable pub await_paid : ℕ → String → Recovering (Unit {0})
  await_paid zero id = raise (ensure_failed "canonical quote not paid within 60s")
  await_paid (suc tries) id =
      let rest = await_paid tries id in
      (do
        status ← consult (λ n. x.check_mint_quote_status n id)
        lift (ensure (not (is_issued status)) "canonical quote already issued unexpectedly")
        if is_mint_paid status then pure tt else rest)

  -- The melt and the minting of one round; the answer is the change.
  unfoldable pub pay : ℕ → List Proof → Chosen → Recovering Outcome
  pay credited inputs c = do
    consult (λ n. x.prepare_melt_proofs n c.melt.id inputs)
    sent c.target
    finalized ← consult (λ n. x.confirm n c.melt.id)
    lift (ensure (is_paid finalized.state) "melt not PAID")
    let change = unwrap_or finalized.change []
    remaining ← lift (checked_or (x.total_amount change) external)
    await_paid 30 c.quote.id
    proofs ← consult (λ n. x.mint n c.quote.id)
    amount ← lift (checked_or (x.total_amount proofs) external)
    lift (ensure (amount == c.target) "canonical issued amount mismatch")
    ys ← lift (checked_or (x.proofs_ys proofs) external)
    reply ← consult (λ n. x.canonical_checkstate n ys)
    lift (verify_state_response ys reply "UNSPENT")
    total ← lift (checked_sum credited c.target)
    lift (enforce_budget live total remaining max_fee)
    pure (record { credited = total; inputs = change })

  abbrev pub proceed :
      ℕ → List Proof → (ℕ → List Proof → Recovering Outcome) → Option Chosen → Recovering Outcome
  proceed credited inputs rest none = pure (record { credited = credited; inputs = inputs })
  proceed credited inputs rest (some c) = do o ← pay credited inputs c; rest o.credited o.inputs

  abbrev pub attempt :
      ℕ → List Proof → (ℕ → List Proof → Recovering Outcome) → ℕ → ℕ → Option ℕ → Recovering Outcome
  attempt credited inputs rest total input_fee none =
      pure (record { credited = credited; inputs = inputs })
  attempt credited inputs rest total input_fee (some target) = do
    chosen ← find_quote 16 total input_fee credited target
    proceed credited inputs rest chosen

  unfoldable pub ask_states : List String → Recovering (List StateEntry)
  ask_states ys j = (states (x.checkstate j.calls) ys, record j { calls = suc j.calls })

  unfoldable pub rounds : ℕ → ℕ → List Proof → Recovering Outcome
  rounds zero credited inputs = pure (record { credited = credited; inputs = inputs })
  rounds (suc n) credited [] = pure (record { credited = credited; inputs = [] })
  rounds (suc n) credited (p ∷ ps) = do
    total ← lift (checked_or (x.total_amount (p ∷ ps)) external)
    ys ← lift (checked_or (x.proofs_ys (p ∷ ps)) external)
    found ← ask_states ys
    lift (ensure (all_unspent found) "recovery input no longer unspent")
    input_fee ← consult (λ k. x.get_proofs_fee k (p ∷ ps))
    attempt credited (p ∷ ps) (rounds n) total input_fee (payment_target total input_fee 0)

  -- Of `execute`: the guard on the ceiling, the rounds, and the budget at the end. The comparison with
  -- the plan, the copies of the databases and the clearing of old reservations are left out.
  unfoldable pub move_value : List Proof → Recovering Outcome
  move_value inputs = do
    lift (
        ensure (not (max_fee == 0) && leb max_fee (live / 20))
          "fee ceiling must be positive and at most 5% of live value")
    o ← rounds 8 0 inputs
    remaining ← lift (checked_or (x.total_amount o.inputs) external)
    lift (enforce_budget live o.credited remaining max_fee)
    pure o
