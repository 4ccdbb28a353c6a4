-- ===== src/Http/Caps.antt =====
-- backend/src/http.rs, `request_withdrawal`: the cap on one request, and what becomes of a payment
-- request that keeps to it (backend/src/db.rs, `record_payment_request_token_locked`).
use shuestand.Prelude.{
  String, ℕ, ◌+◌, ◌-◌, ◌*◌, ◌/◌, ◌≤◌, ◌<◌, ◌≡◌, refl, some, arith, find_row, sum_where-update_where,
  find_row-sum_where, subst, sym, ap, true, min, ◌↔◌, inl, inr, Bool, false, ◌==◌, ◌||◌, ltb,
  count_where, if◌then◌else◌, Bool-cases, leb, leb→le, leb→gt,
}
use native.Mathlib.Nat.{div-lt_iff_lt-mul, le-div_iff_mul-le}
use shuestand.Db.Tables.{Tables, Withdrawal, Result, ok}
use shuestand.Db.States.Withdrawal.{funding, one_of}
use shuestand.Db.Withdrawals.{
  has_id, is_funding, holds_reserve, reserved_amount, reserved_onchain_withdrawal_sats, u64_max,
  cap_after, record_locked_row, record_payment_request_token_locked, queue_with_token, recorded,
  capacity_exceeded, not_accepting, PaymentRequestRecordOutcome,
}
use shuestand.Db.Withdrawals.Cases.{locked-Recorded, queued_with}

-- `scale` is the product with `single_request_cap_ratio`, rounded down.
unfoldable pub max_request_amount : (ℕ → ℕ) → ℕ → ℕ → ℕ
max_request_amount scale raw_onchain reserved_onchain = scale (raw_onchain - reserved_onchain)

-- The default ratio, 0.5.
abbrev pub half : ℕ → ℕ
half n = n / 2

-- Queueing a funding row keeps what it reserves, and that it reserves.
queue-reserve :
    (id token : String) (now : ℕ) (w : Withdrawal)
    → is_funding id w ≡ true
    → (holds_reserve (queue_with_token token now w) ≡ holds_reserve w)
      × (reserved_amount (queue_with_token token now w) ≡ reserved_amount w)
unfolding queue_with_token one_of
queue-reserve id token now w h = ground arith

queued_with-reserved :
    (id token : String) (now : ℕ) (t : Tables)
    → reserved_onchain_withdrawal_sats (queued_with id token now t)
      ≡ reserved_onchain_withdrawal_sats t
unfolding reserved_onchain_withdrawal_sats
queued_with-reserved id token now t =
    sum_where-update_where holds_reserve (is_funding id) (queue_with_token token now)
      reserved_amount t.withdrawals (queue-reserve id token now)

-- A payment request whose token is recorded moves no reservation, and its amount, beside all that
-- the other withdrawals reserve, is covered by the on-chain balance. The ratio scales no amount up,
-- and the sums stay within u64.
pub locked_solvent :
    (scale : ℕ → ℕ) (id token : String) (amount raw now : ℕ) (t t' : Tables)
    → ((n : ℕ) → scale n ≤ n)
    → 0 < amount
    → reserved_onchain_withdrawal_sats t + amount ≤ u64_max
    → record_payment_request_token_locked scale id token amount raw now t ≡ (ok recorded, t')
    → (w : Withdrawal) × (find_row (has_id id) t.withdrawals ≡ some w)
      × (reserved_onchain_withdrawal_sats t' ≡ reserved_onchain_withdrawal_sats t)
      × (reserved_onchain_withdrawal_sats t - reserved_amount w + amount ≤ raw)
unfolding cap_after
locked_solvent scale id token amount raw now t t' shrinks pos fits e =
    let done = locked-Recorded scale id token amount raw now t t' e in
    (
      done.row,
      done.found,
      subst (λ u. reserved_onchain_withdrawal_sats u ≡ reserved_onchain_withdrawal_sats t)
          (sym done.after) (queued_with-reserved id token now t),
      omega (
        arith,
        done.within_cap,
        shrinks (
            raw
            - min (reserved_onchain_withdrawal_sats t - reserved_amount done.row + amount) u64_max),
      ),
    )

-- A funding withdrawal counts in what is reserved.
found_reserve :
    (id : String) (t : Tables) (w : Withdrawal)
    → find_row (has_id id) t.withdrawals ≡ some w
    → w.state ≡ funding
    → reserved_amount w ≤ reserved_onchain_withdrawal_sats t
unfolding reserved_onchain_withdrawal_sats one_of
found_reserve id t w found state =
    find_row-sum_where (has_id id) holds_reserve reserved_amount t.withdrawals w found
      (ground arith)

-- The ratio p / q.
abbrev pub share : ℕ → ℕ → ℕ → ℕ
share p q n = n * p / q

-- The cap of what is left after `a` is reserved, against the whole.
left_share :
    (p q a free : ℕ) → 0 < q → 0 < a → (share p q (free - a) < a) ↔ (p * free < (p + q) * a)
left_share p q a free pos some_a =
    let (to, back) = div-lt_iff_lt-mul {k = q} {x = (free - a) * p} {y = a} pos in
    elim (Bool-cases (leb a free)) [
      | inl e ↦ let le = leb→le a free e in (λ h. grind (arith, to h), λ h. back (grind arith))
      | inr e ↦ let gt = leb→gt a free e in (λ h. grind arith, λ h. back (grind arith))
    ]

-- The cap at payment, against what was free without the request's own reservation.
own_cap :
    (scale : ℕ → ℕ) (id : String) (amount raw : ℕ) (t : Tables) (w : Withdrawal)
    → find_row (has_id id) t.withdrawals ≡ some w
    → w.state ≡ funding
    → reserved_amount w ≡ amount
    → reserved_onchain_withdrawal_sats t ≤ u64_max
    → cap_after scale (reserved_onchain_withdrawal_sats t) (reserved_amount w) amount raw
      ≡ scale (raw - (reserved_onchain_withdrawal_sats t - amount) - amount)
unfolding cap_after
own_cap scale id amount raw t w found state own fits =
    let held = found_reserve id t w found state in ap scale (omega arith)

-- The decision at payment.
refused_iff :
    (scale : ℕ → ℕ) (id token : String) (amount raw now : ℕ) (t : Tables) (w : Withdrawal)
    → find_row (has_id id) t.withdrawals ≡ some w
    → w.state ≡ funding
    → 0 < amount
    → (record_payment_request_token_locked scale id token amount raw now t
        ≡ (ok capacity_exceeded, t))
      ↔ (cap_after scale (reserved_onchain_withdrawal_sats t) (reserved_amount w) amount raw
          < amount)
unfolding record_payment_request_token_locked record_locked_row
refused_iff scale id token amount raw now t w found state pos =
    let cap = cap_after scale (reserved_onchain_withdrawal_sats t) (reserved_amount w) amount raw in
    rw (found, record_payment_request_token_locked, state)
      (decided _ (cap == 0 || ltb cap amount) (count_where (is_funding id) t.withdrawals == 0)
        (λ e. ground arith, λ e. ground arith))
  where
    decided :
        {P : Type 0} (u : Tables) (b c : Bool)
        → ((b ≡ true) ↔ P)
        → (◌≡◌ {A = Result PaymentRequestRecordOutcome × Tables}
            (if b
              then (ok capacity_exceeded, t)
              else if c
              then (ok not_accepting, t)
              else (ok recorded, u))
            (ok capacity_exceeded, t))
          ↔ P
    decided u true c h = (λ e. h.0 refl, λ k. refl)
    decided u false true h = (λ e. absurd (cc (ap (λ r. r.0) e)), λ k. absurd (cc (h.1 k)))
    decided u false false h = (λ e. absurd (cc (ap (λ r. r.0) e)), λ k. absurd (cc (h.1 k)))

-- A request for an amount is admitted exactly when the amount is at most p / q of what is free, where
-- p / q is the ratio of the cap; the payment of that amount, although nothing else changed, is refused
-- exactly when the amount is more than p / (p + q) of it, since the cap at payment is taken of what
-- is left after the request's own reservation.
pub admitted_then_refused :
    (p q : ℕ) (id token : String) (amount raw now : ℕ) (t : Tables) (w : Withdrawal)
    → 0 < q
    → 0 < amount
    → find_row (has_id id) t.withdrawals ≡ some w
    → w.state ≡ funding
    → reserved_amount w ≡ amount
    → reserved_onchain_withdrawal_sats t ≤ u64_max
    → let others = reserved_onchain_withdrawal_sats t - amount in
      ((amount ≤ max_request_amount (share p q) raw others) ↔ (q * amount ≤ p * (raw - others)))
      × ((record_payment_request_token_locked (share p q) id token amount raw now t
            ≡ (ok capacity_exceeded, t))
          ↔ (p * (raw - others) < (p + q) * amount))
unfolding max_request_amount
admitted_then_refused p q id token amount raw now t w pos some_a found state own fits =
    let others = reserved_onchain_withdrawal_sats t - amount in
    let (to, back) = le-div_iff_mul-le {k = q} {x = amount} {y = (raw - others) * p} pos in
    let (refused, admits) =
      refused_iff (share p q) id token amount raw now t w found state some_a in
    let same = own_cap (share p q) id amount raw t w found state own fits in
    let (more, less) = left_share p q amount (raw - others) pos some_a in
    (
      (λ h. grind (arith, to h), λ h. back (grind arith)),
      (λ e. more (rw same at (refused e)), λ h. admits (rw same (less h))),
    )
