-- ===== src/Redemption.antt =====
-- backend/src/wallet/swap.rs, `validate_conversion_amount`, and
-- backend/src/workers/withdrawal.rs, `validate_redemption`: how much a redemption may lose.
use shuestand.Prelude.{
  ℕ, ◌+◌, ◌-◌, ◌/◌, ◌≤◌, ◌<◌, ◌≡◌, ◌↔◌, ◌⊎◌, Option, none, some, Bool, false, ◌||◌, not, ltb, ◌==◌,
  if◌then◌else◌, arith,
}
use shuestand.Failure.{
  Checked, pass, fail, ◌>>◌, refuse_if, excessive_loss, missing_requested_amount, zero_value,
  unaccounted_shortfall,
}

unfoldable pub validate_conversion_amount : ℕ → ℕ → Checked (Unit {0})
validate_conversion_amount original converted =
    refuse_if
      (original == 0
        || converted == 0
        || ltb original converted
        || ltb (original / 20) (original - converted))
      excessive_loss

-- `swap_fee != Some(shortfall)`.
abbrev pub accounts_for : ℕ → Option ℕ → Bool
accounts_for shortfall none = false
accounts_for shortfall (some fee) = fee == shortfall

unfoldable pub validate_redemption : Option ℕ → ℕ → Option ℕ → Checked (Unit {0})
unfolding validate_conversion_amount
validate_redemption none redeemed swap_fee = fail missing_requested_amount
validate_redemption (some requested) redeemed swap_fee = do
  refuse_if (redeemed == 0 || requested == 0) zero_value
  if ltb redeemed requested
      then (do
        validate_conversion_amount requested redeemed
        refuse_if (not (accounts_for (requested - redeemed) swap_fee)) unaccounted_shortfall)
      else pass tt

-- A conversion passes exactly when something is left of it, it does not grow, and it loses at most
-- a twentieth of the amount, rounded down.
pub validate_conversion_amount_iff :
    (original converted : ℕ)
    → (validate_conversion_amount original converted ≡ pass tt)
      ↔ ((0 < converted) × (converted ≤ original) × (original ≤ converted + original / 20))
unfolding validate_conversion_amount
validate_conversion_amount_iff original converted = ground arith

-- What a redemption may come to: the whole request, or a shortfall of at most a twentieth of it that
-- the recorded fee accounts for to the satoshi.
abbrev pub Sound : ℕ → ℕ → Option ℕ → Type 0
Sound requested redeemed swap_fee =
    (0 < requested)
    × (0 < redeemed)
    × ((requested ≤ redeemed)
        ⊎ ((redeemed < requested)
            × (requested ≤ redeemed + requested / 20)
            × (swap_fee ≡ some (requested - redeemed))))

-- The redemption of a request passes exactly when it comes to a sound amount.
pub validate_redemption_iff :
    (requested redeemed : ℕ) (swap_fee : Option ℕ)
    → (validate_redemption (some requested) redeemed swap_fee ≡ pass tt)
      ↔ Sound requested redeemed swap_fee
unfolding validate_redemption
validate_redemption_iff requested redeemed swap_fee = ground arith
