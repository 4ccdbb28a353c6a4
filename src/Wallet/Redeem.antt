-- ===== src/Wallet/Redeem.antt =====
-- backend/src/workers/withdrawal.rs, `CdkCashuRedeemer`, before the check of the same file on what a
-- redemption comes to.
use shuestand.Prelude.{
  String, ℕ, ◌+◌, ◌-◌, ◌≤◌, ◌<◌, ◌/◌, ◌≡◌, ◌≢◌, refl, ap, arith, ◌⊎◌, inl, inr, some, List, true,
  false, str_eq,
}
use shuestand.Failure.{pass}
use shuestand.Run.Holds.{
  Holds-if, Holds-passed, checked_or_passed, Answers, Answers-of, Answers-lift, Answers-pure,
  Answers-bind,
}
use shuestand.Runtime.{Redeemed}
use shuestand.Redemption.{validate_redemption, validate_redemption_iff, Sound}
use shuestand.Wallet.Mints.{Mints, Journal, Melt}
use shuestand.Wallet.Swap.{MintSwapOutcome, swap_to_canonical, redeem}
use shuestand.Wallet.Swap.Safety.{swap_success, Swapped}

-- The amount redeemed and the fee add up to the token, and a token of a foreign mint loses at most a
-- twentieth.
abbrev pub Accounted : Mints → String → Redeemed → Type 0
Accounted mints token r =
    (url : String) × (worth : ℕ) × (mints.token_mint_url token ≡ some url)
    × (mints.token_total_amount token ≡ some worth)
    × (r.swap_fee_sats ≡ some (worth - r.amount_sats))
    × ((str_eq url mints.canonical_mint ≡ true)
        ⊎ ((0 < r.amount_sats) × (r.amount_sats ≤ worth) × (worth ≤ r.amount_sats + worth / 20)))

abbrev Anything : {A : Type 0} → A → Type 0
Anything a = Unit {0}

module _ (mints : Mints) (token url : String) (worth : ℕ)
    (from : mints.token_mint_url token ≡ some url)
    (value : mints.token_total_amount token ≡ some worth) where
  swap-Answers :
      Answers
        (λ (o : MintSwapOutcome).
          (o.original_amount_sats ≡ worth)
          × (0 < o.canonical_amount_sats)
          × (o.canonical_amount_sats ≤ worth)
          × (worth ≤ o.canonical_amount_sats + worth / 20))
        (swap_to_canonical mints token url (some worth))
  swap-Answers = Answers-of _ (λ j o e.
      of_swap o (swap_to_canonical mints token url (some worth) j).1 j.melts
        (swap_success mints token url (some worth) j o e))
    where
      of_swap :
          (o : MintSwapOutcome) (j : Journal) (ms : List Melt)
          → Swapped mints token ms o j
          → (o.original_amount_sats ≡ worth)
            × (0 < o.canonical_amount_sats)
            × (o.canonical_amount_sats ≤ worth)
            × (worth ≤ o.canonical_amount_sats + worth / 20)
      of_swap o j ms (w, (r, from, s, valued, (quote, e, h0, h1, h2, covered, quoted))) =
          ground arith

foreign-Accounted :
    (mints : Mints) (token url : String) (worth : ℕ) (o : MintSwapOutcome)
    → mints.token_mint_url token ≡ some url
    → mints.token_total_amount token ≡ some worth
    → (o.original_amount_sats ≡ worth)
      × (0 < o.canonical_amount_sats)
      × (o.canonical_amount_sats ≤ worth)
      × (worth ≤ o.canonical_amount_sats + worth / 20)
    → Accounted mints token (record {
      amount_sats = o.canonical_amount_sats;
      swap_fee_sats = some (o.original_amount_sats - o.canonical_amount_sats);
    })
foreign-Accounted mints token url worth o from value (e, h0, h1, h2) =
    (url, worth, from, value, ap (λ n. some (n - o.canonical_amount_sats)) e, inr (h0, h1, h2))

pub redeem-Answers :
    (mints : Mints) (token : String) → Answers (Accounted mints token) (redeem mints token)
unfolding redeem
redeem-Answers mints token =
    Answers-bind (λ url. mints.token_mint_url token ≡ some url) _ _
      (Answers-lift _ (λ url e. checked_or_passed _ _ url e))
      (λ url from.
        Answers-bind (λ worth. mints.token_total_amount token ≡ some worth) _ _
          (Answers-lift _ (λ worth e. checked_or_passed _ _ worth e))
          (λ worth value.
            Holds-if _ _ _
              (λ own. Answers-bind Anything _ _ (Answers-of _ (λ s a e. tt)) (λ u x.
                Answers-bind Anything _ _ (Answers-of _ (λ s a e. tt))
                  (λ amount y. Answers-pure _ (url, worth, from, value, refl, inl own))))
              (λ foreign.
                Answers-bind _ _ _ (swap-Answers mints token url worth from value) (λ o h.
                  Answers-pure _ (foreign-Accounted mints token url worth o from value h)))))

-- What is redeemed of a token and the fee that is reported with it add up to the token: the fee is
-- the token's amount less what was redeemed, and a token of a foreign mint loses at most a twentieth.
pub redeem_accounts :
    (mints : Mints) (token : String) (j : Journal) (r : Redeemed)
    → (redeem mints token j).0 ≡ pass r
    → Accounted mints token r
redeem_accounts mints token j r e = Holds-passed _ (redeem-Answers mints token) j tt r e

module _ (mints : Mints) (token : String) (j : Journal) (r : Redeemed)
    (done : (redeem mints token j).0 ≡ pass r) where
  -- The redemption of a foreign token that is worth what was requested passes the check on what a
  -- redemption may come to, whatever the mints took of it.
  pub redeem_exact :
      (requested : ℕ) (url : String)
      → mints.token_mint_url token ≡ some url
      → str_eq url mints.canonical_mint ≡ false
      → mints.token_total_amount token ≡ some requested
      → validate_redemption (some requested) r.amount_sats r.swap_fee_sats ≡ pass tt
  redeem_exact requested url from foreign value =
      (validate_redemption_iff requested r.amount_sats r.swap_fee_sats).1
        (sound (redeem_accounts mints token j r done))
    where
      sound : Accounted mints token r → Sound requested r.amount_sats r.swap_fee_sats
      sound (u, worth, from', value', fee, bounds) = ground arith

  -- A token worth more than was requested, of which less than was requested is left, is refused by
  -- the check after it was spent: the fee that is reported is measured from the token, and the
  -- shortfall it has to account for from the request.
  pub redeem_surplus_refused :
      (requested worth : ℕ)
      → mints.token_total_amount token ≡ some worth
      → requested < worth
      → r.amount_sats < requested
      → validate_redemption (some requested) r.amount_sats r.swap_fee_sats ≢ pass tt
  redeem_surplus_refused requested worth value more less e =
      refused (redeem_accounts mints token j r done)
        ((validate_redemption_iff requested r.amount_sats r.swap_fee_sats).0 e)
    where
      refused : Accounted mints token r → ¬ (Sound requested r.amount_sats r.swap_fee_sats)
      refused (u, w, from', value', fee, bounds) s = ground arith
