-- ===== src/Wallet/Swap/Melting.antt =====
-- backend/src/wallet/swap.rs: the melts of a swap, whatever the mints answer.
use shuestand.Prelude.{
  ℕ, zero, suc, ◌+◌, ◌≤◌, ◌<◌, ◌/◌, ◌≡◌, refl, sym, subst, arith, ◌⊎◌, inl, inr, some, List, ◌∷◌,
  false, ◌==◌, ltb, ltb→le,
}
use shuestand.Failure.{pass, insufficient_melt_balance}
use shuestand.Run.{raise}
use shuestand.Run.Holds.{
  Holds, Holds-pure, Holds-raise, Holds-lift, Holds-if, Holds-bind, Holds-given,
}
use shuestand.Redemption.{validate_conversion_amount, validate_conversion_amount_iff}
use shuestand.Wallet.Mints.{Mints, Proof, MintQuote, MeltQuote, Melt, Journal}
use shuestand.Wallet.Swap.Receiving.{
  ask-Holds, ask-Known, told-Holds, lift-Holds, mint_canonical_proofs-Holds,
}
use shuestand.Wallet.Swap.{
  MintSwapOutcome, Spendable, needed, next_target, sent, confirm_melt_with_quote, pay, melt_loop,
}

-- The quote is the foreign mint's, for an invoice of the canonical mint for `target`.
abbrev pub Invoiced : Mints → ℕ → MeltQuote → Type 0
Invoiced mints target quote =
    (invoice : MintQuote) × ((n : ℕ) × (mints.mint_quote n target ≡ some invoice))
    × ((n : ℕ) × (mints.melt_quote n invoice.request ≡ some quote))

-- What a melt was sent for: an invoice of `target`, within the limit on loss, that the proofs cover
-- together with the quoted reserve and the input fee.
abbrev pub Melted : Mints → ℕ → List Proof → Spendable → List Melt → ℕ → List Melt → Type 0
Melted mints original proofs s before target melts =
    (quote : MeltQuote) × (melts ≡ record { quote = quote; proofs = proofs } ∷ before)
    × (0 < target)
    × (target ≤ original)
    × (original ≤ target + original / 20)
    × (needed target quote.fee_reserve s ≤ s.total)
    × Invoiced mints target quote

-- At most one melt, and that one as above.
abbrev pub OneMelt : Mints → ℕ → List Proof → Spendable → List Melt → Journal → Type 0
OneMelt mints original proofs s before j =
    (j.melts ≡ before) ⊎ ((target : ℕ) × Melted mints original proofs s before target j.melts)

abbrev pub Outcome :
    Mints → ℕ → List Proof → Spendable → List Melt → MintSwapOutcome → Journal → Type 0
Outcome mints original proofs s before o j =
    (o.original_amount_sats ≡ original)
    × Melted mints original proofs s before o.canonical_amount_sats j.melts

module _ (mints : Mints) (original : ℕ) (proofs : List Proof) (s : Spendable)
    (before : List Melt) where
  none_yet : (j : Journal) → j.melts ≡ before → OneMelt mints original proofs s before j
  none_yet j e = inl e

  once :
      (target : ℕ) (j : Journal)
      → Melted mints original proofs s before target j.melts
      → OneMelt mints original proofs s before j
  once target j h = inr (target, h)

  good :
      (melt_quote : MeltQuote) (target : ℕ)
      → validate_conversion_amount original target ≡ pass tt
      → ltb s.total (needed target melt_quote.fee_reserve s) ≡ false
      → Invoiced mints target melt_quote
      → Melted mints original proofs s before target
          (record { quote = melt_quote; proofs = proofs } ∷ before)
  good melt_quote target valid fits quoted =
      let within = (validate_conversion_amount_iff original target).0 valid in
      (melt_quote, refl, within.0, within.1, within.2, ltb→le _ _ fits, quoted)

  sent-Holds :
      (quote : MeltQuote) (target : ℕ)
      → Melted mints original proofs s before target
          (record { quote = quote; proofs = proofs } ∷ before)
      → Holds
          (λ j. j.melts ≡ before)
          (λ a j. Melted mints original proofs s before target j.melts)
          (OneMelt mints original proofs s before)
          (sent (record { quote = quote; proofs = proofs }))
  sent-Holds quote target m = record {
    leads = λ j e.
        subst
          (λ ms.
            Melted mints original proofs s before target
              (record { quote = quote; proofs = proofs } ∷ ms))
          (sym e) m;
  }

  confirm_melt_with_quote-Holds :
      (quote : MeltQuote) (target : ℕ)
      → Melted mints original proofs s before target
          (record { quote = quote; proofs = proofs } ∷ before)
      → Holds
          (λ j. j.melts ≡ before)
          (λ a j. Melted mints original proofs s before target j.melts)
          (OneMelt mints original proofs s before)
          (confirm_melt_with_quote mints quote proofs)
  unfolding confirm_melt_with_quote
  confirm_melt_with_quote-Holds quote target m =
      Holds-bind (λ a j. j.melts ≡ before) _ _ (ask-Holds _ none_yet _)
        (λ states.
          Holds-bind (λ a j. j.melts ≡ before) _ _ (lift-Holds _ none_yet _)
            (λ u.
              Holds-bind (λ a j. j.melts ≡ before) _ _ (told-Holds _ none_yet _)
                (λ preparing.
                  Holds-bind (λ a j. j.melts ≡ before) _ _ (lift-Holds _ none_yet _)
                    (λ v.
                      Holds-bind (λ a j. Melted mints original proofs s before target j.melts) _ _
                        (sent-Holds quote target m)
                        (λ x.
                          Holds-bind (λ a j. Melted mints original proofs s before target j.melts) _
                            _ (ask-Holds _ (once target) _)
                            (λ state. lift-Holds _ (once target) _))))))

  pay-Holds :
      (quote : MintQuote) (melt_quote : MeltQuote) (target : ℕ)
      → Melted mints original proofs s before target
          (record { quote = melt_quote; proofs = proofs } ∷ before)
      → Holds
          (λ j. j.melts ≡ before)
          (Outcome mints original proofs s before)
          (OneMelt mints original proofs s before)
          (pay mints original target proofs quote melt_quote)
  pay-Holds quote melt_quote target m =
      Holds-bind (λ a j. Melted mints original proofs s before target j.melts) _ _
        (confirm_melt_with_quote-Holds melt_quote target m)
        (λ u.
          Holds-bind (λ a j. Melted mints original proofs s before target j.melts) _ _
            (mint_canonical_proofs-Holds _ (once target) mints _ _)
            (λ canonical.
              Holds-bind
                (λ a j. (canonical ≡ target) × Melted mints original proofs s before target j.melts)
                _ _ (Holds-lift _ (λ a e j h. (ground arith, h)) (once target))
                (λ v. Holds-pure _ (λ j h. (
                  refl,
                  subst (λ t. Melted mints original proofs s before t j.melts) (sym h.0) h.1,
                )))))

  pub melt_loop-Holds :
      (rounds target : ℕ)
      → Holds
          (λ j. j.melts ≡ before)
          (Outcome mints original proofs s before)
          (OneMelt mints original proofs s before)
          (melt_loop mints rounds original proofs s target)
  unfolding melt_loop
  melt_loop-Holds zero target = Holds-raise _ none_yet
  melt_loop-Holds (suc rounds) target =
      Holds-bind
        (λ a j. (validate_conversion_amount original target ≡ pass tt) × (j.melts ≡ before)) _ _
        (Holds-lift _ (λ a e j h. (e, h)) none_yet)
        (λ u. Holds-given _ (λ valid.
          Holds-bind _ _ _ (ask-Known (λ ms. ms ≡ before) none_yet (λ n. mints.mint_quote n target))
            (λ quote. Holds-given _ (λ invoiced.
              Holds-bind _ _ _
                (ask-Known (λ ms. ms ≡ before) none_yet (λ n. mints.melt_quote n quote.request))
                (λ melt_quote. Holds-given _ (λ quoted.
                  Holds-if _ _ _
                    (λ short.
                      Holds-if (next_target target melt_quote.fee_reserve s == 0)
                        (raise insufficient_melt_balance)
                        (melt_loop mints rounds original proofs s
                          (next_target target melt_quote.fee_reserve s))
                        (λ e. Holds-raise _ none_yet) (λ e. melt_loop-Holds rounds _))
                    (λ fits.
                      pay-Holds quote melt_quote target
                        (good melt_quote target valid fits (quote, invoiced, quoted)))))))))
