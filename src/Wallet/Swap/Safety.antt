-- ===== src/Wallet/Swap/Safety.antt =====
-- backend/src/wallet/swap.rs: what a swap comes to as a whole.
use shuestand.Prelude.{String, ℕ, ◌≡◌, refl, sym, subst, ◌⊎◌, inl, inr, Option, some, List}
use shuestand.Failure.{Checked, pass, fail, external}
use shuestand.Run.{checked_or}
use shuestand.Run.Holds.{
  Ended, Holds, Holds-lift, Holds-bind, Holds-given, Holds-weaken, Holds-passed, checked_or_passed,
}
use shuestand.Wallet.Mints.{Mints, Melt, Journal}
use shuestand.Wallet.Swap.{MintSwapOutcome, Received, Spendable, swap_to_canonical, melt_rounds}
use shuestand.Wallet.Swap.Receiving.{
  ask-Holds, lift-Holds, receive_foreign_token-Holds, spendable_amount_and_fee-Holds, FromToken,
  Valued,
}
use shuestand.Wallet.Swap.Melting.{melt_loop-Holds, Melted, OneMelt, Outcome}

-- One melt, of proofs that the token was received for, at what they are worth.
abbrev pub MeltedFrom : Mints → String → List Melt → ℕ → ℕ → Journal → Type 0
MeltedFrom mints token before original target j =
    (r : Received) × FromToken mints token r
    × (s : Spendable) × Valued mints r.proofs s
    × Melted mints original r.proofs s before target j.melts

-- What a swap that was answered has done.
abbrev pub Swapped : Mints → String → List Melt → MintSwapOutcome → Journal → Type 0
Swapped mints token before o j =
    (mints.token_total_amount token ≡ some o.original_amount_sats)
    × MeltedFrom mints token before o.original_amount_sats o.canonical_amount_sats j

-- What a swap may leave behind that failed.
abbrev pub Stopped : Mints → String → List Melt → Journal → Type 0
Stopped mints token before j =
    (j.melts ≡ before)
    ⊎ ((original : ℕ) × (mints.token_total_amount token ≡ some original)
        × (target : ℕ) × MeltedFrom mints token before original target j)

module _ (mints : Mints) (token : String) (before : List Melt) where
  unmelted : (j : Journal) → j.melts ≡ before → Stopped mints token before j
  unmelted j e = inl e

  original_of :
      (original : ℕ)
      → checked_or (mints.token_total_amount token) external ≡ pass original
      → mints.token_total_amount token ≡ some original
  original_of original e = checked_or_passed _ _ original e

  swapped :
      (original : ℕ)
      → mints.token_total_amount token ≡ some original
      → (r : Received) → FromToken mints token r
      → (s : Spendable) → Valued mints r.proofs s
      → (o : MintSwapOutcome) (j : Journal) → Outcome mints original r.proofs s before o j
      → Swapped mints token before o j
  swapped original worth r from s valued o j h =
      subst
        (λ n.
          (mints.token_total_amount token ≡ some n)
          × MeltedFrom mints token before n o.canonical_amount_sats j)
        (sym h.0) (worth, (r, from, s, valued, h.1))

  stopped :
      (original : ℕ)
      → mints.token_total_amount token ≡ some original
      → (r : Received) → FromToken mints token r
      → (s : Spendable) → Valued mints r.proofs s
      → (j : Journal) → OneMelt mints original r.proofs s before j
      → Stopped mints token before j
  stopped original worth r from s valued j (inl e) = inl e
  stopped original worth r from s valued j (inr (target, m)) =
      inr (original, worth, target, (r, from, s, valued, m))

  swap_to_canonical-Holds :
      (url : String) (expected : Option ℕ)
      → Holds
          (λ j. j.melts ≡ before)
          (Swapped mints token before)
          (Stopped mints token before)
          (swap_to_canonical mints token url expected)
  unfolding swap_to_canonical
  swap_to_canonical-Holds url expected =
      Holds-bind (λ a j. j.melts ≡ before) _ _ (ask-Holds _ unmelted _)
        (λ u.
          Holds-bind (λ a j. (mints.token_total_amount token ≡ some a) × (j.melts ≡ before)) _ _
            (Holds-lift _ (λ a e j h. (original_of a e, h)) unmelted)
            (λ original. Holds-given _ (λ worth.
              Holds-bind (λ a j. j.melts ≡ before) _ _ (lift-Holds _ unmelted _)
                (λ v.
                  Holds-bind _ _ _
                    (receive_foreign_token-Holds (λ ms. ms ≡ before) unmelted mints token)
                    (λ received. Holds-given _ (λ from.
                      Holds-bind (λ a j. j.melts ≡ before) _ _ (lift-Holds _ unmelted _)
                        (λ x.
                          Holds-bind _ _ _
                            (spendable_amount_and_fee-Holds (λ ms. ms ≡ before) unmelted mints
                              received.proofs)
                            (λ s. Holds-given _ (λ valued.
                              Holds-weaken _ _ _
                                (melt_loop-Holds mints original received.proofs s before melt_rounds
                                  _)
                                (λ o j h. swapped original worth received from s valued o j h)
                                (stopped original worth received from s valued))))))))))

module _ (mints : Mints) (token url : String) (expected : Option ℕ) (j : Journal) where
  either_way :
      (r : Checked MintSwapOutcome) (i : Journal)
      → Ended (Swapped mints token j.melts) (Stopped mints token j.melts) r i
      → Stopped mints token j.melts i
  either_way (pass o) i (worth, m) = inr (o.original_amount_sats, worth, o.canonical_amount_sats, m)
  either_way (fail e) i h = h

  -- Whatever the mints answer, and whether it succeeds or fails, a swap sends at most one melt, and
  -- only with a quote of the foreign mint for an invoice that is within the limit on loss of what the
  -- token is worth, and with the proofs received for the token, whose worth covers the invoice, the
  -- reserve of that quote and the fee that the mint takes for them.
  pub swap_one_melt : Stopped mints token j.melts (swap_to_canonical mints token url expected j).1
  swap_one_melt =
      either_way _ _ ((swap_to_canonical-Holds mints token j.melts url expected).leads j refl)

  -- A swap that succeeds has sent exactly one melt, for an invoice of the amount it reports, which
  -- the proofs covered; the amount it reports as the original is the token's, and the other is at
  -- most that and short of it by at most a twentieth.
  pub swap_success :
      (o : MintSwapOutcome)
      → (swap_to_canonical mints token url expected j).0 ≡ pass o
      → Swapped mints token j.melts o (swap_to_canonical mints token url expected j).1
  swap_success o e =
      Holds-passed _ (swap_to_canonical-Holds mints token j.melts url expected) j refl o e
