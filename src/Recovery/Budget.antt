-- ===== src/Recovery/Budget.antt =====
-- backend/src/bin/m5_recover.rs: what the rounds may lose, whatever the mints answer.
use shuestand.Prelude.{
  String, ℕ, zero, suc, ◌+◌, ◌≤◌, ◌≡◌, sym, subst, arith, ◌⊎◌, inr, Option, none, some, List, [],
  ◌∷◌, ltb,
}
use shuestand.Failure.{Checked, pass, fail}
use shuestand.Run.{pure, lift}
use shuestand.Run.Holds.{
  Ended, Holds, Holds-pure, Holds-raise, Holds-lift, Holds-if, Holds-bind, Holds-given,
}
use shuestand.Wallet.Mints.{Proof, MintQuote, MeltQuote}
use shuestand.Recovery.{
  Venues, Journal, Recovering, Chosen, Outcome, consult, sent, checked_sum, enforce_budget, choose,
  weigh, find_quote, await_paid, pay, proceed, attempt, ask_states, rounds, is_mint_paid,
}

abbrev pub total_paid : List ℕ → ℕ
total_paid [] = 0
total_paid (n ∷ ns) = n + total_paid ns

-- Nothing was paid yet, or what was paid leaves at most the ceiling of the value behind.
abbrev pub Covered : ℕ → ℕ → List ℕ → Type 0
Covered live max_fee paid =
    (paid ≡ []) ⊎ ((total_paid paid ≤ live) × (live ≤ total_paid paid + max_fee))

abbrev Safe : ℕ → ℕ → Journal → Type 0
Safe live max_fee j = Covered live max_fee j.paid

-- The invoices paid so far come to what is credited.
abbrev Credited : ℕ → ℕ → ℕ → Journal → Type 0
Credited live max_fee credited j = (total_paid j.paid ≡ credited) × Covered live max_fee j.paid

pub budget_kept :
    (live credited remaining max_fee : ℕ)
    → enforce_budget live credited remaining max_fee ≡ pass tt
    → (credited + remaining ≤ live) × (live ≤ credited + remaining + max_fee)
unfolding enforce_budget
budget_kept live credited remaining max_fee e = ground arith

sum_of : (a b n : ℕ) → checked_sum a b ≡ pass n → n ≡ a + b
sum_of a b n e = ground arith

module _ (F : List ℕ → Type 0) {E : Journal → Type 0} (weak : (j : Journal) → F j.paid → E j) where
  answer_end : {A : Type 0} (r : Checked A) (j : Journal) → F j.paid → Ended (λ a i. F i.paid) E r j
  answer_end (pass a) j h = h
  answer_end (fail e) j h = weak j h

  consult-Holds :
      {A : Type 0} (f : ℕ → Option A) → Holds (λ j. F j.paid) (λ a j. F j.paid) E (consult f)
  unfolding consult
  consult-Holds f = record { leads = λ j h. answer_end _ _ h }

  lift-Holds : {A : Type 0} (r : Checked A) → Holds (λ j. F j.paid) (λ a j. F j.paid) E (lift r)
  lift-Holds r = Holds-lift r (λ a e j h. h) weak

  module _ (x : Venues) (live max_fee : ℕ) where
    ask_states-Holds :
        (ys : List String)
        → Holds (λ j. F j.paid) (λ a j. F j.paid) E (ask_states x live max_fee ys)
    unfolding ask_states
    ask_states-Holds ys = record { leads = λ j h. answer_end _ _ h }

    await_paid-Holds :
        (n : ℕ) (id : String)
        → Holds (λ j. F j.paid) (λ a j. F j.paid) E (await_paid x live max_fee n id)
    unfolding await_paid
    await_paid-Holds zero id = Holds-raise _ weak
    await_paid-Holds (suc n) id =
        Holds-bind (λ a j. F j.paid) _ _ (consult-Holds _)
          (λ status.
            Holds-bind (λ a j. F j.paid) _ _ (lift-Holds _)
              (λ u.
                Holds-if (is_mint_paid status) (pure tt) (await_paid x live max_fee n id)
                  (λ e. Holds-pure tt (λ j h. h)) (λ e. await_paid-Holds n id)))

    -- An invoice that is chosen keeps the budget, if all that was paid before it is credited.
    abbrev Fits : ℕ → Option Chosen → Type 0
    Fits credited none = Unit {0}
    Fits credited (some c) = (credited + c.target ≤ live) × (live ≤ credited + c.target + max_fee)

    abbrev Choosing : ℕ → Recovering (Option Chosen) → Type 0
    Choosing credited m = Holds (λ j. F j.paid) (λ c j. Fits credited c × F j.paid) E m

    weigh-Holds :
        (credited target : ℕ) (quote : MintQuote) (melt : MeltQuote)
        (rest : ℕ → Recovering (Option Chosen))
        → ((n : ℕ) → Choosing credited (rest n))
        → (next : Option ℕ)
        → Choosing credited (weigh x live max_fee credited target quote melt rest next)
    weigh-Holds credited target quote melt rest hr none = Holds-pure none (λ j h. (tt, h))
    weigh-Holds credited target quote melt rest hr (some next) =
        Holds-if (ltb next target) (rest next) (choose x live max_fee credited target quote melt)
          (λ e. hr next)
          (λ e.
            Holds-bind (λ n j. (n ≡ credited + target) × F j.paid) _ _
              (Holds-lift _ (λ n k j h. (sum_of _ _ n k, h)) weak)
              (λ n. Holds-given _ (λ reached.
                Holds-bind (λ a j. (n + 0 ≤ live × live ≤ n + 0 + max_fee) × F j.paid) _ _
                  (Holds-lift _ (λ a k j h. (budget_kept live n 0 max_fee k, h)) weak)
                  (λ u. Holds-given _ (λ kept. Holds-pure _ (λ j h.
                    ((omega (arith, kept.0, reached), omega (arith, kept.1, reached)), h)))))))

    find_quote-Holds :
        (tries total input_fee credited target : ℕ)
        → Choosing credited (find_quote x live max_fee tries total input_fee credited target)
    unfolding find_quote
    find_quote-Holds zero total input_fee credited target = Holds-pure none (λ j h. (tt, h))
    find_quote-Holds (suc tries) total input_fee credited target =
        Holds-bind (λ a j. F j.paid) _ _ (consult-Holds _)
          (λ quote.
            Holds-bind (λ a j. F j.paid) _ _ (consult-Holds _)
              (λ melt.
                weigh-Holds credited target quote melt _
                  (find_quote-Holds tries total input_fee credited) _))

module _ (x : Venues) (live max_fee : ℕ) where
  -- What holds between rounds: the invoices paid come to what is credited, and keep the budget.
  abbrev pub Held : ℕ → List ℕ → Type 0
  Held credited paid = (total_paid paid ≡ credited) × Covered live max_fee paid

  abbrev End : Journal → Type 0
  End j = Covered live max_fee j.paid

  held_end : (credited : ℕ) (j : Journal) → Held credited j.paid → End j
  held_end credited j h = h.1

  sent-Holds :
      (credited target : ℕ)
      → (credited + target ≤ live) × (live ≤ credited + target + max_fee)
      → Holds (λ j. Held credited j.paid) (λ a j. Held (credited + target) j.paid) End (sent target)
  sent-Holds credited target fits = record {
    leads =
        λ j h. (omega (arith, h.0), inr (omega (arith, h.0, fits.0), omega (arith, h.0, fits.1)));
  }

  pay-Holds :
      (credited : ℕ) (inputs : List Proof) (c : Chosen)
      → (credited + c.target ≤ live) × (live ≤ credited + c.target + max_fee)
      → Holds
          (λ j. Held credited j.paid)
          (λ o j. Held o.credited j.paid)
          End
          (pay x live max_fee credited inputs c)
  unfolding pay
  pay-Holds credited inputs c fits =
      let before = held_end credited in
      let after = held_end (credited + c.target) in
      let G = Held (credited + c.target) in
      Holds-bind (λ a j. Held credited j.paid) _ _ (consult-Holds _ before _)
        (λ a.
          Holds-bind (λ a j. G j.paid) _ _ (sent-Holds credited c.target fits)
            (λ b.
              Holds-bind (λ a j. G j.paid) _ _ (consult-Holds G after _)
                (λ finalized.
                  Holds-bind (λ a j. G j.paid) _ _ (lift-Holds G after _)
                    (λ d.
                      Holds-bind (λ a j. G j.paid) _ _ (lift-Holds G after _)
                        (λ remaining.
                          Holds-bind (λ a j. G j.paid) _ _
                            (await_paid-Holds G after x live max_fee 30 _)
                            (λ e.
                              Holds-bind (λ a j. G j.paid) _ _ (consult-Holds G after _)
                                (λ proofs.
                                  Holds-bind (λ a j. G j.paid) _ _ (lift-Holds G after _)
                                    (λ amount.
                                      Holds-bind (λ a j. G j.paid) _ _ (lift-Holds G after _)
                                        (λ f.
                                          Holds-bind (λ a j. G j.paid) _ _ (lift-Holds G after _)
                                            (λ ys.
                                              Holds-bind (λ a j. G j.paid) _ _
                                                (consult-Holds G after _)
                                                (λ reply.
                                                  Holds-bind (λ a j. G j.paid) _ _
                                                    (lift-Holds G after _)
                                                    (λ g.
                                                      Holds-bind
                                                        (λ n j.
                                                          (credited + c.target ≡ n) × G j.paid)
                                                        _ _
                                                        (Holds-lift _
                                                          (λ n k j h. (sym (sum_of _ _ n k), h))
                                                          after)
                                                        (λ n. Holds-given _ (λ same.
                                                          Holds-bind (λ a j. G j.paid) _ _
                                                            (lift-Holds G after _)
                                                            (λ i. Holds-pure _ (λ j h.
                                                            subst (λ m. Held m j.paid) same
                                                            h))))))))))))))))

  abbrev pub Kept : Outcome → Journal → Type 0
  Kept o j = Held o.credited j.paid

  proceed-Holds :
      (credited : ℕ) (inputs : List Proof) (rest : ℕ → List Proof → Recovering Outcome)
      → ((n : ℕ) (ps : List Proof) → Holds (λ j. Held n j.paid) Kept End (rest n ps))
      → (chosen : Option Chosen)
      → Holds
          (λ j.
            (Fits (Held credited) (held_end credited) x live max_fee credited chosen)
            × Held credited j.paid)
          Kept
          End
          (proceed x live max_fee credited inputs rest chosen)
  proceed-Holds credited inputs rest hr none = Holds-given _ (λ u. Holds-pure _ (λ j h. h))
  proceed-Holds credited inputs rest hr (some c) =
      Holds-given _ (λ fits.
        Holds-bind Kept _ _ (pay-Holds credited inputs c fits) (λ o. hr o.credited o.inputs))

  attempt-Holds :
      (credited : ℕ) (inputs : List Proof) (rest : ℕ → List Proof → Recovering Outcome)
      → ((n : ℕ) (ps : List Proof) → Holds (λ j. Held n j.paid) Kept End (rest n ps))
      → (total input_fee : ℕ) (target : Option ℕ)
      → Holds
          (λ j. Held credited j.paid)
          Kept
          End
          (attempt x live max_fee credited inputs rest total input_fee target)
  attempt-Holds credited inputs rest hr total input_fee none = Holds-pure _ (λ j h. h)
  attempt-Holds credited inputs rest hr total input_fee (some target) =
      Holds-bind _ _ _
        (find_quote-Holds (Held credited) (held_end credited) x live max_fee 16 total input_fee
          credited target)
        (proceed-Holds credited inputs rest hr)

  pub rounds-Holds :
      (n credited : ℕ) (inputs : List Proof)
      → Holds (λ j. Held credited j.paid) Kept End (rounds x live max_fee n credited inputs)
  unfolding rounds
  rounds-Holds zero credited inputs = Holds-pure _ (λ j h. h)
  rounds-Holds (suc n) credited [] = Holds-pure _ (λ j h. h)
  rounds-Holds (suc n) credited (p ∷ ps) =
      let F = Held credited in
      let weak = held_end credited in
      Holds-bind (λ a j. F j.paid) _ _ (lift-Holds F weak _)
        (λ total.
          Holds-bind (λ a j. F j.paid) _ _ (lift-Holds F weak _)
            (λ ys.
              Holds-bind (λ a j. F j.paid) _ _ (ask_states-Holds F weak x live max_fee ys)
                (λ found.
                  Holds-bind (λ a j. F j.paid) _ _ (lift-Holds F weak _)
                    (λ u.
                      Holds-bind (λ a j. F j.paid) _ _ (consult-Holds F weak _)
                        (λ input_fee.
                          attempt-Holds credited (p ∷ ps) _ (rounds-Holds n) total input_fee _)))))
