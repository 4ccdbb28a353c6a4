-- ===== src/Recovery/Loss.antt =====
-- backend/src/bin/m5_recover.rs, `execute`: what a run may lose as a whole.
use shuestand.Prelude.{
  String, ℕ, ap, ◌+◌, ◌/◌, ◌≤◌, ◌≡◌, arith, ◌⊎◌, inl, inr, some, List, [], not, ◌&&◌, ◌==◌, leb,
}
use shuestand.Failure.{pass}
use shuestand.Run.Holds.{
  Ended, Holds, Holds-pure, Holds-lift, Holds-bind, Holds-given, Holds-weaken, checked_or_passed,
}
use shuestand.Wallet.Mints.{Proof}
use shuestand.Recovery.{Venues, Journal, Outcome, ensure, move_value}
use shuestand.Recovery.Budget.{total_paid, Covered, budget_kept, Held, rounds-Holds}

-- Nothing was paid, or what was paid is at least nineteen twentieths of the value, and at most all.
abbrev pub Bounded : ℕ → List ℕ → Type 0
Bounded live paid = (paid ≡ []) ⊎ ((total_paid paid ≤ live) × (live ≤ total_paid paid + live / 20))

-- A run that completes has credited all that it paid, and that and what remains are short of the
-- value by at most the ceiling.
abbrev pub Recovered : Venues → ℕ → ℕ → Outcome → Journal → Type 0
Recovered x live max_fee o j =
    (total_paid j.paid ≡ o.credited)
    × Bounded live j.paid
    × (max_fee ≤ live / 20)
    × (remaining : ℕ) × (x.total_amount o.inputs ≡ some remaining)
    × (o.credited + remaining ≤ live)
    × (live ≤ o.credited + remaining + max_fee)

ceiling :
    (live max_fee : ℕ) (text : String)
    → ensure (not (max_fee == 0) && leb max_fee (live / 20)) text ≡ pass tt
    → max_fee ≤ live / 20
ceiling live max_fee text e = ground arith

bounded :
    (live max_fee : ℕ) (paid : List ℕ)
    → max_fee ≤ live / 20
    → Covered live max_fee paid
    → Bounded live paid
bounded live max_fee paid low (inl none_yet) = inl none_yet
bounded live max_fee paid low (inr (most, least)) = inr (most, omega (arith, least, low))

module _ (x : Venues) (live max_fee : ℕ) (inputs : List Proof) where
  move_value-Holds :
      Holds
        (λ j. j.paid ≡ [])
        (Recovered x live max_fee)
        (λ j. Bounded live j.paid)
        (move_value x live max_fee inputs)
  unfolding move_value
  move_value-Holds =
      Holds-bind (λ a j. (max_fee ≤ live / 20) × (j.paid ≡ [])) _ _
        (Holds-lift _ (λ a e j h. (ceiling live max_fee _ e, h)) (λ j h. inl h))
        (λ u. Holds-given _ (λ low.
          Holds-bind (λ o j. Held x live max_fee o.credited j.paid) _ _
            (record {
              leads = λ j h.
                  (Holds-weaken _ _ _ (rounds-Holds x live max_fee 8 0 inputs) (λ o i q. q)
                      (λ i q. bounded live max_fee i.paid low q)).leads
                    j (ap total_paid h, inl h);
            })
            (λ o.
              Holds-bind
                (λ n j. (x.total_amount o.inputs ≡ some n) × Held x live max_fee o.credited j.paid)
                _ _
                (Holds-lift _ (λ n e j h. (checked_or_passed _ _ n e, h))
                  (λ j h. bounded live max_fee j.paid low h.1))
                (λ n. Holds-given _ (λ rest.
                  Holds-bind
                    (λ a j.
                      ((o.credited + n ≤ live) × (live ≤ o.credited + n + max_fee))
                      × Held x live max_fee o.credited j.paid)
                    _ _
                    (Holds-lift _ (λ a e j h. (budget_kept _ _ _ _ e, h))
                      (λ j h. bounded live max_fee j.paid low h.1))
                    (λ a. Holds-given _ (λ kept. Holds-pure o (λ j h. (
                      h.0,
                      bounded live max_fee j.paid low h.1,
                      low,
                      n,
                      rest,
                      kept.0,
                      kept.1,
                    )))))))))

  -- However a run ends, with an error at any call or without one, either nothing was paid, or what
  -- was paid comes to at most the live value and at least nineteen twentieths of it. A run that
  -- completes has credited all that was paid, and what is credited and what remains come to the live
  -- value less at most the ceiling. The run starts with nothing paid.
  pub recovery-Bounded :
      (j : Journal)
      → j.paid ≡ []
      → Ended
          (Recovered x live max_fee)
          (λ i. Bounded live i.paid)
          (move_value x live max_fee inputs j).0
          (move_value x live max_fee inputs j).1
  recovery-Bounded j e = move_value-Holds.leads j e
