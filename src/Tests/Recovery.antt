-- ===== src/Tests/Recovery.antt =====
-- A run of backend/src/bin/m5_recover.rs that moves 1000 with a reserve of 20.
use shuestand.Prelude.{String, ℕ, none, some, List, [], ◌∷◌, ◌≡◌, refl, map, sum_by}
use shuestand.Failure.{Checked}
use shuestand.Run.Holds.{Ended}
use shuestand.Wallet.Mints.{Proof, MeltQuoteState, MintQuoteState}
use shuestand.Recovery.{
  Venues, Journal, move_value, rounds, ask_states, consult, payment_target, find_quote,
  enforce_budget, pay, await_paid,
}
use shuestand.Recovery.States.{states, verify_state_response}
use shuestand.Run.{◌>>=◌}
use shuestand.Recovery.Loss.{Recovered, Bounded, recovery-Bounded}

abbrev proof_of : String → ℕ → Proof
proof_of secret amount = record { secret = secret; amount = amount }

abbrev inputs : List Proof
inputs = proof_of "a" 600 ∷ proof_of "b" 400 ∷ []

abbrev venues : Venues
venues = record {
  total_amount = λ ps. some (sum_by (λ (p : Proof). p.amount) ps);
  proofs_ys = λ ps. some (map (λ (p : Proof). p.secret) ps);
  checkstate = λ n ys. some (map (λ y. record { y = y; state = "UNSPENT" }) ys);
  canonical_checkstate = λ n ys. some (map (λ y. record { y = y; state = "UNSPENT" }) ys);
  get_proofs_fee = λ n ps. some 2;
  mint_quote = λ n amount. some (record { id = "q"; request = "lnbc" });
  melt_quote = λ n request. some (record { id = "m"; fee_reserve = 20 });
  prepare_melt_proofs = λ n id ps. some tt;
  confirm = λ n id. some (record { state = MeltQuoteState.paid; change = none });
  check_mint_quote_status = λ n id. some MintQuoteState.paid;
  mint = λ n id. some (proof_of "c" 978 ∷ []);
}

abbrev start : Journal
start = record { calls = 0; paid = [] }

move_value_runs :
    (move_value venues 1000 50 inputs start).0
    ≡ Checked.pass (record { credited = 978; inputs = [] })
unfolding move_value ◌>>=◌ rounds ask_states states consult payment_target find_quote enforce_budget
    pay await_paid verify_state_response
move_value_runs = refl

recovery-Bounded_example :
    Ended
      (Recovered venues 1000 50)
      (λ i. Bounded 1000 i.paid)
      (move_value venues 1000 50 inputs start).0
      (move_value venues 1000 50 inputs start).1
recovery-Bounded_example = recovery-Bounded venues 1000 50 inputs start refl
