-- ===== src/Tests/Swap.antt =====
-- The swap of backend/src/wallet/swap.rs and the redeemer, with a foreign mint whose melts reserve 20.
use shuestand.Prelude.{String, ℕ, some, List, [], ◌∷◌, ◌≡◌, ◌≢◌, refl, arith, sum_by, map}
use shuestand.Failure.{pass}
use shuestand.Run.{◌>>=◌}
use shuestand.Runtime.{Redeemed}
use shuestand.Redemption.{validate_redemption, validate_conversion_amount}
use shuestand.Wallet.Mints.{
  Mints, Proof, ProofState, State, Preparation, MeltQuoteState, MintQuoteState, Journal, ask,
}
use shuestand.Wallet.Proofs.{received_proofs, require_unspent}
use shuestand.Wallet.Swap.{
  MintSwapOutcome, swap_to_canonical, redeem, receive_foreign_token, spendable_amount_and_fee,
  melt_loop, next_target, confirm_melt_with_quote, mint_canonical_proofs,
}
use shuestand.Wallet.Swap.Safety.{Stopped, swap_one_melt}
use shuestand.Wallet.Redeem.{redeem_exact, redeem_surplus_refused}

abbrev proof_of : String → ℕ → Proof
proof_of secret amount = record { secret = secret; amount = amount }

abbrev mint_of : Mints
mint_of = record {
  canonical_mint = "https://mint";
  token_mint_url = λ token. some "https://other";
  token_total_amount = λ token. some 1000;
  proof_y = λ p. some p.secret;
  proofs_ys = λ ps. some (map (λ (p : Proof). p.secret) ps);
  total_amount = λ ps. some (sum_by (λ (p : Proof). p.amount) ps);
  wallet_for_mint = λ n url. some tt;
  get_proofs = λ n. some [];
  token_proofs = λ n token. some (proof_of "t" 1000 ∷ []);
  receive_proofs = λ n ps. some 1000;
  get_unspent_proofs = λ n. some (proof_of "a" 600 ∷ proof_of "b" 400 ∷ []);
  check_proofs_spent =
      λ n ps. some (map (λ (p : Proof). record { y = p.secret; state = State.unspent }) ps);
  get_proofs_fee = λ n ps. some 2;
  mint_quote = λ n amount. some (record { id = "q"; request = "lnbc" });
  melt_quote = λ n request. some (record { id = "m"; fee_reserve = 20 });
  prepare_melt_proofs = λ n id ps. Preparation.prepared;
  confirm = λ n id. some MeltQuoteState.paid;
  check_mint_quote_status = λ n id. some MintQuoteState.issued;
  mint = λ n id. some (proof_of "c" 978 ∷ []);
}

abbrev start : Journal
start = record { calls = 0; receipts = []; melts = [] }

abbrev swapped : MintSwapOutcome
swapped = record { original_amount_sats = 1000; canonical_amount_sats = 978 }

abbrev redeemed : Redeemed
redeemed = record { amount_sats = 978; swap_fee_sats = some 22 }

swap_runs : (swap_to_canonical mint_of "cashuF" "https://other" (some 1000) start).0 ≡ pass swapped
unfolding swap_to_canonical ◌>>=◌ ask receive_foreign_token received_proofs
    validate_conversion_amount spendable_amount_and_fee require_unspent melt_loop next_target
    confirm_melt_with_quote mint_canonical_proofs
swap_runs = refl

redeem_runs : (redeem mint_of "cashuF" start).0 ≡ pass redeemed
unfolding redeem swap_to_canonical ◌>>=◌ ask receive_foreign_token received_proofs
    validate_conversion_amount spendable_amount_and_fee require_unspent melt_loop next_target
    confirm_melt_with_quote mint_canonical_proofs
redeem_runs = refl

swap_one_melt_example :
    Stopped mint_of "cashuF" []
      (swap_to_canonical mint_of "cashuF" "https://other" (some 1000) start).1
swap_one_melt_example = swap_one_melt mint_of "cashuF" "https://other" (some 1000) start

redeem_exact_example : validate_redemption (some 1000) 978 (some 22) ≡ pass tt
redeem_exact_example =
    redeem_exact mint_of "cashuF" start redeemed redeem_runs 1000 "https://other" refl refl refl

redeem_surplus_refused_example : validate_redemption (some 990) 978 (some 22) ≢ pass tt
redeem_surplus_refused_example =
    redeem_surplus_refused mint_of "cashuF" start redeemed redeem_runs 990 1000 refl (omega arith)
      (omega arith)

receipt_runs :
    received_proofs mint_of ("old" ∷ []) (proof_of "old" 5 ∷ proof_of "a" 600 ∷ []) 600
    ≡ pass (proof_of "a" 600 ∷ [])
unfolding received_proofs
receipt_runs = refl

abbrev two : List Proof
two = proof_of "a" 600 ∷ proof_of "b" 400 ∷ []

abbrev both : List ProofState
both = record { y = "b"; state = State.unspent } ∷ record { y = "a"; state = State.unspent } ∷ []

states_run : require_unspent mint_of two both ≡ pass tt
unfolding require_unspent
states_run = refl
