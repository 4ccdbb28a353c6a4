-- ===== src/Tests/Payments.antt =====
-- A payment of a request (backend/src/http.rs, submit_payment_request).
use shuestand.Prelude.{
  ℕ, ◌+◌, ◌-◌, ◌/◌, ◌≤◌, ◌≡◌, refl, arith, none, some, [], ◌∷◌, false, find_row, sum_where,
  count_where,
}
use shuestand.Failure.{pass}
use shuestand.Run.{◌>>=◌}
use shuestand.Operations.{OperationMode}
use shuestand.Db.States.Withdrawal.{funding, one_of}
use shuestand.Db.Tables.{Withdrawal}
use shuestand.Db.Withdrawals.{
  has_id, fetch_withdrawal, record_payment_request_token_locked, record_locked_row, cap_after,
  reserved_onchain_withdrawal_sats, reserved_amount, u64_max,
}
use shuestand.Http.Site.{Site, selected, statement}
use shuestand.Http.Payments.{
  PaymentPayload, PaymentAnswers, below, submit_payment_request, admissible,
}
use shuestand.Http.Payments.Laws.{submit_solvent}
use shuestand.Tests.Data.{tables_of, some_withdrawal}

abbrev requested : Withdrawal
requested = record (some_withdrawal funding 20000) {
  token = none;
  payment_request_id = some "pr_1";
  payment_request_creq = some "creq";
  payment_request_expires_at = some 400;
}

abbrev open_site : Site
open_site = record {
  tables = tables_of [] (requested ∷ []);
  operation_mode = OperationMode.normal;
  buckets = λ key. [];
  alerts = [];
  quotes = [];
}

abbrev answers : PaymentAnswers
answers = record {
  balance = some (some 90000);
  single_request_cap_ratio = λ n. n / 2;
  to_ascii_lowercase = λ text. text;
  token_of = λ payload. some (record { encoded = "cashuA"; amount = 20100 });
}

abbrev payload : PaymentPayload
payload = record { id = some "pr_1"; mint = "https://mint"; unit = "sat"; proofs = "p" ∷ [] }

submit_runs : (submit_payment_request answers 200 "wd_1" (some payload) open_site).0 ≡ pass 20100
unfolding submit_payment_request ◌>>=◌ selected fetch_withdrawal find_row admissible statement
    record_payment_request_token_locked record_locked_row cap_after reserved_onchain_withdrawal_sats
    sum_where one_of count_where
submit_runs = refl

reserve_fits : reserved_onchain_withdrawal_sats open_site.tables + 20100 ≤ u64_max
unfolding reserved_onchain_withdrawal_sats sum_where one_of
reserve_fits = omega arith

submit_solvent_example :
    (w : Withdrawal) × (find_row (has_id "wd_1") open_site.tables.withdrawals ≡ some w)
    × (raw : ℕ) × (answers.balance ≡ some (some raw))
    × (below w.requested_amount_sats 20100 ≡ false)
    × (reserved_onchain_withdrawal_sats
          (submit_payment_request answers 200 "wd_1" (some payload) open_site).1.tables
        ≡ reserved_onchain_withdrawal_sats open_site.tables)
    × (reserved_onchain_withdrawal_sats open_site.tables - reserved_amount w + 20100 ≤ raw)
submit_solvent_example =
    submit_solvent answers 200 "wd_1" (some payload) open_site 20100 submit_runs (omega arith)
      (λ n. omega arith) reserve_fits
