-- ===== src/Http/Payments.antt =====
-- backend/src/http.rs, `submit_payment_request`. The body is `none` where it does not parse; the
-- conversion of its proofs to a token with its value, and the lower case of a text, are parameters.
pub mod Laws
use shuestand.Prelude.{
  String, ℕ, ◌+◌, ◌-◌, ◌≤◌, ◌<◌, ◌≡◌, refl, sym, subst, ap, arith, Option, none, some, List, [],
  ◌∷◌, Bool, true, false, not, ◌||◌, ltb, str_eq, if◌then◌else◌, is_some, is_none, find_row,
  Option-cases,
}
use shuestand.Failure.{
  ApiError, not_found, invalid_request, server_error, conflict, service_unavailable, Failure,
  Checked, pass, fail, refused_with,
}
use shuestand.Run.{Run, lift, pure, raise, ◌>>=◌, ◌>>◌}
use shuestand.Run.Holds.{
  Holds, Holds-pure, Holds-raise, Holds-lift, Holds-bind, Holds-given, Holds-passed,
}
use shuestand.Db.States.Withdrawal.{funding, same}
use shuestand.Db.Tables.{Withdrawal, Tables, Result, ok, err, row_not_found}
use shuestand.Db.Withdrawals.{
  has_id, fetch_withdrawal, record_payment_request_token_locked, PaymentRequestRecordOutcome,
  recorded, not_accepting, capacity_exceeded, reserved_onchain_withdrawal_sats, reserved_amount,
  u64_max,
}
use shuestand.Http.{fetch_error}
use shuestand.Http.Caps.{locked_solvent}
use shuestand.Http.Site.{Site, Handler, deny_if, denied, served, statement, selected, answered_of}

pub record PaymentPayload : Type 0 where
  pub id : Option String
  pub mint : String
  pub unit : String
  pub proofs : List String

pub record PaymentToken : Type 0 where
  pub encoded : String
  pub amount : ℕ

pub record PaymentAnswers : Type 0 where
  pub balance : Option (Option ℕ)
  pub single_request_cap_ratio : ℕ → ℕ
  pub to_ascii_lowercase : String → String
  pub token_of : PaymentPayload → Option PaymentToken

abbrev pub found : Result Withdrawal → Checked Withdrawal
found (ok w) = pass w
found (err e) = fail (refused_with (fetch_error e))

abbrev pub is_empty : List String → Bool
is_empty [] = true
is_empty (x ∷ xs) = false

abbrev pub mismatch : Option String → Option String → Bool
mismatch none actual = false
mismatch (some expected) none = true
mismatch (some expected) (some actual) = not (str_eq actual expected)

abbrev pub expired : Option ℕ → ℕ → Bool
expired none now = false
expired (some expires_at) now = ltb expires_at now

abbrev pub below : Option ℕ → ℕ → Bool
below none amount = false
below (some expected) amount = ltb amount expected

abbrev pub accepted : PaymentRequestRecordOutcome → Checked (Unit {0})
accepted recorded = pass tt
accepted not_accepting = fail (refused_with conflict)
accepted capacity_exceeded = fail (refused_with service_unavailable)

module _ (x : PaymentAnswers) (now : ℕ) where
  unfoldable pub admissible : Withdrawal → PaymentPayload → Handler (Unit {0})
  admissible w payload = do
    deny_if (not (same w.state funding)) conflict
    deny_if (is_some w.payment_request_fulfilled_at) conflict
    deny_if (is_none w.payment_request_id || is_none w.payment_request_creq) service_unavailable
    deny_if (mismatch w.payment_request_id payload.id) invalid_request
    deny_if (expired w.payment_request_expires_at now) invalid_request
    deny_if (is_empty payload.proofs) invalid_request
    deny_if (not (str_eq (x.to_ascii_lowercase payload.unit) "sat")) invalid_request

  -- The answer is the amount that was accepted.
  unfoldable pub submit_payment_request : String → Option PaymentPayload → Handler ℕ
  submit_payment_request id body = do
    payload ← served body invalid_request
    row ← selected (fetch_withdrawal id)
    w ← lift (found row)
    admissible w payload
    token ← served (x.token_of payload) invalid_request
    wallet ← served x.balance service_unavailable
    raw_onchain ← served wallet server_error
    deny_if (below w.requested_amount_sats token.amount) invalid_request
    outcome ← statement (
        record_payment_request_token_locked x.single_request_cap_ratio id token.encoded token.amount
          raw_onchain now)
    lift (accepted outcome)
    pure token.amount
