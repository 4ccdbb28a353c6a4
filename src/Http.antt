-- ===== src/Http.antt =====
-- backend/src/http.rs: the handlers of the HTTP interface, by what they guard.
pub mod Caps
pub mod Operator
pub mod Sessions
pub mod Site
pub mod Escalation
pub mod Bursts
pub mod Deposits
pub mod Withdrawals
pub mod Payments
pub mod Ledger
pub mod Client
pub mod Codes
pub mod Access
pub mod Start
pub mod Stats
pub mod Pickup
use shuestand.Db.Tables.{DbError, row_not_found}
pub use shuestand.Failure.{
  ApiError, unauthorized, not_found, invalid_request, server_error, too_many_requests, conflict,
  service_unavailable,
}

pub data ApiResult (A : Type 0) : Type 0 where
  answer : A → ApiResult A
  refusal : ApiError → ApiResult A

-- A row that is not there is a 404, and any other error of the database a 500.
abbrev pub fetch_error : DbError → ApiError
fetch_error row_not_found = not_found
fetch_error _ = server_error
