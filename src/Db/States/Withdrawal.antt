-- ===== src/Db/States/Withdrawal.antt =====
-- backend/src/db.rs: `WithdrawalState`, its text in the state column, and `PartialEq`.
use shuestand.Prelude.{
  String, ◌≡◌, ◌↔◌, refl, Option, none, some, Bool, true, false, str_eq, if◌then◌else◌, List, [],
  ◌∷◌, arith,
}

pub data WithdrawalState : Type 0 where
  funding queued broadcasting confirming settled failed archived_by_operator : WithdrawalState

unfoldable pub as_str : WithdrawalState → String
as_str funding = "funding"
as_str queued = "queued"
as_str broadcasting = "broadcasting"
as_str confirming = "confirming"
as_str settled = "settled"
as_str failed = "failed"
as_str archived_by_operator = "archived_by_operator"

-- `none` is the error "unknown withdrawal state".
unfoldable pub try_from : String → Option WithdrawalState
try_from value =
    if str_eq value "funding"
    then some funding
    else if str_eq value "queued"
    then some queued
    else if str_eq value "broadcasting"
    then some broadcasting
    else if str_eq value "confirming"
    then some confirming
    else if str_eq value "settled"
    then some settled
    else if str_eq value "failed"
    then some failed
    else if str_eq value "archived_by_operator"
    then some archived_by_operator
    else none

-- The text of every withdrawal state is read back as that state.
pub withdrawal_try_from-as_str : (s : WithdrawalState) → try_from (as_str s) ≡ some s
unfolding as_str try_from
withdrawal_try_from-as_str funding = refl
withdrawal_try_from-as_str _ = refl

-- The derived `==`.
abbrev pub same : WithdrawalState → WithdrawalState → Bool
same funding funding = true
same queued queued = true
same broadcasting broadcasting = true
same confirming confirming = true
same settled settled = true
same failed failed = true
same archived_by_operator archived_by_operator = true
same _ _ = false

pub same_iff : (s t : WithdrawalState) → (same s t ≡ true) ↔ (s ≡ t)
same_iff s t = ground arith

-- `state IN (…)`, and `states.iter().any(|target| *target == state)`.
unfoldable pub one_of : List WithdrawalState → WithdrawalState → Bool
one_of [] s = false
one_of (t ∷ ts) s = if same t s then true else one_of ts s
