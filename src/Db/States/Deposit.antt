-- ===== src/Db/States/Deposit.antt =====
-- backend/src/db.rs: `DepositState`, its text in the state column, and `PartialEq`.
use shuestand.Prelude.{
  String, ◌≡◌, ◌↔◌, refl, Option, none, some, Bool, true, false, str_eq, if◌then◌else◌, List, [],
  ◌∷◌, arith,
}

pub data DepositState : Type 0 where
  pending partial_payment_received confirming minting delivering ready : DepositState
  fulfilled failed archived_by_operator : DepositState

unfoldable pub as_str : DepositState → String
as_str pending = "pending"
as_str partial_payment_received = "partial_payment_received"
as_str confirming = "confirming"
as_str minting = "minting"
as_str delivering = "delivering"
as_str ready = "ready"
as_str fulfilled = "fulfilled"
as_str failed = "failed"
as_str archived_by_operator = "archived_by_operator"

-- `none` is the error "unknown deposit state".
unfoldable pub try_from : String → Option DepositState
try_from value =
    if str_eq value "pending"
    then some pending
    else if str_eq value "partial_payment_received"
    then some partial_payment_received
    else if str_eq value "confirming"
    then some confirming
    else if str_eq value "minting"
    then some minting
    else if str_eq value "delivering"
    then some delivering
    else if str_eq value "ready"
    then some ready
    else if str_eq value "fulfilled"
    then some fulfilled
    else if str_eq value "failed"
    then some failed
    else if str_eq value "archived_by_operator"
    then some archived_by_operator
    else none

-- The text of every deposit state is read back as that state.
pub deposit_try_from-as_str : (s : DepositState) → try_from (as_str s) ≡ some s
unfolding as_str try_from
deposit_try_from-as_str pending = refl
deposit_try_from-as_str _ = refl

-- The derived `==`.
abbrev pub same : DepositState → DepositState → Bool
same pending pending = true
same partial_payment_received partial_payment_received = true
same confirming confirming = true
same minting minting = true
same delivering delivering = true
same ready ready = true
same fulfilled fulfilled = true
same failed failed = true
same archived_by_operator archived_by_operator = true
same _ _ = false

pub same_iff : (s t : DepositState) → (same s t ≡ true) ↔ (s ≡ t)
same_iff s t = ground arith

-- `state IN (…)`, and `states.iter().any(|target| *target == state)`.
unfoldable pub one_of : List DepositState → DepositState → Bool
one_of [] s = false
one_of (t ∷ ts) s = if same t s then true else one_of ts s
