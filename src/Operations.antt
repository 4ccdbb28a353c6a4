-- ===== src/Operations.antt =====
-- backend/src/operations.rs: the operation mode and its text.
use shuestand.Prelude.{String, ◌≡◌, refl, Option, none, some, str_eq, if◌then◌else◌}

pub data OperationMode : Type 0 where
  normal drain halt : OperationMode

unfoldable pub as_str : OperationMode → String
as_str normal = "normal"
as_str drain = "drain"
as_str halt = "halt"

-- `from_str`; `none` is its error "invalid operation mode".
unfoldable pub from_str : String → Option OperationMode
from_str s =
    if str_eq s "normal"
    then some normal
    else if str_eq s "drain"
    then some drain
    else if str_eq s "halt"
    then some halt
    else none

pub from_str-as_str : (m : OperationMode) → from_str (as_str m) ≡ some m
unfolding as_str from_str
from_str-as_str normal = refl
from_str-as_str drain = refl
from_str-as_str halt = refl
