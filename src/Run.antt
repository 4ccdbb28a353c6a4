-- ===== src/Run.antt =====
-- Actions on a state that answer or fail, for the parts of the backend that keep no database: the
-- swap of backend/src/wallet/swap.rs and the tool of backend/src/bin/m5_recover.rs.
pub mod Holds
use shuestand.Prelude.{Option, none, some}
use shuestand.Failure.{Failure, Checked, pass, fail}

abbrev pub Run : Type 0 → Type 0 → Type 0
Run S A = S → Checked A × S

module _ {S A : Type 0} where
  unfoldable pub pure : A → Run S A
  pure a s = (pass a, s)

  unfoldable pub raise : Failure → Run S A
  raise e s = (fail e, s)

  unfoldable pub lift : Checked A → Run S A
  lift r s = (r, s)

-- `ok_or` and `?`, or the error of a call.
abbrev pub checked_or : {A : Type 0} → Option A → Failure → Checked A
checked_or none e = fail e
checked_or (some a) e = pass a

-- An action after another's answer.
abbrev pub continue : {S A B : Type 0} → (A → Run S B) → Checked A → Run S B
continue f (pass a) s = f a s
continue f (fail e) s = (fail e, s)

-- Opening this opens `pure`, `raise` and `lift` too.
infixl 5 ◌>>=◌ ◌>>◌
unfoldable pub ◌>>=◌ : {S A B : Type 0} → Run S A → (A → Run S B) → Run S B
unfolding pure raise lift
◌>>=◌ m f s = let (r, s') = m s in continue f r s'

abbrev pub ◌>>◌ : {S A B : Type 0} → Run S A → Run S B → Run S B
m >> k = m >>= λ _. k
