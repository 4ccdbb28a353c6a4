-- ===== src/Runtime.antt =====
-- What the workers of the backend act on: the database, which a call may fail to reach, and the
-- effects outside it, each kept as a log. The mints, wallets and webhooks are not under
-- backend/src; a record of functions answers for them, each from the log of the calls so far.
pub mod Laws
pub mod Meets
use shuestand.Prelude.{String, ℕ, Option, none, some, List, [], ◌∷◌, Bool}
use shuestand.Failure.{Failure, Checked, pass, fail, external, database}
use shuestand.Db.Tables.{Tables, Result, ok, err, DbError, unavailable}

-- How one call of the database goes: the server answers, or the call fails before the server acts,
-- or the answer is lost after it.
pub data Link : Type 0 where
  up down reply_lost : Link

pub record Payout : Type 0 where
  pub address : String
  pub amount_sats : ℕ

-- A POST of the transaction counter to the operator's webhook.
pub record CounterEvent : Type 0 where
  pub counter : ℕ
  pub kind : String
  pub entity_id : String

-- `links` is how the calls to come will go; once it is used up they are answered. Logs hold their
-- newest entry first: tokens redeemed, amounts asked of the mint, quotes minted, on-chain payments,
-- POSTs. `quote_checks` counts the calls that read a quote.
pub record World : Type 0 where
  pub tables : Tables
  pub links : List Link
  pub redemptions : List String
  pub mintings : List ℕ
  pub quote_checks : ℕ
  pub issued : List String
  pub payouts : List Payout
  pub posts : List CounterEvent

pub record Redeemed : Type 0 where
  pub amount_sats : ℕ
  pub swap_fee_sats : Option ℕ

pub record MintedToken : Type 0 where
  pub amount_sats : ℕ
  pub token : String

pub data QuoteState : Type 0 where
  unpaid paid issued : QuoteState

-- A mint quote, as the wallet reports it.
pub record Quote : Type 0 where
  pub state : QuoteState
  pub amount_issued : ℕ
  pub amount_paid : ℕ

-- `none` is an error, and so is `false`. `describe` is the text of an error. A payment that is
-- answered by `none` was not broadcast.
pub record Externals : Type 0 where
  pub redeem : List String → String → Option Redeemed
  pub mint_token : List ℕ → ℕ → Option MintedToken
  pub check_quote : ℕ → List String → String → Option Quote
  pub mint_quote : List String → String → Bool
  pub describe : Failure → String
  pub send_to_address : List Payout → Payout → Option String

abbrev pub Exec : Type 0 → Type 0
Exec A = World → Checked A × World

module _ {A : Type 0} where
  unfoldable pub pure : A → Exec A
  pure a w = (pass a, w)

  unfoldable pub raise : Failure → Exec A
  raise e w = (fail e, w)

  unfoldable pub lift : Checked A → Exec A
  lift r w = (r, w)

  unfoldable pub or_raise : Option A → Failure → Exec A
  unfolding pure raise
  or_raise none e = raise e
  or_raise (some a) e = pure a

-- An action after another's answer.
abbrev pub continue : {A B : Type 0} → (A → Exec B) → Checked A → Exec B
continue f (pass a) w = f a w
continue f (fail e) w = (fail e, w)

-- Opening this opens `pure`, `raise`, `lift` and `or_raise` too.
infixl 5 ◌>>=◌ ◌>>◌
unfoldable pub ◌>>=◌ : {A B : Type 0} → Exec A → (A → Exec B) → Exec B
unfolding pure raise lift or_raise
◌>>=◌ m f w = let (r, w') = m w in continue f r w'

abbrev pub ◌>>◌ : {A B : Type 0} → Exec A → Exec B → Exec B
m >> k = m >>= λ _. k

-- The server's answer, as the caller sees it.
abbrev pub reply : {A : Type 0} → Result A → Checked A
reply (ok a) = pass a
reply (err e) = fail (database e)

abbrev pub through : {A : Type 0} → Link → List Link → (Tables → Result A × Tables) → Exec A
through up rest st w = let (r, t) = st w.tables in (reply r, record w { tables = t; links = rest })
through down rest st w = (fail (database unavailable), record w { links = rest })
through reply_lost rest st w =
    let (r, t) = st w.tables in (fail (database unavailable), record w { tables = t; links = rest })

-- One call of the database.
unfoldable pub call : {A : Type 0} → (Tables → Result A × Tables) → Exec A
call st w = elim w.links [ [] ↦ through up [] st w | l ∷ rest ↦ through l rest st w ]

-- A SELECT.
unfoldable pub query : {A : Type 0} → (Tables → A) → Exec A
query f = call (λ t. (ok (f t), t))
