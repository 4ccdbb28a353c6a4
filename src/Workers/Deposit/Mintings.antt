-- ===== src/Workers/Deposit/Mintings.antt =====
-- backend/src/workers/deposit.rs, `tick`: what one pass asks of the mint.
use shuestand.Prelude.{
  String, ℕ, ◌≡◌, refl, ◌∙◌, subst, sym, Option, none, some, List, [], ◌∷◌, inl, inr,
}
use shuestand.Failure.{Checked, pass, fail}
use shuestand.Runtime.{World, Externals, MintedToken, call, query, continue, ◌>>=◌, ◌>>◌}
use shuestand.Runtime.Laws.{call-SameEffects, query-SameEffects, query_cases}
use shuestand.Runtime.Meets.{Meets, Meets-pure, Meets-bind, Any}
use shuestand.Db.Tables.{Deposit, Tables, Result}
use shuestand.Db.States.Deposit.{minting, delivering}
use shuestand.Db.Deposits.{list_deposits_by_state}
use shuestand.Workers.Deposit.{
  mint_token, finish_mint, process_minting, process_all_minting, deliver, process_all_delivering,
  tick,
}

-- What was asked of the mint: one token for each row of a prefix, in their order, of its amount.
pub data MintsEach : List Deposit → List ℕ → List ℕ → Type 0 where
  stop : {ds : List Deposit} {ms : List ℕ} → MintsEach ds ms ms
  next :
      {d : Deposit} {ds : List Deposit} {ms ns : List ℕ}
      → MintsEach ds (d.amount_sats ∷ ms) ns
      → MintsEach (d ∷ ds) ms ns

MintsEach-from :
    (ds : List Deposit) (ms ks ns : List ℕ) → ms ≡ ks → MintsEach ds ms ns → MintsEach ds ks ns
MintsEach-from ds ms ks ns same each = subst (λ js. MintsEach ds js ns) same each

abbrev Asked : List ℕ → World → Type 0
Asked ms s = s.mintings ≡ ms

module _ (ms : List ℕ) where
  Meets-call : {A : Type 0} (st : Tables → Result A × Tables) → Meets (Asked ms) Any (call st)
  Meets-call st = record {
    keeps = λ s h. (call-SameEffects st s).mintings ∙ h;
    answers = λ s h a e. tt;
  }

  Meets-deliver :
      (max_attempts now : ℕ) (d : Deposit) (token : Option String)
      → Meets (Asked ms) Any (deliver max_attempts now d token)
  unfolding deliver
  Meets-deliver max_attempts now d none = Meets-call _
  Meets-deliver max_attempts now d (some token) = Meets-call _

  Meets-delivering :
      (max_attempts now : ℕ) (ds : List Deposit)
      → Meets (Asked ms) Any (process_all_delivering max_attempts now ds)
  unfolding process_all_delivering
  Meets-delivering max_attempts now [] = Meets-pure tt tt
  Meets-delivering max_attempts now (d ∷ ds) =
      Meets-bind Any _ _ (Meets-deliver max_attempts now d d.minted_token)
        (λ _ _. Meets-delivering max_attempts now ds)

  Meets-second_half :
      (max_attempts now : ℕ)
      → Meets (Asked ms) Any (
          query (list_deposits_by_state (delivering ∷ [])) >>= λ rows.
          process_all_delivering max_attempts now rows)
  unfolding query
  Meets-second_half max_attempts now =
      Meets-bind Any _ _ (Meets-call _) (λ rows _. Meets-delivering max_attempts now rows)

module _ (x : Externals) (max_attempts now : ℕ) where
  finish-mintings :
      (d : Deposit) (r : Checked MintedToken) (s : World)
      → (finish_mint x max_attempts now d r s).1.mintings ≡ s.mintings
  unfolding finish_mint
  finish-mintings d (pass m) s = (call-SameEffects _ s).mintings
  finish-mintings d (fail e) s = (call-SameEffects _ s).mintings

  process-mintings :
      (d : Deposit) (s : World)
      → (process_minting x max_attempts now d s).1.mintings ≡ d.amount_sats ∷ s.mintings
  unfolding process_minting mint_token
  process-mintings d s = finish-mintings d _ _

  process_all-MintsEach :
      (ds : List Deposit) (s : World)
      → MintsEach ds s.mintings (process_all_minting x max_attempts now ds s).1.mintings
  unfolding process_all_minting ◌>>=◌
  process_all-MintsEach [] s = stop
  process_all-MintsEach (d ∷ ds) s =
      go (process_minting x max_attempts now d s) (process-mintings d s) (process_all-MintsEach ds)
    where
      go :
          (m : Checked (Unit {0}) × World)
          → m.1.mintings ≡ d.amount_sats ∷ s.mintings
          → ((s' : World)
              → MintsEach ds s'.mintings (process_all_minting x max_attempts now ds s').1.mintings)
          → MintsEach
              (d ∷ ds)
              s.mintings
              (continue (λ _. process_all_minting x max_attempts now ds) m.0 m.1).1.mintings
      go (pass u, s') asked rest = next (MintsEach-from ds _ _ _ asked (rest s'))
      go (fail e, s') asked rest = next (MintsEach-from ds _ _ _ asked stop)

  both_halves :
      (ds : List Deposit) (s : World)
      → MintsEach ds s.mintings
          ((process_all_minting x max_attempts now ds
              >> (query (list_deposits_by_state (delivering ∷ [])) >>= λ rows.
                  process_all_delivering max_attempts now rows))
            s).1.mintings
  unfolding ◌>>=◌
  both_halves ds s = go (process_all_minting x max_attempts now ds s) (process_all-MintsEach ds s)
    where
      go :
          (m : Checked (Unit {0}) × World)
          → MintsEach ds s.mintings m.1.mintings
          → MintsEach ds s.mintings
              (continue
                (λ _. query (list_deposits_by_state (delivering ∷ [])) >>= λ rows.
                  process_all_delivering max_attempts now rows)
                m.0
                m.1).1.mintings
      go (pass u, s') each =
          subst (λ ms. MintsEach ds s.mintings ms)
            (sym ((Meets-second_half s'.mintings max_attempts now).keeps s' refl)) each
      go (fail e, s') each = each

-- Whatever the mint and the database answer, one pass of the deposit worker asks the mint at most
-- once for each row that was minting when it began, in their order, and for exactly its amount.
pub tick-MintsEach :
    (x : Externals) (max_attempts now : ℕ) (s : World)
    → MintsEach
        (list_deposits_by_state (minting ∷ []) s.tables)
        s.mintings
        (tick x max_attempts now s).1.mintings
unfolding tick ◌>>=◌
tick-MintsEach x max_attempts now s =
    let rows = list_deposits_by_state (minting ∷ []) s.tables in
    let s' = (query (list_deposits_by_state (minting ∷ [])) s).1 in
    let same_mintings : s'.mintings ≡ s.mintings =
      (query-SameEffects (list_deposits_by_state (minting ∷ [])) s).mintings in
    elim (query_cases (list_deposits_by_state (minting ∷ [])) s) [
      | inl read ↦
          rw (read, continue)
            (MintsEach-from rows _ _ _ same_mintings (both_halves x max_attempts now rows s'))
      | inr (e, lost) ↦
          rw (lost, continue) (subst (λ ms. MintsEach rows s.mintings ms) (sym same_mintings) stop)
    ]
