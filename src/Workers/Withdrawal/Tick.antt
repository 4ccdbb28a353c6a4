-- ===== src/Workers/Withdrawal/Tick.antt =====
-- backend/src/workers/withdrawal.rs, `tick`: the payments of one pass over the queue.
use shuestand.Prelude.{
  String, ℕ, ◌≡◌, inl, inr, refl, List, [], ◌∷◌, ◌++◌, Bool, ◌∙◌, ap, subst, sym, ◌≤◌, ◌+◌, arith,
  length,
}
use shuestand.Failure.{Checked, pass, fail}
use shuestand.Runtime.{World, Externals, Payout, query, continue, ◌>>=◌}
use shuestand.Runtime.Laws.{query-SameEffects, query_cases}
use shuestand.Runtime.Meets.{Meets, Meets-pure, Meets-if, Meets-bind, Any}
use shuestand.Transactions.{TransactionKind, withdrawal_settled, notify}
use shuestand.Transactions.Laws.{notify-payouts}
use shuestand.Db.Tables.{Withdrawal}
use shuestand.Db.States.Withdrawal.{queued, settled, same}
use shuestand.Db.Withdrawals.{list_withdrawals_by_state}
use shuestand.Workers.Withdrawal.{
  WithdrawalOutcome, execute_onchain, finish, process, process_all, tick_queued,
}
use shuestand.Workers.Withdrawal.Payouts.{Paid, Meets-call, PaysOnce, execute_onchain-PaysOnce}

-- Payments made for some of the rows, in their order, each owed to its row and one for a row.
pub data PaysEach : List Withdrawal → List Payout → List Payout → Type 0 where
  stop : {ws : List Withdrawal} {ps : List Payout} → PaysEach ws ps ps
  next :
      {w : Withdrawal} {ws : List Withdrawal} {ps qs rs : List Payout}
      → PaysOnce w ps qs
      → PaysEach ws qs rs
      → PaysEach (w ∷ ws) ps rs

pub PaysEach-length :
    (ws : List Withdrawal) (ps qs : List Payout)
    → PaysEach ws ps qs
    → length qs ≤ length ps + length ws
PaysEach-length ws ps qs stop = omega arith
PaysEach-length (w ∷ ws) ps qs (next {qs = rs} (inl same) rest) =
    omega (arith, PaysEach-length ws rs qs rest, ap length same)
PaysEach-length (w ∷ ws) ps qs (next {qs = rs} (inr (p, owed, one)) rest) =
    omega (arith, PaysEach-length ws rs qs rest, ap length one)

append_one :
    (more : List Payout) (p : Payout) (ps : List Payout) → more ++ p ∷ ps ≡ (more ++ p ∷ []) ++ ps
append_one [] p ps = refl
append_one (q ∷ more) p ps = ap (λ u. q ∷ u) (append_one more p ps)

-- Payments are only added.
pub PaysEach-grows :
    (ws : List Withdrawal) (ps qs : List Payout)
    → PaysEach ws ps qs
    → (more : List Payout) × (qs ≡ more ++ ps)
PaysEach-grows ws ps qs stop = ([], refl)
PaysEach-grows (w ∷ ws) ps qs (next {qs = rs} (inl same) rest) =
    let (more, e) = PaysEach-grows ws rs qs rest in (more, e ∙ ap (λ u. more ++ u) same)
PaysEach-grows (w ∷ ws) ps qs (next {qs = rs} (inr (p, owed, one)) rest) =
    let (more, e) = PaysEach-grows ws rs qs rest in
    (more ++ p ∷ [], e ∙ ap (λ u. more ++ u) one ∙ append_one more p ps)

module _ (ps : List Payout) where
  Meets-notify :
      (notifies : Bool) (kind : TransactionKind) (id : String) (now : ℕ)
      → Meets (Paid ps) Any (notify notifies kind id now)
  Meets-notify notifies kind id now = record {
    keeps = λ s h. notify-payouts notifies kind id now s ∙ h;
    answers = λ s h a e. tt;
  }

  pub Meets-finish :
      (x : Externals) (notifies : Bool) (max_attempts now : ℕ) (w : Withdrawal)
      (r : Checked WithdrawalOutcome)
      → Meets (Paid ps) Any (finish x notifies max_attempts now w r)
  unfolding finish
  Meets-finish x notifies max_attempts now w (pass o) = Meets-bind Any _ _ (Meets-call ps _) λ u _.
      Meets-if (same o.next_state settled) _ _
        (λ _. Meets-notify notifies withdrawal_settled w.id now) (λ _. Meets-pure tt tt)
  Meets-finish x notifies max_attempts now w (fail e) = Meets-call ps _

module _ (x : Externals) (notifies : Bool) (max_attempts now : ℕ) where
  process-PaysOnce :
      (w : Withdrawal) (s : World)
      → PaysOnce w s.payouts
          (process x (execute_onchain x now) notifies max_attempts now w s).1.payouts
  unfolding process
  process-PaysOnce w s =
      let (r, s') = execute_onchain x now w s in
      subst (PaysOnce w s.payouts)
        (sym ((Meets-finish s'.payouts x notifies max_attempts now w r).keeps s' refl))
        (execute_onchain-PaysOnce x now w s)

  pub process_all-PaysEach :
      (ws : List Withdrawal) (s : World)
      → PaysEach ws s.payouts
          (process_all x (execute_onchain x now) notifies max_attempts now ws s).1.payouts
  unfolding process_all ◌>>=◌
  process_all-PaysEach [] s = stop
  process_all-PaysEach (w ∷ ws) s =
      go (process x (execute_onchain x now) notifies max_attempts now w s) (process-PaysOnce w s)
        (process_all-PaysEach ws)
    where
      go :
          (m : Checked (Unit {0}) × World)
          → PaysOnce w s.payouts m.1.payouts
          → ((s' : World)
              → PaysEach ws s'.payouts
                  (process_all x (execute_onchain x now) notifies max_attempts now ws s').1.payouts)
          → PaysEach
              (w ∷ ws)
              s.payouts
              (continue
                (λ _. process_all x (execute_onchain x now) notifies max_attempts now ws)
                m.0
                m.1).1.payouts
      go (pass u, s') one rest = next one (rest s')
      go (fail e, s') one rest = next one stop

-- Whatever the mint, the wallet and the database answer, one pass over the queue pays at most once
-- for each row that was queued when it began, in their order, and each payment is owed to its row.
pub tick_queued-PaysEach :
    (x : Externals) (notifies : Bool) (max_attempts now : ℕ) (s : World)
    → PaysEach
        (list_withdrawals_by_state (queued ∷ []) s.tables)
        s.payouts
        (tick_queued x (execute_onchain x now) notifies max_attempts now s).1.payouts
unfolding tick_queued ◌>>=◌
tick_queued-PaysEach x notifies max_attempts now s =
    let rows = list_withdrawals_by_state (queued ∷ []) s.tables in
    let s' = (query (list_withdrawals_by_state (queued ∷ [])) s).1 in
    let same_payouts : s'.payouts ≡ s.payouts =
      (query-SameEffects (list_withdrawals_by_state (queued ∷ [])) s).payouts in
    elim (query_cases (list_withdrawals_by_state (queued ∷ [])) s) [
      | inl read ↦
          rw (read, continue)
            (subst
              (λ ps.
                PaysEach rows ps
                  (process_all x (execute_onchain x now) notifies max_attempts now rows
                    s').1.payouts)
              same_payouts (process_all-PaysEach x notifies max_attempts now rows s'))
      | inr (e, lost) ↦
          rw (lost, continue) (subst (λ ps. PaysEach rows s.payouts ps) (sym same_payouts) stop)
    ]
