-- ===== src/Tracker/Settlement.antt =====
-- backend/src/main.rs, `process_withdrawal_settlements`: what settles a broadcast withdrawal.
use shuestand.Prelude.{
  String, ℕ, ◌≡◌, ◌≢◌, refl, ◌∙◌, Option, none, some, List, [], ◌∷◌, Bool, ◌==◌, ◌&&◌, ◌≤◌, inl,
  inr, arith, Bool-cases, count_where, update_where,
}
use shuestand.Failure.{external}
use shuestand.Db.Tables.{Withdrawal, Tables, Result}
use shuestand.Db.States.Withdrawal.{broadcasting, confirming, settled, same}
use shuestand.Db.Withdrawals.{list_withdrawals_by_state, update_withdrawal_chain_state, has_id}
use shuestand.Runtime.{World, CounterEvent, call, query}
use shuestand.Runtime.Laws.{call-SameEffects, call-tables}
use shuestand.Runtime.Meets.{Meets, Meets-pure, Meets-if, Meets-bind, Meets-or_raise, Any}
use shuestand.Tracker.{
  TxStatus, pending, confirmed, WalletStatus, settle, follow, follow_all,
  process_withdrawal_settlements,
}

-- A settled row with this id.
abbrev pub is_settled : String → Withdrawal → Bool
is_settled id w = has_id id w && same w.state settled

-- Of each id, at most as many rows are settled as in the tables before.
abbrev NoMore : Tables → Tables → Type 0
NoMore t t' =
    (id : String)
    → count_where (is_settled id) t'.withdrawals ≤ count_where (is_settled id) t.withdrawals

-- No more rows are settled, and these are the posts.
abbrev Unsettled : Tables → List CounterEvent → World → Type 0
Unsettled t ps s = (s.posts ≡ ps) × NoMore t s.tables

unsettled_count :
    (id : String) (now : ℕ) (key : String) (ws : List Withdrawal)
    → count_where
        (is_settled key)
        (update_where (has_id id) (λ w. record w { state = confirming; updated_at = now }) ws)
      ≤ count_where (is_settled key) ws
unfolding count_where update_where
unsettled_count id now key [] = omega arith
unsettled_count id now key (w ∷ ws) = ground (arith, unsettled_count id now key ws)

confirming-NoMore :
    (id : String) (now : ℕ) (t : Tables)
    → NoMore t (update_withdrawal_chain_state id confirming now t).1
unfolding update_withdrawal_chain_state
confirming-NoMore id now t key = elim (Bool-cases (count_where (has_id id) t.withdrawals == 0)) [
  | inl z ↦ rw z (omega arith)
  | inr z ↦ rw z (unsettled_count id now key t.withdrawals)
]

module _ (t : Tables) (ps : List CounterEvent) where
  Meets-confirming :
      (id : String) (now : ℕ)
      → Meets (Unsettled t ps) Any (call (update_withdrawal_chain_state id confirming now))
  Meets-confirming id now = record {
    keeps = λ s h. (
      (call-SameEffects (update_withdrawal_chain_state id confirming now) s).posts ∙ h.0,
      call-tables (update_withdrawal_chain_state id confirming now) (NoMore t) s h.1
          (λ key. omega (arith, confirming-NoMore id now s.tables key, h.1 key)),
    );
    answers = λ s h a e. tt;
  }

  Meets-query : {A : Type 0} (f : Tables → A) → Meets (Unsettled t ps) Any (query f)
  unfolding query
  Meets-query f = record {
    keeps = λ s h. (
      (call-SameEffects (λ t. (Result.ok (f t), t)) s).posts ∙ h.0,
      call-tables (λ u. (Result.ok (f u), u)) (NoMore t) s h.1 h.1,
    );
    answers = λ s h a e. tt;
  }

  module _ (status : WalletStatus)
      (unconfirmed : (txid : String) → status txid ≢ some (some confirmed)) (notifies : Bool)
      (now : ℕ) where
    Meets-settle :
        (w : Withdrawal) (answer : Option TxStatus)
        → answer ≢ some confirmed
        → Meets (Unsettled t ps) Any (settle notifies now w answer)
    unfolding settle
    Meets-settle w none ne = Meets-pure tt tt
    Meets-settle w (some pending) ne =
        Meets-if (same w.state broadcasting) _ _ (λ _. Meets-confirming w.id now)
          (λ _. Meets-pure tt tt)
    Meets-settle w (some confirmed) ne = absurd (ne refl)

    Meets-follow :
        (w : Withdrawal) (txid : Option String)
        → Meets (Unsettled t ps) Any (follow status notifies now w txid)
    unfolding follow
    Meets-follow w none = Meets-pure tt tt
    Meets-follow w (some txid) =
        Meets-bind (λ answer. answer ≢ some confirmed) _ _
          (Meets-or_raise (status txid) external (λ answer e same. unconfirmed txid (rw same at e)))
          (λ answer ne. Meets-settle w answer ne)

    Meets-follow_all :
        (ws : List Withdrawal) → Meets (Unsettled t ps) Any (follow_all status notifies now ws)
    unfolding follow_all
    Meets-follow_all [] = Meets-pure tt tt
    Meets-follow_all (w ∷ ws) =
        Meets-bind Any _ _ (Meets-follow w w.txid) (λ _ _. Meets-follow_all ws)

-- While the wallet confirms no transaction, a pass of the tracker settles no withdrawal, so that of
-- each id at most as many rows are settled after it as before, and posts no counter event, however
-- the calls of the database go.
pub unconfirmed_settles_none :
    (status : WalletStatus) (notifies : Bool) (now : ℕ) (s : World) (id : String)
    → ((txid : String) → status txid ≢ some (some confirmed))
    → let after = (process_withdrawal_settlements status notifies now s).1 in
      (after.posts ≡ s.posts)
      × (count_where (is_settled id) after.tables.withdrawals
          ≤ count_where (is_settled id) s.tables.withdrawals)
unfolding process_withdrawal_settlements
unconfirmed_settles_none status notifies now s id unconfirmed =
    let (posts, no_more) =
      (Meets-bind Any _ _
          (Meets-query s.tables s.posts
            (list_withdrawals_by_state (broadcasting ∷ confirming ∷ [])))
          (λ ws _. Meets-follow_all s.tables s.posts status unconfirmed notifies now ws)).keeps
        s (refl, λ key. omega arith) in
    (posts, no_more id)
