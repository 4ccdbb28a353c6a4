-- ===== src/Transactions/Once.antt =====
-- backend/src/transactions.rs: the posts of one withdrawal, over histories of statements.
use shuestand.Prelude.{
  String, ℕ, List, ◌≡◌, ◌≢◌, ◌∷◌, ◌⊎◌, inl, inr, refl, sym, ◌∙◌, ap, subst, Bool, true, false,
}
use shuestand.Failure.{Checked, pass, fail}
use shuestand.Db.Settings.{increment_transaction_counter}
use shuestand.Db.Withdrawals.{mark_withdrawal_transaction_counted}
use shuestand.Db.Statements.{Statement, apply, run, run-keeps}
use shuestand.Db.Counting.{IsCounted, apply-IsCounted, marked-IsCounted, counted_refuses}
use shuestand.Runtime.{World, CounterEvent, call}
use shuestand.Runtime.Laws.{call-SameEffects, call_answered, call-tables}
use shuestand.Transactions.{
  withdrawal_settled, as_str, mark, post, counted, marked, record_transaction, notify,
}

abbrev events : String → ℕ → World → List CounterEvent
events id now s = (notify true withdrawal_settled id now s).1.posts

-- The counter's increment keeps the mark.
counted-IsCounted :
    (id : String) (r : Checked ℕ) (s : World)
    → IsCounted id s.tables
    → IsCounted id (counted withdrawal_settled id r s).1.tables
unfolding counted post
counted-IsCounted id (pass n) s h = h
counted-IsCounted id (fail e) s h = h

incremented-IsCounted :
    (id : String) (s : World)
    → IsCounted id s.tables
    → IsCounted id (marked withdrawal_settled id (pass true) s).1.tables
unfolding marked apply
incremented-IsCounted id s h = counted-IsCounted id _ _ (
    call-tables increment_transaction_counter (IsCounted id) s h
      (apply-IsCounted id Statement.increment_transaction_counter s.tables h))

-- One event more, for this withdrawal.
abbrev pub PostsOne : String → List CounterEvent → List CounterEvent → Type 0
PostsOne id before after =
    (n : ℕ) × (after ≡ record { counter = n; kind = "withdrawal"; entity_id = id } ∷ before)

counted_posts :
    (id : String) (r : Checked ℕ) (s : World)
    → ((counted withdrawal_settled id r s).1.posts ≡ s.posts)
      ⊎ PostsOne id s.posts (counted withdrawal_settled id r s).1.posts
unfolding counted post as_str
counted_posts id (pass n) s = inr (n, refl)
counted_posts id (fail e) s = inl refl

-- No event, or one of a withdrawal that this call marked.
abbrev PostsMarked : String → List CounterEvent → World → Type 0
PostsMarked id before s' =
    (s'.posts ≡ before) ⊎ (PostsOne id before s'.posts × IsCounted id s'.tables)

marked-PostsMarked :
    (id : String) (r : Checked Bool) (s : World)
    → (r ≡ pass true → IsCounted id s.tables)
    → PostsMarked id s.posts (marked withdrawal_settled id r s).1
unfolding marked
marked-PostsMarked id (pass false) s h = inl refl
marked-PostsMarked id (fail e) s h = inl refl
marked-PostsMarked id (pass true) s h =
    let (r, s') = call increment_transaction_counter s in
    let same : s'.posts ≡ s.posts = (call-SameEffects increment_transaction_counter s).posts in
    elim (counted_posts id r s') [
      | inl e ↦ inl (e ∙ same)
      | inr one ↦ inr (
        subst (λ ps. PostsOne id ps (counted withdrawal_settled id r s').1.posts) same one,
        incremented-IsCounted id s (h refl),
      )
    ]

notify-PostsMarked :
    (id : String) (now : ℕ) (s : World)
    → PostsMarked id s.posts (notify true withdrawal_settled id now s).1
unfolding notify record_transaction mark
notify-PostsMarked id now s =
    let st = mark_withdrawal_transaction_counted id now in
    subst (λ ps. PostsMarked id ps (notify true withdrawal_settled id now s).1)
      (call-SameEffects st s).posts
      (marked-PostsMarked id (call st s).0 (call st s).1 (λ e.
        let (done, after) = call_answered st s true e in
        subst (IsCounted id) (sym after)
          (marked-IsCounted id now s.tables _ (ap (λ r. (r, (st s.tables).1)) done))))

-- A call of the mark that finds the row marked answers so, or fails.
refused_posts :
    (id : String) (r : Checked Bool) (s : World)
    → r ≢ pass true
    → (marked withdrawal_settled id r s).1.posts ≡ s.posts
unfolding marked
refused_posts id (pass true) s ne = absurd (ne refl)
refused_posts id (pass false) s ne = refl
refused_posts id (fail e) s ne = refl

counted-events :
    (id : String) (now : ℕ) (s : World) → IsCounted id s.tables → events id now s ≡ s.posts
unfolding notify record_transaction mark
counted-events id now s h =
    let st = mark_withdrawal_transaction_counted id now in
    refused_posts id (call st s).0 (call st s).1
      (λ e. cc ((call_answered st s true e).0, ap (λ r. r.0) (counted_refuses id now s.tables h)))
    ∙ (call-SameEffects st s).posts

-- Settling a withdrawal posts no counter event, or exactly one, for this withdrawal; and after one,
-- whatever statements run, and however the calls of the database go, settling it again posts none.
pub post_once :
    (id : String) (now : ℕ) (s : World) (history : List Statement) (later : ℕ) (u : World)
    → u.tables ≡ run history (notify true withdrawal_settled id now s).1.tables
    → ((notify true withdrawal_settled id now s).1.posts ≡ s.posts)
      ⊎ (PostsOne id s.posts (notify true withdrawal_settled id now s).1.posts
          × ((notify true withdrawal_settled id later u).1.posts ≡ u.posts))
post_once id now s history later u after = elim (notify-PostsMarked id now s) [
  | inl none_posted ↦ inl none_posted
  | inr (one, done) ↦ inr (
    one,
    counted-events id later u (
        subst (IsCounted id) (sym after)
          (run-keeps (IsCounted id) (apply-IsCounted id) history _ done)),
  )
]
