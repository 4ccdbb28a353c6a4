-- ===== src/Db/Withdrawals/Closed.antt =====
-- backend/src/db.rs, the withdrawals table: rows that are closed to some statements for good.
use shuestand.Prelude.{
  ◌≢◌, String, ◌≡◌, ◌∙◌, ap, List, Bool, true, false, ◌==◌, inl, inr, arith, exists_row,
  update_where, count_where, Bool-cases, All, All-update_where, All-append, exists_row-update_where,
  exists_row-append, exists_row-count_where, update_where-All, eq_iff, str_eq,
}
use shuestand.Db.Tables.{Tables, Withdrawal, ok}
use shuestand.Db.Withdrawals.{update_or_missing, has_id, inserted, insert_withdrawal}

-- The withdrawal is there, and no row of it is open.
abbrev pub Closed : (Withdrawal → Bool) → String → Tables → Type 0
Closed is_open id t =
    (exists_row (has_id id) t.withdrawals ≡ true) × All (λ w. is_open w ≡ false) t.withdrawals

module _ (is_open : Withdrawal → Bool) (id : String) where
  pub update-Closed :
      (p : Withdrawal → Bool) (f : Withdrawal → Withdrawal) (t : Tables)
      → ((w : Withdrawal) → (f w).id ≡ w.id)
      → ((w : Withdrawal) → is_open w ≡ false → is_open (f w) ≡ false)
      → Closed is_open id t
      → Closed is_open id (record t { withdrawals = update_where p f t.withdrawals })
  update-Closed p f t same_id closed h = (
    exists_row-update_where (has_id id) p f t.withdrawals (λ w. rw (same_id w)) ∙ h.0,
    All-update_where _ p f t.withdrawals (λ w _. closed w) h.1,
  )

  pub update_or_missing-Closed :
      (p : Withdrawal → Bool) (f : Withdrawal → Withdrawal) (t : Tables)
      → ((w : Withdrawal) → (f w).id ≡ w.id)
      → ((w : Withdrawal) → is_open w ≡ false → is_open (f w) ≡ false)
      → Closed is_open id t
      → Closed is_open id (update_or_missing p f t).1
  update_or_missing-Closed p f t same_id closed h =
      elim (Bool-cases (count_where p t.withdrawals == 0)) [
        | inl none_there ↦ rw none_there h
        | inr some_there ↦ rw some_there (update-Closed p f t same_id closed h)
      ]

  -- A row under the key of another that is there is not inserted.
  insert_other :
      (w : Withdrawal) (t : Tables)
      → Closed is_open id t
      → exists_row (has_id w.id) t.withdrawals ≡ false
      → str_eq w.id id ≡ false
  insert_other w t h new = elim (Bool-cases (str_eq w.id id)) [
    | inl e ↦ cc (new, h.0, ap (λ i. exists_row (has_id i) t.withdrawals) ((eq_iff w.id id).0 e))
    | inr e ↦ e
  ]

  -- Rows of other withdrawals are not open.
  pub insert-Closed :
      (w : Withdrawal) (t : Tables)
      → (str_eq w.id id ≡ false → is_open (inserted w) ≡ false)
      → Closed is_open id t
      → Closed is_open id (insert_withdrawal w t).1
  unfolding insert_withdrawal
  insert-Closed w t other h = elim (Bool-cases (exists_row (has_id w.id) t.withdrawals)) [
    | inl old ↦ rw old h
    | inr new ↦ rw new (
      exists_row-append (has_id id) t.withdrawals _ h.0,
      All-append _ t.withdrawals _ h.1 (other (insert_other w t h new), tt),
    )
  ]

  -- An UPDATE of the open rows that closes them.
  pub moved-Closed :
      (f : Withdrawal → Withdrawal) (t : Tables)
      → ((w : Withdrawal) → (f w).id ≡ w.id)
      → ((w : Withdrawal) → is_open w ≡ true → has_id id w ≡ true)
      → ((w : Withdrawal) → is_open w ≡ true → is_open (f w) ≡ false)
      → (count_where is_open t.withdrawals ≡ 0 → ⊥)
      → Closed is_open id (record t { withdrawals = update_where is_open f t.withdrawals })
  moved-Closed f t same_id own closed some_there = (
    exists_row-update_where (has_id id) is_open f t.withdrawals (λ w. rw (same_id w))
        ∙ exists_row-count_where is_open (has_id id) t.withdrawals own some_there,
    update_where-All is_open f t.withdrawals closed,
  )

-- An UPDATE of exactly one row is not one of none.
pub counted_one :
    (p : Withdrawal → Bool) (ws : List Withdrawal)
    → ok (count_where p ws == 1) ≡ ok true
    → count_where p ws ≢ 0
counted_one p ws e = ground arith
