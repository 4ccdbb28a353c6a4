-- ===== src/Prelude/Rows/Counts.antt =====
-- Counts of rows, against their order, a search and an update.
use Prim.Native.Nat.{ℕ, ◌≤◌, ◌+◌}
use mathlib.Core.Path.{◌≡◌, refl, ap, sym}
use mathlib.Core.Logic.{inl, inr}
use mathlib.Core.Bool.{Bool, true, ◌&&◌}
use mathlib.Core.Option.{none, some, some_inj}
use mathlib.Core.List.{List, [], ◌∷◌}
use native.Mathlib.Omega.{arith}
use shuestand.Prelude.Tests.{Bool-cases}
use shuestand.Prelude.Lists.{All}
use shuestand.Prelude.Rows.Defs.{
  select, find_row, update_where, count_where, sum_where, order_by, insert_by,
}

-- Counts against order and search.
module _ {ℓ} {A : Type ℓ} (q : A → Bool) where
  count_where-insert_by :
      (key : A → ℕ) (a : A) (xs : List A)
      → count_where q (insert_by key a xs) ≡ count_where q (a ∷ xs)
  unfolding count_where insert_by
  count_where-insert_by key a [] = refl
  count_where-insert_by key a (x ∷ xs) = ground (arith, count_where-insert_by key a xs)

  pub count_where-order_by :
      (key : A → ℕ) (xs : List A) → count_where q (order_by key xs) ≡ count_where q xs
  unfolding count_where order_by
  count_where-order_by key [] = refl
  count_where-order_by key (x ∷ xs) =
      omega (arith, count_where-insert_by key x (order_by key xs), count_where-order_by key xs)

  pub find_row-count_where :
      (p : A → Bool) (xs : List A) (x : A)
      → find_row p xs ≡ some x
      → q x ≡ true
      → 1 ≤ count_where q xs
  unfolding find_row count_where
  find_row-count_where p [] x e h = cc
  find_row-count_where p (y ∷ xs) x e h = elim (Bool-cases (p y)) [
    | inl hit ↦ rw (some_inj.0 (rw hit at e), h) (omega arith)
    | inr miss ↦ omega (arith, find_row-count_where p xs x (rw miss at e) h)
  ]

  pub missing-count_where : (xs : List A) → find_row q xs ≡ none → count_where q xs ≡ 0
  unfolding find_row count_where
  missing-count_where [] e = refl
  missing-count_where (x ∷ xs) e = ground (arith, missing-count_where xs)

  -- The rows that an update puts under `q`.
  pub count_where-updated :
      (p : A → Bool) (f : A → A) (xs : List A)
      → count_where (λ x. p x && q (f x)) xs ≤ count_where q (update_where p f xs)
  unfolding count_where update_where
  count_where-updated p f [] = omega arith
  count_where-updated p f (x ∷ xs) = ground (arith, count_where-updated p f xs)

-- A weaker test counts no less.
module _ {ℓ} {A : Type ℓ} (p q : A → Bool) where
  pub count_where-weaken :
      (xs : List A) → ((x : A) → p x ≡ true → q x ≡ true) → count_where p xs ≤ count_where q xs
  unfolding count_where
  count_where-weaken [] h = omega arith
  count_where-weaken (x ∷ xs) h = ground (arith, h x, count_where-weaken xs h)

  pub sum_where-weaken :
      (f : A → ℕ) (xs : List A)
      → ((x : A) → p x ≡ true → q x ≡ true)
      → sum_where p f xs ≤ sum_where q f xs
  unfolding sum_where
  sum_where-weaken f [] h = omega arith
  sum_where-weaken f (x ∷ xs) h = ground (arith, h x, sum_where-weaken f xs h)

no_row {ℓ} :
    {A : Type ℓ} (p : A → Bool) (xs : List A) (x : A)
    → count_where p xs ≡ 0
    → All (λ y. p y ≡ true → y ≡ x) xs
unfolding count_where
no_row p [] x n = tt
no_row p (y ∷ xs) x n = elim (Bool-cases (p y)) [
  | inl hit ↦ absurd (omega (arith, rw hit at n))
  | inr miss ↦ (λ k. absurd (cc (k, miss)), no_row p xs x (omega (arith, rw miss at n)))
]

-- The row that a search finds is the only one under its test, if the test counts one.
pub only_row {ℓ} :
    {A : Type ℓ} (p : A → Bool) (xs : List A) (x : A)
    → find_row p xs ≡ some x
    → count_where p xs ≡ 1
    → All (λ y. p y ≡ true → y ≡ x) xs
unfolding find_row count_where
only_row p [] x e n = tt
only_row p (y ∷ xs) x e n = elim (Bool-cases (p y)) [
  | inl hit ↦ (λ k. some_inj.0 (rw hit at e), no_row p xs x (ground arith))
  | inr miss ↦
      (λ k. absurd (cc (k, miss)), only_row p xs x (rw miss at e) (omega (arith, rw miss at n)))
]

-- The rows that a pass reads: the row stands among them once.
pub selected_once {ℓ} :
    {A : Type ℓ} (p q : A → Bool) (xs : List A) (x : A)
    → All (λ y. p y ≡ true → y ≡ x) xs
    → q x ≡ true
    → count_where p (select q xs) ≡ count_where p xs
unfolding select count_where
selected_once p q [] x h k = refl
selected_once p q (y ∷ xs) x h k =
    let ih = selected_once p q xs x h.1 k in
    elim (Bool-cases (p y)) [
      | inl hit ↦ rw (rw (sym (h.0 hit)) at k, hit) (ap (λ n. 1 + n) ih)
      | inr miss ↦ elim (Bool-cases (q y)) [
        | inl taken ↦ rw (taken, miss) (ap (λ n. 0 + n) ih)
        | inr left ↦ rw (left, miss) (omega (arith, ih))
      ]
    ]
