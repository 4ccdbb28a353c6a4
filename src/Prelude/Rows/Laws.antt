-- ===== src/Prelude/Rows/Laws.antt =====
-- What the statements of SQL keep, over any row type.
use Prim.Native.Nat.{ℕ, ◌≤◌, ◌+◌}
use mathlib.Core.Path.{◌≡◌, refl, subst}
use mathlib.Core.Logic.{inl, inr}
use mathlib.Core.Bool.{Bool, true, false}
use mathlib.Core.Option.{Option, none, some, some_inj}
use mathlib.Core.Option
use mathlib.Core.List.{List, [], ◌∷◌, ◌++◌}
use native.Mathlib.Omega.{arith}
use shuestand.Prelude.Tests.{if◌then◌else◌, Bool-cases}
use shuestand.Prelude.Lists.{All}
use shuestand.Prelude.Rows.Defs.{
  select, find_row, update_where, count_where, sum_where, exists_row, order_by, insert_by,
}

-- A predicate on every row.
module _ {ℓ κ} {A : Type ℓ} (P : A → Type κ) where
  pub All-append : (xs ys : List A) → All P xs → All P ys → All P (xs ++ ys)
  All-append [] ys h k = k
  All-append (x ∷ xs) ys h k = (h.0, All-append xs ys h.1 k)

  pub All-update_where :
      (p : A → Bool) (f : A → A) (xs : List A)
      → ((x : A) → p x ≡ true → P x → P (f x))
      → All P xs
      → All P (update_where p f xs)
  unfolding update_where
  All-update_where p f [] keep h = h
  All-update_where p f (x ∷ xs) keep h = (
    elim (Bool-cases (p x)) [ inl e ↦ rw e (keep x e h.0) | inr e ↦ rw e h.0 ],
    All-update_where p f xs keep h.1,
  )

  pub All-select : (p : A → Bool) (xs : List A) → All P xs → All P (select p xs)
  unfolding select
  All-select p [] h = h
  All-select p (x ∷ xs) h = elim (Bool-cases (p x)) [
    | inl e ↦ rw e (h.0, All-select p xs h.1)
    | inr e ↦ rw e (All-select p xs h.1)
  ]

  All-insert_by : (key : A → ℕ) (a : A) (xs : List A) → P a → All P xs → All P (insert_by key a xs)
  unfolding insert_by
  All-insert_by key a [] k h = (k, h)
  All-insert_by key a (x ∷ xs) k h = ground (arith, All-insert_by key a xs k h.1)

  pub All-order_by : (key : A → ℕ) (xs : List A) → All P xs → All P (order_by key xs)
  unfolding order_by
  All-order_by key [] h = h
  All-order_by key (x ∷ xs) h = All-insert_by key x (order_by key xs) h.0 (All-order_by key xs h.1)

  pub All-find_row : (p : A → Bool) (xs : List A) (x : A) → All P xs → find_row p xs ≡ some x → P x
  unfolding find_row
  All-find_row p [] x h e = cc
  All-find_row p (y ∷ xs) x h e = elim (Bool-cases (p y)) [
    | inl q ↦ subst P (some_inj.0 (rw q at e)) h.0
    | inr q ↦ All-find_row p xs x h.1 (rw q at e)
  ]

pub All-mono {ℓ κ μ} :
    {A : Type ℓ} (P : A → Type κ) (Q : A → Type μ) (xs : List A)
    → ((x : A) → P x → Q x)
    → All P xs
    → All Q xs
All-mono P Q [] h k = tt
All-mono P Q (x ∷ xs) h k = (h x k.0, All-mono P Q xs h k.1)

-- One test against an update.
module _ {ℓ} {A : Type ℓ} (p : A → Bool) where
  pub find_row-holds : (xs : List A) (x : A) → find_row p xs ≡ some x → p x ≡ true
  unfolding find_row
  find_row-holds [] x e = cc
  find_row-holds (y ∷ xs) x e = ground (arith, find_row-holds xs x)

  pub exists_row-find_row : (xs : List A) (x : A) → find_row p xs ≡ some x → exists_row p xs ≡ true
  unfolding find_row exists_row
  exists_row-find_row [] x e = cc
  exists_row-find_row (y ∷ xs) x e = ground (arith, exists_row-find_row xs x)

  pub find_row-exists_row :
      (xs : List A) → exists_row p xs ≡ true → (x : A) × (find_row p xs ≡ some x)
  unfolding find_row exists_row
  find_row-exists_row [] e = cc
  find_row-exists_row (y ∷ xs) e = elim (Bool-cases (p y)) [
    | inl q ↦ (y, rw q)
    | inr q ↦ rw q (find_row-exists_row xs (rw q at e))
  ]

  pub exists_row-append : (xs ys : List A) → exists_row p xs ≡ true → exists_row p (xs ++ ys) ≡ true
  unfolding exists_row
  exists_row-append [] ys e = cc
  exists_row-append (y ∷ xs) ys e = ground (arith, exists_row-append xs ys)

  -- A table without a row under `p` has none to update.
  pub count_where-zero : (xs : List A) → All (λ x. p x ≡ false) xs → count_where p xs ≡ 0
  unfolding count_where
  count_where-zero [] h = refl
  count_where-zero (x ∷ xs) h = ground (arith, count_where-zero xs h.1)

  pub update_where-none :
      (f : A → A) (xs : List A) → All (λ x. p x ≡ false) xs → update_where p f xs ≡ xs
  unfolding update_where
  update_where-none f [] h = refl
  update_where-none f (x ∷ xs) h = ground (arith, update_where-none f xs h.1)

  -- An update that makes its own test false leaves no row under it.
  pub update_where-All :
      (f : A → A) (xs : List A)
      → ((x : A) → p x ≡ true → p (f x) ≡ false)
      → All (λ x. p x ≡ false) (update_where p f xs)
  unfolding update_where
  update_where-All f [] h = tt
  update_where-All f (x ∷ xs) h =
      (elim (Bool-cases (p x)) [ inl e ↦ rw e (h x e) | inr e ↦ rw e e ], update_where-All f xs h)

module _ {ℓ} {A : Type ℓ} (p q : A → Bool) (f : A → A) where
  -- An update that does not touch what `p` reads.
  pub exists_row-update_where :
      (xs : List A)
      → ((x : A) → p (f x) ≡ p x)
      → exists_row p (update_where q f xs) ≡ exists_row p xs
  unfolding exists_row update_where
  exists_row-update_where [] h = refl
  exists_row-update_where (x ∷ xs) h = ground (arith, h x, exists_row-update_where xs h)

  pub find_row-update_where :
      (xs : List A)
      → ((x : A) → p (f x) ≡ p x)
      → find_row p (update_where q f xs) ≡ Option.map (λ x. if q x then f x else x) (find_row p xs)
  unfolding find_row update_where
  find_row-update_where [] h = refl
  find_row-update_where (x ∷ xs) h = ground (arith, h x, find_row-update_where xs h)

  -- An update that moves no amount in or out of a sum.
  pub sum_where-update_where :
      (g : A → ℕ) (xs : List A)
      → ((x : A) → q x ≡ true → (p (f x) ≡ p x) × (g (f x) ≡ g x))
      → sum_where p g (update_where q f xs) ≡ sum_where p g xs
  unfolding sum_where update_where
  sum_where-update_where g [] h = refl
  sum_where-update_where g (x ∷ xs) h = ground (arith, h x, sum_where-update_where g xs h)

  pub count_where-update_where :
      (xs : List A)
      → ((x : A) → q x ≡ true → p (f x) ≡ p x)
      → count_where p (update_where q f xs) ≡ count_where p xs
  unfolding count_where update_where
  count_where-update_where [] h = refl
  count_where-update_where (x ∷ xs) h = ground (arith, h x, count_where-update_where xs h)

module _ {ℓ} {A : Type ℓ} (q r : A → Bool) where
  -- A row counted by a test is there under any weaker test.
  pub exists_row-count_where :
      (xs : List A)
      → ((x : A) → q x ≡ true → r x ≡ true)
      → (count_where q xs ≡ 0 → ⊥)
      → exists_row r xs ≡ true
  unfolding exists_row count_where
  exists_row-count_where [] h k = absurd (k refl)
  exists_row-count_where (x ∷ xs) h k = ground (arith, h x, exists_row-count_where xs h)

  -- A row found under `q` counts in the sum over `r`, if `r` holds of it.
  pub find_row-sum_where :
      (g : A → ℕ) (xs : List A) (x : A)
      → find_row q xs ≡ some x
      → r x ≡ true
      → g x ≤ sum_where r g xs
  unfolding find_row sum_where
  find_row-sum_where g [] x e h = cc
  find_row-sum_where g (y ∷ xs) x e h = elim (Bool-cases (q y)) [
    | inl hit ↦
        let same_row : y ≡ x = some_inj.0 (rw hit at e) in
        subst (λ z. g z ≤ sum_where r g (y ∷ xs)) same_row (counted (rw same_row h))
    | inr miss ↦ omega (arith, find_row-sum_where g xs x (rw miss at e) h)
  ]
    where
      counted : r y ≡ true → g y ≤ (if r y then g y else 0) + sum_where r g xs
      counted k = rw k (omega arith)

-- A row that is inserted last adds what it counts for.
pub sum_where-snoc {ℓ} :
    {A : Type ℓ} (p : A → Bool) (f : A → ℕ) (xs : List A) (x : A)
    → sum_where p f (xs ++ x ∷ []) ≡ sum_where p f xs + (if p x then f x else 0)
unfolding sum_where
sum_where-snoc p f [] x = omega arith
sum_where-snoc p f (y ∷ xs) x = let ih = sum_where-snoc p f xs x in ground arith
