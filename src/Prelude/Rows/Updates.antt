-- ===== src/Prelude/Rows/Updates.antt =====
-- What an update does to the rows that a SELECT finds, and to their order.
use Prim.Native.Nat.{ℕ}
use mathlib.Core.Path.{◌≡◌, refl, ap, ◌∙◌}
use mathlib.Core.Logic.{inl, inr}
use mathlib.Core.Bool.{Bool}
use mathlib.Core.List.{List, [], ◌∷◌}
use shuestand.Prelude.Tests.{if◌then◌else◌, Bool-cases, ltb}
use shuestand.Prelude.Rows.Defs.{select, update_where, order_by, insert_by}

module _ {ℓ} {A : Type ℓ} (p : A → Bool) (f : A → A) where
  abbrev updated : A → A
  updated x = if p x then f x else x

  -- An update that leaves a test alone.
  pub select-update_where :
      (q : A → Bool) (xs : List A)
      → ((x : A) → q (f x) ≡ q x)
      → select q (update_where p f xs) ≡ update_where p f (select q xs)
  unfolding select update_where
  select-update_where q [] h = refl
  select-update_where q (x ∷ xs) h =
      let ih = select-update_where q xs h in
      elim (Bool-cases (p x)) [
        | inl hit ↦ elim (Bool-cases (q x)) [
          | inl kept ↦ rw (hit, h x, kept, hit) (ap (λ ys. f x ∷ ys) ih)
          | inr left ↦ rw (hit, h x, left) ih
        ]
        | inr miss ↦ elim (Bool-cases (q x)) [
          | inl kept ↦ rw (miss, kept, miss) (ap (λ ys. x ∷ ys) ih)
          | inr left ↦ rw (miss, left) ih
        ]
      ]

  key_kept : (key : A → ℕ) (x : A) → ((y : A) → key (f y) ≡ key y) → key (updated x) ≡ key x
  key_kept key x h = elim (Bool-cases (p x)) [ inl e ↦ rw e (h x) | inr e ↦ rw e refl ]

  insert_by-update_where :
      (key : A → ℕ) (x : A) (xs : List A)
      → ((y : A) → key (f y) ≡ key y)
      → insert_by key (updated x) (update_where p f xs) ≡ update_where p f (insert_by key x xs)
  unfolding insert_by update_where
  insert_by-update_where key x [] h = refl
  insert_by-update_where key x (y ∷ ys) h =
      let ih = insert_by-update_where key x ys h in
      elim (Bool-cases (ltb (key y) (key x))) [
        | inl before ↦
            rw (key_kept key y h, key_kept key x h, before) (ap (λ zs. updated y ∷ zs) ih)
        | inr after ↦ rw (key_kept key y h, key_kept key x h, after) refl
      ]

  -- An update that leaves a key alone.
  pub order_by-update_where :
      (key : A → ℕ) (xs : List A)
      → ((y : A) → key (f y) ≡ key y)
      → order_by key (update_where p f xs) ≡ update_where p f (order_by key xs)
  unfolding order_by update_where
  order_by-update_where key [] h = refl
  order_by-update_where key (x ∷ xs) h =
      ap (λ ys. insert_by key (updated x) ys) (order_by-update_where key xs h)
      ∙ insert_by-update_where key x (order_by key xs) h
