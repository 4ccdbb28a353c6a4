-- ===== src/Runtime/Meets.antt =====
-- Actions that keep an invariant of the world, whether they answer or fail, and whose answers meet
-- a postcondition: one rule for each way to build an action.
use shuestand.Prelude.{
  ◌≡◌, refl, Bool, true, false, if◌then◌else◌, Option, none, some, subst, arith,
}
use shuestand.Failure.{Failure, Checked, pass, fail}
use shuestand.Runtime.{World, Exec, pure, raise, lift, or_raise, continue, ◌>>=◌}

pub record Meets {A : Type 0} (P : World → Type 0) (Q : A → Type 0) (m : Exec A) : Type 0 where
  pub keeps : (s : World) → P s → P (m s).1
  pub answers : (s : World) → P s → (a : A) → (m s).0 ≡ pass a → Q a

module _ {A : Type 0} {P : World → Type 0} {Q : A → Type 0} where
  pub Meets-pure : (a : A) → Q a → Meets P Q (pure a)
  unfolding pure
  Meets-pure a q = record { keeps = λ s h. h; answers = λ s h b e. subst Q (ground arith) q }

  pub Meets-raise : (e : Failure) → Meets P Q (raise e)
  unfolding raise
  Meets-raise e = record { keeps = λ s h. h; answers = λ s h b q. cc }

  pub Meets-lift : (r : Checked A) → ((a : A) → r ≡ pass a → Q a) → Meets P Q (lift r)
  unfolding lift
  Meets-lift r q = record { keeps = λ s h. h; answers = λ s h. q }

  pub Meets-or_raise :
      (o : Option A) (e : Failure) → ((a : A) → o ≡ some a → Q a) → Meets P Q (or_raise o e)
  unfolding or_raise
  Meets-or_raise none e q = Meets-raise e
  Meets-or_raise (some a) e q = Meets-pure a (q a refl)

  pub Meets-if :
      (b : Bool) (m n : Exec A)
      → (b ≡ true → Meets P Q m)
      → (b ≡ false → Meets P Q n)
      → Meets P Q (if b then m else n)
  Meets-if true m n hm hn = hm refl
  Meets-if false m n hm hn = hn refl

-- A condition on no answer.
abbrev pub Any : {A : Type 0} → A → Type 0
Any a = Unit {0}

module _ {A B : Type 0} {P : World → Type 0} (R : A → Type 0) {Q : B → Type 0} where
  continue-keeps :
      (f : A → Exec B)
      → ((a : A) → R a → Meets P Q (f a))
      → (r : Checked A) (s : World) → P s
      → ((a : A) → r ≡ pass a → R a)
      → P (continue f r s).1
  continue-keeps f hf (pass a) s h q = (hf a (q a refl)).keeps s h
  continue-keeps f hf (fail e) s h q = h

  continue-answers :
      (f : A → Exec B)
      → ((a : A) → R a → Meets P Q (f a))
      → (r : Checked A) (s : World) → P s
      → ((a : A) → r ≡ pass a → R a)
      → (b : B) → (continue f r s).0 ≡ pass b
      → Q b
  continue-answers f hf (pass a) s h q b k = (hf a (q a refl)).answers s h b k
  continue-answers f hf (fail e) s h q b k = cc

  pub Meets-bind :
      (m : Exec A) (f : A → Exec B)
      → Meets P R m
      → ((a : A) → R a → Meets P Q (f a))
      → Meets P Q (m >>= f)
  unfolding ◌>>=◌
  Meets-bind m f hm hf = record {
    keeps = λ s h. continue-keeps f hf (m s).0 (m s).1 (hm.keeps s h) (hm.answers s h);
    answers = λ s h. continue-answers f hf (m s).0 (m s).1 (hm.keeps s h) (hm.answers s h);
  }

-- A first action that keeps `P`, before a rest that leads from `P` to a weaker `P'`.
module _ {A B : Type 0} {P : World → Type 0} (R : A → Type 0) (P' : World → Type 0) where
  continue-leads :
      (f : A → Exec B)
      → ((a : A) → R a → (s : World) → P s → P' (f a s).1)
      → (r : Checked A) (s : World) → P s
      → P' s
      → ((a : A) → r ≡ pass a → R a)
      → P' (continue f r s).1
  continue-leads f hf (pass a) s h k q = hf a (q a refl) s h
  continue-leads f hf (fail e) s h k q = k

  pub bind-leads :
      (m : Exec A) (f : A → Exec B)
      → Meets P R m
      → ((a : A) → R a → (s : World) → P s → P' (f a s).1)
      → ((s : World) → P s → P' s)
      → (s : World) → P s
      → P' ((m >>= f) s).1
  unfolding ◌>>=◌
  bind-leads m f hm hf weaken s h =
      continue-leads f hf (m s).0 (m s).1 (hm.keeps s h) (weaken _ (hm.keeps s h)) (hm.answers s h)
