-- ===== src/Run/Holds.antt =====
-- Actions that lead from a precondition to a postcondition of the answer and the state, or to a
-- condition on the state where they fail: one rule for each way to build an action.
use shuestand.Prelude.{
  ◌≡◌, refl, sym, ap, subst, arith, Bool, true, false, if◌then◌else◌, Option, none, some,
}
use shuestand.Failure.{Failure, Checked, pass, fail}
use shuestand.Run.{Run, pure, raise, lift, checked_or, continue, ◌>>=◌}

-- How an action ended.
abbrev pub Ended : {S A : Type 0} → (A → S → Type 0) → (S → Type 0) → Checked A → S → Type 0
Ended Q E (pass a) s = Q a s
Ended Q E (fail e) s = E s

pub record Holds {S A : Type 0} (P : S → Type 0) (Q : A → S → Type 0) (E : S → Type 0) (m : Run S A)
    : Type 0 where
  pub leads : (s : S) → P s → Ended Q E (m s).0 (m s).1

failed_end :
    {S A : Type 0} (Q : A → S → Type 0) (E : S → Type 0) (r : Checked A) (s : S) (e : Failure)
    → Ended Q E r s
    → r ≡ fail e
    → E s
failed_end Q E (pass b) s e h k = cc
failed_end Q E (fail b) s e h k = h

-- What an answer tells.
passed_end :
    {S A : Type 0} (Q : A → S → Type 0) (E : S → Type 0) (r : Checked A) (s : S) (a : A)
    → Ended Q E r s
    → r ≡ pass a
    → Q a s
passed_end Q E (pass b) s a h e = subst (λ x. Q x s) (ground arith) h
passed_end Q E (fail b) s a h e = cc

weaken_end :
    {S A : Type 0} (Q Q' : A → S → Type 0) (E E' : S → Type 0)
    → ((a : A) (s : S) → Q a s → Q' a s)
    → ((s : S) → E s → E' s)
    → (r : Checked A) (s : S) → Ended Q E r s
    → Ended Q' E' r s
weaken_end Q Q' E E' q e (pass a) s h = q a s h
weaken_end Q Q' E E' q e (fail x) s h = e s h

module _ {S A : Type 0} {P : S → Type 0} (Q : A → S → Type 0) {Q' : A → S → Type 0} (E : S → Type 0)
    {E' : S → Type 0} where
  pub Holds-weaken :
      (m : Run S A)
      → Holds P Q E m
      → ((a : A) (s : S) → Q a s → Q' a s)
      → ((s : S) → E s → E' s)
      → Holds P Q' E' m
  Holds-weaken m h q e = record {
    leads = λ s p. weaken_end Q Q' E E' q e (m s).0 (m s).1 (h.leads s p);
  }

module _ {S A : Type 0} {P : S → Type 0} {Q : A → S → Type 0} {E : S → Type 0} where
  pub Holds-pure : (a : A) → ((s : S) → P s → Q a s) → Holds P Q E (pure a)
  unfolding pure
  Holds-pure a h = record { leads = h }

  pub Holds-raise : (e : Failure) → ((s : S) → P s → E s) → Holds P Q E (raise e)
  unfolding raise
  Holds-raise e h = record { leads = h }

  pub Holds-lift :
      (r : Checked A)
      → ((a : A) → r ≡ pass a → (s : S) → P s → Q a s)
      → ((s : S) → P s → E s)
      → Holds P Q E (lift r)
  unfolding lift
  Holds-lift (pass a) h k = record { leads = h a refl }
  Holds-lift (fail e) h k = record { leads = k }

  pub Holds-if :
      (b : Bool) (m n : Run S A)
      → (b ≡ true → Holds P Q E m)
      → (b ≡ false → Holds P Q E n)
      → Holds P Q E (if b then m else n)
  Holds-if true m n hm hn = hm refl
  Holds-if false m n hm hn = hn refl

  -- A rest that holds under a condition on what is before it.
  pub Holds-given : {C : Type 0} (m : Run S A) → (C → Holds P Q E m) → Holds (λ s. C × P s) Q E m
  Holds-given m h = record { leads = λ s p. (h p.0).leads s p.1 }

  pub Holds-failed :
      (m : Run S A) → Holds P Q E m → (s : S) → P s → (e : Failure) → (m s).0 ≡ fail e → E (m s).1
  Holds-failed m h s p e k = failed_end Q E (m s).0 (m s).1 e (h.leads s p) k

  pub Holds-passed :
      (m : Run S A) → Holds P Q E m → (s : S) → P s → (a : A) → (m s).0 ≡ pass a → Q a (m s).1
  Holds-passed m h s p a e = passed_end Q E (m s).0 (m s).1 a (h.leads s p) e

module _ {S A B : Type 0} {P : S → Type 0} (R : A → S → Type 0) {Q : B → S → Type 0}
    {E : S → Type 0} where
  pub Holds-bind :
      (m : Run S A) (f : A → Run S B)
      → Holds P R E m
      → ((a : A) → Holds (R a) Q E (f a))
      → Holds P Q E (m >>= f)
  unfolding ◌>>=◌
  Holds-bind m f hm hf = record { leads = λ s h. go (m s).0 (m s).1 (hm.leads s h) }
    where
      go : (r : Checked A) (s : S) → Ended R E r s → Ended Q E (continue f r s).0 (continue f r s).1
      go (pass a) s h = (hf a).leads s h
      go (fail e) s h = h

-- An action whose answer is known where it starts, and that changes nothing.
module _ {S A B : Type 0} {P : S → Type 0} {Q : B → S → Type 0} {E : S → Type 0} where
  pub Holds-known :
      (m : Run S A) (a : A) (f : A → Run S B)
      → ((s : S) → P s → ◌≡◌ {A = Checked A × S} (m s) (pass a, s))
      → Holds P Q E (f a)
      → Holds P Q E (m >>= f)
  unfolding ◌>>=◌
  Holds-known m a f known h = record {
    leads = λ s p.
        subst (λ r. Ended Q E (continue f r.0 r.1).0 (continue f r.0 r.1).1) (sym (known s p))
          (h.leads s p);
  }

-- What follows an action that failed is not reached.
pub bind-failed :
    {S A B : Type 0} (m : Run S A) (f : A → Run S B) (s s' : S) (e : Failure)
    → ◌≡◌ {A = Checked A × S} (m s) (fail e, s')
    → ◌≡◌ {A = Checked B × S} ((m >>= f) s) (fail e, s')
unfolding ◌>>=◌
bind-failed m f s s' e failed = ap (λ r. continue f r.0 r.1) failed

pub checked_or_passed :
    {A : Type 0} (o : Option A) (e : Failure) (a : A) → checked_or o e ≡ pass a → o ≡ some a
checked_or_passed none e a h = cc
checked_or_passed (some b) e a h = ground arith

answer_end :
    {S A : Type 0} (Q : A → Type 0) (r : Checked A) (s : S)
    → ((a : A) → r ≡ pass a → Q a)
    → Ended (λ a i. Q a) (λ i. Unit {0}) r s
answer_end Q (pass a) s h = h a refl
answer_end Q (fail e) s h = tt

-- A condition on answers alone.
abbrev pub Answers : {S A : Type 0} → (A → Type 0) → Run S A → Type 0
Answers Q m = Holds (λ s. Unit {0}) (λ a s. Q a) (λ s. Unit {0}) m

module _ {S A : Type 0} {Q : A → Type 0} where
  pub Answers-of : (m : Run S A) → ((s : S) (a : A) → (m s).0 ≡ pass a → Q a) → Answers Q m
  Answers-of m h = record { leads = λ s u. answer_end Q (m s).0 (m s).1 (h s) }

  pub Answers-lift : (r : Checked A) → ((a : A) → r ≡ pass a → Q a) → Answers Q (lift {S = S} r)
  Answers-lift r h = Holds-lift r (λ a e s u. h a e) (λ s u. tt)

  pub Answers-pure : (a : A) → Q a → Answers Q (pure {S = S} a)
  Answers-pure a q = Holds-pure a (λ s u. q)

module _ {S A B : Type 0} (R : A → Type 0) {Q : B → Type 0} where
  pub Answers-bind :
      (m : Run S A) (f : A → Run S B)
      → Answers R m
      → ((a : A) → R a → Answers Q (f a))
      → Answers Q (m >>= f)
  Answers-bind m f hm hf =
      Holds-bind (λ a s. R a × Unit {0}) m f
        (Holds-weaken (λ a s. R a) (λ s. Unit {0}) m hm (λ a s q. (q, tt)) (λ s u. u))
        (λ a. Holds-given (f a) (hf a))
