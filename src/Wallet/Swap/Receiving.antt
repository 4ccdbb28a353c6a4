-- ===== src/Wallet/Swap/Receiving.antt =====
-- backend/src/wallet/swap.rs: what is received and what the mints answer, up to the melt.
use shuestand.Prelude.{String, ℕ, zero, suc, ◌≡◌, refl, Option, none, some, List}
use shuestand.Failure.{Checked, pass, external}
use shuestand.Run.{pure, lift, checked_or}
use shuestand.Run.Holds.{
  checked_or_passed, Ended, Holds, Holds-pure, Holds-raise, Holds-lift, Holds-if, Holds-bind,
  Holds-given,
}
use shuestand.Wallet.Mints.{Mints, Proof, Melt, Journal, ask, told}
use shuestand.Wallet.Proofs.{received_proofs}
use shuestand.Wallet.Swap.{
  Received, Spendable, noted, minted, mint_canonical_proofs, receive_foreign_token,
  spendable_amount_and_fee,
}

-- Where the proofs of a swap are from: the mint received what the token holds, and they are the
-- unspent proofs that the wallet did not hold before, worth what was received.
pub record FromToken (mints : Mints) (token : String) (r : Received) : Type 0 where
  pub held : List Proof
  pub before : List String
  pub inputs : List Proof
  pub after : List Proof
  pub had : (n : ℕ) × (mints.get_proofs n ≡ some held)
  pub named : mints.proofs_ys held ≡ some before
  pub given : (n : ℕ) × (mints.token_proofs n token ≡ some inputs)
  pub got : (n : ℕ) × (mints.receive_proofs n inputs ≡ some r.amount)
  pub left : (n : ℕ) × (mints.get_unspent_proofs n ≡ some after)
  pub fresh : received_proofs mints before after r.amount ≡ pass r.proofs

-- What the proofs are worth, and the fee that the mint takes for them.
abbrev pub Valued : Mints → List Proof → Spendable → Type 0
Valued mints proofs s =
    (mints.total_amount proofs ≡ some s.total)
    × ((n : ℕ) × (mints.get_proofs_fee n proofs ≡ some s.input_fee))

-- What the mints' answers and the tests between them leave alone: a condition on the melts.
module _ (F : List Melt → Type 0) {E : Journal → Type 0}
    (weak : (j : Journal) → F j.melts → E j) where
  answered :
      {A : Type 0} (o : Option A) (j : Journal)
      → F j.melts
      → Ended (λ a i. F i.melts) E (checked_or o external) j
  answered none j h = weak j h
  answered (some a) j h = h

  pub ask-Holds :
      {A : Type 0} (f : ℕ → Option A) → Holds (λ j. F j.melts) (λ a j. F j.melts) E (ask f)
  unfolding ask
  ask-Holds f = record { leads = λ j h. answered (f j.calls) (record j { calls = suc j.calls }) h }

  answered-known :
      {A : Type 0} (f : ℕ → Option A) (n : ℕ) (j : Journal) (o : Option A)
      → f n ≡ o
      → F j.melts
      → Ended (λ a i. ((k : ℕ) × (f k ≡ some a)) × F i.melts) E (checked_or o external) j
  answered-known f n j none e h = weak j h
  answered-known f n j (some a) e h = ((n, e), h)

  -- What is answered is an answer of `f`.
  pub ask-Known :
      {A : Type 0} (f : ℕ → Option A)
      → Holds (λ j. F j.melts) (λ a j. ((k : ℕ) × (f k ≡ some a)) × F j.melts) E (ask f)
  unfolding ask
  ask-Known f = record {
    leads = λ j h. answered-known f j.calls (record j { calls = suc j.calls }) (f j.calls) refl h;
  }

  pub passed-Holds :
      {A : Type 0} (o : Option A)
      → Holds (λ j. F j.melts) (λ a j. (o ≡ some a) × F j.melts) E (lift (checked_or o external))
  passed-Holds o = Holds-lift _ (λ a e j h. (checked_or_passed o external a e, h)) weak

  pub told-Holds : {A : Type 0} (f : ℕ → A) → Holds (λ j. F j.melts) (λ a j. F j.melts) E (told f)
  told-Holds f = record { leads = λ j h. h }

  noted-Holds : (ps : List Proof) → Holds (λ j. F j.melts) (λ a j. F j.melts) E (noted ps)
  noted-Holds ps = record { leads = λ j h. h }

  pub lift-Holds :
      {A : Type 0} (r : Checked A) → Holds (λ j. F j.melts) (λ a j. F j.melts) E (lift r)
  lift-Holds r = Holds-lift r (λ a e j h. h) weak

  pure-Holds : {A : Type 0} (a : A) → Holds (λ j. F j.melts) (λ a j. F j.melts) E (pure a)
  pure-Holds a = Holds-pure a (λ j h. h)

  module _ (mints : Mints) where
    minted-Holds : (id : String) → Holds (λ j. F j.melts) (λ a j. F j.melts) E (minted mints id)
    minted-Holds id =
        Holds-bind (λ a j. F j.melts) _ _ (ask-Holds _)
          (λ proofs. Holds-bind (λ a j. F j.melts) _ _ (lift-Holds _) (λ u. pure-Holds _))

    pub mint_canonical_proofs-Holds :
        (n : ℕ) (id : String)
        → Holds (λ j. F j.melts) (λ a j. F j.melts) E (mint_canonical_proofs mints n id)
    unfolding mint_canonical_proofs
    mint_canonical_proofs-Holds zero id = Holds-raise _ weak
    mint_canonical_proofs-Holds (suc n) id =
        Holds-bind (λ a j. F j.melts) _ _ (ask-Holds _)
          (λ status. Holds-if _ _ _ (λ e. minted-Holds id) (λ e. mint_canonical_proofs-Holds n id))

    pub receive_foreign_token-Holds :
        (token : String)
        → Holds
            (λ j. F j.melts)
            (λ r j. FromToken mints token r × F j.melts)
            E
            (receive_foreign_token mints token)
    unfolding receive_foreign_token
    receive_foreign_token-Holds token = Holds-bind _ _ _ (ask-Known _) (λ held.
        Holds-given _ (λ had. Holds-bind _ _ _ (passed-Holds _) (λ before. Holds-given _ (λ named.
          Holds-bind _ _ _ (ask-Known _) (λ inputs. Holds-given _ (λ given.
            Holds-bind (λ a j. F j.melts) _ _ (noted-Holds _)
              (λ u. Holds-bind _ _ _ (ask-Known _) (λ amount. Holds-given _ (λ got.
                Holds-bind _ _ _ (ask-Known _) (λ after. Holds-given _ (λ left.
                  Holds-bind
                    (λ ps j. (received_proofs mints before after amount ≡ pass ps) × F j.melts) _ _
                    (Holds-lift _ (λ a e j h. (e, h)) weak)
                    (λ proofs. Holds-given _ (λ fresh. Holds-pure _ (λ j h. (
                      record {
                        held = held;
                        before = before;
                        inputs = inputs;
                        after = after;
                        had = had;
                        named = named;
                        given = given;
                        got = got;
                        left = left;
                        fresh = fresh;
                      },
                      h,
                    )))))))))))))))

    pub spendable_amount_and_fee-Holds :
        (proofs : List Proof)
        → Holds
            (λ j. F j.melts)
            (λ s j. Valued mints proofs s × F j.melts)
            E
            (spendable_amount_and_fee mints proofs)
    unfolding spendable_amount_and_fee
    spendable_amount_and_fee-Holds proofs =
        Holds-bind (λ a j. F j.melts) _ _ (ask-Holds _)
          (λ states.
            Holds-bind (λ a j. F j.melts) _ _ (lift-Holds _)
              (λ u. Holds-bind _ _ _ (passed-Holds _) (λ total. Holds-given _ (λ sum.
                Holds-bind _ _ _ (ask-Known _) (λ fee.
                  Holds-given _ (λ told_fee. Holds-pure _ (λ j h. ((sum, told_fee), h))))))))
