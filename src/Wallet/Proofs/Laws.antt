-- ===== src/Wallet/Proofs/Laws.antt =====
-- backend/src/wallet/swap.rs: what the checks on the proofs of a receipt let through.
use shuestand.Prelude.{
  String, ℕ, ◌<◌, Option, none, some, List, [], ◌∷◌, length, Bool, true, false, ◌&&◌, ◌||◌, str_eq,
  if◌then◌else◌, ◌≡◌, refl, sym, subst, ◌∙◌, ap, arith, inl, inr, Bool-cases, All, eq_iff,
}
use shuestand.Failure.{Failure, pass, refuse_if}
use shuestand.Wallet.Mints.{Proof, ProofState, Mints}
use shuestand.Wallet.Proofs.{
  contains, collect, contains_all, is_empty, is_unspent, any_other, state_ys, keep_fresh,
  fresh_proofs, matches_receipt, received_of, received_proofs, states_match, require_unspent,
}

contains-same :
    (xs : List String) (x y : String) → str_eq x y ≡ true → contains xs x ≡ contains xs y
contains-same xs x y e = ap (contains xs) ((eq_iff x y).0 e)

contains-collect : (xs : List String) (y : String) → contains (collect xs) y ≡ contains xs y
contains-collect [] y = refl
contains-collect (x ∷ xs) y = go (contains (collect xs) x) refl (contains-collect xs y)
  where
    go :
        (b : Bool)
        → contains (collect xs) x ≡ b
        → contains (collect xs) y ≡ contains xs y
        → contains (if b then collect xs else x ∷ collect xs) y ≡ str_eq x y || contains xs y
    go false e ih = ap (λ c. str_eq x y || c) ih
    go true e ih = elim (Bool-cases (str_eq x y)) [
      | inl same ↦ (let at = contains-same (collect xs) x y same in ground arith)
      | inr other ↦ ground arith
    ]

contains_all-contains :
    (xs ys : List String) (y : String)
    → contains_all xs ys ≡ true
    → contains ys y ≡ true
    → contains xs y ≡ true
contains_all-contains xs [] y h k = cc
contains_all-contains xs (z ∷ ys) y h k =
    let ih = contains_all-contains xs ys y in
    elim (Bool-cases (str_eq z y)) [
      | inl e ↦ (let same = contains-same xs z y e in ground arith)
      | inr e ↦ ground arith
    ]

-- A proof that the snapshot before the receipt did not hold.
abbrev pub Fresh : Mints → List String → Proof → Type 0
Fresh mints before p = (y : String) × (mints.proof_y p ≡ some y) × (contains before y ≡ false)

module _ (mints : Mints) where
  fresh_proofs-Fresh :
      (existing before : List String)
      → ((y : String) → contains existing y ≡ contains before y)
      → (after fresh : List Proof) → fresh_proofs mints existing after ≡ some fresh
      → All (Fresh mints before) fresh
  fresh_proofs-Fresh existing before same [] [] e = tt
  fresh_proofs-Fresh existing before same [] (q ∷ fresh) e = cc
  fresh_proofs-Fresh existing before same (p ∷ after) fresh e =
      step (mints.proof_y p) refl (fresh_proofs mints existing after)
        (fresh_proofs-Fresh existing before same after) e
    where
      step :
          (y : Option String)
          → mints.proof_y p ≡ y
          → (rest : Option (List Proof))
          → ((fs : List Proof) → rest ≡ some fs → All (Fresh mints before) fs)
          → keep_fresh mints existing p y rest ≡ some fresh
          → All (Fresh mints before) fresh
      step none h rest ih k = cc
      step (some y) h none ih k = cc
      step (some y) h (some fs) ih k = go (contains existing y) refl k
        where
          go :
              (b : Bool)
              → contains existing y ≡ b
              → some (if b then fs else p ∷ fs) ≡ some fresh
              → All (Fresh mints before) fresh
          go true old e = ih fresh e
          go false new e =
              subst (λ o. elim o [ none ↦ Unit {0} | some gs ↦ All (Fresh mints before) gs ]) e
                ((y, h, sym (same y) ∙ new), ih fs refl)

  matches_receipt_passed :
      (fresh : List Proof) (total : Option ℕ) (received : ℕ) (proofs : List Proof)
      → matches_receipt mints fresh total received ≡ pass proofs
      → (fresh ≡ proofs) × (0 < length fresh) × (total ≡ some received)
  matches_receipt_passed [] total received proofs e = cc
  matches_receipt_passed (p ∷ ps) none received proofs e = cc
  matches_receipt_passed (p ∷ ps) (some total) received proofs e = ground arith

  -- The proofs that a receipt is held to have brought in are none that the wallet held before it,
  -- they are not empty, and they come to the amount that was received.
  pub received_proofs-Fresh :
      (before : List String) (after : List Proof) (received : ℕ) (proofs : List Proof)
      → received_proofs mints before after received ≡ pass proofs
      → All (Fresh mints before) proofs
        × (0 < length proofs)
        × (mints.total_amount proofs ≡ some received)
  unfolding received_proofs
  received_proofs-Fresh before after received proofs =
      go (fresh_proofs mints (collect before) after) refl
    where
      go :
          (o : Option (List Proof))
          → fresh_proofs mints (collect before) after ≡ o
          → received_of mints o received ≡ pass proofs
          → All (Fresh mints before) proofs
            × (0 < length proofs)
            × (mints.total_amount proofs ≡ some received)
      go none e h = cc
      go (some fresh) e h =
          let m = matches_receipt_passed fresh (mints.total_amount fresh) received proofs h in
          subst
            (λ ps.
              All (Fresh mints before) ps
              × (0 < length ps)
              × (mints.total_amount ps ≡ some received))
            m.0
            (
              fresh_proofs-Fresh (collect before) before (contains-collect before) after fresh e,
              m.1,
              m.2,
            )

-- A state of `y` that the mint reported, and that is unspent.
abbrev pub reported_unspent : List ProofState → String → Bool
reported_unspent [] y = false
reported_unspent (s ∷ ss) y = (str_eq s.y y && is_unspent s.state) || reported_unspent ss y

any_other-reported :
    (states : List ProofState) (y : String)
    → any_other states ≡ false
    → contains (state_ys states) y ≡ true
    → reported_unspent states y ≡ true
any_other-reported [] y h k = cc
any_other-reported (s ∷ ss) y h k = let ih = any_other-reported ss y in ground arith

is_empty-length : {A : Type 0} (xs : List A) → is_empty xs ≡ false → 0 < length xs
is_empty-length [] e = cc
is_empty-length (x ∷ xs) e = omega arith

refuse_if_passed : (b : Bool) (e : Failure) → refuse_if b e ≡ pass tt → b ≡ false
refuse_if_passed b e h = ground arith

-- Proofs that pass the check are not empty, have different names, and the mint reported each of them
-- as unspent, and nothing else.
pub require_unspent_sound :
    (mints : Mints) (proofs : List Proof) (states : List ProofState)
    → require_unspent mints proofs states ≡ pass tt
    → (ys : List String) × (mints.proofs_ys proofs ≡ some ys)
      × (0 < length proofs)
      × (length (collect ys) ≡ length proofs)
      × (length states ≡ length proofs)
      × ((y : String) → contains ys y ≡ true → reported_unspent states y ≡ true)
      × ((y : String) → contains (state_ys states) y ≡ true → contains ys y ≡ true)
unfolding require_unspent
require_unspent_sound mints proofs states = go (mints.proofs_ys proofs) refl
  where
    go :
        (o : Option (List String))
        → mints.proofs_ys proofs ≡ o
        → states_match mints proofs states o ≡ pass tt
        → (ys : List String) × (mints.proofs_ys proofs ≡ some ys)
          × (0 < length proofs)
          × (length (collect ys) ≡ length proofs)
          × (length states ≡ length proofs)
          × ((y : String) → contains ys y ≡ true → reported_unspent states y ≡ true)
          × ((y : String) → contains (state_ys states) y ≡ true → contains ys y ≡ true)
    go none e h = cc
    go (some ys) e h =
        let clear = refuse_if_passed _ _ h in
        let count : length (collect ys) ≡ length proofs = ground arith in
        let covered : contains_all (collect (state_ys states)) (collect ys) ≡ true = ground arith in
        let exact : contains_all (collect ys) (collect (state_ys states)) ≡ true = ground arith in
        let full : 0 < length (collect ys) = is_empty-length (collect ys) (ground arith) in
        let clean : any_other states ≡ false = ground arith in
        (
          ys,
          e,
          subst (λ n. 0 < n) count full,
          count,
          ground arith,
          λ y k. any_other-reported states y clean (
              sym (contains-collect (state_ys states) y)
              ∙ contains_all-contains _ _ y covered (contains-collect ys y ∙ k)),
          λ y k.
              sym (contains-collect ys y)
              ∙ contains_all-contains _ _ y exact (contains-collect (state_ys states) y ∙ k),
        )
