-- ===== src/Wallet/Proofs.antt =====
-- backend/src/wallet/swap.rs: which proofs a receipt brought in, and that none of them is spent.
pub mod Laws
use shuestand.Prelude.{
  String, ℕ, Option, none, some, List, [], ◌∷◌, map, length, Bool, true, false, not, ◌&&◌, ◌||◌,
  ◌==◌, str_eq, if◌then◌else◌,
}
use shuestand.Failure.{Checked, pass, fail, refuse_if, unmatched_proofs, unsettled_proofs, external}
use shuestand.Wallet.Mints.{
  Proof, ProofState, State, spent, unspent, pending, reserved, pending_spent, Mints,
}
use shuestand.Run.{checked_or}

-- `HashSet`: membership, `collect`, and `==`.
abbrev pub contains : List String → String → Bool
contains [] y = false
contains (x ∷ xs) y = str_eq x y || contains xs y

abbrev pub collect : List String → List String
collect [] = []
collect (x ∷ xs) = let rest = collect xs in if contains rest x then rest else x ∷ rest

abbrev pub contains_all : List String → List String → Bool
contains_all xs [] = true
contains_all xs (y ∷ ys) = contains xs y && contains_all xs ys

abbrev pub same_set : List String → List String → Bool
same_set xs ys = contains_all xs ys && contains_all ys xs

abbrev pub is_empty : {A : Type 0} → List A → Bool
is_empty [] = true
is_empty (x ∷ xs) = false

abbrev pub is_unspent : State → Bool
is_unspent unspent = true
is_unspent spent = false
is_unspent pending = false
is_unspent reserved = false
is_unspent pending_spent = false

abbrev pub any_other : List ProofState → Bool
any_other [] = false
any_other (s ∷ ss) = not (is_unspent s.state) || any_other ss

abbrev pub state_ys : List ProofState → List String
state_ys [] = []
state_ys (s ∷ ss) = s.y ∷ state_ys ss

module _ (mints : Mints) where
  -- The loop: the proofs whose `y` the snapshot does not hold.
  abbrev pub keep_fresh :
      List String → Proof → Option String → Option (List Proof) → Option (List Proof)
  keep_fresh existing proof none rest = none
  keep_fresh existing proof (some y) none = none
  keep_fresh existing proof (some y) (some fresh) =
      some (if contains existing y then fresh else proof ∷ fresh)

  abbrev pub fresh_proofs : List String → List Proof → Option (List Proof)
  fresh_proofs existing [] = some []
  fresh_proofs existing (proof ∷ after) =
      keep_fresh existing proof (mints.proof_y proof) (fresh_proofs existing after)

  -- `fresh.is_empty() || fresh.total_amount()? != received`.
  abbrev pub matches_receipt : List Proof → Option ℕ → ℕ → Checked (List Proof)
  matches_receipt [] total received = fail unmatched_proofs
  matches_receipt (p ∷ ps) none received = fail external
  matches_receipt (p ∷ ps) (some total) received =
      if total == received then pass (p ∷ ps) else fail unmatched_proofs

  abbrev pub received_of : Option (List Proof) → ℕ → Checked (List Proof)
  received_of none received = fail external
  received_of (some fresh) received = matches_receipt fresh (mints.total_amount fresh) received

  unfoldable pub received_proofs : List String → List Proof → ℕ → Checked (List Proof)
  received_proofs before after received = received_of (fresh_proofs (collect before) after) received

  abbrev pub states_match : List Proof → List ProofState → Option (List String) → Checked (Unit {0})
  states_match proofs states none = fail external
  states_match proofs states (some ys) =
      let expected = collect ys in
      refuse_if
        (is_empty expected
          || not (length expected == length proofs)
          || not (same_set (collect (state_ys states)) expected)
          || not (length states == length expected)
          || any_other states)
        unsettled_proofs

  unfoldable pub require_unspent : List Proof → List ProofState → Checked (Unit {0})
  require_unspent proofs states = states_match proofs states (mints.proofs_ys proofs)
