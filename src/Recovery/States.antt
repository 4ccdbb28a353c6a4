-- ===== src/Recovery/States.antt =====
-- backend/src/bin/m5_recover.rs: the classification of proofs, and the checks on a mint's reply about
-- their states. A reply is a list of names, in lower case, and states; `none` where it does not parse.
use shuestand.Prelude.{
  String, ℕ, zero, suc, ◌+◌, ◌^◌, Option, none, some, List, [], ◌∷◌, length, Bool, true, false, not,
  ◌&&◌, ◌||◌, ◌==◌, ltb, str_eq, if◌then◌else◌,
}
use shuestand.Failure.{Checked, pass, fail, external, ensure_failed}

pub record Reported : Type 0 where
  pub y : String
  pub state : String

-- An entry of the `BTreeMap`.
abbrev pub StateEntry : Type 0
StateEntry = Reported

pub record Entry : Type 0 where
  pub y : String
  pub amount : ℕ
  pub local_state : String
  pub mint_state : String

pub record Sums : Type 0 where
  pub live : ℕ
  pub stale : ℕ

abbrev pub is_open : String → Bool
is_open s = str_eq s "UNSPENT" || str_eq s "RESERVED"

abbrev pub add_live : Entry → Sums → Checked Sums
add_live p s =
    if ltb (s.live + p.amount) (2 ^ 64)
    then pass (record s { live = s.live + p.amount })
    else fail (ensure_failed "amount overflow")

abbrev pub add_stale : Entry → Sums → Checked Sums
add_stale p s =
    if ltb (s.stale + p.amount) (2 ^ 64)
    then pass (record s { stale = s.stale + p.amount })
    else fail (ensure_failed "amount overflow")

abbrev pub count_entry : Entry → Sums → Checked Sums
count_entry p s =
    if is_open p.local_state && str_eq p.mint_state "UNSPENT"
    then add_live p s
    else if is_open p.local_state && str_eq p.mint_state "SPENT"
    then add_stale p s
    else if str_eq p.local_state "SPENT" && str_eq p.mint_state "SPENT"
    then pass s
    else fail (ensure_failed "ambiguous local/mint state; stop")

abbrev pub classify_from : Sums → List Entry → Checked Sums
classify_from s [] = pass s
classify_from s (p ∷ ps) = elim (count_entry p s) [
  | fail e ↦ fail e
  | pass s' ↦ classify_from s' ps
]

unfoldable pub classify : List Entry → Checked Sums
classify entries = classify_from (record { live = 0; stale = 0 }) entries

abbrev pub has : List String → String → Bool
has [] y = false
has (x ∷ xs) y = str_eq x y || has xs y

abbrev pub names : List Reported → List String
names [] = []
names (s ∷ ss) = s.y ∷ names ss

-- The loop over one reply, `out` being what the replies so far came to.
abbrev pub read_reply : List String → List Reported → List StateEntry → Checked (List StateEntry)
read_reply batch out [] = pass out
read_reply batch out (s ∷ ss) =
    let rest = read_reply batch (s ∷ out) ss in
    if not (has batch s.y) || has (names out) s.y
    then fail (ensure_failed "unexpected/duplicate mint Y")
    else if not (str_eq s.state "SPENT" || str_eq s.state "UNSPENT")
    then fail (ensure_failed "pending/unknown proof state; stop")
    else rest

abbrev pub read_batch :
    List String → List StateEntry → Option (List Reported) → Checked (List StateEntry)
read_batch batch out none = fail external
read_batch batch out (some reply) =
    if length reply == length batch
    then read_reply batch out reply
    else fail (ensure_failed "incomplete mint reply")

-- `chunks(100)`; the fuel is the length of the list, and each batch takes one at least.
abbrev pub take : {A : Type 0} → ℕ → List A → List A
take zero xs = []
take (suc n) [] = []
take (suc n) (x ∷ xs) = x ∷ take n xs

abbrev pub drop : {A : Type 0} → ℕ → List A → List A
drop zero xs = xs
drop (suc n) [] = []
drop (suc n) (x ∷ xs) = drop n xs

abbrev pub chunks : {A : Type 0} → ℕ → ℕ → List A → List (List A)
chunks size zero xs = []
chunks size (suc fuel) [] = []
chunks size (suc fuel) (x ∷ xs) = take size (x ∷ xs) ∷ chunks size fuel (drop size (x ∷ xs))

abbrev pub read_batches :
    (List String → Option (List Reported))
    → List StateEntry
    → List (List String)
    → Checked (List StateEntry)
read_batches checkstate out [] = pass out
read_batches checkstate out (batch ∷ batches) = elim (read_batch batch out (checkstate batch)) [
  | fail e ↦ fail e
  | pass out' ↦ read_batches checkstate out' batches
]

abbrev pub covering : List String → Checked (List StateEntry) → Checked (List StateEntry)
covering ys (fail e) = fail e
covering ys (pass out) =
    if length out == length ys
    then pass out
    else fail (ensure_failed "mint state coverage mismatch")

unfoldable pub states :
    (List String → Option (List Reported)) → List String → Checked (List StateEntry)
states checkstate ys = covering ys (read_batches checkstate [] (chunks 100 (length ys) ys))

abbrev pub all_unspent : List StateEntry → Bool
all_unspent [] = true
all_unspent (s ∷ ss) = str_eq s.state "UNSPENT" && all_unspent ss

abbrev pub verify_all : List String → String → List String → List Reported → Checked (Unit {0})
verify_all ys expected seen [] = pass tt
verify_all ys expected seen (s ∷ ss) =
    let rest = verify_all ys expected (s.y ∷ seen) ss in
    if has ys s.y && not (has seen s.y) && str_eq s.state expected
    then rest
    else fail (ensure_failed "unexpected proof state")

unfoldable pub verify_state_response : List String → List Reported → String → Checked (Unit {0})
verify_state_response ys reply expected =
    if length reply == length ys
    then verify_all ys expected [] reply
    else fail (ensure_failed "state coverage mismatch")
