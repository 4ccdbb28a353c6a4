-- ===== src/AddressPool.antt =====
-- backend/src/address.rs: the pool of deposit addresses. The factory that derives an address from
-- an index stands on the descriptor library, and is a parameter; ids come from a source of fresh
-- texts, one for each draw. Indices stay below 2 ^ 31, where the casts to and from i32 and u32
-- change nothing. The loops take fuel: AddressPool/Capacity is about that of `ensure_capacity`, and
-- AddressPool/Assignment about the rounds of `assign_address`.
pub mod Assignment
pub mod Capacity
pub mod Frame
pub mod Keeps
use shuestand.Prelude.{
  String, ℕ, ◌+◌, zero, suc, Option, none, some, Bool, true, false, leb, max, if◌then◌else◌,
}
use shuestand.Failure.{Failure, Checked, pass, fail, external, database}
use shuestand.Db.States.Address.{available}
use shuestand.Db.Tables.{Tables, Result, ok, err, DbError}
use shuestand.Db.Addresses.{
  NewAddress, PoolAddress, count_available_addresses, max_derivation_index, insert_address,
  fetch_available_address, claim_address,
}

-- `target.max(1)`, of `AddressPool::new`.
abbrev pub pool_target : ℕ → ℕ
pool_target target = max target 1

module _ (derive : ℕ → Option String) (fresh : ℕ → String) (target now : ℕ) where
  abbrev pub new_address : ℕ → ℕ → String → NewAddress
  new_address draw index address = record {
    id = fresh draw;
    derivation_index = index;
    address = address;
    state = available;
    created_at = now;
    updated_at = now;
  }

  -- The answer of `insert_address` in the loop: how many are available now, or the error.
  abbrev pub after_insert : ℕ → Result Bool → Checked ℕ
  after_insert n (ok true) = pass (n + 1)
  after_insert n (ok false) = pass n
  after_insert n (err e) = fail (database e)

  -- `while available < self.target`, from the number available, the next index, and the draws of
  -- fresh ids so far. The outer `none` says that the fuel ran out.
  unfoldable pub fill : ℕ → ℕ → ℕ → ℕ → Tables → Option (Checked (Unit {0}) × Tables)
  fill zero n index draw t = none
  fill (suc fuel) n index draw t = elim (leb (pool_target target) n) [
    | true ↦ some (pass tt, t)
    | false ↦ elim (derive index) [
      | none ↦ some (fail external, t)
      | some address ↦
          let (r, t') = insert_address (new_address draw index address) t in
          elim (after_insert n r) [
            | pass n' ↦ fill fuel n' (index + 1) (draw + 1) t'
            | fail e ↦ some (fail e, t')
          ]
    ]
  ]

  unfoldable pub next_index : Tables → ℕ
  next_index t = elim (max_derivation_index t) [ none ↦ 0 | some v ↦ v + 1 ]

  unfoldable pub ensure_capacity : ℕ → ℕ → Tables → Option (Checked (Unit {0}) × Tables)
  unfolding fill next_index
  ensure_capacity fuel draw t =
      if leb (pool_target target) (count_available_addresses t)
      then some (pass tt, t)
      else fill fuel (count_available_addresses t) (next_index t) draw t

  -- `assign_address`: the loop's rounds are `rounds`, and `fuel` is for each filling of the pool.
  unfoldable pub assign_address :
      ℕ → ℕ → ℕ → String → Tables → Option (Checked PoolAddress × Tables)
  assign_address zero fuel draw deposit t = none
  assign_address (suc rounds) fuel draw deposit t = elim (fetch_available_address t) [
    | none ↦ elim (ensure_capacity fuel draw t) [
      | none ↦ none
      | some (fail e, t') ↦ some (fail e, t')
      | some (pass u, t') ↦ assign_address rounds fuel (draw + fuel) deposit t'
    ]
    | some candidate ↦
        let (r, t') = claim_address candidate.id deposit now t in
        elim r [
          | err e ↦ some (fail (database e), t')
          | ok true ↦ some (pass candidate, t')
          | ok false ↦ assign_address rounds fuel draw deposit t'
        ]
  ]
