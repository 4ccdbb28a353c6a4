-- ===== src/AddressPool/Keeps.antt =====
-- backend/src/address.rs, `ensure_capacity`: what every insertion keeps, the filling of the pool keeps.
use shuestand.Prelude.{
  String, ℕ, zero, suc, ◌+◌, Option, none, some, Bool, true, false, leb, if◌then◌else◌,
}
use shuestand.Failure.{Checked, pass, fail, external}
use shuestand.Db.Tables.{Tables}
use shuestand.Db.Addresses.{NewAddress, insert_address, count_available_addresses}
use shuestand.AddressPool.{
  pool_target, fill, ensure_capacity, after_insert, new_address, next_index,
}

-- The tables of a result, if there is one.
abbrev pub Leaves : {A : Type 0} → (Tables → Type 0) → Option (A × Tables) → Type 0
Leaves P none = Unit {0}
Leaves P (some r) = P r.1

module _ (P : Tables → Type 0)
    (keep : (a : NewAddress) (t : Tables) → P t → P (insert_address a t).1)
    (derive : ℕ → Option String) (fresh : ℕ → String) (target now : ℕ) where
  fill-Leaves :
      (fuel n index draw : ℕ) (t : Tables)
      → P t
      → Leaves P (fill derive fresh target now fuel n index draw t)
  unfolding fill
  fill-Leaves zero n index draw t h = tt
  fill-Leaves (suc fuel) n index draw t h =
      full (leb (pool_target target) n) (derive index)
        (λ n' t'. fill-Leaves fuel n' (index + 1) (draw + 1) t')
    where
      inserted :
          (r : Checked ℕ) (t' : Tables)
          → P t'
          → ((n' : ℕ) (u : Tables)
              → P u
              → Leaves P (fill derive fresh target now fuel n' (index + 1) (draw + 1) u))
          → Leaves P (elim r as (λ y. Option (Checked (Unit {0}) × Tables)) [
            | pass n' ↦ fill derive fresh target now fuel n' (index + 1) (draw + 1) t'
            | fail e ↦ some (fail e, t')
          ])
      inserted (pass n') t' k ih = ih n' t' k
      inserted (fail x) t' k ih = k

      full :
          (b : Bool) (o : Option String)
          → ((n' : ℕ) (u : Tables)
              → P u
              → Leaves P (fill derive fresh target now fuel n' (index + 1) (draw + 1) u))
          → Leaves P (elim b as (λ y. Option (Checked (Unit {0}) × Tables)) [
            | true ↦ some (pass tt, t)
            | false ↦ elim o as (λ y. Option (Checked (Unit {0}) × Tables)) [
              | none ↦ some (fail external, t)
              | some address ↦
                  let (r, t') =
                    insert_address (new_address derive fresh target now draw index address) t in
                  elim (after_insert derive fresh target now n r)
                    as (λ y. Option (Checked (Unit {0}) × Tables)) [
                      | pass n' ↦ fill derive fresh target now fuel n' (index + 1) (draw + 1) t'
                      | fail e ↦ some (fail e, t')
                    ]
            ]
          ])
      full true o ih = h
      full false none ih = h
      full false (some address) ih =
          inserted _ _ (keep (new_address derive fresh target now draw index address) t h) ih

  pub ensure_capacity-Leaves :
      (fuel draw : ℕ) (t : Tables)
      → P t
      → Leaves P (ensure_capacity derive fresh target now fuel draw t)
  unfolding ensure_capacity
  ensure_capacity-Leaves fuel draw t h = go (leb (pool_target target) (count_available_addresses t))
    where
      go :
          (b : Bool)
          → Leaves P (
              if b
              then some (pass tt, t)
              else fill derive fresh target now fuel
                  (count_available_addresses t)
                  (next_index derive fresh target now t)
                  draw
                  t)
      go true = h
      go false = fill-Leaves fuel _ _ draw t h
