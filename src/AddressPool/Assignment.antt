-- ===== src/AddressPool/Assignment.antt =====
-- backend/src/address.rs, `assign_address`: its loop ends. The ids of the addresses table, its primary
-- key, differ.
use shuestand.Prelude.{
  String, ℕ, suc, ◌+◌, ◌≤◌, ◌<◌, ◌≡◌, inl, inr, refl, ◌∙◌, subst, Option, none, some, Bool, true,
  false, ◌&&◌, List, [], ◌∷◌, arith, str_eq, eq_iff, length, exists_row, find_row, find_row-holds,
  count_where, order_by, count_where-order_by, find_row-count_where, missing-count_where,
  count_where-updated, Bool-cases, Option-cases,
}
use shuestand.Failure.{Checked, pass}
use shuestand.Db.Tables.{Tables, Address}
use shuestand.Db.Addresses.{
  NewAddress, PoolAddress, has_id, has_address, is_free, new_row, insert_address, claims_row,
  allocate, serves, claim_address, fetch_available_address, count_available_addresses,
}
use shuestand.AddressPool.{pool_target, ensure_capacity, assign_address}
use shuestand.AddressPool.Keeps.{Leaves, ensure_capacity-Leaves}
use shuestand.AddressPool.Capacity.{Supplies, Undrawn, names_of, ensure_capacity_enough}

-- No two rows have one id.
abbrev pub UniqueIds : List Address → Type 0
UniqueIds [] = Unit {0}
UniqueIds (a ∷ as') = (exists_row (has_id a.id) as' ≡ false) × UniqueIds as'

absent-count_where :
    (id : String) (as' : List Address)
    → exists_row (has_id id) as' ≡ false
    → count_where (claims_row id) as' ≡ 0
unfolding exists_row count_where
absent-count_where id [] h = refl
absent-count_where id (a ∷ as') h = ground (arith, absent-count_where id as')

UniqueIds-count_where :
    (id : String) (as' : List Address) → UniqueIds as' → count_where (claims_row id) as' ≤ 1
unfolding count_where
UniqueIds-count_where id [] d = omega arith
UniqueIds-count_where id (a ∷ as') d = elim (Bool-cases (str_eq a.id id)) [
  | inl e ↦
      let none_left =
        absent-count_where id as'
          (subst (λ i. exists_row (has_id i) as' ≡ false) ((eq_iff a.id id).0 e) d.0) in
      rw e (ground arith)
  | inr e ↦ rw e (omega (arith, UniqueIds-count_where id as' d.1))
]

insert-UniqueIds :
    (a : NewAddress) (t : Tables)
    → UniqueIds t.addresses
    → UniqueIds (insert_address a t).1.addresses
unfolding insert_address new_row
insert-UniqueIds a t d = elim (Bool-cases (exists_row (has_address a.address) t.addresses)) [
  | inl old ↦ rw old d
  | inr new ↦ elim (Bool-cases (exists_row (has_id a.id) t.addresses)) [
    | inl known ↦ rw (new, known) d
    | inr other ↦ rw (new, other) (other, d)
  ]
]

-- With a free row, the first round of `assign_address` ends the loop.
abbrev HasFree : Tables → Type 0
HasFree t = 1 ≤ count_available_addresses t

-- The address is handed out: a row with its id and text serves the deposit.
abbrev given_to : String → PoolAddress → Address → Bool
given_to deposit c a = has_id c.id a && (has_address c.address a && serves deposit a)

abbrev pub Serves : String → PoolAddress → Tables → Type 0
Serves deposit c t = 1 ≤ count_where (given_to deposit c) t.addresses

abbrev candidate_of : Address → PoolAddress
candidate_of a = record { id = a.id; address = a.address; derivation_index = a.derivation_index }

free_row :
    (t : Tables)
    → HasFree t
    → (a : Address) × (find_row is_free (order_by (λ r. r.derivation_index) t.addresses) ≡ some a)
unfolding count_available_addresses
free_row t h =
    let rows = order_by (λ r. r.derivation_index) t.addresses in
    elim (Option-cases (find_row is_free rows)) [
      | inl e ↦ absurd (
          omega (
            arith,
            h,
            missing-count_where is_free rows e,
            count_where-order_by is_free (λ r. r.derivation_index) t.addresses,
          ))
      | inr found ↦ found
    ]

claims_one :
    (t : Tables) (a : Address)
    → UniqueIds t.addresses
    → find_row is_free (order_by (λ r. r.derivation_index) t.addresses) ≡ some a
    → count_where (claims_row a.id) t.addresses ≡ 1
claims_one t a d e =
    let rows = order_by (λ r. r.derivation_index) t.addresses in
    let free : is_free a ≡ true = find_row-holds is_free rows a e in
    let own : claims_row a.id a ≡ true = rw ((eq_iff a.id a.id).1 refl, free) refl in
    omega (
      arith,
      UniqueIds-count_where a.id t.addresses d,
      find_row-count_where (claims_row a.id) is_free rows a e own,
      count_where-order_by (claims_row a.id) (λ r. r.derivation_index) t.addresses,
    )

claimed-Serves :
    (deposit : String) (now : ℕ) (t : Tables) (a : Address)
    → find_row is_free (order_by (λ r. r.derivation_index) t.addresses) ≡ some a
    → Serves deposit (candidate_of a) (claim_address a.id deposit now t).1
unfolding claim_address allocate
claimed-Serves deposit now t a e =
    let rows = order_by (λ r. r.derivation_index) t.addresses in
    let put : Address → Bool =
      λ r. claims_row a.id r && given_to deposit (candidate_of a) (allocate deposit now r) in
    let free : is_free a ≡ true = find_row-holds is_free rows a e in
    let own : put a ≡ true =
      rw
        (
          free,
          (eq_iff a.id a.id).1 refl,
          (eq_iff a.address a.address).1 refl,
          (eq_iff deposit deposit).1 refl,
        )
        refl in
    omega (
      arith,
      find_row-count_where put is_free rows a e own,
      count_where-order_by put (λ r. r.derivation_index) t.addresses,
      count_where-updated (given_to deposit (candidate_of a)) (claims_row a.id)
          (allocate deposit now) t.addresses,
    )

fetched-HasFree : (t : Tables) (c : PoolAddress) → fetch_available_address t ≡ some c → HasFree t
unfolding fetch_available_address count_available_addresses
fetched-HasFree t c e =
    let rows = order_by (λ r. r.derivation_index) t.addresses in
    elim (Option-cases (find_row is_free rows)) [
      | inl gone ↦ absurd (cc (rw (gone, fetch_available_address) at e))
      | inr (a, there) ↦ omega (
        arith,
        find_row-count_where is_free is_free rows a there (find_row-holds is_free rows a there),
        count_where-order_by is_free (λ r. r.derivation_index) t.addresses,
      )
    ]

fetched :
    (t : Tables) (a : Address)
    → find_row is_free (order_by (λ r. r.derivation_index) t.addresses) ≡ some a
    → fetch_available_address t ≡ some (candidate_of a)
unfolding fetch_available_address
fetched t a e = rw (e, fetch_available_address) refl

module _ (derive : ℕ → Option String) (fresh : ℕ → String) (target now : ℕ) where
  -- The loop of `assign_address` ended with an address.
  abbrev pub HandsOut : String → Option (Checked PoolAddress × Tables) → Type 0
  HandsOut deposit o =
      (c : PoolAddress) × (t : Tables) × (o ≡ some (pass c, t)) × Serves deposit c t

  assign_fetched :
      (rounds fuel draw : ℕ) (deposit : String) (t : Tables) (c : PoolAddress)
      → fetch_available_address t ≡ some c
      → count_where (claims_row c.id) t.addresses ≡ 1
      → assign_address derive fresh target now (suc rounds) fuel draw deposit t
        ≡ some (pass c, (claim_address c.id deposit now t).1)
  unfolding assign_address claim_address
  assign_fetched rounds fuel draw deposit t c e won = rw (e, assign_address, won) refl

  assign_filled :
      (rounds fuel draw : ℕ) (deposit : String) (t t' : Tables)
      → fetch_available_address t ≡ none
      → ensure_capacity derive fresh target now fuel draw t ≡ some (pass tt, t')
      → assign_address derive fresh target now (suc rounds) fuel draw deposit t
        ≡ assign_address derive fresh target now rounds fuel (draw + fuel) deposit t'
  unfolding assign_address
  assign_filled rounds fuel draw deposit t t' e filled = rw (e, assign_address, filled) refl

  assign_free :
      (rounds fuel draw : ℕ) (deposit : String) (t : Tables)
      → UniqueIds t.addresses
      → HasFree t
      → HandsOut deposit (assign_address derive fresh target now (suc rounds) fuel draw deposit t)
  assign_free rounds fuel draw deposit t d h =
      let (a, e) = free_row t h in
      (
        candidate_of a,
        (claim_address a.id deposit now t).1,
        assign_fetched rounds fuel draw deposit t (candidate_of a) (fetched t a e)
            (claims_one t a d e),
        claimed-Serves deposit now t a e,
      )

  -- The pool hands out an address, within two rounds of its loop: with the supplies and the fuel of
  -- `ensure_capacity_enough`, where the ids of the table differ, `assign_address` answers an address
  -- of the table whose row now serves the deposit.
  pub assign_address-HandsOut :
      (sup : Supplies derive fresh) (rounds fuel draw : ℕ) (deposit : String) (t : Tables)
      → UniqueIds t.addresses
      → Undrawn fresh draw t
      → pool_target target + length (names_of t.addresses) < fuel
      → HandsOut deposit
          (assign_address derive fresh target now (suc (suc rounds)) fuel draw deposit t)
  assign_address-HandsOut sup rounds fuel draw deposit t d u enough =
      elim (Option-cases (fetch_available_address t)) [
        | inr (c, e) ↦ assign_free (suc rounds) fuel draw deposit t d (fetched-HasFree t c e)
        | inl e ↦
            let (t', filled, full) =
              ensure_capacity_enough derive fresh target now sup fuel draw t u enough in
            let (c, t'', answered, served) =
              assign_free rounds fuel (draw + fuel) deposit t' (distinct t' filled) (omega arith) in
            (c, t'', assign_filled (suc rounds) fuel draw deposit t t' e filled ∙ answered, served)
      ]
    where
      distinct :
          (t' : Tables)
          → ensure_capacity derive fresh target now fuel draw t ≡ some (pass tt, t')
          → UniqueIds t'.addresses
      distinct t' filled = subst (Leaves (λ v. UniqueIds v.addresses)) filled (
          ensure_capacity-Leaves (λ v. UniqueIds v.addresses) insert-UniqueIds derive fresh target
            now fuel draw t d)
