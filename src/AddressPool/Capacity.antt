-- ===== src/AddressPool/Capacity.antt =====
-- backend/src/address.rs, `ensure_capacity`: how long the filling of the pool runs.
use shuestand.Prelude.{
  String, ℕ, zero, suc, ◌+◌, ◌-◌, ◌≤◌, ◌<◌, ◌≡◌, ◌≢◌, inl, inr, refl, ap, ◌∙◌, sym, Option, some,
  Bool, true, false, List, [], ◌∷◌, arith, leb, leb→le, leb→gt, str_eq, eq_iff, length, exists_row,
  count_where, Bool-cases, if◌then◌else◌,
}
use shuestand.Failure.{pass}
use shuestand.Db.Tables.{Tables, Address, ok}
use shuestand.Db.Addresses.{
  NewAddress, has_id, has_address, new_row, insert_address, count_available_addresses,
}
use shuestand.AddressPool.{fill, ensure_capacity, new_address, pool_target, next_index}

-- The addresses that later indices may still collide with.
has : String → List String → Bool
has s [] = false
has s (x ∷ xs) = if str_eq x s then true else has s xs

drop_one : String → List String → List String
drop_one s [] = []
drop_one s (x ∷ xs) = let rest = drop_one s xs in if str_eq x s then xs else x ∷ rest

length-drop_one :
    (s : String) (xs : List String) → has s xs ≡ true → length xs ≡ suc (length (drop_one s xs))
unfolding has drop_one
length-drop_one s [] h = cc
length-drop_one s (x ∷ xs) h = ground (arith, length-drop_one s xs)

has-drop_one :
    (s r : String) (xs : List String) → r ≢ s → has r xs ≡ true → has r (drop_one s xs) ≡ true
unfolding has drop_one
has-drop_one s r [] ne h = cc
has-drop_one s r (x ∷ xs) ne h = ground (arith, has-drop_one s r xs, eq_iff x s, eq_iff x r)

insert_old :
    (a : NewAddress) (t : Tables)
    → exists_row (has_address a.address) t.addresses ≡ true
    → insert_address a t ≡ (ok false, t)
unfolding insert_address
insert_old a t h = rw h

insert_new :
    (a : NewAddress) (t : Tables)
    → exists_row (has_address a.address) t.addresses ≡ false
    → exists_row (has_id a.id) t.addresses ≡ false
    → insert_address a t ≡ (ok true, record t { addresses = new_row a ∷ t.addresses })
unfolding insert_address
insert_new a t h k = rw (h, k)

pub str_ne : (s r : String) → s ≢ r → str_eq s r ≡ false
str_ne s r ne = elim (Bool-cases (str_eq s r)) [
  | inl e ↦ absurd (ne ((eq_iff s r).0 e))
  | inr e ↦ e
]

-- What the filling of the pool relies on: every index has an address, no two the same, and ids are
-- drawn once.
pub record Supplies (derive : ℕ → Option String) (fresh : ℕ → String) : Type 0 where
  pub addr : ℕ → String
  pub derives : (i : ℕ) → derive i ≡ some (addr i)
  pub addresses_differ : (i j : ℕ) → i < j → addr i ≢ addr j
  pub ids_differ : (i j : ℕ) → i < j → fresh i ≢ fresh j

-- No id that is yet to be drawn stands in the table.
abbrev pub Undrawn : (ℕ → String) → ℕ → Tables → Type 0
Undrawn fresh draw t = (d : ℕ) → draw ≤ d → exists_row (has_id (fresh d)) t.addresses ≡ false

module _ (derive : ℕ → Option String) (fresh : ℕ → String) (target now : ℕ)
    (sup : Supplies derive fresh) where
  -- Whatever a later index collides with is in the list.
  abbrev Covers : ℕ → Tables → List String → Type 0
  Covers index t names =
      (j : ℕ)
      → index ≤ j
      → exists_row (has_address (sup.addr j)) t.addresses ≡ true
      → has (sup.addr j) names ≡ true

  abbrev added : ℕ → ℕ → Tables → Tables
  added draw index t = record t {
    addresses =
        new_row (new_address derive fresh target now draw index (sup.addr index)) ∷ t.addresses;
  }

  added-Covers :
      (index draw : ℕ) (t : Tables) (names : List String)
      → Covers index t names
      → Covers (index + 1) (added draw index t) names
  unfolding exists_row new_row
  added-Covers index draw t names c j le e =
      c j (omega arith) (
        rw (str_ne (sup.addr index) (sup.addr j) (sup.addresses_differ index j (omega arith))) at e)

  added-Undrawn :
      (index draw : ℕ) (t : Tables)
      → Undrawn fresh draw t
      → Undrawn fresh (draw + 1) (added draw index t)
  unfolding exists_row new_row
  added-Undrawn index draw t u d le =
      rw (str_ne (fresh draw) (fresh d) (sup.ids_differ draw d (omega arith))) (u d (omega arith))

  dropped-Covers :
      (index : ℕ) (t : Tables) (names : List String)
      → Covers index t names
      → Covers (index + 1) t (drop_one (sup.addr index) names)
  dropped-Covers index t names c j le e =
      has-drop_one (sup.addr index) (sup.addr j) names
        (λ same. sup.addresses_differ index j (omega arith) (sym same)) (c j (omega arith) e)

  added-count :
      (draw index : ℕ) (t : Tables)
      → count_available_addresses (added draw index t) ≡ count_available_addresses t + 1
  unfolding count_available_addresses count_where new_row
  added-count draw index t = ground arith

  fill-full :
      (fuel n index draw : ℕ) (t : Tables)
      → leb (pool_target target) n ≡ true
      → fill derive fresh target now (suc fuel) n index draw t ≡ some (pass tt, t)
  unfolding fill
  fill-full fuel n index draw t h = rw (h, fill)

  fill-old :
      (fuel n index draw : ℕ) (t : Tables)
      → leb (pool_target target) n ≡ false
      → exists_row (has_address (sup.addr index)) t.addresses ≡ true
      → fill derive fresh target now (suc fuel) n index draw t
        ≡ fill derive fresh target now fuel n (index + 1) (draw + 1) t
  unfolding fill
  fill-old fuel n index draw t h old =
      let e = insert_old (new_address derive fresh target now draw index (sup.addr index)) t old in
      rw (h, fill, sup.derives index, e)
        (ap (λ r. fill derive fresh target now fuel n (index + 1) (draw + 1) r.1) e)

  fill-new :
      (fuel n index draw : ℕ) (t : Tables)
      → leb (pool_target target) n ≡ false
      → exists_row (has_address (sup.addr index)) t.addresses ≡ false
      → exists_row (has_id (fresh draw)) t.addresses ≡ false
      → fill derive fresh target now (suc fuel) n index draw t
        ≡ fill derive fresh target now fuel (n + 1) (index + 1) (draw + 1) (added draw index t)
  unfolding fill
  fill-new fuel n index draw t h new u =
      let e =
        insert_new (new_address derive fresh target now draw index (sup.addr index)) t new u in
      rw (h, fill, sup.derives index, e)
        (ap (λ r. fill derive fresh target now fuel (n + 1) (index + 1) (draw + 1) r.1) e)

  fill_enough :
      (fuel n index draw : ℕ) (t : Tables) (names : List String)
      → n ≡ count_available_addresses t
      → Covers index t names
      → Undrawn fresh draw t
      → pool_target target - n + length names < fuel
      → (t' : Tables) × (fill derive fresh target now fuel n index draw t ≡ some (pass tt, t'))
        × (pool_target target ≤ count_available_addresses t')
  fill_enough zero n index draw t names c k u h = absurd (omega arith)
  fill_enough (suc fuel) n index draw t names c k u h =
      elim (Bool-cases (leb (pool_target target) n)) [
        | inl full ↦
            (t, fill-full fuel n index draw t full, rw c at (leb→le (pool_target target) n full))
        | inr short ↦ elim (Bool-cases (exists_row (has_address (sup.addr index)) t.addresses)) [
          | inl old ↦
              let fewer = length-drop_one (sup.addr index) names (k index (omega arith) old) in
              let (t', e, b) =
                fill_enough fuel n (index + 1) (draw + 1) t (drop_one (sup.addr index) names) c
                  (dropped-Covers index t names k) (λ d le. u d (omega arith)) (omega arith) in
              (t', fill-old fuel n index draw t short old ∙ e, b)
          | inr new ↦
              let more = leb→gt (pool_target target) n short in
              let (t', e, b) =
                fill_enough fuel (n + 1) (index + 1) (draw + 1) (added draw index t) names
                  (ap (λ x. x + 1) c ∙ sym (added-count draw index t))
                  (added-Covers index draw t names k) (added-Undrawn index draw t u)
                  (omega arith) in
              (t', fill-new fuel n index draw t short new (u draw (omega arith)) ∙ e, b)
        ]
      ]

abbrev pub names_of : List Address → List String
names_of [] = []
names_of (a ∷ as') = a.address ∷ names_of as'

has-names_of :
    (s : String) (as' : List Address)
    → exists_row (has_address s) as' ≡ true
    → has s (names_of as') ≡ true
unfolding exists_row has
has-names_of s [] h = h
has-names_of s (a ∷ as') h = ground (arith, has-names_of s as')

-- A pool whose factory gives every index an address of its own, and whose source of ids never
-- repeats, is filled: with fuel above the target and the number of rows, `ensure_capacity`
-- succeeds and leaves at least `max(target, 1)` addresses available.
pub ensure_capacity_enough :
    (derive : ℕ → Option String) (fresh : ℕ → String) (target now : ℕ) (sup : Supplies derive fresh)
    (fuel draw : ℕ) (t : Tables)
    → Undrawn fresh draw t
    → pool_target target + length (names_of t.addresses) < fuel
    → (t' : Tables) × (ensure_capacity derive fresh target now fuel draw t ≡ some (pass tt, t'))
      × (pool_target target ≤ count_available_addresses t')
unfolding ensure_capacity
ensure_capacity_enough derive fresh target now sup fuel draw t u h =
    elim (Bool-cases (leb (pool_target target) (count_available_addresses t))) [
      | inl full ↦ (t, rw full, leb→le (pool_target target) (count_available_addresses t) full)
      | inr short ↦
          let (t', e, b) =
            fill_enough derive fresh target now sup fuel (count_available_addresses t)
              (next_index derive fresh target now t) draw t (names_of t.addresses) refl
              (λ j le. has-names_of (sup.addr j) t.addresses) u (omega arith) in
          (t', rw short e, b)
    ]
