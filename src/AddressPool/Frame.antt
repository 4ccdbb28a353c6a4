-- ===== src/AddressPool/Frame.antt =====
-- backend/src/address.rs: the pool touches no table but its own.
use shuestand.Prelude.{
  String, ℕ, zero, suc, ◌+◌, ◌≡◌, refl, ◌∙◌, Option, none, some, Bool, true, false, exists_row,
  if◌then◌else◌, ◌∷◌, count_where, ◌==◌,
}
use shuestand.Failure.{Checked, pass, fail, database}
use shuestand.Db.Tables.{Tables, Result, ok, err, unique_violation}
use shuestand.Db.Addresses.{
  NewAddress, PoolAddress, has_address, has_id, new_row, insert_address, fetch_available_address,
  claim_address, claims_row,
}
use shuestand.AddressPool.Keeps.{Leaves, ensure_capacity-Leaves}
use shuestand.AddressPool.{ensure_capacity, assign_address}

-- A result whose deposits are those of the tables before it.
abbrev pub Framed : {A : Type 0} → Tables → Option (A × Tables) → Type 0
Framed t o = Leaves (λ u. u.deposits ≡ t.deposits) o

Framed-from :
    {A : Type 0} (t t' : Tables) (o : Option (A × Tables))
    → t'.deposits ≡ t.deposits
    → Framed t' o
    → Framed t o
Framed-from t t' none e h = tt
Framed-from t t' (some r) e h = h ∙ e

insert-deposits : (a : NewAddress) (t : Tables) → (insert_address a t).1.deposits ≡ t.deposits
unfolding insert_address
insert-deposits a t =
    go (exists_row (has_address a.address) t.addresses) (exists_row (has_id a.id) t.addresses)
  where
    go :
        (b c : Bool)
        → let r : Result Bool × Tables =
            if b
            then (ok false, t)
            else if c
            then (err unique_violation, t)
            else (ok true, record t { addresses = new_row a ∷ t.addresses }) in
          r.1.deposits ≡ t.deposits
    go true c = refl
    go false true = refl
    go false false = refl

module _ (derive : ℕ → Option String) (fresh : ℕ → String) (target now : ℕ) where
  -- Handing out an address leaves the deposits alone, however many rounds it takes.
  pub assign_address-Framed :
      (rounds fuel draw : ℕ) (deposit : String) (t : Tables)
      → Framed t (assign_address derive fresh target now rounds fuel draw deposit t)
  unfolding assign_address claim_address
  assign_address-Framed zero fuel draw deposit t = tt
  assign_address-Framed (suc rounds) fuel draw deposit t =
      chosen (fetch_available_address t) (λ d u. assign_address-Framed rounds fuel d deposit u)
    where
      filled :
          (o : Option (Checked (Unit {0}) × Tables))
          → Framed t o
          → ((d : ℕ) (u : Tables)
              → Framed u (assign_address derive fresh target now rounds fuel d deposit u))
          → Framed t (elim o as (λ y. Option (Checked PoolAddress × Tables)) [
            | none ↦ none
            | some (fail e, t') ↦ some (fail e, t')
            | some (pass u, t') ↦
                assign_address derive fresh target now rounds fuel (draw + fuel) deposit t'
          ])
      filled none h ih = tt
      filled (some (fail e, t')) h ih = h
      filled (some (pass u, t')) h ih = Framed-from t t' _ h (ih (draw + fuel) t')

      claimed :
          (b : Bool) (c : PoolAddress) (t' : Tables)
          → t'.deposits ≡ t.deposits
          → ((d : ℕ) (u : Tables)
              → Framed u (assign_address derive fresh target now rounds fuel d deposit u))
          → Framed {A = Checked PoolAddress} t (
              let r : Result Bool = ok b in
              elim r as (λ y. Option (Checked PoolAddress × Tables)) [
                | err e ↦ some (fail (database e), t')
                | ok true ↦ some (pass c, t')
                | ok false ↦ assign_address derive fresh target now rounds fuel draw deposit t'
              ])
      claimed true c t' e ih = e
      claimed false c t' e ih = Framed-from t t' _ e (ih draw t')

      chosen :
          (o : Option PoolAddress)
          → ((d : ℕ) (u : Tables)
              → Framed u (assign_address derive fresh target now rounds fuel d deposit u))
          → Framed {A = Checked PoolAddress} t
              (elim o as (λ y. Option (Checked PoolAddress × Tables)) [
                | none ↦
                    elim (ensure_capacity derive fresh target now fuel draw t)
                      as (λ y. Option (Checked PoolAddress × Tables)) [
                        | none ↦ none
                        | some (fail e, t') ↦ some (fail e, t')
                        | some (pass u, t') ↦
                            assign_address derive fresh target now rounds fuel
                              (draw + fuel)
                              deposit
                              t'
                      ]
                | some candidate ↦
                    let (r, t') = claim_address candidate.id deposit now t in
                    elim r as (λ y. Option (Checked PoolAddress × Tables)) [
                      | err e ↦ some (fail (database e), t')
                      | ok true ↦ some (pass candidate, t')
                      | ok false ↦
                          assign_address derive fresh target now rounds fuel draw deposit t'
                    ]
              ])
      chosen none ih =
          filled (ensure_capacity derive fresh target now fuel draw t)
            (ensure_capacity-Leaves (λ u. u.deposits ≡ t.deposits)
              (λ a u e. insert-deposits a u ∙ e) derive fresh target now fuel draw t refl)
            ih
      chosen (some c) ih =
          claimed (count_where (claims_row c.id) t.addresses == 1) c
            (claim_address c.id deposit now t).1 refl ih
