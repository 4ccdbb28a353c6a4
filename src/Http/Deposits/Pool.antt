-- ===== src/Http/Deposits/Pool.antt =====
-- backend/src/http.rs, `create_deposit`, with the pool of backend/src/address.rs as what assigns the
-- address. A pool that is still filling after its rounds counts as one that failed.
use shuestand.Prelude.{String, ℕ, ◌≡◌, refl, Option, none, some}
use shuestand.Failure.{Checked, fail, external}
use shuestand.Db.Tables.{Tables}
use shuestand.Db.Addresses.{PoolAddress}
use shuestand.AddressPool.{assign_address}
use shuestand.AddressPool.Frame.{Framed, assign_address-Framed}

abbrev pub settled_pool :
    Tables → Option (Checked PoolAddress × Tables) → Checked PoolAddress × Tables
settled_pool t none = (fail external, t)
settled_pool t (some r) = r

module _ (derive : ℕ → Option String) (fresh : ℕ → String) (target now rounds fuel draw : ℕ) where
  abbrev pub from_pool : String → Tables → Checked PoolAddress × Tables
  from_pool deposit t =
      settled_pool t (assign_address derive fresh target now rounds fuel draw deposit t)

  settled-deposits :
      (t : Tables) (o : Option (Checked PoolAddress × Tables))
      → Framed t o
      → (settled_pool t o).1.deposits ≡ t.deposits
  settled-deposits t none h = refl
  settled-deposits t (some r) h = h

  -- The pool leaves the deposits alone, as the theorems on `create_deposit` want it.
  pub from_pool-deposits :
      (deposit : String) (t : Tables) → (from_pool deposit t).1.deposits ≡ t.deposits
  from_pool-deposits deposit t =
      settled-deposits t _
        (assign_address-Framed derive fresh target now rounds fuel draw deposit t)
