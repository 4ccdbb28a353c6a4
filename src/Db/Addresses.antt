-- ===== src/Db/Addresses.antt =====
-- backend/src/db.rs: the statements on the addresses table. `now` is the clock's answer.
use shuestand.Prelude.{
  String, ℕ, Option, none, some, List, [], ◌∷◌, Bool, true, false, ◌&&◌, str_eq, ◌==◌, max,
  if◌then◌else◌, coalesce, find_row, update_where, count_where, exists_row, order_by,
}
use shuestand.Db.States.Address.{AddressState, allocated, is_available}
use shuestand.Db.Tables.{Address, Tables, Result, ok, err, unique_violation}

pub record PoolAddress : Type 0 where
  pub id : String
  pub address : String
  pub derivation_index : ℕ

pub record NewAddress : Type 0 where
  pub id : String
  pub derivation_index : ℕ
  pub address : String
  pub state : AddressState
  pub created_at : ℕ
  pub updated_at : ℕ

abbrev pub has_id : String → Address → Bool
has_id id a = str_eq a.id id

abbrev pub has_address : String → Address → Bool
has_address s a = str_eq a.address s

abbrev pub is_free : Address → Bool
is_free a = is_available a.state

unfoldable pub count_available_addresses : Tables → ℕ
count_available_addresses t = count_where is_free t.addresses

-- COALESCE(MAX(derivation_index), -1), whose -1 the caller reads as `none`.
unfoldable pub max_index : List Address → Option ℕ
max_index [] = none
max_index (a ∷ as') =
    some (elim (max_index as') [ none ↦ a.derivation_index | some m ↦ max a.derivation_index m ])

unfoldable pub max_derivation_index : Tables → Option ℕ
max_derivation_index t = max_index t.addresses

unfoldable pub new_row : NewAddress → Address
new_row a = record {
  id = a.id;
  derivation_index = a.derivation_index;
  address = a.address;
  state = a.state;
  deposit_id = none;
  first_seen_txid = none;
  confirmations = 0;
  last_checked_at = none;
  created_at = a.created_at;
  updated_at = a.updated_at;
}

-- `address` is unique, and a conflict there does nothing; `id` is the primary key, and a conflict
-- there is an error. The result is whether a row was inserted.
unfoldable pub insert_address : NewAddress → Tables → Result Bool × Tables
insert_address a t =
    if exists_row (has_address a.address) t.addresses
    then (ok false, t)
    else if exists_row (has_id a.id) t.addresses
    then (err unique_violation, t)
    else (ok true, record t { addresses = new_row a ∷ t.addresses })

-- ORDER BY derivation_index LIMIT 1.
unfoldable pub fetch_available_address : Tables → Option PoolAddress
fetch_available_address t =
    elim (find_row is_free (order_by (λ a. a.derivation_index) t.addresses)) [
      | none ↦ none
      | some a ↦
          some (record { id = a.id; address = a.address; derivation_index = a.derivation_index })
    ]

abbrev pub claims_row : String → Address → Bool
claims_row id a = has_id id a && is_free a

unfoldable pub allocate : String → ℕ → Address → Address
allocate deposit now a = record a { state = allocated; deposit_id = some deposit; updated_at = now }

-- Its result is whether the address was still free.
unfoldable pub claim_address : String → String → ℕ → Tables → Result Bool × Tables
claim_address id deposit now t = (
  ok (count_where (claims_row id) t.addresses == 1),
  record t { addresses = update_where (claims_row id) (allocate deposit now) t.addresses },
)

abbrev pub serves : String → Address → Bool
serves deposit a = elim a.deposit_id [ none ↦ false | some d ↦ str_eq d deposit ]

unfoldable pub update_address_observation :
    String → String → ℕ → ℕ → Tables → Result (Unit {0}) × Tables
update_address_observation deposit txid confirmations now t = (
  ok tt,
  record t {
    addresses =
        update_where (serves deposit)
          (λ a. record a {
            first_seen_txid = coalesce a.first_seen_txid (some txid);
            confirmations = confirmations;
            last_checked_at = some now;
            updated_at = now;
          })
          t.addresses;
  },
)
