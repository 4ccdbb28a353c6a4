-- ===== src/Tests/Pool.antt =====
-- The address pool at a fixed input: a factory whose addresses are as long as their index.
use shuestand.Prelude.{
  String, ℕ, zero, suc, ◌<◌, ◌≡◌, ◌≢◌, refl, ◌∙◌, sym, ap, some, [], ◌∷◌, arith, exists_row,
}
use Prim.Native.String.{count, ◌++◌}
use text.Mathlib.TextLemmas.{length-append}
use shuestand.Db.Tables.{Tables}
use shuestand.AddressPool.{assign_address}
use shuestand.AddressPool.Capacity.{Supplies, Undrawn, str_ne}
use shuestand.AddressPool.Assignment.{UniqueIds, HandsOut, assign_address-HandsOut}
use shuestand.Tests.Data.{tables_of, some_address}

abbrev numeral : ℕ → String
numeral zero = ""
numeral (suc n) = "i" ++ numeral n

count-numeral : (n : ℕ) → count (numeral n) ≡ n
count-numeral zero = refl
count-numeral (suc n) = omega (arith, length-append "i" (numeral n), count-numeral n)

numerals_differ : (i j : ℕ) → i < j → numeral i ≢ numeral j
numerals_differ i j lt e = omega (arith, sym (count-numeral i) ∙ ap count e ∙ count-numeral j)

supplies : Supplies (λ i. some (numeral i)) numeral
supplies = record {
  addr = numeral;
  derives = λ i. refl;
  addresses_differ = numerals_differ;
  ids_differ = numerals_differ;
}

-- One row that an earlier filling inserted, under the first id.
abbrev drained : Tables
drained = record (tables_of [] []) {
  addresses =
      record some_address { id = numeral 0; derivation_index = 0; address = numeral 0 } ∷ [];
}

none_drawn : Undrawn numeral 1 drained
unfolding exists_row
none_drawn d le = rw (str_ne (numeral 0) (numeral d) (numerals_differ 0 d le))

distinct_ids : UniqueIds drained.addresses
unfolding exists_row
distinct_ids = (refl, tt)

assign_address-HandsOut_example :
    HandsOut
      (λ i. some (numeral i))
      numeral
      3
      200
      "dep_1"
      (assign_address (λ i. some (numeral i)) numeral 3 200 2 5 1 "dep_1" drained)
assign_address-HandsOut_example =
    assign_address-HandsOut (λ i. some (numeral i)) numeral 3 200 supplies 0 5 1 "dep_1" drained
      distinct_ids none_drawn (omega arith)
