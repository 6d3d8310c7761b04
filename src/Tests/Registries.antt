-- ===== src/Tests/Registries.antt =====
-- A registry that refuses names that are taken.
use politburo.Prelude.{not, List, some, ◌≡◌, refl, All}
use politburo.Metrics.{
  Collector, Register, new_registry, cache_uses, payload_use, insert_use, begin_uses, end_uses,
  success_use, request_uses,
}
use politburo.Metrics.Labels.{full_name, is_taken, TakesNew, IsTyped, new_registry-AreTyped}

abbrev strict : Register
strict registered c = not (is_taken (full_name c) registered)

strict-TakesNew : TakesNew strict
strict-TakesNew registered c free = rw free refl

new_registry-AreTyped_example :
    (registered : List Collector) × (new_registry strict ≡ some registered)
    × All (IsTyped registered) (cache_uses "get" "hit")
    × IsTyped registered (payload_use "get")
    × IsTyped registered insert_use
    × All (IsTyped registered) (begin_uses "infinite-flight-flights")
    × All (IsTyped registered) (end_uses "infinite-flight-flights" "hit")
    × IsTyped registered (success_use "infinite-flight-flights")
    × All (IsTyped registered) (request_uses "GET" "/dashboard" "200")
new_registry-AreTyped_example =
    new_registry-AreTyped strict "get" "infinite-flight-flights" "hit" "GET" "/dashboard" "200"
      strict-TakesNew
