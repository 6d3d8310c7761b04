-- ===== src/Metrics/Labels.antt =====
-- No call of the metrics panics.
use Prim.Native.String
use mathlib.Core.List.{Memᴰ}
use politburo.Prelude.{
  String, Bool, true, false, some, List, [], ◌∷◌, ◌++◌, ◌==◌, ◌||◌, length, All, append-nil,
  append_assoc, ap, ◌∙◌, ◌≡◌, refl,
}
use politburo.Metrics.{
  Collector, collectors, Register, must_register, new_registry, Use, cache_uses, payload_use,
  insert_use, begin_uses, end_uses, success_use, request_uses,
}

-- `BuildFQName`, of parts that are not empty
abbrev pub full_name : Collector → String
full_name c =
    String.◌++◌ c.namespace (String.◌++◌ "_" (String.◌++◌ c.subsystem (String.◌++◌ "_" c.name)))

abbrev pub is_taken : String → List Collector → Bool
is_taken name [] = false
is_taken name (c ∷ cs) = name == full_name c || is_taken name cs

-- what a registry documents of valid names: it takes a collector whose full name is new
abbrev pub TakesNew : Register → Type 0
TakesNew accepts =
    (registered : List Collector) (c : Collector)
    → is_taken (full_name c) registered ≡ false
    → accepts registered c ≡ true

-- A call that gives as many values as the metric has labels, of a metric that is registered. Any
-- other number of values panics.
abbrev pub IsTyped : List Collector → Use → Type 0
IsTyped registered (c, values) = Memᴰ c registered × (length values ≡ length c.labels)

-- no full name of `cs` is that of a collector before it
abbrev AreNew : List Collector → List Collector → Type 0
AreNew registered [] = Unit
AreNew registered (c ∷ cs) =
    (is_taken (full_name c) registered ≡ false) × AreNew (registered ++ c ∷ []) cs

must_register-some :
    (accepts : Register) (registered cs : List Collector)
    → TakesNew accepts
    → AreNew registered cs
    → must_register accepts registered cs ≡ some (registered ++ cs)
unfolding must_register
must_register-some accepts registered [] takes new = rw append-nil refl
must_register-some accepts registered (c ∷ cs) takes (free, new) = rw (takes registered c free) (
    must_register-some accepts (registered ++ c ∷ []) cs takes new
    ∙ ap some (append_assoc registered (c ∷ []) cs))

stands_first : {c : Collector} {cs : List Collector} → Memᴰ c (c ∷ cs)
stands_first = Memᴰ.head refl

-- A registry that takes every collector whose name is new takes the ten metrics, so that
-- `NewRegistry` does not panic; and every call of the cache, of the scheduler and of the access log
-- is of a metric that is registered, with as many values as it has labels, so that none of them
-- panics.
pub new_registry-AreTyped :
    (accepts : Register) (operation job outcome method route status : String)
    → TakesNew accepts
    → (registered : List Collector) × (new_registry accepts ≡ some registered)
      × All (IsTyped registered) (cache_uses operation outcome)
      × IsTyped registered (payload_use operation)
      × IsTyped registered insert_use
      × All (IsTyped registered) (begin_uses job)
      × All (IsTyped registered) (end_uses job outcome)
      × IsTyped registered (success_use job)
      × All (IsTyped registered) (request_uses method route status)
unfolding new_registry
new_registry-AreTyped accepts operation job outcome method route status takes =
    let all_new : AreNew [] collectors =
      (refl, (refl, (refl, (refl, (refl, (refl, (refl, (refl, (refl, (refl, tt)))))))))) in
    (
      collectors,
      must_register-some accepts [] collectors takes all_new,
      (
        (search (stands_first, Memᴰ.tail) depth 12, refl),
        ((search (stands_first, Memᴰ.tail) depth 12, refl), tt),
      ),
      (search (stands_first, Memᴰ.tail) depth 12, refl),
      (search (stands_first, Memᴰ.tail) depth 12, refl),
      ((search (stands_first, Memᴰ.tail) depth 12, refl), tt),
      (
        (search (stands_first, Memᴰ.tail) depth 12, refl),
        (
          (search (stands_first, Memᴰ.tail) depth 12, refl),
          ((search (stands_first, Memᴰ.tail) depth 12, refl), tt),
        ),
      ),
      (search (stands_first, Memᴰ.tail) depth 12, refl),
      (
        (search (stands_first, Memᴰ.tail) depth 12, refl),
        ((search (stands_first, Memᴰ.tail) depth 12, refl), tt),
      ),
    )
