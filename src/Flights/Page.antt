-- ===== src/Flights/Page.antt =====
-- internal/game/flights/paginate.go
use politburo.Prelude.{◌-◌, List, [], not, ◌||◌, if◌then◌else◌, length, take, drop}
use politburo.Ints.{Int64, add_int, sub_int, mul_int, is_negative, lt_int}

pub data Page {ℓ} (A : Type ℓ) : Type ℓ where
  page : List A → Page A
  panic : Page A

-- `make([]T, end-start)` and `items[start:end]` panic if `end` is below `start`.
unfoldable pub slice {ℓ} : {A : Type ℓ} → List A → Int64 → Int64 → Page A
slice items start end =
    if lt_int end start then panic else page (take (end - start) (drop start items))

-- The products and sums wrap around as in the source.
unfoldable pub paginate {ℓ} : {A : Type ℓ} → List A → Int64 → Int64 → Page A
paginate items page_number page_length =
    let start = mul_int (sub_int page_number 1) page_length in
    let end = add_int start page_length in
    if is_negative start || not (lt_int start (length items))
    then page []
    else slice items start (if lt_int (length items) end then length items else end)
