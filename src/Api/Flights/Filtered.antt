-- ===== src/Api/Flights/Filtered.antt =====
-- The list without its test for a filter.
use politburo.Prelude.{
  Char, String, true, false, List, [], ◌∷◌, ◌≡◌, refl, sym, arith, Bool-cases, inl, inr, eq_iff,
}
use politburo.Strings.{trim_space, trim_left, trim_right}
use politburo.Flights.{Flight, Snapshot}
use politburo.Flights.Filter.{contains_fold}
use politburo.Api.Flights.Load.{passes, keep, has_filter, load_from}

contains_fold-empty : (lower : Char → Char) (value : String) → contains_fold lower value "" ≡ true
unfolding contains_fold trim_space trim_left trim_right
contains_fold-empty lower value = refl

passes-empty : (lower : Char → Char) (f : Flight) → passes lower [] "" "" f ≡ true
unfolding passes
passes-empty lower f = rw (contains_fold-empty, contains_fold-empty)

keep-empty : (lower : Char → Char) (l : List Flight) → keep (passes lower [] "" "") l ≡ l
unfolding keep
keep-empty lower [] = refl
keep-empty lower (f ∷ l) = rw (passes-empty lower f, keep-empty lower l)

-- the test for a filter saves a loop and changes nothing
pub result-load_from :
    (lower : Char → Char) (selected : List String) (u v : String) (s : Snapshot)
    → (load_from lower selected u v s).result ≡ keep (passes lower selected u v) s.result
result-load_from lower selected u v s = elim (Bool-cases (has_filter selected u v)) [
  | inl some_filter ↦ rw some_filter
  | inr no_filter ↦ rw no_filter (sym (unfiltered selected u v no_filter))
]
  where
    unfiltered :
        (selected : List String) (u v : String)
        → has_filter selected u v ≡ false
        → keep (passes lower selected u v) s.result ≡ s.result
    unfiltered [] u v e =
        let e1 : u ≡ "" = ground (arith, eq_iff u "") in
        let e2 : v ≡ "" = ground (arith, eq_iff v "") in rw (e1, e2) (keep-empty lower s.result)
    unfiltered (x ∷ selected) u v e = cc
