-- ===== src/Flights/Matching.antt =====
-- What the filters of the live flights accept.
use politburo.Prelude.{
  Char, eqb, String, true, some, ◌≡◌, ◌↔◌, refl, Bool-cases, inl, inr, if◌then◌else◌,
}
use text.Mathlib.TextLemmas.{nil-append}
use politburo.Ints.{Int64}
use politburo.Strings.{is_empty, trim_space, to_lower, map_chars, contains}
use politburo.Strings.Laws.{Occurs, contains_iff}
use politburo.Flights.PilotState.{name_for_pilot_state, parse_pilot_state_name}
use politburo.Flights.Filter.{contains_fold}

-- A value passes exactly if the trimmed query occurs in it, both in lower case. A blank query
-- occurs in every value.
pub contains_fold_iff :
    (lower : Char → Char) (value query : String)
    → (contains_fold lower value query ≡ true)
      ↔ Occurs (to_lower lower (trim_space query)) (to_lower lower value)
unfolding contains_fold to_lower map_chars
contains_fold_iff lower value query = split (trim_space query)
  where
    split :
        (q : String)
        → ((if is_empty q then true else contains (to_lower lower value) (to_lower lower q)) ≡ true)
          ↔ Occurs (to_lower lower q) (to_lower lower value)
    split String.[] = ((λ _. ("", to_lower lower value, rw (nil-append, nil-append))), λ _. refl)
    split (String.◌∷◌ c q) = contains_iff (to_lower lower value) (to_lower lower (String.◌∷◌ c q))

-- Every name that a flight is given can be asked for, whatever the code of its pilot.
pub parse-name_for_pilot_state :
    (code : Int64)
    → parse_pilot_state_name (name_for_pilot_state code) ≡ some (name_for_pilot_state code)
unfolding parse_pilot_state_name name_for_pilot_state
parse-name_for_pilot_state code = elim (Bool-cases (eqb code 0)) [
  | inl e ↦ rw e
  | inr n ↦ rw n (elim (Bool-cases (eqb code 1)) [
    | inl e ↦ rw e
    | inr n ↦ rw n (elim (Bool-cases (eqb code 2)) [
      | inl e ↦ rw e
      | inr n ↦ rw n (elim (Bool-cases (eqb code 3)) [ inl e ↦ rw e | inr n ↦ rw n ])
    ])
  ])
]
