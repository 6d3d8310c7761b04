-- ===== src/Flights/Filter.antt =====
-- internal/game/flights/filter.go; `lower` is the mapping of `unicode.ToLower`
use politburo.Prelude.{Char, String, Bool, true, Option, none, some, if◌then◌else◌}
use politburo.Strings.{is_empty, trim_space, to_lower, contains}
use politburo.Flights.{Flight, fields}

abbrev or_blank : Option String → String
or_blank none = ""
or_blank (some s) = s

unfoldable pub username : Flight → String
username f = or_blank (fields f).username

unfoldable pub contains_fold : (Char → Char) → String → String → Bool
contains_fold lower value query =
    let trimmed = trim_space query in
    if is_empty trimmed then true else contains (to_lower lower value) (to_lower lower trimmed)
