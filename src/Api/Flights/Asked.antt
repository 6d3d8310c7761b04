-- ===== src/Api/Flights/Asked.antt =====
-- Which flights a query asks for, apart from the code that finds them.
use mathlib.Core.List.{Memᴰ}
use mathlib.Core.List.Memᴰ
use politburo.Prelude.{
  Char, String, Bool, true, false, Option, none, some, List, [], ◌∷◌, ◌==◌, ◌||◌, ◌≡◌, ◌⊎◌, ◌↔◌,
  inl, inr, refl, sym, ap, subst, ◌∙◌, arith, eq_iff, Bool-cases,
}
use politburo.Strings.{trim_space, to_lower}
use politburo.Strings.Laws.{Occurs, trim_space_idem}
use politburo.Flights.{Flight, fields}
use politburo.Flights.PilotState.{parse_pilot_state_name}
use politburo.Flights.Filter.{username, contains_fold}
use politburo.Flights.Matching.{contains_fold_iff}
use politburo.Api.Flights.Load.{add_selected, and_then, select, is_one_of, is_none, passes, keep}

-- `ys` are those of `xs` with a property, in their order
pub data AreThose {A : Type 0} (P : A → Type 0) : List A → List A → Type 0 where
  nil : AreThose P [] []
  taken : {x : A} {xs ys : List A} → P x → AreThose P xs ys → AreThose P (x ∷ xs) (x ∷ ys)
  left_out : {x : A} {xs ys : List A} → ¬ P x → AreThose P xs ys → AreThose P (x ∷ xs) ys

pub AreThose-Mem :
    {A : Type 0} {P : A → Type 0} (x : A) (xs ys : List A)
    → AreThose P xs ys
    → Memᴰ x ys
    → Memᴰ x xs
AreThose-Mem x [] [] nil m = m
AreThose-Mem x [] (y ∷ ys) those m = elim those [ ]
AreThose-Mem x (y ∷ xs) (y' ∷ ys) (taken p rest) m = elim (Memᴰ.cases_cons m) [
  | inl here ↦ Memᴰ.head here
  | inr later ↦ Memᴰ.tail (AreThose-Mem x xs ys rest later)
]
AreThose-Mem x (y ∷ xs) ys (left_out out rest) m = Memᴰ.tail (AreThose-Mem x xs ys rest m)

-- A flight is asked for if its pilot state is one of those selected, or none is, and if the trimmed
-- texts occur in the name of its user and in its call sign, in lower case.
pub record IsAsked (lower : Char → Char) (selected : List String) (user_name call_sign : String)
    (f : Flight) : Type 0 where
  pub state : (selected ≡ []) ⊎ Memᴰ (fields f).normalized.pilot_state selected
  pub user : Occurs (to_lower lower (trim_space user_name)) (to_lower lower (username f))
  pub call : Occurs (to_lower lower (trim_space call_sign)) (to_lower lower (fields f).callsign)

is_one_of-Mem : (s : String) (names : List String) → is_one_of s names ≡ true → Memᴰ s names
is_one_of-Mem s [] e = cc
is_one_of-Mem s (name ∷ names) e = elim (Bool-cases (name == s)) [
  | inl here ↦ Memᴰ.head (sym ((eq_iff name s).0 here))
  | inr other ↦ Memᴰ.tail (is_one_of-Mem s names (rw other at e))
]

is_one_of_of_Mem : (s : String) (names : List String) → Memᴰ s names → is_one_of s names ≡ true
is_one_of_of_Mem s [] m = absurd (Memᴰ.not-nil m)
is_one_of_of_Mem s (name ∷ names) (Memᴰ.head e) =
    let here : (name == s) ≡ true = (eq_iff name s).1 (sym e) in rw here refl
is_one_of_of_Mem s (name ∷ names) (Memᴰ.tail m) = elim (Bool-cases (name == s)) [
  | inl here ↦ rw here refl
  | inr other ↦ rw other (is_one_of_of_Mem s names m)
]

contains_fold-trimmed :
    (lower : Char → Char) (value query : String)
    → (contains_fold lower value (trim_space query) ≡ true)
      ↔ Occurs (to_lower lower (trim_space query)) (to_lower lower value)
contains_fold-trimmed lower value query =
    subst
      (λ q.
        (contains_fold lower value (trim_space query) ≡ true)
        ↔ Occurs (to_lower lower q) (to_lower lower value))
      (trim_space_idem query) (contains_fold_iff lower value (trim_space query))

state_iff :
    (s : String) (selected : List String)
    → ((is_none selected || is_one_of s selected) ≡ true) ↔ ((selected ≡ []) ⊎ Memᴰ s selected)
state_iff s [] = (λ e. inl refl, λ h. refl)
state_iff s (x ∷ xs) = (
  λ e. inr (is_one_of-Mem s (x ∷ xs) e),
  λ h. elim h [ inl gone ↦ cc | inr m ↦ is_one_of_of_Mem s (x ∷ xs) m ],
)

-- The test of the loop says what is asked for.
passes_iff :
    (lower : Char → Char) (selected : List String) (u v : String) (f : Flight)
    → (passes lower selected (trim_space u) (trim_space v) f ≡ true) ↔ IsAsked lower selected u v f
unfolding passes
passes_iff lower selected u v f =
    let by_state = state_iff (fields f).normalized.pilot_state selected in
    let by_user = contains_fold-trimmed lower (username f) u in
    let by_call = contains_fold-trimmed lower (fields f).callsign v in
    (
      λ e. record {
        state = by_state.0 (ground (arith, e));
        user = by_user.0 (ground (arith, e));
        call = by_call.0 (ground (arith, e));
      },
      λ a. rw (by_state.1 a.state, by_user.1 a.user, by_call.1 a.call) refl,
    )

keep-AreThose :
    (p : Flight → Bool) (P : Flight → Type 0)
    → ((f : Flight) → (p f ≡ true) ↔ P f)
    → (fs : List Flight) → AreThose P fs (keep p fs)
unfolding keep
keep-AreThose p P same [] = nil
keep-AreThose p P same (f ∷ fs) = elim (Bool-cases (p f)) [
  | inl yes_ ↦ rw yes_ (taken ((same f).0 yes_) (keep-AreThose p P same fs))
  | inr not_ ↦
      let out : ¬ P f = λ a. let clash : true ≡ false = sym ((same f).1 a) ∙ not_ in cc in
      rw not_ (left_out out (keep-AreThose p P same fs))
]

-- The loop keeps the flights that are asked for.
pub keep-passes-AreThose :
    (lower : Char → Char) (selected : List String) (u v : String) (fs : List Flight)
    → AreThose
        (IsAsked lower selected u v)
        fs
        (keep (passes lower selected (trim_space u) (trim_space v)) fs)
keep-passes-AreThose lower selected u v fs =
    keep-AreThose _ _ (λ f. passes_iff lower selected u v f) fs

-- The pilot states that the names of a query stand for.
pub record AreChosen (names selected : List String) : Type 0 where
  pub known :
      (n : String)
      → Memᴰ n names
      → (s : String) × (parse_pilot_state_name n ≡ some s) × Memᴰ s selected
  pub only :
      (s : String)
      → Memᴰ s selected
      → (n : String) × Memᴰ n names × (parse_pilot_state_name n ≡ some s)

-- the same, for those that were selected before as well
record Grows (names before selected : List String) : Type 0 where
  old : (s : String) → Memᴰ s before → Memᴰ s selected
  known :
      (n : String)
      → Memᴰ n names
      → (s : String) × (parse_pilot_state_name n ≡ some s) × Memᴰ s selected
  only :
      (s : String)
      → Memᴰ s selected
      → Memᴰ s before ⊎ ((n : String) × Memᴰ n names × (parse_pilot_state_name n ≡ some s))

add_selected-old :
    (p s : String) (before : List String) → Memᴰ s before → Memᴰ s (add_selected (some p) before)
add_selected-old p s before m = elim (Bool-cases (is_one_of p before)) [
  | inl there ↦ rw there m
  | inr fresh ↦ rw fresh (Memᴰ.append_left (p ∷ []) m)
]

add_selected-new : (p : String) (before : List String) → Memᴰ p (add_selected (some p) before)
add_selected-new p before = elim (Bool-cases (is_one_of p before)) [
  | inl there ↦ rw there (is_one_of-Mem p before there)
  | inr fresh ↦ rw fresh (Memᴰ.append_right before (Memᴰ.head refl))
]

add_selected-only :
    (p s : String) (before : List String)
    → Memᴰ s (add_selected (some p) before)
    → Memᴰ s before ⊎ (s ≡ p)
add_selected-only p s before m = elim (Bool-cases (is_one_of p before)) [
  | inl there ↦ inl (rw there at m)
  | inr fresh ↦ elim (Memᴰ.append_cases before (rw fresh at m)) [
    | inl old ↦ inl old
    | inr new ↦ inr (only_one new)
  ]
]
  where
    only_one : Memᴰ s (p ∷ []) → s ≡ p
    only_one (Memᴰ.head e) = e
    only_one (Memᴰ.tail m) = absurd (Memᴰ.not-nil m)

select-Grows :
    (names before selected : List String)
    → select before names ≡ some selected
    → Grows names before selected
unfolding select
select-Grows [] before selected e =
    let same : before ≡ selected = cc in
    record {
      old = λ s m. subst (Memᴰ s) same m;
      known = λ n m. absurd (Memᴰ.not-nil m);
      only = λ s m. inl (subst (Memᴰ s) (sym same) m);
    }
select-Grows (name ∷ names) before selected e =
    split (parse_pilot_state_name name) refl e
      (λ p f. select-Grows names (add_selected (some p) before) selected f)
  where
    split :
        (o : Option String)
        → parse_pilot_state_name name ≡ o
        → and_then o (select (add_selected o before) names) ≡ some selected
        → ((p : String)
            → select (add_selected (some p) before) names ≡ some selected
            → Grows names (add_selected (some p) before) selected)
        → Grows (name ∷ names) before selected
    split none at f rec = cc
    split (some p) at f rec =
        let rest = rec p f in
        record {
          old = λ s m. rest.old s (add_selected-old p s before m);
          known = λ n m. known_one n m rest;
          only = λ s m. elim (rest.only s m) [
            | inl here ↦ elim (add_selected-only p s before here) [
              | inl old ↦ inl old
              | inr e ↦ inr (name, Memᴰ.head refl, at ∙ ap some (sym e))
            ]
            | inr (n, m', e) ↦ inr (n, Memᴰ.tail m', e)
          ];
        }
      where
        known_one :
            (n : String)
            → Memᴰ n (name ∷ names)
            → Grows names (add_selected (some p) before) selected
            → (s : String) × (parse_pilot_state_name n ≡ some s) × Memᴰ s selected
        known_one n (Memᴰ.head e) rest =
            (p, ap parse_pilot_state_name e ∙ at, rest.old p (add_selected-new p before))
        known_one n (Memᴰ.tail m) rest = rest.known n m

-- What `select` gives are the states that the names stand for.
pub select-AreChosen :
    (names selected : List String) → select [] names ≡ some selected → AreChosen names selected
select-AreChosen names selected e =
    let g = select-Grows names [] selected e in
    record {
      known = g.known;
      only = λ s m. elim (g.only s m) [ inl old ↦ absurd (Memᴰ.not-nil old) | inr from ↦ from ];
    }
