-- ===== src/Strings/Laws.antt =====
-- What the tests and the trimming of `Strings` mean.
use Prim.Native.String.{[], ◌∷◌, ◌++◌}
use text.Mathlib.TextEquality.{Char-path}
use text.Mathlib.TextLemmas.{nil-append, cons-append}
use politburo.Prelude.{
  Char, code, String, Bool, true, ◌≡◌, ◌↔◌, refl, ap, ap₂, arith, eqb_iff, Bool-cases, inl, inr,
  not,
}
use politburo.Strings.{is_space, trim_left, trim_right, trim_space, has_prefix, contains}

pub has_prefix_of_append : (t rest : String) → has_prefix (t ++ rest) t ≡ true
unfolding has_prefix
has_prefix_of_append [] [] = refl
has_prefix_of_append [] (c ∷ rest) = refl
has_prefix_of_append (d ∷ t) rest =
    rw cons-append (ground (arith, eqb_iff (code d) (code d), has_prefix_of_append t rest))

pub append_of_has_prefix :
    (s t : String) → has_prefix s t ≡ true → (rest : String) × (s ≡ t ++ rest)
unfolding has_prefix
append_of_has_prefix s [] h = (s, rw nil-append)
append_of_has_prefix [] (d ∷ t) h = cc
append_of_has_prefix (c ∷ s) (d ∷ t) h =
    let (rest, e) = append_of_has_prefix s t (ground arith) in
    let same : c ≡ d = Char-path c d (ground arith) in (rest, rw cons-append (ap₂ ◌∷◌ same e))

-- `t` stands somewhere in `s`
abbrev pub Occurs : String → String → Type 0
Occurs t s = (before : String) × (after : String) × (s ≡ before ++ (t ++ after))

pub Occurs-of_contains : (s t : String) → contains s t ≡ true → Occurs t s
unfolding contains
Occurs-of_contains [] [] h = ([], [], rw (nil-append, nil-append))
Occurs-of_contains [] (d ∷ t) h = cc
Occurs-of_contains (c ∷ s) t h = elim (Bool-cases (has_prefix (c ∷ s) t)) [
  | inl here ↦ let (rest, e) = append_of_has_prefix (c ∷ s) t here in ([], rest, rw nil-append e)
  | inr later ↦
      let (before, after, e) = Occurs-of_contains s t (ground arith) in
      (c ∷ before, after, rw cons-append (ap (◌∷◌ c) e))
]

pub contains_of_append : (before t after : String) → contains (before ++ (t ++ after)) t ≡ true
unfolding contains has_prefix
contains_of_append [] [] [] = refl
contains_of_append [] [] (c ∷ after) = rw (nil-append, nil-append)
contains_of_append [] (d ∷ t) after =
    rw (nil-append, cons-append, contains)
      (ground (arith, eqb_iff (code d) (code d), has_prefix_of_append t after))
contains_of_append (c ∷ before) t after =
    rw (cons-append, contains_of_append before t after) (ground arith)

-- `contains` finds exactly the texts that occur.
pub contains_iff : (s t : String) → (contains s t ≡ true) ↔ Occurs t s
contains_iff s t = (
  Occurs-of_contains s t,
  λ o. let (before, after, e) = o in rw e (contains_of_append before t after),
)

module _ (p : Char → Bool) where
  abbrev starts_clean : String → Bool
  starts_clean [] = true
  starts_clean (c ∷ s) = not (p c)

  trim_left-clean : (s : String) → starts_clean (trim_left p s) ≡ true
  unfolding trim_left
  trim_left-clean [] = refl
  trim_left-clean (c ∷ s) = ground (arith, trim_left-clean s)

  trim_left_of_clean : (s : String) → starts_clean s ≡ true → trim_left p s ≡ s
  unfolding trim_left
  trim_left_of_clean [] h = refl
  trim_left_of_clean (c ∷ s) h = ground arith

  trim_right-clean : (s : String) → starts_clean s ≡ true → starts_clean (trim_right p s) ≡ true
  unfolding trim_right
  trim_right-clean [] h = refl
  trim_right-clean (c ∷ s) h = ground arith

  trim_right_idem : (s : String) → trim_right p (trim_right p s) ≡ trim_right p s
  unfolding trim_right
  trim_right_idem [] = refl
  trim_right_idem (c ∷ s) = ground (arith, trim_right_idem s)

-- Trimming twice is trimming once.
pub trim_space_idem : (s : String) → trim_space (trim_space s) ≡ trim_space s
unfolding trim_space
trim_space_idem s =
    let inner = trim_left is_space s in
    rw
      (trim_left_of_clean is_space _ (trim_right-clean is_space inner (trim_left-clean is_space s)))
      (trim_right_idem is_space inner)
