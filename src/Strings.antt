-- ===== src/Strings.antt =====
-- The functions of Go's `strings` package that the program calls, on texts that are valid UTF-8: a
-- text is its code points. The one table that is not written out is `unicode.ToLower`, an argument
-- of the functions that use it.
pub mod Laws
use Prim.Native.String.{[], ◌∷◌}
use politburo.Prelude.{
  Char, code, String, Bool, true, false, ◌&&◌, ◌||◌, leb, eqb, if◌then◌else◌, ℕ, ◌+◌,
}

-- `unicode.IsSpace`
unfoldable pub is_space : Char → Bool
is_space c =
    let n = code c in
    (leb 9 n && leb n 13)
    || eqb n 32
    || eqb n 0x85
    || eqb n 0xa0
    || eqb n 0x1680
    || (leb 0x2000 n && leb n 0x200a)
    || eqb n 0x2028
    || eqb n 0x2029
    || eqb n 0x202f
    || eqb n 0x205f
    || eqb n 0x3000

abbrev pub is_empty : String → Bool
is_empty [] = true
is_empty (c ∷ s) = false

-- `TrimLeftFunc` and `TrimRightFunc`
unfoldable pub trim_left : (Char → Bool) → String → String
trim_left p [] = []
trim_left p (c ∷ s) = if p c then trim_left p s else c ∷ s

unfoldable pub trim_right : (Char → Bool) → String → String
trim_right p [] = []
trim_right p (c ∷ s) = let rest = trim_right p s in if is_empty rest && p c then [] else c ∷ rest

-- `TrimSpace`
unfoldable pub trim_space : String → String
trim_space s = trim_right is_space (trim_left is_space s)

unfoldable pub has_prefix : String → String → Bool
has_prefix s [] = true
has_prefix [] (d ∷ t) = false
has_prefix (c ∷ s) (d ∷ t) = eqb (code c) (code d) && has_prefix s t

unfoldable pub contains : String → String → Bool
contains [] t = is_empty t
contains (c ∷ s) t = has_prefix (c ∷ s) t || contains s t

-- `Map`
unfoldable pub map_chars : (Char → Char) → String → String
map_chars f [] = []
map_chars f (c ∷ s) = f c ∷ map_chars f s

-- `ToLower`, by the mapping of `unicode.ToLower`
unfoldable pub to_lower : (Char → Char) → String → String
unfolding map_chars
to_lower lower s = map_chars lower s

-- `ReplaceAll` of one character by another
unfoldable pub replace_char : Char → Char → String → String
unfolding map_chars
replace_char from to s = map_chars (λ c. if eqb (code c) (code from) then to else c) s

-- the letters that `unicode.SimpleFold` joins: besides a letter and its capital, the long s
abbrev fold_letter : ℕ → ℕ
fold_letter n = if leb b'A' n && leb n b'Z' then n + 32 else if eqb n 0x17f then b's' else n

fold_same : String → String → Bool
fold_same [] [] = true
fold_same [] (d ∷ t) = false
fold_same (c ∷ s) [] = false
fold_same (c ∷ s) (d ∷ t) = eqb (fold_letter (code c)) (code d) && fold_same s t

-- `EqualFold(s, "https")`
unfoldable pub equal_fold_https : String → Bool
unfolding fold_same
equal_fold_https s = fold_same s "https"
