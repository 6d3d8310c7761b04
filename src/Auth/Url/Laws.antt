-- ===== src/Auth/Url/Laws.antt =====
-- Which redirects a signed link may carry.
use politburo.Prelude.{
  String, true, false, some, ◌≡◌, inl, inr, arith, ◌==◌, refl, subst, Bool-cases,
}
use politburo.Strings.{is_space, trim_left, trim_right, trim_space, has_prefix, contains}
use politburo.Strings.Laws.{trim_space_idem}
use politburo.Auth.Url.{default_redirect, normalize_redirect}

abbrev pub IsRooted : String → Type 0
IsRooted path =
    (has_prefix path "/" ≡ true)
    × (has_prefix path "//" ≡ false)
    × (contains path "://" ≡ false)
    × (trim_space path ≡ path)

default-IsRooted : IsRooted default_redirect
unfolding has_prefix contains trim_space trim_left trim_right is_space
default-IsRooted = (refl, refl, refl, refl)

-- A redirect that is accepted begins with a slash and not with two, holds no `://`, and has no space
-- around it; a blank one becomes the dashboard.
pub normalize_redirect-IsRooted :
    (path target : String) → normalize_redirect path ≡ some target → IsRooted target
unfolding normalize_redirect
normalize_redirect-IsRooted path target h = elim (Bool-cases (trim_space path == "")) [
  | inl blank ↦ subst IsRooted (ground arith) default-IsRooted
  | inr given ↦
      let e : trim_space path ≡ target = ground arith in
      subst IsRooted e (ground arith, ground arith, ground arith, trim_space_idem path)
]
