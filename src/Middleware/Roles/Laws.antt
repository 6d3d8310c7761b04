-- ===== src/Middleware/Roles/Laws.antt =====
-- The role checks as one scale.
use politburo.Prelude.{
  ℕ, String, Bool, false, Option, none, some, ◌==◌, leb, ◌<◌, if◌then◌else◌, ◌≡◌, arith, Bool-cases,
  inl, inr,
}
use politburo.Auth.{Claims, is_member, is_staff, is_admin}
use politburo.Http.{Request, Headers, Handler}
use politburo.Middleware.Roles.{
  forbidden, check_role, require_role, require_member, require_staff, require_admin,
}

-- 3 for an admin, 2 for staff, 1 for a pilot, 0 for any other caller
abbrev pub rank_of : Option Claims → ℕ
rank_of none = 0
rank_of (some c) =
    if c.role == "admin"
    then 3
    else if c.role == "staff"
    then 2
    else if c.role == "pilot"
    then 1
    else 0

-- the handler from a rank on, and 403 below it
abbrev pub from_rank : {W B : Type 0} → ℕ → String → Handler W B → Handler W B
from_rank n label next h r w = if leb n (rank_of r.claims) then next h r w else forbidden label h w

module _ {W B : Type 0} (next : Handler W B) (h : Headers) (r : Request) (w : W) where
  abbrev IsRanked : (Claims → Bool) → String → ℕ → Option Claims → Type 0
  IsRanked allowed label n o =
      check_role allowed label next o h r w
      ≡ (if leb n (rank_of o) then next h r w else forbidden label h w)

  is_admin-rank : (c : Claims) → is_admin c ≡ leb 3 (rank_of (some c))
  unfolding is_admin
  is_admin-rank c = ground arith

  is_staff-rank : (c : Claims) → is_staff c ≡ leb 2 (rank_of (some c))
  unfolding is_staff
  is_staff-rank c = ground arith

  is_member-rank : (c : Claims) → is_member c ≡ leb 1 (rank_of (some c))
  unfolding is_member
  is_member-rank c = ground arith

  check_role-IsRanked :
      (allowed : Claims → Bool) (label : String) (n : ℕ) (o : Option Claims)
      → 0 < n
      → ((c : Claims) → allowed c ≡ leb n (rank_of (some c)))
      → IsRanked allowed label n o
  check_role-IsRanked allowed label n none positive same =
      let below : leb n 0 ≡ false = ground arith in rw below
  check_role-IsRanked allowed label n (some c) positive same =
      rw (same c)
        (elim (Bool-cases (leb n (rank_of (some c)))) [ inl up ↦ rw up | inr low ↦ rw low ])

-- The three role checks hand the request to the handler from ranks 1, 2 and 3 on and answer 403
-- below, so a caller who passes one passes every weaker one, and no request without claims passes.
pub require-from_rank :
    {W B : Type 0} (next : Handler W B) (h : Headers) (r : Request) (w : W)
    → (require_member next h r w ≡ from_rank 1 "member" next h r w)
      × (require_staff next h r w ≡ from_rank 2 "staff" next h r w)
      × (require_admin next h r w ≡ from_rank 3 "admin" next h r w)
unfolding require_role require_member require_staff require_admin
require-from_rank next h r w = (
  check_role-IsRanked next h r w is_member "member" 1 r.claims (omega arith)
      (is_member-rank next h r w),
  check_role-IsRanked next h r w is_staff "staff" 2 r.claims (omega arith)
      (is_staff-rank next h r w),
  check_role-IsRanked next h r w is_admin "admin" 3 r.claims (omega arith)
      (is_admin-rank next h r w),
)
