-- ===== src/Api/Health.antt =====
-- internal/transport/http/api/health/handler.go. The two pings are arguments; `true` is a nil error.
use politburo.Prelude.{String, Bool, true, false, List, [], ◌∷◌, ◌≡◌, ◌↔◌, refl, arith}
use politburo.Upstream.{Time}
use politburo.Http.{Headers, Response, write_json}

pub data Health : Type 0 where
  alive : Time → String → Health
  ready : List (String × String) → Health
  not_ready : List (String × String) → Health

-- `uptime` is the text of the duration since `started_at`
abbrev pub get_liveness : {W : Type 0} → Time → String → Headers → W → Response Health × W
get_liveness started_at uptime h w = write_json h 200 (alive started_at uptime) w

module _ {W : Type 0} (ping_database ping_redis : W → Bool × W) (h : Headers) where
  abbrev pub after_redis : Bool × W → Response Health × W
  after_redis (false, w) =
      write_json h 503 (not_ready (("postgres", "ok") ∷ ("redis", "down") ∷ [])) w
  after_redis (true, w) = write_json h 200 (ready (("postgres", "ok") ∷ ("redis", "ok") ∷ [])) w

  abbrev pub after_database : Bool × W → Response Health × W
  after_database (false, w) = write_json h 503 (not_ready (("postgres", "down") ∷ [])) w
  after_database (true, w) = after_redis (ping_redis w)

  unfoldable pub get_readiness : W → Response Health × W
  get_readiness w = after_database (ping_database w)

  after_redis-status : (p : Bool × W) → ((after_redis p).0.status ≡ 200) ↔ (p.0 ≡ true)
  after_redis-status (false, w) = (λ e. absurd (omega arith), λ e. cc)
  after_redis-status (true, w) = (λ e. refl, λ e. refl)

  after_database-status :
      (p : Bool × W)
      → ((after_database p).0.status ≡ 200) ↔ ((p.0 ≡ true) × ((ping_redis p.1).0 ≡ true))
  after_database-status (false, w) = (λ e. absurd (omega arith), λ e. absurd (no_ping e.0))
    where
      no_ping : false ≡ true → ⊥
      no_ping e = cc
  after_database-status (true, w) = (
    λ e. (refl, (after_redis-status (ping_redis w)).0 e),
    λ e. (after_redis-status (ping_redis w)).1 e.1,
  )

  -- The readiness is 200 exactly if the database answers its ping, and Redis the one after it.
  pub get_readiness-status :
      (w : W)
      → ((get_readiness w).0.status ≡ 200)
        ↔ (((ping_database w).0 ≡ true) × ((ping_redis (ping_database w).1).0 ≡ true))
  unfolding get_readiness
  get_readiness-status w = after_database-status (ping_database w)
