-- ===== src/Middleware/Authenticate/Laws.antt =====
-- Who reaches the machine API.
use politburo.Prelude.{
  ℕ, String, true, Option, none, some, ◌==◌, if◌then◌else◌, ◌≡◌, ◌≢◌, ◌⊎◌, inl, inr, refl, not,
  subst, sym, arith, eq_iff, Bool-cases, eqb,
}
use politburo.Strings.{trim_space, has_prefix}
use politburo.Auth.{Claims}
use politburo.Http.{Request, Response, Handler, Headers, with_claims, write_error}
use politburo.Middleware.{Lookup, found, absent, failed}
use politburo.Middleware.Authenticate.{
  api_key_header, KeyLookup, SessionLookup, is_game_api_path, key_claims, with_key,
  authenticate_api, after_key, after_session, try_session,
}

abbrev pub api_key : Request → String
api_key r = trim_space (r.header api_key_header)

module _ {W : Type 0} (lookup : KeyLookup W) (sessions : Option (SessionLookup W)) where
  -- the state in which the API key is looked up: no session was looked for, or none was found
  abbrev pub NoSession : Request → W → W → Type 0
  NoSession r w w₁ =
      (w₁ ≡ w) ⊎ ((s : SessionLookup W) × (sessions ≡ some s) × (s r w ≡ (absent, w₁)))

  -- what stands behind the claims of a request that is let through, and the state that it leaves
  pub data Grant (r : Request) (w : W) (c : Claims) (w' : W) : Type 0 where
    by_session :
        (s : SessionLookup W)
        → sessions ≡ some s
        → is_game_api_path r.path ≡ true
        → s r w ≡ (found c, w')
        → Grant r w c w'
    by_key :
        (w₁ : W) (known : Claims)
        → NoSession r w w₁
        → api_key r ≢ ""
        → lookup r (api_key r) w₁ ≡ (found known, w')
        → c ≡ key_claims r known
        → Grant r w c w'

  -- why a request is turned away, with the status and the state that it leaves: a lookup failed, there
  -- is no key, or the key was not found
  pub data Refusal (r : Request) (w : W) : ℕ → W → Type 0 where
    no_key : (w' : W) → NoSession r w w' → api_key r ≡ "" → Refusal r w 401 w'
    key_absent :
        (w₁ w' : W)
        → NoSession r w w₁
        → api_key r ≢ ""
        → lookup r (api_key r) w₁ ≡ (absent, w')
        → Refusal r w 401 w'
    key_failed :
        (w₁ w' : W)
        → NoSession r w w₁
        → api_key r ≢ ""
        → lookup r (api_key r) w₁ ≡ (failed, w')
        → Refusal r w 500 w'
    session_failed :
        (s : SessionLookup W) (w' : W)
        → sessions ≡ some s
        → is_game_api_path r.path ≡ true
        → s r w ≡ (failed, w')
        → Refusal r w 500 w'

  -- the answer to a request that is turned away
  abbrev pub answer_to : {B : Type 0} → Headers → ℕ → W → Response B × W
  answer_to h status w =
      if eqb status 401
      then write_error h 401 "UNAUTHORIZED" "Unauthorized" w
      else write_error h 500 "AUTH_LOOKUP_FAILED" "authentication lookup failed" w

  -- `run` hands the request to the handler with such claims, or answers without the handler
  abbrev pub Guards : {B : Type 0} → Headers → Request → W → (Handler W B → Response B × W) → Type 0
  Guards {B} h r w run =
      ((c : Claims) × (w' : W) × Grant r w c w'
        × ((next : Handler W B) → run next ≡ next h (with_claims r c) w'))
      ⊎ ((status : ℕ) × (w' : W) × Refusal r w status w'
          × ((next : Handler W B) → run next ≡ answer_to h status w'))

  module _ {B : Type 0} (h : Headers) (r : Request) (w : W) where
    after_key-Guards :
        (w₁ : W) (l : Lookup × W)
        → NoSession r w w₁
        → api_key r ≢ ""
        → lookup r (api_key r) w₁ ≡ l
        → Guards {B = B} h r w (λ next. after_key next h r l)
    after_key-Guards w₁ (found known, w') before given e =
        inl (key_claims r known, w', by_key w₁ known before given e refl, λ next. refl)
    after_key-Guards w₁ (absent, w') before given e =
        inr (401, w', key_absent w₁ w' before given e, λ next. refl)
    after_key-Guards w₁ (failed, w') before given e =
        inr (500, w', key_failed w₁ w' before given e, λ next. refl)

    with_key-Guards :
        (w₁ : W) → NoSession r w w₁ → Guards {B = B} h r w (λ next. with_key lookup next h r w₁)
    unfolding with_key
    with_key-Guards w₁ before = elim (Bool-cases (api_key r == "")) [
      | inl blank ↦
          inr (
            401,
            w₁,
            no_key w₁ before (ground (arith, eq_iff (api_key r) "")),
            λ next. rw blank refl,
          )
      | inr given ↦
          subst
            (λ b. Guards {B = B} h r w (λ next.
              if b
              then write_error h 401 "UNAUTHORIZED" "Unauthorized" w₁
              else after_key next h r (lookup r (api_key r) w₁)))
            (sym given)
            (after_key-Guards w₁ (lookup r (api_key r) w₁) before
              (ground (arith, eq_iff (api_key r) "")) refl)
    ]

    after_session-Guards :
        (s : SessionLookup W) (l : Lookup × W)
        → sessions ≡ some s
        → is_game_api_path r.path ≡ true
        → s r w ≡ l
        → Guards {B = B} h r w (λ next. after_session lookup next h r l)
    after_session-Guards s (found c, w') given game e =
        inl (c, w', by_session s given game e, λ next. refl)
    after_session-Guards s (absent, w') given game e = with_key-Guards w' (inr (s, given, e))
    after_session-Guards s (failed, w') given game e =
        inr (500, w', session_failed s w' given game e, λ next. refl)

    try_session-Guards :
        (o : Option (SessionLookup W))
        → sessions ≡ o
        → Guards {B = B} h r w (λ next. try_session o lookup next h r w)
    try_session-Guards none e = with_key-Guards w (inl refl)
    try_session-Guards (some s) e = elim (Bool-cases (is_game_api_path r.path)) [
      | inl game ↦
          subst
            (λ b. Guards {B = B} h r w (λ next.
              if b then after_session lookup next h r (s r w) else with_key lookup next h r w))
            (sym game) (after_session-Guards s (s r w) e game refl)
      | inr other ↦
          subst
            (λ b. Guards {B = B} h r w (λ next.
              if b then after_session lookup next h r (s r w) else with_key lookup next h r w))
            (sym other) (with_key-Guards w (inl refl))
    ]

    -- With a lookup configured, a request under /api/v1 reaches the handler only with the claims of
    -- a session, on a game path, or of an API key that is not blank and was found, with the Discord
    -- ids of its headers; the key is looked up only where no session was found. Any other such
    -- request is answered without the handler, in the state that the lookups leave: with 401 for a
    -- key that is blank or was not found, and with 500 for a lookup that failed.
    pub authenticate_api-Guards :
        has_prefix r.path "/api/v1" ≡ true
        → Guards {B = B} h r w (λ next. authenticate_api (some lookup) sessions next h r w)
    unfolding authenticate_api
    authenticate_api-Guards api =
        subst
          (λ b.
            Guards {B = B} h r w
              (λ next. if not b then next h r w else try_session sessions lookup next h r w))
          (sym api) (try_session-Guards sessions refl)
