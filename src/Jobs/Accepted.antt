-- ===== src/Jobs/Accepted.antt =====
-- The refreshes of the three jobs over the client of the API.
use politburo.Prelude.{
  Char, Map, Option, none, some, eqb, eqb_iff, ◌≡◌, ◌⊎◌, inl, inr, refl, arith, Bool-cases,
}
use politburo.Ints.{Int64}
use politburo.Upstream.{Time, Session}
use politburo.GameSessions.{Livery}
use politburo.Flights.Mapper.{Numerics}
use politburo.Upstream.Client.{
  Answer, ApiResponse, without_200, with_200, of_response, session_of, flight_of, livery_of,
  get_session_flights, Generated, get_sessions, get_aircraft_liveries, as_option, as_call,
}
use politburo.Cache.{Store}
use politburo.Jobs.{Outcome, job_failed}
use politburo.Jobs.Sessions
use politburo.Jobs.Liveries
use politburo.Jobs.Flights.{FlightsClient, refresh_session}

-- a response with a list of items and no error code
abbrev pub IsAccepted : {A : Type 0} → Option (ApiResponse A) → Type 0
IsAccepted {A = A} o =
    (r : ApiResponse A) × (answer : Answer A) × (o ≡ some r)
    × (r.json_200 ≡ some answer)
    × (answer.error_code ≡ 0)

module _ {A B : Type 0} (convert : A → B) (r : ApiResponse A) where
  without_200-none : (d : Option Int64) → as_option (without_200 convert r.status d) ≡ none
  without_200-none none = refl
  without_200-none (some code) = refl

  with_200-cases :
      (a : Option (Answer A))
      → r.json_200 ≡ a
      → IsAccepted (some r) ⊎ (as_option (with_200 convert r a) ≡ none)
  with_200-cases none e = inr (without_200-none r.json_default)
  with_200-cases (some answer) e = elim (Bool-cases (eqb answer.error_code 0)) [
    | inl zero ↦ inl (r, answer, refl, e, ground (arith, eqb_iff answer.error_code 0))
    | inr code ↦ inr (rw code refl)
  ]

of_response-cases :
    {A B : Type 0} (convert : A → B) (o : Option (ApiResponse A))
    → IsAccepted o ⊎ (as_option (of_response convert o) ≡ none)
unfolding of_response
of_response-cases convert none = inr refl
of_response-cases convert (some r) = with_200-cases convert r r.json_200 refl

module _ {W : Type 0} (store : Store W) (generated : Generated W) where
  -- the refreshes of the two jobs, with the client of the API
  abbrev pub refresh_sessions : (Char → Char) → Time → W → Outcome × W
  refresh_sessions lower now w =
      Sessions.run store (λ w. as_call (get_sessions generated w)) lower now w

  abbrev pub refresh_liveries : W → Outcome × W
  refresh_liveries w = Liveries.run store (λ w. as_call (get_aircraft_liveries generated w)) w

  abbrev pub flights_client : FlightsClient W
  flights_client id w = as_call (get_session_flights generated id w)

  -- A refresh of the sessions, of the liveries or of the flights of a session calls the API, and
  -- fails and leaves the state as the call left it, unless the response has a list of items and no
  -- error code.
  pub run-IsAccepted :
      (lower : Char → Char) (go : Numerics) (now : Time) (session : Session) (noted : Map Livery)
      (w : W)
      → (IsAccepted (generated.get_sessions w).0
          ⊎ (refresh_sessions lower now w ≡ (job_failed, (generated.get_sessions w).1)))
        × (IsAccepted (generated.get_aircraft_liveries w).0
            ⊎ (refresh_liveries w ≡ (job_failed, (generated.get_aircraft_liveries w).1)))
        × (IsAccepted (generated.get_session_flights session.id w).0
            ⊎ (refresh_session store flights_client go now session noted w
                ≡ (none, noted, (generated.get_session_flights session.id w).1)))
  unfolding Sessions.run Liveries.run refresh_session get_sessions get_aircraft_liveries
      get_session_flights
  run-IsAccepted lower go now session noted w = (
    elim (of_response-cases session_of (generated.get_sessions w).0) [
      | inl accepted ↦ inl accepted
      | inr refused ↦ inr (rw refused refl)
    ],
    elim (of_response-cases livery_of (generated.get_aircraft_liveries w).0) [
      | inl accepted ↦ inl accepted
      | inr refused ↦ inr (rw refused refl)
    ],
    elim (of_response-cases flight_of (generated.get_session_flights session.id w).0) [
      | inl accepted ↦ inl accepted
      | inr refused ↦ inr (rw refused refl)
    ],
  )
