-- ===== src/Cache/Keys/Laws.antt =====
-- No two entries of the cache share a key.
use Prim.Native.String.{◌++◌}
use text.Mathlib.TextLemmas.{append_cancel_left, cons-append, nil-append}
use politburo.Prelude.{
  String, List, [], ◌∷◌, ◌≡◌, ◌≢◌, ap, ◌∙◌, sym, refl, arith, ℕ, code, eqb, if◌then◌else◌, zero,
  suc,
}
use mathlib.Core.List
use politburo.Cache.Keys.{
  key_active_sessions, key_session_names, key_api_key_status, key_login_ticket, key_session,
  key_active_flights, key_flight_history, key_livery,
}

-- an entry of the cache, and its key
pub data Entry : Type 0 where
  active_sessions session_names : Entry
  api_key_status login_ticket session active_flights flight_history livery : String → Entry

unfoldable pub key_of : Entry → String
unfolding key_api_key_status key_login_ticket key_session key_active_flights key_flight_history
    key_livery
key_of Entry.active_sessions = key_active_sessions
key_of Entry.session_names = key_session_names
key_of (Entry.api_key_status s) = key_api_key_status s
key_of (Entry.login_ticket s) = key_login_ticket s
key_of (Entry.session s) = key_session s
key_of (Entry.active_flights s) = key_active_flights s
key_of (Entry.flight_history s) = key_flight_history s
key_of (Entry.livery s) = key_livery s

codes : String → List ℕ
codes String.[] = []
codes (String.◌∷◌ c s) = code c ∷ codes s

codes-append : (s t : String) → codes (s ++ t) ≡ List.◌++◌ (codes s) (codes t)
unfolding codes
codes-append String.[] t = ap codes (nil-append t)
codes-append (String.◌∷◌ c s) t =
    ap codes (cons-append c s t) ∙ ap (◌∷◌ (code c)) (codes-append s t)

at : ℕ → List ℕ → ℕ
at n [] = 0
at zero (c ∷ s) = c
at (suc n) (c ∷ s) = at n s

abbrev kind : Entry → ℕ
kind Entry.active_sessions = 0
kind Entry.session_names = 1
kind (Entry.api_key_status s) = 2
kind (Entry.login_ticket s) = 3
kind (Entry.session s) = 4
kind (Entry.active_flights s) = 5
kind (Entry.flight_history s) = 6
kind (Entry.livery s) = 7

-- the kind of the entry that has a key, read off four of its characters
kind_of : List ℕ → ℕ
kind_of k =
    if eqb (at 0 k) b's'
    then 4
    else if eqb (at 0 k) b'a'
    then if eqb (at 5 k) b'a' then 2 else 3
    else if eqb (at 5 k) b'l'
    then 7
    else if eqb (at 5 k) b'f'
    then if eqb (at 13 k) b'a' then 5 else 6
    else if eqb (at 14 k) b'a'
    then 0
    else 1

kind_of-key_of : (e : Entry) → kind_of (codes (key_of e)) ≡ kind e
unfolding key_of codes at kind_of
kind_of-key_of Entry.active_sessions = refl
kind_of-key_of Entry.session_names = refl
kind_of-key_of (Entry.api_key_status s) = rw codes-append
kind_of-key_of (Entry.login_ticket s) = rw codes-append
kind_of-key_of (Entry.session s) = rw codes-append
kind_of-key_of (Entry.active_flights s) = rw codes-append
kind_of-key_of (Entry.flight_history s) = rw codes-append
kind_of-key_of (Entry.livery s) = rw codes-append

kind_eq : (a b : Entry) → key_of a ≡ key_of b → kind a ≡ kind b
kind_eq a b e = sym (kind_of-key_of a) ∙ ap (λ k. kind_of (codes k)) e ∙ kind_of-key_of b

-- Different entries of the cache have different keys.
pub key_of-injective : (a b : Entry) → key_of a ≡ key_of b → a ≡ b
unfolding key_of
key_of-injective Entry.active_sessions Entry.active_sessions e = refl
key_of-injective Entry.session_names Entry.session_names e = refl
key_of-injective (Entry.api_key_status s) (Entry.api_key_status t) e =
    ap Entry.api_key_status (append_cancel_left _ s t e)
key_of-injective (Entry.login_ticket s) (Entry.login_ticket t) e =
    ap Entry.login_ticket (append_cancel_left _ s t e)
key_of-injective (Entry.session s) (Entry.session t) e =
    ap Entry.session (append_cancel_left _ s t e)
key_of-injective (Entry.active_flights s) (Entry.active_flights t) e =
    ap Entry.active_flights (append_cancel_left _ s t e)
key_of-injective (Entry.flight_history s) (Entry.flight_history t) e =
    ap Entry.flight_history (append_cancel_left _ s t e)
key_of-injective (Entry.livery s) (Entry.livery t) e = ap Entry.livery (append_cancel_left _ s t e)
key_of-injective a b e = absurd (omega (arith, kind_eq a b e))

pub key_session-ne : (s t : String) → s ≢ t → key_session s ≢ key_session t
unfolding key_session
key_session-ne s t h e = h (append_cancel_left _ s t e)

pub key_login_ticket-key_session : (s t : String) → key_login_ticket s ≢ key_session t
unfolding key_of
key_login_ticket-key_session s t e =
    absurd (omega (arith, kind_eq (Entry.login_ticket s) (Entry.session t) e))
