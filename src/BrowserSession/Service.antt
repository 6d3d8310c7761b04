-- ===== src/BrowserSession/Service.antt =====
-- internal/session/service.go. The clock and `uuid.NewString` are arguments of the operations.
pub mod Laws
use politburo.Prelude.{ℕ, ◌+◌, String, Bool, true, false, Option, none, some, ◌==◌, if◌then◌else◌}
use politburo.Upstream.{Time}
use politburo.Auth.{Claims}
use politburo.Http.{Request}
use politburo.Middleware.{Lookup, found, absent, failed}
use politburo.Cache.{Shape, Reply, hit, miss, broken, Store}
use politburo.Cache.Keys.{key_session}
use politburo.BrowserSession.{ttl, Session, claims, expired}
use politburo.BrowserSession.Cookie.{session_id_from_request}

pub record CreateInput : Type 0 where
  pub user_id : String
  pub discord_id : String
  pub discord_server_id : String
  pub username : String

abbrev pub new_session : String → Time → CreateInput → Session
new_session uuid now input = record {
  session_id = uuid;
  user_id = input.user_id;
  discord_id = input.discord_id;
  discord_server_id = input.discord_server_id;
  username = input.username;
  created_at = now;
  expires_at = now + ttl;
}

module _ {W : Type 0} (store : Store W) where
  -- `none` is an error
  abbrev pub created : Session → Bool × W → Option Session × W
  created s (true, w) = (some s, w)
  created s (false, w) = (none, w)

  unfoldable pub create : String → Time → CreateInput → W → Option Session × W
  create uuid now input w =
      let s = new_session uuid now input in
      created s (store.set_json Shape.session_shape (key_session s.session_id) s ttl w)

  -- the error of a deletion is its only result; `true` is nil
  unfoldable pub delete : String → W → Bool × W
  delete session_id w =
      if session_id == "" then (true, w) else store.delete (key_session session_id) w

  abbrev pub checked : String → Time → Reply Session × W → Reply Session × W
  checked session_id now (hit s, w) =
      if expired s now then (miss, (delete session_id w).1) else (hit s, w)
  checked session_id now (miss, w) = (miss, w)
  checked session_id now (broken, w) = (broken, w)

  unfoldable pub get : String → Time → W → Reply Session × W
  unfolding delete
  get session_id now w =
      checked session_id now (store.get_json Shape.session_shape (key_session session_id) w)

  abbrev pub as_lookup : Reply Session × W → Lookup × W
  as_lookup (hit s, w) = (found (claims s), w)
  as_lookup (miss, w) = (absent, w)
  as_lookup (broken, w) = (failed, w)

  unfoldable pub lookup : Time → Request → W → Lookup × W
  lookup now r w =
      let session_id = session_id_from_request r in
      if session_id == "" then (absent, w) else as_lookup (get session_id now w)
