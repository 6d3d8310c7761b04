-- ===== src/Api/SignedLink.antt =====
-- internal/transport/http/api/signedlink/handler.go, without its log lines.
pub mod Issued
use politburo.Prelude.{ℕ, ◌/◌, String, Option, none, some, ◌==◌, if◌then◌else◌}
use politburo.Auth.{Claims, LoginTicket, ticket_ttl}
use politburo.Auth.Url.{normalize_redirect, format_login_url}
use politburo.Users.{User, display_name}
use politburo.Http.{Request, Response, Headers, write_json, write_error}

-- `GetByDiscordID`: an error is `none`, and a user who is not found is `some none`
abbrev pub UserLookup : Type 0 → Type 0
UserLookup W = String → W → Option (Option User) × W

-- `Issue`; an error is `none`
abbrev pub TicketIssuer : Type 0 → Type 0
TicketIssuer W = LoginTicket → W → Option String × W

pub record Link : Type 0 where
  pub url : String
  pub expires_in : ℕ
  pub redirect_to : String

abbrev pub ticket_for : User → Claims → String → LoginTicket
ticket_for user claims redirect_to = record {
  user_id = user.id;
  discord_user_id = user.discord_id;
  discord_server_id = claims.ds_server_id;
  username = display_name user;
  redirect_to = redirect_to;
}

-- `escape` is `url.QueryEscape`
module _ {W : Type 0} (users : UserLookup W) (tickets : TicketIssuer W) (escape : String → String)
    (ui_base_url : String) (h : Headers) where
  abbrev pub with_token : String → Option String × W → Response Link × W
  with_token redirect_to (none, w) =
      write_error h 500 "GENERATION_FAILED" "failed to generate signed link" w
  with_token redirect_to (some token, w) =
      write_json h 200
        (record {
          url = format_login_url escape ui_base_url token;
          expires_in = ticket_ttl / 1000000000;
          redirect_to = redirect_to;
        })
        w

  abbrev pub with_user : Claims → String → Option (Option User) × W → Response Link × W
  with_user claims redirect_to (none, w) =
      write_error h 500 "USER_LOOKUP_FAILED" "user lookup failed" w
  with_user claims redirect_to (some none, w) =
      write_error h 404 "USER_NOT_FOUND" "user not found" w
  with_user claims redirect_to (some (some user), w) =
      with_token redirect_to (tickets (ticket_for user claims redirect_to) w)

  abbrev pub with_redirect : Claims → Option String → W → Response Link × W
  with_redirect claims none w =
      write_error h 400 "INVALID_REDIRECT" "redirectTo must be a relative path" w
  with_redirect claims (some redirect_to) w =
      with_user claims redirect_to (users claims.ds_user_id w)

  -- `body` is the field `redirectTo` of the decoded body, `""` for an empty body, `none` for one
  -- that does not decode
  abbrev pub with_body : Claims → Option String → W → Response Link × W
  with_body claims none w = write_error h 400 "INVALID_REQUEST" "Invalid request body" w
  with_body claims (some path) w = with_redirect claims (normalize_redirect path) w

  abbrev pub with_claims : Option String → Option Claims → W → Response Link × W
  with_claims body none w = write_error h 401 "UNAUTHORIZED" "Unauthorized" w
  with_claims body (some claims) w =
      if claims.ds_user_id == ""
      then write_error h 403 "MISSING_DISCORD_CONTEXT"
          "Missing required Discord context header: X-Discord-User-Id" w
      else with_body claims body w

  unfoldable pub generate_signed_link : Option String → Request → W → Response Link × W
  generate_signed_link body r w = with_claims body r.claims w
