-- ===== src/Middleware/RateLimit.antt =====
-- middleware/ratelimit.go; `now` is the Unix time of the request in seconds.
pub mod Laws
pub mod Counted
use politburo.Prelude.{
  ℕ, ◌+◌, ◌-◌, ◌*◌, ◌/◌, String, Option, none, some, List, [], ◌∷◌, ltb, if◌then◌else◌, ◌==◌, not,
  ◌++◌,
}
use Prim.Native.String
use politburo.Ints.{Int64, format_int, lt_int}
use politburo.Auth.{Claims}
use politburo.Http.{Request, Response, Headers, Handler, write_error}

abbrev pub rate_limit_registration : Int64
rate_limit_registration = 5

abbrev pub rate_limit_submit : Int64
rate_limit_submit = 10

abbrev pub rate_limit_read : Int64
rate_limit_read = 60

-- two minutes, in nanoseconds
abbrev pub bucket_ttl : ℕ
bucket_ttl = 2 * 60 * 1000000000

-- `Incr`: the new count of the bucket, `none` on an error
abbrev pub RateLimiter : Type 0 → Type 0
RateLimiter W = String → ℕ → W → Option Int64 × W

abbrev by_address : Request → String
by_address r =
    let forwarded = r.header "X-Forwarded-For" in
    if not (forwarded == "") then forwarded else r.remote_addr

abbrev caller_of : Request → Option Claims → String
caller_of r none = by_address r
caller_of r (some claims) =
    if not (claims.ds_user_id == "")
    then claims.ds_user_id
    else if not (claims.pb_user_id == "")
    then claims.pb_user_id
    else by_address r

unfoldable pub caller_id : Request → String
caller_id r = caller_of r r.claims

abbrev pub minute_bucket : ℕ → ℕ
minute_bucket now = now / 60

abbrev pub retry_after : ℕ → ℕ
retry_after now = (minute_bucket now + 1) * 60 - now

unfoldable pub bucket_key : String → Request → ℕ → String
unfolding caller_id
bucket_key group r now = String.◌++◌ "ratelimit:" (
    String.◌++◌ group (
      String.◌++◌ ":"
        (String.◌++◌ (caller_id r) (String.◌++◌ ":" (format_int (minute_bucket now))))))

module _ {W B : Type 0} where
  abbrev pub after_count :
      Int64 → ℕ → Handler W B → Headers → Request → Option Int64 × W → Response B × W
  after_count limit now next h r (none, w) = next h r w
  after_count limit now next h r (some count, w) =
      if lt_int limit count
      then write_error (h ++ ("Retry-After", format_int (retry_after now)) ∷ []) 429
          "RATE_LIMIT_EXCEEDED"
          (String.◌++◌ "Too many requests. Retry after "
            (String.◌++◌ (format_int (retry_after now)) " seconds."))
          w
      else next h r w

  unfoldable pub rate_limit :
      Option (RateLimiter W) → String → Int64 → ℕ → Handler W B → Handler W B
  rate_limit none group limit now next h r w = next h r w
  rate_limit (some incr) group limit now next h r w =
      after_count limit now next h r (incr (bucket_key group r now) bucket_ttl w)
