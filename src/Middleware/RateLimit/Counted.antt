-- ===== src/Middleware/RateLimit/Counted.antt =====
-- How many requests of a minute pass the limit.
use Prim.Native.String
use text.Mathlib.TextLemmas.{append_cancel_left, append_cancel_right}
use politburo.Prelude.{
  Bool, ◌≢◌, ◌==◌, ◌&&◌, eqb, sym, ap, subst, ℕ, ◌+◌, ◌<◌, ◌^◌, String, some, List, [], ◌∷◌, ◌≡◌,
  ◌∙◌, arith, if◌then◌else◌,
}
use politburo.Ints.{Int64, format_int}
use politburo.Ints.Read.{scan, scan-colon, scan-format_int}
use politburo.Http.{Request, Headers, Handler}
use politburo.Middleware.RateLimit.{RateLimiter, bucket_key, caller_id, minute_bucket, rate_limit}

-- What a limiter documents, while it does not fail: the count of a bucket goes up by one, the new count
-- is returned, and the counts of the other buckets stay.
pub record IsCounter {W : Type 0} (incr : RateLimiter W) : Type 0 where
  pub count : String → W → ℕ
  pub incr_count :
      (key : String) (ttl : ℕ) (w : W)
      → count key w + 1 < 2 ^ 63
      → ((incr key ttl w).0 ≡ some (count key w + 1))
        × (count key (incr key ttl w).1 ≡ count key w + 1)
  pub incr_other :
      (key other : String) (ttl : ℕ) (w : W)
      → other ≢ key
      → count other (incr key ttl w).1 ≡ count other w

-- a limiter next to a number of calls
abbrev pub beside : {W : Type 0} → RateLimiter W → RateLimiter (W × ℕ)
beside incr key ttl (w, n) = let (count, w') = incr key ttl w in (count, (w', n))

-- a handler that counts its calls, if they are to be counted
abbrev pub counted : {W B : Type 0} → Bool → Handler W B → Handler (W × ℕ) B
counted mine next h r (w, n) =
    let (answer, w') = next h r w in (answer, (w', if mine then n + 1 else n))

-- two requests of one minute count together exactly if they have one caller
pub bucket_key-injective :
    (group : String) (r r' : Request) (now now' : ℕ)
    → now < 2 ^ 63
    → now' < 2 ^ 63
    → bucket_key group r now ≡ bucket_key group r' now'
    → (caller_id r ≡ caller_id r') × (minute_bucket now ≡ minute_bucket now')
unfolding bucket_key
bucket_key-injective group r r' now now' small small' e =
    let tails =
      append_cancel_left ":" _ _
        (append_cancel_left group _ _ (append_cancel_left "ratelimit:" _ _ e)) in
    let m = minute_bucket now in
    let m' = minute_bucket now' in
    let minute : m ≡ m' =
      sym (scan-colon 0 (caller_id r) (format_int m) ∙ scan-format_int m (omega arith))
      ∙ ap (scan 0) tails
      ∙ scan-colon 0 (caller_id r') (format_int m')
      ∙ scan-format_int m' (omega arith) in
    let same_tail =
      subst
        (λ n.
          String.◌++◌ (caller_id r) (String.◌++◌ ":" (format_int m))
          ≡ String.◌++◌ (caller_id r') (String.◌++◌ ":" (format_int n)))
        (sym minute) tails in
    (append_cancel_right (caller_id r) (caller_id r') _ same_tail, minute)

module _ {W B : Type 0} (incr : RateLimiter W) (group : String) (limit : Int64) (next : Handler W B)
    (caller : Request) (at : ℕ) where
  -- whether a request has the caller, and falls into the minute, of `caller` at the time `at`
  abbrev pub is_mine : ℕ → Request → Bool
  is_mine now r = caller_id r == caller_id caller && eqb (minute_bucket now) (minute_bucket at)

  -- how many of the requests do
  unfoldable pub how_many : List (ℕ × Request) → ℕ
  how_many [] = 0
  how_many ((now, r) ∷ rs) = (if is_mine now r then 1 else 0) + how_many rs

  -- requests at their times, one after the other; the calls of the handler for those of the caller in
  -- the minute are counted
  unfoldable pub serve_all : List (ℕ × Request) → W × ℕ → W × ℕ
  unfolding rate_limit
  serve_all [] s = s
  serve_all ((now, r) ∷ rs) s =
      serve_all rs
        (rate_limit (some (beside incr)) group limit now (counted (is_mine now r) next) [] r s).1

  module _ (c : IsCounter incr)
      (steady : (k : String) (h : Headers) (r : Request) (w : W)
        → c.count k (next h r w).1 ≡ c.count k w)
      (small : limit < 2 ^ 63) where
    abbrev pub bucket : String
    bucket = bucket_key group caller at
