-- ===== src/Middleware/RateLimit/Laws.antt =====
-- When a caller is turned away, and until when.
use politburo.Ints.Laws.{lt_int-true, lt_int-false}
use politburo.Prelude.{
  ℕ, ◌+◌, ◌≤◌, ◌<◌, ◌^◌, String, some, [], ◌∷◌, ◌++◌, ◌≡◌, arith, none, ◌⊎◌, inl, inr,
}
use politburo.Ints.{format_int}
use politburo.Http.{Request, Headers, Handler}
use politburo.Middleware.RateLimit.{
  RateLimiter, bucket_ttl, bucket_key, minute_bucket, retry_after, rate_limit,
}

-- The wait that is announced is between one second and a minute, and it ends with the bucket.
retry_after_bounds :
    (now : ℕ)
    → (1 ≤ retry_after now)
      × (retry_after now ≤ 60)
      × (minute_bucket (now + retry_after now) ≡ minute_bucket now + 1)
retry_after_bounds now = omega arith

-- A caller whose count is above the limit is answered by 429, with a wait in seconds from 1 to 60
-- after which the minute, and so the bucket, is the next one; the handler is not run.
pub rate_limit-refuses :
    {W B : Type 0} (incr : RateLimiter W) (group : String) (limit now count : ℕ) (h : Headers)
    (r : Request) (w w' : W)
    → incr (bucket_key group r now) bucket_ttl w ≡ (some count, w')
    → limit < count
    → count < 2 ^ 63
    → (wait : ℕ) × (1 ≤ wait)
      × (wait ≤ 60)
      × (minute_bucket (now + wait) ≡ minute_bucket now + 1)
      × ((next : Handler W B)
          → ((rate_limit (some incr) group limit now next h r w).0.status ≡ 429)
            × ((rate_limit (some incr) group limit now next h r w).0.headers
                ≡ (h ++ ("Retry-After", format_int wait) ∷ [])
                  ++ ("Content-Type", "application/json") ∷ [])
            × ((rate_limit (some incr) group limit now next h r w).1 ≡ w'))
unfolding rate_limit
rate_limit-refuses incr group limit now count h r w w' e over small =
    let (low, high, later) = retry_after_bounds now in
    let past = lt_int-true limit count over small in
    (retry_after now, low, high, later, λ next. (rw (e, past), rw (e, past), rw (e, past)))

-- A caller whose count is within the limit, and every caller while the limiter fails, reaches the
-- handler as if there were no limit.
pub rate_limit-admits :
    {W B : Type 0} (incr : RateLimiter W) (group : String) (limit now : ℕ) (next : Handler W B)
    (h : Headers) (r : Request) (w w' : W)
    → ((incr (bucket_key group r now) bucket_ttl w ≡ (none, w'))
        ⊎ ((count : ℕ) × (incr (bucket_key group r now) bucket_ttl w ≡ (some count, w'))
            × (count ≤ limit)
            × (limit < 2 ^ 63)))
    → rate_limit (some incr) group limit now next h r w ≡ next h r w'
unfolding rate_limit
rate_limit-admits incr group limit now next h r w w' (inl e) = rw e
rate_limit-admits incr group limit now next h r w w' (inr (count, e, within, small)) =
    rw (e, lt_int-false limit count within small)
