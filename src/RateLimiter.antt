-- ===== src/RateLimiter.antt =====
-- internal/middleware/ratelimit.go: a token bucket for each client. Times are nanoseconds and
-- tokens are counted in billionths, so that `elapsed * rl.rps` is a whole number: the rounding of
-- the float64s is left out.
pub mod Bound
use ficct_boutique_backend_g.Base.{
  ℕ, zero, suc, ◌+◌, ◌-◌, ◌*◌, Bool, true, false, String, Option, none, some, not, if◌then◌else◌,
  ltb, str_eq,
}

pub record Bucket : Type 0 where
  pub tokens : ℕ
  pub last_refill : ℕ

pub record Limits : Type 0 where
  pub rps : ℕ
  pub burst : ℕ

-- One token.
abbrev pub token : ℕ
token = 1000000000

-- The map `buckets`.
abbrev pub Buckets : Type 0
Buckets = String → Option Bucket

-- `rl.buckets[key]`, or `&bucket{tokens: rl.burst, lastRefill: now}`.
abbrev pub bucket_or_new : Limits → ℕ → Option Bucket → Bucket
bucket_or_new l now none = record { tokens = l.burst * token; last_refill = now }
bucket_or_new l now (some b) = b

-- `b.tokens += elapsed * rl.rps`, cut at the burst; `b.lastRefill = now`. The clock is monotonic.
abbrev pub at_most : ℕ → ℕ → ℕ
at_most top x = if ltb top x then top else x

abbrev pub refill : Limits → ℕ → Bucket → Bucket
refill l now b = record {
  tokens = at_most (l.burst * token) (b.tokens + (now - b.last_refill) * l.rps);
  last_refill = now;
}

-- `if b.tokens < 1 { return false }; b.tokens--; return true`
abbrev pub can_spend : Bucket → Bool
can_spend b = not (ltb b.tokens token)

abbrev pub spend : Bucket → Bucket
spend b = if ltb b.tokens token then b else record b { tokens = b.tokens - token }

unfoldable pub allow : Limits → ℕ → String → Buckets → Bool × Buckets
allow l now key bs =
    let b = refill l now (bucket_or_new l now (bs key)) in
    (can_spend b, λ k. if str_eq k key then some (spend b) else bs k)

-- A bucket that was not used for five minutes is deleted.
abbrev pub keep_recent : ℕ → Option Bucket → Option Bucket
keep_recent cutoff none = none
keep_recent cutoff (some b) = if ltb b.last_refill cutoff then none else some b

-- One round of gcLoop.
unfoldable pub collect : ℕ → Buckets → Buckets
collect now bs k = keep_recent (now - 300 * token) (bs k)
