-- ===== src/Middleware/Fresh.antt =====
-- A client who names itself anew with each request is never limited: internal/middleware/ratelimit.go.
use ficct_boutique_backend_g.Base.{
  ℕ, ◌≤◌, ◌≡◌, ◌∙◌, refl, ap, String, Bool, true, false, ◌&&◌, none, List, [], ◌∷◌, All, str_eq,
  arith,
}
use ficct_boutique_backend_g.RateLimiter.{Limits, Buckets, bucket_or_new, refill, can_spend, allow}
use ficct_boutique_backend_g.Middleware.{
  Request, Handled, served, refused, client_key, limited, rate_limit,
}

abbrev pub is_served : {A : Type 0} → Handled A → Bool
is_served (refused code) = false
is_served (served a) = true

-- The requests, each at its time, one after the other: all of them are served.
unfoldable pub all_served : Limits → List (ℕ × Request) → Buckets → Bool
all_served l [] bs = true
all_served l ((now, r) ∷ rs) bs =
    is_served (rate_limit l now r tt bs).0 && all_served l rs (rate_limit l now r tt bs).1

-- Each request has a header X-Forwarded-For, which names no bucket and stands in no later one.
abbrev pub AreFresh : List (ℕ × Request) → Buckets → Type 0
AreFresh [] bs = Unit
AreFresh ((now, r) ∷ rs) bs =
    (str_eq r.forwarded_for "" ≡ false)
    × (bs r.forwarded_for ≡ none)
    × All (λ q. str_eq q.1.forwarded_for r.forwarded_for ≡ false) rs
    × AreFresh rs bs

client_key-forwarded :
    (r : Request) → str_eq r.forwarded_for "" ≡ false → client_key r ≡ r.forwarded_for
unfolding client_key
client_key-forwarded r h = rw h refl

allow-new :
    (l : Limits) (now : ℕ) (key : String) (bs : Buckets)
    → 1 ≤ l.burst
    → bs key ≡ none
    → (allow l now key bs).0 ≡ true
unfolding allow
allow-new l now key bs burst new =
    ap (λ o. can_spend (refill l now (bucket_or_new l now o))) new ∙ full l now burst
  where
    full :
        (l : Limits) (now : ℕ)
        → 1 ≤ l.burst
        → can_spend (refill l now (bucket_or_new l now none)) ≡ true
    full l now h = ground arith

rate_limit-new :
    (l : Limits) (now : ℕ) (r : Request) (bs : Buckets)
    → 1 ≤ l.burst
    → bs (client_key r) ≡ none
    → (is_served (rate_limit l now r tt bs).0 ≡ true)
      × ((rate_limit l now r tt bs).1 ≡ (allow l now (client_key r) bs).1)
unfolding rate_limit
rate_limit-new l now r bs burst new =
    answer (allow l now (client_key r) bs) (allow-new l now (client_key r) bs burst new)
  where
    answer :
        (p : Bool × Buckets)
        → p.0 ≡ true
        → (is_served (limited p tt).0 ≡ true) × ((limited p tt).1 ≡ p.1)
    answer (true, after) h = (refl, refl)
    answer (false, after) h = absurd (cc)

AreFresh-allow :
    (l : Limits) (now : ℕ) (key : String) (rs : List (ℕ × Request)) (bs : Buckets)
    → All (λ q. str_eq q.1.forwarded_for key ≡ false) rs
    → AreFresh rs bs
    → AreFresh rs (allow l now key bs).1
unfolding allow
AreFresh-allow l now key [] bs others fresh = tt
AreFresh-allow l now key ((time, r) ∷ rs) bs others fresh =
    (fresh.0, rw others.0 fresh.1, fresh.2, AreFresh-allow l now key rs bs others.1 fresh.3)

-- The limit is on the X-Forwarded-For header, which a client writes: however many requests come, at
-- whatever times and from whatever address (be it the same), if each carries a header that has no
-- bucket and that none after it carries, none of them is refused, for any limits with a burst of at
-- least one.
pub fresh_served :
    (l : Limits) (rs : List (ℕ × Request)) (bs : Buckets)
    → 1 ≤ l.burst
    → AreFresh rs bs
    → all_served l rs bs ≡ true
unfolding all_served
fresh_served l [] bs burst fresh = refl
fresh_served l ((now, r) ∷ rs) bs burst fresh =
    let key = client_key-forwarded r fresh.0 in
    let (passes, after) = rate_limit-new l now r bs burst (ap bs key ∙ fresh.1) in
    let left = after ∙ ap (λ k. (allow l now k bs).1) key in
    let rest = AreFresh-allow l now r.forwarded_for rs bs fresh.2 fresh.3 in
    ap (λ b. b && all_served l rs (rate_limit l now r tt bs).1) passes
    ∙ (ap (all_served l rs) left ∙ fresh_served l rs (allow l now r.forwarded_for bs).1 burst rest)
