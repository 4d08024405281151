-- ===== src/RateLimiter/Bound.antt =====
-- How many requests of one client pass internal/middleware/ratelimit.go in an interval of time.
use native.Mathlib.Nat.{add-mul, mul-le-mul_right}
use ficct_boutique_backend_g.Base.{
  ℕ, suc, ◌+◌, ◌-◌, ◌*◌, ◌≤◌, ◌≡◌, ◌∙◌, refl, ap, Bool, false, String, Option, none, some, List, [],
  ◌∷◌, ◌&&◌, if◌then◌else◌, ltb, str_eq, eq_iff, arith, Bool-cases, inl, inr,
}
use ficct_boutique_backend_g.RateLimiter.{
  Bucket, Limits, Buckets, token, at_most, bucket_or_new, refill, can_spend, spend, allow,
  keep_recent, collect,
}

-- What happens to the limiter: a request of a client, or a round of gcLoop, each at its time.
pub data Event : Type 0 where
  request : ℕ → String → Event
  cleanup : ℕ → Event

abbrev pub time_of : Event → ℕ
time_of (request now key) = now
time_of (cleanup now) = now

unfoldable pub step : Limits → Event → Buckets → Buckets
step l (request now key) bs = (allow l now key bs).1
step l (cleanup now) bs = collect now bs

abbrev pub passes : Limits → String → Event → Buckets → Bool
passes l key (request now k) bs = str_eq key k && (allow l now k bs).0
passes l key (cleanup now) bs = false

-- The number of the client's requests that pass.
unfoldable pub granted : Limits → String → List Event → Buckets → ℕ
granted l key [] bs = 0
granted l key (e ∷ es) bs =
    let rest = granted l key es (step l e bs) in if passes l key e bs then suc rest else rest

-- The events follow each other between two times.
abbrev pub IsBetween : ℕ → ℕ → List Event → Type 0
IsBetween from until [] = from ≤ until
IsBetween from until (e ∷ es) = (from ≤ time_of e) × IsBetween (time_of e) until es

split_time : (a b c r : ℕ) → a ≤ b → b ≤ c → (c - a) * r ≡ (b - a) * r + (c - b) * r
split_time a b c r h k = ap (λ n. n * r) (sum a b c h k) ∙ add-mul (b - a) (c - b) r
  where
    sum : (a b c : ℕ) → a ≤ b → b ≤ c → c - a ≡ (b - a) + (c - b)
    sum a b c h k = omega arith

ends : (from until : ℕ) (es : List Event) → IsBetween from until es → from ≤ until
ends from until [] h = h
ends from until (e ∷ es) h = omega (arith, ends (time_of e) until es h.1)

-- The billionths that a client could spend at a time.
abbrev pub credit : Limits → ℕ → Option Bucket → ℕ
credit l t o = (refill l t (bucket_or_new l t o)).tokens

abbrev pub IsUsedBy : ℕ → Option Bucket → Type 0
IsUsedBy t none = Unit
IsUsedBy t (some b) = b.last_refill ≤ t

no_time : (t r : ℕ) → (t - t) * r ≡ 0
no_time t r = ap (λ n. n * r) (zero_diff t) ∙ zero_mul r
  where
    zero_diff : (t : ℕ) → t - t ≡ 0
    zero_diff t = omega arith

    zero_mul : (r : ℕ) → 0 * r ≡ 0
    zero_mul r = omega arith

credit-grows :
    (l : Limits) (t t' : ℕ) (o : Option Bucket)
    → t ≤ t'
    → IsUsedBy t o
    → credit l t' o ≤ credit l t o + (t' - t) * l.rps
credit-grows l t t' none h used = ground (arith, no_time t l.rps, no_time t' l.rps)
credit-grows l t t' (some b) h used = ground (arith, split_time b.last_refill t t' l.rps used h)

at_most_le : (top x : ℕ) → at_most top x ≤ top
at_most_le top x = ground arith

spend-used : (b : Bucket) → (spend b).last_refill ≡ b.last_refill
spend-used b = ground arith

-- Spending on a bucket that was just filled takes a token out of what it holds, if one is there.
spend-pays :
    (l : Limits) (now c : ℕ) (b : Bucket)
    → b.last_refill ≡ now
    → b.tokens ≤ l.burst * token
    → b.tokens ≤ c
    → IsUsedBy now (some (spend b))
      × (credit l now (some (spend b)) + (if can_spend b then token else 0) ≤ c)
spend-pays l now c b fresh full enough = (
  omega (arith, spend-used b),
  ground (arith, no_time now l.rps, ap (λ t. (now - t) * l.rps) fresh),
)

credit-keep :
    (l : Limits) (now : ℕ) (o : Option Bucket)
    → l.burst ≤ 300 * l.rps
    → IsUsedBy now o
    → credit l now (keep_recent (now - 300 * token) o) ≤ credit l now o
credit-keep l now none slow used = omega arith
credit-keep l now (some b) slow used = elim (Bool-cases (ltb b.last_refill (now - 300 * token))) [
  | inl old ↦
      let long : 300 * token ≤ now - b.last_refill = ground arith in
      let full = mul-le-mul_right l.rps long in ground (arith, full)
  | inr recent ↦ ground arith
]

keep-IsUsedBy :
    (cutoff t : ℕ) (o : Option Bucket) → IsUsedBy t o → IsUsedBy t (keep_recent cutoff o)
keep-IsUsedBy cutoff t none used = tt
keep-IsUsedBy cutoff t (some b) used = elim (Bool-cases (ltb b.last_refill cutoff)) [
  | inl old ↦ rw old tt
  | inr recent ↦ rw recent used
]

later : (t t' : ℕ) (o : Option Bucket) → t ≤ t' → IsUsedBy t o → IsUsedBy t' o
later t t' none h used = tt
later t t' (some b) h used = omega arith

module _ (l : Limits) (key : String) (slow : l.burst ≤ 300 * l.rps) where
  -- One event: the client's bucket stays in order, and pays for the request that passes.
  step-pays :
      (e : Event) (bs : Buckets)
      → IsUsedBy (time_of e) (bs key)
      → IsUsedBy (time_of e) (step l e bs key)
        × (credit l (time_of e) (step l e bs key) + (if passes l key e bs then token else 0)
            ≤ credit l (time_of e) (bs key))
  unfolding step allow collect
  step-pays (request now k) bs used = elim (Bool-cases (str_eq key k)) [
    | inl mine ↦ rw mine (
        spend-pays l now (credit l now (bs key)) (refill l now (bucket_or_new l now (bs k))) refl
          (at_most_le (l.burst * token) _)
          (omega (arith, ap (λ x. credit l now (bs x)) ((eq_iff key k).0 mine))))
    | inr other ↦ rw other (used, omega arith)
  ]
  step-pays (cleanup now) bs used = (
    keep-IsUsedBy (now - 300 * token) now (bs key) used,
    omega (arith, credit-keep l now (bs key) slow used),
  )

  granted-pays :
      (es : List Event) (from until : ℕ) (bs : Buckets)
      → IsUsedBy from (bs key)
      → IsBetween from until es
      → granted l key es bs * token ≤ credit l from (bs key) + (until - from) * l.rps
  unfolding granted
  granted-pays [] from until bs used between = omega arith
  granted-pays (e ∷ es) from until bs used between =
      let t = time_of e in
      let now_used = later from t (bs key) between.0 used in
      let (next_used, pays) = step-pays e bs now_used in
      let rest = granted-pays es t until (step l e bs) next_used between.1 in
      let grows = credit-grows l from t (bs key) between.0 used in
      let split = split_time from t until l.rps between.0 (ends t until es between.1) in
      elim (Bool-cases (passes l key e bs)) [
        | inl good ↦
            let spent : credit l t (step l e bs key) + token ≤ credit l t (bs key) =
              rw good at pays in
            rw good (omega (arith, spent, rest, grows, split))
        | inr bad ↦
            let spent : credit l t (step l e bs key) + 0 ≤ credit l t (bs key) = rw bad at pays in
            rw bad (omega (arith, spent, rest, grows, split))
      ]

  -- Between any two times, whatever other clients send and however often old buckets are deleted, a
  -- client passes at most the burst and what is refilled in that time: the burst plus rps for each
  -- second. This needs that five minutes refill a bucket, as the limits by default do; time does not
  -- run backwards, and the bucket at the start, if there is one, is not from the future.
  pub granted_le :
      (es : List Event) (from until : ℕ) (bs : Buckets)
      → IsUsedBy from (bs key)
      → IsBetween from until es
      → granted l key es bs * token ≤ l.burst * token + (until - from) * l.rps
  granted_le es from until bs used between = omega (
    arith,
    granted-pays es from until bs used between,
    at_most_le (l.burst * token) (
        (bucket_or_new l from (bs key)).tokens
        + (from - (bucket_or_new l from (bs key)).last_refill) * l.rps),
  )
