-- ===== src/Dispatcher/Backoff.antt =====
-- The waiting time before the next attempt: markFailure of internal/webhook/dispatcher.go, in the
-- int64 nanoseconds of a time.Duration.
use ficct_boutique_backend_g.Base.{
  ℕ, zero, suc, ◌+◌, ◌-◌, ◌*◌, ◌%◌, ◌^◌, ◌≤◌, ◌<◌, ◌≡◌, ◌∙◌, ap, refl, Bool, true, false, ◌&&◌, ltb,
  ◌==◌, ==_iff, Bool-cases, inl, inr, if◌then◌else◌, arith,
}
use ficct_boutique_backend_g.Base.Int.{ℤ, pos, negsuc, pos_part, ◌+ℤ◌, ltb_ℤ}
use ficct_boutique_backend_g.Models.{Timestamp}

-- The number that a pattern of 64 bits stands for.
abbrev pub signed64 : ℕ → ℤ
signed64 x = if ltb x (2 ^ 63) then pos x else negsuc (2 ^ 64 - 1 - x)

-- time.Duration(math.Pow(2, float64(attempts))), as a pattern of 64 bits.
abbrev pub pow_duration : (ℕ → ℕ) → ℕ → ℕ
pow_duration out_of_range attempts =
    if ltb attempts 63 then 2 ^ attempts else out_of_range attempts % 2 ^ 64

-- 5 * time.Minute
abbrev pub five_minutes : ℤ
five_minutes = pos 300000000000

-- … * time.Second, which wraps, and the cap.
abbrev pub capped : ℤ → ℤ
capped b = if ltb_ℤ five_minutes b then five_minutes else b

abbrev pub seconds : ℕ → ℤ
seconds pattern = signed64 ((pattern * 1000000000) % 2 ^ 64)

unfoldable pub backoff : (ℕ → ℕ) → ℕ → ℤ
backoff out_of_range attempts = capped (seconds (pow_duration out_of_range attempts))

-- time.Now().Add(backoff); times are counted from an origin long before any call.
unfoldable pub next_attempt : (ℕ → ℕ) → Timestamp → ℕ → Timestamp
next_attempt out_of_range now attempts = pos_part (pos now +ℤ backoff out_of_range attempts)

-- The next `count` numbers, from one on, pass a test.
holds_from : ℕ → ℕ → (ℕ → Bool) → Bool
holds_from zero start test = true
holds_from (suc count) start test = test start && holds_from count (suc start) test

holds_from_sound :
    (count start n : ℕ) (test : ℕ → Bool)
    → holds_from count start test ≡ true
    → start ≤ n
    → n < start + count
    → test n ≡ true
unfolding holds_from
holds_from_sound zero start n test h low high = absurd (omega arith)
holds_from_sound (suc count) start n test h low high = elim (Bool-cases (n == start)) [
  | inl first ↦ ap test ((==_iff n start).0 first) ∙ ground arith
  | inr later ↦
      holds_from_sound count (suc start) n test (ground arith) (ground arith) (omega arith)
]

int_eq : ℤ → ℤ → Bool
int_eq (pos a) (pos b) = a == b
int_eq (negsuc a) (negsuc b) = a == b
int_eq _ _ = false

int_eq_sound : (a b : ℤ) → int_eq a b ≡ true → a ≡ b
unfolding int_eq
int_eq_sound (pos a) (pos b) h = ground arith
int_eq_sound (negsuc a) (negsuc b) h = ground arith
int_eq_sound (pos a) (negsuc b) h = absurd (cc)
int_eq_sound (negsuc a) (pos b) h = absurd (cc)

-- The policy of docs/architecture/WEBHOOKS.md, in nanoseconds: min(2^attempts seconds, 5 minutes).
abbrev pub policy : ℕ → ℕ
policy attempts = if ltb 300 (2 ^ attempts) then 300000000000 else 2 ^ attempts * 1000000000

-- Below 63 attempts the value beyond the range of int64 is not looked at.
pow_duration-in_range : (f : ℕ → ℕ) (n : ℕ) → n < 63 → pow_duration f n ≡ 2 ^ n
pow_duration-in_range f n h = ground arith

backoff-in_range : (f : ℕ → ℕ) (n : ℕ) → n < 63 → backoff f n ≡ capped (seconds (2 ^ n))
unfolding backoff
backoff-in_range f n h = ap (λ p. capped (seconds p)) (pow_duration-in_range f n h)

policy_table : holds_from 34 0 (λ k. int_eq (capped (seconds (2 ^ k))) (pos (policy k))) ≡ true
unfolding holds_from int_eq
policy_table = refl

zero_table : holds_from 8 55 (λ k. int_eq (capped (seconds (2 ^ k))) (pos 0)) ≡ true
unfolding holds_from int_eq
zero_table = refl

-- For up to 33 attempts the waiting time is the documented one, min(2^attempts seconds, 5
-- minutes), whatever the platform does with a float64 beyond the range of int64.
pub backoff-policy : (f : ℕ → ℕ) (n : ℕ) → n ≤ 33 → backoff f n ≡ pos (policy n)
backoff-policy f n h =
    backoff-in_range f n (omega arith)
    ∙ int_eq_sound _ _ (
        holds_from_sound 34 0 n (λ k. int_eq (capped (seconds (2 ^ k))) (pos (policy k)))
          policy_table (omega arith) (omega arith))

-- From 55 to 62 attempts the product with time.Second wraps to zero: there is no waiting at all
-- before the next attempt.
pub backoff_wraps : (f : ℕ → ℕ) (n : ℕ) → 55 ≤ n → n < 63 → backoff f n ≡ pos 0
backoff_wraps f n low high =
    backoff-in_range f n high
    ∙ int_eq_sound _ _ (
        holds_from_sound 8 55 n (λ k. int_eq (capped (seconds (2 ^ k))) (pos 0)) zero_table low
          (omega arith))
