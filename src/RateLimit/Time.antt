-- ===== src/RateLimit/Time.antt =====
-- TimeLimiter (collector/lib/RateLimit.cpp): the bounds of a bucket.
use native.Mathlib.Nat.{div-mul-le_self}
use collector.Prelude.{zero, suc, ◌≡◌, arith, if◌then◌else◌, ◌⊎◌, inl, inr}
use collector.Prelude.Int.{
  ℤ, pos, negsuc, ◌+ℤ◌, ◌-ℤ◌, ◌*ℤ◌, ◌/ℤ◌, ◌≤ℤ◌, +ℤ_parts, -ℤ_parts, sub-add_cancel, add-zero_ℤ,
}
use collector.RateLimit.{
  TokenBucket, TimeLimiter, fill_bucket, refill_count, top_up, refill, allow_n,
}

-- A limiter of at least one token and a refill time above zero.
pub record IsLimiter (l : TimeLimiter) : Type 0 where
  pub burst_pos : pos 1 ≤ℤ l.burst_size
  pub refill_pos : pos 1 ≤ℤ l.refill_time

-- A bucket at a time: its tokens fit, and it was not updated later.
pub record IsBucket (l : TimeLimiter) (now : ℤ) (b : TokenBucket) : Type 0 where
  pub nonneg : pos 0 ≤ℤ b.tokens
  pub bounded : b.tokens ≤ℤ l.burst_size
  pub past : b.last_time ≤ℤ now

nonneg-/ℤ : (a b : ℤ) → pos 0 ≤ℤ a → pos 1 ≤ℤ b → pos 0 ≤ℤ a /ℤ b
unfolding ◌/ℤ◌
nonneg-/ℤ (pos a) (pos b) h k = ground arith
nonneg-/ℤ (negsuc a) b h k = absurd (omega arith)
nonneg-/ℤ (pos a) (negsuc b) h k = absurd (omega arith)

-- Refills of a full burst each: none, or at least a burst.
mul-burst : (r b : ℤ) → pos 0 ≤ℤ r → pos 1 ≤ℤ b → (r *ℤ b ≡ pos 0) ⊎ (b ≤ℤ r *ℤ b)
unfolding ◌*ℤ◌
mul-burst (pos zero) (pos b) h k = inl (ground arith)
mul-burst (pos (suc r)) (pos b) h k = inr (ground arith)
mul-burst (negsuc r) b h k = absurd (omega arith)
mul-burst (pos r) (negsuc b) h k = absurd (omega arith)

div-mul-le : (a b : ℤ) → pos 0 ≤ℤ a → pos 1 ≤ℤ b → (a /ℤ b) *ℤ b ≤ℤ a
unfolding ◌/ℤ◌ ◌*ℤ◌
div-mul-le (pos a) (pos b) h k = ground (arith, div-mul-le_self a b)
div-mul-le (negsuc a) b h k = absurd (omega arith)
div-mul-le (pos a) (negsuc b) h k = absurd (omega arith)

module _ (l : TimeLimiter) (limiter : IsLimiter l) where
  top_up-IsBucket :
      (b : TokenBucket) (refill_now fill_now : ℤ)
      → refill_now ≤ℤ fill_now
      → IsBucket l refill_now b
      → IsBucket l fill_now (top_up l b refill_now fill_now)
  unfolding top_up fill_bucket refill_count
  top_up-IsBucket b refill_now fill_now h bucket =
      let age = refill_now -ℤ b.last_time in
      let age_nonneg : pos 0 ≤ℤ age = omega (arith, -ℤ_parts refill_now b.last_time, bucket.past) in
      let refills = age /ℤ l.refill_time in
      ground (
        arith,
        mul-burst refills l.burst_size (nonneg-/ℤ age l.refill_time age_nonneg limiter.refill_pos)
            limiter.burst_pos,
        div-mul-le age l.refill_time age_nonneg limiter.refill_pos,
        +ℤ_parts b.tokens (refills *ℤ l.burst_size),
        +ℤ_parts b.last_time (refills *ℤ l.refill_time),
        -ℤ_parts refill_now b.last_time,
      )

  module _ (b : TokenBucket) (first_now refill_now fill_now : ℤ)
      (monotone : first_now ≤ℤ refill_now) (monotone' : refill_now ≤ℤ fill_now)
      (bucket : IsBucket l first_now b) where
    refill-IsBucket : IsBucket l fill_now (refill l b first_now refill_now fill_now)
    unfolding refill fill_bucket
    refill-IsBucket = top_up-IsBucket _ refill_now fill_now monotone' (record {
      nonneg = ground (arith, limiter.burst_pos);
      bounded = ground (arith, limiter.burst_pos);
      past = ground arith;
    })

    -- Whatever the request, of n tokens or more, and whether it is granted or not, the bucket keeps
    -- between no token and a burst, its time is not past the last reading of the clock, and the
    -- tokens taken are those asked for if granted and none if not.
    pub allow_n-IsBucket :
        (n : ℤ)
        → pos 0 ≤ℤ n
        → IsBucket l fill_now (allow_n l b n first_now refill_now fill_now).0
          × ((allow_n l b n first_now refill_now fill_now).0.tokens
                +ℤ (if (allow_n l b n first_now refill_now fill_now).1 then n else pos 0)
              ≡ (refill l b first_now refill_now fill_now).tokens)
    unfolding allow_n
    allow_n-IsBucket n h =
        let ready = refill l b first_now refill_now fill_now in
        let r = refill-IsBucket in
        (
          ground (arith, r, -ℤ_parts ready.tokens n),
          ground (arith, sub-add_cancel ready.tokens n, add-zero_ℤ ready.tokens),
        )
