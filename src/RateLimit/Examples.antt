-- ===== src/RateLimit/Examples.antt =====
-- The laws of the limiters at concrete ones.
use collector.Prelude.{◌≡◌, [], ◌∷◌, arith, if◌then◌else◌}
use collector.Prelude.Int.{pos, ◌+ℤ◌}
use collector.RateLimit.{TimeLimiter, TokenBucket, refill, allow_n, count_limiter}
use collector.RateLimit.Count.{answers, granted, occurrences, granted-answers}
use collector.RateLimit.Time.{IsLimiter, IsBucket, allow_n-IsBucket}

granted-answers_example :
    granted "a"
      ("a" ∷ "b" ∷ "a" ∷ "a" ∷ [])
      (answers (count_limiter (pos 2)) ("a" ∷ "b" ∷ "a" ∷ "a" ∷ []))
    ≡ 2
unfolding occurrences
granted-answers_example = granted-answers 2 "a" ("a" ∷ "b" ∷ "a" ∷ "a" ∷ [])

abbrev limiter : TimeLimiter
limiter = record { burst_size = pos 10; refill_time = pos 1800000000 }

abbrev bucket : TokenBucket
bucket = record { tokens = pos 3; last_time = pos 1000 }

limiter-IsLimiter : IsLimiter limiter
limiter-IsLimiter = record { burst_pos = omega arith; refill_pos = omega arith }

bucket-IsBucket : IsBucket limiter (pos 2000) bucket
bucket-IsBucket = record { nonneg = omega arith; bounded = omega arith; past = omega arith }

allow_n-IsBucket_example :
    IsBucket limiter (pos 2002) (allow_n limiter bucket (pos 2) (pos 2000) (pos 2001) (pos 2002)).0
    × ((allow_n limiter bucket (pos 2) (pos 2000) (pos 2001) (pos 2002)).0.tokens
          +ℤ (if (allow_n limiter bucket (pos 2) (pos 2000) (pos 2001) (pos 2002)).1
              then pos 2
              else pos 0)
        ≡ (refill limiter bucket (pos 2000) (pos 2001) (pos 2002)).tokens)
allow_n-IsBucket_example =
    allow_n-IsBucket limiter limiter-IsLimiter bucket (pos 2000) (pos 2001) (pos 2002) (omega arith)
      (omega arith) bucket-IsBucket (pos 2) (omega arith)
