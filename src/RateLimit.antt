-- ===== src/RateLimit.antt =====
-- TimeLimiter, RateLimitCache and CountLimiter (collector/lib/RateLimit.h and RateLimit.cpp). Each
-- call of NowMicros is an argument. Numbers are int64_t that do not overflow.
pub mod Time
pub mod Cache
pub mod Count
mod Examples
use Prim.Native.String.{String}
use collector.Prelude.{
  ℕ, ◌+◌, Bool, true, false, not, ◌&&◌, Option, none, some, List, [], ◌∷◌, ltb, length,
  if◌then◌else◌,
}
use collector.Prelude.Int.{ℤ, pos, negsuc, ◌+ℤ◌, ◌-ℤ◌, ◌*ℤ◌, ◌/ℤ◌, ltb_ℤ, leb_ℤ, is_zero_ℤ}
use collector.KeyMap.{UnorderedMap, find, insert, assign}
use collector.KeyMap.Keys.{string_keys}

pub record TokenBucket : Type 0 where
  pub tokens : ℤ
  pub last_time : ℤ

-- TokenBucket()
abbrev pub new_bucket : TokenBucket
new_bucket = record { tokens = pos 0; last_time = pos 0 }

pub record TimeLimiter : Type 0 where
  pub burst_size : ℤ
  pub refill_time : ℤ

-- TimeLimiter(burst_size, refill_time), of a time in seconds.
unfoldable pub time_limiter : ℤ → ℤ → TimeLimiter
unfolding ◌*ℤ◌
time_limiter burst_size refill_time = record {
  burst_size = burst_size;
  refill_time = refill_time *ℤ pos 1000000;
}

unfoldable pub fill_bucket : TimeLimiter → ℤ → TokenBucket
fill_bucket l now = record { tokens = l.burst_size; last_time = now }

unfoldable pub refill_count : TimeLimiter → TokenBucket → ℤ → ℤ
refill_count l b now = (now -ℤ b.last_time) /ℤ l.refill_time

unfoldable pub tokens_at : TimeLimiter → TokenBucket → ℤ → ℤ
tokens_at l b now =
    let refilled = b.tokens +ℤ refill_count l b now *ℤ l.burst_size in
    if ltb_ℤ refilled l.burst_size then refilled else l.burst_size

-- The refills of AllowN, and the fill of a bucket that is full by then.
unfoldable pub top_up : TimeLimiter → TokenBucket → ℤ → ℤ → TokenBucket
top_up l b refill_now fill_now =
    let refills = refill_count l b refill_now in
    let refilled : TokenBucket = record {
      tokens = b.tokens +ℤ refills *ℤ l.burst_size;
      last_time = b.last_time +ℤ refills *ℤ l.refill_time;
    } in
    if leb_ℤ l.burst_size refilled.tokens then fill_bucket l fill_now else refilled

-- The bucket before its tokens are taken: it is filled at its first use.
unfoldable pub refill : TimeLimiter → TokenBucket → ℤ → ℤ → ℤ → TokenBucket
refill l b first_now refill_now fill_now =
    top_up l (if is_zero_ℤ b.last_time then fill_bucket l first_now else b) refill_now fill_now

-- AllowN: the bucket after it, and what it returns.
unfoldable pub allow_n : TimeLimiter → TokenBucket → ℤ → ℤ → ℤ → ℤ → TokenBucket × Bool
allow_n l b n first_now refill_now fill_now =
    let ready = refill l b first_now refill_now fill_now in
    if ltb_ℤ ready.tokens n
    then (ready, false)
    else (record ready { tokens = ready.tokens -ℤ n }, true)

-- Allow
unfoldable pub allow : TimeLimiter → TokenBucket → ℤ → ℤ → ℤ → TokenBucket × Bool
allow l b first_now refill_now fill_now = allow_n l b (pos 1) first_now refill_now fill_now

-- `limiter` is null after ResetRateLimitCache.
pub record RateLimitCache : Type 0 where
  pub capacity : ℕ
  pub limiter : Option TimeLimiter
  pub cache : UnorderedMap String TokenBucket

-- RateLimitCache(capacity, burst_size, refill_time) and RateLimitCache().
unfoldable pub rate_limit_cache : ℕ → ℤ → ℤ → RateLimitCache
unfolding time_limiter
rate_limit_cache capacity burst_size refill_time = record {
  capacity = capacity;
  limiter = some (time_limiter burst_size refill_time);
  cache = [];
}

abbrev pub default_rate_limit_cache : RateLimitCache
default_rate_limit_cache = rate_limit_cache 4096 (pos 10) (pos 1800)

unfoldable pub reset_rate_limit_cache : RateLimitCache → RateLimitCache
reset_rate_limit_cache c = record c { limiter = none }

abbrev bucket_of : Option TokenBucket → TokenBucket
bucket_of none = new_bucket
bucket_of (some b) = b

abbrev is_new : Option TokenBucket → Bool
is_new none = true
is_new (some b) = false

-- RateLimitCache::Allow: `none` is the read through a null limiter.
unfoldable pub cache_allow : RateLimitCache → String → ℤ → ℤ → ℤ → Option (RateLimitCache × Bool)
cache_allow c key first_now refill_now fill_now =
    let found = find string_keys key c.cache in
    let emplaced = insert string_keys key new_bucket c.cache in
    if is_new found && ltb c.capacity (length emplaced)
    then some (record c { cache = [] }, true)
    else elim c.limiter [
      | none ↦ none
      | some l ↦
          let (bucket, allowed) = allow l (bucket_of found) first_now refill_now fill_now in
          some (record c { cache = assign string_keys key bucket emplaced }, allowed)
    ]

pub record CountLimiter : Type 0 where
  pub count : ℤ
  pub cache : UnorderedMap String TokenBucket

-- CountLimiter(count)
unfoldable pub count_limiter : ℤ → CountLimiter
count_limiter count = record { count = count; cache = [] }

-- CountLimiter()
abbrev pub default_count_limiter : CountLimiter
default_count_limiter = count_limiter (pos 4096)

unfoldable pub count_allow : CountLimiter → String → CountLimiter × Bool
count_allow c key =
    let bucket = bucket_of (find string_keys key c.cache) in
    let counted : TokenBucket = record bucket { tokens = bucket.tokens +ℤ pos 1 } in
    (
      record c {
        cache = assign string_keys key counted (insert string_keys key new_bucket c.cache);
      },
      leb_ℤ counted.tokens c.count,
    )
