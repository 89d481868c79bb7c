-- ===== src/RateLimit/Cache.antt =====
-- RateLimitCache (collector/lib/RateLimit.cpp): its answers and the number of its keys.
use Prim.Native.String.{String}
use collector.Prelude.{
  ◌≤◌, ◌≡◌, refl, Bool, true, some, [], ◌∷◌, arith, ltb, length, Option-cases, Bool-cases, inl, inr,
}
use collector.Prelude.Int.{ℤ}
use collector.KeyMap.{UnorderedMap, find, insert, assign}
use collector.KeyMap.Keys.{string_keys}
use collector.RateLimit.{RateLimitCache, TimeLimiter, TokenBucket, cache_allow, allow, new_bucket}

length-assign :
    (k : String) (b : TokenBucket) (m : UnorderedMap String TokenBucket)
    → length (assign string_keys k b m) ≡ length m
unfolding assign
length-assign k b [] = refl
length-assign k b ((j, c) ∷ m) = ground (arith, length-assign k b m)

-- A cache within its capacity answers every request if its limiter is there, and stays within its
-- capacity with the same limiter.
pub cache_allow-bounded :
    (c : RateLimitCache) (l : TimeLimiter) (key : String) (first_now refill_now fill_now : ℤ)
    → c.limiter ≡ some l
    → length c.cache ≤ c.capacity
    → (after : RateLimitCache × Bool) × (cache_allow c key first_now refill_now fill_now
        ≡ some after)
      × (length after.0.cache ≤ c.capacity)
      × (after.0.limiter ≡ some l)
      × (after.0.capacity ≡ c.capacity)
unfolding cache_allow insert
cache_allow-bounded c l key first_now refill_now fill_now present fits =
    elim (Option-cases (find string_keys key c.cache)) [
      | inl e ↦ elim (Bool-cases (ltb c.capacity (length ((key, new_bucket) ∷ c.cache)))) [
        | inl full ↦
            ((record c { cache = [] }, true), ground (arith, e, full), ground arith, present, refl)
        | inr room ↦ (
          (
            record c {
              cache =
                  assign string_keys key (allow l new_bucket first_now refill_now fill_now).0
                    ((key, new_bucket) ∷ c.cache);
            },
            (allow l new_bucket first_now refill_now fill_now).1,
          ),
          ground (arith, e, room, present),
          ground (
            arith,
            room,
            length-assign key (allow l new_bucket first_now refill_now fill_now).0
                ((key, new_bucket) ∷ c.cache),
          ),
          present,
          refl,
        )
      ]
      | inr (b, e) ↦ (
        (
          record c {
            cache = assign string_keys key (allow l b first_now refill_now fill_now).0 c.cache;
          },
          (allow l b first_now refill_now fill_now).1,
        ),
        ground (arith, e, present),
        ground (arith, length-assign key (allow l b first_now refill_now fill_now).0 c.cache),
        present,
        refl,
      )
    ]
