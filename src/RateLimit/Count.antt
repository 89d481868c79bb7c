-- ===== src/RateLimit/Count.antt =====
-- CountLimiter (collector/lib/RateLimit.cpp) over a run of events.
use Prim.Native.String.{String}
use collector.Prelude.{
  ℕ, ◌+◌, ◌≡◌, refl, Bool, true, none, some, Option-cases, Bool-cases, inl, inr, ◌-◌, ◌&&◌, List,
  [], ◌∷◌, arith, min, if◌then◌else◌,
}
use collector.Prelude.Int.{ℤ, pos, ◌+ℤ◌, leb_ℤ}
use collector.KeyMap.{find, insert}
use collector.KeyMap.Keys.{string_keys}
use collector.KeyMap.Laws.{find_cong, find-insert, find-assign}
use collector.RateLimit.{CountLimiter, TokenBucket, new_bucket, count_limiter, count_allow}

abbrev pub str_same : String → String → Bool
str_same = string_keys.same

abbrev counted : TokenBucket → TokenBucket
counted b = record b { tokens = b.tokens +ℤ pos 1 }

-- What a limiter answers to a run of events, in order.
pub answers : CountLimiter → List String → List Bool
answers c [] = []
answers c (key ∷ rest) = (count_allow c key).1 ∷ answers (count_allow c key).0 rest

-- How many events of a key a limiter has seen.
abbrev pub seen : CountLimiter → String → ℤ
seen c key = elim (find string_keys key c.cache) [ none ↦ pos 0 | some b ↦ b.tokens ]

pub seen-count_allow :
    (c : CountLimiter) (key j : String)
    → (seen (count_allow c key).0 j ≡ (if str_same key j then seen c key +ℤ pos 1 else seen c j))
      × ((count_allow c key).1 ≡ leb_ℤ (seen c key +ℤ pos 1) c.count)
      × ((count_allow c key).0.count ≡ c.count)
unfolding count_allow
seen-count_allow c key j =
    let m = insert string_keys key new_bucket c.cache in
    elim (Option-cases (find string_keys key c.cache)) [
      | inl e ↦ ground (
        arith,
        e,
        find-assign string_keys key j (counted new_bucket) m,
        find-insert string_keys key j new_bucket c.cache,
        find-insert string_keys key key new_bucket c.cache,
        string_keys.same_refl key,
      )
      | inr (b, e) ↦ ground (
        arith,
        e,
        find-assign string_keys key j (counted b) m,
        find-insert string_keys key j new_bucket c.cache,
        find-insert string_keys key key new_bucket c.cache,
        string_keys.same_refl key,
      )
    ]

-- How often a key occurs, and how many of its events are let through.
unfoldable pub occurrences : String → List String → ℕ
occurrences j [] = 0
occurrences j (key ∷ rest) = (if str_same key j then 1 else 0) + occurrences j rest

unfoldable pub granted : String → List String → List Bool → ℕ
granted j (key ∷ rest) (answer ∷ more) =
    (if str_same key j && answer then 1 else 0) + granted j rest more
granted j _ _ = 0

pub seen_cong : (c : CountLimiter) (key j : String) → str_same key j ≡ true → seen c key ≡ seen c j
seen_cong c key j e = ground (arith, find_cong string_keys key j c.cache e)

pub one_more : (m : ℕ) → pos m +ℤ pos 1 ≡ pos (m + 1)
unfolding ◌+ℤ◌
one_more m = ground arith

granted-from :
    (n m : ℕ) (j : String) (c : CountLimiter) (keys : List String)
    → c.count ≡ pos n
    → seen c j ≡ pos m
    → granted j keys (answers c keys) ≡ min (occurrences j keys) (n - m)
unfolding granted answers occurrences
granted-from n m j c [] hc hs = omega arith
granted-from n m j c (key ∷ keys) hc hs = elim (Bool-cases (str_same key j)) [
  | inl e ↦ ground (
    arith,
    seen-count_allow c key j,
    seen_cong c key j e,
    one_more m,
    granted-from n (m + 1) j (count_allow c key).0 keys,
  )
  | inr e ↦
      ground (arith, e, seen-count_allow c key j, granted-from n m j (count_allow c key).0 keys)
]

-- A fresh limiter of n lets through, of the events of each key, the first n or as many as there are.
pub granted-answers :
    (n : ℕ) (j : String) (keys : List String)
    → granted j keys (answers (count_limiter (pos n)) keys) ≡ min (occurrences j keys) n
unfolding count_limiter find
granted-answers n j keys = omega (arith, granted-from n 0 j (count_limiter (pos n)) keys refl refl)
