-- ===== src/ContainerId/Laws.antt =====
-- The container id of a cgroup path that systemd or a container runtime makes.
use collector.Prelude.{
  ℕ, ◌-◌, ◌≤◌, ◌≡◌, refl, ap, ◌∙◌, true, false, some, List, [], ◌∷◌, ◌++◌, arith, ltb, length,
  length-append, take, drop,
}
use collector.ContainerId.{
  scope_suffix, is_conmon, is_separator, is_container_id, all_xdigits, rfind, starts_with,
  next_position, from_end, id_after, extract_container_id_from_cgroup,
}

take-append : (xs ys : List ℕ) → take (length xs) (xs ++ ys) ≡ xs
take-append [] ys = refl
take-append (x ∷ xs) ys = ap (λ l. x ∷ l) (take-append xs ys)

drop-append : (xs ys : List ℕ) → drop (length xs) (xs ++ ys) ≡ ys
drop-append [] ys = refl
drop-append (x ∷ xs) ys = drop-append xs ys

rfind-append : (str : List ℕ) → rfind scope_suffix (str ++ scope_suffix) ≡ some (length str)
unfolding rfind starts_with
rfind-append [] = refl
rfind-append (c ∷ str) =
    ap (λ o. next_position o (starts_with scope_suffix (c ∷ (str ++ scope_suffix))))
      (rfind-append str)

-- The path of a container before the optional suffix: something, a separator, and 64 hexadecimal
-- digits, where what stands before the separator does not end in "-conmon".
pub record IsContainerPath (path : List ℕ) (separator : ℕ) (id : List ℕ) : Type 0 where
  pub separated : is_separator separator ≡ true
  pub sized : length id ≡ 64
  pub digits : all_xdigits id ≡ true
  pub not_conmon : is_conmon path ≡ false

id_after-path :
    (path : List ℕ) (separator : ℕ) (id : List ℕ)
    → IsContainerPath path separator id
    → id_after path (separator ∷ id) ≡ some (take 12 id)
unfolding id_after is_container_id
id_after-path path separator id h = ground (arith, h.separated, h.sized, h.digits, h.not_conmon)

from_end-path :
    (path : List ℕ) (separator : ℕ) (id : List ℕ)
    → IsContainerPath path separator id
    → from_end (path ++ separator ∷ id) ≡ some (take 12 id)
unfolding from_end
from_end-path path separator id h =
    let cgroup = path ++ separator ∷ id in
    let size : length cgroup - 65 ≡ length path =
      omega (arith, length-append path (separator ∷ id), h.sized) in
    ap (λ n. id_after (take n cgroup) (drop n cgroup)) size
    ∙ ap (λ l. id_after l (drop (length path) cgroup)) (take-append path (separator ∷ id))
    ∙ ap (λ l. id_after path l) (drop-append path (separator ∷ id))
    ∙ id_after-path path separator id h

long_enough : (str : List ℕ) → 65 ≤ length str → ltb (length str) 65 ≡ false
long_enough str h = ground arith

-- The id of a container's path with the suffix ".scope" is the first 12 of its 64 digits.
extract_container_id_from_cgroup-scope :
    (path : List ℕ) (separator : ℕ) (id : List ℕ)
    → IsContainerPath path separator id
    → extract_container_id_from_cgroup ((path ++ separator ∷ id) ++ scope_suffix)
      ≡ some (take 12 id)
unfolding extract_container_id_from_cgroup
extract_container_id_from_cgroup-scope path separator id h =
    let cgroup = path ++ separator ∷ id in
    let long : 65 ≤ length cgroup = omega (arith, length-append path (separator ∷ id), h.sized) in
    rw
      (
        long_enough (cgroup ++ scope_suffix)
            (omega (arith, length-append cgroup scope_suffix, long)),
        rfind-append cgroup,
        take-append cgroup scope_suffix,
        long_enough cgroup long,
      )
      (from_end-path path separator id h)
