-- ===== src/Is/Tests.antt =====
-- The bucket sort of the IS benchmark at concrete inputs: five keys below 8, in four buckets.
use baseliner_docker.Base.{ℕ, zero, suc, ◌/◌, ◌<◌, List, [], ◌∷◌, true, ◌≡◌, refl, arith}
use baseliner_docker.Is.Loops.{Array, for_loop}
use baseliner_docker.Is.Ranking.{
  Ranks, rank_keys, full_verify, count_keys, accumulate, sort_keys, sort_key, rank_bucket,
  place_keys, place_bucket, place_key, out_of_sort,
}
use baseliner_docker.Is.Counting.{below}
use baseliner_docker.Is.Ranks.{rank_keys_lem}
use baseliner_docker.Is.Sorted.{InOrder, full_verify_lem}

abbrev array : List ℕ → Array
array [] i = 7
array (x ∷ xs) zero = x
array (x ∷ xs) (suc i) = array xs i

abbrev keys : Array
keys = array (6 ∷ 1 ∷ 3 ∷ 6 ∷ 0 ∷ [])

abbrev used : Array
used i = 9

abbrev before : Ranks
before = record { sorting = record { key_buff2 = used; bucket_ptrs = used }; key_buff1 = used }

in_buckets : (i : ℕ) → i < 5 → keys i / 2 < 4
in_buckets zero h = omega arith
in_buckets (suc zero) h = omega arith
in_buckets (suc (suc zero)) h = omega arith
in_buckets (suc (suc (suc zero))) h = omega arith
in_buckets (suc (suc (suc (suc zero)))) h = omega arith
in_buckets (suc (suc (suc (suc (suc i))))) h = absurd (omega arith)

rank_keys_example : (rank_keys 2 4 5 keys used before).key_buff1 6 ≡ below keys 5 7
rank_keys_example = rank_keys_lem 2 4 5 keys (omega arith) in_buckets used before 6 (omega arith)

full_verify_example :
    let f = full_verify 4 5 (rank_keys 2 4 5 keys used before) keys in
    InOrder keys 5 8 f.0 × (f.1 ≡ true)
full_verify_example = full_verify_lem 2 4 5 keys (omega arith) in_buckets used before keys

sorted : (full_verify 4 5 (rank_keys 2 4 5 keys used before) keys).0 3 ≡ 6
unfolding full_verify rank_keys for_loop count_keys accumulate sort_keys sort_key rank_bucket
    place_keys place_bucket place_key out_of_sort
sorted = refl
