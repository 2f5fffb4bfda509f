-- ===== src/Is/Ranking.antt =====
-- is.c: `rank` and `full_verify` with buckets, for one thread. The numbers are below NUM_KEYS or
-- MAX_KEY, which fit INT_TYPE. `size` is num_bucket_keys, 1 << shift, and `key_array[i] >> shift` is
-- the quotient by it.
use baseliner_docker.Base.{ℕ, zero, suc, ◌+◌, ◌-◌, ◌*◌, ◌/◌, Bool, ltb, ◌==◌, if◌then◌else◌}
use baseliner_docker.Is.Loops.{Array, upd, for_loop}

abbrev pub clear : ℕ → Array → Array
clear i w = upd w i 0

-- `a[v]++`
abbrev pub tally : ℕ → Array → Array
tally v w = upd w v (w v + 1)

-- "Determine the number of keys in each bucket"
unfoldable pub count_keys : ℕ → ℕ → ℕ → Array → Array → Array
count_keys size buckets n key work =
    for_loop n 0 (λ i w. tally (key i / size) w) (for_loop buckets 0 clear work)

abbrev pub add_previous : Array → ℕ → Array → Array
add_previous work i p = upd p i (p (i - 1) + work (i - 1))

-- "Accumulative bucket sizes are the bucket pointers."
unfoldable pub accumulate : ℕ → Array → Array → Array
accumulate buckets work ptrs = for_loop (buckets - 1) 1 (add_previous work) (upd ptrs 0 0)

-- key_buff2 and bucket_ptrs
pub record Sorting : Type 0 where
  pub key_buff2 : Array
  pub bucket_ptrs : Array

-- "Sort into appropriate bucket"
unfoldable pub sort_key : ℕ → ℕ → Sorting → Sorting
sort_key size k s =
    let b = k / size in
    record {
      key_buff2 = upd s.key_buff2 (s.bucket_ptrs b) k;
      bucket_ptrs = upd s.bucket_ptrs b (s.bucket_ptrs b + 1);
    }

unfoldable pub sort_keys : ℕ → ℕ → Array → Sorting → Sorting
sort_keys size n key s = for_loop n 0 (λ i t. sort_key size (key i) t) s

-- `(i > 0)? bucket_ptrs[i-1] : 0`
abbrev pub start_of : Array → ℕ → ℕ
start_of ptrs zero = 0
start_of ptrs (suc i) = ptrs i

abbrev pub add_before : ℕ → Array → Array
add_before k b = upd b k (b k + b (k - 1))

-- The body of the loop over the buckets: the ranks of the keys of one bucket.
unfoldable pub rank_bucket : ℕ → Sorting → ℕ → Array → Array
rank_bucket size s i buff =
    let k1 = i * size in
    let m = start_of s.bucket_ptrs i in
    let cleared = for_loop size k1 clear buff in
    let counted = for_loop (s.bucket_ptrs i - m) m (λ k b. tally (s.key_buff2 k) b) cleared in
    for_loop (size - 1) (k1 + 1) add_before (upd counted k1 (counted k1 + m))

-- What `rank` leaves for `full_verify`.
pub record Ranks : Type 0 where
  pub sorting : Sorting
  pub key_buff1 : Array

-- `rank` behind its first assignments; the arrays hold what they held before.
unfoldable pub rank_keys : ℕ → ℕ → ℕ → Array → Array → Ranks → Ranks
rank_keys size buckets n key work r =
    let ptrs = accumulate buckets (count_keys size buckets n key work) r.sorting.bucket_ptrs in
    let s = sort_keys size n key (record r.sorting { bucket_ptrs = ptrs }) in
    record {
      sorting = s;
      key_buff1 = for_loop buckets 0 (λ i b. rank_bucket size s i b) r.key_buff1;
    }

-- key_buff_ptr_global and key_array
pub record Placing : Type 0 where
  pub ranks : Array
  pub key_array : Array

-- `k = --key_buff_ptr_global[key_buff2[i]]; key_array[k] = key_buff2[i];`
unfoldable pub place_key : ℕ → Placing → Placing
place_key v p =
    let k = p.ranks v - 1 in record { ranks = upd p.ranks v k; key_array = upd p.key_array k v }

unfoldable pub place_bucket : Sorting → ℕ → Placing → Placing
place_bucket s j p =
    let k1 = start_of s.bucket_ptrs j in
    for_loop (s.bucket_ptrs j - k1) k1 (λ i q. place_key (s.key_buff2 i) q) p

unfoldable pub place_keys : ℕ → Ranks → Array → Array
place_keys buckets r keys =
    (for_loop buckets 0 (λ j p. place_bucket r.sorting j p)
      (record { ranks = r.key_buff1; key_array = keys })).key_array

-- "count incorrectly sorted keys, if any"
unfoldable pub out_of_sort : ℕ → Array → ℕ
out_of_sort n keys = for_loop (n - 1) 1 (λ i j. if ltb (keys i) (keys (i - 1)) then j + 1 else j) 0

-- `full_verify`: the sorted keys, and whether `passed_verification` is counted up.
unfoldable pub full_verify : ℕ → ℕ → Ranks → Array → Array × Bool
full_verify buckets n r keys =
    let sorted = place_keys buckets r keys in (sorted, out_of_sort n sorted == 0)
