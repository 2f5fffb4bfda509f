-- ===== src/Ping/Table.antt =====
-- ping.h: the table of the sequence numbers received, an array of 64-bit words. A word is given by
-- its bits; `A(bit)` is the word bit / 64 and `B(bit)` the bit bit % 64 of it.
use baseliner_docker.Base.{
  ℕ, ◌/◌, ◌%◌, ◌^◌, ◌≡◌, Bool, true, false, ◌==◌, ◌&&◌, if◌then◌else◌, arith,
}

abbrev pub max_dup_chk : ℕ
max_dup_chk = 0x10000

abbrev pub bitmap_shift : ℕ
bitmap_shift = 6

abbrev pub Bitmap : Type 0
Bitmap = ℕ → ℕ → Bool

abbrev pub bit_of : ℕ → ℕ
bit_of seq = seq % max_dup_chk

abbrev store : Bitmap → ℕ → Bool → Bitmap
store t bit v i k = if i == bit / 2 ^ bitmap_shift && k == bit % 2 ^ bitmap_shift then v else t i k

unfoldable pub rcvd_set : ℕ → Bitmap → Bitmap
rcvd_set seq t = store t (bit_of seq) true

unfoldable pub rcvd_clear : ℕ → Bitmap → Bitmap
rcvd_clear seq t = store t (bit_of seq) false

unfoldable pub rcvd_test : ℕ → Bitmap → Bool
rcvd_test seq t = t (bit_of seq / 2 ^ bitmap_shift) (bit_of seq % 2 ^ bitmap_shift)

-- Setting or clearing a sequence number changes the test of the numbers that are equal to it modulo
-- MAX_DUP_CHK, and of no other.
pub rcvd_test-rcvd_set :
    (seq other : ℕ) (t : Bitmap)
    → (rcvd_test other (rcvd_set seq t)
        ≡ (if other % max_dup_chk == seq % max_dup_chk then true else rcvd_test other t))
      × (rcvd_test other (rcvd_clear seq t)
          ≡ (if other % max_dup_chk == seq % max_dup_chk then false else rcvd_test other t))
unfolding rcvd_set rcvd_clear rcvd_test
rcvd_test-rcvd_set seq other t = (ground arith, ground arith)
