-- ===== src/Dc/Row.antt =====
-- The rows of a view: the measures, 64-bit words, and the dimensions, 32-bit words. rbt.c keeps both
-- in one array of words, the measures first.
use Prim.Native.Nat.{compare, Ordering}
use Prim.Native.Nat.Ordering.{lt, eq, gt}
use baseliner_docker.Base.{
  ℕ, zero, suc, ◌+◌, ◌*◌, ◌%◌, ◌^◌, ◌<◌, ◌≤◌, List, [], ◌∷◌, ◌≡◌, refl, ltb, ltb→lt, if◌then◌else◌,
  arith, Bool-cases, inl, inr, false,
}

pub record Row : Type 0 where
  pub measures : List ℕ
  pub dims : List ℕ

-- `KeyComp`: -1, 0 and 1 are lt, eq and gt. Both arrays hold at least n words; where a list is
-- shorter, the loop stops.
unfoldable pub key_comp : List ℕ → List ℕ → ℕ → Ordering
key_comp a b zero = eq
key_comp [] b (suc n) = eq
key_comp (x ∷ a) [] (suc n) = eq
key_comp (x ∷ a) (y ∷ b) (suc n) =
    let rest = key_comp a b n in if ltb x y then lt else if ltb y x then gt else rest

-- `xNd->nodeMemPool[ii] += mx[ii]` for ii < nm
unfoldable pub add_measures : ℕ → List ℕ → List ℕ → List ℕ
add_measures zero a b = a
add_measures (suc n) [] b = []
add_measures (suc n) (x ∷ a) [] = x ∷ a
add_measures (suc n) (x ∷ a) (y ∷ b) = ((x + y) % 2 ^ 64) ∷ add_measures n a b

-- n words of 32 bits
abbrev pub IsKey : ℕ → List ℕ → Type 0
IsKey zero [] = Unit
IsKey zero (x ∷ a) = ⊥
IsKey (suc n) [] = ⊥
IsKey (suc n) (x ∷ a) = (x < 2 ^ 32) × IsKey n a

abbrev word : ℕ → ℕ
word zero = 1
word (suc n) = 2 ^ 32 * word n

-- The number whose digits to the base 2 ^ 32 are the words.
unfoldable pub key_value : ℕ → List ℕ → ℕ
key_value zero a = 0
key_value (suc n) [] = 0
key_value (suc n) (x ∷ a) = x * word n + key_value n a

key_value-lt : (n : ℕ) (a : List ℕ) → IsKey n a → key_value n a < word n
unfolding key_value
key_value-lt zero a h = omega arith
key_value-lt (suc n) [] h = elim h [ ]
key_value-lt (suc n) (x ∷ a) h = let ih = key_value-lt n a h.1 in grind arith

eq_of_ltb : (x y : ℕ) → ltb x y ≡ false → ltb y x ≡ false → x ≡ y
eq_of_ltb x y l g = ground arith

digit_gap : (x y w : ℕ) → x < y → x * w + w ≤ y * w
digit_gap x y w h = grind arith

pub compare_of_lt : (a b : ℕ) → a < b → compare a b ≡ lt
compare_of_lt a b h = ground arith

pub compare_of_gt : (a b : ℕ) → b < a → compare a b ≡ gt
compare_of_gt a b h = ground arith

compare_add : (c u v : ℕ) → compare (c + u) (c + v) ≡ compare u v
compare_add c u v = ground arith

compare_digit :
    (x y w u v : ℕ)
    → u < w
    → v < w
    → compare (x * w + u) (y * w + v)
      ≡ (if ltb x y then lt else if ltb y x then gt else compare u v)
compare_digit x y w u v p q = elim (Bool-cases (ltb x y)) [
  | inl l ↦ rw l (compare_of_lt _ _ (omega (arith, digit_gap x y w (ltb→lt x y l))))
  | inr l ↦ elim (Bool-cases (ltb y x)) [
    | inl g ↦ rw (l, g) (compare_of_gt _ _ (omega (arith, digit_gap y x w (ltb→lt y x g))))
    | inr g ↦ rw (l, g, eq_of_ltb x y l g) (compare_add (y * w) u v)
  ]
]

-- `KeyComp` orders the keys as numbers.
pub key_comp_lem :
    (n : ℕ) (a b : List ℕ)
    → IsKey n a
    → IsKey n b
    → key_comp a b n ≡ compare (key_value n a) (key_value n b)
unfolding key_comp key_value
key_comp_lem zero a b p q = refl
key_comp_lem (suc n) [] b p q = elim p [ ]
key_comp_lem (suc n) (x ∷ a) [] p q = elim q [ ]
key_comp_lem (suc n) (x ∷ a) (y ∷ b) p q = rw (
  key_comp_lem n a b p.1 q.1,
  compare_digit x y (word n) (key_value n a) (key_value n b) (key_value-lt n a p.1)
      (key_value-lt n b q.1),
)
