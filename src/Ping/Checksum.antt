-- ===== src/Ping/Checksum.antt =====
-- ping.c: the checksum of ICMP (`in_cksum`), on a little-endian machine. The sum is an `int` in the
-- program, here a number without bound: the theorem asks that it fits.
use baseliner_docker.Base.{ℕ, ◌+◌, ◌*◌, ◌-◌, ◌/◌, ◌%◌, ◌^◌, ◌<◌, List, [], ◌∷◌, ◌≡◌, ap, ◌∙◌, arith}

-- The loop over the words, and the odd byte.
unfoldable pub sum_words : List ℕ → ℕ
sum_words [] = 0
sum_words (a ∷ []) = a
sum_words (a ∷ b ∷ r) = a + 256 * b + sum_words r

-- `sum = (sum >> 16) + (sum & 0xffff)`
abbrev pub fold_high : ℕ → ℕ
fold_high sum = sum / 2 ^ 16 + sum % 2 ^ 16

-- `sum += (sum >> 16)`
abbrev pub add_carry : ℕ → ℕ
add_carry sum = sum + sum / 2 ^ 16

-- `answer = ~sum`, truncated to 16 bits
abbrev pub complement : ℕ → ℕ
complement sum = 2 ^ 16 - 1 - sum % 2 ^ 16

-- `in_cksum(addr, len, csum)`; the bytes are those from `addr`, as many as `len`.
unfoldable pub in_cksum : List ℕ → ℕ → ℕ
in_cksum bytes csum = complement (add_carry (fold_high (csum + sum_words bytes)))

-- An ICMP packet: type, code, checksum as it stands in memory, and the rest.
abbrev pub icmp_packet : ℕ → ℕ → ℕ → List ℕ → List ℕ
icmp_packet kind code checksum rest = kind ∷ code ∷ (checksum % 256) ∷ (checksum / 256) ∷ rest

answer : ℕ → ℕ
answer t = complement (add_carry (fold_high t))

answer-bound : (t : ℕ) → answer t < 2 ^ 16
unfolding answer
answer-bound t = omega arith

-- A sum with the complement of its folding folds to all ones.
answer-sum : (t : ℕ) → t < 2 ^ 31 - 2 ^ 16 → answer (t + answer t) ≡ 0
unfolding answer
answer-sum t h = omega arith

in_cksum-answer : (bytes : List ℕ) → in_cksum bytes 0 ≡ answer (sum_words bytes)
unfolding in_cksum answer
in_cksum-answer bytes = ap (λ t. complement (add_carry (fold_high t))) (zero_add (sum_words bytes))
  where
    zero_add : (n : ℕ) → 0 + n ≡ n
    zero_add n = omega arith

sum_words-icmp_packet :
    (kind code x : ℕ) (rest : List ℕ)
    → sum_words (icmp_packet kind code x rest) ≡ kind + 256 * code + sum_words rest + x
unfolding sum_words
sum_words-icmp_packet kind code x rest = omega arith

-- A packet that is sent with the checksum of `in_cksum`, computed while the field is 0, is found to be
-- good by `in_cksum` where it is received, if its words add up to less than 2^31 - 2^16.
pub in_cksum-in_cksum :
    (kind code : ℕ) (rest : List ℕ)
    → kind + 256 * code + sum_words rest < 2 ^ 31 - 2 ^ 16
    → in_cksum (icmp_packet kind code (in_cksum (icmp_packet kind code 0 rest) 0) rest) 0 ≡ 0
in_cksum-in_cksum kind code rest h =
    in_cksum-answer (icmp_packet kind code (in_cksum (icmp_packet kind code 0 rest) 0) rest)
    ∙ ap answer (sum_words-icmp_packet kind code (in_cksum (icmp_packet kind code 0 rest) 0) rest)
    ∙ ap (λ c. answer (kind + 256 * code + sum_words rest + c)) first
    ∙ answer-sum (kind + 256 * code + sum_words rest) h
  where
    first : in_cksum (icmp_packet kind code 0 rest) 0 ≡ answer (kind + 256 * code + sum_words rest)
    first =
        in_cksum-answer (icmp_packet kind code 0 rest)
        ∙ ap answer (sum_words-icmp_packet kind code 0 rest ∙ omega arith)
