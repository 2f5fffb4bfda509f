-- ===== src/Rdisc/Advertise.antt =====
-- rdisc.c: the packet that a router sends (`advertise`, of the build with RDISC_SERVER), for one
-- interface, and what a host makes of it.
use baseliner_docker.Base.{
  ℕ, suc, ◌+◌, ◌*◌, ◌-◌, ◌/◌, ◌%◌, ◌^◌, ◌<◌, false, if◌then◌else◌, ltb, List, [], ◌∷◌, ◌++◌, some,
  length, drop, ℤ, pos, negsuc, arith, ◌≡◌, refl, ap, ◌∙◌, length-append, Bool-cases, inl, inr,
  ◌≤ℤ◌, ◌<ℤ◌,
}
use baseliner_docker.Ping.Checksum.{
  sum_words, icmp_packet, fold_high, add_carry, complement, in_cksum-in_cksum,
}
use baseliner_docker.Ping.Checksum
use baseliner_docker.Rdisc.Table.{Host, record_router, ineligible}
use baseliner_docker.Rdisc.Packet.{
  Iface, Setup, is_directly_connected, byte, word, net_long, net_short, to_int, in_cksum,
  icmp_router_advertisement, take_addrs, advertisement, pr_pack,
}

-- `htonl` of an int, as a number.
abbrev pub to_word : ℤ → ℕ
to_word (pos n) = n % 2 ^ 32
to_word (negsuc n) = 2 ^ 32 - 1 - n % 2 ^ 32

-- The words behind the checksum.
abbrev body : ℕ → ℤ → ℕ → List ℕ
body localaddr preference lft =
    let p = to_word preference in
    1
    ∷ 2
    ∷ lft / 2 ^ 8 % 2 ^ 8
    ∷ lft % 2 ^ 8
    ∷ localaddr % 2 ^ 8
    ∷ localaddr / 2 ^ 8 % 2 ^ 8
    ∷ localaddr / 2 ^ 16 % 2 ^ 8
    ∷ localaddr / 2 ^ 24 % 2 ^ 8
    ∷ p / 2 ^ 24 % 2 ^ 8
    ∷ p / 2 ^ 16 % 2 ^ 8
    ∷ p / 2 ^ 8 % 2 ^ 8
    ∷ p % 2 ^ 8
    ∷ []

unfoldable pub advertise : ℕ → ℤ → ℕ → List ℕ
advertise localaddr preference lft =
    let b = body localaddr preference lft in
    icmp_packet icmp_router_advertisement 0 (in_cksum (icmp_packet icmp_router_advertisement 0 0 b))
      b

in_cksum-zero : (bytes : List ℕ) → in_cksum bytes ≡ Checksum.in_cksum bytes 0
unfolding in_cksum Checksum.in_cksum
in_cksum-zero bytes = ap (λ t. complement (add_carry (fold_high t))) (omega arith)

body_fits :
    (localaddr : ℕ) (preference : ℤ) (lft : ℕ)
    → 9 + 256 * 0 + sum_words (body localaddr preference lft) < 2 ^ 31 - 2 ^ 16
unfolding sum_words
body_fits localaddr preference lft = omega arith

advertise-in_cksum :
    (localaddr : ℕ) (preference : ℤ) (lft : ℕ) → in_cksum (advertise localaddr preference lft) ≡ 0
unfolding advertise
advertise-in_cksum localaddr preference lft =
    let b = body localaddr preference lft in
    in_cksum-zero _
    ∙ ap (λ c. Checksum.in_cksum (icmp_packet icmp_router_advertisement 0 c b) 0)
        (in_cksum-zero (icmp_packet icmp_router_advertisement 0 0 b))
    ∙ in_cksum-in_cksum 9 0 b (body_fits localaddr preference lft)

byte-append : (xs ys : List ℕ) (i : ℕ) → byte (xs ++ ys) (length xs + i) ≡ byte ys i
unfolding byte
byte-append [] ys i = let k : 0 + i ≡ i = omega arith in ap (byte ys) k
byte-append (x ∷ xs) ys i =
    let k : suc (length xs) + i ≡ suc (length xs + i) = omega arith in
    ap (byte (x ∷ (xs ++ ys))) k ∙ byte-append xs ys i

drop-append : (xs ys : List ℕ) → drop (length xs) (xs ++ ys) ≡ ys
drop-append [] ys = refl
drop-append (x ∷ xs) ys = drop-append xs ys

to_int-to_word : (p : ℤ) → ineligible ≤ℤ p → p <ℤ pos (2 ^ 31) → to_int (to_word p) ≡ p
to_int-to_word (pos n) l u = ground arith
to_int-to_word (negsuc n) l u = ground arith

joined :
    (n : ℕ)
    → n < 2 ^ 32
    → n % 2 ^ 8
        + 2 ^ 8 * (n / 2 ^ 8 % 2 ^ 8)
        + 2 ^ 16 * (n / 2 ^ 16 % 2 ^ 8)
        + 2 ^ 24 * (n / 2 ^ 24 % 2 ^ 8)
      ≡ n
joined n h = omega arith

joined_net :
    (n : ℕ)
    → n < 2 ^ 32
    → 2 ^ 24 * (n / 2 ^ 24 % 2 ^ 8)
        + 2 ^ 16 * (n / 2 ^ 16 % 2 ^ 8)
        + 2 ^ 8 * (n / 2 ^ 8 % 2 ^ 8)
        + n % 2 ^ 8
      ≡ n
joined_net n h = omega arith

joined_short : (n : ℕ) → n < 2 ^ 16 → 2 ^ 8 * (n / 2 ^ 8 % 2 ^ 8) + n % 2 ^ 8 ≡ n
joined_short n h = omega arith

to_word-bound : (p : ℤ) → to_word p < 2 ^ 32
to_word-bound (pos n) = omega arith
to_word-bound (negsuc n) = omega arith

module _ (setup : Setup) (ifaces : List Iface) (header : List ℕ) (localaddr : ℕ) (preference : ℤ)
    (lft : ℕ) (h : Host) (a_word : localaddr < 2 ^ 32) (l_short : lft < 2 ^ 16)
    (above : ineligible ≤ℤ preference) (under : preference <ℤ pos (2 ^ 31)) where
  abbrev n : ℕ
  n = length header

  abbrev buf : List ℕ
  buf = header ++ advertise localaddr preference lft

  at : (j i : ℕ) → j ≡ n + i → byte buf j ≡ byte (advertise localaddr preference lft) i
  at j i e = ap (byte buf) e ∙ byte-append header (advertise localaddr preference lft) i

  address : word buf (n + 8) ≡ some localaddr
  unfolding advertise byte
  address =
      rw
        (
          at (n + 8) 8 refl,
          at (n + 8 + 1) 9 (omega arith),
          at (n + 8 + 2) 10 (omega arith),
          at (n + 8 + 3) 11 (omega arith),
        )
        (ap some (joined localaddr a_word))

  preference_of : net_long buf (n + 8 + 4) ≡ some (to_word preference)
  unfolding advertise byte
  preference_of =
      rw
        (
          at (n + 8 + 4) 12 (omega arith),
          at (n + 8 + 4 + 1) 13 (omega arith),
          at (n + 8 + 4 + 2) 14 (omega arith),
          at (n + 8 + 4 + 3) 15 (omega arith),
        )
        (ap some (joined_net (to_word preference) (to_word-bound preference)))

  lifetime_of : net_short buf (n + 6) ≡ some lft
  unfolding advertise byte
  lifetime_of =
      rw (at (n + 6) 6 refl, at (n + 6 + 1) 7 (omega arith)) (ap some (joined_short lft l_short))

  abbrev recorded_host : Host
  recorded_host =
      if is_directly_connected ifaces localaddr
      then record_router setup.best_preference (setup.room 0) localaddr preference lft h
      else h

  take_addrs-advertise : take_addrs setup ifaces buf 2 lft (n + 8) 1 h ≡ some recorded_host
  unfolding take_addrs
  take_addrs-advertise =
      rw (address, preference_of, to_int-to_word preference above under)
        (elim (Bool-cases (is_directly_connected ifaces localaddr)) [ inl c ↦ rw c | inr c ↦ rw c ])

  length_buf : length buf ≡ n + 16
  unfolding advertise
  length_buf = length-append header (advertise localaddr preference lft)

  advertisement-advertise : advertisement setup ifaces buf n h ≡ some (some recorded_host)
  unfolding advertisement advertise byte
  advertisement-advertise =
      let long : ltb (length buf - n) 16 ≡ false = ground (arith, length_buf) in
      rw
        (
          drop-append header (advertise localaddr preference lft),
          advertise-in_cksum localaddr preference lft,
          at (n + 1) 1 refl,
          at (n + 4) 4 refl,
          at (n + 5) 5 refl,
          lifetime_of,
        )
        (rw (long, take_addrs-advertise))

-- A packet that `advertise` has made, for an address of 32 bits, an int as preference and a lifetime of
-- 16 bits, behind an IP header of the length that its first byte tells: `pr_pack` takes it, and records
-- the router with that preference and lifetime if its address is directly connected.
pub pr_pack-advertise :
    (setup : Setup) (ifaces : List Iface) (first : ℕ) (rest : List ℕ) (localaddr : ℕ)
    (preference : ℤ) (lft : ℕ) (h : Host)
    → first % 16 * 4 ≡ length (first ∷ rest)
    → localaddr < 2 ^ 32
    → lft < 2 ^ 16
    → ineligible ≤ℤ preference
    → preference <ℤ pos (2 ^ 31)
    → pr_pack setup ifaces ((first ∷ rest) ++ advertise localaddr preference lft) h
      ≡ some (
          some (
            if is_directly_connected ifaces localaddr
            then record_router setup.best_preference (setup.room 0) localaddr preference lft h
            else h))
unfolding pr_pack byte advertise
pr_pack-advertise setup ifaces first rest localaddr preference lft h e a l above under =
    let header = first ∷ rest in
    let size = length_buf setup ifaces header localaddr preference lft h a l above under in
    let whole : ltb (length (header ++ advertise localaddr preference lft)) (length header + 8)
        ≡ false =
      ground (arith, size) in
    let kind =
      at setup ifaces header localaddr preference lft h a l above under (length header) 0
        (omega arith) in
    rw (e, whole, kind)
      (advertisement-advertise setup ifaces header localaddr preference lft h a l above under)
