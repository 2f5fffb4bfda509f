-- ===== src/Rdisc/Packet.antt =====
-- rdisc.c: the advertisements (`pr_pack`), as a host. A packet is the list of the bytes received; a
-- read outside of them is `none`. An address is the word that stands in memory, on a little-endian
-- machine. The sum of `in_cksum` does not overflow, since a packet has at most MAXPACKET bytes.
use Prim.Native.Nat.{bit_and}
use baseliner_docker.Base.{
  ℕ, zero, suc, ◌+◌, ◌*◌, ◌-◌, ◌^◌, ◌%◌, Bool, true, false, not, if◌then◌else◌, ◌==◌, ltb, List, [],
  ◌∷◌, Option, none, some, length, drop, ℤ, pos, negsuc,
}
use baseliner_docker.Ping.Checksum.{sum_words, fold_high, add_carry, complement}
use baseliner_docker.Rdisc.Table.{Host, record_router}

pub record Iface : Type 0 where
  pub netmask : ℕ
  pub remoteaddr : ℕ

unfoldable pub is_directly_connected : List Iface → ℕ → Bool
is_directly_connected [] addr = false
is_directly_connected (i ∷ rest) addr =
    if bit_and addr i.netmask == bit_and i.remoteaddr i.netmask
    then true
    else is_directly_connected rest addr

infixl 5 ◌>>=◌
abbrev pub ◌>>=◌ {ℓ κ} : {A : Type ℓ} {B : Type κ} → Option A → (A → Option B) → Option B
none >>= f = none
some a >>= f = f a

unfoldable pub byte : List ℕ → ℕ → Option ℕ
byte [] i = none
byte (b ∷ rest) zero = some b
byte (b ∷ rest) (suc i) = byte rest i

-- A word as it stands in memory, and one in network order (`ntohl`, `ntohs`).
abbrev pub word : List ℕ → ℕ → Option ℕ
word buf i = do
  a ← byte buf i
  b ← byte buf (i + 1)
  c ← byte buf (i + 2)
  d ← byte buf (i + 3)
  some (a + 2 ^ 8 * b + 2 ^ 16 * c + 2 ^ 24 * d)

abbrev pub net_long : List ℕ → ℕ → Option ℕ
net_long buf i = do
  a ← byte buf i
  b ← byte buf (i + 1)
  c ← byte buf (i + 2)
  d ← byte buf (i + 3)
  some (2 ^ 24 * a + 2 ^ 16 * b + 2 ^ 8 * c + d)

abbrev pub net_short : List ℕ → ℕ → Option ℕ
net_short buf i = do a ← byte buf i; b ← byte buf (i + 1); some (2 ^ 8 * a + b)

-- A word of 32 bits as an int.
abbrev pub to_int : ℕ → ℤ
to_int n = if ltb n (2 ^ 31) then pos n else negsuc (2 ^ 32 - 1 - n)

unfoldable pub in_cksum : List ℕ → ℕ
in_cksum bytes = complement (add_carry (fold_high (sum_words bytes)))

abbrev pub icmp_router_advertisement : ℕ
icmp_router_advertisement = 9

-- What does not change in a run; `room` is malloc at each address of a packet.
pub record Setup : Type 0 where
  pub best_preference : Bool
  pub room : ℕ → Bool

-- The loop over the addresses, of which `n` are left; `start` is that of the next one.
unfoldable pub take_addrs : Setup → List Iface → List ℕ → ℕ → ℕ → ℕ → ℕ → Host → Option Host
take_addrs setup ifaces buf wpa lifetime start zero h = some h
take_addrs setup ifaces buf wpa lifetime start (suc n) h = do
  ina ← word buf start
  h' ←
      if is_directly_connected ifaces ina
      then (net_long buf (start + 4) >>= λ preference.
          some
            (record_router setup.best_preference (setup.room n) ina (to_int preference) lifetime h))
      else some h
  take_addrs setup ifaces buf wpa lifetime (start + wpa * 4) n h'

-- A packet that is taken: the table after it. `none` within is a packet that is refused.
unfoldable pub advertisement : Setup → List Iface → List ℕ → ℕ → Host → Option (Option Host)
advertisement setup ifaces buf hlen h =
    let cc = length buf - hlen in
    if not (in_cksum (drop hlen buf) == 0) then some none else do
      code ← byte buf (hlen + 1)
      num_addrs ← byte buf (hlen + 4)
      wpa ← byte buf (hlen + 5)
      lifetime ← net_short buf (hlen + 6)
      if not (code == 0)
          then some none
          else if ltb num_addrs 1
          then some none
          else if ltb wpa 2
          then some none
          else if ltb cc (8 + num_addrs * wpa * 4)
          then some none
          else (take_addrs setup ifaces buf wpa lifetime (hlen + 8) num_addrs h >>= λ h'.
              some (some h'))

unfoldable pub pr_pack : Setup → List Iface → List ℕ → Host → Option (Option Host)
pr_pack setup ifaces buf h = do
  first ← byte buf 0
  let hlen = first % 16 * 4
  if ltb (length buf) (hlen + 8)
      then some none
      else (byte buf hlen >>= λ kind.
          if kind == icmp_router_advertisement
          then advertisement setup ifaces buf hlen h
          else some none)
