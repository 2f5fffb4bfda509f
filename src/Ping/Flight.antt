-- ===== src/Ping/Flight.antt =====
-- ping.h: how many probes are in flight. `ntransmitted` is a long, here a number without bound;
-- `acked` and the sequence numbers are __u16.
use Prim.Native.Nat.{max}
use baseliner_docker.Base.{
  ℕ, ◌+◌, ◌-◌, ◌%◌, ◌^◌, ◌<◌, ◌≤◌, ◌≡◌, Bool, true, false, ◌&&◌, ◌||◌, leb, ltb, if◌then◌else◌,
  arith, ℤ, pos, ◌-ℤ◌, Bool-cases, inl, inr,
}

abbrev pub u16 : ℕ
u16 = 2 ^ 16

-- (__u16)(a - b), for b below 2 ^ 16
abbrev pub sub16 : ℕ → ℕ → ℕ
sub16 a b = (a + u16 - b) % u16

pub record Flight : Type 0 where
  pub ntransmitted : ℕ
  pub nreceived : ℕ
  pub nerrors : ℕ
  pub acked : ℕ
  pub pipesize : ℕ

-- `in_flight`; the other branch can be negative.
unfoldable pub in_flight : Flight → ℤ
in_flight s =
    let diff = sub16 (s.ntransmitted % u16) s.acked in
    if leb diff 0x7FFF then pos diff else pos s.ntransmitted -ℤ pos s.nreceived -ℤ pos s.nerrors

-- `(__u16)ntransmitted - acked > 0x7FFF`, a comparison of ints, which may be negative.
abbrev pub far_ahead : Flight → Bool
far_ahead s = ltb (s.acked + 0x7FFF) (s.ntransmitted % u16)

-- `(__s16)(seq - acked) > 0`
abbrev pub newer : ℕ → ℕ → Bool
newer seq acked = ltb 0 (sub16 seq acked) && ltb (sub16 seq acked) (2 ^ 15)

unfoldable pub acknowledge : ℕ → Flight → Flight
acknowledge seq s =
    let diff = sub16 (s.ntransmitted % u16) seq in
    if leb diff 0x7FFF
    then (record s {
      pipesize = if ltb s.pipesize (diff + 1) then diff + 1 else s.pipesize;
      acked = if newer seq s.acked || far_ahead s then seq else s.acked;
    })
    else s

unfoldable pub advance_ntransmitted : Flight → Flight
advance_ntransmitted s =
    let s' = record s { ntransmitted = s.ntransmitted + 1 } in
    if far_ahead s' then record s' { acked = (s'.ntransmitted % u16 + 1) % u16 } else s'

-- The sequence number `last` of the newest answer, within half the range of the one to be sent next.
pub record Tracks (last : ℕ) (s : Flight) : Type 0 where
  pub past : last ≤ s.ntransmitted
  pub near : s.ntransmitted < last + 2 ^ 15
  pub residue : s.acked ≡ last % u16

-- What is in flight is what was sent since the newest answer.
pub in_flight-Tracks :
    (last : ℕ) (s : Flight) → Tracks last s → in_flight s ≡ pos (s.ntransmitted - last)
unfolding in_flight
in_flight-Tracks last s h = ground arith

newer_lem :
    (n last q : ℕ)
    → last ≤ n
    → n < last + 2 ^ 15
    → q ≤ n
    → n < q + 2 ^ 15
    → newer (q % u16) (last % u16) ≡ ltb last q
newer_lem n last q a b c d = ground arith

far_lem : (n last : ℕ) → last ≤ n → n < last + 2 ^ 15 → ltb (last % u16 + 0x7FFF) (n % u16) ≡ false
far_lem n last a b = ground arith

diff_lem : (n q : ℕ) → q ≤ n → n < q + 2 ^ 15 → sub16 (n % u16) (q % u16) ≡ n - q
diff_lem n q a b = omega arith

-- An answer to a probe within half the range of sequence numbers moves the newest answer forward, or
-- leaves it, and the length of the pipe is the greatest distance seen.
pub acknowledge-Tracks :
    (last q : ℕ) (s : Flight)
    → Tracks last s
    → q ≤ s.ntransmitted
    → s.ntransmitted < q + 2 ^ 15
    → Tracks (max last q) (acknowledge (q % u16) s)
      × ((acknowledge (q % u16) s).pipesize ≡ max s.pipesize (s.ntransmitted - q + 1))
unfolding acknowledge
acknowledge-Tracks last q s h a b =
    rw (diff_lem s.ntransmitted q a b, small (s.ntransmitted - q) (omega arith))
      (record { past = omega arith; near = omega arith; residue = choice }, ground arith)
  where
    small : (d : ℕ) → d < 2 ^ 15 → leb d 0x7FFF ≡ true
    small d p = ground arith

    choice :
        (if newer (q % u16) s.acked || far_ahead s then q % u16 else s.acked) ≡ max last q % u16
    choice =
        rw
          (
            h.residue,
            newer_lem s.ntransmitted last q h.past h.near a b,
            far_lem s.ntransmitted last h.past h.near,
          )
          (ground arith)

not_far :
    (n last k : ℕ)
    → k ≡ last % u16
    → last ≤ n
    → n < last + 2 ^ 15
    → ltb (k + 0x7FFF) (n % u16) ≡ false
not_far n last k e a b = ground arith

invalid : (n : ℕ) → leb (sub16 (n % u16) ((n % u16 + 1) % u16)) 0x7FFF ≡ false
invalid n = ground arith

half_way :
    (n last k : ℕ) → k ≡ last % u16 → n ≡ last + 2 ^ 15 → leb (sub16 (n % u16) k) 0x7FFF ≡ false
half_way n last k e a = ground arith

-- The next probe keeps the newest answer while that is within half the range of it.
advance_ntransmitted-Tracks :
    (last : ℕ) (s : Flight)
    → Tracks last s
    → s.ntransmitted + 1 < last + 2 ^ 15
    → Tracks last (advance_ntransmitted s)
unfolding advance_ntransmitted
advance_ntransmitted-Tracks last s h n =
    rw (not_far (s.ntransmitted + 1) last s.acked h.residue (omega arith) n)
      (record { past = omega arith; near = n; residue = h.residue })

-- When the next probe is half the range ahead of the newest answer, what is in flight is counted from
-- the totals.
in_flight-advance_ntransmitted :
    (last : ℕ) (s : Flight)
    → Tracks last s
    → last + 2 ^ 15 ≤ s.ntransmitted + 1
    → in_flight (advance_ntransmitted s)
      ≡ pos (s.ntransmitted + 1) -ℤ pos s.nreceived -ℤ pos s.nerrors
unfolding advance_ntransmitted in_flight
in_flight-advance_ntransmitted last s h n =
    elim (Bool-cases (ltb (s.acked + 0x7FFF) ((s.ntransmitted + 1) % u16))) [
      | inl e ↦ rw (e, invalid (s.ntransmitted + 1))
      | inr e ↦ rw (e, half_way (s.ntransmitted + 1) last s.acked h.residue (omega arith))
    ]
