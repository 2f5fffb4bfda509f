-- ===== src/Clock.antt =====
-- `struct timespec`, which probed and ping share, and its value in nanoseconds.
use baseliner_docker.Base.{ℕ, ◌+◌, ◌*◌, ◌≡◌, arith, ℤ, pos, ◌≤ℤ◌, ◌<ℤ◌, sub_ℕ, pos_part, neg_part}

pub record Timespec : Type 0 where
  pub sec : ℤ
  pub nsec : ℤ

abbrev pub giga : ℕ
giga = 1_000_000_000

-- The nanoseconds are those of one second.
pub record IsNormal (t : Timespec) : Type 0 where
  pub low : pos 0 ≤ℤ t.nsec
  pub high : t.nsec <ℤ pos giga

-- sec * 10^9 + nsec
unfoldable pub nanos : Timespec → ℤ
nanos t = sub_ℕ (giga * pos_part t.sec + pos_part t.nsec) (giga * neg_part t.sec + neg_part t.nsec)

pub nanos_parts :
    (t : Timespec)
    → pos_part (nanos t) + giga * neg_part t.sec + neg_part t.nsec
      ≡ neg_part (nanos t) + giga * pos_part t.sec + pos_part t.nsec
unfolding nanos
nanos_parts t = ground arith
