-- ===== src/Ping/Tests.antt =====
-- ping at concrete inputs.
use Prim.Native.Nat.{max}
use baseliner_docker.Base.{
  ℕ, ◌*◌, ◌+◌, ◌-◌, ◌%◌, ◌^◌, ◌<◌, ◌≤◌, ◌≡◌, refl, arith, pos, negsuc, ◌+ℤ◌, ◌-ℤ◌, ◌*ℤ◌, quot_ℤ,
  true, false, some, List, [], ◌∷◌,
}
use baseliner_docker.Clock.{Timespec, IsNormal}
use baseliner_docker.Ping.Table.{Bitmap, rcvd_test}
use baseliner_docker.Ping.Flight.{
  Flight, Tracks, in_flight, acknowledge, in_flight-Tracks, acknowledge-Tracks,
}
use baseliner_docker.Ping.Stats.{Options, Stats}
use baseliner_docker.Ping.Checksum.{sum_words, icmp_packet, in_cksum, in_cksum-in_cksum}
use baseliner_docker.Ping.Pace.{Pacer, wait, gate}
use baseliner_docker.Ping.Root.{newton, llsqrt, IsRoot, llsqrt_lem}
use baseliner_docker.Ping.Counting.{
  Reply, Moment, probe, reply, gather_all, replies_in, first_answers, gather_all_counts,
}

abbrev empty : Bitmap
empty i k = false

-- The counter of the sequence numbers has wrapped around, the newest answer was before that.
abbrev wrapped : Flight
wrapped = record {
  ntransmitted = 65538;
  nreceived = 65530;
  nerrors = 0;
  acked = 65534;
  pipesize = 2;
}

wrapped-Tracks : Tracks 65534 wrapped
wrapped-Tracks = record { past = omega arith; near = omega arith; residue = refl }

in_flight_example : in_flight wrapped ≡ pos (65538 - 65534)
in_flight_example = in_flight-Tracks 65534 wrapped wrapped-Tracks

in_time : 65538 < 65537 + 2 ^ 15
in_time = omega arith

was_sent : 65537 ≤ 65538
was_sent = omega arith

acknowledge_example :
    Tracks (max 65534 65537) (acknowledge (65537 % 2 ^ 16) wrapped)
    × ((acknowledge (65537 % 2 ^ 16) wrapped).pipesize ≡ max 2 (65538 - 65537 + 1))
acknowledge_example = acknowledge-Tracks 65534 65537 wrapped wrapped-Tracks was_sent in_time

next_in_time : 65538 + 1 < 65534 + 2 ^ 15
next_in_time = omega arith

abbrev unanswered : Flight
unanswered = record { ntransmitted = 32767; nreceived = 0; nerrors = 0; acked = 0; pipesize = 1 }

unanswered-Tracks : Tracks 0 unanswered
unanswered-Tracks = record { past = omega arith; near = omega arith; residue = refl }

half_reached : 0 + 2 ^ 15 ≤ 32767 + 1
half_reached = omega arith

abbrev early : Timespec
early = record { sec = pos 1; nsec = pos 900_000_000 }

abbrev late : Timespec
late = record { sec = pos 3; nsec = pos 100_000_000 }

early-IsNormal : IsNormal early
early-IsNormal = record { low = omega arith; high = omega arith }

late-IsNormal : IsNormal late
late-IsNormal = record { low = omega arith; high = omega arith }

abbrev options : Options
options = record {
  timing = true;
  adaptive = true;
  quiet = true;
  flood = false;
  datalen = 56;
  is_user = true;
  confirm_flag = 0x800;
}

abbrev stats : Stats
stats = record {
  flight = wrapped;
  table = empty;
  nrepeats = 0;
  nchecksum = 0;
  tmin = pos 9_223_372_036_854_775_807;
  tmax = pos 0;
  tsum = 0;
  tsum2 = 0;
  rtt = pos 0;
  rtt_addend = pos 0;
  interval = pos 1000;
  confirm = 0;
  latency = false;
}

-- An answer with number 3, the same again, the probe 65539, which has that number too, its answer, and
-- a damaged one.
abbrev third : Reply
third = record { cc = 64; seq = 3; csfailed = false; tv = late; sent = early; now = late }

abbrev moments : List Moment
moments =
    reply third
    ∷ reply third
    ∷ probe true
    ∷ reply third
    ∷ reply (record third { csfailed = true })
    ∷ []

first_and_new : first_answers 65538 (λ k. rcvd_test k empty) moments ≡ 2
unfolding rcvd_test
first_and_new = refl

counts_example :
    ((gather_all options moments stats).flight.nreceived
      ≡ 65530 + first_answers 65538 (λ k. rcvd_test k empty) moments)
    × ((gather_all options moments stats).flight.nreceived
          + (gather_all options moments stats).nrepeats
          + (gather_all options moments stats).nchecksum
        ≡ 65530 + 0 + 0 + replies_in moments)
counts_example = gather_all_counts options moments stats

abbrev pacer : Pacer
pacer = record {
  stats = stats;
  tokens = pos 0;
  oom_count = 0;
  cur_time = early;
  confirm_flag = true;
  exiting = false;
  npackets = 0;
  deadline = false;
  preload = pos 1;
  lingertime = pos 10_000;
}

-- The clock set back by 2147484 seconds, some 25 days: the time to wait is negative.
abbrev set_back : Timespec
set_back = record { sec = negsuc 2_147_482; nsec = pos 900_000_000 }

negative_wait : gate set_back pacer ≡ wait (negsuc 2_147_482_295)
unfolding gate ◌*ℤ◌ ◌+ℤ◌ ◌-ℤ◌ quot_ℤ
negative_wait = refl

-- 24 is one below the square of 5, and 26 is one above.
below_square : llsqrt 25 (pos 24) ≡ some (pos 5)
unfolding llsqrt newton
below_square = refl

above_square : llsqrt 27 (pos 26) ≡ some (pos 5)
unfolding llsqrt newton
above_square = refl

llsqrt_example : (r : ℕ) × (llsqrt 1000 (pos 990) ≡ some (pos r)) × IsRoot 990 r
llsqrt_example = llsqrt_lem 1000 990 (omega arith) (omega arith) (omega arith)

-- An echo request with five more bytes.
abbrev body : List ℕ
body = 1 ∷ 2 ∷ 0 ∷ 3 ∷ 255 ∷ []

body_fits : 8 + 256 * 0 + sum_words body < 2 ^ 31 - 2 ^ 16
unfolding sum_words
body_fits = omega arith

in_cksum_example : in_cksum (icmp_packet 8 0 (in_cksum (icmp_packet 8 0 0 body) 0) body) 0 ≡ 0
in_cksum_example = in_cksum-in_cksum 8 0 body body_fits
