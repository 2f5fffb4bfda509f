-- ===== src/Ping/Fairness.antt =====
-- The token bucket of `pinger` and the last wait of ping (iputils-ns/ping_common.c).
use baseliner_docker.Base.{
  ℕ, ◌/◌, ◌%◌, ◌^◌, Bool, ◌||◌, ltb, ℤ, pos, negsuc, ◌+ℤ◌, ◌*ℤ◌, ◌≤ℤ◌, ◌<ℤ◌, ltb_ℤ, if◌then◌else◌,
  arith,
}
use baseliner_docker.Clock.{Timespec}
use baseliner_docker.Ping.Pace.{Pacer, elapsed, Gate, wait, pass, to_u64, schedule_exit}

negative :
    (n k : ℕ) (c : Bool) → pos k ≤ℤ (if ltb_ℤ (negsuc n) (pos 0) || c then pos k else negsuc n)
negative n k c = ground arith

at_least : (c : Bool) (n k : ℕ) → pos k ≤ℤ (if c || ltb (n % 2 ^ 64) k then pos k else pos n)
at_least c n k = ground arith

-- What the gate promises of the tokens of the next state, or of the time to wait.
abbrev pub Fair : Timespec → Pacer → Gate → Type 0
Fair tv p (wait n) = pos 0 <ℤ n
Fair tv p (pass q) =
    (pos 0 ≤ℤ q.tokens)
    × (q.tokens +ℤ p.stats.interval ≤ℤ p.stats.interval *ℤ p.preload)
    × (q.tokens +ℤ p.stats.interval ≤ℤ elapsed tv p.cur_time +ℤ p.tokens)

-- The numbers of `pinger` in the range where no `int` overflows: the limit of the tokens is one, the
-- interval is not negative and below 2^30 ms, and the clock has not been set back by more than 2^30 ms, some 12 days.
pub record InRange (tv : Timespec) (p : Pacer) : Type 0 where
  pub filled : pos 0 ≤ℤ p.tokens
  pub limit_low : pos 0 ≤ℤ p.stats.interval *ℤ p.preload
  pub limit_high : p.stats.interval *ℤ p.preload <ℤ pos (2 ^ 31)
  pub not_negative : pos 0 ≤ℤ p.stats.interval
  pub short : p.stats.interval <ℤ pos (2 ^ 30)
  pub set_back : pos 0 ≤ℤ elapsed tv p.cur_time +ℤ pos (2 ^ 30)

-- The tokens filled up are no more than the time and the limit allow, and not much below 0.
abbrev Filled : Timespec → Pacer → ℤ → Type 0
Filled tv p n =
    (n ≤ℤ elapsed tv p.cur_time +ℤ p.tokens)
    × (n ≤ℤ p.stats.interval *ℤ p.preload)
    × (pos 0 ≤ℤ n +ℤ pos (2 ^ 30))

-- The first call of `__schedule_exit` returns at least the milliseconds for which the timer is set.
schedule_exit_lem :
    (next : ℤ) (p : Pacer) → let r = schedule_exit next p 0 in pos (r.1 / 1000) ≤ℤ r.0
unfolding schedule_exit
schedule_exit_lem next p = longer next _
  where
    longer :
        (next : ℤ) (w : ℕ)
        → pos (w / 1000)
          ≤ℤ (if ltb_ℤ next (pos 0) || ltb (to_u64 next) (w / 1000) then pos (w / 1000) else next)
    longer (negsuc n) w = negative n (w / 1000) _
    longer (pos n) w = at_least (ltb_ℤ (pos n) (pos 0)) n (w / 1000)
