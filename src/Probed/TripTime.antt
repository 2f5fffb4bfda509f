-- ===== src/Probed/TripTime.antt =====
-- The trip time of a result that counts as answered.
use baseliner_docker.Base.{◌≡◌, ap, ap₂, ◌∙◌, ◌-ℤ◌, Bool, false, ◌||◌, if◌then◌else◌, arith, ltb}
use baseliner_docker.Clock.{Timespec, IsNormal, nanos}
use baseliner_docker.Probed.Util.{diff_ts, Differs, diff_ts-Differs}
use baseliner_docker.Probed.Fifo.{success, ds_err, ts_err}
use baseliner_docker.Probed.Client.{Res, to_u32}
use baseliner_docker.Probed.Results.{total_of, overhead_of, rtt_of, verdict, is_unset}

signs :
    (a b c u dscp far : Bool)
    → (if u || (a || b || c)
        then ts_err
        else if dscp
        then ds_err
        else if far
        then ts_err
        else success)
      ≡ success
    → (a ≡ false) × (b ≡ false) × (c ≡ false)
signs a b c u dscp far h = ground arith

verdict-signs :
    (r : Res)
    → verdict r ≡ success
    → ((total_of r).1 ≡ false) × ((overhead_of r).1 ≡ false) × ((rtt_of r).1 ≡ false)
unfolding verdict
verdict-signs r h =
    signs _ _ _ (is_unset r.t1 || is_unset r.t2 || is_unset r.t3 || is_unset r.t4) r.dscp
      (ltb 20 (to_u32 (rtt_of r).0.sec)) h

positive :
    (a b : Timespec)
    → Differs a b (diff_ts a b)
    → (diff_ts a b).1 ≡ false
    → nanos (diff_ts a b).0 ≡ nanos a -ℤ nanos b
positive a b d h =
    d.value ∙ ap (λ (s : Bool). if s then nanos b -ℤ nanos a else nanos a -ℤ nanos b) h

-- The four times of a result have nanoseconds of one second.
pub record IsTimed (r : Res) : Type 0 where
  pub first : IsNormal r.t1
  pub second : IsNormal r.t2
  pub third : IsNormal r.t3
  pub fourth : IsNormal r.t4

-- If a result with normal times counts as answered, its trip time is the time between sending the
-- ping and receiving the pong, less the time that the server held it.
pub nanos-rtt_of :
    (r : Res)
    → IsTimed r
    → verdict r ≡ success
    → nanos (rtt_of r).0 ≡ (nanos r.t4 -ℤ nanos r.t1) -ℤ (nanos r.t3 -ℤ nanos r.t2)
nanos-rtt_of r n h =
    let s = verdict-signs r h in
    let d = diff_ts-Differs r.t4 r.t1 n.fourth n.first in
    let e = diff_ts-Differs r.t3 r.t2 n.third n.second in
    let f = diff_ts-Differs (total_of r).0 (overhead_of r).0 d.normal e.normal in
    positive _ _ f s.2 ∙ ap₂ (λ x y. x -ℤ y) (positive _ _ d s.0) (positive _ _ e s.1)
