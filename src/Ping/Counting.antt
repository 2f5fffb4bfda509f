-- ===== src/Ping/Counting.antt =====
-- What one reply, and a run of probes and replies, change in the counters of ping.
use mathlib.Core.Path.{fun_ext}
use baseliner_docker.Base.{
  ℕ, ◌+◌, ◌%◌, ◌^◌, ◌≤◌, ◌≡◌, refl, ap, ◌∙◌, Bool, true, false, not, ◌==◌, ◌&&◌, leb, ltb,
  if◌then◌else◌, arith, ℤ, pos, ◌+ℤ◌, ◌-ℤ◌, ltb_ℤ, ◌≤ℤ◌, ◌<ℤ◌, Bool-cases, if_rule, ==_iff, ◌/◌,
  ltb→lt, inl, inr, int_laws, List, [], ◌∷◌, ap₂,
}
use baseliner_docker.Clock.{Timespec, IsNormal, giga, nanos, nanos_parts}
use baseliner_docker.Ping.Table.{Bitmap, rcvd_test, rcvd_test-rcvd_set, max_dup_chk}
use baseliner_docker.Ping.Flight.{Flight, acknowledge, advance_ntransmitted}
use baseliner_docker.Ping.Stats.{
  tvsub, Options, Stats, update_interval, trip, add_trip, time_reply, classify, gather_statistics,
  clear_next,
}

ruleset nano_laws = (int_laws, nanos_parts)

not_ltb : (a b : ℕ) → ltb a b ≡ false → b ≤ a
not_ltb a b h = ground arith

-- `tvsub` subtracts times in nanoseconds, and keeps the nanoseconds within one second.
pub nanos-tvsub :
    (out in_ : Timespec)
    → IsNormal out
    → IsNormal in_
    → (nanos (tvsub out in_) ≡ nanos out -ℤ nanos in_) × IsNormal (tvsub out in_)
unfolding tvsub
nanos-tvsub out in_ a b = elim (Bool-cases (ltb_ℤ (out.nsec -ℤ in_.nsec) (pos 0))) [
  | inl e ↦ rw e (omega nano_laws, record { low = omega int_laws; high = borrowed e })
  | inr e ↦ rw e (omega nano_laws, record { low = plain e; high = omega int_laws })
]
  where
    borrowed :
        ltb_ℤ (out.nsec -ℤ in_.nsec) (pos 0) ≡ true → (out.nsec -ℤ in_.nsec +ℤ pos giga) <ℤ pos giga
    borrowed e = let h = ltb→lt _ _ e in omega int_laws

    plain : ltb_ℤ (out.nsec -ℤ in_.nsec) (pos 0) ≡ false → pos 0 ≤ℤ (out.nsec -ℤ in_.nsec)
    plain e = not_ltb _ _ e

-- What a reply leaves alone until it is classified.
abbrev Keeps : Stats → Stats → Type 0
Keeps s u =
    (u.flight ≡ s.flight)
    × (u.table ≡ s.table)
    × (u.nrepeats ≡ s.nrepeats)
    × (u.nchecksum ≡ s.nchecksum)

add_trip-Keeps : (o : Options) (t : ℤ) (s : Stats) → Keeps s (add_trip o t s)
unfolding add_trip update_interval
add_trip-Keeps o t s =
    if_rule (Keeps s) o.adaptive (refl, refl, refl, refl) (refl, refl, refl, refl)

time_reply-Keeps :
    (o : Options) (cc : ℕ) (csfailed : Bool) (tv sent now : Timespec) (s : Stats)
    → Keeps s (time_reply o cc csfailed tv sent now s)
unfolding time_reply
time_reply-Keeps o cc csfailed tv sent now s =
    if_rule (Keeps s) (o.timing && leb 24 cc)
      (if_rule (Keeps s) csfailed (refl, refl, refl, refl)
        (add_trip-Keeps o _ (record s { latency = (trip s.latency tv sent now).1 })))
      (refl, refl, refl, refl)

abbrev SameTotals : Flight → Flight → Type 0
SameTotals f g = (g.nreceived ≡ f.nreceived) × (g.ntransmitted ≡ f.ntransmitted)

acknowledge-SameTotals : (seq : ℕ) (f : Flight) → SameTotals f (acknowledge seq f)
unfolding acknowledge
acknowledge-SameTotals seq f = if_rule (SameTotals f) _ (refl, refl) (refl, refl)

abbrev OneMore : Flight → Flight → Type 0
OneMore f g = (g.nreceived ≡ f.nreceived) × (g.ntransmitted ≡ f.ntransmitted + 1)

advance_ntransmitted-OneMore : (f : Flight) → OneMore f (advance_ntransmitted f)
unfolding advance_ntransmitted
advance_ntransmitted-OneMore f = if_rule (OneMore f) _ (refl, refl) (refl, refl)

-- A reply with a bad checksum counts as corrupted, one whose number is in the table as a duplicate,
-- any other as received; only the last kind changes the table.
pub record Counted (seq : ℕ) (csfailed : Bool) (s u : Stats) : Type 0 where
  pub received :
      u.flight.nreceived
      ≡ s.flight.nreceived + (if csfailed then 0 else if rcvd_test seq s.table then 0 else 1)
  pub repeats :
      u.nrepeats ≡ s.nrepeats + (if csfailed then 0 else if rcvd_test seq s.table then 1 else 0)
  pub corrupted : u.nchecksum ≡ s.nchecksum + (if csfailed then 1 else 0)
  pub transmitted : u.flight.ntransmitted ≡ s.flight.ntransmitted
  pub table :
      (other : ℕ)
      → rcvd_test other u.table ≡ (
          if not csfailed && other % max_dup_chk == seq % max_dup_chk
          then true
          else rcvd_test other s.table)

rcvd_test-mod :
    (a b : ℕ) (t : Bitmap)
    → (a % max_dup_chk == b % max_dup_chk) ≡ true
    → rcvd_test a t ≡ rcvd_test b t
unfolding rcvd_test
rcvd_test-mod a b t e = ap (λ (k : ℕ). t (k / 2 ^ 6) (k % 2 ^ 6)) ((==_iff _ _).0 e)

known :
    (a b : ℕ) (t : Bitmap)
    → rcvd_test b t ≡ true
    → rcvd_test a t ≡ (if a % max_dup_chk == b % max_dup_chk then true else rcvd_test a t)
known a b t h = elim (Bool-cases (a % max_dup_chk == b % max_dup_chk)) [
  | inl e ↦ rw e (rcvd_test-mod a b t e ∙ h)
  | inr e ↦ rw e
]

classify-Counted :
    (seq : ℕ) (csfailed : Bool) (s t : Stats)
    → t.flight.nreceived ≡ s.flight.nreceived + 1
    → t.table ≡ s.table
    → t.nrepeats ≡ s.nrepeats
    → t.nchecksum ≡ s.nchecksum
    → t.flight.ntransmitted ≡ s.flight.ntransmitted
    → Counted seq csfailed s (classify seq csfailed t)
unfolding classify
classify-Counted seq true s t f b r c n = record {
  transmitted = n;
  received = omega arith;
  repeats = omega arith;
  corrupted = omega arith;
  table = λ other. ap (rcvd_test other) b;
}
classify-Counted seq false s t f b r c n = elim (Bool-cases (rcvd_test seq s.table)) [
  | inl e ↦
      rw (b, e)
        (record {
          received = rw e (omega arith);
          repeats = rw e (omega arith);
          corrupted = omega arith;
          transmitted = n;
          table = λ other. known other seq s.table e;
        })
  | inr e ↦
      rw (b, e)
        (record {
          received = rw e (omega arith);
          repeats = rw e (omega arith);
          corrupted = omega arith;
          transmitted = n;
          table = λ other. (rcvd_test-rcvd_set seq other s.table).0;
        })
]

-- One reply is counted once, whatever its times are: as corrupted, as a duplicate or as received, by
-- its checksum and the table; the table then has its number exactly if the checksum was good.
pub gather_statistics-Counted :
    (o : Options) (cc seq : ℕ) (csfailed : Bool) (tv sent now : Timespec) (s : Stats)
    → Counted seq csfailed s (gather_statistics o cc seq csfailed tv sent now s).0
unfolding gather_statistics
gather_statistics-Counted o cc seq csfailed tv sent now s =
    let k = time_reply-Keeps o cc csfailed tv sent now acknowledged in
    let c =
      classify-Counted seq csfailed s (time_reply o cc csfailed tv sent now acknowledged)
        (ap (λ (f : Flight). f.nreceived) k.0 ∙ (counted csfailed).0) k.1 k.2 k.3
        (ap (λ (f : Flight). f.ntransmitted) k.0 ∙ (counted csfailed).1) in
    record {
      received = c.received;
      repeats = c.repeats;
      corrupted = c.corrupted;
      transmitted = c.transmitted;
      table = c.table;
    }
  where
    f : Flight
    f = record s.flight { nreceived = s.flight.nreceived + 1 }

    acknowledged : Stats
    acknowledged = record s { flight = if csfailed then f else acknowledge seq f }

    counted : (b : Bool) → SameTotals f (if b then f else acknowledge seq f)
    counted true = (refl, refl)
    counted false = acknowledge-SameTotals seq f

once :
    (a b : Bool)
    → (if a then 0 else if b then 0 else 1)
        + (if a then 0 else if b then 1 else 0)
        + (if a then 1 else 0)
      ≡ 1
once a b = ground arith

-- A reply, and the clock when it is stamped again.
pub record Reply : Type 0 where
  pub cc : ℕ
  pub seq : ℕ
  pub csfailed : Bool
  pub tv : Timespec
  pub sent : Timespec
  pub now : Timespec

-- What happens between the calls of ping: an attempt to send the next probe, which counts as
-- transmitted or does not, or a reply.
pub data Moment : Type 0 where
  probe : Bool → Moment
  reply : Reply → Moment

abbrev attempt : Bool → Stats → Stats
attempt counted s = if counted then record s { flight = advance_ntransmitted s.flight } else s

abbrev moment : Options → Moment → Stats → Stats
moment o (probe counted) s = attempt counted (clear_next s)
moment o (reply r) s = (gather_statistics o r.cc r.seq r.csfailed r.tv r.sent r.now s).0

abbrev pub gather_all : Options → List Moment → Stats → Stats
gather_all o [] s = s
gather_all o (m ∷ ms) s = gather_all o ms (moment o m s)

abbrev pub replies_in : List Moment → ℕ
replies_in [] = 0
replies_in (probe counted ∷ ms) = replies_in ms
replies_in (reply r ∷ ms) = 1 + replies_in ms

-- How many replies with a good checksum are the first with their number modulo MAX_DUP_CHK since a
-- probe of such a number was last to be sent. So many probes were transmitted before, and these
-- numbers have been seen since theirs.
abbrev pub first_answers : ℕ → (ℕ → Bool) → List Moment → ℕ
first_answers sent seen [] = 0
first_answers sent seen (probe counted ∷ ms) =
    first_answers (if counted then sent + 1 else sent)
      (λ k. if k % max_dup_chk == (sent + 1) % max_dup_chk then false else seen k) ms
first_answers sent seen (reply r ∷ ms) =
    (if r.csfailed then 0 else if seen r.seq then 0 else 1)
    + first_answers sent
        (λ k. if not r.csfailed && k % max_dup_chk == r.seq % max_dup_chk then true else seen k) ms

seen_after :
    (seq : ℕ) (csfailed : Bool) (s u : Stats)
    → Counted seq csfailed s u
    → ◌≡◌ {A = ℕ → Bool}
        (λ k. rcvd_test k u.table)
        (λ k.
          if not csfailed && k % max_dup_chk == seq % max_dup_chk
          then true
          else rcvd_test k s.table)
seen_after seq csfailed s u c = fun_ext c.table

seen_before :
    (s : Stats)
    → ◌≡◌ {A = ℕ → Bool}
        (λ k. rcvd_test k (clear_next s).table)
        (λ k.
          if k % max_dup_chk == (s.flight.ntransmitted + 1) % max_dup_chk
          then false
          else rcvd_test k s.table)
unfolding clear_next
seen_before s = fun_ext (λ k. (rcvd_test-rcvd_set (s.flight.ntransmitted + 1) k s.table).1)

-- What an attempt leaves alone.
record Tried (counted : Bool) (s u : Stats) : Type 0 where
  received : u.flight.nreceived ≡ s.flight.nreceived
  repeats : u.nrepeats ≡ s.nrepeats
  corrupted : u.nchecksum ≡ s.nchecksum
  transmitted :
      u.flight.ntransmitted ≡ (if counted then s.flight.ntransmitted + 1 else s.flight.ntransmitted)
  table : u.table ≡ (clear_next s).table

attempt-Tried : (counted : Bool) (s : Stats) → Tried counted s (attempt counted (clear_next s))
unfolding clear_next
attempt-Tried true s = record {
  received = (advance_ntransmitted-OneMore s.flight).0;
  repeats = refl;
  corrupted = refl;
  transmitted = (advance_ntransmitted-OneMore s.flight).1;
  table = refl;
}
attempt-Tried false s = record {
  received = refl;
  repeats = refl;
  corrupted = refl;
  transmitted = refl;
  table = refl;
}

-- Over any run of probes and replies, ping counts as received those replies that have a good checksum
-- and are the first with their sequence number modulo MAX_DUP_CHK since a probe with such a number was
-- last to be sent; and it counts each reply once in all, as received, as a duplicate or as corrupted.
pub gather_all_counts :
    (o : Options) (ms : List Moment) (s : Stats)
    → let u = gather_all o ms s in
      (u.flight.nreceived
        ≡ s.flight.nreceived + first_answers s.flight.ntransmitted (λ k. rcvd_test k s.table) ms)
      × (u.flight.nreceived + u.nrepeats + u.nchecksum
          ≡ s.flight.nreceived + s.nrepeats + s.nchecksum + replies_in ms)
gather_all_counts o [] s = (omega arith, omega arith)
gather_all_counts o (probe counted ∷ ms) s =
    let t = attempt-Tried counted s in
    let u = attempt counted (clear_next s) in
    let ih = gather_all_counts o ms u in
    (
      ih.0
          ∙ ap₂ (λ n v. u.flight.nreceived + first_answers n v ms) t.transmitted
              (ap (λ b k. rcvd_test k b) t.table ∙ seen_before s)
          ∙ omega (arith, t.received),
      omega (arith, ih.1, t.received, t.repeats, t.corrupted),
    )
gather_all_counts o (reply r ∷ ms) s =
    let c = gather_statistics-Counted o r.cc r.seq r.csfailed r.tv r.sent r.now s in
    let u = (gather_statistics o r.cc r.seq r.csfailed r.tv r.sent r.now s).0 in
    let ih = gather_all_counts o ms u in
    (
      ih.0
          ∙ ap₂ (λ n v. u.flight.nreceived + first_answers n v ms) c.transmitted
              (seen_after r.seq r.csfailed s u c)
          ∙ omega (arith, c.received),
      omega (
        arith,
        ih.1,
        once r.csfailed (rcvd_test r.seq s.table),
        c.received,
        c.repeats,
        c.corrupted,
      ),
    )
