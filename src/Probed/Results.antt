-- ===== src/Probed/Results.antt =====
-- SLANG-probed/client.c: what becomes of a result: `client_res_update` with its status codes, and
-- `client_res_clear_timeouts`.
use baseliner_docker.Base.{
  ℕ, ◌+◌, List, [], ◌∷◌, Option, Bool, true, false, ◌&&◌, ◌||◌, ℤ, pos, negsuc, ltb_ℤ, leb_ℤ, eqb_ℤ,
  ltb, leb, ◌==◌, if◌then◌else◌,
}
use baseliner_docker.Clock.{Timespec, nanos}
use baseliner_docker.Probed.Util.{diff_ts, cmp_ts}
use baseliner_docker.Probed.Fifo.{
  Code, success, ds_err, ts_err, pongloss, timeout, dup, Report, client_write_fifo,
}
use baseliner_docker.Probed.Client.{
  Res, Msess, Data, Extremes, Tally, World, Env, to_u32, Look, look, help, server, client, daemon,
  pong_type, time_type, other_type, no_session, missing, updated, finished,
}

-- The three differences of a finished result, with their signs.
abbrev pub total_of : Res → Timespec × Bool
total_of r = diff_ts r.t4 r.t1

abbrev pub overhead_of : Res → Timespec × Bool
overhead_of r = diff_ts r.t3 r.t2

abbrev pub rtt_of : Res → Timespec × Bool
rtt_of r = diff_ts (total_of r).0 (overhead_of r).0

abbrev pub is_unset : Timespec → Bool
is_unset t = eqb_ℤ t.sec (pos 0) && eqb_ℤ t.nsec (pos 0)

-- The status code of a finished result.
unfoldable pub verdict : Res → Code
verdict r =
    let negative = (total_of r).1 || (overhead_of r).1 || (rtt_of r).1 in
    let unset = is_unset r.t1 || is_unset r.t2 || is_unset r.t3 || is_unset r.t4 in
    if unset || negative
    then ts_err
    else if r.dscp
    then ds_err
    else if ltb 20 (to_u32 (rtt_of r).0.sec)
    then ts_err
    else success

abbrev pub report_of : Res → Code → Report
report_of r c = record {
  id = r.id;
  seq = r.seq;
  code = c;
  created_sec = to_u32 r.created.sec;
  created_nsec = to_u32 r.created.nsec;
  rtt_sec = to_u32 (rtt_of r).0.sec;
  rtt_nsec = to_u32 (rtt_of r).0.nsec;
}

unfoldable pub widen : Timespec → Extremes → Extremes
widen t e =
    let most = if eqb_ℤ (cmp_ts e.most t) (negsuc 0) then t else e.most in
    let least = if eqb_ℤ e.least.sec (negsuc 0) then t else e.least in
    record { most = most; least = if eqb_ℤ (cmp_ts least t) (pos 1) then t else least }

-- A finished result in client mode.
unfoldable pub count_finished : ℤ → Res → Code → Tally → Tally
count_finished thold r ts_err t = record t { tserror = t.tserror + 1 }
count_finished thold r ds_err t = record t { dserror = t.dserror + 1 }
count_finished thold r c t =
    let limit = if ltb_ℤ t.thold (pos 0) then thold else t.thold in
    record t {
      ok = t.ok + 1;
      rtt = widen (rtt_of r).0 t.rtt;
      total = widen (total_of r).0 t.total;
      kernel_overhead = widen (overhead_of r).0 t.kernel_overhead;
      thold = limit;
      n_thold = if ltb_ℤ limit (nanos (rtt_of r).0) then t.n_thold + 1 else t.n_thold;
    }

unfoldable pub output : Env → Report → (Tally → Tally) → Tally → Tally
output env r count t = elim env.mode [
  | daemon ↦ record t { fifo = client_write_fifo env.accepts env.memory r t.fifo }
  | client ↦ count t
  | help ↦ t
  | server ↦ t
]

abbrev pub one_done : Tally → Tally
one_done t = record t { done = t.done + 1 }

abbrev interrupt : ℤ → World → World
interrupt npackets w = record w {
  interrupted = if leb_ℤ npackets (pos w.tally.ok) then true else w.interrupted;
}

abbrev is_pong : Data → Bool
is_pong d = elim d.kind [ pong_type ↦ true | time_type ↦ false | other_type ↦ false ]

-- Whether some session has sent this probe: the loop behind `Didn't find PING. DUP!`.
unfoldable pub was_sent : ℕ → Data → List Msess → Bool
was_sent a d [] = false
was_sent a d (s ∷ ss) =
    (s.dst == a && is_pong d && s.id == d.id && leb d.seq s.last_seq) || was_sent a d ss

abbrev pub dup_report : Data → Timespec → Report
dup_report d now = record {
  id = d.id;
  seq = d.seq;
  code = dup;
  created_sec = to_u32 now.sec;
  created_nsec = to_u32 now.nsec;
  rtt_sec = 0;
  rtt_nsec = 0;
}

abbrev pub count_dup : Tally → Tally
count_dup t = record t { dups = t.dups + 1 }

abbrev pub conclude : Env → ℕ → Data → ℤ → ℤ → Timespec → World → Look → World
conclude env a d npackets thold now w no_session = w
conclude env a d npackets thold now w missing =
    if was_sent a d w.sessions
    then (record w { tally = output env (dup_report d now) count_dup w.tally })
    else w
conclude env a d npackets thold now w (updated ss) = interrupt npackets (record w { sessions = ss })
conclude env a d npackets thold now w (finished r ss) = interrupt npackets (record w {
  sessions = ss;
  tally =
      output env (report_of r (verdict r)) (count_finished thold r (verdict r)) (one_done w.tally);
})

-- `client_res_update`; `now` is the clock.
unfoldable pub client_res_update :
    Env → ℕ → Data → Option Timespec → ℕ → ℤ → ℤ → Timespec → World → World
client_res_update env a d ts dscp npackets thold now w =
    conclude env a d npackets thold now w (look a d ts dscp w.sessions)

-- The status code of a result that is given up.
unfoldable pub given_up : Res → Code
given_up r = if r.time then pongloss else if r.pong then ts_err else timeout

unfoldable pub count_given_up : Code → Tally → Tally
count_given_up ts_err t = record t { tserror = t.tserror + 1 }
count_given_up pongloss t = record t { pongloss = t.pongloss + 1 }
count_given_up timeout t = record t { timeouts = t.timeouts + 1 }
count_given_up c t = t

-- A report without a trip time.
abbrev pub bare : Res → Code → Report
bare r c = record (report_of r c) { rtt_sec = 0; rtt_nsec = 0 }

unfoldable pub give_up : Env → Res → Tally → Tally
give_up env r t = output env (bare r (given_up r)) (count_given_up (given_up r)) (one_done t)

-- `diff.tv_sec > TIMEOUT`; the sign of the difference is not looked at.
abbrev pub is_old : Timespec → Res → Bool
is_old now r = ltb_ℤ (pos 10) (diff_ts now r.created).0.sec

-- From the end of the list up to the first probe that is not old.
unfoldable pub sweep : Env → Timespec → List Res → Tally → List Res × Tally
sweep env now [] t = ([], t)
sweep env now (r ∷ rs) t = elim (sweep env now rs t).0 [
  | [] ↦
      if is_old now r
      then ([], give_up env r (sweep env now rs t).1)
      else (r ∷ [], (sweep env now rs t).1)
  | q ∷ qs ↦ (r ∷ q ∷ qs, (sweep env now rs t).1)
]

unfoldable pub sweep_all : Env → Timespec → List Msess → Tally → List Msess × Tally
sweep_all env now [] t = ([], t)
sweep_all env now (s ∷ ss) t =
    let r = sweep env now s.results t in
    let rest = sweep_all env now ss r.1 in (record s { results = r.0 } ∷ rest.0, rest.1)

-- `client_res_clear_timeouts`
unfoldable pub client_res_clear_timeouts : Env → Timespec → World → World
client_res_clear_timeouts env now w = record w {
  sessions = (sweep_all env now w.sessions w.tally).0;
  tally = (sweep_all env now w.sessions w.tally).1;
}
