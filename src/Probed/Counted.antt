-- ===== src/Probed/Counted.antt =====
-- A result of the client waits, or is counted by output_client.
use baseliner_docker.Base.{
  ℕ, ◌+◌, List, [], ◌∷◌, Option, none, some, Bool, true, false, ◌&&◌, ◌||◌, ◌≡◌, refl, ℤ, ◌==◌,
  if◌then◌else◌, arith, length, if_rule, Bool-cases, inl, inr,
}
use baseliner_docker.Clock.{Timespec}
use baseliner_docker.Probed.Fifo.{Code, success, ds_err, ts_err, pongloss, timeout, dup, Report}
use baseliner_docker.Probed.Client.{
  client, Res, Msess, Data, Tally, World, Env, insert_last, matches, touch, Scan, absent, waits,
  complete, push_res, scan, Look, no_session, missing, updated, finished, push_session, in_session,
  look,
}
use baseliner_docker.Probed.Results.{
  verdict, report_of, count_finished, output, one_done, was_sent, dup_report, count_dup, conclude,
  given_up, count_given_up, bare, give_up,
}

-- The probes that wait.
abbrev pub pending : List Msess → ℕ
pending [] = 0
pending (s ∷ ss) = length s.results + pending ss

-- The results counted in client mode, duplicates aside.
abbrev pub classified : Tally → ℕ
classified t = t.ok + t.timeouts + t.pongloss + t.tserror + t.dserror

abbrev pub knows : ℕ → List Msess → Bool
knows id [] = false
knows id (s ∷ ss) = s.id == id || knows id ss

-- From one state to another with n new probes.
pub record Accounts (n : ℕ) (w u : World) : Type 0 where
  pub done : u.tally.done + pending u.sessions ≡ w.tally.done + pending w.sessions + n
  pub counted :
      classified u.tally + pending u.sessions ≡ classified w.tally + pending w.sessions + n

unfoldable pub Grown : Bool → List Msess → Option (List Msess) → Type 0
Grown b ss none = b ≡ false
Grown b ss (some ss') = (b ≡ true) × (pending ss' ≡ pending ss + 1)

insert_step :
    (id : ℕ) (r : Res) (s : Msess) (ss : List Msess) (o : Option (List Msess))
    → Grown (knows id ss) ss o
    → Grown (knows id (s ∷ ss)) (s ∷ ss) (elim o [
      | some ss' ↦ some (s ∷ ss')
      | none ↦ if s.id == id then some (record s { results = r ∷ s.results } ∷ ss) else none
    ])
unfolding Grown
insert_step id r s ss none h = elim (Bool-cases (s.id == id)) [
  | inl e ↦ rw e (refl, omega arith)
  | inr e ↦ rw (e, h)
]
insert_step id r s ss (some ss') h = elim (Bool-cases (s.id == id)) [
  | inl e ↦ rw e (refl, omega (arith, h.1))
  | inr e ↦ rw (e, h.0) (refl, omega (arith, h.1))
]

pub insert_last-Grown :
    (id : ℕ) (r : Res) (ss : List Msess) → Grown (knows id ss) ss (insert_last id r ss)
unfolding insert_last
insert_last-Grown id r [] = unfold Grown in refl
insert_last-Grown id r (s ∷ ss) =
    insert_step id r s ss (insert_last id r ss) (insert_last-Grown id r ss)

ScanOf : List Res → Scan → Type 0
ScanOf rs absent = Unit
ScanOf rs (waits qs) = length qs ≡ length rs
ScanOf rs (complete r qs) = length qs + 1 ≡ length rs

push_res-ScanOf :
    (r : Res) (rs : List Res) (c : Scan) → ScanOf rs c → ScanOf (r ∷ rs) (push_res r c)
unfolding ScanOf
push_res-ScanOf r rs absent h = tt
push_res-ScanOf r rs (waits qs) h = omega (arith, h)
push_res-ScanOf r rs (complete q qs) h = omega (arith, h)

scan-ScanOf :
    (a : ℕ) (d : Data) (ts : Option Timespec) (wrong : Bool) (rs : List Res)
    → ScanOf rs (scan a d ts wrong rs)
unfolding scan
scan-ScanOf a d ts wrong [] = unfold ScanOf in tt
scan-ScanOf a d ts wrong (r ∷ rs) =
    if_rule (ScanOf (r ∷ rs)) (matches a d r)
      (if_rule (ScanOf (r ∷ rs)) ((touch d ts wrong r).pong && (touch d ts wrong r).time)
        (unfold ScanOf in omega arith) (unfold ScanOf in refl))
      (push_res-ScanOf r rs (scan a d ts wrong rs) (scan-ScanOf a d ts wrong rs))

unfoldable pub LookOf : List Msess → Look → Type 0
LookOf ss no_session = Unit
LookOf ss missing = Unit
LookOf ss (updated us) = pending us ≡ pending ss
LookOf ss (finished r us) = pending us + 1 ≡ pending ss

push_session-LookOf :
    (s : Msess) (ss : List Msess) (l : Look) → LookOf ss l → LookOf (s ∷ ss) (push_session s l)
unfolding LookOf
push_session-LookOf s ss no_session h = tt
push_session-LookOf s ss missing h = tt
push_session-LookOf s ss (updated us) h = omega (arith, h)
push_session-LookOf s ss (finished r us) h = omega (arith, h)

in_session-LookOf :
    (s : Msess) (ss : List Msess) (c : Scan)
    → ScanOf s.results c
    → LookOf (s ∷ ss) (in_session s ss c)
unfolding LookOf ScanOf
in_session-LookOf s ss absent h = tt
in_session-LookOf s ss (waits qs) h = omega (arith, h)
in_session-LookOf s ss (complete r qs) h = omega (arith, h)

pub look-LookOf :
    (a : ℕ) (d : Data) (ts : Option Timespec) (dscp : ℕ) (ss : List Msess)
    → LookOf ss (look a d ts dscp ss)
unfolding look
look-LookOf a d ts dscp [] = unfold LookOf in tt
look-LookOf a d ts dscp (s ∷ ss) =
    if_rule (LookOf (s ∷ ss)) (s.id == d.id)
      (in_session-LookOf s ss _ (scan-ScanOf a d ts _ s.results))
      (push_session-LookOf s ss (look a d ts dscp ss) (look-LookOf a d ts dscp ss))

-- The result is in one more counter.
abbrev Counts : Tally → Tally → Type 0
Counts t u = (u.done ≡ t.done) × (classified u ≡ classified t + 1)

count_finished-Counts :
    (thold : ℤ) (r : Res) (c : Code) (t : Tally) → Counts t (count_finished thold r c t)
unfolding count_finished
count_finished-Counts thold r success t = (refl, omega arith)
count_finished-Counts thold r ds_err t = (refl, omega arith)
count_finished-Counts thold r ts_err t = (refl, omega arith)
count_finished-Counts thold r pongloss t = (refl, omega arith)
count_finished-Counts thold r timeout t = (refl, omega arith)
count_finished-Counts thold r dup t = (refl, omega arith)

output-client :
    (env : Env) (r : Report) (count : Tally → Tally) (t : Tally)
    → env.mode ≡ client
    → output env r count t ≡ count t
unfolding output
output-client env r count t m = rw m

pub conclude-Accounts :
    (env : Env) (a : ℕ) (d : Data) (npackets thold : ℤ) (now : Timespec) (w : World) (l : Look)
    → env.mode ≡ client
    → LookOf w.sessions l
    → Accounts 0 w (conclude env a d npackets thold now w l)
unfolding LookOf
conclude-Accounts env a d npackets thold now w no_session m h = record {
  done = omega arith;
  counted = omega arith;
}
conclude-Accounts env a d npackets thold now w missing m h =
    if_rule (Accounts 0 w) (was_sent a d w.sessions)
      (rw (output-client env (dup_report d now) count_dup w.tally m)
        (record { done = omega arith; counted = omega arith }))
      (record { done = omega arith; counted = omega arith })
conclude-Accounts env a d npackets thold now w (updated ss) m h = record {
  done = omega (arith, h);
  counted = omega (arith, h);
}
conclude-Accounts env a d npackets thold now w (finished r ss) m h =
    let c = count_finished-Counts thold r (verdict r) (one_done w.tally) in
    rw
      (output-client env (report_of r (verdict r)) (count_finished thold r (verdict r))
        (one_done w.tally) m)
      (record { done = omega (arith, h, c.0); counted = omega (arith, h, c.1) })

pub give_up-Counts :
    (env : Env) (r : Res) (t : Tally) → env.mode ≡ client → Counts (one_done t) (give_up env r t)
unfolding give_up given_up count_given_up
give_up-Counts env r t m =
    rw (output-client env (bare r (given_up r)) (count_given_up (given_up r)) (one_done t) m) (
      if_rule (λ (c : Code). Counts (one_done t) (count_given_up c (one_done t))) r.time
        (refl, omega arith)
        (if_rule (λ (c : Code). Counts (one_done t) (count_given_up c (one_done t))) r.pong
          (refl, omega arith) (refl, omega arith)))
