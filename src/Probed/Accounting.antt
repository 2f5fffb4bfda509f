-- ===== src/Probed/Accounting.antt =====
-- Every probe of the client is accounted for: it waits in a list of results, or it is in one of the
-- counters, exactly once.
use baseliner_docker.Base.{
  ℕ, ◌+◌, List, [], ◌∷◌, Option, none, some, Bool, ◌&&◌, ◌≡◌, refl, ℤ, ◌==◌, if◌then◌else◌, arith,
  length, if_rule, Bool-cases, inl, inr,
}
use baseliner_docker.Clock.{Timespec}
use baseliner_docker.Probed.Client.{
  client, Res, Msess, Data, Tally, World, Env, insert_last, new_res, client_res_insert, look,
  say_hello, client_msess_gothello,
}
use baseliner_docker.Probed.Results.{
  client_res_update, give_up, is_old, sweep, sweep_all, client_res_clear_timeouts,
}
use baseliner_docker.Probed.Counted.{
  pending, classified, knows, Accounts, Grown, insert_last-Grown, look-LookOf, conclude-Accounts,
  give_up-Counts,
}

-- What waits and what is counted, over a sweep.
abbrev Swept : ℕ → Tally → ℕ → Tally → Type 0
Swept before t after u =
    (u.done + after ≡ t.done + before) × (classified u + after ≡ classified t + before)

sweep_step :
    (env : Env) (now : Timespec) (r : Res) (rs kept : List Res) (t u : Tally)
    → env.mode ≡ client
    → Swept (length rs) t (length kept) u
    → let v : List Res × Tally = elim kept [
      | [] ↦ if is_old now r then ([], give_up env r u) else (r ∷ [], u)
      | q ∷ qs ↦ (r ∷ q ∷ qs, u)
    ] in
      Swept (length (r ∷ rs)) t (length v.0) v.1
sweep_step env now r rs [] t u m h =
    if_rule (λ (v : List Res × Tally). Swept (length (r ∷ rs)) t (length v.0) v.1) (is_old now r)
      (let c = give_up-Counts env r u m in (omega (arith, h.0, c.0), omega (arith, h.1, c.1)))
      (omega (arith, h.0), omega (arith, h.1))
sweep_step env now r rs (q ∷ qs) t u m h = (omega (arith, h.0), omega (arith, h.1))

sweep-Swept :
    (env : Env) (now : Timespec) (rs : List Res) (t : Tally)
    → env.mode ≡ client
    → Swept (length rs) t (length (sweep env now rs t).0) (sweep env now rs t).1
unfolding sweep
sweep-Swept env now [] t m = (refl, refl)
sweep-Swept env now (r ∷ rs) t m =
    sweep_step env now r rs (sweep env now rs t).0 t (sweep env now rs t).1 m
      (sweep-Swept env now rs t m)

sweep_all-Swept :
    (env : Env) (now : Timespec) (ss : List Msess) (t : Tally)
    → env.mode ≡ client
    → Swept (pending ss) t (pending (sweep_all env now ss t).0) (sweep_all env now ss t).1
unfolding sweep_all
sweep_all-Swept env now [] t m = (refl, refl)
sweep_all-Swept env now (s ∷ ss) t m =
    let a = sweep-Swept env now s.results t m in
    let b = sweep_all-Swept env now ss (sweep env now s.results t).1 m in
    (omega (arith, a.0, b.0), omega (arith, a.1, b.1))

pending-say_hello : (a : ℕ) (ss : List Msess) → pending (say_hello a ss) ≡ pending ss
unfolding say_hello
pending-say_hello a [] = refl
pending-say_hello a (s ∷ ss) =
    if_rule
      (λ (x : Msess). length x.results + pending (say_hello a ss) ≡ length s.results + pending ss)
      (a == s.dst) (omega (arith, pending-say_hello a ss)) (omega (arith, pending-say_hello a ss))

-- The calls of the program's loop.
pub data Call : Type 0 where
  insert : ℕ → Data → Timespec → Timespec → Call
  update : ℕ → Data → Option Timespec → ℕ → ℤ → ℤ → Timespec → Call
  clear_timeouts : Timespec → Call
  gothello : ℕ → Call

abbrev pub call : Env → Call → World → World
call env (insert a d ts now) w = client_res_insert env a d ts now w
call env (update a d ts dscp npackets thold now) w =
    client_res_update env a d ts dscp npackets thold now w
call env (clear_timeouts now) w = client_res_clear_timeouts env now w
call env (gothello a) w = (client_msess_gothello a w).0

-- The new probes of a call.
abbrev pub new_probes : Env → Call → World → ℕ
new_probes env (insert a d ts now) w = if knows d.id w.sessions && env.memory then 1 else 0
new_probes env (update a d ts dscp npackets thold now) w = 0
new_probes env (clear_timeouts now) w = 0
new_probes env (gothello a) w = 0

insert-Accounts :
    (env : Env) (b : Bool) (w : World) (o : Option (List Msess))
    → Grown b w.sessions o
    → Accounts
        (if b && env.memory then 1 else 0)
        w
        (elim o [ none ↦ w | some ss ↦ if env.memory then record w { sessions = ss } else w ])
unfolding Grown
insert-Accounts env b w none h = rw h (record { done = omega arith; counted = omega arith })
insert-Accounts env b w (some ss) h = elim (Bool-cases env.memory) [
  | inl e ↦ rw (h.0, e) (record { done = omega (arith, h.1); counted = omega (arith, h.1) })
  | inr e ↦ rw (h.0, e) (record { done = omega arith; counted = omega arith })
]

call-Accounts :
    (env : Env) (c : Call) (w : World)
    → env.mode ≡ client
    → Accounts (new_probes env c w) w (call env c w)
unfolding client_res_insert client_res_update client_res_clear_timeouts client_msess_gothello
call-Accounts env (insert a d ts now) w m =
    insert-Accounts env (knows d.id w.sessions) w (insert_last d.id (new_res a d ts now) w.sessions)
      (insert_last-Grown d.id (new_res a d ts now) w.sessions)
call-Accounts env (update a d ts dscp npackets thold now) w m =
    conclude-Accounts env a d npackets thold now w (look a d ts dscp w.sessions) m
      (look-LookOf a d ts dscp w.sessions)
call-Accounts env (clear_timeouts now) w m =
    let s = sweep_all-Swept env now w.sessions w.tally m in
    record { done = omega (arith, s.0); counted = omega (arith, s.1) }
call-Accounts env (gothello a) w m = record {
  done = omega (arith, pending-say_hello a w.sessions);
  counted = omega (arith, pending-say_hello a w.sessions);
}

abbrev pub calls : Env → List Call → World → World
calls env [] w = w
calls env (c ∷ cs) w = calls env cs (call env c w)

abbrev pub all_new : Env → List Call → World → ℕ
all_new env [] w = 0
all_new env (c ∷ cs) w = new_probes env c w + all_new env cs (call env c w)

-- In client mode, over any sequence of calls, each new probe either still waits for its answers or is
-- counted once, as answered, lost, timed out or in error, and once among those that are done.
pub calls-Accounts :
    (env : Env) (cs : List Call) (w : World)
    → env.mode ≡ client
    → Accounts (all_new env cs w) w (calls env cs w)
calls-Accounts env [] w m = record { done = omega arith; counted = omega arith }
calls-Accounts env (c ∷ cs) w m =
    let a = call-Accounts env c w m in
    let b = calls-Accounts env cs (call env c w) m in
    record { done = omega (arith, a.done, b.done); counted = omega (arith, a.counted, b.counted) }
