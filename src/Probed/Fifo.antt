-- ===== src/Probed/Fifo.antt =====
-- SLANG-probed/client.c: the results for the daemon's FIFO (`client_write_fifo`) and the queue of
-- those that could not be written. The k-th call of `write` succeeds exactly if `accepts k`.
use baseliner_docker.Base.{
  ℕ, ◌+◌, ◌-◌, ◌≡◌, refl, List, [], ◌∷◌, ◌++◌, Bool, true, ltb, length, length-append,
  if◌then◌else◌, arith, Bool-cases, inl, inr,
}

-- The status codes of a result.
pub data Code : Type 0 where
  success ds_err ts_err pongloss timeout dup : Code

-- `struct res_fifo`; the numbers are 32-bit words.
pub record Report : Type 0 where
  pub id : ℕ
  pub seq : ℕ
  pub code : Code
  pub created_sec : ℕ
  pub created_nsec : ℕ
  pub rtt_sec : ℕ
  pub rtt_nsec : ℕ

-- `fifoq_head`, its counters, and what the reader of the FIFO has been given.
pub record Fifo : Type 0 where
  pub queue : List Report
  pub count : ℕ
  pub count_max : ℕ
  pub written : List Report
  -- the calls of `write` so far
  pub calls : ℕ

module _ (accepts : ℕ → Bool) where
  -- One `write`.
  abbrev pub put_record : Report → Fifo → Fifo
  put_record r f = record f { written = f.written ++ (r ∷ []); calls = f.calls + 1 }

  -- The loop over the queue: it stops at the first record that is not written.
  unfoldable pub drain : List Report → Fifo → Fifo
  drain [] f = record f { queue = [] }
  drain (q ∷ qs) f =
      let rest = drain qs (record (put_record q f) { count = f.count - 1 }) in
      if accepts f.calls then rest else record f { queue = q ∷ qs; calls = f.calls + 1 }

  abbrev max_of : ℕ → ℕ → ℕ
  max_of a b = if ltb b a then a else b

  abbrev enqueue : Report → Fifo → Fifo
  enqueue r f = record f {
    queue = f.queue ++ (r ∷ []);
    count = f.count + 1;
    count_max = max_of f.count_max (f.count + 1);
    calls = f.calls + 1;
  }

  -- `client_write_fifo`; `memory` is whether `malloc` succeeds.
  unfoldable pub client_write_fifo : Bool → Report → Fifo → Fifo
  client_write_fifo memory r f =
      let g = drain f.queue f in
      if accepts g.calls
      then put_record r g
      else if memory
      then enqueue r g
      else record g { calls = g.calls + 1 }

-- How many records of a list satisfy a test.
abbrev pub count_of : (Report → Bool) → List Report → ℕ
count_of p [] = 0
count_of p (r ∷ rs) = (if p r then 1 else 0) + count_of p rs

count_of-append :
    (p : Report → Bool) (xs ys : List Report)
    → count_of p (xs ++ ys) ≡ count_of p xs + count_of p ys
count_of-append p [] ys = omega arith
count_of-append p (x ∷ xs) ys = omega (arith, count_of-append p xs ys)

-- The counter is the length of the queue.
abbrev pub IsCounted : Fifo → Type 0
IsCounted f = f.count ≡ length f.queue

abbrev pub total : (Report → Bool) → Fifo → ℕ
total p f = count_of p f.written + count_of p f.queue

drain-total :
    (accepts : ℕ → Bool) (p : Report → Bool) (qs : List Report) (f : Fifo)
    → f.count ≡ length qs
    → (total p (drain accepts qs f) ≡ count_of p f.written + count_of p qs)
      × IsCounted (drain accepts qs f)
unfolding drain
drain-total accepts p [] f h = (omega arith, h)
drain-total accepts p (q ∷ qs) f h = elim (Bool-cases (accepts f.calls)) [
  | inl e ↦
      let ih =
        drain-total accepts p qs (record (put_record accepts q f) { count = f.count - 1 })
          (omega arith) in
      rw e (omega (arith, ih.0, count_of-append p f.written (q ∷ [])), ih.1)
  | inr e ↦ rw e (refl, h)
]

-- Whatever writes fail, no record is lost or made up: with memory for the queue, the records written
-- and queued are afterwards those of before and the new one, and the counter is the length of the
-- queue.
pub client_write_fifo-total :
    (accepts : ℕ → Bool) (p : Report → Bool) (r : Report) (f : Fifo)
    → IsCounted f
    → (total p (client_write_fifo accepts true r f) ≡ total p f + (if p r then 1 else 0))
      × IsCounted (client_write_fifo accepts true r f)
unfolding client_write_fifo
client_write_fifo-total accepts p r f h =
    let d = drain-total accepts p f.queue f h in
    let g = drain accepts f.queue f in
    elim (Bool-cases (accepts g.calls)) [
      | inl e ↦ rw e (omega (arith, d.0, count_of-append p g.written (r ∷ [])), d.1)
      | inr e ↦ rw e (
        omega (arith, d.0, count_of-append p g.queue (r ∷ [])),
        omega (arith, d.1, length-append g.queue (r ∷ [])),
      )
    ]
