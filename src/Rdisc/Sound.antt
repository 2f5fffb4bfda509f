-- ===== src/Rdisc/Sound.antt =====
-- The flags of rdisc's table tell which routes its calls have put into the kernel.
use baseliner_docker.Base.{
  ℕ, Bool, false, ◌&&◌, ◌||◌, List, some, arith, ◌≡◌, refl, ℤ, eqb_ℤ, if_rule,
}
use baseliner_docker.Rdisc.Table.{
  Call, Entry, Host, max_preference, ineligible, walk, on_router, keep, age, discard, add_best,
  discard_table, record_tp, add_own, del_own, del_lower, update_routes,
}
use baseliner_docker.Rdisc.Walks.{
  installed, Alternates, flag, Unique, Walked, flag-absent, walk-Walked, Turn,
}
use baseliner_docker.Rdisc.Kernel.{
  on_router-Walked, add_if-Turn, del_if-Turn, age-Turn, discard-Turn, same-Turn,
}

-- Each router stands once in the table, its flag says whether its route is in the kernel, other routes
-- are not there, and no call was in vain.
pub record Sound (h : Host) : Type 0 where
  pub unique : Unique h.table
  pub routes : (a : ℕ) → installed h.calls a ≡ flag a h.table
  pub alternates : Alternates h.calls

Walked-Sound :
    (h : Host) (es : List Entry) (calls : List Call)
    → Sound h
    → Walked h.table h.calls es calls
    → Sound (record { table = es; calls = calls })
Walked-Sound h es calls s w = record {
  unique = w.unique;
  routes = λ a.
      ground (arith, w.routes a, s.routes a, w.routers a, flag-absent a h.table, flag-absent a es);
  alternates = w.alternates s.alternates;
}

module _ (f : Entry → List Call → Entry × List Call)
    (turn : (tp : Entry) (calls : List Call)
      → installed calls tp.router ≡ tp.in_kernel
      → Turn tp calls (some (f tp calls).0) (f tp calls).1)
    (h : Host) (s : Sound h) where
  walk-Sound : let r = walk (keep f) h.table h.calls in Sound (record { table = r.0; calls = r.1 })
  walk-Sound =
      Walked-Sound h _ _ s
        (walk-Walked (λ c. c) (keep f) turn h.table h.calls s.unique (λ a _. s.routes a))

  on_router-Sound :
      (router : ℕ)
      → let r = on_router router f h.table h.calls in Sound (record { table = r.0; calls = r.1 })
  on_router-Sound router =
      Walked-Sound h _ _ s
        (on_router-Walked router f turn h.table h.calls s.unique (λ a _. s.routes a))

pub add_best-Sound : (h : Host) → Sound h → Sound (add_best h)
unfolding add_best
add_best-Sound h s =
    if_rule Sound (eqb_ℤ (max_preference h.table) ineligible) s (walk-Sound _ (add_if-Turn _) h s)

del_lower-Sound : (h : Host) → Sound h → Sound (del_lower h)
unfolding del_lower
del_lower-Sound h s = walk-Sound _ (del_if-Turn _) h s

add_own-Sound : (best : Bool) (router : ℕ) (h : Host) → Sound h → Sound (add_own best router h)
unfolding add_own
add_own-Sound best router h s = on_router-Sound _ (add_if-Turn _) h s router

del_own-Sound : (router : ℕ) (h : Host) → Sound h → Sound (del_own router h)
unfolding del_own
del_own-Sound router h s = on_router-Sound _ (del_if-Turn _) h s router

pub update_routes-Sound :
    (best : Bool) (router : ℕ) (up down : Bool) (h : Host)
    → Sound h
    → Sound (update_routes best router up down h)
unfolding update_routes
update_routes-Sound best router up down h s =
    let s1 = del_own-Sound router _ (add_own-Sound best router h s) in
    let s2 = if_rule Sound (best && down) (add_best-Sound _ s1) s1 in
    if_rule Sound (best && (up || down)) (del_lower-Sound _ s2) s2

pub record_tp-Sound :
    (preference : ℤ) (ttl router : ℕ) (h : Host)
    → Sound h
    → let r = on_router router (record_tp preference ttl) h.table h.calls in
      Sound (record { table = r.0; calls = r.1 })
record_tp-Sound preference ttl router h s =
    on_router-Sound (record_tp preference ttl) (λ tp calls e. same-Turn tp _ calls e refl refl) h s
      router

pub age-Sound :
    (best : Bool) (time : ℕ) (max : ℤ) (h : Host)
    → Sound h
    → let r = walk (age best time max) h.table (h.calls, false) in
      Sound (record { table = r.0; calls = r.1.0 })
age-Sound best time max h s = Walked-Sound h _ _ s (
    walk-Walked (λ c. c.0) (age best time max) (age-Turn best time max) h.table (h.calls, false)
      s.unique (λ a _. s.routes a))

pub discard_table-Sound : (h : Host) → Sound h → Sound (discard_table h)
unfolding discard_table
discard_table-Sound h s =
    Walked-Sound h _ _ s
      (walk-Walked (λ c. c) discard discard-Turn h.table h.calls s.unique (λ a _. s.routes a))
