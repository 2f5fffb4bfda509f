-- ===== src/Rdisc/Table.antt =====
-- rdisc.c: the table of routers (`find_router`, `max_preference`, `age_table`, `discard_table`,
-- `record_router`). The kernel is the list of the ioctls that were asked for, the newest first, whether
-- they succeed or not. `in_kernel` and the counters of changes are 0 or not.
use baseliner_docker.Base.{
  ℕ, Bool, true, false, not, ◌&&◌, ◌||◌, if◌then◌else◌, ◌==◌, ltb, List, [], ◌∷◌, Option, none,
  some, ℤ, pos, negsuc, ◌-ℤ◌, ltb_ℤ, leb_ℤ, eqb_ℤ, ◌-◌, ◌^◌,
}

-- `INELIGIBLE_PREF`, the smallest int.
abbrev pub ineligible : ℤ
ineligible = negsuc (2 ^ 31 - 1)

pub data Call : Type 0 where
  siocaddrt siocdelrt : ℕ → Call

-- `struct table`, without the link.
pub record Entry : Type 0 where
  pub router : ℕ
  pub preference : ℤ
  pub remaining_time : ℤ
  pub in_kernel : Bool

pub record Host : Type 0 where
  pub table : List Entry
  pub calls : List Call

unfoldable pub find_router : ℕ → List Entry → Option Entry
find_router addr [] = none
find_router addr (tp ∷ rest) = if tp.router == addr then some tp else find_router addr rest

-- The loop of `max_preference`.
unfoldable pub max_from : ℤ → List Entry → ℤ
max_from max [] = max
max_from max (tp ∷ rest) = max_from (if ltb_ℤ max tp.preference then tp.preference else max) rest

abbrev pub max_preference : List Entry → ℤ
max_preference = max_from ineligible

-- A loop over the table: an entry becomes another one, or is freed.
unfoldable pub walk {ℓ} :
    {S : Type ℓ} → (Entry → S → Option Entry × S) → List Entry → S → List Entry × S
walk f [] s = ([], s)
walk f (tp ∷ rest) s =
    let (o, s') = f tp s in
    let (rest', s'') = walk f rest s' in (elim o [ some tp' ↦ tp' ∷ rest' | none ↦ rest' ], s'')

-- What is done to the entry of a router by its pointer.
unfoldable pub on_router :
    ℕ → (Entry → List Call → Entry × List Call) → List Entry → List Call → List Entry × List Call
on_router router f [] calls = ([], calls)
on_router router f (tp ∷ rest) calls =
    let here = f tp calls in
    let other = on_router router f rest calls in
    if tp.router == router then (here.0 ∷ rest, here.1) else (tp ∷ other.0, other.1)

abbrev pub keep :
    (Entry → List Call → Entry × List Call) → Entry → List Call → Option Entry × List Call
keep f tp calls = let (tp', calls') = f tp calls in (some tp', calls')

-- `add_route` and `in_kernel++`, if the test holds and the route is not there.
unfoldable pub add_if : (Entry → Bool) → Entry → List Call → Entry × List Call
add_if test tp calls =
    if test tp && not tp.in_kernel
    then (record tp { in_kernel = true }, siocaddrt tp.router ∷ calls)
    else (tp, calls)

-- `del_route` and `in_kernel = 0`, if the test holds and the route is there.
unfoldable pub del_if : (Entry → Bool) → Entry → List Call → Entry × List Call
del_if test tp calls =
    if test tp && tp.in_kernel
    then (record tp { in_kernel = false }, siocdelrt tp.router ∷ calls)
    else (tp, calls)

abbrev pub has_preference : ℤ → Entry → Bool
has_preference max tp = eqb_ℤ tp.preference max

-- The routes of the entries that have the greatest preference, unless that is ineligible.
unfoldable pub add_best : Host → Host
add_best h =
    let max = max_preference h.table in
    let (table, calls) = walk (keep (add_if (has_preference max))) h.table h.calls in
    if eqb_ℤ max ineligible then h else record { table = table; calls = calls }

-- A turn of the first loop of `age_table`; the flag is `recalculate_max`.
unfoldable pub age : Bool → ℕ → ℤ → Entry → List Call × Bool → Option Entry × (List Call × Bool)
age best_preference time max tp s =
    let remaining_time = tp.remaining_time -ℤ pos time in
    if leb_ℤ remaining_time (pos 0)
    then (
      none,
      (
        if tp.in_kernel then siocdelrt tp.router ∷ s.0 else s.0,
        s.1 || best_preference && eqb_ℤ tp.preference max,
      ),
    )
    else (some (record tp { remaining_time = remaining_time }), s)

unfoldable pub age_table : Bool → ℕ → Host → Host
age_table best_preference time h =
    let max = max_preference h.table in
    let (table, (calls, recalculate_max)) =
      walk (age best_preference time max) h.table (h.calls, false) in
    let h' : Host = record { table = table; calls = calls } in
    if recalculate_max then add_best h' else h'

unfoldable pub discard : Entry → List Call → Option Entry × List Call
discard tp calls = (none, if tp.in_kernel then siocdelrt tp.router ∷ calls else calls)

unfoldable pub discard_table : Host → Host
discard_table h =
    let (table, calls) = walk discard h.table h.calls in record { table = table; calls = calls }

abbrev pub record_tp : ℤ → ℕ → Entry → List Call → Entry × List Call
record_tp preference ttl tp calls =
    (record tp { preference = preference; remaining_time = pos ttl }, calls)

-- Behind the change of the entry of `router`: its own route, and then those of the others.
unfoldable pub add_own : Bool → ℕ → Host → Host
add_own best_preference router h =
    let max = max_preference h.table in
    let (table, calls) =
      on_router router
        (add_if (λ tp.
          (not best_preference || eqb_ℤ tp.preference max) && not (eqb_ℤ tp.preference ineligible)))
        h.table h.calls in
    record { table = table; calls = calls }

unfoldable pub del_own : ℕ → Host → Host
del_own router h =
    let (table, calls) =
      on_router router (del_if (λ tp. eqb_ℤ tp.preference ineligible)) h.table h.calls in
    record { table = table; calls = calls }

unfoldable pub del_lower : Host → Host
del_lower h =
    let new_max = max_preference h.table in
    let (table, calls) = walk (keep (del_if (λ tp. ltb_ℤ tp.preference new_max))) h.table h.calls in
    record { table = table; calls = calls }

unfoldable pub update_routes : Bool → ℕ → Bool → Bool → Host → Host
update_routes best_preference router changed_up changed_down h0 =
    let h1 = del_own router (add_own best_preference router h0) in
    let h2 = if best_preference && changed_down then add_best h1 else h1 in
    if best_preference && (changed_up || changed_down) then del_lower h2 else h2

-- Behind `find_router` in `record_router`. `room` says whether malloc finds memory for a new entry.
unfoldable pub record_at : Bool → Bool → ℕ → ℤ → ℕ → Host → Option Entry → Host
record_at best_preference room router preference ttl h (some tp) =
    let old_max = max_preference h.table in
    let changed_down = ltb_ℤ preference tp.preference && eqb_ℤ tp.preference old_max in
    let changed_up = not changed_down && ltb_ℤ tp.preference preference in
    let (table, calls) = on_router router (record_tp preference ttl) h.table h.calls in
    update_routes best_preference router changed_up changed_down
      (record { table = table; calls = calls })
record_at best_preference room router preference ttl h none =
    let new : Entry = record {
      router = router;
      preference = preference;
      remaining_time = pos ttl;
      in_kernel = false;
    } in
    if room
    then update_routes best_preference router (ltb_ℤ (max_preference h.table) preference) false
        (record { table = new ∷ h.table; calls = h.calls })
    else h

unfoldable pub record_router : Bool → Bool → ℕ → ℤ → ℕ → Host → Host
record_router best_preference room router preference ttl h =
    record_at best_preference room router (if ltb ttl 4 then ineligible else preference) ttl h
      (find_router router h.table)
