-- ===== src/Rdisc/Spec.antt =====
-- The table of rdisc as a map from routers to their preference and the time that they have left.
use mathlib.Core.Option
use mathlib.Core.Option.{none-ne-some}
use baseliner_docker.Base.{
  ==_iff, ℕ, Bool, true, false, if◌then◌else◌, ◌==◌, ltb, leb_ℤ, List, [], ◌∷◌, Option, none, some,
  ◌≡◌, refl, Bool-cases, inl, inr, ◌∙◌, ℤ, pos, ◌-ℤ◌, ap,
}
use baseliner_docker.Rdisc.Table.{
  Host, Entry, find_router, ineligible, age_table, record_at, record_router,
}
use mathlib.Core.Path.{fun_ext}
use baseliner_docker.Rdisc.Lookup.{then_entry}
use baseliner_docker.Rdisc.Flags.{Marks, marked, update_routes-Marks, add_best-Marks}
use baseliner_docker.Rdisc.Best.{Good}
use baseliner_docker.Rdisc.Routes.{
  Differ, rewritten, rewritten-Differ, new_entry, extended, extended-Differ, record_router-Good,
}
use baseliner_docker.Rdisc.Aging.{aged, find_router-left, age_table-Good}

abbrev Lease : Type 0
Lease = ℤ × ℤ

abbrev lease : Entry → Lease
lease tp = (tp.preference, tp.remaining_time)

-- The map of a host.
abbrev pub view : Host → ℕ → Option Lease
view h a = Option.map lease (find_router a h.table)

-- What an advertisement and time do to the map.
abbrev entered : Bool → Lease → Option Lease → Option Lease
entered room new (some old) = some new
entered room new none = if room then some new else none

abbrev pub renew : Bool → ℕ → ℤ → ℕ → (ℕ → Option Lease) → ℕ → Option Lease
renew room router preference ttl v a =
    if router == a
    then entered room (if ltb ttl 4 then ineligible else preference, pos ttl) (v a)
    else v a

abbrev pub lapse : ℕ → (ℕ → Option Lease) → ℕ → Option Lease
lapse time v a = elim (v a) [
  | none ↦ none
  | some l ↦ if leb_ℤ (l.1 -ℤ pos time) (pos 0) then none else some (l.0, l.1 -ℤ pos time)
]

Marks-view : (h h' : Host) (a : ℕ) (k : Entry → Bool) → Marks h h' a k → view h' a ≡ view h a
Marks-view h h' a k m = ap (Option.map lease) m.entry ∙ same (find_router a h.table)
  where
    same : (o : Option Entry) → Option.map lease (Option.map (marked k) o) ≡ Option.map lease o
    same none = refl
    same (some tp) = refl

Differ-view :
    (h h' : Host) (router : ℕ) (x : Entry) (a : ℕ)
    → Differ h.table h'.table router x
    → view h' a ≡ (if router == a then some (lease x) else view h a)
Differ-view h h' router x a d = elim (Bool-cases (router == a)) [
  | inl o ↦ rw (o, ← (==_iff router a).0 o) (ap (Option.map lease) d.found)
  | inr o ↦ rw o (ap (Option.map lease) (d.same a o))
]

record_at-view :
    (best room : Bool) (router : ℕ) (preference : ℤ) (ttl : ℕ) (h : Host) (o : Option Entry) (a : ℕ)
    → Good best h
    → find_router router h.table ≡ o
    → view (record_at best room router preference ttl h o) a
      ≡ (if router == a then entered room (preference, pos ttl) (Option.map lease o) else view h a)
unfolding record_at new_entry
record_at-view best room router preference ttl h (some tp) a g e =
    Marks-view _ _ a _ (update_routes-Marks best router _ _ a (rewritten router preference ttl h))
    ∙ Differ-view h (rewritten router preference ttl h) router _ a
        (rewritten-Differ router preference ttl h tp e)
record_at-view best true router preference ttl h none a g e =
    Marks-view _ _ a _
      (update_routes-Marks best router _ _ a (extended best router preference ttl h g))
    ∙ Differ-view h (extended best router preference ttl h g) router _ a
        (extended-Differ best router preference ttl h g)
record_at-view best false router preference ttl h none a g e = elim (Bool-cases (router == a)) [
  | inl o ↦ rw (o, ← (==_iff router a).0 o) (ap (Option.map lease) e)
  | inr o ↦ rw o
]

record_router-view :
    (best room : Bool) (router : ℕ) (preference : ℤ) (ttl : ℕ) (h : Host) (a : ℕ)
    → Good best h
    → view (record_router best room router preference ttl h) a
      ≡ renew room router preference ttl (view h) a
unfolding record_router
record_router-view best room router preference ttl h a g =
    record_at-view best room router _ ttl h (find_router router h.table) a g refl
    ∙ elim (Bool-cases (router == a)) [ inl o ↦ rw (o, ← (==_iff router a).0 o) | inr o ↦ rw o ]

age_table-view :
    (best : Bool) (time : ℕ) (h : Host) (a : ℕ)
    → Good best h
    → view (age_table best time h) a ≡ lapse time (view h) a
unfolding age_table
age_table-view best time h a g =
    Marks-view _ _ a _ (add_best-Marks _ a _)
    ∙ ap (Option.map lease) (find_router-left best time a h g.sound.unique)
    ∙ same (find_router a h.table)
  where
    same :
        (o : Option Entry)
        → Option.map lease (then_entry (aged time) o) ≡ (elim (Option.map lease o) [
          | none ↦ none
          | some l ↦ if leb_ℤ (l.1 -ℤ pos time) (pos 0) then none else some (l.0, l.1 -ℤ pos time)
        ])
    same none = refl
    same (some tp) = elim (Bool-cases (leb_ℤ (tp.remaining_time -ℤ pos time) (pos 0))) [
      | inl c ↦ rw c
      | inr c ↦ rw c
    ]

-- The calls of `record_router` and `age_table`.
pub data Change : Type 0 where
  advertised : Bool → ℕ → ℤ → ℕ → Change
  passed : ℕ → Change

abbrev pub changed : Bool → List Change → Host → Host
changed best [] h = h
changed best (advertised room router preference ttl ∷ cs) h =
    changed best cs (record_router best room router preference ttl h)
changed best (passed time ∷ cs) h = changed best cs (age_table best time h)

-- The same on maps.
abbrev pub specified : List Change → (ℕ → Option Lease) → ℕ → Option Lease
specified [] v = v
specified (advertised room router preference ttl ∷ cs) v =
    specified cs (renew room router preference ttl v)
specified (passed time ∷ cs) v = specified cs (lapse time v)

-- Any calls of `record_router` and `age_table` on a good host do to its table what they do to a map,
-- in which a router has the preference and the lifetime last advertised, less the time since, until
-- that is used up.
pub view-changed :
    (best : Bool) (cs : List Change) (h : Host)
    → Good best h
    → view (changed best cs h) ≡ specified cs (view h)
view-changed best [] h g = refl
view-changed best (advertised room router preference ttl ∷ cs) h g =
    view-changed best cs _ (record_router-Good best room router preference ttl h g)
    ∙ ap (specified cs) (fun_ext (λ a. record_router-view best room router preference ttl h a g))
view-changed best (passed time ∷ cs) h g =
    view-changed best cs _ (age_table-Good best time h g)
    ∙ ap (specified cs) (fun_ext (λ a. age_table-view best time h a g))
