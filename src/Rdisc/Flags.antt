-- ===== src/Rdisc/Flags.antt =====
-- What the routes' update of rdisc (`update_routes`) makes of the flag of each entry.
use mathlib.Core.Option
use mathlib.Core.Path.{subst}
use baseliner_docker.Base.{
  ℕ, Bool, true, false, not, ◌&&◌, ◌||◌, if◌then◌else◌, ◌==◌, List, [], ◌∷◌, Option, none, some,
  arith, ◌≡◌, refl, Bool-cases, inl, inr, ◌∙◌, ℤ, eqb_ℤ, ltb_ℤ, ap,
}
use baseliner_docker.Rdisc.Table.{
  Call, Entry, Host, find_router, max_from, max_preference, ineligible, walk, on_router, keep,
  add_if, del_if, has_preference, add_best, add_own, del_own, del_lower, update_routes,
}
use baseliner_docker.Rdisc.Lookup.{find_router-walk, find_router-on_router}

-- An entry with another flag.
abbrev pub marked : (Entry → Bool) → Entry → Entry
marked k tp = record tp { in_kernel = k tp }

add_if_lem :
    (test : Entry → Bool) (tp : Entry) (calls : List Call)
    → (add_if test tp calls).0 ≡ marked (λ t. test t || t.in_kernel) tp
unfolding add_if
add_if_lem test tp calls = ground arith

del_if_lem :
    (test : Entry → Bool) (tp : Entry) (calls : List Call)
    → (del_if test tp calls).0 ≡ marked (λ t. not (test t) && t.in_kernel) tp
unfolding del_if
del_if_lem test tp calls = ground arith

module _ (f : Entry → List Call → Entry × List Call) (k : Entry → Bool)
    (same : (tp : Entry) (calls : List Call) → (f tp calls).0 ≡ marked k tp) where
  max_from-walk :
      (max : ℤ) (es : List Entry) (calls : List Call)
      → max_from max (walk (keep f) es calls).0 ≡ max_from max es
  unfolding walk max_from
  max_from-walk max [] calls = refl
  max_from-walk max (tp ∷ rest) calls =
      ap
        (λ (t : Entry).
          max_from (if ltb_ℤ max t.preference then t.preference else max)
            (walk (keep f) rest (f tp calls).1).0)
        (same tp calls)
      ∙ max_from-walk (if ltb_ℤ max tp.preference then tp.preference else max) rest (f tp calls).1

  max_from-on_router :
      (router : ℕ) (max : ℤ) (es : List Entry) (calls : List Call)
      → max_from max (on_router router f es calls).0 ≡ max_from max es
  unfolding on_router max_from
  max_from-on_router router max [] calls = refl
  max_from-on_router router max (tp ∷ rest) calls = elim (Bool-cases (tp.router == router)) [
    | inl c ↦ rw c (
        ap (λ (t : Entry). max_from (if ltb_ℤ max t.preference then t.preference else max) rest)
          (same tp calls))
    | inr c ↦ rw c (
        max_from-on_router router (if ltb_ℤ max tp.preference then tp.preference else max) rest
          calls)
  ]

map_same :
    (k : Entry → Bool) (o : Option Entry)
    → ((tp : Entry) → k tp ≡ tp.in_kernel)
    → o ≡ Option.map (marked k) o
map_same k none e = refl
map_same k (some tp) e = rw (e tp)

map_eq :
    (k l : Entry → Bool) (o : Option Entry)
    → ((tp : Entry) → k tp ≡ l tp)
    → Option.map (marked k) o ≡ Option.map (marked l) o
map_eq k l none e = refl
map_eq k l (some tp) e = rw (e tp)

-- An operation keeps the greatest preference, and gives the entries of a router new flags.
pub record Marks (h h' : Host) (a : ℕ) (k : Entry → Bool) : Type 0 where
  pub greatest : max_preference h'.table ≡ max_preference h.table
  pub entry : find_router a h'.table ≡ Option.map (marked k) (find_router a h.table)

abbrev pub added : Bool → ℤ → Entry → Bool
added c max tp = (c && not (eqb_ℤ max ineligible) && eqb_ℤ tp.preference max) || tp.in_kernel

pub add_best-Marks :
    (c : Bool) (a : ℕ) (h : Host)
    → Marks h (if c then add_best h else h) a (added c (max_preference h.table))
unfolding add_best
add_best-Marks false a h = record { greatest = refl; entry = map_same _ _ (λ tp. refl) }
add_best-Marks true a h =
    let max = max_preference h.table in
    let k = add_if_lem (has_preference max) in
    elim (Bool-cases (eqb_ℤ max ineligible)) [
      | inl e ↦ rw e (record {
        greatest = refl;
        entry = map_same (added true max) _ (λ tp. ground (arith, e));
      })
      | inr e ↦ rw e (record {
        greatest = max_from-walk _ _ k ineligible h.table h.calls;
        entry =
            find_router-walk (keep (add_if (has_preference max))) _ (λ tp s. ap some (k tp s))
              (λ tp. refl) a h.table h.calls
            ∙ map_eq _ (added true max) _ (λ tp. ground (arith, e));
      })
    ]

abbrev pub deleted : Bool → ℤ → Entry → Bool
deleted c max tp = not (c && ltb_ℤ tp.preference max) && tp.in_kernel

del_lower-Marks :
    (c : Bool) (a : ℕ) (h : Host)
    → Marks h (if c then del_lower h else h) a (deleted c (max_preference h.table))
unfolding del_lower
del_lower-Marks false a h = record { greatest = refl; entry = map_same _ _ (λ tp. refl) }
del_lower-Marks true a h =
    let max = max_preference h.table in
    let k = del_if_lem (λ tp. ltb_ℤ tp.preference max) in
    record {
      greatest = max_from-walk _ _ k ineligible h.table h.calls;
      entry =
          find_router-walk (keep (del_if (λ tp. ltb_ℤ tp.preference max))) _
            (λ tp s. ap some (k tp s)) (λ tp. refl) a h.table h.calls;
    }

-- The same for the entry of one router, if a is that router.
on_router-Marks :
    (f : Entry → List Call → Entry × List Call) (k : Entry → Bool)
    → ((tp : Entry) (calls : List Call) → (f tp calls).0 ≡ marked k tp)
    → (router a : ℕ) (h : Host)
    → let r = on_router router f h.table h.calls in
      Marks h
        (record { table = r.0; calls = r.1 })
        a
        (λ tp. if router == a then k tp else tp.in_kernel)
on_router-Marks f k e router a h = record {
  greatest = max_from-on_router f k e router ineligible h.table h.calls;
  entry =
      find_router-on_router router f (marked k) e (λ tp. refl) a h.table h.calls
      ∙ elim (Bool-cases (router == a)) [
        | inl c ↦ rw c
        | inr c ↦ rw c (map_same (λ tp. tp.in_kernel) _ (λ tp. refl))
      ];
}

abbrev pub own_added : Bool → ℤ → Entry → Bool
own_added best max tp =
    (not best || eqb_ℤ tp.preference max) && not (eqb_ℤ tp.preference ineligible) || tp.in_kernel

abbrev pub own_deleted : Entry → Bool
own_deleted tp = not (eqb_ℤ tp.preference ineligible) && tp.in_kernel

add_own-Marks :
    (best : Bool) (router a : ℕ) (h : Host)
    → Marks h
        (add_own best router h)
        a
        (λ tp. if router == a then own_added best (max_preference h.table) tp else tp.in_kernel)
unfolding add_own
add_own-Marks best router a h = on_router-Marks _ _ (add_if_lem _) router a h

del_own-Marks :
    (router a : ℕ) (h : Host)
    → Marks h (del_own router h) a (λ tp. if router == a then own_deleted tp else tp.in_kernel)
unfolding del_own
del_own-Marks router a h = on_router-Marks _ _ (del_if_lem _) router a h

trans-Marks :
    (h h' h'' : Host) (a : ℕ) (k l : Entry → Bool)
    → Marks h h' a k
    → Marks h' h'' a l
    → Marks h h'' a (λ tp. l (marked k tp))
trans-Marks h h' h'' a k l m n = record {
  greatest = n.greatest ∙ m.greatest;
  entry = n.entry ∙ ap (Option.map (marked l)) m.entry ∙ twice (find_router a h.table);
}
  where
    twice :
        (o : Option Entry)
        → Option.map (marked l) (Option.map (marked k) o)
          ≡ Option.map (marked (λ tp. l (marked k tp))) o
    twice none = refl
    twice (some tp) = refl

-- The flag of an entry behind `update_routes`; `own` says that it is the entry that has changed.
abbrev pub final_flag : Bool → Bool → Bool → Bool → ℤ → Entry → Bool
final_flag best own up down max tp =
    let k0 = if own then own_added best max tp else tp.in_kernel in
    let k1 = if own then not (eqb_ℤ tp.preference ineligible) && k0 else k0 in
    let k2 = (best && down) && not (eqb_ℤ max ineligible) && eqb_ℤ tp.preference max || k1 in
    not ((best && (up || down)) && ltb_ℤ tp.preference max) && k2

pub update_routes-Marks :
    (best : Bool) (router : ℕ) (up down : Bool) (a : ℕ) (h : Host)
    → Marks h
        (update_routes best router up down h)
        a
        (final_flag best (router == a) up down (max_preference h.table))
unfolding update_routes
update_routes-Marks best router up down a h0 =
    let max = max_preference h0.table in
    let h1 = del_own router (add_own best router h0) in
    let h2 = if best && down then add_best h1 else h1 in
    let m1 = trans-Marks _ _ h1 a _ _ (add_own-Marks best router a h0) (del_own-Marks router a _) in
    let m2 =
      subst (λ m. Marks h1 h2 a (added (best && down) m)) m1.greatest
        (add_best-Marks (best && down) a h1) in
    let m12 = trans-Marks h0 h1 h2 a _ _ m1 m2 in
    let m3 =
      subst
        (λ m.
          Marks h2 (if best && (up || down) then del_lower h2 else h2) a
            (deleted (best && (up || down)) m))
        m12.greatest (del_lower-Marks (best && (up || down)) a h2) in
    trans-Marks h0 h2 _ a _ _ m12 m3
