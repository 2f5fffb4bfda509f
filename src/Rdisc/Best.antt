-- ===== src/Rdisc/Best.antt =====
-- The routes in the kernel are those of the best routers in rdisc's table.
use baseliner_docker.Base.{
  ℕ, Bool, true, false, not, ◌&&◌, ◌||◌, ◌==◌, some, arith, ◌≡◌, refl, Bool-cases, inl, inr, ◌∙◌, ℤ,
  eqb_ℤ, ==_iff, sym, ◌≤ℤ◌,
}
use mathlib.Core.Path.{subst}
use mathlib.Core.Option.{map-eq-some_iff}
use baseliner_docker.Rdisc.Table.{
  Entry, Host, find_router, max_preference, ineligible, update_routes,
}
use baseliner_docker.Rdisc.Sound.{Sound, update_routes-Sound}
use baseliner_docker.Rdisc.Lookup.{max_preference_bound}
use baseliner_docker.Rdisc.Flags.{final_flag, update_routes-Marks, marked}

-- Which entries should have a route, if the greatest preference is `max`: those that are eligible, or
-- the best of them.
abbrev pub wanted : Bool → ℤ → Entry → Bool
wanted best max tp = not (eqb_ℤ tp.preference ineligible) && (not best || eqb_ℤ tp.preference max)

other_flag :
    (up down : Bool) (old max : ℤ) (tp : Entry)
    → tp.preference ≤ℤ old
    → tp.preference ≤ℤ max
    → (down ≡ false → old ≤ℤ max)
    → (up ≡ false → down ≡ false → max ≤ℤ old)
    → tp.in_kernel ≡ wanted true old tp
    → final_flag true false up down max tp ≡ wanted true max tp
other_flag up down old max tp l m d u k = ground (arith, d, u)

own_flag :
    (up down : Bool) (max : ℤ) (tp : Entry)
    → tp.preference ≤ℤ max
    → (up ≡ false → down ≡ false → tp.in_kernel ≡ true → max ≤ℤ tp.preference)
    → final_flag true true up down max tp ≡ wanted true max tp
own_flag up down max tp l k = ground (arith, k)

all_flag :
    (own up down : Bool) (old max : ℤ) (tp : Entry)
    → ((own ≡ false) → tp.in_kernel ≡ wanted false old tp)
    → final_flag false own up down max tp ≡ wanted false max tp
all_flag own up down old max tp k = ground (arith, k)

-- Each router with a wanted entry has its route, and no other route is there.
pub record Good (best : Bool) (h : Host) : Type 0 where
  pub sound : Sound h
  pub flags :
      (a : ℕ) {tp : Entry}
      → find_router a h.table ≡ some tp
      → tp.in_kernel ≡ wanted best (max_preference h.table) tp

-- What `update_routes` asks of the host: `old` was the greatest preference, and the flags were right
-- for it but at the router that has changed.
pub record Changed (best : Bool) (router : ℕ) (up down : Bool) (old : ℤ) (h : Host) : Type 0 where
  pub sound : Sound h
  pub others :
      (a : ℕ) {tp : Entry}
      → (router == a) ≡ false
      → find_router a h.table ≡ some tp
      → (tp.preference ≤ℤ old) × (tp.in_kernel ≡ wanted best old tp)
  pub own :
      {tp : Entry}
      → find_router router h.table ≡ some tp
      → best ≡ true
      → up ≡ false
      → down ≡ false
      → tp.in_kernel ≡ true
      → max_preference h.table ≤ℤ tp.preference
  pub lower : down ≡ false → old ≤ℤ max_preference h.table
  pub upper : up ≡ false → down ≡ false → max_preference h.table ≤ℤ old

new_flag :
    (best : Bool) (router : ℕ) (up down : Bool) (old : ℤ) (h : Host) (a : ℕ) (tp : Entry)
    → Changed best router up down old h
    → find_router a h.table ≡ some tp
    → final_flag best (router == a) up down (max_preference h.table) tp
      ≡ wanted best (max_preference h.table) tp
new_flag false router up down old h a tp c e =
    all_flag (router == a) up down old (max_preference h.table) tp (λ o. (c.others a o e).1)
new_flag true router up down old h a tp c e = elim (Bool-cases (router == a)) [
  | inl o ↦
      let e' : find_router router h.table ≡ some tp = rw ((==_iff router a).0 o) e in
      rw o (
        own_flag up down (max_preference h.table) tp (max_preference_bound a h.table e)
          (c.own e' refl))
  | inr o ↦
      let (l, k) = c.others a o e in
      rw o (
        other_flag up down old (max_preference h.table) tp l (max_preference_bound a h.table e)
          c.lower c.upper k)
]

pub update_routes-Good :
    (best : Bool) (router : ℕ) (up down : Bool) (old : ℤ) (h : Host)
    → Changed best router up down old h
    → Good best (update_routes best router up down h)
update_routes-Good best router up down old h c = record {
  sound = update_routes-Sound best router up down h c.sound;
  flags = λ a {tp} e.
      let m = update_routes-Marks best router up down a h in
      let (x, f, g) = (map-eq-some_iff (marked _) (find_router a h.table)).0 (sym m.entry ∙ e) in
      subst
        (λ (t : Entry).
          t.in_kernel ≡ wanted best (max_preference (update_routes best router up down h).table) t)
        g (rw m.greatest (new_flag best router up down old h a x c f));
}
