-- ===== src/Rdisc/Routes.antt =====
-- `record_router` and `age_table` of rdisc keep the routes in the kernel right.
use mathlib.Core.Path.{subst}
use mathlib.Core.Option.{some-injective, none-ne-some}
use baseliner_docker.Base.{
  ℕ, Bool, true, false, not, ◌&&◌, ◌==◌, List, ◌∷◌, Option, none, some, arith, ◌≡◌, refl,
  Bool-cases, inl, inr, ◌∙◌, ℤ, pos, eqb_ℤ, ltb_ℤ, if_rule, ap, ◌≤ℤ◌, sym, ◌⊎◌, ==_iff,
}
use baseliner_docker.Rdisc.Table.{
  record_at, Entry, Host, find_router, max_preference, ineligible, record_tp, on_router,
  record_router,
}
use baseliner_docker.Rdisc.Walks.{Unique, flag-absent}
use baseliner_docker.Rdisc.Lookup.{
  find_router-none, max_preference_bound, max_from-acc, max_from-Attained, find_router-on_router,
}
use baseliner_docker.Rdisc.Sound.{Sound, record_tp-Sound}
use baseliner_docker.Rdisc.Best.{wanted, Good, Changed, update_routes-Good}

-- Two tables that differ at one router alone.
pub record Differ (old new : List Entry) (router : ℕ) (x : Entry) : Type 0 where
  pub found : find_router router new ≡ some x
  pub same : (a : ℕ) → (router == a) ≡ false → find_router a new ≡ find_router a old

-- The greatest preference is not above the one before, or it is the new one.
max_up :
    (old new : List Entry) (router : ℕ) (x : Entry)
    → Unique new
    → Differ old new router x
    → (max_preference new ≤ℤ max_preference old) ⊎ (max_preference new ≡ x.preference)
max_up old new router x u d = elim (max_from-Attained ineligible new u) [
  | inl e ↦ inl (rw e (max_from-acc ineligible old))
  | inr (a, tp, e, q) ↦ elim (Bool-cases (router == a)) [
    | inl o ↦
        let e' : find_router router new ≡ some tp = rw ((==_iff router a).0 o) e in
        inr (sym q ∙ ap (λ (t : Entry). t.preference) (some-injective tp x (sym e' ∙ d.found)))
    | inr o ↦
        inl (
          subst (λ m. m ≤ℤ max_preference old) q
            (max_preference_bound a old (sym (d.same a o) ∙ e)))
  ]
]

-- The greatest preference is not below the one before, or that was the one that has changed.
max_down :
    (old new : List Entry) (router : ℕ) (x : Entry)
    → Unique old
    → Differ old new router x
    → (max_preference old ≤ℤ max_preference new)
      ⊎ ((tp : Entry) × (find_router router old ≡ some tp) × (max_preference old ≡ tp.preference))
max_down old new router x u d = elim (max_from-Attained ineligible old u) [
  | inl e ↦ inl (rw e (max_from-acc ineligible new))
  | inr (a, tp, e, q) ↦ elim (Bool-cases (router == a)) [
    | inl o ↦ inr (tp, rw ((==_iff router a).0 o) e, sym q)
    | inr o ↦
        inl (subst (λ m. m ≤ℤ max_preference new) q (max_preference_bound a new (d.same a o ∙ e)))
  ]
]

abbrev pub recorded : ℤ → ℕ → Entry → Entry
recorded preference ttl tp = record tp { preference = preference; remaining_time = pos ttl }

abbrev pub rewritten : ℕ → ℤ → ℕ → Host → Host
rewritten router preference ttl h =
    let r = on_router router (record_tp preference ttl) h.table h.calls in
    record { table = r.0; calls = r.1 }

pub rewritten-Differ :
    (router : ℕ) (preference : ℤ) (ttl : ℕ) (h : Host) (tp : Entry)
    → find_router router h.table ≡ some tp
    → Differ h.table (rewritten router preference ttl h).table router (recorded preference ttl tp)
rewritten-Differ router preference ttl h tp e =
    let look = λ (a : ℕ).
      find_router-on_router router (record_tp preference ttl) (recorded preference ttl)
        (λ t c. refl) (λ t. refl) a h.table h.calls in
    record {
      found = look router ∙ rw (e, (==_iff router router).1 refl);
      same = λ a o. look a ∙ rw o;
    }

-- The tests of `record_router` for a router in the table.
abbrev down_test : ℤ → ℤ → ℤ → Bool
down_test preference before old = ltb_ℤ preference before && eqb_ℤ before old

abbrev up_test : ℤ → ℤ → ℤ → Bool
up_test preference before old = not (down_test preference before old) && ltb_ℤ before preference

keeps_up :
    (np op old max : ℤ)
    → (max ≤ℤ old) ⊎ (max ≡ np)
    → up_test np op old ≡ false
    → down_test np op old ≡ false
    → eqb_ℤ op old ≡ true
    → max ≤ℤ np
keeps_up np op old max m u w b = ground (arith, m, u, w, b)

marked_best :
    (best : Bool) (tp : Entry) (old : ℤ)
    → best ≡ true
    → wanted best old tp ≡ true
    → eqb_ℤ tp.preference old ≡ true
marked_best best tp old b w = ground (arith, b, w)

raised : (np op old max : ℤ) → down_test np op old ≡ false → old ≡ op → np ≤ℤ max → old ≤ℤ max
raised np op old max w q l = ground (arith, w, q)

not_raised :
    (np op old max : ℤ)
    → up_test np op old ≡ false
    → down_test np op old ≡ false
    → op ≤ℤ old
    → max ≡ np
    → max ≤ℤ old
not_raised np op old max u w l q = ground (arith, u, w, q)

not_above : (np old max : ℤ) → ltb_ℤ old np ≡ false → max ≡ np → max ≤ℤ old
not_above np old max u q = ground (arith, u, q)

module _ (best : Bool) (router : ℕ) (preference : ℤ) (ttl : ℕ) (h : Host) (g : Good best h) where
  known-Changed :
      (tp : Entry)
      → find_router router h.table ≡ some tp
      → let old = max_preference h.table in
        Changed best router
          (up_test preference tp.preference old)
          (down_test preference tp.preference old)
          old
          (rewritten router preference ttl h)
  known-Changed tp e =
      let old = max_preference h.table in
      let h0 = rewritten router preference ttl h in
      let s = record_tp-Sound preference ttl router h g.sound in
      let d = rewritten-Differ router preference ttl h tp e in
      let np = max_preference_bound router h0.table d.found in
      let op = max_preference_bound router h.table e in
      let up = max_up h.table h0.table router _ s.unique d in
      record {
        sound = s;
        others = λ a o f.
            let f' = sym (d.same a o) ∙ f in (max_preference_bound a h.table f', g.flags a f');
        own = λ {tp = t} f b u w k.
            let same = some-injective (recorded preference ttl tp) t (sym d.found ∙ f) in
            subst (λ (x : Entry). max_preference h0.table ≤ℤ x.preference) same
              (keeps_up preference tp.preference old (max_preference h0.table) up u w (
                marked_best best tp old b
                  (sym (g.flags router e) ∙ ap (λ (x : Entry). x.in_kernel) same ∙ k)));
        lower = λ w. elim (max_down h.table h0.table router _ g.sound.unique d) [
          | inl l ↦ l
          | inr (t, f, q) ↦
              let same = some-injective tp t (sym e ∙ f) in
              let q' = q ∙ sym (ap (λ (x : Entry). x.preference) same) in
              raised preference tp.preference old (max_preference h0.table) w q' np
        ];
        upper = λ u w. elim up [
          | inl l ↦ l
          | inr q ↦ not_raised preference tp.preference old (max_preference h0.table) u w op q
        ];
      }

  unfoldable pub new_entry : Entry
  new_entry = record {
    router = router;
    preference = preference;
    remaining_time = pos ttl;
    in_kernel = false;
  }

  abbrev pub extended : Host
  extended = record { table = new_entry ∷ h.table; calls = h.calls }

  extended-Sound : find_router router h.table ≡ none → Sound extended
  unfolding new_entry
  extended-Sound e = record {
    unique = (find_router-none router h.table e, g.sound.unique);
    routes = λ a.
        ground (arith, g.sound.routes a, flag-absent a h.table, find_router-none router h.table e);
    alternates = g.sound.alternates;
  }

  pub extended-Differ : Differ h.table extended.table router new_entry
  unfolding new_entry find_router
  extended-Differ = record { found = rw ((==_iff router router).1 refl); same = λ a o. rw o }

  unknown-Changed :
      find_router router h.table ≡ none
      → Changed best router
          (ltb_ℤ (max_preference h.table) preference)
          false
          (max_preference h.table)
          extended
  unfolding new_entry
  unknown-Changed e =
      let s = extended-Sound e in
      let d = extended-Differ in
      let up = max_up h.table extended.table router new_entry s.unique d in
      record {
        sound = s;
        others = λ a o f.
            let f' = sym (d.same a o) ∙ f in (max_preference_bound a h.table f', g.flags a f');
        own = λ {tp = t} f b u w k.
            let same = some-injective new_entry t (sym d.found ∙ f) in
            absurd (ground (arith, ap (λ (x : Entry). x.in_kernel) same ∙ k));
        lower = λ w. elim (max_down h.table extended.table router new_entry g.sound.unique d) [
          | inl l ↦ l
          | inr (t, f, q) ↦ absurd (none-ne-some t (sym e ∙ f))
        ];
        upper = λ u w. elim up [
          | inl l ↦ l
          | inr q ↦
              not_above preference (max_preference h.table) (max_preference extended.table) u q
        ];
      }

record_at-Good :
    (best room : Bool) (router : ℕ) (preference : ℤ) (ttl : ℕ) (h : Host) (o : Option Entry)
    → Good best h
    → find_router router h.table ≡ o
    → Good best (record_at best room router preference ttl h o)
unfolding record_at new_entry
record_at-Good best room router preference ttl h (some tp) g e =
    update_routes-Good best router _ _ _ _ (known-Changed best router preference ttl h g tp e)
record_at-Good best room router preference ttl h none g e =
    if_rule (Good best) room
      (update_routes-Good best router _ _ _ _ (unknown-Changed best router preference ttl h g e)) g

-- `record_router` keeps the routes in the kernel right.
pub record_router-Good :
    (best room : Bool) (router : ℕ) (preference : ℤ) (ttl : ℕ) (h : Host)
    → Good best h
    → Good best (record_router best room router preference ttl h)
unfolding record_router
record_router-Good best room router preference ttl h g =
    record_at-Good best room router _ ttl h (find_router router h.table) g refl
