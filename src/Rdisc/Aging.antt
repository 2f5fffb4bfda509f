-- ===== src/Rdisc/Aging.antt =====
-- `age_table` and `discard_table` of rdisc keep the routes in the kernel right.
use baseliner_docker.Base.{
  ℕ, Bool, true, false, not, ◌&&◌, ◌||◌, if◌then◌else◌, ◌==◌, List, [], ◌∷◌, Option, none, some,
  arith, ◌≡◌, refl, Bool-cases, inl, inr, ◌∙◌, ℤ, pos, eqb_ℤ, leb_ℤ, ◌-ℤ◌, if_rule, ap, ◌≤ℤ◌, sym,
}
use mathlib.Core.Path.{subst}
use mathlib.Core.Option.{map-eq-some_iff, some-injective, none-ne-some}
use baseliner_docker.Rdisc.Table.{
  Call, Entry, Host, find_router, max_preference, ineligible, walk, age, age_table, add_best,
  discard, discard_table,
}
use baseliner_docker.Rdisc.Walks.{SameRouter, Unique}
use baseliner_docker.Rdisc.Lookup.{
  max_preference_bound, max_from-acc, max_from-Attained, then_entry, find_router-walk_freed,
}
use baseliner_docker.Rdisc.Sound.{Sound, age-Sound, add_best-Sound}
use baseliner_docker.Rdisc.Flags.{add_best-Marks, added, marked}
use baseliner_docker.Rdisc.Best.{wanted, Good}

-- An entry after some time.
abbrev pub expired : ℕ → Entry → Bool
expired time tp = leb_ℤ (tp.remaining_time -ℤ pos time) (pos 0)

abbrev pub aged : ℕ → Entry → Option Entry
aged time tp =
    if expired time tp
    then none
    else some (record tp { remaining_time = tp.remaining_time -ℤ pos time })

age-aged :
    (best : Bool) (time : ℕ) (max : ℤ) (tp : Entry) (s : List Call × Bool)
    → (age best time max tp s).0 ≡ aged time tp
unfolding age
age-aged best time max tp s = ground arith

aged-SameRouter : (time : ℕ) (tp : Entry) → SameRouter tp (aged time tp)
aged-SameRouter time tp = if_rule (SameRouter tp) (expired time tp) tt refl

-- The table behind the first loop of `age_table`.
abbrev pub left : Bool → ℕ → Host → List Entry
left best time h = (walk (age best time (max_preference h.table)) h.table (h.calls, false)).0

pub find_router-left :
    (best : Bool) (time a : ℕ) (h : Host)
    → Unique h.table
    → find_router a (left best time h) ≡ then_entry (aged time) (find_router a h.table)
find_router-left best time a h u =
    find_router-walk_freed (age best time (max_preference h.table)) (aged time)
      (age-aged best time (max_preference h.table)) (aged-SameRouter time) a h.table
      (h.calls, false) u

-- An entry behind the loop comes from one that has not expired.
aged-some :
    (time : ℕ) (o : Option Entry) (tp : Entry)
    → then_entry (aged time) o ≡ some tp
    → (x : Entry) × (o ≡ some x) × (tp.preference ≡ x.preference) × (tp.in_kernel ≡ x.in_kernel)
aged-some time none tp e = absurd (none-ne-some tp e)
aged-some time (some x) tp e = elim (Bool-cases (expired time x)) [
  | inl c ↦ absurd (none-ne-some tp (rw c at e))
  | inr c ↦
      let k =
        some-injective (record x { remaining_time = x.remaining_time -ℤ pos time }) tp
          (rw c at e) in
      (x, refl, sym (ap (λ (t : Entry). t.preference) k), sym (ap (λ (t : Entry). t.in_kernel) k))
]

age_flag :
    (time : ℕ) (max : ℤ) (x : Entry) (s : List Call × Bool)
    → (age true time max x s).1.1 ≡ false
    → (s.1 ≡ false) × (eqb_ℤ x.preference max ≡ true → expired time x ≡ false)
unfolding age
age_flag time max x s r = elim (Bool-cases (expired time x)) [
  | inl c ↦
      let r' : (s.1 || eqb_ℤ x.preference max) ≡ false = rw c at r in
      (ground (arith, r'), λ e. ground (arith, r', e))
  | inr c ↦ let r' : s.1 ≡ false = rw c at r in (r', λ e. c)
]

-- If the loop does not ask to look for a new maximum, no entry with the old one is gone.
age-recalculate :
    (time : ℕ) (max : ℤ) (es : List Entry) (s : List Call × Bool) (a : ℕ) (tp : Entry)
    → (walk (age true time max) es s).1.1 ≡ false
    → (s.1 ≡ false)
      × (find_router a es ≡ some tp → eqb_ℤ tp.preference max ≡ true → expired time tp ≡ false)
unfolding walk find_router
age-recalculate time max [] s a tp r = (r, λ e. absurd (none-ne-some tp e))
age-recalculate time max (x ∷ rest) s a tp r =
    let (s1, ih) = age-recalculate time max rest (age true time max x s).1 a tp r in
    let (s0, here) = age_flag time max x s s1 in
    (
      s0,
      λ e. elim (Bool-cases (x.router == a)) [
        | inl c ↦
            subst (λ (t : Entry). eqb_ℤ t.preference max ≡ true → expired time t ≡ false)
              (some-injective x tp (rw c at e)) here
        | inr c ↦ ih (rw c at e)
      ],
    )

age-any :
    (time : ℕ) (max : ℤ) (es : List Entry) (s : List Call × Bool)
    → (walk (age false time max) es s).1.1 ≡ s.1
unfolding walk age
age-any time max [] s = refl
age-any time max (x ∷ rest) s = elim (Bool-cases (expired time x)) [
  | inl c ↦ rw c (age-any time max rest _ ∙ ground arith)
  | inr c ↦ rw c (age-any time max rest s)
]

module _ (best : Bool) (time : ℕ) (h : Host) (g : Good best h) where
  abbrev loop : List Entry × (List Call × Bool)
  loop = walk (age best time (max_preference h.table)) h.table (h.calls, false)

  abbrev behind : Host
  behind = record { table = loop.0; calls = loop.1.0 }

  behind-Sound : Sound behind
  behind-Sound = age-Sound best time (max_preference h.table) h g.sound

  -- What is left was in the table, with the same preference and the same flag.
  behind_entry :
      (a : ℕ) (tp : Entry)
      → find_router a behind.table ≡ some tp
      → (tp.preference ≤ℤ max_preference h.table)
        × (tp.in_kernel ≡ wanted best (max_preference h.table) tp)
  behind_entry a tp e =
      let (x, f, p, k) =
        aged-some time (find_router a h.table) tp
          (sym (find_router-left best time a h g.sound.unique) ∙ e) in
      (
        subst (λ p. p ≤ℤ max_preference h.table) (sym p) (max_preference_bound a h.table f),
        k
            ∙ g.flags a f
            ∙ ap (λ p. not (eqb_ℤ p ineligible) && (not best || eqb_ℤ p (max_preference h.table)))
                (sym p),
      )

  max_behind : max_preference behind.table ≤ℤ max_preference h.table
  max_behind = elim (max_from-Attained ineligible behind.table behind-Sound.unique) [
    | inl e ↦ rw e (max_from-acc ineligible h.table)
    | inr (a, tp, e, q) ↦ subst (λ m. m ≤ℤ max_preference h.table) q (behind_entry a tp e).0
  ]

added_flag :
    (old max : ℤ) (tp : Entry)
    → max ≤ℤ old
    → tp.preference ≤ℤ max
    → tp.in_kernel ≡ wanted true old tp
    → added true max tp ≡ wanted true max tp
added_flag old max tp m l k = ground arith

kept_flag :
    (old max : ℤ) (tp : Entry)
    → max ≤ℤ old
    → old ≤ℤ max
    → tp.in_kernel ≡ wanted true old tp
    → tp.in_kernel ≡ wanted true max tp
kept_flag old max tp m l k = ground arith

eqb_refl : (a b : ℤ) → a ≡ b → eqb_ℤ a b ≡ true
eqb_refl a b e = ground (arith, e)

max_kept :
    (time : ℕ) (h : Host) (g : Good true h)
    → (loop true time h g).1.1 ≡ false
    → max_preference h.table ≤ℤ max_preference (behind true time h g).table
max_kept time h g r = elim (max_from-Attained ineligible h.table g.sound.unique) [
  | inl e ↦
      subst (λ m. m ≤ℤ max_preference (behind true time h g).table) (sym e)
        (max_from-acc ineligible (behind true time h g).table)
  | inr (a, x, e, q) ↦
      let old = max_preference h.table in
      let alive =
        (age-recalculate time old h.table (h.calls, false) a x r).1 e
          (eqb_refl x.preference old q) in
      let there = find_router-left true time a h g.sound.unique ∙ rw (e, alive) in
      subst (λ m. m ≤ℤ max_preference (behind true time h g).table) q
        (max_preference_bound a (behind true time h g).table
          {tp = record x { remaining_time = x.remaining_time -ℤ pos time }} there)
]

-- `age_table` keeps the routes in the kernel right.
pub age_table-Good :
    (best : Bool) (time : ℕ) (h : Host) → Good best h → Good best (age_table best time h)
unfolding age_table
age_table-Good false time h g =
    rw (age-any time (max_preference h.table) h.table (h.calls, false)) (record {
      sound = behind-Sound false time h g;
      flags = λ a {tp} e. (behind_entry false time h g a tp e).1 ∙ ground arith;
    })
age_table-Good true time h g = elim (Bool-cases (loop true time h g).1.1) [
  | inr c ↦ rw c (record {
    sound = behind-Sound true time h g;
    flags = λ a {tp} e.
        kept_flag (max_preference h.table) _ tp (max_behind true time h g) (max_kept time h g c)
          (behind_entry true time h g a tp e).1;
  })
  | inl c ↦ rw c (record {
    sound = add_best-Sound _ (behind-Sound true time h g);
    flags = λ a {tp} e.
        let m = add_best-Marks true a (behind true time h g) in
        let (x, f, k) = (map-eq-some_iff (marked _) _).0 (sym m.entry ∙ e) in
        subst
          (λ (t : Entry).
            t.in_kernel ≡ wanted true (max_preference (add_best (behind true time h g)).table) t)
          k
          (rw m.greatest (
            added_flag (max_preference h.table) _ x (max_behind true time h g)
              (max_preference_bound a _ f) (behind_entry true time h g a x f).1));
  })
]

-- `discard_table` leaves no entry.
discard-none : (es : List Entry) (calls : List Call) → (walk discard es calls).0 ≡ []
unfolding walk discard
discard-none [] calls = refl
discard-none (tp ∷ rest) calls = discard-none rest _

pub discard_table-none : (h : Host) → (discard_table h).table ≡ []
unfolding discard_table
discard_table-none h = discard-none h.table h.calls
