-- ===== src/Rdisc/Lookup.antt =====
-- What the loops over the table of rdisc do to the entry of a router, and the greatest preference.
use mathlib.Core.Option
use mathlib.Core.Option.{some-injective}
use baseliner_docker.Base.{
  ℕ, true, false, if◌then◌else◌, ◌==◌, List, [], ◌∷◌, Option, none, some, arith, ◌≡◌, refl,
  Bool-cases, inl, inr, ◌∙◌, ℤ, ltb_ℤ, ◌≤ℤ◌, ◌⊎◌, ==_iff, ap, sym,
}
use baseliner_docker.Rdisc.Table.{
  Call, Entry, find_router, max_from, max_preference, ineligible, walk, on_router,
}
use baseliner_docker.Rdisc.Walks.{SameRouter, has, has_self, flag, Unique}

pub find_router-has : (a : ℕ) (es : List Entry) → has a es ≡ false → find_router a es ≡ none
unfolding find_router
find_router-has a [] h = refl
find_router-has a (tp ∷ rest) h = ground (arith, find_router-has a rest)

pub find_router-none : (a : ℕ) (es : List Entry) → find_router a es ≡ none → has a es ≡ false
unfolding find_router
find_router-none a [] h = refl
find_router-none a (tp ∷ rest) h = ground (arith, find_router-none a rest)

pub has-find_router :
    (a : ℕ) (es : List Entry) {tp : Entry} → find_router a es ≡ some tp → has a es ≡ true
unfolding find_router
has-find_router a [] e = cc
has-find_router a (tp ∷ rest) {tp = x} e = ground (arith, has-find_router a rest {tp = x})

pub flag-find_router :
    (a : ℕ) (es : List Entry) {tp : Entry} → find_router a es ≡ some tp → flag a es ≡ tp.in_kernel
unfolding find_router
flag-find_router a [] e = cc
flag-find_router a (tp ∷ rest) {tp = x} e = ground (arith, flag-find_router a rest {tp = x})

pub find_router-router :
    (a : ℕ) (es : List Entry) {tp : Entry} → find_router a es ≡ some tp → tp.router ≡ a
unfolding find_router
find_router-router a [] e = cc
find_router-router a (tp ∷ rest) {tp = x} e = ground (arith, find_router-router a rest {tp = x})

walked_head :
    (a : ℕ) (o : Option Entry) (x : Entry) (rest : List Entry)
    → o ≡ some x
    → find_router a (elim o [ some tp ↦ tp ∷ rest | none ↦ rest ])
      ≡ (if x.router == a then some x else find_router a rest)
unfolding find_router
walked_head a o x rest e = rw e

map_head :
    (a : ℕ) (tp x : Entry) (u v : Option Entry) (g : Entry → Entry)
    → x.router ≡ tp.router
    → x ≡ g tp
    → u ≡ Option.map g v
    → (if x.router == a then some x else u) ≡ Option.map g (if tp.router == a then some tp else v)
map_head a tp x u v g r e h = elim (Bool-cases (tp.router == a)) [
  | inl c ↦ rw (ap (λ t. t == a) r ∙ c, c) (ap some e)
  | inr c ↦ rw (ap (λ t. t == a) r ∙ c, c) h
]

module _ {ℓ} {S : Type ℓ} (f : Entry → S → Option Entry × S) (g : Entry → Entry)
    (same : (tp : Entry) (s : S) → (f tp s).0 ≡ some (g tp))
    (router : (tp : Entry) → (g tp).router ≡ tp.router) where
  pub find_router-walk :
      (a : ℕ) (es : List Entry) (s : S)
      → find_router a (walk f es s).0 ≡ Option.map g (find_router a es)
  unfolding walk find_router
  find_router-walk a [] s = refl
  find_router-walk a (tp ∷ rest) s =
      walked_head a (f tp s).0 (g tp) (walk f rest (f tp s).1).0 (same tp s)
      ∙ map_head a tp (g tp) _ (find_router a rest) g (router tp) refl
          (find_router-walk a rest (f tp s).1)

found :
    (a : ℕ) (tp : Entry) (r : ℕ) (u v : Option Entry) (g : Entry → Entry)
    → (tp.router == r) ≡ false
    → u ≡ (if r == a then Option.map g v else v)
    → (if tp.router == a then some tp else u)
      ≡ (let w = if tp.router == a then some tp else v in if r == a then Option.map g w else w)
found a tp r u v g c h = elim (Bool-cases (tp.router == a)) [
  | inl d ↦ let k : (r == a) ≡ false = ground (arith, c, d) in rw (d, k)
  | inr d ↦ rw d h
]

on_head :
    (a : ℕ) (tp x : Entry) (r : ℕ) (v : Option Entry) (g : Entry → Entry)
    → (tp.router == r) ≡ true
    → x ≡ g tp
    → (g tp).router ≡ tp.router
    → (if x.router == a then some x else v)
      ≡ (let w = if tp.router == a then some tp else v in if r == a then Option.map g w else w)
on_head a tp x r v g c e q =
    let same : (x.router == a) ≡ (tp.router == a) =
      ap (λ (t : Entry). t.router == a) e ∙ ap (λ t. t == a) q in
    elim (Bool-cases (tp.router == a)) [
      | inl d ↦ let k : (r == a) ≡ true = ground (arith, c, d) in rw (same ∙ d, d, k) (ap some e)
      | inr d ↦ let k : (r == a) ≡ false = ground (arith, c, d) in rw (same ∙ d, d, k)
    ]

-- A loop that may free entries; each router stands once in the table.
abbrev pub then_entry : (Entry → Option Entry) → Option Entry → Option Entry
then_entry g none = none
then_entry g (some tp) = g tp

has_head :
    (a : ℕ) (tp : Entry) (o : Option Entry) (rest : List Entry)
    → SameRouter tp o
    → (tp.router == a) ≡ false
    → has a rest ≡ false
    → has a (elim o [ some x ↦ x ∷ rest | none ↦ rest ]) ≡ false
has_head a tp none rest r c h = h
has_head a tp (some x) rest r c h = ground (arith, r, c, h)

find_head :
    (a : ℕ) (tp : Entry) (o : Option Entry) (rest : List Entry)
    → SameRouter tp o
    → ((tp.router == a) ≡ true → o ≡ none → find_router a rest ≡ none)
    → find_router a (elim o [ some x ↦ x ∷ rest | none ↦ rest ])
      ≡ (if tp.router == a then o else find_router a rest)
unfolding find_router
find_head a tp none rest r h = elim (Bool-cases (tp.router == a)) [
  | inl c ↦ rw c (h c refl)
  | inr c ↦ rw c
]
find_head a tp (some x) rest r h = rw r

module _ {ℓ} {S : Type ℓ} (f : Entry → S → Option Entry × S) (g : Entry → Option Entry)
    (same : (tp : Entry) (s : S) → (f tp s).0 ≡ g tp)
    (router : (tp : Entry) → SameRouter tp (g tp)) where
  has-walk : (a : ℕ) (es : List Entry) (s : S) → has a es ≡ false → has a (walk f es s).0 ≡ false
  unfolding walk
  has-walk a [] s h = refl
  has-walk a (tp ∷ rest) s h = rw (same tp s) (
      has_head a tp (g tp) (walk f rest (f tp s).1).0 (router tp) (ground (arith, h))
        (has-walk a rest (f tp s).1 (ground (arith, h))))

  pub find_router-walk_freed :
      (a : ℕ) (es : List Entry) (s : S)
      → Unique es
      → find_router a (walk f es s).0 ≡ then_entry g (find_router a es)
  unfolding walk find_router
  find_router-walk_freed a [] s u = refl
  find_router-walk_freed a (tp ∷ rest) s u =
      let gone : (tp.router == a) ≡ true
          → g tp ≡ none
          → find_router a (walk f rest (f tp s).1).0 ≡ none =
        λ c e.
          find_router-has a _ (
            has-walk a rest (f tp s).1
              (has_self tp.router a rest ((==_iff tp.router a).0 c) u.0)) in
      rw (same tp s) (
        find_head a tp (g tp) (walk f rest (f tp s).1).0 (router tp) gone
        ∙ elim (Bool-cases (tp.router == a)) [
          | inl c ↦ rw c
          | inr c ↦ rw c (find_router-walk_freed a rest (f tp s).1 u.1)
        ])

module _ (r : ℕ) (f : Entry → List Call → Entry × List Call) (g : Entry → Entry)
    (same : (tp : Entry) (calls : List Call) → (f tp calls).0 ≡ g tp)
    (router : (tp : Entry) → (g tp).router ≡ tp.router) where
  pub find_router-on_router :
      (a : ℕ) (es : List Entry) (calls : List Call)
      → find_router a (on_router r f es calls).0
        ≡ (if r == a then Option.map g (find_router a es) else find_router a es)
  unfolding on_router find_router
  find_router-on_router a [] calls = ground arith
  find_router-on_router a (tp ∷ rest) calls = elim (Bool-cases (tp.router == r)) [
    | inl c ↦
        rw c (on_head a tp (f tp calls).0 r (find_router a rest) g c (same tp calls) (router tp))
    | inr c ↦ rw c (found a tp r _ (find_router a rest) g c (find_router-on_router a rest calls))
  ]

-- The greatest preference is not below that of an entry, and is that of one or the ineligible one.
pub max_from-acc : (max : ℤ) (es : List Entry) → max ≤ℤ max_from max es
unfolding max_from
max_from-acc max [] = omega arith
max_from-acc max (tp ∷ rest) = elim (Bool-cases (ltb_ℤ max tp.preference)) [
  | inl c ↦ rw c (ground (arith, c, max_from-acc tp.preference rest))
  | inr c ↦ rw c (max_from-acc max rest)
]

max_from-find_router :
    (max : ℤ) (a : ℕ) (es : List Entry) {tp : Entry}
    → find_router a es ≡ some tp
    → tp.preference ≤ℤ max_from max es
unfolding max_from find_router
max_from-find_router max a [] e = cc
max_from-find_router max a (tp ∷ rest) {tp = x} e =
    let next = if ltb_ℤ max tp.preference then tp.preference else max in
    elim (Bool-cases (tp.router == a)) [
      | inl c ↦
          let k : tp ≡ x = some-injective tp x (rw c at e) in
          rw (← k) ((ground (arith, max_from-acc next rest)))
      | inr c ↦ max_from-find_router next a rest (rw c at e)
    ]

pub max_preference_bound :
    (a : ℕ) (es : List Entry) {tp : Entry}
    → find_router a es ≡ some tp
    → tp.preference ≤ℤ max_preference es
max_preference_bound a es e = max_from-find_router ineligible a es e

abbrev pub Attained : ℤ → ℤ → List Entry → Type 0
Attained max m es =
    (m ≡ max) ⊎ ((a : ℕ) × (tp : Entry) × (find_router a es ≡ some tp) × (tp.preference ≡ m))

pub max_from-Attained : (max : ℤ) (es : List Entry) → Unique es → Attained max (max_from max es) es
unfolding max_from find_router
max_from-Attained max [] u = inl refl
max_from-Attained max (tp ∷ rest) u =
    let next = if ltb_ℤ max tp.preference then tp.preference else max in
    elim (max_from-Attained next rest u.1) [
      | inr (a, x, e, q) ↦
          let k : (tp.router == a) ≡ false =
            ground (arith, has-find_router a rest e, has_self tp.router a rest, u) in
          inr (a, x, rw k e, q)
      | inl e ↦ elim (Bool-cases (ltb_ℤ max tp.preference)) [
        | inl c ↦
            let k : next ≡ tp.preference = rw c in inr (tp.router, tp, ground arith, sym (e ∙ k))
        | inr c ↦ let k : next ≡ max = rw c in inl (e ∙ k)
      ]
    ]
