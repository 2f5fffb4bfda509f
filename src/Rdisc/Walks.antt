-- ===== src/Rdisc/Walks.antt =====
-- What a loop over the table of rdisc does to the default routes, if each turn does it.
use baseliner_docker.Base.{
  ℕ, Bool, true, false, ◌||◌, if◌then◌else◌, ◌==◌, List, [], ◌∷◌, Option, none, some, arith, ◌≡◌,
  refl,
}
use baseliner_docker.Rdisc.Table.{Call, siocaddrt, siocdelrt, Entry, walk}

-- Whether the calls, the newest first, have put a route to a router into the kernel.
abbrev pub installed : List Call → ℕ → Bool
installed [] a = false
installed (siocaddrt b ∷ calls) a = if b == a then true else installed calls a
installed (siocdelrt b ∷ calls) a = if b == a then false else installed calls a

-- No route is added that is there, and none is deleted that is not.
abbrev pub Alternates : List Call → Type 0
Alternates [] = Unit
Alternates (siocaddrt b ∷ calls) = (installed calls b ≡ false) × Alternates calls
Alternates (siocdelrt b ∷ calls) = (installed calls b ≡ true) × Alternates calls

abbrev pub has : ℕ → List Entry → Bool
has a [] = false
has a (tp ∷ rest) = tp.router == a || has a rest

-- The flag of a router.
abbrev pub flag : ℕ → List Entry → Bool
flag a [] = false
flag a (tp ∷ rest) = if tp.router == a then tp.in_kernel else flag a rest

abbrev pub Unique : List Entry → Type 0
Unique [] = Unit
Unique (tp ∷ rest) = (has tp.router rest ≡ false) × Unique rest

abbrev listed : Option Entry → List Entry
listed none = []
listed (some tp) = tp ∷ []

abbrev pub SameRouter : Entry → Option Entry → Type 0
SameRouter tp none = Unit
SameRouter tp (some tp') = tp'.router ≡ tp.router

-- A turn of a loop touches the route of its entry alone, and leaves it as the flag says.
pub record Turn (tp : Entry) (calls : List Call) (o : Option Entry) (calls' : List Call)
    : Type 0 where
  pub router : SameRouter tp o
  pub routes :
      (a : ℕ)
      → installed calls' a ≡ (if tp.router == a then flag a (listed o) else installed calls a)
  pub alternates : Alternates calls → Alternates calls'

-- The same of a loop over a part of the table.
pub record Walked (es : List Entry) (calls : List Call) (es' : List Entry) (calls' : List Call)
    : Type 0 where
  pub routers : (a : ℕ) → has a es ≡ false → has a es' ≡ false
  pub unique : Unique es'
  pub routes : (a : ℕ) → installed calls' a ≡ (if has a es then flag a es' else installed calls a)
  pub alternates : Alternates calls → Alternates calls'

-- The flags of the entries are right.
abbrev pub Mirrors : List Entry → List Call → Type 0
Mirrors es calls = (a : ℕ) → has a es ≡ true → installed calls a ≡ flag a es

pub flag-absent : (a : ℕ) (es : List Entry) → has a es ≡ false → flag a es ≡ false
flag-absent a [] h = refl
flag-absent a (tp ∷ rest) h = ground (arith, flag-absent a rest)

pub has_self : (a b : ℕ) (es : List Entry) → a ≡ b → has a es ≡ false → has b es ≡ false
has_self a b es e h = cc

join_routes :
    (tp : Entry) (o : Option Entry) (rest rest' : List Entry) (c0 c1 c2 : List Call) (a : ℕ)
    → has tp.router rest ≡ false
    → Turn tp c0 o c1
    → Walked rest c1 rest' c2
    → SameRouter tp o
    → installed c2 a ≡ (
        if has a (tp ∷ rest)
        then flag a (elim o [ some tp' ↦ tp' ∷ rest' | none ↦ rest' ])
        else installed c0 a)
join_routes tp none rest rest' c0 c1 c2 a u t w e =
    ground
      (arith, w.routes a, t.routes a, w.routers a, flag-absent a rest', has_self tp.router a rest)
join_routes tp (some tp') rest rest' c0 c1 c2 a u t w e =
    ground (
      arith,
      w.routes a,
      t.routes a,
      w.routers a,
      flag-absent a rest',
      has_self tp.router a rest,
      e,
    )

pub join :
    (tp : Entry) (o : Option Entry) (rest rest' : List Entry) (c0 c1 c2 : List Call)
    → has tp.router rest ≡ false
    → Turn tp c0 o c1
    → Walked rest c1 rest' c2
    → Walked (tp ∷ rest) c0 (elim o [ some tp' ↦ tp' ∷ rest' | none ↦ rest' ]) c2
join tp none rest rest' c0 c1 c2 u t w = record {
  routers = λ a h. w.routers a (ground arith);
  unique = w.unique;
  routes = λ a. join_routes tp none rest rest' c0 c1 c2 a u t w t.router;
  alternates = λ h. w.alternates (t.alternates h);
}
join tp (some tp') rest rest' c0 c1 c2 u t w = record {
  routers = λ a h. ground (arith, t.router, w.routers a);
  unique = (w.routers tp'.router (rw t.router u), w.unique);
  routes = λ a. join_routes tp (some tp') rest rest' c0 c1 c2 a u t w t.router;
  alternates = λ h. w.alternates (t.alternates h);
}

pub Mirrors-head :
    (tp : Entry) (rest : List Entry) (calls : List Call)
    → Mirrors (tp ∷ rest) calls
    → installed calls tp.router ≡ tp.in_kernel
Mirrors-head tp rest calls m = ground (arith, m tp.router)

pub Mirrors-tail :
    (tp : Entry) (o : Option Entry) (rest : List Entry) (c0 c1 : List Call)
    → has tp.router rest ≡ false
    → Turn tp c0 o c1
    → Mirrors (tp ∷ rest) c0
    → Mirrors rest c1
Mirrors-tail tp o rest c0 c1 u t m a h = ground (arith, t.routes a, m a, has_self tp.router a rest)

module _ {ℓ} {S : Type ℓ} (calls : S → List Call) (f : Entry → S → Option Entry × S)
    (turn : (tp : Entry) (s : S)
      → installed (calls s) tp.router ≡ tp.in_kernel
      → Turn tp (calls s) (f tp s).0 (calls (f tp s).1)) where
  pub walk-Walked :
      (es : List Entry) (s : S)
      → Unique es
      → Mirrors es (calls s)
      → Walked es (calls s) (walk f es s).0 (calls (walk f es s).1)
  unfolding walk
  walk-Walked [] s u m = record {
    routers = λ a h. h;
    unique = tt;
    routes = λ a. refl;
    alternates = λ h. h;
  }
  walk-Walked (tp ∷ rest) s u m =
      let t = turn tp s (Mirrors-head tp rest (calls s) m) in
      join tp (f tp s).0 rest (walk f rest (f tp s).1).0 (calls s) (calls (f tp s).1)
        (calls (walk f rest (f tp s).1).1) u.0 t
        (walk-Walked rest (f tp s).1 u.1
          (Mirrors-tail tp (f tp s).0 rest (calls s) (calls (f tp s).1) u.0 t m))

pub stay :
    (es : List Entry) (calls : List Call) → Unique es → Mirrors es calls → Walked es calls es calls
stay es calls u m = record {
  routers = λ a h. h;
  unique = u;
  routes = λ a. ground (arith, m a);
  alternates = λ h. h;
}

pub stay-Turn :
    (tp : Entry) (calls : List Call)
    → installed calls tp.router ≡ tp.in_kernel
    → Turn tp calls (some tp) calls
stay-Turn tp calls e = record {
  router = refl;
  routes = λ a. ground (arith, e);
  alternates = λ h. h;
}
