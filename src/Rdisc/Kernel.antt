-- ===== src/Rdisc/Kernel.antt =====
-- What the turns of the loops over the table of rdisc do to the default routes.
use baseliner_docker.Base.{
  ℕ, Bool, not, ◌&&◌, if◌then◌else◌, ◌==◌, List, [], ◌∷◌, none, some, arith, ◌≡◌, refl, Bool-cases,
  inl, inr, ◌∙◌, ℤ, pos, ◌-ℤ◌, leb_ℤ,
}
use baseliner_docker.Rdisc.Table.{Call, siocdelrt, Entry, on_router, add_if, del_if, age, discard}
use baseliner_docker.Rdisc.Walks.{
  installed, Unique, Turn, Walked, Mirrors, join, Mirrors-head, Mirrors-tail, stay, stay-Turn,
}

module _ (router : ℕ) (f : Entry → List Call → Entry × List Call)
    (turn : (tp : Entry) (calls : List Call)
      → installed calls tp.router ≡ tp.in_kernel
      → Turn tp calls (some (f tp calls).0) (f tp calls).1) where
  pub on_router-Walked :
      (es : List Entry) (calls : List Call)
      → Unique es
      → Mirrors es calls
      → Walked es calls (on_router router f es calls).0 (on_router router f es calls).1
  unfolding on_router
  on_router-Walked [] calls u m = stay [] calls u m
  on_router-Walked (tp ∷ rest) calls u m =
      let e = Mirrors-head tp rest calls m in
      elim (Bool-cases (tp.router == router)) [
        | inl c ↦
            let t = turn tp calls e in
            rw c (
              join tp (some (f tp calls).0) rest rest calls (f tp calls).1 (f tp calls).1 u.0 t (
                stay rest (f tp calls).1 u.1
                  (Mirrors-tail tp (some (f tp calls).0) rest calls (f tp calls).1 u.0 t m)))
        | inr c ↦
            let t = stay-Turn tp calls e in
            let (rest', calls') = on_router router f rest calls in
            rw c (
              join tp (some tp) rest rest' calls calls calls' u.0 t (
                on_router-Walked rest calls u.1
                  (Mirrors-tail tp (some tp) rest calls calls u.0 t m)))
      ]

pub add_if-Turn :
    (test : Entry → Bool) (tp : Entry) (calls : List Call)
    → installed calls tp.router ≡ tp.in_kernel
    → Turn tp calls (some (add_if test tp calls).0) (add_if test tp calls).1
unfolding add_if
add_if-Turn test tp calls e = elim (Bool-cases (test tp && not tp.in_kernel)) [
  | inr c ↦ rw c (stay-Turn tp calls e)
  | inl c ↦ rw c (record {
    router = refl;
    routes = λ a. ground arith;
    alternates = λ h. (ground (arith, e), h);
  })
]

pub del_if-Turn :
    (test : Entry → Bool) (tp : Entry) (calls : List Call)
    → installed calls tp.router ≡ tp.in_kernel
    → Turn tp calls (some (del_if test tp calls).0) (del_if test tp calls).1
unfolding del_if
del_if-Turn test tp calls e = elim (Bool-cases (test tp && tp.in_kernel)) [
  | inr c ↦ rw c (stay-Turn tp calls e)
  | inl c ↦ rw c (record {
    router = refl;
    routes = λ a. ground arith;
    alternates = λ h. (ground (arith, e), h);
  })
]

-- An entry that is freed takes its route with it.
freed-Turn :
    (tp : Entry) (calls : List Call)
    → installed calls tp.router ≡ tp.in_kernel
    → Turn tp calls none (if tp.in_kernel then siocdelrt tp.router ∷ calls else calls)
freed-Turn tp calls e = elim (Bool-cases tp.in_kernel) [
  | inr c ↦ rw c (record { router = tt; routes = λ a. ground (arith, e, c); alternates = λ h. h })
  | inl c ↦ rw c (record { router = tt; routes = λ a. ground arith; alternates = λ h. (e ∙ c, h) })
]

-- A change that leaves the flag and the routes alone.
pub same-Turn :
    (tp tp' : Entry) (calls : List Call)
    → installed calls tp.router ≡ tp.in_kernel
    → tp'.router ≡ tp.router
    → tp'.in_kernel ≡ tp.in_kernel
    → Turn tp calls (some tp') calls
same-Turn tp tp' calls e r k = record {
  router = r;
  routes = λ a. ground (arith, e, r, k);
  alternates = λ h. h;
}

pub age-Turn :
    (best_preference : Bool) (time : ℕ) (max : ℤ) (tp : Entry) (s : List Call × Bool)
    → installed s.0 tp.router ≡ tp.in_kernel
    → Turn tp s.0 (age best_preference time max tp s).0 (age best_preference time max tp s).1.0
unfolding age
age-Turn best_preference time max tp s e =
    elim (Bool-cases (leb_ℤ (tp.remaining_time -ℤ pos time) (pos 0))) [
      | inl c ↦ rw c (freed-Turn tp s.0 e)
      | inr c ↦ rw c (same-Turn tp _ s.0 e refl refl)
    ]

pub discard-Turn :
    (tp : Entry) (calls : List Call)
    → installed calls tp.router ≡ tp.in_kernel
    → Turn tp calls (discard tp calls).0 (discard tp calls).1
unfolding discard
discard-Turn tp calls e = freed-Turn tp calls e
