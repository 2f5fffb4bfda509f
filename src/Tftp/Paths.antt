-- ===== src/Tftp/Paths.antt =====
-- Where the path of a file leads that passes the check of `validate_access` (iputils-ns/tftpd.c): the way
-- of its components from the directory that is served.
use mathlib.Core.Path.{subst}
use baseliner_docker.Base.{
  ℕ, zero, suc, List, [], ◌∷◌, ◌++◌, Bool, true, false, not, ◌&&◌, ◌==◌, ◌≡◌, refl, if◌then◌else◌,
  arith, take, Bool-cases, inl, inr, ap, sym, ◌∙◌, ◌⊎◌, ==_iff,
}
use baseliner_docker.Tftp.Request.{dot, slash, starts_up, climbs_from, climbs, strip_slash}

-- The components of a path.
abbrev with_first : ℕ → List (List ℕ) → List (List ℕ)
with_first c [] = (c ∷ []) ∷ []
with_first c (w ∷ ws) = (c ∷ w) ∷ ws

abbrev pub components : List ℕ → List (List ℕ)
components [] = [] ∷ []
components (c ∷ cs) = if c == slash then [] ∷ components cs else with_first c (components cs)

abbrev is_up : List ℕ → Bool
is_up (a ∷ b ∷ []) = a == dot && b == dot
is_up _ = false

-- "", as between two slashes, and "."
abbrev is_here : List ℕ → Bool
is_here [] = true
is_here (a ∷ []) = a == dot
is_here (a ∷ b ∷ cs) = false

-- Whether a way of these components, begun that many directories below a directory, never leaves it.
abbrev pub stays : ℕ → List (List ℕ) → Bool
stays d [] = true
stays zero (w ∷ ws) = not (is_up w) && (if is_here w then stays zero ws else stays 1 ws)
stays (suc d) (w ∷ ws) =
    if is_up w then stays d ws else if is_here w then stays (suc d) ws else stays (suc (suc d)) ws

abbrev pub ends_up : List (List ℕ) → Bool
ends_up [] = false
ends_up (w ∷ []) = is_up w
ends_up (w ∷ v ∷ ws) = ends_up (v ∷ ws)

-- The way stays in the directory; or it ends with "..", and leads no further than to the parent.
abbrev pub Below : List ℕ → Type 0
Below t =
    (stays 0 (components t) ≡ true)
    ⊎ ((ends_up (components t) ≡ true) × (stays 1 (components t) ≡ true))

abbrev up_first : List (List ℕ) → Bool
up_first [] = false
up_first (w ∷ []) = false
up_first (w ∷ v ∷ ws) = is_up w

abbrev rest_of : List (List ℕ) → List (List ℕ)
rest_of [] = []
rest_of (w ∷ ws) = ws

-- No component but the last is "..".
abbrev last_only : List (List ℕ) → Bool
last_only [] = true
last_only (w ∷ ws) = not (up_first (w ∷ ws)) && last_only ws

-- The components of three characters and a path of the components `ws`.
abbrev at_slash : ℕ → List (List ℕ) → List (List ℕ)
at_slash c ws = if c == slash then [] ∷ ws else with_first c ws

up_first-at_slash :
    (a b c : ℕ) (w : List ℕ) (ws : List (List ℕ))
    → up_first (at_slash a (at_slash b (at_slash c (w ∷ ws))))
      ≡ (a == dot && b == dot && c == slash)
up_first-at_slash a b c w ws = elim (Bool-cases (a == slash)) [
  | inl e ↦ rw e (elim (Bool-cases (b == slash)) [
    | inl e' ↦ rw e' (ground (arith, e))
    | inr e' ↦ rw e' (elim (Bool-cases (c == slash)) [
      | inl e'' ↦ rw e'' (ground (arith, e))
      | inr e'' ↦ rw e'' (ground (arith, e))
    ])
  ])
  | inr e ↦ rw e (elim (Bool-cases (b == slash)) [
    | inl e' ↦ rw e' (ground (arith, e'))
    | inr e' ↦ rw e' (elim (Bool-cases (c == slash)) [
      | inl e'' ↦ rw e'' (ground (arith, e''))
      | inr e'' ↦ rw e'' (ground (arith, e''))
    ])
  ])
]

some_component : (t : List ℕ) → (w : List ℕ) × (ws : List (List ℕ)) × (components t ≡ w ∷ ws)
some_component [] = ([], [], refl)
some_component (c ∷ cs) =
    let (w, ws, e) = some_component cs in
    elim (Bool-cases (c == slash)) [
      | inl f ↦ rw f ([], components cs, refl)
      | inr f ↦ rw (f, e) (c ∷ w, ws, refl)
    ]

starts : (a b c : ℕ) → (a == dot && b == dot && c == slash) ≡ starts_up (slash ∷ a ∷ b ∷ c ∷ [])
starts a b c = ground arith

up_first-components : (t : List ℕ) → up_first (components t) ≡ starts_up (slash ∷ t)
up_first-components [] = refl
up_first-components (a ∷ []) = ground arith
up_first-components (a ∷ b ∷ []) = ground arith
up_first-components (a ∷ b ∷ c ∷ t) =
    let (w, ws, e) = some_component t in
    ap (λ v. up_first (at_slash a (at_slash b (at_slash c v)))) e
    ∙ up_first-at_slash a b c w ws
    ∙ starts a b c

rest_of-with_first : (c : ℕ) (ws : List (List ℕ)) → rest_of (with_first c ws) ≡ rest_of ws
rest_of-with_first c [] = refl
rest_of-with_first c (w ∷ ws) = refl

up_dot : (c : ℕ) (cs : List ℕ) → starts_up (slash ∷ c ∷ cs) ≡ true → (c == dot) ≡ true
up_dot c [] h = cc
up_dot c (b ∷ []) h = cc
up_dot c (b ∷ d ∷ cs) h = ground (arith, h)

-- Behind a slash a clean path does not start with "../".
starts_clean : (t : List ℕ) → climbs_from slash t ≡ false → up_first (components t) ≡ false
unfolding climbs_from
starts_clean [] h = refl
starts_clean (c ∷ cs) h = up_first-components (c ∷ cs) ∙ no_start (Bool-cases (c == dot))
  where
    no_start : ((c == dot) ≡ true) ⊎ ((c == dot) ≡ false) → starts_up (slash ∷ c ∷ cs) ≡ false
    no_start (inl e) = ground (arith, h, e)
    no_start (inr e) = elim (Bool-cases (starts_up (slash ∷ c ∷ cs))) [
      | inl f ↦ absurd (ground (arith, up_dot c cs f, e))
      | inr f ↦ f
    ]

rest_clean :
    (prev : ℕ) (t : List ℕ) → climbs_from prev t ≡ false → last_only (rest_of (components t)) ≡ true
unfolding climbs_from
rest_clean prev [] h = refl
rest_clean prev (c ∷ cs) h =
    let k : climbs_from c cs ≡ false = ground (arith, h) in
    elim (Bool-cases (c == slash)) [
      | inl e ↦ rw e (
          ground (
            arith,
            starts_clean cs (subst (λ x. climbs_from x cs ≡ false) ((==_iff c slash).0 e) k),
            rest_clean c cs k,
          ))
      | inr e ↦ rw (e, rest_of-with_first c (components cs)) (rest_clean c cs k)
    ]

abbrev Kept : ℕ → List (List ℕ) → Type 0
Kept d ws = (stays d ws ≡ true) ⊎ ((ends_up ws ≡ true) × (stays (suc d) ws ≡ true))

last_only-stays : (d : ℕ) (ws : List (List ℕ)) → last_only ws ≡ true → Kept d ws
last_only-stays d [] h = inl refl
last_only-stays d (w ∷ []) h = elim (Bool-cases (is_up w)) [
  | inl e ↦ inr (e, rw e)
  | inr e ↦ inl (one d e)
]
  where
    one : (d : ℕ) → is_up w ≡ false → stays d (w ∷ []) ≡ true
    one zero e = ground (arith, e)
    one (suc d) e = ground (arith, e)
last_only-stays d (w ∷ v ∷ ws) h =
    let e : is_up w ≡ false = ground (arith, h) in
    let k : last_only (v ∷ ws) ≡ true = ground (arith, h) in
    elim (Bool-cases (is_here w)) [
      | inl f ↦ here d e f (last_only-stays d (v ∷ ws) k)
      | inr f ↦ down d e f (last_only-stays (suc d) (v ∷ ws) k)
    ]
  where
    here : (d : ℕ) → is_up w ≡ false → is_here w ≡ true → Kept d (v ∷ ws) → Kept d (w ∷ v ∷ ws)
    here zero e f i = rw (e, f) i
    here (suc d) e f i = rw (e, f) i

    down :
        (d : ℕ) → is_up w ≡ false → is_here w ≡ false → Kept (suc d) (v ∷ ws) → Kept d (w ∷ v ∷ ws)
    down zero e f i = rw (e, f) i
    down (suc d) e f i = rw (e, f) i

pub strip_clean :
    (name : List ℕ) → climbs name ≡ false → climbs_from slash (strip_slash name) ≡ false
unfolding climbs climbs_from
strip_clean [] h = refl
strip_clean (c ∷ cs) h = elim (Bool-cases (c == slash)) [
  | inl e ↦
      let k : climbs_from slash cs ≡ false =
        subst (λ x. climbs_from x cs ≡ false) ((==_iff c slash).0 e) (ground (arith, h)) in
      rw e k
  | inr e ↦ rw e (ground (arith, h))
]

take_up :
    (a b k : ℕ) (t : List ℕ) → starts_up (a ∷ b ∷ take k t) ≡ true → starts_up (a ∷ b ∷ t) ≡ true
take_up a b zero t h = cc
take_up a b (suc k) [] h = cc
take_up a b (suc zero) (c ∷ t) h = cc
take_up a b (suc (suc k)) (c ∷ []) h = cc
take_up a b (suc (suc k)) (c ∷ d ∷ t) h = h

take_clean :
    (prev k : ℕ) (t : List ℕ) → climbs_from prev t ≡ false → climbs_from prev (take k t) ≡ false
unfolding climbs_from
take_clean prev zero t h = refl
take_clean prev (suc k) [] h = refl
take_clean prev (suc k) (c ∷ cs) h = elim (Bool-cases (starts_up (prev ∷ c ∷ take k cs))) [
  | inl e ↦ ground (arith, h, take_clean c k cs (ground (arith, h)), take_up prev c k cs e)
  | inr e ↦ ground (arith, take_clean c k cs (ground (arith, h)), e)
]

clean-Below : (t : List ℕ) → climbs_from slash t ≡ false → Below t
clean-Below t h =
    let (w, ws, e) = some_component t in
    last_only-stays 0 (components t) (
      subst (λ v. last_only v ≡ true) (sym e)
        (ground (
          arith,
          subst (λ v. up_first v ≡ false) e (starts_clean t h),
          subst (λ v. last_only (rest_of v) ≡ true) e (rest_clean slash t h),
        )))

-- A path that leads on from `dir`, below it, or, of at most `k` characters, is `dir` itself.
abbrev pub In : ℕ → List ℕ → List ℕ → Type 0
In k dir path = (path ≡ take k dir) ⊎ ((t : List ℕ) × (path ≡ dir ++ slash ∷ t) × Below t)

pub full_name-In :
    (k : ℕ) (d t : List ℕ) → climbs_from slash t ≡ false → In k d (take k (d ++ slash ∷ t))
full_name-In zero d t h = inl refl
full_name-In (suc k) [] t h = inr (take k t, refl, clean-Below (take k t) (take_clean slash k t h))
full_name-In (suc k) (c ∷ d) t h = elim (full_name-In k d t h) [
  | inl e ↦ inl (ap (λ p. c ∷ p) e)
  | inr (u, e, b) ↦ inr (u, ap (λ p. c ∷ p) e, b)
]
