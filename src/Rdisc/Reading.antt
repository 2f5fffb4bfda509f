-- ===== src/Rdisc/Reading.antt =====
-- `pr_pack` of rdisc reads the bytes of its packet alone.
use baseliner_docker.Base.{
  ℕ, zero, suc, ◌+◌, ◌*◌, ◌-◌, ◌<◌, ◌≤◌, Bool, not, if◌then◌else◌, ◌==◌, ltb, List, [], ◌∷◌, Option,
  none, some, length, drop, ℤ, arith, ◌≡◌, refl, Bool-cases, inl, inr, if_rule, ◌%◌,
}
use baseliner_docker.Rdisc.Table.{Host, record_router}
use baseliner_docker.Rdisc.Packet.{
  Iface, is_directly_connected, ◌>>=◌, byte, word, net_long, net_short, to_int, in_cksum, Setup,
  take_addrs, advertisement, pr_pack, icmp_router_advertisement,
}

-- A computation that gives a value with a property.
abbrev pub Gives {ℓ κ} : {A : Type ℓ} → (A → Type κ) → Option A → Type (ℓ ⊔ κ)
Gives {A = A} P m = (a : A) × (m ≡ some a) × P a

bind-Gives {ℓ κ μ ν} :
    {A : Type ℓ} {B : Type κ} (P : A → Type μ) (Q : B → Type ν) (m : Option A) (f : A → Option B)
    → Gives P m
    → ((a : A) → P a → Gives Q (f a))
    → Gives Q (m >>= f)
bind-Gives P Q m f (a, e, p) k = rw e (k a p)

abbrev Any : ℕ → Type 0
Any n = Unit

byte-Gives : (buf : List ℕ) (i : ℕ) → i < length buf → Gives Any (byte buf i)
unfolding byte
byte-Gives [] i h = absurd (omega arith)
byte-Gives (b ∷ rest) zero h = (b, refl, tt)
byte-Gives (b ∷ rest) (suc i) h = byte-Gives rest i (omega arith)

module _ (buf : List ℕ) (i : ℕ) where
  word-Gives : i + 3 < length buf → Gives Any (word buf i)
  word-Gives h = bind-Gives Any Any _ _ (byte-Gives buf i (omega arith)) λ a _.
      bind-Gives Any Any _ _ (byte-Gives buf (i + 1) (omega arith)) λ b _.
        bind-Gives Any Any _ _ (byte-Gives buf (i + 2) (omega arith))
          λ c _. bind-Gives Any Any _ _ (byte-Gives buf (i + 3) (omega arith)) λ d _. (_, refl, tt)

  net_long-Gives : i + 3 < length buf → Gives Any (net_long buf i)
  net_long-Gives h = bind-Gives Any Any _ _ (byte-Gives buf i (omega arith)) λ a _.
      bind-Gives Any Any _ _ (byte-Gives buf (i + 1) (omega arith)) λ b _.
        bind-Gives Any Any _ _ (byte-Gives buf (i + 2) (omega arith))
          λ c _. bind-Gives Any Any _ _ (byte-Gives buf (i + 3) (omega arith)) λ d _. (_, refl, tt)

  net_short-Gives : i + 1 < length buf → Gives Any (net_short buf i)
  net_short-Gives h =
      bind-Gives Any Any _ _ (byte-Gives buf i (omega arith))
        λ a _. bind-Gives Any Any _ _ (byte-Gives buf (i + 1) (omega arith)) λ b _. (_, refl, tt)

spread : (n w : ℕ) → suc n * w * 4 ≡ n * w * 4 + w * 4
spread n w = grind arith

-- What holds of a refused packet, or of the host behind an accepted one.
abbrev pub Taken {κ} : (Host → Type κ) → Option Host → Type κ
Taken P none = Unit
Taken P (some h) = P h

module _ {κ} (setup : Setup) (ifaces : List Iface) (buf : List ℕ) (P : Host → Type κ)
    (keep : (room : Bool) (router : ℕ) (preference : ℤ) (ttl : ℕ) (h : Host)
      → P h
      → P (record_router setup.best_preference room router preference ttl h)) where
  take_addrs-Gives :
      (wpa lifetime start n : ℕ) (h : Host)
      → 2 ≤ wpa
      → start + n * wpa * 4 ≤ length buf
      → P h
      → Gives P (take_addrs setup ifaces buf wpa lifetime start n h)
  unfolding take_addrs
  take_addrs-Gives wpa lifetime start zero h w l p = (h, refl, p)
  take_addrs-Gives wpa lifetime start (suc n) h w l p =
      let k = spread n wpa in
      bind-Gives Any P _ _ (word-Gives buf start (omega (arith, k))) λ ina _.
        bind-Gives P P _ _
          (if_rule (Gives P) (is_directly_connected ifaces ina)
            (bind-Gives Any P _ _ (net_long-Gives buf (start + 4) (omega (arith, k)))
              λ preference _. (_, refl, keep (setup.room n) ina (to_int preference) lifetime h p))
            (h, refl, p))
          λ h' p'. take_addrs-Gives wpa lifetime (start + wpa * 4) n h' w (omega (arith, k)) p'

  advertisement-Gives :
      (hlen : ℕ) (h : Host)
      → hlen + 8 ≤ length buf
      → P h
      → Gives (Taken P) (advertisement setup ifaces buf hlen h)
  unfolding advertisement
  advertisement-Gives hlen h l p =
      if_rule (Gives (Taken P)) (not (in_cksum (drop hlen buf) == 0)) (none, refl, tt)
        (bind-Gives Any (Taken P) _ _ (byte-Gives buf (hlen + 1) (omega arith)) λ code _.
          bind-Gives Any (Taken P) _ _ (byte-Gives buf (hlen + 4) (omega arith)) λ num_addrs _.
            bind-Gives Any (Taken P) _ _ (byte-Gives buf (hlen + 5) (omega arith)) λ wpa _.
              bind-Gives Any (Taken P) _ _ (net_short-Gives buf (hlen + 6) (omega arith))
                λ lifetime _.
                  if_rule (Gives (Taken P)) (not (code == 0)) (none, refl, tt)
                    (if_rule (Gives (Taken P)) (ltb num_addrs 1) (none, refl, tt)
                      (checked num_addrs wpa lifetime)))
    where
      checked :
          (num_addrs wpa lifetime : ℕ)
          → Gives (Taken P) (
              if ltb wpa 2
              then some none
              else if ltb (length buf - hlen) (8 + num_addrs * wpa * 4)
              then some none
              else (take_addrs setup ifaces buf wpa lifetime (hlen + 8) num_addrs h >>= λ h'.
                  some (some h')))
      checked num_addrs wpa lifetime = elim (Bool-cases (ltb wpa 2)) [
        | inl c ↦ rw c (none, refl, tt)
        | inr c ↦ elim (Bool-cases (ltb (length buf - hlen) (8 + num_addrs * wpa * 4))) [
          | inl d ↦ rw (c, d) (none, refl, tt)
          | inr d ↦
              rw (c, d)
                (bind-Gives P (Taken P) _ _
                  (take_addrs-Gives wpa lifetime (hlen + 8) num_addrs h (ground (arith, c))
                    (ground (arith, d, l)) p)
                  λ h' p'. (some h', refl, p'))
        ]
      ]

  -- `pr_pack` reads no byte outside of a packet that has one, and keeps what `record_router` keeps.
  pub pr_pack-Gives :
      (h : Host) → 0 < length buf → P h → Gives (Taken P) (pr_pack setup ifaces buf h)
  unfolding pr_pack
  pr_pack-Gives h l p = bind-Gives Any (Taken P) _ _ (byte-Gives buf 0 l) λ first _.
      elim (Bool-cases (ltb (length buf) (first % 16 * 4 + 8))) [
        | inl c ↦ rw c (none, refl, tt)
        | inr c ↦ rw c (
            bind-Gives Any (Taken P) _ _ (byte-Gives buf (first % 16 * 4) (ground (arith, c)))
              λ kind _.
                if_rule (Gives (Taken P)) (kind == icmp_router_advertisement)
                  (advertisement-Gives (first % 16 * 4) h (ground (arith, c)) p) (none, refl, tt))
      ]
