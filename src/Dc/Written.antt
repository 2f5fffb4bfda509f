-- ===== src/Dc/Written.antt =====
-- What the traversals of rbt.c write: the rows in order, as far as there is room.
use baseliner_docker.Base.{
  ℕ, zero, suc, List, [], ◌∷◌, ◌++◌, Bool, true, false, lt→ltb, leb, ◌≡◌, refl, sym, ap, ◌∙◌,
  append_assoc, append-nil, length, take, arith,
}
use baseliner_docker.Dc.Row.{Row}
use baseliner_docker.Dc.Tree.{Tree, leaf, node}
use baseliner_docker.Dc.Inorder.{rows}
use baseliner_docker.Dc.Disk.{
  View, write_to_file, sum_measures, checksum, visit_view, visit_view_cs, visit_checksum,
  visit_chunk, and_then, traverse, visit_all, write_view_to_disk, write_view_to_disk_cs,
  write_chunk_to_disk, compute_checksum,
}

module _ (visit : Row → View → Bool × View) where
  and_then_assoc :
      (p : Bool × View) (f g : View → Bool × View)
      → and_then visit (and_then visit p f) g ≡ and_then visit p (λ u. and_then visit (f u) g)
  and_then_assoc (true, u) f g = refl
  and_then_assoc (false, u) f g = refl

  and_then_ext :
      (p : Bool × View) (f g : View → Bool × View)
      → ((u : View) → f u ≡ g u)
      → and_then visit p f ≡ and_then visit p g
  and_then_ext (true, u) f g h = h u
  and_then_ext (false, u) f g h = refl

  visit_all-append :
      (xs ys : List Row) (v : View)
      → visit_all visit (xs ++ ys) v
        ≡ and_then visit (visit_all visit xs v) (λ w. visit_all visit ys w)
  visit_all-append [] ys v = refl
  visit_all-append (x ∷ xs) ys v =
      and_then_ext (visit x v) _ _ (λ u. visit_all-append xs ys u)
      ∙ sym (and_then_assoc (visit x v) (λ u. visit_all visit xs u) (λ w. visit_all visit ys w))

  -- A traversal visits the rows of the tree in order.
  pub traverse-rows : (t : Tree) (v : View) → traverse visit t v ≡ visit_all visit (rows t) v
  unfolding traverse
  traverse-rows leaf v = refl
  traverse-rows (node c l x r) v =
      ap (λ p. and_then visit p (λ w. and_then visit (visit x w) (λ u. traverse visit r u)))
        (traverse-rows l v)
      ∙ and_then_ext (visit_all visit (rows l) v) _ _
          (λ w. and_then_ext (visit x w) _ _ (λ u. traverse-rows r u))
      ∙ sym (visit_all-append (rows l) (x ∷ rows r) v)

-- The rows that fit are written behind what is there, and the traversal succeeds if all of them fit.
abbrev pub Writes : List Row → List Row → ℕ → Bool × View → Type 0
Writes xs old room (ok, w) = (ok ≡ leb (length xs) room) × (w.disk.written ≡ old ++ take room xs)

leb-suc : (a b : ℕ) → leb a b ≡ leb (suc a) (suc b)
leb-suc a b = ground arith

pub no_room : (x : Row) (u : View) → u.disk.room ≡ 0 → write_to_file x u ≡ (false, u)
unfolding write_to_file
no_room x u h = rw h

pub some_room :
    (x : Row) (u : View) (m : ℕ)
    → u.disk.room ≡ suc m
    → write_to_file x u
      ≡ (true, record u { disk = record { written = u.disk.written ++ (x ∷ []); room = m } })
unfolding write_to_file
some_room x u m h = rw (lt→ltb 0 u.disk.room (omega arith)) (
    ap (λ k. (true, record u { disk = record { written = u.disk.written ++ (x ∷ []); room = k } }))
      (omega arith))

module _ (prepare : Row → View → View)
    (same : (r : Row) (v : View) → (prepare r v).disk ≡ v.disk) where
  abbrev prepared : Row → View → Bool × View
  prepared r u = write_to_file r (prepare r u)

  pub Writes-visit_all :
      (xs : List Row) (m : ℕ) (v : View)
      → v.disk.room ≡ m
      → Writes xs v.disk.written m (visit_all prepared xs v)
  Writes-visit_all [] m v h = (ground arith, nothing m)
    where
      nothing : (k : ℕ) → v.disk.written ≡ v.disk.written ++ take {A = Row} k []
      nothing zero = sym (append-nil _)
      nothing (suc k) = sym (append-nil _)
  Writes-visit_all (x ∷ xs) zero v h =
      rw (no_room x (prepare x v) (ap (λ d. d.room) (same x v) ∙ h))
        (ground arith, ap (λ d. d.written) (same x v) ∙ sym (append-nil _))
  Writes-visit_all (x ∷ xs) (suc m) v h =
      let u = prepare x v in
      let w : View = record u {
        disk = record { written = u.disk.written ++ (x ∷ []); room = m };
      } in
      let ih = Writes-visit_all xs m w refl in
      rw (some_room x u m (ap (λ d. d.room) (same x v) ∙ h)) (
        ih.0 ∙ leb-suc (length xs) m,
        ih.1
            ∙ append_assoc u.disk.written (x ∷ []) (take m xs)
            ∙ ap (λ l. l ++ (x ∷ take m xs)) (ap (λ d. d.written) (same x v)),
      )

sums :
    (xs : List Row) (v : View)
    → ((visit_all visit_checksum xs v).0 ≡ true) × ((visit_all visit_checksum xs v).1.disk ≡ v.disk)
unfolding visit_checksum checksum
sums [] v = (refl, refl)
sums (x ∷ xs) v = sums xs (checksum x v)

-- WriteViewToDisk, WriteViewToDiskCS and WriteChunkToDisk write the rows of the tree in order, as
-- many as there is room for, and return ADC_OK exactly if all rows fit; computeChecksum writes
-- nothing and returns ADC_OK.
pub traversals_write :
    (t : Tree) (v : View)
    → Writes (rows t) v.disk.written v.disk.room (write_view_to_disk t v)
      × Writes (rows t) v.disk.written v.disk.room (write_view_to_disk_cs t v)
      × Writes (rows t) v.disk.written v.disk.room (write_chunk_to_disk t v)
      × ((compute_checksum t v).0 ≡ true)
      × ((compute_checksum t v).1.disk ≡ v.disk)
unfolding write_view_to_disk write_view_to_disk_cs write_chunk_to_disk compute_checksum visit_view
    visit_view_cs visit_chunk visit_checksum sum_measures checksum
traversals_write t v = (
  rw (traverse-rows visit_view t v)
      (Writes-visit_all sum_measures (λ r u. refl) (rows t) v.disk.room v refl),
  rw (traverse-rows visit_view_cs t v) (
      Writes-visit_all (λ r u. checksum r (sum_measures r u)) (λ r u. refl) (rows t) v.disk.room v
        refl),
  rw (traverse-rows visit_chunk t v)
      (Writes-visit_all (λ r u. u) (λ r u. refl) (rows t) v.disk.room v refl),
  rw (traverse-rows visit_checksum t v) (sums (rows t) v).0,
  rw (traverse-rows visit_checksum t v) (sums (rows t) v).1,
)
