-- ===== src/Dc/Disk.antt =====
-- rbt.c: writing a finished view. The four traversals share their shape; a write may fail, and then
-- the traversal stops where it is.
use baseliner_docker.Base.{
  ℕ, zero, suc, ◌+◌, ◌-◌, ◌*◌, ◌%◌, ◌^◌, List, [], ◌∷◌, ◌++◌, Bool, true, false, ltb, if◌then◌else◌,
}
use baseliner_docker.Dc.Row.{Row, add_measures}
use baseliner_docker.Dc.Tree.{Tree, leaf, node}

-- A file that takes so many more records; `fwrite` of one record fails when there is no room.
pub record Disk : Type 0 where
  pub written : List Row
  pub room : ℕ

-- The part of ADC_VIEW_CNTL that the traversals touch, and `*ordern`; the sums and the checksums are
-- 64-bit words.
pub record View : Type 0 where
  pub nm : ℕ
  pub m_sums : List ℕ
  pub checksums : List ℕ
  pub ordern : ℕ
  pub disk : Disk

abbrev pub measbound : ℕ
measbound = 31415

-- ADC_OK is true, ADC_WRITE_FAILED is false.
unfoldable pub write_to_file : Row → View → Bool × View
write_to_file r v =
    if ltb 0 v.disk.room
    then (
      true,
      record v { disk = record { written = v.disk.written ++ (r ∷ []); room = v.disk.room - 1 } },
    )
    else (false, v)

-- `avp->mSums[i] += t->nodeMemPool[i]`
unfoldable pub sum_measures : Row → View → View
sum_measures r v = record v { m_sums = add_measures v.nm v.m_sums r.measures }

-- `avp->checksums[i] += (++(*ordern))*t->nodeMemPool[i]%measbound`, from the i-th on.
unfoldable pub checksum_from : ℕ → ℕ → List ℕ → List ℕ → ℕ × List ℕ
checksum_from zero o cs ms = (o, cs)
checksum_from (suc n) o [] ms = (o, [])
checksum_from (suc n) o (c ∷ cs) [] = (o, c ∷ cs)
checksum_from (suc n) o (c ∷ cs) (m ∷ ms) =
    let o' = (o + 1) % 2 ^ 64 in
    let rest = checksum_from n o' cs ms in
    (rest.0, (c + o' * m % 2 ^ 64 % measbound) % 2 ^ 64 ∷ rest.1)

unfoldable pub checksum : Row → View → View
checksum r v = record v {
  ordern = (checksum_from v.nm v.ordern v.checksums r.measures).0;
  checksums = (checksum_from v.nm v.ordern v.checksums r.measures).1;
}

-- The bodies of the loops of WriteViewToDisk, WriteViewToDiskCS, computeChecksum, WriteChunkToDisk.
unfoldable pub visit_view : Row → View → Bool × View
visit_view r v = write_to_file r (sum_measures r v)

unfoldable pub visit_view_cs : Row → View → Bool × View
visit_view_cs r v = write_to_file r (checksum r (sum_measures r v))

unfoldable pub visit_checksum : Row → View → Bool × View
visit_checksum r v = (true, checksum r v)

unfoldable pub visit_chunk : Row → View → Bool × View
visit_chunk r v = write_to_file r v

-- One traversal: the left subtree, the node, the right subtree, each only if the one before went well.
module _ (visit : Row → View → Bool × View) where
  abbrev pub and_then : Bool × View → (View → Bool × View) → Bool × View
  and_then (true, v) k = k v
  and_then (false, v) k = (false, v)

  unfoldable pub traverse : Tree → View → Bool × View
  traverse leaf v = (true, v)
  traverse (node c l x r) v =
      and_then (traverse l v) (λ w. and_then (visit x w) (λ u. traverse r u))

  -- The same visits over a list.
  abbrev pub visit_all : List Row → View → Bool × View
  visit_all [] v = (true, v)
  visit_all (x ∷ xs) v = and_then (visit x v) (λ u. visit_all xs u)

unfoldable pub write_view_to_disk : Tree → View → Bool × View
write_view_to_disk = traverse visit_view

unfoldable pub write_view_to_disk_cs : Tree → View → Bool × View
write_view_to_disk_cs = traverse visit_view_cs

unfoldable pub compute_checksum : Tree → View → Bool × View
compute_checksum = traverse visit_checksum

unfoldable pub write_chunk_to_disk : Tree → View → Bool × View
write_chunk_to_disk = traverse visit_chunk
