-- ===== src/Monitor/Compare.antt =====
-- The table of the pools after Compare, and the questions about it
-- (src/ceph_proxy/RadosMonitor.cc).
use ceph_global_cache_adapto.Prelude.{
  ℕ, ◌+◌, ◌<◌, ◌≡◌, refl, true, false, none, some, List, [], ◌∷◌, ◌==◌, ==_iff, if◌then◌else◌, ◌&&◌,
  not, arith, Option-cases, inl, inr, neg, ok_code, error_code, enoent,
}
use ceph_global_cache_adapto.Prelude.Word.{u64, u64_mod}
use ceph_global_cache_adapto.Prelude.NatMap.{NatMap, find, insert, erase, find-insert, find-erase}
use ceph_global_cache_adapto.Monitor.Stat.{
  PoolUsageInfo, PoolUsageStat, get_pool_usage_info, get_pool_info, sum_from,
  get_pool_all_used_and_avail, info_or, merge, update_pool, update_pools, listed, deleted_pools,
  erase_all, compare_pools, touch_pools,
}

module _ {F : Type 0} where
  find-erase_all :
      (p : ℕ) (ps : List ℕ) (m : NatMap (PoolUsageInfo F))
      → find p (erase_all ps m) ≡ (if listed p ps then none else find p m)
  unfolding erase_all
  find-erase_all p [] m = refl
  find-erase_all p (q ∷ qs) m = ground (arith, find-erase_all p qs (erase q m), find-erase q p m)

  listed-deleted_kept :
      (p : ℕ) (list : List ℕ) (m : NatMap (PoolUsageInfo F))
      → listed p list ≡ true
      → listed p (deleted_pools list m) ≡ false
  unfolding deleted_pools
  listed-deleted_kept p list [] h = refl
  listed-deleted_kept p list ((q, j) ∷ m) h =
      ground (arith, listed-deleted_kept p list m, ==_iff q p)

  -- A pool of the table is marked for deletion exactly if it is not listed.
  listed-deleted :
      (p : ℕ) (list : List ℕ) (m : NatMap (PoolUsageInfo F)) (i : PoolUsageInfo F)
      → find p m ≡ some i
      → listed p (deleted_pools list m) ≡ not (listed p list)
  unfolding find deleted_pools
  listed-deleted p list [] i h = cc
  listed-deleted p list ((q, j) ∷ m) i h =
      ground (arith, listed-deleted p list m i, listed-deleted_kept p list m, ==_iff q p)

  -- The pools that are not listed keep their entries; a listed one gets the new reading, over and
  -- over if it is listed again, with the version that it had.
  find-update_pools :
      (z : F) (tmp : NatMap (PoolUsageInfo F)) (p : ℕ) (ps : List ℕ) (m : NatMap (PoolUsageInfo F))
      → find p (update_pools z tmp ps m) ≡ (
          if listed p ps
          then some (merge (info_or z (find p m)) (info_or z (find p tmp)))
          else find p m)
  unfolding update_pools update_pool
  find-update_pools z tmp p [] m = refl
  find-update_pools z tmp p (q ∷ qs) m = ground (
    arith,
    find-update_pools z tmp p qs (update_pool z tmp q m),
    find-insert q p (merge (info_or z (find q m)) (info_or z (find q tmp))) m,
    ==_iff q p,
  )

  -- A listed pool has a reading afterwards, of zeros where it had none.
  find-touch_pools :
      (z : F) (p : ℕ) (ps : List ℕ) (tmp : NatMap (PoolUsageInfo F))
      → find p (touch_pools z ps tmp)
        ≡ (if listed p ps then some (info_or z (find p tmp)) else find p tmp)
  unfolding touch_pools
  find-touch_pools z p [] tmp = refl
  find-touch_pools z p (q ∷ qs) tmp = ground (
    arith,
    find-touch_pools z p qs (insert q (info_or z (find q tmp)) tmp),
    find-insert q p (info_or z (find q tmp)) tmp,
    ==_iff q p,
  )

  -- After Compare the table has exactly the listed pools: a listed one with the new reading, or
  -- zeros where there is none, under the version that it had; every other pool is gone. The
  -- readings stay, but that a listed pool without one gets one of zeros; the list and the stripe
  -- size do not change.
  pub compare_exact :
      (z : F) (s : PoolUsageStat F) (p : ℕ)
      → (find p (compare_pools z s).pool_info_map ≡ (
          if listed p s.pool_list
          then some
              (merge (info_or z (find p s.pool_info_map)) (info_or z (find p s.tmp_pool_info_map)))
          else none))
        × (find p (compare_pools z s).tmp_pool_info_map ≡ (
            if listed p s.pool_list
            then some (info_or z (find p s.tmp_pool_info_map))
            else find p s.tmp_pool_info_map))
        × ((compare_pools z s).pool_list ≡ s.pool_list)
        × ((compare_pools z s).global_stripe_size ≡ s.global_stripe_size)
  unfolding compare_pools
  compare_exact z s p = (
    elim (Option-cases (find p info)) [
      | inl e ↦ ground (arith, e, erased, updated)
      | inr (i, e) ↦ ground (arith, e, erased, updated, listed-deleted p s.pool_list info i e)
    ],
    find-touch_pools z p s.pool_list s.tmp_pool_info_map,
    refl,
    refl,
  )
    where
      info : NatMap (PoolUsageInfo F)
      info = update_pools z s.tmp_pool_info_map s.pool_list s.pool_info_map

      erased :
          find p (erase_all (deleted_pools s.pool_list info) info)
          ≡ (if listed p (deleted_pools s.pool_list info) then none else find p info)
      erased = find-erase_all p (deleted_pools s.pool_list info) info

      updated : find p info ≡ (
          if listed p s.pool_list
          then some
              (merge (info_or z (find p s.pool_info_map)) (info_or z (find p s.tmp_pool_info_map)))
          else find p s.pool_info_map)
      updated = find-update_pools z s.tmp_pool_info_map p s.pool_list s.pool_info_map

  -- After Compare, GetPoolInfo and GetPoolUsageInfo answer for a listed pool that was read with
  -- what was read, and for a pool that is not listed with -ENOENT and -1, and no data.
  pub questions-compare :
      (z : F) (s : PoolUsageStat F) (p q : ℕ) (i : PoolUsageInfo F)
      → listed p s.pool_list ≡ true
      → find p s.tmp_pool_info_map ≡ some i
      → listed q s.pool_list ≡ false
      → (get_pool_info p (compare_pools z s) ≡ (ok_code, some (i.k, i.m, i.stripe_unit)))
        × (get_pool_usage_info true p (compare_pools z s)
            ≡ (ok_code, some (i.stored_size, i.objects_num, i.used_size, i.use_ratio, i.max_avail)))
        × (get_pool_info q (compare_pools z s) ≡ (neg enoent, none))
        × (get_pool_usage_info true q (compare_pools z s) ≡ (error_code, none))
  unfolding get_pool_info get_pool_usage_info
  questions-compare z s p q i h e k = (
    ground (arith, (compare_exact z s p).0),
    ground (arith, (compare_exact z s p).0),
    ground (arith, (compare_exact z s q).0),
    ground (arith, (compare_exact z s q).0),
  )

  -- The sum of the used sizes, and the first available size that is not 0, in the order of keys.
  abbrev pub total_used : NatMap (PoolUsageInfo F) → ℕ
  total_used [] = 0
  total_used ((p, i) ∷ m) = i.used_size + total_used m

  abbrev pub first_avail : NatMap (PoolUsageInfo F) → ℕ
  first_avail [] = 0
  first_avail ((p, i) ∷ m) = if i.max_avail == 0 then first_avail m else i.max_avail

  sum_from_lem :
      (used avail : ℕ) (m : NatMap (PoolUsageInfo F))
      → (u64 (sum_from used avail m).0 ≡ u64 (used + total_used m))
        × ((sum_from used avail m).1 ≡ (if avail == 0 then first_avail m else avail))
  unfolding sum_from
  sum_from_lem used avail [] = (ground arith, ground arith)
  sum_from_lem used avail ((p, i) ∷ m) =
      let next = if avail == 0 && not (i.max_avail == 0) then i.max_avail else avail in
      let (a, b) = sum_from_lem (u64 (used + i.used_size)) next m in
      (omega (arith, a), ground (arith, b))

  sum_from-lt :
      (used avail : ℕ) (m : NatMap (PoolUsageInfo F))
      → used < u64_mod
      → (sum_from used avail m).0 < u64_mod
  unfolding sum_from
  sum_from-lt used avail [] h = h
  sum_from-lt used avail ((p, i) ∷ m) h = sum_from-lt (u64 (used + i.used_size)) _ m (omega arith)

  -- GetPoolAllUsedAndAvail gives the sum of the used sizes mod 2^64, and the available size of
  -- the first pool, in the order of ids, where that is not 0; 0 where there is none.
  pub all_used_and_avail :
      (m : NatMap (PoolUsageInfo F))
      → get_pool_all_used_and_avail m ≡ (u64 (total_used m), first_avail m)
  unfolding get_pool_all_used_and_avail
  all_used_and_avail [] = refl
  all_used_and_avail ((p, i) ∷ m) =
      let rows : NatMap (PoolUsageInfo F) = (p, i) ∷ m in
      let (a, b) = sum_from_lem 0 i.max_avail rows in
      ground (arith, a, b, sum_from-lt 0 i.max_avail rows)
