-- ===== src/Monitor/Stat.antt =====
-- src/ceph_proxy/RadosMonitor.h, and lines 61-122 and 389-423 of RadosMonitor.cc: the state and
-- the table of the pools. Floating point is a parameter: its numbers, and the operations that the
-- code uses.
use ceph_global_cache_adapto.Prelude.{
  ℕ, ◌+◌, Bool, true, false, Option, none, some, List, [], ◌∷◌, ◌==◌, if◌then◌else◌, ◌||◌, ◌&&◌, ℤ,
  neg, ok_code, error_code, enoent, einval, not,
}
use ceph_global_cache_adapto.Prelude.Word.{u64}
use ceph_global_cache_adapto.Prelude.Text.{Text}
use ceph_global_cache_adapto.Prelude.NatMap
use ceph_global_cache_adapto.Prelude.NatMap.{NatMap}

pub record Floats : Type 1 where
  pub Float : Type 0
  pub atof : Text → Float
  pub of_nat : ℕ → Float
  pub times : Float → Float → Float
  pub over : Float → Float → Float
  pub to_u64 : Float → ℕ

-- PoolUsageInfo; `version` is never written.
pub record PoolUsageInfo (F : Type 0) : Type 0 where
  pub stored_size : ℕ
  pub objects_num : ℕ
  pub used_size : ℕ
  pub use_ratio : F
  pub max_avail : ℕ
  pub version : ℕ
  pub k : ℕ
  pub m : ℕ
  pub stripe_unit : ℕ
  pub is_ec : Bool

-- The data of PoolUsageStat that the reading of the pools changes.
pub record PoolUsageStat (F : Type 0) : Type 0 where
  pub pool_info_map : NatMap (PoolUsageInfo F)
  pub tmp_pool_info_map : NatMap (PoolUsageInfo F)
  pub pool_list : List ℕ
  pub global_stripe_size : ℕ

module _ {F : Type 0} where
  -- GetPoolUsageInfo: `wanted` is whether the caller's pointer is not null.
  unfoldable pub get_pool_usage_info : Bool → ℕ → PoolUsageStat F → ℤ × Option (ℕ × ℕ × ℕ × F × ℕ)
  get_pool_usage_info false pool s = (neg einval, none)
  get_pool_usage_info true pool s = elim (NatMap.find pool s.pool_info_map) [
    | none ↦ (error_code, none)
    | some i ↦ (ok_code, some (i.stored_size, i.objects_num, i.used_size, i.use_ratio, i.max_avail))
  ]

  -- GetPoolInfo
  unfoldable pub get_pool_info : ℕ → PoolUsageStat F → ℤ × Option (ℕ × ℕ × ℕ)
  get_pool_info pool s = elim (NatMap.find pool s.pool_info_map) [
    | none ↦ (neg enoent, none)
    | some i ↦ (ok_code, some (i.k, i.m, i.stripe_unit))
  ]

  -- The loop of GetPoolAllUsedAndAvail
  unfoldable pub sum_from : ℕ → ℕ → NatMap (PoolUsageInfo F) → ℕ × ℕ
  sum_from used avail [] = (used, avail)
  sum_from used avail ((pool, i) ∷ m) =
      sum_from (u64 (used + i.used_size))
        (if avail == 0 && not (i.max_avail == 0) then i.max_avail else avail) m

  -- GetPoolAllUsedAndAvail: the sum of the used sizes, and the space available.
  unfoldable pub get_pool_all_used_and_avail : NatMap (PoolUsageInfo F) → ℕ × ℕ
  unfolding sum_from
  get_pool_all_used_and_avail [] = (0, 0)
  get_pool_all_used_and_avail ((pool, i) ∷ m) = sum_from 0 i.max_avail ((pool, i) ∷ m)

  -- tmpPoolInfoMap[pool] where the pool may be missing: a new entry, all zero
  abbrev pub default_info : F → PoolUsageInfo F
  default_info zero_ratio = record {
    stored_size = 0;
    objects_num = 0;
    used_size = 0;
    use_ratio = zero_ratio;
    max_avail = 0;
    version = 0;
    k = 0;
    m = 0;
    stripe_unit = 0;
    is_ec = false;
  }

  abbrev pub info_or : F → Option (PoolUsageInfo F) → PoolUsageInfo F
  info_or z none = default_info z
  info_or z (some i) = i

  -- The entry of Compare: all fields of the new reading but the version.
  abbrev pub merge : PoolUsageInfo F → PoolUsageInfo F → PoolUsageInfo F
  merge old new = record new { version = old.version }

  -- One round of the first loop of Compare
  unfoldable pub update_pool :
      F → NatMap (PoolUsageInfo F) → ℕ → NatMap (PoolUsageInfo F) → NatMap (PoolUsageInfo F)
  update_pool z tmp pool info =
      NatMap.insert pool
        (merge (info_or z (NatMap.find pool info)) (info_or z (NatMap.find pool tmp))) info

  unfoldable pub update_pools :
      F → NatMap (PoolUsageInfo F) → List ℕ → NatMap (PoolUsageInfo F) → NatMap (PoolUsageInfo F)
  update_pools z tmp [] info = info
  update_pools z tmp (p ∷ ps) info = update_pools z tmp ps (update_pool z tmp p info)

-- std::find(list, pool) != end
abbrev pub listed : ℕ → List ℕ → Bool
listed p [] = false
listed p (q ∷ qs) = q == p || listed p qs

module _ {F : Type 0} where
  unfoldable pub deleted_pools : List ℕ → NatMap (PoolUsageInfo F) → List ℕ
  deleted_pools list [] = []
  deleted_pools list ((p, i) ∷ m) =
      let rest = deleted_pools list m in if listed p list then rest else p ∷ rest

  unfoldable pub erase_all : List ℕ → NatMap (PoolUsageInfo F) → NatMap (PoolUsageInfo F)
  erase_all [] m = m
  erase_all (p ∷ ps) m = erase_all ps (NatMap.erase p m)

  -- The first loop of Compare on tmpPoolInfoMap: to read a pool that is missing adds it, all zero.
  unfoldable pub touch_pools : F → List ℕ → NatMap (PoolUsageInfo F) → NatMap (PoolUsageInfo F)
  touch_pools z [] tmp = tmp
  touch_pools z (p ∷ ps) tmp =
      touch_pools z ps (NatMap.insert p (info_or z (NatMap.find p tmp)) tmp)

  -- Compare
  unfoldable pub compare_pools : F → PoolUsageStat F → PoolUsageStat F
  compare_pools z s =
      let info = update_pools z s.tmp_pool_info_map s.pool_list s.pool_info_map in
      record s {
        pool_info_map = erase_all (deleted_pools s.pool_list info) info;
        tmp_pool_info_map = touch_pools z s.pool_list s.tmp_pool_info_map;
      }
