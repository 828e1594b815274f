-- ===== src/Monitor/Record.antt =====
-- src/ceph_proxy/RadosMonitor.cc, lines 252-387: GetPoolReplicationSize, ParseToRecordInfo,
-- CalPoolSize and Record.
use ceph_global_cache_adapto.Prelude.{
  ℕ, suc, ◌+◌, Bool, false, Option, none, some, List, [], ◌∷◌, ◌++◌, ◌==◌, if◌then◌else◌, ℤ, pos,
  negsuc, is_zero, ◌||◌,
}
use ceph_global_cache_adapto.Prelude.Word.{u32}
use ceph_global_cache_adapto.Prelude.Text.{Text, atoi}
use ceph_global_cache_adapto.Prelude.NatMap
use ceph_global_cache_adapto.Monitor.Units.{trans_str_unit_to_num}
use ceph_global_cache_adapto.Monitor.Stat.{Floats, PoolUsageInfo, PoolUsageStat, info_or}
use ceph_global_cache_adapto.Monitor.Profile.{
  Cluster, is_ec_pool, global_stripe, Profile, get_ec_profile_size, RecordInfo, objects_unit,
}

module _ (fl : Floats) (cl : Cluster) where
  open fl use {Float, atof, of_nat, times, over, to_u64}

  -- memset, and the units of Record
  unfoldable pub blank_info : RecordInfo Float
  blank_info = record {
    pool_id = 0;
    stored_size = of_nat 0;
    stored_size_unit = 1;
    objects_num = of_nat 0;
    num_unit = 1;
    used_size = of_nat 0;
    used_size_unit = 1;
    max_avail = of_nat 0;
    max_avail_unit = 1;
    use_ratio = of_nat 0;
    pool_name = [];
    profile = [];
    is_ec = false;
    ec_k = 0;
    ec_m = 0;
    stripe_unit = 0;
    rep = of_nat 0;
  }

  abbrev with_id : ℤ → RecordInfo Float → Option (RecordInfo Float)
  with_id (pos n) info = some (record info { pool_id = n })
  with_id (negsuc n) info = none

  -- One round of the loop of ParseToRecordInfo, for the group with this number
  unfoldable pub parse_group : ℕ → Text → RecordInfo Float → Option (RecordInfo Float)
  parse_group i s info =
      if i == 1
      then some (record info { pool_name = s })
      else if i == 2
      then with_id (atoi s) info
      else if i == 3
      then some (record info { stored_size = atof s })
      else if i == 4
      then some (record info { stored_size_unit = trans_str_unit_to_num s })
      else if i == 5
      then some (record info { objects_num = atof s })
      else if i == 6
      then some (record info { num_unit = objects_unit info.num_unit s })
      else if i == 7
      then some (record info { used_size = atof s })
      else if i == 8
      then some (record info { used_size_unit = trans_str_unit_to_num s })
      else if i == 9
      then some (record info { use_ratio = atof s })
      else if i == 10
      then some (record info { max_avail = atof s })
      else if i == 11
      then some (record info { max_avail_unit = trans_str_unit_to_num s })
      else some info

  unfoldable pub parse_groups : ℕ → List Text → RecordInfo Float → Option (RecordInfo Float)
  parse_groups i [] info = some info
  parse_groups i (s ∷ ss) info = elim (parse_group i s info) [
    | none ↦ none
    | some info' ↦ parse_groups (suc i) ss info'
  ]

  abbrev with_profile : ℤ × Option Text × Bool → RecordInfo Float → Option (RecordInfo Float)
  with_profile (ret, none, ec) info =
      if is_zero ret then some (record info { is_ec = ec }) else none
  with_profile (ret, some name, ec) info =
      if is_zero ret then some (record info { is_ec = ec; profile = name }) else none

  -- ParseToRecordInfo: `none` is the code -1.
  unfoldable pub parse_to_record_info : List Text → RecordInfo Float → Option (RecordInfo Float)
  unfolding parse_groups parse_group is_ec_pool
  parse_to_record_info groups info = elim (parse_groups 1 groups info) [
    | none ↦ none
    | some info' ↦ with_profile (is_ec_pool (cl.ec_of_pool info'.pool_name)) info'
  ]

  -- GetPoolReplicationSize: `none` is the code -1.
  unfoldable pub replication : Option (ℤ × ℕ × ℕ) → Option Float
  replication none = none
  replication (some (ret, objects, copies)) =
      if is_zero ret
      then if objects == 0 || copies == 0
        then some (of_nat 3)
        else some (over (times (of_nat copies) (of_nat 1)) (of_nat objects))
      else none

  unfoldable pub get_pool_replication_size : ℕ → Option Float
  unfolding replication
  get_pool_replication_size pool = replication (cl.pool_stat pool)

  -- How CalPoolSize ends: the code and the unit that is remembered after it.
  pub data Sized : Type 0 where
    sized : RecordInfo Float → ℕ → Sized
    unsized : ℕ → Sized
    threw : Sized

  abbrev ec_sized : RecordInfo Float → Option (ℤ × Profile × ℕ) → Sized
  ec_sized info none = threw
  ec_sized info (some (ret, p, global)) =
      if is_zero ret
      then sized
          (record info {
            ec_k = p.k;
            ec_m = p.m;
            stripe_unit = p.stripe_unit;
            rep = over (times (of_nat (u32 (p.k + p.m))) (of_nat 1)) (of_nat p.k);
          })
          global
      else unsized global

  abbrev replica_sized : RecordInfo Float → ℕ → Option Float → Sized
  replica_sized info unit none = unsized unit
  replica_sized info unit (some rep) =
      sized (record info { ec_k = 1; ec_m = 2; stripe_unit = unit; rep = rep }) unit

  -- CalPoolSize
  unfoldable pub cal_pool_size : RecordInfo Float → ℕ → Sized
  unfolding get_ec_profile_size global_stripe get_pool_replication_size
  cal_pool_size info global =
      if info.is_ec
      then ec_sized info (
          get_ec_profile_size (cl.ec_profile info.profile) cl.default_stripe_unit global
            (record { k = info.ec_k; m = info.ec_m; stripe_unit = info.stripe_unit }))
      else elim (global_stripe global cl.default_stripe_unit) [
        | none ↦ threw
        | some unit ↦ replica_sized info unit (get_pool_replication_size info.pool_id)
      ]

  -- The entry that Record writes to tmpPoolInfoMap
  unfoldable pub reading : RecordInfo Float → PoolUsageInfo Float → PoolUsageInfo Float
  reading i old = record {
    stored_size = to_u64 (times i.stored_size (of_nat i.stored_size_unit));
    objects_num = to_u64 (times i.objects_num (of_nat i.num_unit));
    used_size = to_u64 (times i.used_size (of_nat i.used_size_unit));
    use_ratio = i.use_ratio;
    max_avail = to_u64 (times (times i.max_avail (of_nat i.max_avail_unit)) i.rep);
    version = old.version;
    k = i.ec_k;
    m = i.ec_m;
    stripe_unit = i.stripe_unit;
    is_ec = i.is_ec;
  }

  -- How Record ends: with 0, with -1, or by an exception.
  pub data Recorded : Type 0 where
    recorded failed : PoolUsageStat Float → Recorded
    raised : Recorded

  abbrev pub record_sized : PoolUsageStat Float → Sized → Recorded
  record_sized s (sized i global) = recorded (record {
    pool_info_map = s.pool_info_map;
    tmp_pool_info_map =
        NatMap.insert i.pool_id
          (reading i (info_or (of_nat 0) (NatMap.find i.pool_id s.tmp_pool_info_map)))
          s.tmp_pool_info_map;
    pool_list = s.pool_list ++ (i.pool_id ∷ []);
    global_stripe_size = global;
  })
  record_sized s (unsized global) = failed (record s { global_stripe_size = global })
  record_sized s threw = raised

  -- Record
  unfoldable pub record_pool : List Text → PoolUsageStat Float → Recorded
  unfolding parse_to_record_info cal_pool_size reading blank_info
  record_pool groups s = elim (parse_to_record_info groups blank_info) [
    | none ↦ failed s
    | some info ↦ record_sized s (cal_pool_size info s.global_stripe_size)
  ]
