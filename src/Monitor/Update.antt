-- ===== src/Monitor/Update.antt =====
-- src/ceph_proxy/RadosMonitor.cc, lines 425-588: one update of the pools' usage, and the timer
-- that repeats it.
use ceph_global_cache_adapto.Prelude.{
  ℕ, Bool, Option, none, some, List, [], ◌∷◌, ◌==◌, if◌then◌else◌, ℤ, ok_code, error_code, is_zero,
  is_neg,
}
use ceph_global_cache_adapto.Prelude.Text.{Text, tokens}
use ceph_global_cache_adapto.Ccm.{
  Adaptor, Notify, fresh, report_create_pool, register_pool_create_report_fn,
}
use ceph_global_cache_adapto.Monitor.Stat.{Floats, PoolUsageStat, compare_pools}
use ceph_global_cache_adapto.Monitor.Profile.{Cluster, newline}
use ceph_global_cache_adapto.Monitor.Record.{Recorded, recorded, failed, raised, record_pool}

-- How UpdatePoolUsage ends: with a code, or by an exception, which ends the process.
pub data Ended (F : Type 0) : Type 0 where
  ended : ℤ → PoolUsageStat F → Ended F
  died : Ended F

module _ (fl : Floats) where
  open fl use {Float, of_nat}

  -- What follows a call of Record that returned 0
  abbrev pub then_record :
      {cl : Cluster} → Recorded fl cl → (PoolUsageStat Float → Recorded fl cl) → Recorded fl cl
  then_record (recorded s) f = f s
  then_record (failed s) f = failed s
  then_record raised f = raised

  -- The loop of GetPoolStorageUsage over the lines of the report
  unfoldable pub record_lines : (cl : Cluster) → List Text → PoolUsageStat Float → Recorded fl cl
  record_lines cl [] s = recorded s
  record_lines cl (line ∷ lines) s = elim (cl.match_line line) [
    | none ↦ record_lines cl lines s
    | some groups ↦ then_record (record_pool fl cl groups s) (λ s'. record_lines cl lines s')
  ]

  -- GetPoolStorageUsage
  unfoldable pub get_pool_storage_usage :
      (cl : Cluster) → Text → PoolUsageStat Float → Recorded fl cl
  unfolding record_lines
  get_pool_storage_usage cl input s =
      then_record (record_lines cl (tokens (λ c. c == newline) input) s)
        (λ s'. recorded (compare_pools (of_nat 0) s'))

  -- ReportPoolNewAndDel
  unfoldable pub report_pool_new_and_del : Bool → Adaptor → List ℕ → ℤ
  report_pool_new_and_del allocated a pools =
      if is_zero (report_create_pool allocated a pools) then ok_code else error_code

  abbrev pub cleared : PoolUsageStat Float → PoolUsageStat Float
  cleared s = record s { pool_list = []; tmp_pool_info_map = [] }

  -- UpdatePoolList
  unfoldable pub update_pool_list : Bool → Adaptor → PoolUsageStat Float → ℤ × PoolUsageStat Float
  unfolding report_pool_new_and_del
  update_pool_list allocated a s = (
    if is_zero (report_pool_new_and_del allocated a s.pool_list) then ok_code else error_code,
    cleared s,
  )

  abbrev pub finish_update : {cl : Cluster} → Bool → Adaptor → Recorded fl cl → Ended Float
  finish_update allocated a (recorded s) =
      ended (if is_zero (update_pool_list allocated a s).0 then ok_code else error_code)
        (update_pool_list allocated a s).1
  finish_update allocated a (failed s) = ended error_code s
  finish_update allocated a raised = died

  -- UpdatePoolUsage
  unfoldable pub update_pool_usage : Cluster → Bool → Adaptor → PoolUsageStat Float → Ended Float
  unfolding get_pool_storage_usage update_pool_list
  update_pool_usage cl allocated a s =
      if is_neg cl.df.0
      then ended cl.df.0 s
      else finish_update allocated a (get_pool_storage_usage cl cl.df.1 s)

  -- PoolUsageTimer: a round for each time that the thread wakes up before Stop. Codes are only
  -- logged.
  unfoldable pub pool_usage_timer :
      List (Cluster × Bool) → Adaptor → PoolUsageStat Float → Option (PoolUsageStat Float)
  pool_usage_timer [] a s = some s
  pool_usage_timer ((cl, allocated) ∷ rounds) a s = elim (update_pool_usage cl allocated a s) [
    | ended ret s' ↦ pool_usage_timer rounds a s'
    | died ↦ none
  ]

  -- Start: an adaptor with no callback, one update, and then the timer.
  unfoldable pub start :
      Cluster × Bool → List (Cluster × Bool) → PoolUsageStat Float → Option (PoolUsageStat Float)
  unfolding pool_usage_timer
  start first rounds s = pool_usage_timer (first ∷ rounds) fresh s

-- RegisterPoolNewNotifyFn: refused while Start has made no adaptor.
unfoldable pub register_pool_new_notify_fn : Option Notify → Option Adaptor → ℤ × Option Adaptor
register_pool_new_notify_fn fn none = (error_code, none)
register_pool_new_notify_fn fn (some a) =
    let (ret, a') = register_pool_create_report_fn fn a in
    (if is_zero ret then ok_code else error_code, some a')
