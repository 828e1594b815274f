-- ===== src/Examples/Usage.antt =====
-- The monitor of src/ceph_proxy/RadosMonitor.cc at concrete reports, with natural numbers in place
-- of floating point.
use ceph_global_cache_adapto.Prelude.{
  ℕ, ◌*◌, ◌/◌, ◌≡◌, ◌≢◌, refl, true, false, none, some, List, [], ◌∷◌, arith, pos, negsuc, neg,
  ok_code, enoent, eacces, ◌&&◌, not, ◌⊎◌, is_zero, int_beq,
}
use ceph_global_cache_adapto.Prelude.Word.{u64}
use ceph_global_cache_adapto.Prelude.Text.{Text, codes, atoi, of_int32, tokens}
use ceph_global_cache_adapto.Prelude.NatMap.{find}
use ceph_global_cache_adapto.Ccm.{fresh, report_create_pool}
use ceph_global_cache_adapto.Monitor.Stat.{
  Floats, PoolUsageInfo, PoolUsageStat, default_info, listed, compare_pools,
  get_pool_all_used_and_avail,
}
use ceph_global_cache_adapto.Monitor.Profile.{Cluster}
use ceph_global_cache_adapto.Monitor.Record.{record_pool}
use ceph_global_cache_adapto.Monitor.Update.{Ended, ended, died, update_pool_usage}
use ceph_global_cache_adapto.Monitor.Compare.{compare_exact, all_used_and_avail}
use ceph_global_cache_adapto.Monitor.Rounds.{IsRead, update_outcome, stale_survives}

abbrev whole : Floats
whole = record {
  Float = ℕ;
  atof = λ s. of_int32 (atoi s);
  of_nat = λ n. n;
  times = λ a b. a * b;
  over = λ a b. a / b;
  to_u64 = λ a. u64 a;
}

abbrev Stat : Type 0
Stat = PoolUsageStat ℕ

abbrev info : ℕ → PoolUsageInfo ℕ
info size = record (default_info 0) { used_size = size; max_avail = 1000; k = 1; m = 2 }

-- Pool 3 is listed and was read; pool 5 is in the table and is not listed any more.
abbrev stat : Stat
stat = record {
  pool_info_map = (5, info 10) ∷ [];
  tmp_pool_info_map = (3, info 20) ∷ [];
  pool_list = 3 ∷ [];
  global_stripe_size = 4096;
}

compare_exact_example :
    (find 3 (compare_pools 0 stat).pool_info_map ≡ some (info 20))
    × (find 3 (compare_pools 0 stat).tmp_pool_info_map ≡ some (info 20))
    × ((compare_pools 0 stat).pool_list ≡ stat.pool_list)
    × ((compare_pools 0 stat).global_stripe_size ≡ stat.global_stripe_size)
unfolding find
compare_exact_example = compare_exact 0 stat 3

found_3 : find 3 stat.tmp_pool_info_map ≡ some (info 20)
unfolding find
found_3 = refl

all_used_and_avail_example :
    get_pool_all_used_and_avail ((3, info 20) ∷ (5, info 10) ∷ []) ≡ (30, 1000)
all_used_and_avail_example = all_used_and_avail ((3, info 20) ∷ (5, info 10) ∷ [])

abbrev line_groups : List Text
line_groups =
    codes "rbd"
    ∷ codes "7"
    ∷ codes "5"
    ∷ codes "KiB"
    ∷ codes "2"
    ∷ codes ""
    ∷ codes "15"
    ∷ codes "KiB"
    ∷ codes "1"
    ∷ codes "9"
    ∷ codes "GiB"
    ∷ []

-- A cluster with the replicated pool 7, whose report has one line.
abbrev cluster : Cluster
cluster = record {
  df = (pos 0, codes "rbd");
  ec_of_pool = λ name. (neg eacces, []);
  ec_profile = λ name. (neg enoent, []);
  default_stripe_unit = (pos 0, codes "4096\n");
  pool_stat = λ pool. some (pos 0, 2, 6);
  match_line = λ line. some line_groups;
}

-- The same cluster where the question for the pool's kind fails
abbrev silent : Cluster
silent = record cluster { ec_of_pool = λ name. (negsuc 4, []) }

abbrev state_of : Ended ℕ → Stat
state_of (ended ret s) = s
state_of died = stat

abbrev empty_stat : Stat
empty_stat = record {
  pool_info_map = [];
  tmp_pool_info_map = [];
  pool_list = [];
  global_stripe_size = 4096;
}

abbrev read_7 : Stat
read_7 = state_of (update_pool_usage whole cluster true fresh empty_stat)

updates : update_pool_usage whole cluster true fresh empty_stat ≡ ended ok_code read_7
unfolding update_pool_usage tokens record_pool atoi int_beq report_create_pool compare_pools fresh
updates = refl

empty-IsRead : IsRead empty_stat
empty-IsRead = λ p h. absurd (ground arith)

update_outcome_example :
    IsRead read_7
    × (((read_7.pool_list ≡ []) × (read_7.tmp_pool_info_map ≡ []))
        ⊎ ((is_zero ok_code ≡ false)
            × (read_7.pool_info_map ≡ empty_stat.pool_info_map)
            × ((listed 7 empty_stat.pool_list && not (listed 7 read_7.pool_list)) ≡ false)))
update_outcome_example =
    update_outcome whole cluster true fresh empty_stat read_7 ok_code 7 updates empty-IsRead

-- The update read pool 3 and failed before Compare; the next one ends with 0.
abbrev after_stale : Stat
after_stale = state_of (update_pool_usage whole cluster true fresh stat)

stale_updates : update_pool_usage whole cluster true fresh stat ≡ ended ok_code after_stale
unfolding update_pool_usage tokens record_pool atoi int_beq report_create_pool compare_pools fresh
stale_updates = refl

stale_survives_example : find 3 after_stale.pool_info_map ≢ none
stale_survives_example =
    stale_survives whole cluster true fresh stat after_stale 3 refl stale_updates
