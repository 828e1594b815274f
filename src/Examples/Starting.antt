-- ===== src/Examples/Starting.antt =====
-- OSA_Init of src/server_adaptor/osa.cpp with concrete configurations.
use ceph_global_cache_adapto.Prelude.{
  ◌-◌, ◌%◌, ◌+◌, get_elem?, ◌<◌, ℕ, ◌≡◌, refl, none, some, [], ◌∷◌, length, arith, List, pos,
}
use ceph_global_cache_adapto.Prelude.Dict.{Dict, find, insert}
use ceph_global_cache_adapto.Prelude.Text.{Text, codes, text_eq, text_key}
use ceph_global_cache_adapto.Loader.Types.{Env, in_class_list, elem, class_at, new_class}
use ceph_global_cache_adapto.Loader.Load.{load_class}
use ceph_global_cache_adapto.Cls.Ordered.{text_lt}
use ceph_global_cache_adapto.Entry.Config.{Items, ClusterControlCfg, cache_cluster_config_init}
use ceph_global_cache_adapto.Entry.Checks.{
  Machine, Settings, check_settings, named, other_interface,
}
use ceph_global_cache_adapto.Entry.Start.{
  create_work_thread, Running, Messenger, osa_init, Ending, returned, divides_by_zero,
}
use ceph_global_cache_adapto.Entry.Bounds.{
  threads_on_cores, osa_init-InBounds, no_cores_divides, InBounds, first_left,
}

abbrev machine : Machine
machine = record {
  interfaces = some (other_interface ∷ named (codes "10.0.0.7") ∷ []);
  nprocs_onln = 64;
}

abbrev texts : Text → Dict Text Text
texts cores =
    (codes "public_ipv4_addr", codes "10.0.0.7")
    ∷ (codes "local_port", codes "6800,6801")
    ∷ (codes "core_number_64", cores)
    ∷ []

abbrev numbers : ℕ → Dict Text ℕ
numbers bind_core =
    (codes "queue_amount", 6)
    ∷ (codes "queue_max_capacity", 64)
    ∷ (codes "msgr_amount", 3)
    ∷ (codes "bind_core", bind_core)
    ∷ (codes "bind_queue_core", 0)
    ∷ (codes "write_qos", 1)
    ∷ (codes "get_quota_cyc", 200)
    ∷ (codes "enable_messenger_throttle", 0)
    ∷ (codes "sa_op_throttle", 2000)
    ∷ []

abbrev items_of : Text → ℕ → Items
items_of cores bind_core = record {
  cstr = λ n u key. find key (texts cores);
  uint64 = λ u key. find key (numbers bind_core);
  nprocs_conf = 64;
}

abbrev items : Items
items = items_of (codes "0,1,2,3,4,10,11") 1

abbrev cfg : ClusterControlCfg
cfg = record {
  listen_ip = codes "10.0.0.7";
  listen_port = codes "6800,6801";
  core_number = codes "0,1,2,3,4,10,11";
  queue_amount = 6;
  msgr_amount = 3;
  bind_core = 1;
  bind_queue_core = 0;
  queue_max_capacity = 64;
  write_qos = 1;
  get_quota_cyc = 200;
  messenger_throttle = 0;
  sa_op_throttle = 2000;
}

abbrev settings : Settings
settings = record {
  addr = codes "10.0.0.7";
  ports = codes "6800" ∷ codes "6801" ∷ [];
  core_ids = 0 ∷ 1 ∷ 2 ∷ 3 ∷ 4 ∷ 10 ∷ 11 ∷ [];
  queue_amount = 6;
  queue_max_capacity = 64;
  msgr_amount = 3;
  bind_core = 1;
  bind_sa_core = 0;
  qos = record {
    limit_write = 1;
    get_quota_cycle = 200;
    enable_throttle = 0;
    sa_op_throttle = 2000;
  };
}

accepts : check_settings machine cfg ≡ some settings
unfolding check_settings
accepts = refl

threads_on_cores_example :
    (cpus : List ℕ) × (create_work_thread settings ≡ some cpus)
    × (length cpus ≡ 6)
    × ((k : ℕ)
        → k < 6
        → (cpu : ℕ) × (get_elem? cpus k ≡ some cpu)
          × (get_elem? settings.core_ids
                (first_left settings + k % (length settings.core_ids - first_left settings))
              ≡ some cpu)
          × (cpu < 64))
threads_on_cores_example = threads_on_cores machine cfg settings accepts (omega arith)

-- No class is found.
abbrev no_libraries : Env
no_libraries = record {
  class_path = [];
  dlopen = λ f. none;
  stat = λ f. some 2;
  class_deps = λ h. [];
  cls_init = λ h. none;
  class_load_list = codes "*";
  class_default_list = codes "*";
  before = text_lt;
}

abbrev messenger : Messenger
messenger = record { init_network_module = λ s. pos 0; bind_success = λ t. pos 1 }

abbrev running_of : Ending → Running
running_of (returned r (some x)) = x
running_of _ = record { thread_cpus = []; settings = settings; classes = [] }

abbrev started : Running
started = running_of (osa_init no_libraries 1 messenger machine items none)

starts : osa_init no_libraries 1 messenger machine items none ≡ returned (pos 0) (some started)
unfolding osa_init find in_class_list elem load_class class_at insert new_class
starts = refl

osa_init-InBounds_example :
    InBounds started.settings × (length started.thread_cpus ≡ started.settings.queue_amount)
osa_init-InBounds_example =
    osa_init-InBounds no_libraries 1 messenger machine items (pos 0) started starts

-- No processor is configured, and none is bound.
abbrev bare : Items
bare = items_of [] 0

abbrev bare_cfg : ClusterControlCfg
bare_cfg = record (cfg) { core_number = []; bind_core = 0 }

abbrev bare_settings : Settings
bare_settings = record (settings) { core_ids = []; bind_core = 0 }

bare_read : cache_cluster_config_init bare ≡ some bare_cfg
unfolding cache_cluster_config_init find text_eq
bare_read = refl

bare_accepted : check_settings machine bare_cfg ≡ some bare_settings
unfolding check_settings
bare_accepted = refl

no_cores_divides_example : osa_init no_libraries 1 messenger machine bare none ≡ divides_by_zero
no_cores_divides_example =
    no_cores_divides no_libraries 1 messenger machine bare bare_cfg bare_settings bare_read
      bare_accepted refl refl
