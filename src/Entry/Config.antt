-- ===== src/Entry/Config.antt =====
-- src/server_adaptor/config_read.cpp: the configuration file. The functions that look a key up in
-- it are not in the repository.
use ceph_global_cache_adapto.Prelude.{◌>>=◌, ℕ, Option, some, ltb, if◌then◌else◌}
use ceph_global_cache_adapto.Prelude.Text.{Text, codes}
use ceph_global_cache_adapto.Prelude.Word.{u32}

-- GetCfgItemCstr with the size of the buffer, and GetCfgItemUint64; `none` where they fail. The
-- number of processors that are configured.
pub record Items : Type 0 where
  pub cstr : ℕ → Text → Text → Option Text
  pub uint64 : Text → Text → Option ℕ
  pub nprocs_conf : ℕ

-- SA_ClusterControlCfg
pub record ClusterControlCfg : Type 0 where
  pub listen_ip : Text
  pub listen_port : Text
  pub core_number : Text
  pub queue_amount : ℕ
  pub msgr_amount : ℕ
  pub bind_core : ℕ
  pub bind_queue_core : ℕ
  pub queue_max_capacity : ℕ
  pub write_qos : ℕ
  pub get_quota_cyc : ℕ
  pub messenger_throttle : ℕ
  pub sa_op_throttle : ℕ

abbrev max_ipv4_addr_len : ℕ
max_ipv4_addr_len = 16

abbrev max_port_size : ℕ
max_port_size = 128

-- The key of the processors to use goes by how many there are.
unfoldable pub core_number_key : ℕ → Text
core_number_key cpu_num =
    if ltb cpu_num 96
    then codes "core_number_64"
    else if ltb cpu_num 128
    then codes "core_number_96"
    else if ltb cpu_num 256
    then codes "core_number_128"
    else codes "core_number_256"

-- SetCfgCorenum
unfoldable pub set_cfg_corenum : Items → Option Text
unfolding core_number_key
set_cfg_corenum items = items.cstr max_port_size (codes "sa") (core_number_key items.nprocs_conf)

-- ReadConfig; the buffer of the ports is given the size of an address.
unfoldable pub read_config : Items → Option ClusterControlCfg
unfolding set_cfg_corenum
read_config items = do
  listen_ip ← items.cstr max_ipv4_addr_len (codes "communicate") (codes "public_ipv4_addr")
  listen_port ← items.cstr max_ipv4_addr_len (codes "communicate") (codes "local_port")
  core_number ← set_cfg_corenum items
  queue_amount ← items.uint64 (codes "sa") (codes "queue_amount")
  queue_max_capacity ← items.uint64 (codes "sa") (codes "queue_max_capacity")
  msgr_amount ← items.uint64 (codes "sa") (codes "msgr_amount")
  bind_core ← items.uint64 (codes "sa") (codes "bind_core")
  bind_queue_core ← items.uint64 (codes "sa") (codes "bind_queue_core")
  write_qos ← items.uint64 (codes "sa") (codes "write_qos")
  get_quota_cyc ← items.uint64 (codes "sa") (codes "get_quota_cyc")
  messenger_throttle ← items.uint64 (codes "sa") (codes "enable_messenger_throttle")
  sa_op_throttle ← items.uint64 (codes "sa") (codes "sa_op_throttle")
  some record {
    listen_ip = listen_ip;
    listen_port = listen_port;
    core_number = core_number;
    queue_amount = queue_amount;
    msgr_amount = msgr_amount;
    bind_core = bind_core;
    bind_queue_core = bind_queue_core;
    queue_max_capacity = queue_max_capacity;
    write_qos = write_qos;
    get_quota_cyc = get_quota_cyc;
    messenger_throttle = messenger_throttle;
    sa_op_throttle = sa_op_throttle;
  }

-- CacheClusterConfigInit
unfoldable pub cache_cluster_config_init : Items → Option ClusterControlCfg
unfolding read_config
cache_cluster_config_init items = read_config items

-- The getters of OsaConfigRead cut the 64-bit numbers to 32 bits.
unfoldable pub get_queue_amount : ClusterControlCfg → ℕ
get_queue_amount c = u32 c.queue_amount

unfoldable pub get_msgr_amount : ClusterControlCfg → ℕ
get_msgr_amount c = u32 c.msgr_amount

unfoldable pub get_bind_core : ClusterControlCfg → ℕ
get_bind_core c = u32 c.bind_core

unfoldable pub get_bind_queue_core : ClusterControlCfg → ℕ
get_bind_queue_core c = u32 c.bind_queue_core

unfoldable pub get_queue_max_capacity : ClusterControlCfg → ℕ
get_queue_max_capacity c = u32 c.queue_max_capacity

unfoldable pub get_write_qos : ClusterControlCfg → ℕ
get_write_qos c = u32 c.write_qos

unfoldable pub get_quot_cyc : ClusterControlCfg → ℕ
get_quot_cyc c = u32 c.get_quota_cyc

unfoldable pub get_messenger_throttle : ClusterControlCfg → ℕ
get_messenger_throttle c = u32 c.messenger_throttle

unfoldable pub get_sa_op_throttle : ClusterControlCfg → ℕ
get_sa_op_throttle c = c.sa_op_throttle
