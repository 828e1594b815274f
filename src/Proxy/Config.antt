-- ===== src/Proxy/Config.antt =====
-- src/ceph_proxy/ConfigRead.cc: the configuration of the proxy. Reading stores each value at once,
-- so a reading that fails leaves the values in front of the failure.
use ceph_global_cache_adapto.Prelude.{ℕ, Option, none, some, [], ℤ, ok_code, error_code}
use ceph_global_cache_adapto.Prelude.Text.{Text, codes}
use ceph_global_cache_adapto.Prelude.Word.{u32}

-- GetCfgItemCstr and GetCfgItemUint64 for the unit "proxy"; `none` where they fail.
pub record ProxyItems : Type 0 where
  pub cstr : Text → Option Text
  pub uint64 : Text → Option ℕ

-- ProxyControlCfg
pub record ProxyControlCfg : Type 0 where
  pub zk_server_list : Text
  pub ceph_conf_path : Text
  pub ceph_keyring_path : Text
  pub core_ids : Text
  pub worker_num : ℕ
  pub msgr_amount : ℕ
  pub bind_core : ℕ
  pub osd_timeout : ℕ
  pub mon_timeout : ℕ

-- memset and InitClusterCfg
abbrev pub init_cluster_cfg : ProxyControlCfg
init_cluster_cfg = record {
  zk_server_list = codes "localhost:2181";
  ceph_conf_path = codes "/etc/ceph/ceph.conf";
  ceph_keyring_path = [];
  core_ids = codes "26,27,28,29";
  worker_num = 1;
  msgr_amount = 3;
  bind_core = 0;
  osd_timeout = 0;
  mon_timeout = 0;
}

-- One value: a failure ends the reading with -1 and what was read so far.
abbrev pub item :
    {A : Type 0} → Option A → ProxyControlCfg → (A → ℤ × ProxyControlCfg) → ℤ × ProxyControlCfg
item none c next = (error_code, c)
item (some a) c next = next a

unfoldable pub read_osd_timeout : ProxyItems → ProxyControlCfg → ℤ × ProxyControlCfg
read_osd_timeout items c =
    item (items.uint64 (codes "rados_osd_op_timeout")) c
      (λ n. (ok_code, record c { osd_timeout = n }))

unfoldable pub read_mon_timeout : ProxyItems → ProxyControlCfg → ℤ × ProxyControlCfg
unfolding read_osd_timeout
read_mon_timeout items c =
    item (items.uint64 (codes "rados_mon_op_timeout")) c
      (λ n. read_osd_timeout items (record c { mon_timeout = n }))

unfoldable pub read_bind_core : ProxyItems → ProxyControlCfg → ℤ × ProxyControlCfg
unfolding read_mon_timeout
read_bind_core items c =
    item (items.uint64 (codes "bind_core")) c
      (λ n. read_mon_timeout items (record c { bind_core = n }))

unfoldable pub read_core_number : ProxyItems → ProxyControlCfg → ℤ × ProxyControlCfg
unfolding read_bind_core
read_core_number items c =
    item (items.cstr (codes "core_number")) c
      (λ s. read_bind_core items (record c { core_ids = s }))

unfoldable pub read_keyring_path : ProxyItems → ProxyControlCfg → ℤ × ProxyControlCfg
unfolding read_core_number
read_keyring_path items c =
    item (items.cstr (codes "ceph_keyring_path")) c
      (λ s. read_core_number items (record c { ceph_keyring_path = s }))

-- ReadConfig
unfoldable pub read_proxy_config : ProxyItems → ProxyControlCfg → ℤ × ProxyControlCfg
unfolding read_keyring_path
read_proxy_config items c =
    item (items.cstr (codes "ceph_conf_path")) c
      (λ s. read_keyring_path items (record c { ceph_conf_path = s }))

-- ProxyConfigInit
unfoldable pub proxy_config_init : ProxyItems → ℤ × ProxyControlCfg
unfolding read_proxy_config
proxy_config_init items = read_proxy_config items init_cluster_cfg

-- The getters cut the numbers to 32 bits, but for the time-outs.
unfoldable pub proxy_get_bind_core : ProxyControlCfg → ℕ
proxy_get_bind_core c = u32 c.bind_core

unfoldable pub proxy_get_worker_num : ProxyControlCfg → ℕ
proxy_get_worker_num c = u32 c.worker_num

unfoldable pub proxy_get_msgr_amount : ProxyControlCfg → ℕ
proxy_get_msgr_amount c = u32 c.msgr_amount
