-- ===== src/Entry/Checks.antt =====
-- src/server_adaptor/osa.cpp: the checks that OSA_Init makes of the configuration.
use ceph_global_cache_adapto.Prelude.{
  ℕ, ◌+◌, Bool, true, false, Option, none, some, List, [], ◌∷◌, ◌&&◌, ◌||◌, ◌==◌, not, ltb, leb,
  length, if◌then◌else◌, ℤ, pos, negsuc,
}
use ceph_global_cache_adapto.Prelude.Text.{Text, text_eq, tokens, is_digit, atoi}
use ceph_global_cache_adapto.Entry.Config.{
  ClusterControlCfg, get_queue_amount, get_msgr_amount, get_bind_core, get_bind_queue_core,
  get_queue_max_capacity, get_write_qos, get_quot_cyc, get_messenger_throttle, get_sa_op_throttle,
}

-- One interface of the machine, for getifaddrs and getnameinfo: it has no address or one of another
-- family, a numeric name, or one that cannot be had.
pub data Interface : Type 0 where
  other_interface unnamed : Interface
  named : Text → Interface

-- The machine: its interfaces (`none` where getifaddrs fails) and the processors that are online
pub record Machine : Type 0 where
  pub interfaces : Option (List Interface)
  pub nprocs_onln : ℕ

-- IsDigit
unfoldable pub all_digits : Text → Bool
all_digits [] = true
all_digits (c ∷ s) = is_digit c && all_digits s

unfoldable pub has_address : Text → List Interface → Bool
unfolding text_eq
has_address ipaddr [] = false
has_address ipaddr (other_interface ∷ is) = has_address ipaddr is
has_address ipaddr (unnamed ∷ is) = false
has_address ipaddr (named host ∷ is) = text_eq ipaddr host || has_address ipaddr is

unfoldable pub check_local_ip : Text → Machine → Bool
unfolding has_address
check_local_ip ipaddr m = elim m.interfaces [ none ↦ false | some is ↦ has_address ipaddr is ]

abbrev pub in_range : ℕ → ℕ → ℕ → Bool
in_range lo hi n = leb lo n && leb n hi

abbrev pub int_in_range : ℕ → ℕ → ℤ → Bool
int_in_range lo hi (pos n) = in_range lo hi n
int_in_range lo hi (negsuc n) = false

unfoldable pub check_port : Text → Bool
unfolding all_digits atoi
check_port port = all_digits port && int_in_range 1024 65535 (atoi port)

-- CheckCoreId, with the number
unfoldable pub check_core_id : ℕ → ℤ → Option ℕ
check_core_id cpus (pos n) = if ltb n cpus then some n else none
check_core_id cpus (negsuc n) = none

-- The loop over the ports
unfoldable pub ports_of : List Text → Option (List Text)
unfolding check_port
ports_of [] = some []
ports_of (p ∷ ps) = elim (check_port p) [
  | false ↦ none
  | true ↦ elim (ports_of ps) [ none ↦ none | some rest ↦ some (p ∷ rest) ]
]

-- The loop over the processors
unfoldable pub cores_of : ℕ → List Text → Option (List ℕ)
unfolding check_core_id atoi
cores_of cpus [] = some []
cores_of cpus (c ∷ cs) = elim (check_core_id cpus (atoi c)) [
  | none ↦ none
  | some n ↦ elim (cores_of cpus cs) [ none ↦ none | some rest ↦ some (n ∷ rest) ]
]

-- The sections between commas, by strtok_r
unfoldable pub sections : Text → List Text
unfolding tokens
sections s = tokens (λ c. c == b',') s

pub record QosParam : Type 0 where
  pub limit_write : ℕ
  pub get_quota_cycle : ℕ
  pub enable_throttle : ℕ
  pub sa_op_throttle : ℕ

-- What OSA_Init goes on with
pub record Settings : Type 0 where
  pub addr : Text
  pub ports : List Text
  pub core_ids : List ℕ
  pub queue_amount : ℕ
  pub queue_max_capacity : ℕ
  pub msgr_amount : ℕ
  pub bind_core : ℕ
  pub bind_sa_core : ℕ
  pub qos : QosParam

abbrev pub qos_of : ClusterControlCfg → QosParam
qos_of c = record {
  limit_write = get_write_qos c;
  get_quota_cycle = get_quot_cyc c;
  enable_throttle = get_messenger_throttle c;
  sa_op_throttle = get_sa_op_throttle c;
}

abbrev pub settings_of : ClusterControlCfg → List Text → List ℕ → Settings
settings_of c ports cores = record {
  addr = c.listen_ip;
  ports = ports;
  core_ids = cores;
  queue_amount = get_queue_amount c;
  queue_max_capacity = get_queue_max_capacity c;
  msgr_amount = get_msgr_amount c;
  bind_core = get_bind_core c;
  bind_sa_core = get_bind_queue_core c;
  qos = qos_of c;
}

-- The numbers that are refused, in the order of the code
unfoldable pub numbers_refused : Settings → Bool
numbers_refused s =
    not (in_range 4 5000 s.queue_amount)
    || (not (in_range 1 1024 s.queue_max_capacity)
        || (not (in_range 3 16 s.msgr_amount)
            || ((ltb (length s.core_ids) (s.msgr_amount + length s.ports) && not (s.bind_core == 0))
                || (ltb s.qos.get_quota_cycle 1
                    || (not (s.qos.sa_op_throttle == 0)
                        && not (in_range 2000 30000 s.qos.sa_op_throttle))))))

-- All checks; `none` for ERROR_PORT.
unfoldable pub check_settings : Machine → ClusterControlCfg → Option Settings
unfolding check_local_ip ports_of cores_of sections numbers_refused get_queue_amount get_msgr_amount
    get_bind_core get_bind_queue_core get_queue_max_capacity get_write_qos get_quot_cyc
    get_messenger_throttle get_sa_op_throttle
check_settings m c = elim (check_local_ip c.listen_ip m) [
  | false ↦ none
  | true ↦ elim (ports_of (sections c.listen_port)) [
    | none ↦ none
    | some ports ↦
        if not (in_range 1 8 (length ports))
        then none
        else elim (cores_of m.nprocs_onln (sections c.core_number)) [
          | none ↦ none
          | some cores ↦
              let s = settings_of c ports cores in if numbers_refused s then none else some s
        ]
  ]
]
