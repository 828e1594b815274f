-- ===== src/Entry/Start.antt =====
-- CreateWorkThread of src/server_adaptor/network_module.cpp, and OSA_Init and OSA_Finish of
-- src/server_adaptor/osa.cpp.
use ceph_global_cache_adapto.Prelude.{
  ℕ, zero, suc, ◌+◌, ◌%◌, Option, none, some, List, [], ◌∷◌, ◌==◌, leb, length, if◌then◌else◌,
  get_elem?, is_zero, ℤ, pos, negsuc, int_beq,
}
use ceph_global_cache_adapto.Loader.Types.{Classes, Env}
use ceph_global_cache_adapto.Loader.Handler.{rpc_init, shutdown}
use ceph_global_cache_adapto.Entry.Config.{Items, ClusterControlCfg, cache_cluster_config_init}
use ceph_global_cache_adapto.Entry.Checks.{Machine, Settings, check_settings}

abbrev pub drop : ℕ → List ℕ → List ℕ
drop zero xs = xs
drop (suc n) [] = []
drop (suc n) (x ∷ xs) = drop n xs

-- saCoreId: the processors that the messenger's threads leave, if there are any.
unfoldable pub sa_core_id : ℕ → ℕ → List ℕ → List ℕ
sa_core_id bind_msgr_core taken core_id =
    if bind_msgr_core == 0
    then core_id
    else if leb (length core_id) taken
    then core_id
    else drop taken core_id

-- The processors of the threads from the i-th on; `none` for a division by 0.
unfoldable pub thread_cores : List ℕ → ℕ → ℕ → Option (List ℕ)
thread_cores cores i zero = some []
thread_cores [] i (suc left) = none
thread_cores (c ∷ cs) i (suc left) = elim (get_elem? (c ∷ cs) (i % length (c ∷ cs))) [
  | none ↦ none
  | some cpu ↦ elim (thread_cores (c ∷ cs) (suc i) left) [
    | none ↦ none
    | some rest ↦ some (cpu ∷ rest)
  ]
]

-- CreateWorkThread: the processor that each handler thread is given, one thread to a queue
unfoldable pub create_work_thread : Settings → Option (List ℕ)
unfolding sa_core_id thread_cores
create_work_thread s =
    thread_cores (sa_core_id s.bind_core (s.msgr_amount + length s.ports) s.core_ids) 0
      s.queue_amount

-- What the adaptor runs with: the processors of its handler threads, its settings, its classes
pub record Running : Type 0 where
  pub thread_cpus : List ℕ
  pub settings : Settings
  pub classes : Classes

-- The messenger: what InitNetworkModule returns, and bindSuccess after so many seconds.
pub record Messenger : Type 0 where
  pub init_network_module : Settings → ℤ
  pub bind_success : ℕ → ℤ

abbrev error_port : ℤ
error_port = pos 101

abbrev error_bind : ℤ
error_bind = pos 102

-- bindSuccess is 0.
abbrev unless_bound : ℤ → ℤ → ℤ
unless_bound ret b = if is_zero b then error_bind else ret

-- The wait for the messenger, after so many sleeps, with so many sleeps left
unfoldable pub wait_for_bind : Messenger → ℤ → ℕ → ℕ → ℤ
unfolding int_beq
wait_for_bind msgr ret slept zero =
    if int_beq (msgr.bind_success slept) (negsuc 0)
    then error_bind
    else unless_bound ret (msgr.bind_success slept)
wait_for_bind msgr ret slept (suc left) =
    let longer = wait_for_bind msgr ret (suc slept) left in
    if int_beq (msgr.bind_success slept) (negsuc 0)
    then longer
    else unless_bound ret (msgr.bind_success slept)

-- How OSA_Init ends: with a code and perhaps an adaptor, or by a division by 0, or never (a class
-- that loads without end).
pub data Ending : Type 0 where
  returned : ℤ → Option Running → Ending
  divides_by_zero endless : Ending

abbrev pub classes_loaded : Messenger → Settings → List ℕ → Option (ℤ × Classes) → Ending
classes_loaded msgr s cpus none = endless
classes_loaded msgr s cpus (some (r, cs)) =
    returned (wait_for_bind msgr (msgr.init_network_module s) 0 60)
      (some (record { thread_cpus = cpus; settings = s; classes = cs }))

-- A module that is there already is left as it is.
abbrev pub with_threads : Env → ℕ → Messenger → Settings → Option (List ℕ) → Ending
with_threads env fuel msgr s none = divides_by_zero
with_threads env fuel msgr s (some cpus) = classes_loaded msgr s cpus (rpc_init env fuel [])

abbrev pub with_settings : Env → ℕ → Messenger → Option Running → Option Settings → Ending
with_settings env fuel msgr old none = returned error_port old
with_settings env fuel msgr none (some s) = with_threads env fuel msgr s (create_work_thread s)
with_settings env fuel msgr (some r) (some s) = returned (pos 0) (some r)

abbrev pub with_config :
    Env → ℕ → Messenger → Machine → Option Running → Option ClusterControlCfg → Ending
with_config env fuel msgr m old none = returned error_port old
with_config env fuel msgr m old (some c) = with_settings env fuel msgr old (check_settings m c)

-- OSA_Init
unfoldable pub osa_init : Env → ℕ → Messenger → Machine → Items → Option Running → Ending
unfolding cache_cluster_config_init check_settings create_work_thread wait_for_bind rpc_init
osa_init env fuel msgr m items old =
    with_config env fuel msgr m old (cache_cluster_config_init items)

-- OSA_Finish, for what FinishNetworkModule returns: the code, the handles that are closed, and
-- the adaptor afterwards
unfoldable pub osa_finish : ℤ → Option Running → ℤ × List ℕ × Option Running
unfolding shutdown
osa_finish finished none = (pos 1, [], none)
osa_finish finished (some r) = (finished, (shutdown r.classes).0, none)
