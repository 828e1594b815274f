-- ===== src/Worker/Pools.antt =====
-- RadosWorker of src/ceph_proxy/RadosWorker.h, lines 259-336: a worker for each pool.
use ceph_global_cache_adapto.Prelude.{
  ℕ, ◌≡◌, ◌≢◌, Bool, true, Option, none, some, arith, ℤ, pos, is_neg, error_code, int_eq,
  int_beq_iff, if◌then◌else◌, Option-cases, inl, inr,
}
use ceph_global_cache_adapto.Prelude.Dict.{Dict, find, insert, find-insert}
use ceph_global_cache_adapto.Worker.Machine.{Request, IoWorker, queue, fresh_worker}

-- The workers, by the pool's id
abbrev pub Workers : Type 0
Workers = Dict ℤ IoWorker

-- GetIOWorker, and CreateIOWorker where there is none; `allocated` says whether `new` succeeds.
unfoldable pub get_or_create : Bool → ℤ → Workers → Option (IoWorker × Workers)
get_or_create allocated pool ws = elim (find pool ws) [
  | some w ↦ some (w, ws)
  | none ↦ if allocated then some (fresh_worker, insert pool fresh_worker ws) else none
]

-- How RadosWorker::Queue ends: with a code, or by the use of a null operation.
pub data Queued : Type 0 where
  queued : ℤ → Workers → Queued
  null_used : Queued

abbrev then_queue : Request → Workers → Option (IoWorker × Workers) → Queued
then_queue r ws none = queued error_code ws
then_queue r ws (some (w, ws')) = queued (queue r w).0 (insert r.pool_id (queue r w).1 ws')

-- RadosWorker::Queue; a null operation is logged and used all the same.
unfoldable pub queue_op : Bool → Option Request → Workers → Queued
unfolding get_or_create
queue_op allocated none ws = null_used
queue_op allocated (some r) ws =
    if is_neg r.pool_id
    then queued error_code ws
    else then_queue r ws (get_or_create allocated r.pool_id ws)

-- The worker of a pool: a new one where there is none
abbrev pub worker_of : Option IoWorker → IoWorker
worker_of none = fresh_worker
worker_of (some w) = w

-- With memory, and for a pool's id that is not negative, Queue passes the operation to the
-- worker of that pool, a new one where there is none, answers with that worker's code, and
-- leaves the workers of all other pools as they are.
pub queue_isolated :
    (r : Request) (ws : Workers) (n : ℕ) (other : ℤ)
    → r.pool_id ≡ pos n
    → other ≢ pos n
    → (ws' : Workers) × (queue_op true (some r) ws
        ≡ queued (queue r (worker_of (find (pos n) ws))).0 ws')
      × (find (pos n) ws' ≡ some (queue r (worker_of (find (pos n) ws))).1)
      × (find other ws' ≡ find other ws)
unfolding queue_op get_or_create
queue_isolated r ws n other e k =
    let at_pool = int_beq_iff (pos n) (pos n) in
    let at_other = int_beq_iff (pos n) other in
    elim (Option-cases (find (pos n) ws)) [
      | inl f ↦
          let v = (queue r fresh_worker).1 in
          let ws1 = insert (pos n) fresh_worker ws in
          (
            insert (pos n) v ws1,
            ground (arith, e, f),
            ground (arith, f, find-insert (pos n) (pos n) v ws1, at_pool),
            ground (
              arith,
              k,
              find-insert (pos n) other v ws1,
              find-insert (pos n) other fresh_worker ws,
              at_other,
            ),
          )
      | inr (w, f) ↦
          let v = (queue r w).1 in
          (
            insert (pos n) v ws,
            ground (arith, e, f),
            ground (arith, f, find-insert (pos n) (pos n) v ws, at_pool),
            ground (arith, k, find-insert (pos n) other v ws, at_other),
          )
    ]
