-- ===== src/Ccm.antt =====
-- src/ceph_proxy/CcmAdaptor.cc: the cluster manager's callback for the pools that exist.
use ceph_global_cache_adapto.Prelude.{
  ℕ, ◌≡◌, Bool, true, false, Option, none, some, List, [], ◌∷◌, ℤ, ok_code, error_code, is_zero,
  if◌then◌else◌, arith,
}

-- A callback gets the pools and answers with a code.
abbrev pub Notify : Type 0
Notify = List ℕ → ℤ

pub record Adaptor : Type 0 where
  pub notify : Option Notify

-- The constructor of ClusterManagerAdaptor
unfoldable pub fresh : Adaptor
fresh = record { notify = none }

-- What ReportCreatePool does with the copy of the pools that it made.
unfoldable pub call_notify : Option Notify → List ℕ → ℤ
call_notify none pools = ok_code
call_notify (some fn) pools = if is_zero (fn pools) then ok_code else error_code

-- ReportCreatePool; `allocated` says whether malloc succeeds, which is called for at least one
-- pool.
unfoldable pub report_create_pool : Bool → Adaptor → List ℕ → ℤ
unfolding call_notify
report_create_pool allocated a [] = call_notify a.notify []
report_create_pool true a (p ∷ ps) = call_notify a.notify (p ∷ ps)
report_create_pool false a (p ∷ ps) = error_code

-- RegisterPoolCreateReportFn
unfoldable pub register_pool_create_report_fn : Option Notify → Adaptor → ℤ × Adaptor
register_pool_create_report_fn none a = (error_code, a)
register_pool_create_report_fn (some fn) a = elim a.notify [
  | none ↦ (ok_code, record { notify = some fn })
  | some old ↦ (error_code, a)
]

-- A callback is registered once and for all: after a success every report with memory passes the
-- pools to that callback and maps its code to 0 or -1, and each later registration is refused
-- and changes nothing.
pub registered_stays :
    (fn : Notify) (other : Option Notify) (a b : Adaptor) (pools : List ℕ)
    → register_pool_create_report_fn (some fn) a ≡ (ok_code, b)
    → (register_pool_create_report_fn other b ≡ (error_code, b))
      × (report_create_pool true b pools ≡ (if is_zero (fn pools) then ok_code else error_code))
unfolding register_pool_create_report_fn report_create_pool
registered_stays fn none a b [] h = ground arith
registered_stays fn none a b (p ∷ ps) h = ground arith
registered_stays fn (some g) a b [] h = ground arith
registered_stays fn (some g) a b (p ∷ ps) h = ground arith
