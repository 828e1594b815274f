-- ===== src/Proxy/Gained.antt =====
-- RadosClientInit of src/ceph_proxy/RadosWrapper.cc: the client that the heap has gained.
use ceph_global_cache_adapto.Prelude.{
  ℕ, ◌≡◌, refl, Bool, true, false, arith, ◌||◌, if◌then◌else◌, ℤ, is_neg, error_code,
}
use ceph_global_cache_adapto.Prelude.Text.{Text}
use ceph_global_cache_adapto.Pool.Table.{Heap, release}
use ceph_global_cache_adapto.Pool.Ownership.{alive, alive-release}
use ceph_global_cache_adapto.Proxy.Config.{ProxyControlCfg}
use ceph_global_cache_adapto.Proxy.Client.{
  Librados, Pointer, object, fresh, configure, configured, rados_client_init,
}
use ceph_global_cache_adapto.Proxy.Release.{written, points_to, Allotted}

-- A pointer that was written, at nothing or at the one object that the heap has more
pub record Gained (p : Pointer) (h h' : Heap) : Type 0 where
  pub was_written : written p ≡ true
  pub others : (a : ℕ) → alive a h' ≡ (alive a h || points_to a p)
  pub unowned : (a : ℕ) → points_to a p ≡ true → alive a h ≡ false
  pub allotted : Allotted h'

fresh-Gained : (h : Heap) → Allotted h → Gained (object h.next) h (fresh h)
fresh-Gained h ok = record {
  was_written = refl;
  others = λ a. ground arith;
  unowned = λ a e. ground (arith, ok a);
  allotted = λ a e. ground (arith, ok a);
}

configured-Gained :
    (h : Heap) (r : Bool × ℤ) → Allotted h → Gained (configured h r).1 h (configured h r).2
unfolding release
configured-Gained h (true, r) ok = fresh-Gained h ok
configured-Gained h (false, r) ok = record {
  was_written = refl;
  others = λ a. ground (arith, ok a, alive-release a h.next (fresh h));
  unowned = λ a e. absurd (ground arith);
  allotted = λ a e. ground (arith, ok a, alive-release a h.next (fresh h));
}

-- RadosClientInit over its two tests
abbrev chosen : Bool → Bool → ℤ → Pointer → Bool × ℤ → Heap → ℤ × Pointer × Heap
chosen a n i old r h =
    if a then if n then (i, old, fresh h) else configured h r else (error_code, old, h)

chosen-Gained :
    (a n : Bool) (i : ℤ) (old : Pointer) (r : Bool × ℤ) (h : Heap)
    → n ≡ is_neg i
    → Allotted h
    → is_neg (chosen a n i old r h).0 ≡ false
    → Gained (chosen a n i old r h).1 h (chosen a n i old r h).2
chosen-Gained false n i old r h t ok e = absurd (ground arith)
chosen-Gained true true i old r h t ok e = absurd (ground arith)
chosen-Gained true false i old r h t ok e = configured-Gained h r ok

pub rados_client_init-Gained :
    (lib : Librados) (conf : Text) (c : ProxyControlCfg) (old : Pointer) (h : Heap)
    → Allotted h
    → is_neg (rados_client_init lib conf c old h).0 ≡ false
    → Gained (rados_client_init lib conf c old h).1 h (rados_client_init lib conf c old h).2
unfolding rados_client_init
rados_client_init-Gained lib conf c old h ok e =
    chosen-Gained lib.allocated (is_neg lib.init) lib.init old (configure lib conf c) h refl ok e
