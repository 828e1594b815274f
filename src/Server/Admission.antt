-- ===== src/Server/Admission.antt =====
-- src/server_adaptor/network_module.cpp, lines 485-519 and 1117-1150: what a handler thread does
-- with one request, and what FinishCacheOps does when the cache is done with it.
use ceph_global_cache_adapto.Prelude.{
  Bool, ℕ, Option, none, some, List, [], ◌∷◌, ◌==◌, if◌then◌else◌, ℤ, neg, einval,
}
use ceph_global_cache_adapto.Throttle.Cell.{Cell}
use ceph_global_cache_adapto.Throttle.Ops.{
  cell_of, get_lwt_cas, put_lwt_cas, get_write_lwt_cas, get_read_lwt_cas, get_write_bw_cas,
  get_read_bw_cas, put_write_lwt_cas, put_read_lwt_cas, put_write_bw_cas, put_read_bw_cas,
}
use ceph_global_cache_adapto.Msg.Types.{Codec}
use ceph_global_cache_adapto.Msg.Process.{
  Mosdop, SaOpReq, Processed, converted, answered, overflowed, threw, process_op_req, gcache_write,
  gcache_read, gcache_default,
}

pub record Counters : Type 0 where
  pub lwt : Cell
  pub write_lwt : Cell
  pub read_lwt : Cell
  pub write_bw : Cell
  pub read_bw : Cell

-- qosParam, and the answers of the cache when it is asked for its limits
pub record Limits : Type 0 where
  pub limit_write : Bool
  pub get_quota_cycle : ℕ
  pub sa_op_throttle : ℕ
  pub write_op : ℕ → ℕ
  pub read_op : ℕ → ℕ
  pub write_bandwidth : ℕ → ℕ
  pub read_bandwidth : ℕ → ℕ

-- The counters when a request has been counted, whether the calls have returned or still wait
unfoldable pub admit : Limits → SaOpReq → Counters → Counters
admit lim r c =
    let c1 = record c { lwt = cell_of (get_lwt_cas lim.sa_op_throttle 1 c.lwt) } in
    let c2 =
      if r.option_type == gcache_write
      then record c1 {
        write_lwt = cell_of (get_write_lwt_cas lim.write_op 1 c1.write_lwt);
        write_bw = cell_of (get_write_bw_cas lim.write_bandwidth r.option_length c1.write_bw);
      }
      else c1 in
    if r.option_type == gcache_read
    then record c2 {
      read_lwt = cell_of (get_read_lwt_cas lim.read_op 1 c2.read_lwt);
      read_bw = cell_of (get_read_bw_cas lim.read_bandwidth r.option_length c2.read_bw);
    }
    else c2

-- A reply to the client: the request's number and the result
abbrev pub Reply : Type 0
Reply = ℕ × ℤ

-- FinishCacheOps; `none` for a null request.
unfoldable pub finish_cache_ops :
    Limits → Option Mosdop → ℕ → ℕ → ℤ → Counters → List Reply × Counters
finish_cache_ops lim none option_type option_length ret c = ([], c)
finish_cache_ops lim (some m) option_type option_length ret c =
    let c1 =
      if option_type == gcache_write
      then record c {
        write_bw = put_write_bw_cas option_length c.write_bw;
        write_lwt = put_write_lwt_cas c.write_lwt;
      }
      else c in
    let c2 =
      if option_type == gcache_read
      then record c1 {
        read_bw = put_read_bw_cas option_length c1.read_bw;
        read_lwt = put_read_lwt_cas c1.read_lwt;
      }
      else c1 in
    ((m.tid, ret) ∷ [], record c2 { lwt = put_lwt_cas lim.sa_op_throttle c2.lwt })

-- What a handler thread has done with a request: handed it to the cache, answered it, dropped it
-- without an answer, or died by an exception.
pub data Handled : Type 0 where
  handed : SaOpReq → Counters → Handled
  replied : List Reply → Counters → Handled
  dropped : Counters → Handled
  crashed : Handled

abbrev pub handle_processed : Limits → Mosdop → Counters → Processed → Handled
handle_processed lim m c (converted r) = handed r (admit lim r c)
handle_processed lim m c answered =
    let (replies, c') = finish_cache_ops lim (some m) gcache_default 0 (neg einval) c in
    replied replies c'
handle_processed lim m c overflowed = dropped c
handle_processed lim m c threw = crashed

-- The body of the inner loop of OpHandlerThread, up to the call of the cache
unfoldable pub handle_request : Codec → Limits → Mosdop → Counters → Handled
unfolding process_op_req
handle_request codec lim m c = handle_processed lim m c (process_op_req codec m)
