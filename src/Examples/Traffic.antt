-- ===== src/Examples/Traffic.antt =====
-- Requests of src/server_adaptor/network_module.cpp at concrete inputs.
use ceph_global_cache_adapto.Prelude.{
  ℕ, ◌≤◌, ◌≡◌, refl, true, false, some, List, [], ◌∷◌, ◌++◌, length, arith, pos, neg, einval, ◌==◌,
  keep, inl,
}
use Prim.Native.String.{String}
use ceph_global_cache_adapto.Prelude.Text.{codes}
use ceph_global_cache_adapto.Msg.Types.{OsdOp, OpCode, write, read, as_string}
use ceph_global_cache_adapto.Msg.Convert.{convert_clientop_to_opreq}
use ceph_global_cache_adapto.Msg.Process.{
  Mosdop, SaOpReq, Processed, converted, answered, process_op_req, header_of, name_kind,
  process_ops, one_op_of, contain_write_op, gcache_write,
}
use ceph_global_cache_adapto.Msg.Counts.{process_classifies}
use ceph_global_cache_adapto.Server.Admission.{
  Limits, admit, finish_cache_ops, handle_request, replied,
}
use ceph_global_cache_adapto.Server.Balance.{still, admit-finish_balance, refused_uncounts}
use ceph_global_cache_adapto.Server.Quota.{
  Quota, Pace, limit_write, limited, pause_of, cycle_share, interval_ms, quota_of,
}
use ceph_global_cache_adapto.Server.Pacing.{limit_write_charges}
use ceph_global_cache_adapto.Server.Lanes.{
  World, start, run, Step, arrives, wakes, swaps, takes, issues, stops, issue, route, get_size,
  no_requests,
}
use ceph_global_cache_adapto.Server.Order.{conversions, to_list}
use ceph_global_cache_adapto.Server.Fifo.{lane_fifo}
use ceph_global_cache_adapto.Server.Barrier.{copyup_barrier}
use ceph_global_cache_adapto.Server.Bounds.{size_bound}
use ceph_global_cache_adapto.Examples.Wire.{plain_codec}

abbrev op_of : OpCode → ℕ → OsdOp
op_of op len = record {
  op = op;
  flags = 0;
  extent_offset = 0;
  extent_length = len;
  class_len = 0;
  method_len = 0;
  indata_len = 0;
  name_len = 0;
  value_len = 0;
  cmp_op = pos 0;
  cmp_mode = as_string;
  snapid = 0;
  indata = [];
}

abbrev request_for : String → ℕ → Mosdop
request_for name tid = record {
  tid = tid;
  snapid = 0;
  pool = 3;
  seq = 1;
  seed = 5;
  snap_seq = 0;
  snaps = [];
  oid = codes name;
  ops = op_of write 4096 ∷ op_of read 1024 ∷ [];
}

abbrev done_of : Processed → SaOpReq
done_of (converted r) = r
done_of _ = header_of (request_for "none" 0)

abbrev done : SaOpReq
done = done_of (process_op_req plain_codec (request_for "x" 1))

converts : process_op_req plain_codec (request_for "x" 1) ≡ converted done
unfolding process_op_req name_kind process_ops one_op_of convert_clientop_to_opreq
converts = refl

process_classifies_example :
    (done.option_type ≡ gcache_write) × (done.option_length ≡ 4) × (length done.vec_ops ≡ 2)
unfolding contain_write_op
process_classifies_example =
    process_classifies plain_codec (request_for "x" 1) done (omega arith) converts

abbrev limits : Limits
limits = record {
  limit_write = true;
  get_quota_cycle = 200;
  sa_op_throttle = 100;
  write_op = λ k. 50;
  read_op = λ k. 0;
  write_bandwidth = λ k. 50;
  read_bandwidth = λ k. 50;
}

admit-finish_balance_example :
    finish_cache_ops limits
      (some (request_for "x" 1))
      done.option_type
      done.option_length
      (pos 0)
      (admit limits done (still 1 2 3 4 5))
    ≡ ((1, pos 0) ∷ [], still 1 2 3 4 5)
unfolding process_op_req name_kind process_ops one_op_of convert_clientop_to_opreq
admit-finish_balance_example =
    admit-finish_balance limits done (request_for "x" 1) (pos 0) 1 2 3 4 5 (omega arith)
      (omega arith) (omega arith) (omega arith) (omega arith) (inl refl)

refuses : process_op_req plain_codec (request_for "rbd_data.1" 1) ≡ answered
unfolding process_op_req name_kind
refuses = refl

refused_uncounts_example :
    handle_request plain_codec limits (request_for "rbd_data.1" 1) (still 0 0 0 0 0)
    ≡ replied ((1, neg einval) ∷ []) (still 18446744073709551615 0 0 0 0)
refused_uncounts_example =
    refused_uncounts plain_codec limits (request_for "rbd_data.1" 1) 0 0 0 0 0 refuses
      (ground arith) (omega arith)

abbrev early : Quota
early = record { cycle_begin = 0; period_bw = 0; wcache_bw = 1; write_ratio = 5 }

-- 300 ms later, the cache answers 0 and then 10 units per second.
abbrev late : Pace
late = record {
  now = 300000000;
  reset_at = 301000000;
  later = 351000000;
  unset = pos 0;
  answers = 0 ∷ 10 ∷ [];
}

limit_write_charges_example :
    limit_write 200 late (request_for "x" 1).ops early
    ≡ limited 150
        (record { cycle_begin = 301000000; period_bw = 4; wcache_bw = 2; write_ratio = 10 })
unfolding pause_of cycle_share interval_ms
limit_write_charges_example =
    limit_write_charges 200 late (request_for "x" 1).ops early 10 (omega arith) (omega arith) refl

abbrev charged : Quota
charged = quota_of (limit_write 200 late (request_for "x" 1).ops early)

returns : limit_write 200 late (request_for "x" 1).ops early ≡ limited 150 charged
unfolding limit_write
returns = refl

-- Objects go to lanes by the length of their names.
abbrev Steps : Type 0
Steps = List (Step length 2 1 plain_codec limits)

abbrev traffic : Steps
traffic =
    arrives (request_for "x" 1) 0 0
    ∷ arrives (request_for "yy" 2) 0 0
    ∷ arrives (request_for "z" 3) 0 0
    ∷ arrives (request_for "x" 4) 0 0
    ∷ swaps 1
    ∷ wakes 1 0 0 0
    ∷ takes 1
    ∷ issues 1
    ∷ takes 1
    ∷ stops
    ∷ []

lane_fifo_example :
    let w = run length 2 1 plain_codec limits traffic (start (still 0 0 0 0 0) 0) in
    let l = w.lanes 1 in
    (l.handled ++ (l.deal.req_queue ++ l.queue.req_queue)
      ≡ keep (λ m. route length 2 1 plain_codec limits m == 1) w.entered)
    × (l.issued ++ to_list l.in_hand ≡ conversions plain_codec l.handled)
lane_fifo_example = lane_fifo length 2 1 plain_codec limits traffic (still 0 0 0 0 0) 0 1

size_bound_example :
    let l = (run length 2 1 plain_codec limits traffic (start (still 0 0 0 0 0) 0)).lanes 1 in
    (get_size l.queue ≤ 3) × (get_size l.deal ≤ 3)
size_bound_example = size_bound length 2 1 plain_codec limits traffic (still 0 0 0 0 0) 0 1

-- A lane with a copy-up in its hands
abbrev copy_up : SaOpReq
copy_up = record done { exits_copy_up = true }

abbrev about_to_copy : World
about_to_copy = record {
  lanes = λ k. record {
    queue = no_requests;
    blocked = [];
    deal = no_requests;
    in_hand = some copy_up;
    copyup_flag = false;
    handled = [];
    issued = [];
  };
  counters = still 0 0 0 0 0;
  quota = early;
  finish_thread = false;
  dead = false;
  entered = [];
  replies = [];
}

copyup_barrier_example :
    ((run length 2 1 plain_codec limits traffic (issue 1 about_to_copy)).lanes 1).issued
    ≡ copy_up ∷ []
copyup_barrier_example =
    copyup_barrier length 2 1 plain_codec limits traffic about_to_copy 1 copy_up refl refl refl refl
