-- ===== src/Server/Balance.antt =====
-- Whether the counters of admission come back to where they were
-- (src/server_adaptor/network_module.cpp).
use ceph_global_cache_adapto.Prelude.{
  ℕ, ◌+◌, ◌-◌, ◌<◌, ◌≡◌, ◌≢◌, Bool, some, [], ◌∷◌, arith, ◌==◌, ltb, if◌then◌else◌, ℤ, ◌⊎◌, inl,
  inr, ◌∙◌, Bool-cases, neg, einval,
}
use ceph_global_cache_adapto.Prelude.Word.{u64_mod, sub64}
use ceph_global_cache_adapto.Throttle.Cell.{
  fetch, settle, settle_from, cas_update, cas_update_unless, compare_and_swap,
}
use ceph_global_cache_adapto.Throttle.Ops.{
  cell_of, get_lwt_cas, put_lwt_cas, get_counted_cas, put_counted_cas, poll, poll_asked,
  get_write_lwt_cas, get_read_lwt_cas, get_write_bw_cas, get_read_bw_cas, put_write_lwt_cas,
  put_read_lwt_cas, put_write_bw_cas, put_read_bw_cas,
}
use ceph_global_cache_adapto.Throttle.Waiting.{quiet}
use ceph_global_cache_adapto.Msg.Types.{Codec}
use ceph_global_cache_adapto.Msg.Process.{
  Mosdop, SaOpReq, answered, process_op_req, gcache_write, gcache_read,
}
use ceph_global_cache_adapto.Server.Admission.{
  Counters, Limits, admit, finish_cache_ops, handle_request, replied,
}

get_lwt_quiet :
    (limit n v : ℕ)
    → v + n < u64_mod
    → cell_of (get_lwt_cas limit n (quiet v)) ≡ (if limit == 0 then quiet v else quiet (v + n))
unfolding get_lwt_cas fetch settle settle_from cas_update compare_and_swap poll
get_lwt_quiet limit n v h = ground arith

put_lwt_quiet :
    (limit v : ℕ)
    → v < u64_mod
    → put_lwt_cas limit (quiet v) ≡ (if limit == 0 then quiet v else quiet (sub64 v 1))
unfolding put_lwt_cas fetch settle settle_from cas_update compare_and_swap
put_lwt_quiet limit v h = ground arith

get_counted_quiet :
    (ask : ℕ → ℕ) (n v : ℕ)
    → v + n < u64_mod
    → cell_of (get_counted_cas ask n (quiet v)) ≡ quiet (v + n)
unfolding get_counted_cas fetch settle settle_from cas_update compare_and_swap poll_asked
get_counted_quiet ask n v h = ground arith

put_counted_quiet :
    (stop : ℕ → Bool) (n v : ℕ)
    → put_counted_cas stop n (quiet v) ≡ (if stop v then quiet v else quiet (sub64 v n))
unfolding put_counted_cas fetch settle settle_from cas_update_unless compare_and_swap
put_counted_quiet stop n v = ground arith

-- The counters while no other thread moves them
abbrev pub still : ℕ → ℕ → ℕ → ℕ → ℕ → Counters
still a b c d e = record {
  lwt = quiet a;
  write_lwt = quiet b;
  read_lwt = quiet c;
  write_bw = quiet d;
  read_bw = quiet e;
}

lwt_round :
    (limit a : ℕ)
    → a + 1 < u64_mod
    → put_lwt_cas limit (cell_of (get_lwt_cas limit 1 (quiet a))) ≡ quiet a
lwt_round limit a h = elim (Bool-cases (limit == 0)) [
  | inl z ↦ rw (get_lwt_quiet limit 1 a h) (rw z (rw (put_lwt_quiet limit a (omega arith)) (rw z)))
  | inr z ↦
      rw (get_lwt_quiet limit 1 a h)
        (rw z (rw (put_lwt_quiet limit (a + 1) h) (rw z (ground arith))))
]

count_round :
    (ask : ℕ → ℕ) (a : ℕ)
    → a + 1 < u64_mod
    → put_counted_cas (λ v. v == 0) 1 (cell_of (get_counted_cas ask 1 (quiet a))) ≡ quiet a
count_round ask a h =
    rw (get_counted_quiet ask 1 a h) (put_counted_quiet (λ v. v == 0) 1 (a + 1) ∙ ground arith)

bandwidth_round :
    (ask : ℕ → ℕ) (n a : ℕ)
    → a + n < u64_mod
    → put_counted_cas (λ v. ltb v n) n (cell_of (get_counted_cas ask n (quiet a))) ≡ quiet a
bandwidth_round ask n a h =
    rw (get_counted_quiet ask n a h) (put_counted_quiet (λ v. ltb v n) n (a + n) ∙ ground arith)

-- A request that was counted as a write or as a read is answered once, with its number and the
-- cache's result, and brings each of the five counters back to its value before: if no other
-- thread moves them meanwhile and none of them is about to wrap, whatever the limits are.
pub admit-finish_balance :
    (lim : Limits) (r : SaOpReq) (m : Mosdop) (ret : ℤ) (a b c d e : ℕ)
    → a + 1 < u64_mod
    → b + 1 < u64_mod
    → c + 1 < u64_mod
    → d + r.option_length < u64_mod
    → e + r.option_length < u64_mod
    → (r.option_type ≡ gcache_write) ⊎ (r.option_type ≡ gcache_read)
    → finish_cache_ops lim
        (some m)
        r.option_type
        r.option_length
        ret
        (admit lim r (still a b c d e))
      ≡ ((m.tid, ret) ∷ [], still a b c d e)
unfolding finish_cache_ops admit get_write_lwt_cas get_read_lwt_cas get_write_bw_cas get_read_bw_cas
    put_write_lwt_cas put_read_lwt_cas put_write_bw_cas put_read_bw_cas
admit-finish_balance lim r m ret a b c d e ha hb hc hd he (inl w) =
    let lwt = lwt_round lim.sa_op_throttle a ha in
    let count = count_round lim.write_op b hb in
    let bandwidth = bandwidth_round lim.write_bandwidth r.option_length d hd in
    ground (arith, w, lwt, count, bandwidth)
admit-finish_balance lim r m ret a b c d e ha hb hc hd he (inr w) =
    let lwt = lwt_round lim.sa_op_throttle a ha in
    let count = count_round lim.read_op c hc in
    let bandwidth = bandwidth_round lim.read_bandwidth r.option_length e he in
    ground (arith, w, lwt, count, bandwidth)

-- A request whose object name ProcessOpReq refuses is answered with -EINVAL and was never
-- counted; with a throttle, and while no other thread moves, its answer takes 1 off the counter
-- of requests all the same, and so wraps it to 2^64 - 1 where it is 0.
pub refused_uncounts :
    (codec : Codec) (lim : Limits) (m : Mosdop) (a b c d e : ℕ)
    → process_op_req codec m ≡ answered
    → lim.sa_op_throttle ≢ 0
    → a < u64_mod
    → handle_request codec lim m (still a b c d e)
      ≡ replied ((m.tid, neg einval) ∷ []) (still (if a == 0 then u64_mod - 1 else a - 1) b c d e)
unfolding handle_request finish_cache_ops
refused_uncounts codec lim m a b c d e h k lt =
    rw h (ground (arith, put_lwt_quiet lim.sa_op_throttle a lt))
