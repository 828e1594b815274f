-- ===== src/Server/Quota.antt =====
-- LimitWrite of src/server_adaptor/network_module.cpp, lines 731-780: the bandwidth of writes that
-- the cache allows in each cycle. The readings of the clock, in nanoseconds, and the answers of
-- GetWriteQuota are parameters.
use ceph_global_cache_adapto.Prelude.{
  ℕ, ◌+◌, ◌-◌, ◌*◌, ◌/◌, Bool, false, List, [], ◌∷◌, ◌==◌, leb, ltb, if◌then◌else◌, ℤ, pos, negsuc,
  neg,
}
use ceph_global_cache_adapto.Prelude.Word.{u32, add64}
use ceph_global_cache_adapto.Msg.Types.{OsdOp}
use ceph_global_cache_adapto.Msg.Process.{is_write}

-- cycleBegin, periodBW, wcacheBW and qosInfo.writeRatio
pub record Quota : Type 0 where
  pub cycle_begin : ℕ
  pub period_bw : ℕ
  pub wcache_bw : ℕ
  pub write_ratio : ℕ

-- What one call meets: the clock at its start, when a new cycle begins, and before its pause;
-- what the interval holds that is not set if the clock runs back; and the answers of the cache,
-- as long as it asks.
pub record Pace : Type 0 where
  pub now : ℕ
  pub reset_at : ℕ
  pub later : ℕ
  pub unset : ℤ
  pub answers : List ℕ

-- duration_cast to milliseconds, which rounds towards 0
unfoldable pub interval_ms : ℕ → ℕ → ℤ
interval_ms now begin =
    if leb begin now then pos ((now - begin) / 1000000) else neg ((begin - now) / 1000000)

-- The share of one cycle in the bandwidth of a second
unfoldable pub cycle_share : ℕ → ℕ → ℕ
cycle_share cycle ratio =
    if ltb cycle 1000 then ratio / (1000 / cycle) else u32 (ratio * (cycle / 1000))

-- How the loop that asks ends: a new cycle has begun, or the cache has answered 0 so far.
pub data Asked : Type 0 where
  asked asking : Quota → Asked

unfoldable pub ask_quota : ℕ → ℕ → List ℕ → Quota → Asked
unfolding cycle_share
ask_quota cycle reset_at [] q = asking q
ask_quota cycle reset_at (r ∷ rs) q =
    let q1 = record q { write_ratio = r; wcache_bw = cycle_share cycle r } in
    let rest = ask_quota cycle reset_at rs q1 in
    if r == 0 then rest else asked (record q1 { period_bw = 0; cycle_begin = reset_at })

-- The interval is as long as a cycle.
abbrev pub cycle_over : ℕ → ℤ → Bool
cycle_over cycle (pos ms) = leb cycle ms
cycle_over cycle (negsuc n) = false

unfoldable pub add_writes : List OsdOp → ℕ → ℕ
add_writes [] bw = bw
add_writes (c ∷ cs) bw =
    add_writes cs (if is_write c.op then add64 bw (c.extent_length / 1024) else bw)

-- The pause before the end of the cycle, in milliseconds
abbrev pub pause_ms : ℕ → ℤ → ℕ
pause_ms cycle (pos ms) = if leb ms cycle then cycle - ms else 0
pause_ms cycle (negsuc n) = u32 (cycle + (n + 1))

-- No pause before the share is used up
unfoldable pub pause_of : ℕ → Pace → Quota → ℕ
unfolding interval_ms
pause_of cycle p q =
    if leb q.wcache_bw q.period_bw then pause_ms cycle (interval_ms p.later q.cycle_begin) else 0

-- How LimitWrite ends: after a pause, or it goes on asking.
pub data Limited : Type 0 where
  limited : ℕ → Quota → Limited
  starved : Quota → Limited

unfoldable pub charge : ℕ → Pace → List OsdOp → Asked → Limited
unfolding pause_of add_writes
charge cycle p ops (asking q) = starved q
charge cycle p ops (asked q) =
    let q1 = record q { period_bw = add_writes ops q.period_bw } in limited (pause_of cycle p q1) q1

-- LimitWrite
unfoldable pub limit_write : ℕ → Pace → List OsdOp → Quota → Limited
unfolding ask_quota charge interval_ms
limit_write cycle p ops q =
    let interval = if leb q.cycle_begin p.now then interval_ms p.now q.cycle_begin else p.unset in
    charge cycle p ops
      (if cycle_over cycle interval then ask_quota cycle p.reset_at p.answers q else asked q)

abbrev pub quota_of : Limited → Quota
quota_of (limited ms q) = q
quota_of (starved q) = q
