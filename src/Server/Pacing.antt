-- ===== src/Server/Pacing.antt =====
-- What LimitWrite of src/server_adaptor/network_module.cpp lets through in a cycle.
use ceph_global_cache_adapto.Prelude.{
  ℕ, ◌+◌, ◌-◌, ◌/◌, ◌≤◌, ◌<◌, ◌≡◌, refl, Bool, true, Option, none, some, List, [], ◌∷◌, ◌==◌, leb,
  if◌then◌else◌, arith, inl, inr, Bool-cases,
}
use ceph_global_cache_adapto.Prelude.Word.{u64, u64_mod, add64}
use ceph_global_cache_adapto.Msg.Types.{OsdOp}
use ceph_global_cache_adapto.Msg.Counts.{write_kib_of}
use ceph_global_cache_adapto.Server.Quota.{
  Quota, Pace, interval_ms, cycle_share, Asked, asked, asking, ask_quota, add_writes, limited,
  starved, charge, limit_write, pause_of,
}

add_writes_lem :
    (ops : List OsdOp) (bw : ℕ) → bw < u64_mod → add_writes ops bw ≡ u64 (bw + write_kib_of ops)
unfolding add_writes
add_writes_lem [] bw h = omega arith
add_writes_lem (c ∷ cs) bw h =
    ground (arith, add_writes_lem cs bw, add_writes_lem cs (add64 bw (c.extent_length / 1024)))

-- The first answer that is not 0
abbrev pub first_ratio : List ℕ → Option ℕ
first_ratio [] = none
first_ratio (r ∷ rs) = let rest = first_ratio rs in if r == 0 then rest else some r

ask_quota-none :
    (cycle reset_at : ℕ) (rs : List ℕ) (q : Quota)
    → first_ratio rs ≡ none
    → (q' : Quota) × (ask_quota cycle reset_at rs q ≡ asking q')
unfolding ask_quota
ask_quota-none cycle reset_at [] q h = (q, refl)
ask_quota-none cycle reset_at (r ∷ rs) q h =
    let (q', e) =
      ask_quota-none cycle reset_at rs
        (record q { write_ratio = r; wcache_bw = cycle_share cycle r }) (ground (arith, h)) in
    (q', ground (arith, h, e))

ask_quota-some :
    (cycle reset_at r : ℕ) (rs : List ℕ) (q : Quota)
    → first_ratio rs ≡ some r
    → ask_quota cycle reset_at rs q
      ≡ asked (record {
        cycle_begin = reset_at;
        period_bw = 0;
        wcache_bw = cycle_share cycle r;
        write_ratio = r;
      })
unfolding ask_quota
ask_quota-some cycle reset_at r [] q h = cc
ask_quota-some cycle reset_at r (x ∷ rs) q h = ground (
  arith,
  h,
  ask_quota-some cycle reset_at r rs
      (record q { write_ratio = x; wcache_bw = cycle_share cycle x }),
)

charge_pauses :
    (cycle : ℕ) (p : Pace) (ops : List OsdOp) (a : Asked) (q' : Quota) (ms : ℕ)
    → charge cycle p ops a ≡ limited ms q'
    → q'.cycle_begin ≤ p.later
    → ms
      ≡ (if leb q'.wcache_bw q'.period_bw then cycle - (p.later - q'.cycle_begin) / 1000000 else 0)
unfolding charge interval_ms pause_of
charge_pauses cycle p ops (asking q) q' ms h le = cc
charge_pauses cycle p ops (asked q) q' ms h le = ground (arith, h, le)

-- Whether a cycle is over when a call starts, while the clock does not run back
abbrev pub is_over : ℕ → Pace → Quota → Bool
is_over cycle p q = leb cycle ((p.now - q.cycle_begin) / 1000000)

-- While the clock does not run back, what was charged fits its 64 bits, and the cache answers at
-- last with a ratio r that is not 0, LimitWrite returns. It charges the sizes of the request's
-- writes, in units of 1024, to the current cycle, and where that is over to a new one, which
-- begins with nothing charged and with the share of r; all mod 2^64.
pub limit_write_charges :
    (cycle : ℕ) (p : Pace) (ops : List OsdOp) (q : Quota) (r : ℕ)
    → q.cycle_begin ≤ p.now
    → q.period_bw < u64_mod
    → first_ratio p.answers ≡ some r
    → let q' : Quota =
        if is_over cycle p q
        then record {
          cycle_begin = p.reset_at;
          period_bw = u64 (write_kib_of ops);
          wcache_bw = cycle_share cycle r;
          write_ratio = r;
        }
        else record q { period_bw = u64 (q.period_bw + write_kib_of ops) } in
      limit_write cycle p ops q ≡ limited (pause_of cycle p q') q'
unfolding limit_write charge interval_ms
limit_write_charges cycle p ops q r le lt e = elim (Bool-cases (is_over cycle p q)) [
  | inl t ↦
      ground (arith, t, le, ask_quota-some cycle p.reset_at r p.answers q e, add_writes_lem ops 0)
  | inr f ↦ ground (arith, f, le, add_writes_lem ops q.period_bw)
]

-- LimitWrite does not return while the cycle is over and the cache answers 0.
pub limit_write_starves :
    (cycle : ℕ) (p : Pace) (ops : List OsdOp) (q : Quota)
    → q.cycle_begin ≤ p.now
    → is_over cycle p q ≡ true
    → first_ratio p.answers ≡ none
    → (q' : Quota) × (limit_write cycle p ops q ≡ starved q')
unfolding limit_write charge interval_ms
limit_write_starves cycle p ops q le t e =
    let (q', f) = ask_quota-none cycle p.reset_at p.answers q e in (q', ground (arith, t, le, f))

-- A call of LimitWrite that returns pauses to the end of the cycle where the cycle's share is used
-- up, and not at all elsewhere, while the clock does not run back from the cycle's beginning.
limit_write_pauses :
    (cycle : ℕ) (p : Pace) (ops : List OsdOp) (q q' : Quota) (ms : ℕ)
    → limit_write cycle p ops q ≡ limited ms q'
    → q'.cycle_begin ≤ p.later
    → ms
      ≡ (if leb q'.wcache_bw q'.period_bw then cycle - (p.later - q'.cycle_begin) / 1000000 else 0)
unfolding limit_write
limit_write_pauses cycle p ops q q' ms h le = charge_pauses cycle p ops _ q' ms h le
