-- ===== src/Throttle/Conservation.antt =====
-- No update of an admission counter of src/server_adaptor/network_module.cpp is lost, however the
-- threads interleave.
use ceph_global_cache_adapto.Prelude.{
  ℕ, ◌-◌, ◌≡◌, ◌≢◌, refl, List, [], ◌∷◌, ◌++◌, arith, ap, sym, ◌∙◌, subst,
}
use ceph_global_cache_adapto.Prelude.Word.{u64, u64_mod, add64, sub64}
use ceph_global_cache_adapto.Throttle.Cell.{Cell, after}
use ceph_global_cache_adapto.Throttle.Atomic.{after-append}
use ceph_global_cache_adapto.Throttle.Ops.{
  Outcome, cell_of, get_lwt_cas, put_lwt_cas, get_counted_cas, get_write_lwt_cas, get_read_lwt_cas,
  get_write_bw_cas, get_read_bw_cas,
}
use ceph_global_cache_adapto.Throttle.Counting.{
  Once, get_lwt_cas-Once, put_lwt_cas-Once, get_counted_cas-Once,
}

-- A move that adds to whatever value it finds, as the compare-and-swap loops of the other threads
-- do; it does not write back a value that it read before.
abbrev pub IsRelative : (ℕ → ℕ) → Type 0
IsRelative g = (v n : ℕ) → u64 (g (add64 v n)) ≡ add64 (u64 (g v)) n

abbrev pub AllRelative : List (ℕ → ℕ) → Type 0
AllRelative [] = Unit {0}
AllRelative (g ∷ gs) = IsRelative g × AllRelative gs

AllRelative-right : (p q : List (ℕ → ℕ)) → AllRelative (p ++ q) → AllRelative q
AllRelative-right [] q h = h
AllRelative-right (g ∷ p) q h = AllRelative-right p q h.1

after-add64 :
    (gs : List (ℕ → ℕ)) (v n : ℕ) → AllRelative gs → after gs (add64 v n) ≡ add64 (after gs v) n
unfolding after
after-add64 [] v n h = refl
after-add64 (g ∷ gs) v n h = ap (after gs) (h.0 v n) ∙ after-add64 gs (u64 (g v)) n h.1

Once-after :
    (f : ℕ → ℕ) (n : ℕ) (c d : Cell)
    → ((v : ℕ) → f v ≡ add64 v n)
    → AllRelative c.others
    → Once f c d
    → after d.others d.value ≡ add64 (after c.others c.value) n
Once-after f n c d adds rel o =
    ap (after d.others) o.rest.value
    ∙ sym (after-append o.rest.moves d.others (f o.at.value))
    ∙ ap (λ gs. after gs (f o.at.value)) (sym o.rest.split)
    ∙ ap (after o.at.others) (adds o.at.value)
    ∙ after-add64 o.at.others o.at.value n
        (AllRelative-right o.before.moves o.at.others (subst AllRelative o.before.split rel))
    ∙ ap (λ v. add64 (after o.at.others v) n) o.before.value
    ∙ ap (λ v. add64 v n) (sym (after-append o.before.moves o.at.others c.value))
    ∙ ap (λ gs. add64 (after gs c.value) n) (sym o.before.split)

-- With a throttle, GetlwtCas(n), whether it returns or still waits, leaves the counter as n more
-- than the other threads alone would have left it, mod 2^64, and PutlwtCas as 1 less, if every
-- move of the others is a relative one.
pub lwt_conserved :
    (limit n : ℕ) (c : Cell)
    → limit ≢ 0
    → AllRelative c.others
    → let got = cell_of (get_lwt_cas limit n c) in
      let put = put_lwt_cas limit c in
      (after got.others got.value ≡ add64 (after c.others c.value) n)
      × (after put.others put.value ≡ add64 (after c.others c.value) (u64_mod - 1))
lwt_conserved limit n c h rel = (
  Once-after (λ v. add64 v n) n c (cell_of (get_lwt_cas limit n c)) (λ v. refl) rel
      (get_lwt_cas-Once limit n c h),
  Once-after (λ v. sub64 v 1) (u64_mod - 1) c (put_lwt_cas limit c) (λ v. omega arith) rel
      (put_lwt_cas-Once limit c h),
)

-- The four counters of reads and writes go up by exactly n in GetWritelwtCas(n) and its like,
-- whatever the limits are, with or without one, if every move of the others is a relative one.
pub counted_conserved :
    (ask : ℕ → ℕ) (n : ℕ) (c : Cell)
    → AllRelative c.others
    → let total = λ (o : Outcome). after (cell_of o).others (cell_of o).value in
      let expected = add64 (after c.others c.value) n in
      (total (get_write_lwt_cas ask n c) ≡ expected)
      × (total (get_read_lwt_cas ask n c) ≡ expected)
      × (total (get_write_bw_cas ask n c) ≡ expected)
      × (total (get_read_bw_cas ask n c) ≡ expected)
unfolding get_write_lwt_cas get_read_lwt_cas get_write_bw_cas get_read_bw_cas
counted_conserved ask n c rel = (once, once, once, once)
  where
    once :
        after (cell_of (get_counted_cas ask n c)).others (cell_of (get_counted_cas ask n c)).value
        ≡ add64 (after c.others c.value) n
    once =
        Once-after (λ v. add64 v n) n c (cell_of (get_counted_cas ask n c)) (λ v. refl) rel
          (get_counted_cas-Once ask n c)
