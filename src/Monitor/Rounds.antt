-- ===== src/Monitor/Rounds.antt =====
-- What holds between the updates of src/ceph_proxy/RadosMonitor.cc, and what a failed update
-- leaves behind.
use ceph_global_cache_adapto.Prelude.{
  ℕ, ◌-◌, ◌<◌, ◌≡◌, ◌≢◌, refl, Bool, true, false, none, some, List, [], ◌∷◌, ◌++◌, ◌==◌, ==_iff,
  ◌∙◌, subst, ◌&&◌, not, ◌||◌, arith, Bool-cases, Option-cases, ◌⊎◌, inl, inr, ℤ, negsuc, ok_code,
  is_neg, is_zero,
}
use ceph_global_cache_adapto.Prelude.Text.{Text, tokens}
use ceph_global_cache_adapto.Prelude.NatMap.{find, find-insert}
use ceph_global_cache_adapto.Ccm.{Adaptor}
use ceph_global_cache_adapto.Monitor.Stat.{Floats, PoolUsageStat, info_or, listed, compare_pools}
use ceph_global_cache_adapto.Monitor.Profile.{
  Cluster, newline, get_default_ec_stripe_unit, global_stripe,
}
use ceph_global_cache_adapto.Monitor.Record.{
  Recorded, recorded, failed, raised, Sized, sized, unsized, threw, record_pool, record_sized,
  parse_to_record_info, cal_pool_size, blank_info, reading,
}
use ceph_global_cache_adapto.Monitor.Update.{
  ended, record_lines, get_pool_storage_usage, update_pool_list, update_pool_usage, then_record,
  finish_update,
}
use ceph_global_cache_adapto.Monitor.Compare.{compare_exact}

listed-append : (p : ℕ) (xs ys : List ℕ) → listed p (xs ++ ys) ≡ (listed p xs || listed p ys)
listed-append p [] ys = refl
listed-append p (x ∷ xs) ys = ground (arith, listed-append p xs ys)

-- Each pool that waits for Compare has a reading.
abbrev pub IsRead : {F : Type 0} → PoolUsageStat F → Type 0
IsRead s = (p : ℕ) → listed p s.pool_list ≡ true → find p s.tmp_pool_info_map ≢ none

module _ (fl : Floats) (cl : Cluster) where
  open fl use {Float, of_nat}

  -- Between two states of one update the table of the pools stands, what waits still waits, and
  -- the readings stay.
  record Grows (s t : PoolUsageStat Float) : Type 0 where
    table : t.pool_info_map ≡ s.pool_info_map
    waits : (p : ℕ) → listed p s.pool_list ≡ true → listed p t.pool_list ≡ true
    reads : IsRead s → IsRead t

  Grows-refl : (s : PoolUsageStat Float) → Grows s s
  Grows-refl s = record { table = refl; waits = λ p h. h; reads = λ r. r }

  Grows-trans : (s t u : PoolUsageStat Float) → Grows s t → Grows t u → Grows s u
  Grows-trans s t u g h = record {
    table = h.table ∙ g.table;
    waits = λ p l. h.waits p (g.waits p l);
    reads = λ r. h.reads (g.reads r);
  }

  abbrev GrowsTo : PoolUsageStat Float → Recorded fl cl → Type 0
  GrowsTo s (recorded t) = Grows s t
  GrowsTo s (failed t) = Grows s t
  GrowsTo s raised = Unit {0}

  GrowsTo-trans :
      (s t : PoolUsageStat Float) (r : Recorded fl cl) → Grows s t → GrowsTo t r → GrowsTo s r
  GrowsTo-trans s t (recorded u) g h = Grows-trans s t u g h
  GrowsTo-trans s t (failed u) g h = Grows-trans s t u g h
  GrowsTo-trans s t raised g h = tt

  record_sized-Grows :
      (s : PoolUsageStat Float) (r : Sized fl cl) → GrowsTo s (record_sized fl cl s r)
  record_sized-Grows s (sized i global) = record {
    table = refl;
    waits = λ p h. ground (arith, listed-append p s.pool_list (i.pool_id ∷ []));
    reads = λ r p h. ground (
      arith,
      r p,
      listed-append p s.pool_list (i.pool_id ∷ []),
      ==_iff i.pool_id p,
      find-insert i.pool_id p
          (reading fl cl i (info_or (of_nat 0) (find i.pool_id s.tmp_pool_info_map)))
          s.tmp_pool_info_map,
    );
  }
  record_sized-Grows s (unsized global) = record { table = refl; waits = λ p h. h; reads = λ r. r }
  record_sized-Grows s threw = tt

  record_pool-Grows :
      (groups : List Text) (s : PoolUsageStat Float) → GrowsTo s (record_pool fl cl groups s)
  unfolding record_pool
  record_pool-Grows groups s =
      elim (Option-cases (parse_to_record_info fl cl groups (blank_info fl cl))) [
        | inl e ↦ rw (e, record_pool) (Grows-refl s)
        | inr (info, e) ↦
            rw (e, record_pool)
              (record_sized-Grows s (cal_pool_size fl cl info s.global_stripe_size))
      ]

  then-Grows :
      (s : PoolUsageStat Float) (r : Recorded fl cl) (f : PoolUsageStat Float → Recorded fl cl)
      → GrowsTo s r
      → ((t : PoolUsageStat Float) → GrowsTo t (f t))
      → GrowsTo s (then_record fl r f)
  then-Grows s (recorded t) f g h = GrowsTo-trans s t (f t) g (h t)
  then-Grows s (failed t) f g h = g
  then-Grows s raised f g h = tt

  record_lines-Grows :
      (lines : List Text) (s : PoolUsageStat Float) → GrowsTo s (record_lines fl cl lines s)
  unfolding record_lines
  record_lines-Grows [] s = Grows-refl s
  record_lines-Grows (line ∷ lines) s = elim (Option-cases (cl.match_line line)) [
    | inl e ↦ rw (e, record_lines) (record_lines-Grows lines s)
    | inr (groups, e) ↦
        rw (e, record_lines)
          (then-Grows s (record_pool fl cl groups s) (λ t. record_lines fl cl lines t)
            (record_pool-Grows groups s) (λ t. record_lines-Grows lines t))
  ]

  -- How an update can leave the state: with the lists cleared, or with the table as it was.
  record Left (s : PoolUsageStat Float) (ret : ℤ) (t : PoolUsageStat Float) : Type 0 where
    read : IsRead s → IsRead t
    how : ((t.pool_list ≡ []) × (t.tmp_pool_info_map ≡ [])) ⊎ ((is_zero ret ≡ false) × Grows s t)

  finish-Left :
      (allocated : Bool) (a : Adaptor) (s t : PoolUsageStat Float) (ret : ℤ) (r : Recorded fl cl)
      → GrowsTo s r
      → finish_update fl allocated a (then_record fl r (λ u. recorded (compare_pools (of_nat 0) u)))
        ≡ ended ret t
      → Left s ret t
  unfolding update_pool_list
  finish-Left allocated a s t ret (recorded u) g e = record {
    read = λ _ p h. ground arith;
    how = inl (ground arith, ground arith);
  }
  finish-Left allocated a s t ret (failed u) g e =
      let e' : u ≡ t = ground arith in
      record {
        read = subst (λ x. IsRead s → IsRead x) e' g.reads;
        how = inr (ground arith, subst (Grows s) e' g);
      }
  finish-Left allocated a s t ret raised g e = cc

  update-Left :
      (allocated : Bool) (a : Adaptor) (s t : PoolUsageStat Float) (ret : ℤ)
      → update_pool_usage fl cl allocated a s ≡ ended ret t
      → Left s ret t
  unfolding update_pool_usage get_pool_storage_usage
  update-Left allocated a s t ret e = elim (Bool-cases (is_neg cl.df.0)) [
    | inl n ↦
        let e' : s ≡ t = ground arith in
        let r : cl.df.0 ≡ ret = ground arith in
        record {
          read = subst (λ x. IsRead s → IsRead x) e' (λ r. r);
          how = inr (ground arith, subst (Grows s) e' (Grows-refl s));
        }
    | inr n ↦
        finish-Left allocated a s t ret (record_lines fl cl (tokens (λ c. c == newline) cl.df.1) s)
          (record_lines-Grows (tokens (λ c. c == newline) cl.df.1) s) (rw n at e)
  ]

  -- An update that ends with 0 leaves no pool waiting and no reading; one that ends with an error
  -- does so too, or leaves the table of the pools as it was, and the pools that waited waiting.
  -- In both cases each pool that waits has a reading if that was so before.
  pub update_outcome :
      (allocated : Bool) (a : Adaptor) (s t : PoolUsageStat Float) (ret : ℤ) (p : ℕ)
      → update_pool_usage fl cl allocated a s ≡ ended ret t
      → IsRead s
      → IsRead t
        × (((t.pool_list ≡ []) × (t.tmp_pool_info_map ≡ []))
            ⊎ ((is_zero ret ≡ false)
                × (t.pool_info_map ≡ s.pool_info_map)
                × ((listed p s.pool_list && not (listed p t.pool_list)) ≡ false)))
  update_outcome allocated a s t ret p e r =
      let l = update-Left allocated a s t ret e in
      (
        l.read r,
        elim l.how [
          | inl clear ↦ inl clear
          | inr (bad, g) ↦ inr (bad, g.table, ground (arith, g.waits p))
        ],
      )

  stale_finish :
      (allocated : Bool) (a : Adaptor) (s t : PoolUsageStat Float) (p : ℕ) (r : Recorded fl cl)
      → GrowsTo s r
      → listed p s.pool_list ≡ true
      → finish_update fl allocated a (then_record fl r (λ u. recorded (compare_pools (of_nat 0) u)))
        ≡ ended ok_code t
      → find p t.pool_info_map ≢ none
  unfolding update_pool_list
  stale_finish allocated a s t p (recorded u) g h e =
      ground (arith, (compare_exact (of_nat 0) u p).0, g.waits p h)
  stale_finish allocated a s t p (failed u) g h e = cc
  stale_finish allocated a s t p raised g h e = cc

  -- A pool that a failed update left waiting is in the table after the next update that ends with
  -- 0, whatever the cluster reports then: also if the pool is gone.
  pub stale_survives :
      (allocated : Bool) (a : Adaptor) (s t : PoolUsageStat Float) (p : ℕ)
      → listed p s.pool_list ≡ true
      → update_pool_usage fl cl allocated a s ≡ ended ok_code t
      → find p t.pool_info_map ≢ none
  unfolding update_pool_usage get_pool_storage_usage
  stale_survives allocated a s t p h e = elim (Bool-cases (is_neg cl.df.0)) [
    | inl n ↦ absurd (ground arith)
    | inr n ↦
        stale_finish allocated a s t p (record_lines fl cl (tokens (λ c. c == newline) cl.df.1) s)
          (record_lines-Grows (tokens (λ c. c == newline) cl.df.1) s) h (rw n at e)
  ]

-- If the question for the default stripe unit fails with the code -(n + 1), for n + 1 below
-- 2^32, that code becomes the unit, 2^32 - (n + 1), and is remembered: every later pool gets it,
-- whatever the monitors answer then.
pub stripe_unit_error_sticks :
    (n : ℕ) (out : Text) (later : ℤ × Text)
    → n < 4294967295
    → (global_stripe 0 (negsuc n, out) ≡ some (4294967295 - n))
      × (global_stripe (4294967295 - n) later ≡ some (4294967295 - n))
unfolding global_stripe get_default_ec_stripe_unit
stripe_unit_error_sticks n out later h = (ground arith, ground arith)
