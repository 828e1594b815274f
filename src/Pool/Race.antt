-- ===== src/Pool/Race.antt =====
-- Two threads that miss the same pool: GetIoCtx and GetIoCtx2 of src/ceph_proxy/CephProxy.cc, which
-- release the lock of src/ceph_proxy/PoolContext.h between the lookup and the insertion.
use ceph_global_cache_adapto.Prelude.{
  ℕ, ◌<◌, ◌≡◌, ◌≢◌, refl, Bool, true, false, Option, none, some, List, [], ◌∷◌, arith, Option-cases,
  inl, inr, ℤ, pos, negsuc, string_eq, int_eq, error_code,
}
use ceph_global_cache_adapto.Prelude.Dict.{find, find-insert, find-erase}
use Prim.Native.String.{String}
use ceph_global_cache_adapto.Pool.Table.{
  Heap, release, rados_create_io_ctx, IoCtxTable, insert_name, insert_id, get_name, get_id,
  delete_name, delete_id,
}
use ceph_global_cache_adapto.Pool.Contexts.{fill_name, fill_id}
use ceph_global_cache_adapto.Pool.Ownership.{alive, Valid, grown, alive-release}
use ceph_global_cache_adapto.Pool.Calls.{
  Step, fills_name, fills_id, deletes_name, deletes_id, step, run, run-Valid,
}

-- A context that lives, but that no key of a table leads to
pub record Lost (c : ℕ) (t : IoCtxTable) (h : Heap) : Type 0 where
  pub old : c < h.next
  pub live : alive c h ≡ true
  pub no_name : (k : String) → find k t.table1 ≢ some c
  pub no_id : (k : ℤ) → find k t.table2 ≢ some c

grown-Lost : (c : ℕ) (t : IoCtxTable) (h : Heap) → Lost c t h → Lost c t (grown h)
grown-Lost c t h l = record {
  old = omega (arith, l.old);
  live = ground (arith, l.live);
  no_name = l.no_name;
  no_id = l.no_id;
}

fill_name-Lost :
    (c : ℕ) (name : String) (seen : Option ℕ) (allocated : Bool) (answer : ℤ) (t : IoCtxTable)
    (h : Heap)
    → Lost c t h
    → Lost c
        (fill_name name seen allocated answer t h).1
        (fill_name name seen allocated answer t h).2
unfolding fill_name rados_create_io_ctx insert_name
fill_name-Lost c name (some d) allocated answer t h l = l
fill_name-Lost c name none false answer t h l = l
fill_name-Lost c name none true (negsuc n) t h l = grown-Lost c t h l
fill_name-Lost c name none true (pos n) t h l = record {
  old = omega (arith, l.old);
  live = ground (arith, l.live);
  no_name = λ k e. ground (arith, l.no_name k, l.old, e, find-insert name k h.next t.table1);
  no_id = l.no_id;
}

fill_id-Lost :
    (c : ℕ) (pool : ℤ) (seen : Option ℕ) (allocated : Bool) (answer : ℤ) (t : IoCtxTable) (h : Heap)
    → Lost c t h
    → Lost c (fill_id pool seen allocated answer t h).1 (fill_id pool seen allocated answer t h).2
unfolding fill_id rados_create_io_ctx insert_id
fill_id-Lost c pool (some d) allocated answer t h l = l
fill_id-Lost c pool none false answer t h l = l
fill_id-Lost c pool none true (negsuc n) t h l = grown-Lost c t h l
fill_id-Lost c pool none true (pos n) t h l = elim (Option-cases (find pool t.table2)) [
  | inr (d, e) ↦ rw e (grown-Lost c t h l)
  | inl e ↦ rw e record {
    old = omega (arith, l.old);
    live = ground (arith, l.live);
    no_name = l.no_name;
    no_id = λ k f. ground (arith, l.no_id k, l.old, f, find-insert pool k h.next t.table2);
  }
]

delete_name-Lost :
    (c : ℕ) (name : String) (t : IoCtxTable) (h : Heap)
    → Lost c t h
    → Lost c (delete_name name t h).0 (delete_name name t h).1
unfolding delete_name release
delete_name-Lost c name t h l = elim (Option-cases (find name t.table1)) [
  | inl e ↦ rw (e, delete_name) l
  | inr (d, e) ↦
      rw (e, delete_name)
        record {
          old = l.old;
          live = ground (arith, l.live, l.no_name name, e, alive-release c d h);
          no_name = λ k f. ground (arith, l.no_name k, f, find-erase name k t.table1);
          no_id = l.no_id;
        }
]

delete_id-Lost :
    (c : ℕ) (pool : ℤ) (t : IoCtxTable) (h : Heap)
    → Lost c t h
    → Lost c (delete_id pool t h).0 (delete_id pool t h).1
unfolding delete_id release
delete_id-Lost c pool t h l = elim (Option-cases (find pool t.table2)) [
  | inl e ↦ rw (e, delete_id) l
  | inr (d, e) ↦
      rw (e, delete_id)
        record {
          old = l.old;
          live = ground (arith, l.live, l.no_id pool, e, alive-release c d h);
          no_name = l.no_name;
          no_id = λ k f. ground (arith, l.no_id k, f, find-erase pool k t.table2);
        }
]

step-Lost :
    (c : ℕ) (s : Step) (t : IoCtxTable) (h : Heap)
    → Lost c t h
    → Lost c (step s t h).0 (step s t h).1
unfolding step
step-Lost c (fills_name name seen ok answer) t h l = fill_name-Lost c name seen ok answer t h l
step-Lost c (fills_id pool seen ok answer) t h l = fill_id-Lost c pool seen ok answer t h l
step-Lost c (deletes_name name) t h l = delete_name-Lost c name t h l
step-Lost c (deletes_id pool) t h l = delete_id-Lost c pool t h l

-- What is lost stays lost.
run-Lost :
    (c : ℕ) (ss : List Step) (t : IoCtxTable) (h : Heap)
    → Lost c t h
    → Lost c (run ss t h).0 (run ss t h).1
unfolding run
run-Lost c [] t h l = l
run-Lost c (s ∷ ss) t h l = run-Lost c ss (step s t h).0 (step s t h).1 (step-Lost c s t h l)

-- A second Insert by id is refused, and its context is lost.
second_id-Lost :
    (pool : ℤ) (c n : ℕ) (t : IoCtxTable) (h : Heap)
    → Valid t h
    → get_id pool t ≡ some c
    → ((insert_id pool h.next t).0 ≡ error_code)
      × (fill_id pool none true (pos n) t h ≡ (some h.next, t, grown h))
      × Lost h.next t (grown h)
unfolding fill_id rados_create_io_ctx insert_id get_id
second_id-Lost pool c n t h v e = (
  rw e refl,
  rw e refl,
  record {
    old = omega arith;
    live = ground arith;
    no_name = λ k f. omega (arith, v.old_name k h.next f);
    no_id = λ k f. omega (arith, v.old_id k h.next f);
  },
)

-- A second Insert by name takes the place of the first, whose context is lost.
second_name-Lost :
    (name : String) (c n : ℕ) (t : IoCtxTable) (h : Heap)
    → Valid t h
    → get_name name t ≡ some c
    → ((fill_name name none true (pos n) t h).0 ≡ some h.next)
      × (get_name name (fill_name name none true (pos n) t h).1 ≡ some h.next)
      × Lost c (fill_name name none true (pos n) t h).1 (fill_name name none true (pos n) t h).2
unfolding fill_name rados_create_io_ctx insert_name get_name
second_name-Lost name c n t h v e = (
  refl,
  ground (arith, find-insert name name h.next t.table1, string_eq.beq_iff name name),
  record {
    old = omega (arith, v.old_name name c e);
    live = ground (arith, v.live_name name c e);
    no_name = λ k f. ground (
      arith,
      f,
      find-insert name k h.next t.table1,
      v.same_name name k c e,
      v.old_name name c e,
      string_eq.beq_iff name k,
    );
    no_id = λ k. v.apart name k c e;
  },
)

pub lookup_race_leaks :
    (name : String) (pool : ℤ) (n c d : ℕ) (before later : List Step) (t : IoCtxTable) (h : Heap)
    → Valid t h
    → get_id pool t ≡ none
    → get_name name t ≡ none
    → get_id pool (run before t h).0 ≡ some c
    → get_name name (run before t h).0 ≡ some d
    → let (t1, h1) = run before t h in
      let (got, t2, h2) = fill_id pool (get_id pool t) true (pos n) t1 h1 in
      let (named, t3, h3) = fill_name name (get_name name t) true (pos n) t1 h1 in
      ((got ≡ some h1.next)
        × (t2 ≡ t1)
        × ((insert_id pool h1.next t1).0 ≡ error_code)
        × Lost h1.next (run later t2 h2).0 (run later t2 h2).1)
      × ((named ≡ some h1.next)
          × (get_name name t3 ≡ some h1.next)
          × Lost d (run later t3 h3).0 (run later t3 h3).1)
lookup_race_leaks name pool n c d before later t h v miss_id miss_name id name_in =
    let t1 = (run before t h).0 in
    let h1 = (run before t h).1 in
    let ok = run-Valid before t h v in
    let (refusal, filled, lost) = second_id-Lost pool c n t1 h1 ok id in
    let (got, stands, gone) = second_name-Lost name d n t1 h1 ok name_in in
    rw (miss_id, miss_name, filled)
      (
        (refl, refl, refusal, run-Lost h1.next later t1 (grown h1) lost),
        (
          got,
          stands,
          run-Lost d later (fill_name name none true (pos n) t1 h1).1
              (fill_name name none true (pos n) t1 h1).2 gone,
        ),
      )
