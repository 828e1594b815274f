-- ===== src/Pool/Calls.antt =====
-- The properties of GetIoCtx, GetIoCtx2, Delete and the questions by pool
-- (src/ceph_proxy/CephProxy.cc, src/ceph_proxy/PoolContext.h).
use ceph_global_cache_adapto.Prelude.{
  ℕ, ◌≡◌, Bool, true, false, Option, none, some, List, [], ◌∷◌, arith, Option-cases, ◌⊎◌, inl, inr,
  ℤ, pos, negsuc, string_eq, int_eq, int_beq_iff,
}
use ceph_global_cache_adapto.Prelude.Dict.{find, insert, find-insert}
use Prim.Native.String.{String}
use ceph_global_cache_adapto.Pool.Table.{
  Heap, rados_create_io_ctx, IoCtxTable, insert_name, insert_id, get_name, get_id, delete_name,
  delete_id,
}
use ceph_global_cache_adapto.Pool.Contexts.{
  fill_name, fill_id, get_io_ctx, get_io_ctx2, get_pool_id_by_pool_name, get_pool_name_by_pool_id,
}
use ceph_global_cache_adapto.Pool.Ownership.{
  alive, Valid, grown, grown-Valid, name_added-Valid, id_added-Valid, release_id-Valid,
  release_name-Valid, alive-release,
}

inserted_id :
    (pool : ℤ) (c : ℕ) (t : IoCtxTable)
    → ((insert_id pool c t).1 ≡ t)
      ⊎ ((insert_id pool c t).1 ≡ record t { table2 = insert pool c t.table2 })
unfolding insert_id
inserted_id pool c t = elim (Option-cases (find pool t.table2)) [
  | inl e ↦ inr (rw e)
  | inr (d, e) ↦ inl (rw e)
]

-- A lookup may be stale, since the lock is free between the lookup and the insertion.
fill_name-Valid :
    (name : String) (seen : Option ℕ) (allocated : Bool) (answer : ℤ) (t : IoCtxTable) (h : Heap)
    → Valid t h
    → Valid
        (fill_name name seen allocated answer t h).1
        (fill_name name seen allocated answer t h).2
unfolding fill_name rados_create_io_ctx insert_name
fill_name-Valid name (some c) allocated answer t h v = v
fill_name-Valid name none false answer t h v = v
fill_name-Valid name none true (pos n) t h v = name_added-Valid name t h v
fill_name-Valid name none true (negsuc n) t h v = grown-Valid t h v

fill_id-Valid :
    (pool : ℤ) (seen : Option ℕ) (allocated : Bool) (answer : ℤ) (t : IoCtxTable) (h : Heap)
    → Valid t h
    → Valid (fill_id pool seen allocated answer t h).1 (fill_id pool seen allocated answer t h).2
unfolding fill_id rados_create_io_ctx
fill_id-Valid pool (some c) allocated answer t h v = v
fill_id-Valid pool none false answer t h v = v
fill_id-Valid pool none true (pos n) t h v = elim (inserted_id pool h.next t) [
  | inl e ↦ rw e (grown-Valid t h v)
  | inr e ↦ rw e (id_added-Valid pool t h v)
]
fill_id-Valid pool none true (negsuc n) t h v = grown-Valid t h v

delete_name-Valid :
    (name : String) (t : IoCtxTable) (h : Heap)
    → Valid t h
    → Valid (delete_name name t h).0 (delete_name name t h).1
unfolding delete_name
delete_name-Valid name t h v = elim (Option-cases (find name t.table1)) [
  | inl e ↦ rw (e, delete_name) v
  | inr (c, e) ↦ rw (e, delete_name) (release_name-Valid name c t h e v)
]

delete_id-Valid :
    (pool : ℤ) (t : IoCtxTable) (h : Heap)
    → Valid t h
    → Valid (delete_id pool t h).0 (delete_id pool t h).1
unfolding delete_id
delete_id-Valid pool t h v = elim (Option-cases (find pool t.table2)) [
  | inl e ↦ rw (e, delete_id) v
  | inr (c, e) ↦ rw (e, delete_id) (release_id-Valid pool c t h e v)
]

-- One atomic step of any thread on the tables: a lookup's second half, for whatever its lookup
-- saw and whatever the allocator and the cluster answer, or a Delete.
pub data Step : Type 0 where
  fills_name : String → Option ℕ → Bool → ℤ → Step
  fills_id : ℤ → Option ℕ → Bool → ℤ → Step
  deletes_name : String → Step
  deletes_id : ℤ → Step

unfoldable pub step : Step → IoCtxTable → Heap → IoCtxTable × Heap
step (fills_name name seen ok answer) t h =
    let (c, t', h') = fill_name name seen ok answer t h in (t', h')
step (fills_id pool seen ok answer) t h =
    let (c, t', h') = fill_id pool seen ok answer t h in (t', h')
step (deletes_name name) t h = delete_name name t h
step (deletes_id pool) t h = delete_id pool t h

unfoldable pub run : List Step → IoCtxTable → Heap → IoCtxTable × Heap
run [] t h = (t, h)
run (s ∷ ss) t h = let (t', h') = step s t h in run ss t' h'

step-Valid :
    (s : Step) (t : IoCtxTable) (h : Heap) → Valid t h → Valid (step s t h).0 (step s t h).1
unfolding step
step-Valid (fills_name name seen ok answer) t h v = fill_name-Valid name seen ok answer t h v
step-Valid (fills_id pool seen ok answer) t h v = fill_id-Valid pool seen ok answer t h v
step-Valid (deletes_name name) t h v = delete_name-Valid name t h v
step-Valid (deletes_id pool) t h v = delete_id-Valid pool t h v

-- Whatever threads look contexts up, create, insert and delete, in any interleaving and with
-- stale lookups, from valid tables: every context in a table is live, and none stands twice.
pub run-Valid :
    (ss : List Step) (t : IoCtxTable) (h : Heap) → Valid t h → Valid (run ss t h).0 (run ss t h).1
unfolding run
run-Valid [] t h v = v
run-Valid (s ∷ ss) t h v = run-Valid ss (step s t h).0 (step s t h).1 (step-Valid s t h v)

-- After GetIoCtx2 of a pool has returned a context, the next one returns the same and neither
-- allocates nor changes a table, whatever the allocator and the cluster would answer; so for
-- GetIoCtx of a name.
lookup_cached :
    (name : String) (pool : ℤ) (ok ok' : Bool) (answer answer' : ℤ) (t : IoCtxTable) (h : Heap)
    (c d : ℕ)
    → (get_io_ctx name ok answer t h).0 ≡ some c
    → (get_io_ctx2 pool ok answer t h).0 ≡ some d
    → let (_, t1, h1) = get_io_ctx name ok answer t h in
      let (_, t2, h2) = get_io_ctx2 pool ok answer t h in
      (get_io_ctx name ok' answer' t1 h1 ≡ (some c, t1, h1))
      × (get_io_ctx2 pool ok' answer' t2 h2 ≡ (some d, t2, h2))
unfolding get_io_ctx get_io_ctx2 get_name get_id fill_name fill_id rados_create_io_ctx insert_name
    insert_id
lookup_cached name pool ok ok' answer answer' t h c d e f = (
  ground (arith, find-insert name name h.next t.table1, string_eq.beq_iff name name),
  ground (arith, find-insert pool pool h.next t.table2, int_beq_iff pool pool),
)

-- A context that the cluster refuses to set up is never deleted.
pub refused_leaks :
    (pool : ℤ) (n : ℕ) (t : IoCtxTable) (h : Heap)
    → find pool t.table2 ≡ none
    → get_io_ctx2 pool true (negsuc n) t h ≡ (none, t, grown h)
unfolding get_io_ctx2 get_id fill_id rados_create_io_ctx
refused_leaks pool n t h e = ground arith

-- If the allocator's next address is not in use, the questions by pool give back the context
-- that they create, on each of their ends but the refusal: the contexts that were live before
-- are live, and no other is.
pub question_releases :
    (n size max_len : ℕ) (id : ℤ) (h : Heap) (c : ℕ)
    → alive h.next h ≡ false
    → (alive c (get_pool_id_by_pool_name true (pos n) id h).1 ≡ alive c h)
      × (alive c (get_pool_name_by_pool_id true (pos n) size max_len h).2 ≡ alive c h)
unfolding get_pool_id_by_pool_name get_pool_name_by_pool_id rados_create_io_ctx
question_releases n size max_len id h c fresh = (
  ground (arith, alive-release c h.next (grown h)),
  ground (arith, alive-release c h.next (grown h)),
)
