-- ===== src/Pool/Ownership.antt =====
-- Who owns the contexts: the calls of src/ceph_proxy/CephProxy.cc over the tables of
-- src/ceph_proxy/PoolContext.h.
use ceph_global_cache_adapto.Prelude.{
  ℕ, suc, ◌<◌, ◌≡◌, ◌≢◌, refl, Bool, true, false, some, List, [], ◌∷◌, arith, ◌==◌, ◌&&◌, ◌||◌, not,
  keep, ℤ, string_eq, int_eq, int_beq_iff,
}
use ceph_global_cache_adapto.Prelude.Dict.{Dict, find, insert, erase, find-insert, find-erase}
use Prim.Native.String.{String}
use ceph_global_cache_adapto.Pool.Table.{Heap, release, IoCtxTable, release_all, clear, init}

abbrev pub elem : ℕ → List ℕ → Bool
elem a [] = false
elem a (x ∷ xs) = x == a || elem a xs

abbrev pub alive : ℕ → Heap → Bool
alive c h = elem c h.live

pub elem-keep :
    (a c : ℕ) (xs : List ℕ) → elem a (keep (λ d. not (d == c)) xs) ≡ (elem a xs && not (a == c))
unfolding keep
elem-keep a c [] = refl
elem-keep a c (x ∷ xs) = ground (arith, elem-keep a c xs)

pub alive-release : (a c : ℕ) (h : Heap) → alive a (release c h) ≡ (alive a h && not (a == c))
unfolding release
alive-release a c h = elem-keep a c h.live

-- Some key of the table has the context.
abbrev pub holds {ℓ} : {K : Type ℓ} → ℕ → Dict K ℕ → Bool
holds a [] = false
holds a ((k, c) ∷ m) = a == c || holds a m

alive-release_all {ℓ} :
    {K : Type ℓ} (a : ℕ) (m : Dict K ℕ) (h : Heap)
    → alive a (release_all m h) ≡ (alive a h && not (holds a m))
unfolding release_all
alive-release_all a [] h = ground arith
alive-release_all a ((k, c) ∷ m) h =
    ground (arith, alive-release_all a m (release c h), alive-release a c h)

-- Clear deletes exactly the contexts of the two tables: a context lives on if and only if it did
-- and neither table has it. The tables are empty afterwards.
pub clear_exact :
    (a : ℕ) (t : IoCtxTable) (h : Heap)
    → ((clear t h).0 ≡ init)
      × (alive a (clear t h).1 ≡ (alive a h && (not (holds a t.table1) && not (holds a t.table2))))
unfolding clear init
clear_exact a t h = (
  refl,
  ground (
    arith,
    alive-release_all a t.table2 (release_all t.table1 h),
    alive-release_all a t.table1 h,
  ),
)

-- What holds between two calls: each context in a table is live, was handed out by the
-- allocator, and stands under one key of one table.
pub record Valid (t : IoCtxTable) (h : Heap) : Type 0 where
  pub old_name : (k : String) (c : ℕ) → find k t.table1 ≡ some c → c < h.next
  pub old_id : (k : ℤ) (c : ℕ) → find k t.table2 ≡ some c → c < h.next
  pub live_name : (k : String) (c : ℕ) → find k t.table1 ≡ some c → alive c h ≡ true
  pub live_id : (k : ℤ) (c : ℕ) → find k t.table2 ≡ some c → alive c h ≡ true
  pub same_name :
      (k j : String) (c : ℕ) → find k t.table1 ≡ some c → find j t.table1 ≡ some c → k ≡ j
  pub same_id : (k j : ℤ) (c : ℕ) → find k t.table2 ≡ some c → find j t.table2 ≡ some c → k ≡ j
  pub apart : (k : String) (j : ℤ) (c : ℕ) → find k t.table1 ≡ some c → find j t.table2 ≢ some c

abbrev pub grown : Heap → Heap
grown h = record { next = suc h.next; live = h.next ∷ h.live }

-- A refused context changes no table.
pub grown-Valid : (t : IoCtxTable) (h : Heap) → Valid t h → Valid t (grown h)
grown-Valid t h v = record {
  old_name = λ k c e. ground (arith, v.old_name k c);
  old_id = λ k c e. ground (arith, v.old_id k c);
  live_name = λ k c e. ground (arith, v.live_name k c);
  live_id = λ k c e. ground (arith, v.live_id k c);
  same_name = v.same_name;
  same_id = v.same_id;
  apart = v.apart;
}

pub name_added-Valid :
    (name : String) (t : IoCtxTable) (h : Heap)
    → Valid t h
    → Valid (record t { table1 = insert name h.next t.table1 }) (grown h)
name_added-Valid name t h v = record {
  old_name = λ k c e. ground (arith, v.old_name k c, find-insert name k h.next t.table1);
  old_id = λ k c e. ground (arith, v.old_id k c);
  live_name = λ k c e. ground (arith, v.live_name k c, find-insert name k h.next t.table1);
  live_id = λ k c e. ground (arith, v.live_id k c);
  same_name = λ k j c e f. ground (
    arith,
    v.same_name k j c,
    v.old_name k c,
    v.old_name j c,
    find-insert name k h.next t.table1,
    find-insert name j h.next t.table1,
    string_eq.beq_iff name k,
    string_eq.beq_iff name j,
  );
  same_id = v.same_id;
  apart =
      λ k j c e f. ground (arith, v.apart k j c, v.old_id j c, find-insert name k h.next t.table1);
}

pub id_added-Valid :
    (pool : ℤ) (t : IoCtxTable) (h : Heap)
    → Valid t h
    → Valid (record t { table2 = insert pool h.next t.table2 }) (grown h)
id_added-Valid pool t h v = record {
  old_name = λ k c e. ground (arith, v.old_name k c);
  old_id = λ k c e. ground (arith, v.old_id k c, find-insert pool k h.next t.table2);
  live_name = λ k c e. ground (arith, v.live_name k c);
  live_id = λ k c e. ground (arith, v.live_id k c, find-insert pool k h.next t.table2);
  same_name = v.same_name;
  same_id = λ k j c e f. ground (
    arith,
    v.same_id k j c,
    v.old_id k c,
    v.old_id j c,
    find-insert pool k h.next t.table2,
    find-insert pool j h.next t.table2,
    int_beq_iff pool k,
    int_beq_iff pool j,
  );
  apart = λ k j c e f.
      ground (arith, v.apart k j c, v.old_name k c, find-insert pool j h.next t.table2);
}

pub release_id-Valid :
    (pool : ℤ) (c : ℕ) (t : IoCtxTable) (h : Heap)
    → find pool t.table2 ≡ some c
    → Valid t h
    → Valid (record t { table2 = erase pool t.table2 }) (release c h)
unfolding release
release_id-Valid pool c t h e v = record {
  old_name = v.old_name;
  old_id = λ k d f. ground (arith, v.old_id k d, find-erase pool k t.table2);
  live_name = λ k d f. ground (arith, v.live_name k d, v.apart k pool c, elem-keep d c h.live);
  live_id = λ k d f. ground (
    arith,
    v.live_id k d,
    v.same_id k pool c,
    find-erase pool k t.table2,
    elem-keep d c h.live,
    int_beq_iff pool k,
  );
  same_name = v.same_name;
  same_id = λ k j d f g.
      ground (arith, v.same_id k j d, find-erase pool k t.table2, find-erase pool j t.table2);
  apart = λ k j d f g. ground (arith, v.apart k j d, find-erase pool j t.table2);
}

pub release_name-Valid :
    (name : String) (c : ℕ) (t : IoCtxTable) (h : Heap)
    → find name t.table1 ≡ some c
    → Valid t h
    → Valid (record t { table1 = erase name t.table1 }) (release c h)
unfolding release
release_name-Valid name c t h e v = record {
  old_name = λ k d f. ground (arith, v.old_name k d, find-erase name k t.table1);
  old_id = v.old_id;
  live_name = λ k d f. ground (
    arith,
    v.live_name k d,
    v.same_name k name c,
    find-erase name k t.table1,
    elem-keep d c h.live,
    string_eq.beq_iff name k,
  );
  live_id = λ k d f. ground (arith, v.live_id k d, v.apart name k c, elem-keep d c h.live);
  same_name = λ k j d f g.
      ground (arith, v.same_name k j d, find-erase name k t.table1, find-erase name j t.table1);
  same_id = v.same_id;
  apart = λ k j d f g. ground (arith, v.apart k j d, find-erase name k t.table1);
}
