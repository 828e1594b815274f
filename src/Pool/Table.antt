-- ===== src/Pool/Table.antt =====
-- src/ceph_proxy/PoolContext.h: the two tables of I/O contexts, and the heap of contexts that
-- src/ceph_proxy/RadosWrapper.cc allocates and deletes. A context is known by its address, a
-- number; nullptr is `none`.
use ceph_global_cache_adapto.Prelude.{
  ℕ, suc, Bool, true, false, Option, none, some, List, [], ◌∷◌, ◌==◌, if◌then◌else◌, not, keep, ℤ,
  ok_code, error_code, is_neg, string_eq, int_eq,
}
use Prim.Native.String.{String}
use ceph_global_cache_adapto.Prelude.Dict
use ceph_global_cache_adapto.Prelude.Dict.{Dict}

-- The librados::IoCtx objects that `new` returned and nobody deleted.
pub record Heap : Type 0 where
  pub next : ℕ
  pub live : List ℕ

-- RadosReleaseIoCtx, at a context that is not null
unfoldable pub release : ℕ → Heap → Heap
release c h = record h { live = keep (λ d. not (d == c)) h.live }

-- How RadosCreateIoCtx and RadosCreateIoCtx2 end: with an error code and no context, or with 0 and
-- the context; and the heap after it.
pub data Created : Type 0 where
  refused : ℤ → Heap → Created
  created : ℕ → Heap → Created

-- RadosCreateIoCtx and RadosCreateIoCtx2: `allocated` says whether `new` succeeds, and `answer`
-- is what ioctx_create or ioctx_create2 of librados returns. A refused context is not deleted.
unfoldable pub rados_create_io_ctx : Bool → ℤ → Heap → Created
rados_create_io_ctx false answer h = refused error_code h
rados_create_io_ctx true answer h =
    let h' : Heap = record { next = suc h.next; live = h.next ∷ h.live } in
    if is_neg answer then refused answer h' else created h.next h'

pub record IoCtxTable : Type 0 where
  pub table1 : Dict String ℕ
  pub table2 : Dict ℤ ℕ

-- Init
unfoldable pub init : IoCtxTable
init = record { table1 = []; table2 = [] }

abbrev found : Option ℕ → Bool
found none = false
found (some c) = true

-- Insert, by name: an entry that is there is reported and overwritten all the same.
unfoldable pub insert_name : String → ℕ → IoCtxTable → ℤ × IoCtxTable
insert_name name c t = (
  if found (Dict.find name t.table1) then error_code else ok_code,
  record t { table1 = Dict.insert name c t.table1 },
)

-- Insert, by id: an entry that is there stays.
unfoldable pub insert_id : ℤ → ℕ → IoCtxTable → ℤ × IoCtxTable
insert_id pool c t =
    if found (Dict.find pool t.table2)
    then (error_code, t)
    else (ok_code, record t { table2 = Dict.insert pool c t.table2 })

-- GetIoCtx, by name and by id
unfoldable pub get_name : String → IoCtxTable → Option ℕ
get_name name t = Dict.find name t.table1

unfoldable pub get_id : ℤ → IoCtxTable → Option ℕ
get_id pool t = Dict.find pool t.table2

-- Delete, by name and by id
unfoldable pub delete_name : String → IoCtxTable → Heap → IoCtxTable × Heap
delete_name name t h = elim (Dict.find name t.table1) [
  | none ↦ (t, h)
  | some c ↦ (record t { table1 = Dict.erase name t.table1 }, release c h)
]

unfoldable pub delete_id : ℤ → IoCtxTable → Heap → IoCtxTable × Heap
delete_id pool t h = elim (Dict.find pool t.table2) [
  | none ↦ (t, h)
  | some c ↦ (record t { table2 = Dict.erase pool t.table2 }, release c h)
]

unfoldable pub release_all {ℓ} : {K : Type ℓ} → Dict K ℕ → Heap → Heap
release_all [] h = h
release_all ((k, c) ∷ m) h = release_all m (release c h)

-- Clear
unfoldable pub clear : IoCtxTable → Heap → IoCtxTable × Heap
clear t h = (record { table1 = []; table2 = [] }, release_all t.table2 (release_all t.table1 h))
