-- ===== src/Pool/Contexts.antt =====
-- src/ceph_proxy/CephProxy.cc, lines 135-233: the calls that look contexts up, create them and
-- use them for a question to the cluster. A call's `allocated` and `answer` are those of
-- `rados_create_io_ctx`.
use ceph_global_cache_adapto.Prelude.{
  ℕ, Bool, true, false, Option, none, some, leb, if◌then◌else◌, ℤ, neg, error_code, ok_code,
}
use Prim.Native.String.{String}
use ceph_global_cache_adapto.Prelude.Text.{to_int32}
use ceph_global_cache_adapto.Pool.Table.{
  Heap, release, rados_create_io_ctx, refused, created, IoCtxTable, insert_name, insert_id,
  get_name, get_id,
}

-- What GetIoCtx does after its lookup, while no lock is held: use the context found, or create
-- and insert one.
unfoldable pub fill_name :
    String → Option ℕ → Bool → ℤ → IoCtxTable → Heap → Option ℕ × IoCtxTable × Heap
fill_name name (some c) allocated answer t h = (some c, t, h)
fill_name name none allocated answer t h = elim (rados_create_io_ctx allocated answer h) [
  | refused ret h' ↦ (none, t, h')
  | created c h' ↦ (some c, (insert_name name c t).1, h')
]

-- The same in GetIoCtx2
unfoldable pub fill_id : ℤ → Option ℕ → Bool → ℤ → IoCtxTable → Heap → Option ℕ × IoCtxTable × Heap
fill_id pool (some c) allocated answer t h = (some c, t, h)
fill_id pool none allocated answer t h = elim (rados_create_io_ctx allocated answer h) [
  | refused ret h' ↦ (none, t, h')
  | created c h' ↦ (some c, (insert_id pool c t).1, h')
]

-- GetIoCtx
unfoldable pub get_io_ctx : String → Bool → ℤ → IoCtxTable → Heap → Option ℕ × IoCtxTable × Heap
get_io_ctx name allocated answer t h = fill_name name (get_name name t) allocated answer t h

-- GetIoCtx2
unfoldable pub get_io_ctx2 : ℤ → Bool → ℤ → IoCtxTable → Heap → Option ℕ × IoCtxTable × Heap
get_io_ctx2 pool allocated answer t h = fill_id pool (get_id pool t) allocated answer t h

-- GetIoCtxFromCeph: the caller owns the context.
unfoldable pub get_io_ctx_from_ceph : Bool → ℤ → Heap → Option ℕ × Heap
get_io_ctx_from_ceph allocated answer h = elim (rados_create_io_ctx allocated answer h) [
  | refused ret h' ↦ (none, h')
  | created c h' ↦ (some c, h')
]

-- GetPoolIdByPoolName: `id` is what get_id of librados returns. The id passes through an `int`.
unfoldable pub get_pool_id_by_pool_name : Bool → ℤ → ℤ → Heap → ℤ × Heap
get_pool_id_by_pool_name allocated answer id h = elim (rados_create_io_ctx allocated answer h) [
  | refused ret h' ↦ (error_code, h')
  | created c h' ↦ (to_int32 id, release c h')
]

-- GetPoolIdByCtx
unfoldable pub get_pool_id_by_ctx : ℤ → ℤ
get_pool_id_by_ctx id = to_int32 id

abbrev pub erange : ℕ
erange = 34

-- RadosGetPoolName and GetPoolNameByPoolId: `size` is the length of the pool's name; the result
-- is the code and whether the name was copied to the buffer.
unfoldable pub rados_get_pool_name : ℕ → ℕ → ℤ × Bool
rados_get_pool_name size max_len = if leb max_len size then (neg erange, false) else (ok_code, true)

unfoldable pub get_pool_name_by_pool_id : Bool → ℤ → ℕ → ℕ → Heap → ℤ × Bool × Heap
unfolding rados_get_pool_name
get_pool_name_by_pool_id allocated answer size max_len h =
    elim (rados_create_io_ctx allocated answer h) [
      | refused ret h' ↦ (error_code, false, h')
      | created c h' ↦
          let (ret, copied) = rados_get_pool_name size max_len in (ret, copied, release c h')
    ]
