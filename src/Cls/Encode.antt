-- ===== src/Cls/Encode.antt =====
-- src/server_adaptor/network_module.cpp, lines 1151-1320: the cache writes the results of its
-- operations into the reply. A null message (`none`) is skipped; an index out of range is
-- undefined in the source, and changes nothing here.
use ceph_global_cache_adapto.Prelude.{
  ℕ, zero, suc, ◌-◌, false, Option, none, some, List, [], ◌∷◌, ◌++◌, ℤ, length, if◌then◌else◌, ltb,
  get_elem?,
}
use ceph_global_cache_adapto.Prelude.Word.{u64_mod}
use ceph_global_cache_adapto.Prelude.Dict.{Dict, find}
use ceph_global_cache_adapto.Prelude.Text.{Text, text_key}
use ceph_global_cache_adapto.Cls.Ordered.{put}
use ceph_global_cache_adapto.Msg.Types.{OpCode, sparse_read}
use ceph_global_cache_adapto.Cls.Types.{
  Slot, SaStr, bytes_of, SaBatchKeys, SaBatchKv, CloneInfo, ObjSnaps, SnapResponse, Wire, view_of,
}

-- ops[i] of the message is changed.
abbrev pub at : ℕ → (Slot → Slot) → List Slot → List Slot
at i f [] = []
at zero f (s ∷ ss) = f s ∷ ss
at (suc i) f (s ∷ ss) = s ∷ at i f ss

abbrev pub append_out : Text → Slot → Slot
append_out bytes s = record s { outdata = s.outdata ++ bytes }

-- A message pointer that is null is skipped.
abbrev pub in_message : (List Slot → List Slot) → Option (List Slot) → Option (List Slot)
in_message f none = none
in_message f (some ops) = some (f ops)

-- An argument that is null is skipped too.
abbrev pub with_argument {ℓ} :
    {A : Type ℓ} → Option A → (A → List Slot → List Slot) → Option (List Slot) → Option (List Slot)
with_argument none f m = m
with_argument (some a) f m = in_message (f a) m

unfoldable pub set_op_result : ℕ → ℤ → Option (List Slot) → Option (List Slot)
set_op_result i ret = in_message (at i (λ s. record s { rval = ret }))

-- map::insert keeps an entry that is there.
abbrev pub insert_new : Text → Text → Dict Text Text → Dict Text Text
insert_new k v m = elim (find k m) [ none ↦ put k v m | some w ↦ m ]

unfoldable pub collect : Dict Text Text → SaBatchKv → Dict Text Text
collect out [] = out
collect out ((k, v) ∷ kvs) = collect (insert_new (bytes_of k) (bytes_of v) out) kvs

-- The values, one after another
unfoldable pub values_of : SaBatchKv → Text
values_of [] = []
values_of ((k, v) ∷ kvs) = bytes_of v ++ values_of kvs

unfoldable pub encode_xattr_get_xattr :
    Option SaBatchKv → ℕ → Option (List Slot) → Option (List Slot)
unfolding values_of
encode_xattr_get_xattr key_value i =
    with_argument key_value (λ kv. at i (λ s. record s { outdata = values_of kv }))

-- snapid_t(-2), which stands for the head of the object
abbrev snap_head : ℕ
snap_head = u64_mod - 2

-- The last clone is the head, and has only its size.
abbrev pub clones_of : ObjSnaps → List CloneInfo
clones_of [] = []
clones_of (c ∷ []) =
    record { cloneid = snap_head; snaps = []; overlaps = []; obj_size = c.obj_size } ∷ []
clones_of (c ∷ d ∷ cs) = c ∷ clones_of (d ∷ cs)

abbrev id_of : Option CloneInfo → ℕ
id_of none = 0
id_of (some c) = c.cloneid

abbrev pub response_of : ObjSnaps → SnapResponse
response_of cs = record {
  seq = if ltb 1 (length cs) then id_of (get_elem? cs (length cs - 2)) else 0;
  clones = clones_of cs;
}

module _ (wire : Wire) where
  unfoldable pub process_buf : Option Text → ℕ → ℕ → Option (List Slot) → Option (List Slot)
  process_buf buf len cnt = in_message (at cnt (append_out (wire.encode_string (view_of len buf))))

  unfoldable pub keys_written : SaBatchKeys → Text
  keys_written [] = []
  keys_written (k ∷ ks) = wire.encode_string (bytes_of k) ++ keys_written ks

  unfoldable pub encode_omap_getkeys :
      Option SaBatchKeys → ℕ → Option (List Slot) → Option (List Slot)
  unfolding keys_written
  encode_omap_getkeys batch_keys i = with_argument batch_keys (λ keys.
      at i (
        append_out
          (wire.encode_u32 (length keys) ++ (keys_written keys ++ wire.encode_bool false))))

  -- A buffer that is null or empty is left out.
  abbrev pub written_unless_empty : SaStr → Text
  written_unless_empty s = elim s.buf [
    | none ↦ []
    | some b ↦ elim s.len [ zero ↦ [] | suc n ↦ wire.encode_string (bytes_of s) ]
  ]

  unfoldable pub kvs_written : SaBatchKv → Text
  kvs_written [] = []
  kvs_written ((k, v) ∷ kvs) = written_unless_empty k ++ (written_unless_empty v ++ kvs_written kvs)

  unfoldable pub encode_omap_getvals :
      Option SaBatchKv → ℕ → Option (List Slot) → Option (List Slot)
  unfolding kvs_written
  encode_omap_getvals kvs i = with_argument kvs (λ kv.
      at i (append_out (wire.encode_u32 (length kv) ++ (kvs_written kv ++ wire.encode_bool false))))

  unfoldable pub encode_omap_getvalsbykeys :
      Option SaBatchKv → ℕ → Option (List Slot) → Option (List Slot)
  unfolding collect
  encode_omap_getvalsbykeys key_value i =
      with_argument key_value (λ kv. at i (append_out (wire.encode_map (collect [] kv))))

  unfoldable pub encode_read :
      OpCode → ℕ → ℕ → Option Text → ℕ → ℕ → Option (List Slot) → Option (List Slot)
  encode_read sparse_read offset len buf buf_len i = in_message (
      at i (
        append_out
          (wire.encode_extents ((offset, len) ∷ []) ++ wire.encode_string (view_of buf_len buf))))
  encode_read _ offset len buf buf_len i = in_message (at i (append_out (view_of buf_len buf)))

  unfoldable pub encode_xattr_get_xattrs :
      Option SaBatchKv → ℕ → Option (List Slot) → Option (List Slot)
  unfolding collect
  encode_xattr_get_xattrs key_value i =
      with_argument key_value (λ kv. at i (append_out (wire.encode_map (collect [] kv))))

  -- time_t is written as a 64-bit number.
  unfoldable pub encode_get_opstat : ℕ → ℕ → ℕ → Option (List Slot) → Option (List Slot)
  encode_get_opstat psize ptime i =
      in_message (at i (append_out (wire.encode_u64 psize ++ wire.encode_u64 ptime)))

  -- `none` inside for an object without clones: the count minus 1 wraps round, and the loop reads
  -- far behind the array.
  unfoldable pub encode_list_snaps :
      Option ObjSnaps → ℕ → Option (List Slot) → Option (Option (List Slot))
  encode_list_snaps none i m = some m
  encode_list_snaps (some cs) i none = some none
  encode_list_snaps (some []) i (some ops) = none
  encode_list_snaps (some (c ∷ cs)) i (some ops) =
      some (some (at i (append_out (wire.encode_snaps (response_of (c ∷ cs)))) ops))
