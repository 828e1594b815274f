-- ===== src/Msg/Types.antt =====
-- src/dependency/include/sa_def.h: the requests as the cache takes them; and what the code reads
-- of Ceph's OSDOp and of Ceph's encoding.
use ceph_global_cache_adapto.Prelude.{ℕ, Bool, Option, List, ℤ}
use ceph_global_cache_adapto.Prelude.Text.{Text}

-- The operation codes of Ceph that the code names; `unknown` is any other.
pub data OpCode : Type 0 where
  sparse_read sync_read read write_full write : OpCode
  get_xattr rm_xattr cmp_xattr set_xattr : OpCode
  omap_get_vals omap_set_vals omap_get_keys omap_rm_keys omap_clear omap_get_vals_by_keys : OpCode
  omap_cmp omap_set_header omap_get_header : OpCode
  get_xattrs stat call list_snaps create rollback delete : OpCode
  unknown : ℕ → OpCode

-- CEPH_OSD_CMPXATTR_MODE_STRING, CEPH_OSD_CMPXATTR_MODE_U64, and the rest
pub data CmpMode : Type 0 where
  as_string as_u64 : CmpMode
  as_other : ℕ → CmpMode

-- The fields of Ceph's OSDOp that are read
pub record OsdOp : Type 0 where
  pub op : OpCode
  pub flags : ℕ
  pub extent_offset : ℕ
  pub extent_length : ℕ
  pub class_len : ℕ
  pub method_len : ℕ
  pub indata_len : ℕ
  pub name_len : ℕ
  pub value_len : ℕ
  pub cmp_op : ℤ
  pub cmp_mode : CmpMode
  pub snapid : ℕ
  pub indata : Text

pub record OptionsType : Type 0 where
  pub write : ℕ
  pub read : ℕ

pub record OptionsLength : Type 0 where
  pub write : ℕ
  pub read : ℕ

-- RbdObjid
pub record RbdObjid : Type 0 where
  pub pool_id : ℕ  -- uint32
  pub head : ℕ  -- uint64
  pub seq : ℕ  -- 40 bits
  pub format : ℕ  -- 8 bits
  pub version : ℕ  -- 8 bits
  pub reserve : ℕ  -- 8 bits

-- OpRequestOps; `none` for an RbdObjid that is not written.
pub record OpRequestOps : Type 0 where
  pub op_sub_type : OpCode
  pub obj_name : Text
  pub is_rbd : Bool
  pub rbd_obj_id : Option RbdObjid
  pub in_data : Option Text
  pub in_data_len : ℕ
  pub out_data_len : ℕ
  pub obj_offset : ℕ
  pub obj_length : ℕ
  pub op_flags : ℕ
  pub keys : List Text
  pub values : List Text
  pub subops : List ℤ
  pub u64vals : List ℕ
  pub cmp_modes : List CmpMode

-- Ceph's decoding of a buffer: each operation gives what it read and the bytes that are left, or
-- throws (`none`) where the bytes do not suffice.
pub record Codec : Type 0 where
  pub copy : ℕ → Text → Option (Text × Text)
  pub decode_u32 : Text → Option (ℕ × Text)
  pub decode_u64 : Text → Option (ℕ × Text)
  pub decode_string : Text → Option (Text × Text)
  pub decode_set : Text → Option (List Text × Text)
  pub decode_map : Text → Option (List (Text × Text) × Text)
  pub decode_assertions : Text → Option (List (Text × Text × ℤ) × Text)
