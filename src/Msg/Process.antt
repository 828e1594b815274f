-- ===== src/Msg/Process.antt =====
-- src/server_adaptor/network_module.cpp, lines 563-660 and 716-724: ProcessOpReq and
-- ContainWriteOp.
use ceph_global_cache_adapto.Prelude.{
  ℕ, ◌+◌, ◌-◌, ◌/◌, ◌%◌, Bool, true, false, Option, none, some, List, [], ◌∷◌, ◌++◌, ◌||◌, ◌==◌,
  leb, ltb, if◌then◌else◌, length, get_elem?,
}
use ceph_global_cache_adapto.Prelude.Word.{u32_mod}
use ceph_global_cache_adapto.Prelude.Text.{Text, codes, text_eq, tokens, strtoull}
use ceph_global_cache_adapto.Msg.Types.{
  OpCode, write_full, write, unknown, OsdOp, OptionsType, OptionsLength, RbdObjid, OpRequestOps,
  Codec,
}
use ceph_global_cache_adapto.Msg.Convert.{Converted, convert_clientop_to_opreq}

-- The fields of Ceph's MOSDOp that are read; `pool` is the 64-bit pattern of the pool's id.
pub record Mosdop : Type 0 where
  pub tid : ℕ
  pub snapid : ℕ
  pub pool : ℕ
  pub seq : ℕ
  pub seed : ℕ
  pub snap_seq : ℕ
  pub snaps : List ℕ
  pub oid : Text
  pub ops : List OsdOp

abbrev pub gcache_default : ℕ
gcache_default = 0

abbrev pub gcache_write : ℕ
gcache_write = 1

abbrev pub gcache_read : ℕ
gcache_read = 2

-- SaOpReq; `op_type` stays OBJECT_OP.
pub record SaOpReq : Type 0 where
  pub vec_ops : List OpRequestOps
  pub option_type : ℕ
  pub option_length : ℕ
  pub op_type : ℕ
  pub snap_id : ℕ
  pub tid : ℕ
  pub ops_sequence : ℕ
  pub pt_id : ℕ
  pub pool_id : ℕ
  pub snap_seq : ℕ
  pub snaps : List ℕ
  pub exits_copy_up : Bool
  pub pt_version : ℕ

-- A signed 64-bit number by its pattern, shifted by 32 to the right: the sign is kept.
abbrev shifted : ℕ → ℕ
shifted n = if ltb n 9223372036854775808 then n / u32_mod else n / u32_mod + 18446744069414584320

-- The request before its operations are converted
unfoldable pub header_of : Mosdop → SaOpReq
header_of m = record {
  vec_ops = [];
  option_type = gcache_default;
  option_length = 0;
  op_type = 0;
  snap_id = m.snapid;
  tid = m.tid;
  ops_sequence = m.seq;
  pt_id = m.seed;
  pool_id = m.pool % u32_mod;
  snap_seq = m.snap_seq;
  snaps = m.snaps;
  exits_copy_up = false;
  pt_version = shifted m.pool;
}

-- What the name of the object says: an object of no image, one of an image with its sections,
-- or a name that begins like the latter and is too short.
pub data NameKind : Type 0 where
  plain_name bad_name : NameKind
  rbd_name : List Text → NameKind

abbrev by_sections : List Text → NameKind
by_sections [] = plain_name
by_sections (s ∷ ss) =
    if text_eq s (codes "rbd_data")
    then if leb 3 (length (s ∷ ss)) then rbd_name (s ∷ ss) else bad_name
    else plain_name

unfoldable pub name_kind : Text → NameKind
unfolding tokens text_eq
name_kind name = by_sections (tokens (λ c. c == b'.') name)

-- The section that is this many places before the end; the last is 1.
abbrev pub from_end : ℕ → List Text → Text
from_end n ss = elim (get_elem? ss (length ss - n)) [ none ↦ [] | some s ↦ s ]

-- rbdObjId for the sections of a name; `none` where the id of the data pool has more than 32 bits.
unfoldable pub rbd_obj_id_of : List Text → Option RbdObjid
unfolding strtoull
rbd_obj_id_of ss =
    let id : RbdObjid = record {
      pool_id = 0;
      head = strtoull 16 (codes "1" ++ from_end 2 ss);
      seq = strtoull 16 (from_end 1 ss) % 1099511627776;
      format = 0;
      version = 1;
      reserve = 0;
    } in
    if ltb 3 (length ss)
    then if ltb 0 (strtoull 10 (from_end 3 ss) / u32_mod)
      then none
      else some (record id { pool_id = strtoull 10 (from_end 3 ss); format = 1 })
    else some id

-- A new OpRequestOps with the object's name and, for an image, its id; `none` for the overflow.
abbrev pub blank_op : Text → RbdObjid → Bool → OpRequestOps
blank_op name id rbd = record {
  op_sub_type = unknown 0;
  obj_name = name;
  is_rbd = rbd;
  rbd_obj_id = if rbd then some id else none;
  in_data = none;
  in_data_len = 0;
  out_data_len = 0;
  obj_offset = 0;
  obj_length = 0;
  op_flags = 0;
  keys = [];
  values = [];
  subops = [];
  u64vals = [];
  cmp_modes = [];
}

abbrev pub no_id : RbdObjid
no_id = record { pool_id = 0; head = 0; seq = 0; format = 0; version = 0; reserve = 0 }

abbrev with_id : Text → Option RbdObjid → Option OpRequestOps
with_id name none = none
with_id name (some id) = some (blank_op name id true)

unfoldable pub one_op_of : Text → NameKind → Option OpRequestOps
unfolding rbd_obj_id_of
one_op_of name (rbd_name ss) = with_id name (rbd_obj_id_of ss)
one_op_of name _ = some (blank_op name no_id false)

-- How ProcessOpReq ends: with 0 and the request; with 1, after a reply of -EINVAL; with -1, and
-- no reply; or by an exception of the decoding.
pub data Processed : Type 0 where
  converted : SaOpReq → Processed
  answered overflowed threw : Processed

-- What the loop over the operations changes
pub record Progress : Type 0 where
  pub vec_ops : List OpRequestOps
  pub exits_copy_up : Bool
  pub option_type : OptionsType
  pub option_length : OptionsLength

pub data Looped : Type 0 where
  looped : Progress → Looped
  loop_overflowed loop_threw : Looped

module _ (codec : Codec) where
  abbrev pub add_op : Progress → Converted codec → Progress
  add_op p c = record {
    vec_ops = p.vec_ops ++ (c.one_op ∷ []);
    exits_copy_up = c.copy_up || p.exits_copy_up;
    option_type = c.option_type;
    option_length = c.option_length;
  }

  -- The loop of ProcessOpReq
  unfoldable pub process_ops : Text → NameKind → List OsdOp → Progress → Looped
  process_ops name kind [] p = looped p
  process_ops name kind (c ∷ cs) p = elim (one_op_of name kind) [
    | none ↦ loop_overflowed
    | some o ↦ elim (convert_clientop_to_opreq codec c o p.option_type p.option_length) [
      | none ↦ loop_threw
      | some done ↦ process_ops name kind cs (add_op p done)
    ]
  ]

  abbrev pub no_progress : Progress
  no_progress = record {
    vec_ops = [];
    exits_copy_up = false;
    option_type = record { write = 0; read = 0 };
    option_length = record { write = 0; read = 0 };
  }

  abbrev pub finish_request : SaOpReq → Looped → Processed
  finish_request r (looped p) = converted (record r {
    vec_ops = p.vec_ops;
    exits_copy_up = p.exits_copy_up;
    option_type = if p.option_type.write == 0 then gcache_read else gcache_write;
    option_length =
        if p.option_type.write == 0 then p.option_length.read else p.option_length.write;
  })
  finish_request r loop_overflowed = overflowed
  finish_request r loop_threw = threw

  abbrev pub process_kind : Mosdop → NameKind → Processed
  process_kind m plain_name =
      finish_request (header_of m) (process_ops m.oid plain_name m.ops no_progress)
  process_kind m bad_name = answered
  process_kind m (rbd_name ss) =
      finish_request (header_of m) (process_ops m.oid (rbd_name ss) m.ops no_progress)

  -- ProcessOpReq
  unfoldable pub process_op_req : Mosdop → Processed
  process_op_req m = process_kind m (name_kind m.oid)

-- ContainWriteOp
abbrev pub is_write : OpCode → Bool
is_write write_full = true
is_write write = true
is_write _ = false

unfoldable pub contain_write_op : List OsdOp → Bool
contain_write_op [] = false
contain_write_op (c ∷ cs) = let rest = contain_write_op cs in if is_write c.op then true else rest
