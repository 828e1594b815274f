-- ===== src/Msg/Convert.antt =====
-- src/server_adaptor/msg_module.cpp: MsgModule. An exception that leaves a function is `none`.
use ceph_global_cache_adapto.Prelude.{
  ◌>>=◌, ℕ, zero, suc, ◌+◌, ◌/◌, Bool, false, Option, none, some, List, [], ◌∷◌, ◌++◌, ◌&&◌, ℤ,
  length, map,
}
use ceph_global_cache_adapto.Prelude.Word.{u32, add64}
use ceph_global_cache_adapto.Prelude.Text.{Text, codes, text_eq, to_string}
use ceph_global_cache_adapto.Msg.Types.{
  OpCode, sparse_read, sync_read, read, write_full, write, get_xattr, rm_xattr, cmp_xattr,
  set_xattr, omap_get_vals, omap_set_vals, omap_get_keys, omap_rm_keys, omap_clear,
  omap_get_vals_by_keys, omap_cmp, omap_set_header, omap_get_header, call, create, rollback,
  CmpMode, as_string, as_u64, as_other, OsdOp, OptionsType, OptionsLength, OpRequestOps, Codec,
}

abbrev first_of_triple : List (Text × Text × ℤ) → List Text
first_of_triple [] = []
first_of_triple ((k, v, i) ∷ l) = k ∷ first_of_triple l

abbrev second_of_triple : List (Text × Text × ℤ) → List Text
second_of_triple [] = []
second_of_triple ((k, v, i) ∷ l) = v ∷ second_of_triple l

abbrev third_of_triple : List (Text × Text × ℤ) → List ℤ
third_of_triple [] = []
third_of_triple ((k, v, i) ∷ l) = i ∷ third_of_triple l

module _ (codec : Codec) where
  open codec use {
    copy, decode_u32, decode_u64, decode_string, decode_set, decode_map, decode_assertions,
  }

  -- One length and as many bytes: `decode(l, p); p.advance(l); len += 4 + l;`
  unfoldable pub skip_string : ℕ → Text → Option (ℕ × Text)
  skip_string len p = do
    (l, p1) ← decode_u32 p
    (skipped, p2) ← copy l p1
    some (u32 (len + 4 + l), p2)

  unfoldable pub skip_pairs : ℕ → ℕ → Text → Option (ℕ × Text)
  skip_pairs zero len p = some (len, p)
  skip_pairs (suc n) len p = do
    (len1, p1) ← skip_string len p
    (len2, p2) ← skip_string len1 p1
    skip_pairs n len2 p2

  -- decode_str_str_map_to_bl: the bytes of the encoded map at the start of the buffer
  unfoldable pub decode_str_str_map_to_bl : Text → Option Text
  unfolding skip_pairs skip_string
  decode_str_str_map_to_bl start = do
    (n, p) ← decode_u32 start
    (len, rest) ← skip_pairs n 4 p
    (out, after) ← copy len start
    some out

  abbrev reads : OsdOp → OpRequestOps → OpRequestOps
  reads c o = record o { out_data_len = u32 c.extent_length }

  abbrev writes : OsdOp → OpRequestOps → OpRequestOps
  writes c o = record o { in_data = some c.indata; in_data_len = u32 (length c.indata) }

  -- ConvertObjRw
  unfoldable pub convert_obj_rw : OpCode → OsdOp → OpRequestOps → OpRequestOps
  convert_obj_rw read c o = reads c o
  convert_obj_rw sparse_read c o = reads c o
  convert_obj_rw sync_read c o = reads c o
  convert_obj_rw write c o = writes c o
  convert_obj_rw write_full c o = writes c o
  convert_obj_rw _ c o = o

  abbrev push : OpRequestOps → List Text → List Text → OpRequestOps
  push o ks vs = record o { keys = o.keys ++ ks; values = o.values ++ vs }

  -- ConvertOmapOp
  unfoldable pub convert_omap_op : OpCode → OsdOp → OpRequestOps → Option OpRequestOps
  unfolding decode_str_str_map_to_bl
  convert_omap_op omap_get_vals c o = do
    (start_after, p1) ← decode_string c.indata
    (max_return, p2) ← decode_u64 p1
    (filter_prefix, p3) ← decode_string p2
    some (
        push o (codes "start_after" ∷ codes "max_return" ∷ codes "filter_prefix" ∷ [])
          (start_after ∷ to_string max_return ∷ filter_prefix ∷ []))
  convert_omap_op omap_set_vals c o = do
    bytes ← decode_str_str_map_to_bl c.indata
    (to_set, p) ← decode_map bytes
    some (push o (map (λ (e : Text × Text). e.0) to_set) (map (λ (e : Text × Text). e.1) to_set))
  convert_omap_op omap_get_keys c o = do
    (start_after, p1) ← decode_string c.indata
    (max_return, p2) ← decode_u64 p1
    some (
        push o (codes "start_after" ∷ codes "max_return" ∷ [])
          (start_after ∷ to_string max_return ∷ []))
  convert_omap_op omap_rm_keys c o = do (keys, p) ← decode_set c.indata; some (push o keys [])
  convert_omap_op omap_get_vals_by_keys c o = do
    (keys, p) ← decode_set c.indata
    some (push o keys [])
  convert_omap_op omap_set_header c o =
      some (record o { in_data_len = u32 c.extent_length; in_data = some c.indata })
  convert_omap_op omap_cmp c o = do
    (assertions, p) ← decode_assertions c.indata
    some (record (push o (first_of_triple assertions) (second_of_triple assertions)) {
      subops = o.subops ++ third_of_triple assertions;
    })
  convert_omap_op _ c o = some o

  -- The values of ConvertAttrOp, by the code and the comparison's mode; `p` is what follows the
  -- attribute's name in the buffer.
  abbrev compared : CmpMode → OsdOp → Text → OpRequestOps → Option OpRequestOps
  compared as_string c p o = do
    (val, rest) ← copy c.value_len p
    some (record o { values = o.values ++ (val ∷ []) })
  compared as_u64 c p o = do
    (val, rest) ← decode_u64 p
    some (record o { u64vals = o.u64vals ++ (val ∷ []) })
  compared (as_other n) c p o = some o

  abbrev attr_values : OpCode → OsdOp → Text → OpRequestOps → Option OpRequestOps
  attr_values set_xattr c p o = do
    (val, rest) ← copy c.value_len p
    some (record o { values = o.values ++ (val ∷ []) })
  attr_values cmp_xattr c p o = compared c.cmp_mode c p (record o {
    subops = o.subops ++ (c.cmp_op ∷ []);
    cmp_modes = o.cmp_modes ++ (c.cmp_mode ∷ []);
  })
  attr_values _ c p o = some o

  -- ConvertAttrOp
  unfoldable pub convert_attr_op : OpCode → OsdOp → OpRequestOps → Option OpRequestOps
  convert_attr_op code c o = do
    (name, p) ← copy c.name_len c.indata
    attr_values code c p (record o { keys = o.keys ++ (name ∷ []) })

  -- ConvertRollBackOp
  unfoldable pub convert_roll_back_op : OsdOp → OpRequestOps → OpRequestOps
  convert_roll_back_op c o = push o (codes "snapid" ∷ []) (to_string c.snapid ∷ [])

  -- Whether a CALL is rbd.copyup. A buffer that is too short is logged, and what was read of the
  -- two names is compared: a read that is too short takes all there is before it throws.
  abbrev copyup_named : Text → Text → Bool
  copyup_named cname mname = text_eq cname (codes "rbd") && text_eq mname (codes "copyup")

  abbrev method_is : Text → Text → Option (Text × Text) → Bool
  method_is cname rest none = copyup_named cname rest
  method_is cname rest (some (mname, p)) = copyup_named cname mname

  abbrev class_is : ℕ → Text → Option (Text × Text) → Bool
  class_is method_len rest none = copyup_named rest []
  class_is method_len rest (some (cname, p)) = method_is cname p (copy method_len p)

  unfoldable pub is_copy_up : OsdOp → Bool
  unfolding text_eq
  is_copy_up c = class_is c.method_len c.indata (copy c.class_len c.indata)

  pub record Converted : Type 0 where
    pub copy_up : Bool
    pub one_op : OpRequestOps
    pub option_type : OptionsType
    pub option_length : OptionsLength

  abbrev as_read : OsdOp → OpRequestOps → OptionsType → OptionsLength → Converted
  as_read c o t l = record {
    copy_up = false;
    one_op =
        convert_obj_rw c.op c
          (record o { obj_offset = u32 c.extent_offset; obj_length = u32 c.extent_length });
    option_type = record t { read = u32 (t.read + 1) };
    option_length = record l { read = add64 l.read (c.extent_length / 1024) };
  }

  abbrev as_write : OsdOp → OpRequestOps → OptionsType → OptionsLength → Converted
  as_write c o t l = record {
    copy_up = false;
    one_op =
        convert_obj_rw c.op c
          (record o { obj_offset = u32 c.extent_offset; obj_length = u32 c.extent_length });
    option_type = record t { write = u32 (t.write + 1) };
    option_length = record l { write = add64 l.write (c.extent_length / 1024) };
  }

  abbrev plain : OpRequestOps → OptionsType → OptionsLength → Converted
  plain o t l = record { copy_up = false; one_op = o; option_type = t; option_length = l }

  abbrev maybe_plain : Option OpRequestOps → OptionsType → OptionsLength → Option Converted
  maybe_plain none t l = none
  maybe_plain (some o) t l = some (plain o t l)

  -- The switch of ConvertClientopToOpreq
  unfoldable pub convert_by :
      OpCode → OsdOp → OpRequestOps → OptionsType → OptionsLength → Option Converted
  convert_by sparse_read c o t l = some (as_read c o t l)
  convert_by sync_read c o t l = some (as_read c o t l)
  convert_by read c o t l = some (as_read c o t l)
  convert_by write_full c o t l = some (as_write c o t l)
  convert_by write c o t l = some (as_write c o t l)
  convert_by get_xattr c o t l = maybe_plain (convert_attr_op get_xattr c o) t l
  convert_by rm_xattr c o t l = maybe_plain (convert_attr_op rm_xattr c o) t l
  convert_by cmp_xattr c o t l = maybe_plain (convert_attr_op cmp_xattr c o) t l
  convert_by set_xattr c o t l = maybe_plain (convert_attr_op set_xattr c o) t l
  convert_by omap_get_vals c o t l = maybe_plain (convert_omap_op omap_get_vals c o) t l
  convert_by omap_set_vals c o t l = maybe_plain (convert_omap_op omap_set_vals c o) t l
  convert_by omap_get_keys c o t l = maybe_plain (convert_omap_op omap_get_keys c o) t l
  convert_by omap_rm_keys c o t l = maybe_plain (convert_omap_op omap_rm_keys c o) t l
  convert_by omap_clear c o t l = maybe_plain (convert_omap_op omap_clear c o) t l
  convert_by omap_get_vals_by_keys c o t l =
      maybe_plain (convert_omap_op omap_get_vals_by_keys c o) t l
  convert_by omap_cmp c o t l = maybe_plain (convert_omap_op omap_cmp c o) t l
  convert_by omap_set_header c o t l = maybe_plain (convert_omap_op omap_set_header c o) t l
  convert_by omap_get_header c o t l = maybe_plain (convert_omap_op omap_get_header c o) t l
  convert_by call c o t l = some (record (plain o t l) { copy_up = is_copy_up c })
  convert_by create c o t l = some (plain (record o { op_flags = c.flags }) t l)
  convert_by rollback c o t l = some (plain (convert_roll_back_op c o) t l)
  convert_by _ c o t l = some (plain o t l)

  -- ConvertClientopToOpreq
  unfoldable pub convert_clientop_to_opreq :
      OsdOp → OpRequestOps → OptionsType → OptionsLength → Option Converted
  unfolding convert_by
  convert_clientop_to_opreq c o t l = convert_by c.op c (record o { op_sub_type = c.op }) t l
