-- ===== src/Cls/Exec.antt =====
-- OSA_ExecClass of src/server_adaptor/osa.cpp, and ClassMethod::exec of
-- src/server_adaptor/ClassHandler.cc.
use ceph_global_cache_adapto.Prelude.{
  ◌||◌, ℕ, Bool, false, Option, none, some, List, [], ◌++◌, ◌&&◌, ℤ, pos, neg, is_zero, einval,
  eopnotsupp, ok_code, if◌then◌else◌, length, get_elem?, set,
}
use ceph_global_cache_adapto.Prelude.Word.{u32}
use ceph_global_cache_adapto.Prelude.Text.{Text, codes, text_eq, to_int32}
use ceph_global_cache_adapto.Msg.Types.{OsdOp, OpRequestOps, Codec}
use ceph_global_cache_adapto.Msg.Process.{SaOpReq}
use ceph_global_cache_adapto.Loader.Types.{Classes, ClassMethod, Env, class_at}
use ceph_global_cache_adapto.Loader.Methods.{get_method}
use ceph_global_cache_adapto.Loader.Handler.{open_class}
use ceph_global_cache_adapto.Cls.Types.{Slot, Wire}
use ceph_global_cache_adapto.Cls.Encode.{at}
use ceph_global_cache_adapto.Cls.Api.{Cache, Context, World, cls_cxx_stat2, cls_cxx_write}

-- The operations of the message, the cache, the flag of the copy-up, and the classes
pub record ExecWorld (cache : Cache) : Type 0 where
  pub world : World cache
  pub copyup_flag : Bool
  pub classes : Classes

-- The code of the classes, by the addresses of their functions, and the cache's prefetch. A
-- function in C gives a buffer or a null pointer.
pub record Plugins (cache : Cache) : Type 0 where
  pub cxx_method : ℕ → Context → Text → World cache → ℤ × Text × World cache
  pub c_method : ℕ → Context → Text → World cache → ℤ × Option Text × World cache
  pub prefetch : SaOpReq → Option OpRequestOps → World cache → ℤ × World cache

-- How a call ends: with a code; by an exception of a decoder; by a null function; or never.
pub data Ending (cache : Cache) : Type 0 where
  returned : ℤ → ExecWorld cache → Ending cache
  threw crashed endless : Ending cache

-- A call: `none` for a null context; the client's operation is `none` for a null message.
pub record Invocation : Type 0 where
  pub context : Context
  pub clientop : Option OsdOp

abbrev or_empty : Option Text → Text
or_empty none = []
or_empty (some s) = s

-- The name of the class, that of the method, and the input
pub record Header : Type 0 where
  pub cname : Text
  pub mname : Text
  pub indata : Text

module _ (codec : Codec) where
  abbrev third : Text → Text → Option (Text × Text) → Option Header
  third cname mname none = none
  third cname mname (some (indata, p)) =
      some (record { cname = cname; mname = mname; indata = indata })

  abbrev second_of : OsdOp → Text → Option (Text × Text) → Option Header
  second_of op cname none = none
  second_of op cname (some (mname, p)) = third cname mname (codec.copy op.indata_len p)

  abbrev first_of : OsdOp → Option (Text × Text) → Option Header
  first_of op none = none
  first_of op (some (cname, p)) = second_of op cname (codec.copy op.method_len p)

  unfoldable pub header_of_call : OsdOp → Option Header
  header_of_call op = first_of op (codec.copy op.class_len op.indata)

-- CheckClassList
unfoldable pub check_class_list : Text → Bool
unfolding text_eq
check_class_list cname = text_eq (codes "rgw") cname || text_eq (codes "lock") cname

unfoldable pub is_prefetch : Header → Bool
unfolding text_eq
is_prefetch h = text_eq h.cname (codes "rpc") && text_eq h.mname (codes "das_prefetch")

unfoldable pub is_copyup : Header → Bool
unfolding text_eq
is_copyup h = text_eq h.cname (codes "rbd") && text_eq h.mname (codes "copyup")

module _ (cache : Cache) (plugins : Plugins cache) where
  abbrev c_result : ℤ × Option Text × World cache → ℤ × Text × World cache
  c_result (r, out, w) = (r, or_empty out, w)

  -- ClassMethod::exec prefers the function in C++; `none` for a null function.
  unfoldable pub exec : ClassMethod → Context → Text → World cache → Option (ℤ × Text × World cache)
  exec m ctx indata w = elim m.cxx_func [
    | some f ↦ some (plugins.cxx_method f ctx indata w)
    | none ↦ elim m.func [
      | some f ↦ some (c_result (plugins.c_method f ctx indata w))
      | none ↦ none
    ]
  ]

  -- The output of a method that succeeds goes into the reply.
  abbrev reply_with : Text → Slot → Slot
  reply_with out s = record s { outdata = s.outdata ++ out; extent_length = some (length out) }

  abbrev pub method_ended :
      Context → ExecWorld cache → Option (ℤ × Text × World cache) → Ending cache
  method_ended ctx w none = crashed
  method_ended ctx w (some (r, out, (ops, st))) =
      returned r
        (record w { world = (if is_zero r then at ctx.op_id (reply_with out) ops else ops, st) })

  abbrev pub with_method : Context → Text → ExecWorld cache → Option ClassMethod → Ending cache
  with_method ctx indata w none = returned (neg eopnotsupp) w
  with_method ctx indata w (some m) = method_ended ctx w (exec m ctx indata w.world)

  abbrev pub with_class :
      Env → Context → Header → ExecWorld cache → Option (ℤ × Classes) → Ending cache
  with_class env ctx h w none = endless
  with_class env ctx h w (some (r, cs)) =
      if is_zero r
      then with_method ctx h.indata (record w { classes = cs })
          (get_method h.mname (class_at env h.cname cs))
      else returned (neg eopnotsupp) (record w { classes = cs })

  unfoldable pub run_class : Env → ℕ → Context → Header → ExecWorld cache → Ending cache
  unfolding check_class_list open_class get_method exec
  run_class env fuel ctx h w =
      if check_class_list h.cname
      then with_class env ctx h w (open_class env fuel h.cname w.classes)
      else returned (neg eopnotsupp) w

  abbrev prefetched : ExecWorld cache → ℤ × World cache → Ending cache
  prefetched w (r, w') = returned r (record w { world = w' })

  abbrev aimed : ℕ → ℕ → OpRequestOps → OpRequestOps
  aimed offset len o = record o { obj_offset = u32 offset; obj_length = u32 len }

  abbrev aimed_at : ℕ → ℕ → Option OpRequestOps → Option OpRequestOps
  aimed_at offset len none = none
  aimed_at offset len (some o) = some (aimed offset len o)

  abbrev aimed_ops : ℕ → List OpRequestOps → Option OpRequestOps → List OpRequestOps
  aimed_ops i ops none = ops
  aimed_ops i ops (some o) = set ops i o

  -- The operation of the request gets the offset and the length, cut to 32 bits.
  abbrev prefetch_from : Context → ExecWorld cache → ℕ → Option (ℕ × Text) → Ending cache
  prefetch_from ctx w offset none = threw
  prefetch_from ctx w offset (some (len, p)) =
      let o = aimed_at offset len (get_elem? ctx.op_req.vec_ops ctx.op_id) in
      prefetched w (
        plugins.prefetch
          (record (ctx.op_req) { vec_ops = aimed_ops ctx.op_id ctx.op_req.vec_ops o }) o w.world)

  abbrev prefetch_at : Codec → Context → ExecWorld cache → Option (ℕ × Text) → Ending cache
  prefetch_at codec ctx w none = threw
  prefetch_at codec ctx w (some (offset, p)) = prefetch_from ctx w offset (codec.decode_u64 p)

  unfoldable pub run_prefetch : Codec → Context → Header → ExecWorld cache → Ending cache
  run_prefetch codec ctx h w = prefetch_at codec ctx w (codec.decode_u64 h.indata)

  -- `*copyupFlag = 0`
  abbrev pub cleared : ExecWorld cache → World cache → ExecWorld cache
  cleared w w' = record w { world = w'; copyup_flag = false }

  abbrev pub copied_up : ExecWorld cache → ℤ × World cache → Ending cache
  copied_up w (r, w') = returned r (cleared w w')

  -- An object that is there is left alone; any other is written.
  abbrev pub copy_up_unless :
      Context → Text → ExecWorld cache → ℤ × Option (ℕ × ℕ × ℕ) × World cache → Ending cache
  copy_up_unless ctx indata w (r, found, w') =
      if is_zero r
      then returned ok_code (cleared w w')
      else copied_up w (cls_cxx_write cache ctx (pos 0) (to_int32 (pos (length indata))) indata w')

  unfoldable pub run_copyup : Codec → Wire → Context → Header → ExecWorld cache → Ending cache
  unfolding cls_cxx_stat2 cls_cxx_write
  run_copyup codec wire ctx h w =
      copy_up_unless ctx h.indata w (cls_cxx_stat2 cache codec wire ctx w.world)

  abbrev pub by_name :
      Codec → Wire → Env → ℕ → Context → ExecWorld cache → Option Header → Ending cache
  by_name codec wire env fuel ctx w none = returned (neg einval) w
  by_name codec wire env fuel ctx w (some h) =
      if is_prefetch h
      then run_prefetch codec ctx h w
      else if is_copyup h
      then run_copyup codec wire ctx h w
      else run_class env fuel ctx h w

  abbrev pub with_clientop :
      Codec → Wire → Env → ℕ → Context → ExecWorld cache → Option OsdOp → Ending cache
  with_clientop codec wire env fuel ctx w none = returned (neg einval) w
  with_clientop codec wire env fuel ctx w (some op) =
      by_name codec wire env fuel ctx w (header_of_call codec op)

  unfoldable pub exec_class :
      Codec → Wire → Env → ℕ → Option Invocation → ExecWorld cache → Ending cache
  unfolding header_of_call is_prefetch is_copyup run_prefetch run_copyup run_class
  exec_class codec wire env fuel none w = returned (neg einval) w
  exec_class codec wire env fuel (some i) w =
      with_clientop codec wire env fuel i.context w i.clientop
