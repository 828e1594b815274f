-- ===== src/Cls/Api.antt =====
-- src/server_adaptor/class_api.cc: what object classes call. Each call sends the cache one
-- operation on the object of the request. The calls that read swap the operations of the message
-- for one empty operation while the cache works, so that its answer lands there.
use ceph_global_cache_adapto.Prelude.{
  ℕ, zero, Bool, true, false, Option, none, some, List, [], ◌∷◌, ℤ, length, if◌then◌else◌, leb,
  get_elem?, pos, neg, is_neg, eio, einval, ok_code,
}
use ceph_global_cache_adapto.Prelude.Dict.{Dict}
use ceph_global_cache_adapto.Prelude.Text.{Text, to_int32, of_int32}
use ceph_global_cache_adapto.Prelude.Word.{u32}
use ceph_global_cache_adapto.Msg.Types.{
  OpCode, get_xattr, set_xattr, create, delete, stat, sync_read, write, write_full, get_xattrs,
  OpRequestOps, RbdObjid, Codec,
}
use ceph_global_cache_adapto.Msg.Process.{SaOpReq, blank_op, no_id}
use ceph_global_cache_adapto.Cls.Types.{Slot, blank_slot, Wire}

-- The cache's handler of a request (cbFunc): what it returns, the operations of the message
-- afterwards, and its state.
pub record Cache : Type 1 where
  pub State : Type 0
  pub exec : SaOpReq → List Slot → State → ℤ × List Slot × State

-- SaOpContext, with the name of the object of its message
pub record Context : Type 0 where
  pub op_req : SaOpReq
  pub op_id : ℕ
  pub oid : Text

-- An empty operation on the object
abbrev pub op_on : Context → OpCode → OpRequestOps
op_on ctx code = record (blank_op ctx.oid no_id false) { op_sub_type = code }

-- The copy of a request has none of its operations, and gets the one that is sent.
abbrev pub request_of : Context → OpRequestOps → SaOpReq
request_of ctx op = record (ctx.op_req) { vec_ops = op ∷ [] }

abbrev copied_id : RbdObjid → RbdObjid
copied_id id = record id { reserve = 0 }

abbrev copied : Option RbdObjid → Option RbdObjid
copied none = none
copied (some id) = some (copied_id id)

-- An operation on the same object as that of the request. An index out of range is undefined in
-- the source.
abbrev pub same_object : Context → OpCode → Option OpRequestOps → OpRequestOps
same_object ctx code none = op_on ctx code
same_object ctx code (some o) = record (blank_op o.obj_name no_id false) {
  op_sub_type = code;
  is_rbd = o.is_rbd;
  rbd_obj_id = copied o.rbd_obj_id;
}

abbrev pub op_like : Context → OpCode → OpRequestOps
op_like ctx code = same_object ctx code (get_elem? ctx.op_req.vec_ops ctx.op_id)

abbrev pub first_out : List Slot → Text
first_out [] = []
first_out (s ∷ ss) = s.outdata

-- A number of bytes as the result of a call
abbrev pub length_code : Text → ℤ
length_code s = to_int32 (pos (length s))

module _ (cache : Cache) where
  abbrev pub World : Type 0
  World = List Slot × cache.State

  -- The code of a call, what it has written to its out-parameters, and the world afterwards
  abbrev pub Answer : Type 0 → Type 0
  Answer A = ℤ × Option A × World

  abbrev pub answered :
      {A : Type 0} → (ℤ → Text → ℤ × Option A) → List Slot → ℤ × List Slot × cache.State → Answer A
  answered decode ops (r, swapped, st) =
      if is_neg r
      then (r, none, (ops, st))
      else ((decode r (first_out swapped)).0, (decode r (first_out swapped)).1, (ops, st))

  -- A call that reads: the answer stands in the swapped operation, and is decoded on success.
  unfoldable pub ask :
      {A : Type 0} → Context → OpRequestOps → (ℤ → Text → ℤ × Option A) → World → Answer A
  ask ctx op decode (ops, st) =
      answered decode ops (cache.exec (request_of ctx op) (blank_slot ∷ []) st)

  -- A call that writes
  unfoldable pub tell : Context → OpRequestOps → World → ℤ × World
  tell ctx op (ops, st) =
      let (r, ops', st') = cache.exec (request_of ctx op) ops st in (r, (ops', st'))

  -- The whole answer, with its length as the code
  abbrev pub all_bytes : ℤ → Text → ℤ × Option Text
  all_bytes r out = (length_code out, some out)

  unfoldable pub cls_getxattr : Context → Text → World → Answer Text
  unfolding ask
  cls_getxattr ctx name =
      ask ctx (record (op_on ctx get_xattr) { keys = name ∷ [] }) (λ r out. (r, some out))

  -- string(value, val_len)
  unfoldable pub cls_setxattr : Context → Text → Text → World → ℤ × World
  unfolding tell
  cls_setxattr ctx name value =
      tell ctx (record (op_on ctx set_xattr) { keys = name ∷ []; values = value ∷ [] })

  -- `exclusive` is not passed on.
  unfoldable pub cls_cxx_create : Context → Bool → World → ℤ × World
  unfolding tell
  cls_cxx_create ctx exclusive = tell ctx (op_on ctx create)

  unfoldable pub cls_cxx_remove : Context → World → ℤ × World
  unfolding tell
  cls_cxx_remove ctx = tell ctx (op_on ctx delete)

  unfoldable pub cls_cxx_write2 : Context → ℤ → ℤ → Text → World → ℤ × World
  unfolding tell
  cls_cxx_write2 ctx ofs len inbl = tell ctx (record (op_like ctx write) {
    obj_offset = of_int32 ofs;
    obj_length = of_int32 len;
    in_data = some inbl;
    in_data_len = u32 (length inbl);
  })

  unfoldable pub cls_cxx_write : Context → ℤ → ℤ → Text → World → ℤ × World
  unfolding cls_cxx_write2
  cls_cxx_write ctx ofs len inbl = cls_cxx_write2 ctx ofs len inbl

  unfoldable pub cls_cxx_write_full : Context → Text → World → ℤ × World
  unfolding tell
  cls_cxx_write_full ctx inbl = tell ctx (record (op_on ctx write_full) {
    obj_length = u32 (length inbl);
    in_data = some inbl;
    in_data_len = u32 (length inbl);
  })

  -- A length that is no length of a buffer is refused, before the cache is asked.
  abbrev pub bad_length : ℤ → Bool
  bad_length (pos zero) = true
  bad_length (pos n) = leb 2147483645 n
  bad_length _ = true

  unfoldable pub cls_cxx_read2 : Context → ℤ → ℤ → World → Answer Text
  unfolding ask
  cls_cxx_read2 ctx ofs len w =
      if bad_length len
      then (neg einval, none, w)
      else ask ctx
          (record (op_on ctx sync_read) {
            obj_offset = of_int32 ofs;
            obj_length = of_int32 len;
            out_data_len = of_int32 len;
          })
          all_bytes w

  unfoldable pub cls_cxx_read : Context → ℤ → ℤ → World → Answer Text
  unfolding cls_cxx_read2
  cls_cxx_read ctx ofs len w = cls_cxx_read2 ctx ofs len w

  unfoldable pub cls_cxx_getxattr : Context → Text → World → Answer Text
  unfolding ask
  cls_cxx_getxattr ctx name = ask ctx (record (op_on ctx get_xattr) { keys = name ∷ [] }) all_bytes

  unfoldable pub cls_cxx_setxattr : Context → Text → Text → World → ℤ × World
  unfolding tell
  cls_cxx_setxattr ctx name inbl =
      tell ctx (record (op_on ctx set_xattr) { keys = name ∷ []; values = inbl ∷ [] })

  -- A decoder that throws gives -EIO.
  abbrev pub or_eio : {A : Type 0} → (A → ℤ) → Option (A × Text) → ℤ × Option A
  or_eio code none = (neg eio, none)
  or_eio code (some (a, rest)) = (code a, some a)

  unfoldable pub cls_cxx_getxattrs : Codec → Context → World → Answer (Dict Text Text)
  unfolding ask
  cls_cxx_getxattrs codec ctx =
      ask ctx (op_on ctx get_xattrs) (λ r out. or_eio (λ m. ok_code) (codec.decode_map out))

  -- A size, and a time of which only the seconds are kept by cls_cxx_stat.
  abbrev pub timed : ℕ → Option ((ℕ × ℕ) × Text) → Option ((ℕ × ℕ × ℕ) × Text)
  timed size none = none
  timed size (some ((sec, nsec), rest)) = some ((size, sec, nsec), rest)

  abbrev pub sized : Wire → Option (ℕ × Text) → Option ((ℕ × ℕ × ℕ) × Text)
  sized wire none = none
  sized wire (some (size, rest)) = timed size (wire.decode_utime rest)

  abbrev pub decode_stat : Codec → Wire → Text → Option ((ℕ × ℕ × ℕ) × Text)
  decode_stat codec wire out = sized wire (codec.decode_u64 out)

  abbrev pub without_nsec : ℤ × Option (ℕ × ℕ × ℕ) → ℤ × Option (ℕ × ℕ)
  without_nsec (r, none) = (r, none)
  without_nsec (r, some (size, sec, nsec)) = (r, some (size, sec))

  unfoldable pub cls_cxx_stat : Codec → Wire → Context → World → Answer (ℕ × ℕ)
  unfolding ask
  cls_cxx_stat codec wire ctx =
      ask ctx (op_on ctx stat)
        (λ r out. without_nsec (or_eio (λ a. ok_code) (decode_stat codec wire out)))

  -- The object is that of the operation of the request, and the time is kept whole.
  unfoldable pub cls_cxx_stat2 : Codec → Wire → Context → World → Answer (ℕ × ℕ × ℕ)
  unfolding ask
  cls_cxx_stat2 codec wire ctx =
      ask ctx (op_like ctx stat) (λ r out. or_eio (λ a. ok_code) (decode_stat codec wire out))
