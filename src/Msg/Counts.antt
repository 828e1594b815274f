-- ===== src/Msg/Counts.antt =====
-- How the conversion of a request classifies it: src/server_adaptor/msg_module.cpp and
-- ProcessOpReq of src/server_adaptor/network_module.cpp.
use ceph_global_cache_adapto.Prelude.{
  ℕ, ◌+◌, ◌/◌, ◌≤◌, ◌<◌, ◌≡◌, refl, Bool, true, false, some, List, [], ◌∷◌, ltb, if◌then◌else◌,
  length, length-append, arith, Option-cases, inl, inr,
}
use ceph_global_cache_adapto.Prelude.Word.{u32, u32_mod, u64, u64_mod, add64}
use ceph_global_cache_adapto.Prelude.Text.{Text}
use ceph_global_cache_adapto.Msg.Types.{
  OpCode, sparse_read, sync_read, read, OsdOp, OptionsType, OptionsLength, OpRequestOps, Codec,
}
use ceph_global_cache_adapto.Msg.Convert.{Converted, convert_by, convert_clientop_to_opreq}
use ceph_global_cache_adapto.Msg.Process.{
  Mosdop, SaOpReq, NameKind, plain_name, bad_name, rbd_name, name_kind, one_op_of, converted,
  Progress, Looped, looped, loop_overflowed, loop_threw, process_ops, process_op_req, process_kind,
  is_write, contain_write_op, header_of, add_op, no_progress, gcache_write, gcache_read,
  finish_request,
}

abbrev pub is_read : OpCode → Bool
is_read sparse_read = true
is_read sync_read = true
is_read read = true
is_read _ = false

-- What converting one operation adds to the numbers and to the lengths
record Adds (codec : Codec) (c : OsdOp) (t : OptionsType) (l : OptionsLength) (d : Converted codec)
    : Type 0 where
  writes : d.option_type.write ≡ (if is_write c.op then u32 (t.write + 1) else t.write)
  write_kib :
      d.option_length.write
      ≡ (if is_write c.op then add64 l.write (c.extent_length / 1024) else l.write)
  read_kib :
      d.option_length.read
      ≡ (if is_read c.op then add64 l.read (c.extent_length / 1024) else l.read)

module _ (codec : Codec) where
  convert_by-Adds :
      (op : OpCode) (c : OsdOp) (o : OpRequestOps) (t : OptionsType) (l : OptionsLength)
      (d : Converted codec)
      → c.op ≡ op
      → convert_by codec op c o t l ≡ some d
      → Adds codec c t l d
  unfolding convert_by
  convert_by-Adds sparse_read c o t l d e h = ground arith
  convert_by-Adds _ c o t l d e h = ground arith

  convert-Adds :
      (c : OsdOp) (o : OpRequestOps) (t : OptionsType) (l : OptionsLength) (d : Converted codec)
      → convert_clientop_to_opreq codec c o t l ≡ some d
      → Adds codec c t l d
  unfolding convert_clientop_to_opreq
  convert-Adds c o t l d h = convert_by-Adds c.op c _ t l d refl h

-- The number of writes of a request, and the lengths of its writes and reads in units of 1024.
abbrev pub writes_of : List OsdOp → ℕ
writes_of [] = 0
writes_of (c ∷ cs) = (if is_write c.op then 1 else 0) + writes_of cs

abbrev pub write_kib_of : List OsdOp → ℕ
write_kib_of [] = 0
write_kib_of (c ∷ cs) = (if is_write c.op then c.extent_length / 1024 else 0) + write_kib_of cs

abbrev pub read_kib_of : List OsdOp → ℕ
read_kib_of [] = 0
read_kib_of (c ∷ cs) = (if is_read c.op then c.extent_length / 1024 else 0) + read_kib_of cs

writes_of-le-length : (cs : List OsdOp) → writes_of cs ≤ length cs
writes_of-le-length [] = omega arith
writes_of-le-length (c ∷ cs) = ground (arith, writes_of-le-length cs)

contain_write_op_lem : (cs : List OsdOp) → contain_write_op cs ≡ ltb 0 (writes_of cs)
unfolding contain_write_op
contain_write_op_lem [] = ground arith
contain_write_op_lem (c ∷ cs) = ground (arith, contain_write_op_lem cs)

record Sums (cs : List OsdOp) (p q : Progress) : Type 0 where
  writes : u32 q.option_type.write ≡ u32 (p.option_type.write + writes_of cs)
  write_kib : u64 q.option_length.write ≡ u64 (p.option_length.write + write_kib_of cs)
  read_kib : u64 q.option_length.read ≡ u64 (p.option_length.read + read_kib_of cs)
  ops : length q.vec_ops ≡ length p.vec_ops + length cs

-- The numbers fit their words.
record Fits (p : Progress) : Type 0 where
  writes : p.option_type.write < u32_mod
  write_kib : p.option_length.write < u64_mod
  read_kib : p.option_length.read < u64_mod

module _ (codec : Codec) where
  add_op-Sums :
      (c : OsdOp) (cs : List OsdOp) (p q : Progress) (d : Converted codec)
      → Adds codec c p.option_type p.option_length d
      → Sums cs (add_op codec p d) q
      → Sums (c ∷ cs) p q
  add_op-Sums c cs p q d a s = record {
    writes = ground (arith, a.writes, s.writes);
    write_kib = ground (arith, a.write_kib, s.write_kib);
    read_kib = ground (arith, a.read_kib, s.read_kib);
    ops = ground (arith, s.ops, length-append p.vec_ops (d.one_op ∷ []));
  }

  add_op-Fits :
      (c : OsdOp) (p : Progress) (d : Converted codec)
      → Adds codec c p.option_type p.option_length d
      → Fits p
      → Fits (add_op codec p d)
  add_op-Fits c p d a f = record {
    writes = ground (arith, a.writes, f.writes);
    write_kib = ground (arith, a.write_kib, f.write_kib);
    read_kib = ground (arith, a.read_kib, f.read_kib);
  }

  process_ops-Sums :
      (name : Text) (kind : NameKind) (cs : List OsdOp) (p q : Progress)
      → Fits p
      → process_ops codec name kind cs p ≡ looped q
      → Sums cs p q × Fits q
  unfolding process_ops
  process_ops-Sums name kind [] p q f h =
      let e : p ≡ q = ground arith in
      (
        rw (← e) (record {
          writes = omega arith;
          write_kib = omega arith;
          read_kib = omega arith;
          ops = omega arith;
        }),
        rw (← e) f,
      )
  process_ops-Sums name kind (c ∷ cs) p q f h = elim (Option-cases (one_op_of name kind)) [
    | inl e ↦ absurd (ground (arith, e))
    | inr (o, e) ↦
        elim (Option-cases (convert_clientop_to_opreq codec c o p.option_type p.option_length)) [
          | inl e' ↦ absurd (ground (arith, e, e'))
          | inr (d, e') ↦
              let a = convert-Adds codec c o p.option_type p.option_length d e' in
              let (s, f') =
                process_ops-Sums name kind cs (add_op codec p d) q (add_op-Fits c p d a f)
                  (rw (e, e', process_ops) at h) in
              (add_op-Sums c cs p q d a s, f')
        ]
  ]

  finish-classifies :
      (m : Mosdop) (kind : NameKind) (r : SaOpReq) (l : Looped)
      → length m.ops < u32_mod
      → process_ops codec m.oid kind m.ops (no_progress codec) ≡ l
      → finish_request codec (header_of m) l ≡ converted r
      → (r.option_type ≡ (if contain_write_op m.ops then gcache_write else gcache_read))
        × (r.option_length
            ≡ u64 (if contain_write_op m.ops then write_kib_of m.ops else read_kib_of m.ops))
        × (length r.vec_ops ≡ length m.ops)
  finish-classifies m kind r (looped q) h run e =
      let start : Fits (no_progress codec) = record {
        writes = omega arith;
        write_kib = omega arith;
        read_kib = omega arith;
      } in
      let (s, f) = process_ops-Sums m.oid kind m.ops (no_progress codec) q start run in
      let fewer = writes_of-le-length m.ops in
      let writes : q.option_type.write ≡ writes_of m.ops = omega (arith, s.writes, f.writes) in
      let has = contain_write_op_lem m.ops in
      (
        ground (arith, writes, has),
        ground (arith, writes, has, s.write_kib, s.read_kib, f.write_kib, f.read_kib),
        ground (arith, s.ops),
      )
  finish-classifies m kind r loop_overflowed h run e = cc
  finish-classifies m kind r loop_threw h run e = cc

  kind-classifies :
      (m : Mosdop) (kind : NameKind) (r : SaOpReq)
      → length m.ops < u32_mod
      → process_kind codec m kind ≡ converted r
      → (r.option_type ≡ (if contain_write_op m.ops then gcache_write else gcache_read))
        × (r.option_length
            ≡ u64 (if contain_write_op m.ops then write_kib_of m.ops else read_kib_of m.ops))
        × (length r.vec_ops ≡ length m.ops)
  kind-classifies m plain_name r h e = finish-classifies m plain_name r _ h refl e
  kind-classifies m bad_name r h e = cc
  kind-classifies m (rbd_name ss) r h e = finish-classifies m (rbd_name ss) r _ h refl e

  -- A request that ProcessOpReq converts is marked as a write exactly if ContainWriteOp says that
  -- it has a write, and as a read otherwise. Its length is the sum of the lengths of its writes,
  -- or of its reads, each divided by 1024, mod 2^64; and it has an operation for each of the
  -- client's. The client sent fewer than 2^32.
  pub process_classifies :
      (m : Mosdop) (r : SaOpReq)
      → length m.ops < u32_mod
      → process_op_req codec m ≡ converted r
      → (r.option_type ≡ (if contain_write_op m.ops then gcache_write else gcache_read))
        × (r.option_length
            ≡ u64 (if contain_write_op m.ops then write_kib_of m.ops else read_kib_of m.ops))
        × (length r.vec_ops ≡ length m.ops)
  unfolding process_op_req
  process_classifies m r h e = kind-classifies m (name_kind m.oid) r h e
