-- ===== src/Cls/CopyUp.antt =====
-- The copy-up in OSA_ExecClass of src/server_adaptor/osa.cpp, and the flag that holds back the
-- requests behind it.
use ceph_global_cache_adapto.Cls.Exec.{
  cleared, copy_up_unless, ExecWorld, Plugins, returned, Invocation, Header, header_of_call,
  is_prefetch, is_copyup, exec_class, run_copyup,
}
use ceph_global_cache_adapto.Prelude.{
  ℕ, ◌≡◌, refl, true, false, Option, some, ℤ, pos, is_zero, ok_code, if◌then◌else◌, length, arith,
  Option-cases, Bool-cases, inl, inr, ◌∙◌, sym,
}
use ceph_global_cache_adapto.Prelude.Text.{Text, codes, text_eq, text_eq_iff, to_int32}
use ceph_global_cache_adapto.Msg.Types.{OsdOp, Codec}
use ceph_global_cache_adapto.Msg.Convert.{is_copy_up}
use ceph_global_cache_adapto.Loader.Types.{Env}
use ceph_global_cache_adapto.Cls.Types.{Wire}
use ceph_global_cache_adapto.Cls.Api.{Cache, Context, World, cls_cxx_stat2, cls_cxx_write}

-- A copy-up is no prefetch.
not_prefetch : (h : Header) → is_copyup h ≡ true → is_prefetch h ≡ false
unfolding is_copyup is_prefetch text_eq
not_prefetch h e =
    let c : text_eq h.cname (codes "rbd") ≡ true = ground (arith, e) in
    let n : h.cname ≡ codes "rbd" = (text_eq_iff h.cname (codes "rbd")).0 c in rw n refl

-- The conversion marks a call as a copy-up by the same two names as its execution.
is_copy_up-is_copyup :
    (codec : Codec) (op : OsdOp) (h : Header)
    → header_of_call codec op ≡ some h
    → is_copy_up codec op ≡ is_copyup h
unfolding header_of_call is_copy_up is_copyup
is_copy_up-is_copyup codec op h e = elim (Option-cases (codec.copy op.class_len op.indata)) [
  | inl f ↦ absurd (ground (arith, e, f))
  | inr (a, f) ↦ elim (Option-cases (codec.copy op.method_len a.1)) [
    | inl g ↦ absurd (ground (arith, e, f, g))
    | inr (b, g) ↦ elim (Option-cases (codec.copy op.indata_len b.1)) [
      | inl k ↦ absurd (ground (arith, e, f, g, k))
      | inr (c, k) ↦ ground (arith, e, f, g, k)
    ]
  ]
]

module _ (cache : Cache) (plugins : Plugins cache) (codec : Codec) (wire : Wire) (env : Env)
    (fuel : ℕ) (ctx : Context) (op : OsdOp) (w : ExecWorld cache) where
  abbrev pub here : Option Invocation
  here = some (record { context = ctx; clientop = some op })

  -- The copy-up, for an answer of cls_cxx_stat2
  copy_up_unless_lem :
      (indata : Text) (s : ℤ × Option (ℕ × ℕ × ℕ) × World cache)
      → (r : ℤ) × (w' : ExecWorld cache) × (copy_up_unless cache plugins ctx indata w s
          ≡ returned r w')
        × (w'.copyup_flag ≡ false)
        × ((r, w'.world) ≡ (
            if is_zero s.0
            then (pos 0, s.2)
            else cls_cxx_write cache ctx (pos 0) (to_int32 (pos (length indata))) indata s.2))
  copy_up_unless_lem indata (r, found, w1) = elim (Bool-cases (is_zero r)) [
    | inl z ↦ rw z (ok_code, cleared cache plugins w w1, refl, refl, refl)
    | inr z ↦
        let (a, b) = cls_cxx_write cache ctx (pos 0) (to_int32 (pos (length indata))) indata w1 in
        rw z (a, cleared cache plugins w b, refl, refl, refl)
  ]

  -- A call that the conversion marks as a copy-up, and whose buffer has all that its header names,
  -- returns and clears the flag: an object that is there is left alone, and the call succeeds; any
  -- other is written once with the input, from offset 0, and the code is that of the write.
  pub copyup_exact :
      (h : Header)
      → header_of_call codec op ≡ some h
      → is_copy_up codec op ≡ true
      → (r : ℤ) × (w' : ExecWorld cache) × (exec_class cache plugins codec wire env fuel here w
          ≡ returned r w')
        × (w'.copyup_flag ≡ false)
        × ((r, w'.world) ≡ (
            if is_zero (cls_cxx_stat2 cache codec wire ctx w.world).0
            then (pos 0, (cls_cxx_stat2 cache codec wire ctx w.world).2)
            else cls_cxx_write cache ctx
                (pos 0)
                (to_int32 (pos (length h.indata)))
                h.indata
                (cls_cxx_stat2 cache codec wire ctx w.world).2))
  unfolding exec_class run_copyup
  copyup_exact h e m =
      let c : is_copyup h ≡ true = sym (is_copy_up-is_copyup codec op h e) ∙ m in
      let n = not_prefetch h c in
      let (r, w', a, b, d) =
        copy_up_unless_lem h.indata (cls_cxx_stat2 cache codec wire ctx w.world) in
      (r, w', ground (arith, e, n, c, a), b, d)
