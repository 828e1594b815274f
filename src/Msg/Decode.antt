-- ===== src/Msg/Decode.antt =====
-- decode_str_str_map_to_bl of src/server_adaptor/msg_module.cpp cuts out the encoded map.
use ceph_global_cache_adapto.Prelude.{
  ℕ, zero, suc, ◌+◌, ◌<◌, ◌≡◌, refl, some, [], ◌∷◌, ◌++◌, arith, ap, sym, ◌∙◌, length,
  length-append, append_assoc, Option-cases, inl, inr,
}
use ceph_global_cache_adapto.Prelude.Word.{u32, u32_mod}
use ceph_global_cache_adapto.Prelude.Text.{Text}
use ceph_global_cache_adapto.Msg.Types.{Codec}
use ceph_global_cache_adapto.Msg.Convert.{skip_string, skip_pairs, decode_str_str_map_to_bl}

-- What Ceph documents of the two operations: copying takes as many bytes as it is asked for, and
-- a 32-bit number stands in four bytes.
pub record Documented (codec : Codec) : Type 0 where
  pub copy_splits :
      (n : ℕ) (s out rest : Text)
      → codec.copy n s ≡ some (out, rest)
      → (out ++ rest ≡ s) × (length out ≡ n)
  pub u32_splits :
      (s rest : Text) (n : ℕ)
      → codec.decode_u32 s ≡ some (n, rest)
      → (bytes : Text) × (bytes ++ rest ≡ s) × (length bytes ≡ 4)

append_cancel :
    (xs ys zs ws : Text) → length xs ≡ length ys → xs ++ zs ≡ ys ++ ws → (xs ≡ ys) × (zs ≡ ws)
append_cancel [] [] zs ws h e = (refl, e)
append_cancel [] (y ∷ ys) zs ws h e = absurd (omega arith)
append_cancel (x ∷ xs) [] zs ws h e = absurd (omega arith)
append_cancel (x ∷ xs) (y ∷ ys) zs ws h e =
    let (a, b) = append_cancel xs ys zs ws (omega arith) (cc) in (cc, b)

-- Between two places in the buffer, `len` goes up by the bytes between them, mod 2^32.
record Skipped (len : ℕ) (p : Text) (len' : ℕ) (p' : Text) : Type 0 where
  bytes : Text
  splits : bytes ++ p' ≡ p
  counts : u32 len' ≡ u32 (len + length bytes)

Skipped-refl : (len : ℕ) (p : Text) → Skipped len p len p
Skipped-refl len p = record { bytes = []; splits = refl; counts = omega arith }

Skipped-trans : (a b c : ℕ) (p q r : Text) → Skipped a p b q → Skipped b q c r → Skipped a p c r
Skipped-trans a b c p q r s t = record {
  bytes = s.bytes ++ t.bytes;
  splits = append_assoc s.bytes t.bytes r ∙ ap (◌++◌ s.bytes) t.splits ∙ s.splits;
  counts = omega (arith, s.counts, t.counts, length-append s.bytes t.bytes);
}

module _ (codec : Codec) (doc : Documented codec) where
  skip_string-Skipped :
      (len len' : ℕ) (p p' : Text)
      → skip_string codec len p ≡ some (len', p')
      → Skipped len p len' p'
  unfolding skip_string
  skip_string-Skipped len len' p p' h = elim (Option-cases (codec.decode_u32 p)) [
    | inl e ↦ absurd (ground (arith, e))
    | inr (a, e) ↦ elim (Option-cases (codec.copy a.0 a.1)) [
      | inl f ↦ absurd (ground (arith, e, f))
      | inr (b, f) ↦
          let (four, s4, l4) = doc.u32_splits p a.1 a.0 e in
          let (s, l) = doc.copy_splits a.0 a.1 b.0 b.1 f in
          let at_end : b.1 ≡ p' = ground (arith, e, f) in
          record {
            bytes = four ++ b.0;
            splits =
                append_assoc four b.0 p'
                ∙ ap (λ x. four ++ (b.0 ++ x)) (sym at_end)
                ∙ ap (◌++◌ four) s
                ∙ s4;
            counts = ground (arith, e, f, l4, l, length-append four b.0);
          }
    ]
  ]

  skip_pairs-Skipped :
      (n len len' : ℕ) (p p' : Text)
      → skip_pairs codec n len p ≡ some (len', p')
      → Skipped len p len' p'
  unfolding skip_pairs
  skip_pairs-Skipped zero len len' p p' h =
      let a : len ≡ len' = ground arith in
      let b : p ≡ p' = ground arith in rw (← a, ← b) (Skipped-refl len p)
  skip_pairs-Skipped (suc n) len len' p p' h = elim (Option-cases (skip_string codec len p)) [
    | inl e ↦ absurd (ground (arith, e))
    | inr (a, e) ↦ elim (Option-cases (skip_string codec a.0 a.1)) [
      | inl f ↦ absurd (ground (arith, e, f))
      | inr (b, f) ↦ Skipped-trans len a.0 len' p a.1 p' (skip_string-Skipped len a.0 p a.1 e) (
          Skipped-trans a.0 b.0 len' a.1 b.1 p' (skip_string-Skipped a.0 b.0 a.1 b.1 f)
            (skip_pairs-Skipped n b.0 len' b.1 p' (ground (arith, e, f))))
    ]
  ]

  -- decode_str_str_map_to_bl returns exactly the bytes that its loop passes over: the count, and
  -- for as many pairs two lengths with their strings. What is left of the buffer follows them.
  -- The buffer has fewer than 2^32 bytes, and Ceph's operations do what they document.
  pub decode_exact :
      (start out : Text)
      → length start < u32_mod
      → decode_str_str_map_to_bl codec start ≡ some out
      → (n len : ℕ) × (p rest : Text) × (codec.decode_u32 start ≡ some (n, p))
        × (skip_pairs codec n 4 p ≡ some (len, rest))
        × (out ++ rest ≡ start)
  unfolding decode_str_str_map_to_bl
  decode_exact start out h e = elim (Option-cases (codec.decode_u32 start)) [
    | inl f ↦ absurd (ground (arith, f))
    | inr (a, f) ↦ elim (Option-cases (skip_pairs codec a.0 4 a.1)) [
      | inl g ↦ absurd (ground (arith, f, g))
      | inr (b, g) ↦ elim (Option-cases (codec.copy b.0 start)) [
        | inl k ↦ absurd (ground (arith, f, g, k))
        | inr (c, k) ↦
            let (four, s4, l4) = doc.u32_splits start a.1 a.0 f in
            let sk = skip_pairs-Skipped a.0 4 b.0 a.1 b.1 g in
            let (s, l) = doc.copy_splits b.0 start c.0 c.1 k in
            let whole : (four ++ sk.bytes) ++ b.1 ≡ start =
              append_assoc four sk.bytes b.1 ∙ ap (◌++◌ four) sk.splits ∙ s4 in
            let size : length c.0 ≡ length (four ++ sk.bytes) = omega (
              arith,
              l,
              l4,
              sk.counts,
              length-append four sk.bytes,
              length-append (four ++ sk.bytes) b.1,
              ap length whole,
              length-append c.0 c.1,
              ap length s,
            ) in
            let (x, y) = append_cancel c.0 (four ++ sk.bytes) c.1 b.1 size (s ∙ sym whole) in
            (
              a.0,
              b.0,
              a.1,
              b.1,
              ground (arith, f),
              ground (arith, g),
              ground (arith, f, g, k, x, whole),
            )
      ]
    ]
  ]
