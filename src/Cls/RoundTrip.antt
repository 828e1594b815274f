-- ===== src/Cls/RoundTrip.antt =====
-- What src/server_adaptor/network_module.cpp encodes is what the decoding in
-- src/server_adaptor/class_api.cc reads.
use ceph_global_cache_adapto.Cls.Types.{
  counted, Wire, Documented, pairs_written, read_pairs, read_keys, bytes_of, SaBatchKeys, SaBatchKv,
}
use ceph_global_cache_adapto.Prelude.{
  ℕ, suc, ◌+◌, ◌<◌, ◌≡◌, refl, some, List, [], ◌∷◌, ◌++◌, ◌||◌, arith, length, append_assoc,
  append-nil, ap, ◌∙◌,
}
use ceph_global_cache_adapto.Prelude.Word.{u32_mod}
use ceph_global_cache_adapto.Prelude.Dict.{Dict}
use ceph_global_cache_adapto.Prelude.Text.{Text, text_key}
use ceph_global_cache_adapto.Msg.Types.{Codec}
use ceph_global_cache_adapto.Cls.Ordered.{
  put, IsOrdered, Apart, Apart-append, put_at_end, set_add, has, has-set_add,
}
use ceph_global_cache_adapto.Cls.Encode.{keys_written}

-- Every text is short enough to be encoded with its length.
abbrev pub Short : Dict Text Text → Type 0
Short [] = Unit
Short ((k, v) ∷ m) = (length k < u32_mod) × (length v < u32_mod) × Short m

abbrev pub ShortKeys : SaBatchKeys → Type 0
ShortKeys [] = Unit
ShortKeys (k ∷ ks) = (length (bytes_of k) < u32_mod) × ShortKeys ks

-- The pairs of a batch
abbrev pub pairs_of : SaBatchKv → Dict Text Text
pairs_of [] = []
pairs_of ((k, v) ∷ kvs) = (bytes_of k, bytes_of v) ∷ pairs_of kvs

abbrev pub texts_of : SaBatchKeys → List Text
texts_of [] = []
texts_of (k ∷ ks) = bytes_of k ∷ texts_of ks

pub Apart-empty : (m : Dict Text Text) → Apart [] m
Apart-empty [] = tt
Apart-empty ((k, v) ∷ m) = (tt, Apart-empty m)

module _ (codec : Codec) (wire : Wire) (doc : Documented codec wire) where
  read_pairs_step :
      (n : ℕ) (acc : Dict Text Text) (k v rest : Text)
      → length k < u32_mod
      → length v < u32_mod
      → read_pairs codec.decode_string
          (suc n)
          acc
          (wire.encode_string k ++ (wire.encode_string v ++ rest))
        ≡ read_pairs codec.decode_string n (put k v acc) rest
  unfolding read_pairs
  read_pairs_step n acc k v rest a b =
      ground (arith, doc.string_read k (wire.encode_string v ++ rest) a, doc.string_read v rest b)

  -- Reading the pairs of an ordered map whose keys are above those read so far appends it.
  pub read_pairs-written :
      (n : ℕ) (acc m : Dict Text Text) (rest : Text)
      → Apart acc m
      → IsOrdered m
      → Short m
      → read_pairs codec.decode_string (length m + n) acc (pairs_written wire m ++ rest)
        ≡ read_pairs codec.decode_string n (acc ++ m) rest
  unfolding read_pairs
  read_pairs-written n acc [] rest p o s =
      let e : 0 + n ≡ n = omega arith in rw (e, append-nil acc) refl
  read_pairs-written n acc ((k, v) ∷ m) rest (b, p) (a, o) (lk, lv, s) =
      let e : suc (length m) + n ≡ suc (length m + n) = omega arith in
      let w = pairs_written wire m in
      let bytes : (wire.encode_string k ++ (wire.encode_string v ++ w)) ++ rest
          ≡ wire.encode_string k ++ (wire.encode_string v ++ (w ++ rest)) =
        append_assoc (wire.encode_string k) (wire.encode_string v ++ w) rest
        ∙ ap (◌++◌ (wire.encode_string k)) (append_assoc (wire.encode_string v) w rest) in
      rw (e, bytes)
        (read_pairs_step (length m + n) acc k v (w ++ rest) lk lv
          ∙ rw (put_at_end k v acc b) (
              read_pairs-written n (acc ++ ((k, v) ∷ [])) m rest (Apart-append k v acc m p a) o s
              ∙ rw (append_assoc acc ((k, v) ∷ []) m) refl))

  -- An ordered map of fewer than 2^32 short texts is decoded as it was encoded.
  pub decode_map-encode_map :
      (m : Dict Text Text) (rest : Text)
      → length m < u32_mod
      → IsOrdered m
      → Short m
      → codec.decode_map (wire.encode_u32 (length m) ++ (pairs_written wire m ++ rest))
        ≡ some (m, rest)
  unfolding read_pairs
  decode_map-encode_map m rest l o s =
      let e : length m ≡ length m + 0 = omega arith in
      doc.map_layout _
      ∙ ap (counted (λ n. read_pairs codec.decode_string n []))
          (doc.u32_read (length m) (pairs_written wire m ++ rest) l)
      ∙ ap (λ n. read_pairs codec.decode_string n [] (pairs_written wire m ++ rest)) e
      ∙ read_pairs-written 0 [] m rest (Apart-empty m) o s

  add_all : List Text → List Text → List Text
  add_all acc [] = acc
  add_all acc (k ∷ ks) = add_all (set_add k acc) ks

  has-add_all : (x : Text) (acc ks : List Text) → has x (add_all acc ks) ≡ (has x acc || has x ks)
  unfolding add_all has
  has-add_all x acc [] = ground arith
  has-add_all x acc (k ∷ ks) = ground (arith, has-add_all x (set_add k acc) ks, has-set_add k x acc)

  read_keys-written :
      (acc : List Text) (ks : SaBatchKeys) (rest : Text)
      → ShortKeys ks
      → read_keys codec.decode_string (length ks) acc (keys_written wire ks ++ rest)
        ≡ some (add_all acc (texts_of ks), rest)
  unfolding read_keys keys_written add_all
  read_keys-written acc [] rest s = refl
  read_keys-written acc (k ∷ ks) rest (l, s) =
      rw (append_assoc (wire.encode_string (bytes_of k)) (keys_written wire ks) rest) (
        ground (
          arith,
          doc.string_read (bytes_of k) (keys_written wire ks ++ rest) l,
          read_keys-written (set_add (bytes_of k) acc) ks rest s,
        ))

  -- Fewer than 2^32 keys are decoded as the set of them.
  pub decode_set-keys :
      (ks : SaBatchKeys) (rest : Text)
      → length ks < u32_mod
      → ShortKeys ks
      → (read : List Text) × (codec.decode_set
            (wire.encode_u32 (length ks) ++ (keys_written wire ks ++ rest))
          ≡ some (read, rest))
        × ((x : Text) → has x read ≡ has x (texts_of ks))
  unfolding has
  decode_set-keys ks rest l s = (
    add_all [] (texts_of ks),
    doc.set_layout _
        ∙ ap (counted (λ n. read_keys codec.decode_string n []))
            (doc.u32_read (length ks) (keys_written wire ks ++ rest) l)
        ∙ read_keys-written [] ks rest s,
    λ x. has-add_all x [] (texts_of ks),
  )
