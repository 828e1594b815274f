-- ===== src/Cls/Answers.antt =====
-- What the calls of src/server_adaptor/class_api.cc return when the cache answers through the
-- functions of src/server_adaptor/network_module.cpp.
use ceph_global_cache_adapto.Cls.Api.{
  decode_stat, without_nsec, or_eio, first_out, Cache, Context, ask, request_of, cls_cxx_stat,
  op_on,
}
use ceph_global_cache_adapto.Cls.RoundTrip.{
  Apart-empty, Short, ShortKeys, pairs_of, texts_of, decode_map-encode_map, decode_set-keys,
  read_pairs-written,
}
use ceph_global_cache_adapto.Cls.Omap.{
  with_more, cls_cxx_map_get_vals, cls_cxx_map_get_keys, get_vals_op, get_keys_op, count_code,
}
use ceph_global_cache_adapto.Msg.Types.{OpRequestOps, Codec, stat}
use ceph_global_cache_adapto.Prelude.{
  ℕ, zero, suc, ◌+◌, ◌<◌, ◌≡◌, ◌%◌, ◌/◌, refl, Bool, true, false, Option, none, some, List, [], ◌∷◌,
  ◌++◌, arith, length, append_assoc, append-nil, ap, ◌∙◌, sym, ℤ, pos, neg, eio, ok_code,
  length-append,
}
use ceph_global_cache_adapto.Prelude.Word.{u32_mod, u64_mod}
use ceph_global_cache_adapto.Prelude.Dict.{Dict}
use ceph_global_cache_adapto.Prelude.Text.{Text, text_key}
use ceph_global_cache_adapto.Cls.Ordered.{IsOrdered, has}
use ceph_global_cache_adapto.Cls.Types.{
  Wire, Documented, pairs_written, SaStr, bytes_of, SaBatchKeys, SaBatchKv, Slot, blank_slot,
  counted, read_pairs,
}
use ceph_global_cache_adapto.Cls.Encode.{
  keys_written, kvs_written, written_unless_empty, encode_omap_getvals, encode_omap_getkeys,
  encode_get_opstat,
}

-- A buffer that is neither null nor empty
abbrev pub is_present : SaStr → Bool
is_present s = elim s.buf [ none ↦ false | some b ↦ elim s.len [ zero ↦ false | suc n ↦ true ] ]

abbrev pub AllPresent : SaBatchKv → Type 0
AllPresent [] = Unit
AllPresent ((k, v) ∷ kvs) = (is_present k ≡ true) × (is_present v ≡ true) × AllPresent kvs

length-pairs_of : (kvs : SaBatchKv) → length (pairs_of kvs) ≡ length kvs
length-pairs_of [] = refl
length-pairs_of ((k, v) ∷ kvs) = ap suc (length-pairs_of kvs)

module _ (wire : Wire) where
  present_written :
      (s : SaStr)
      → is_present s ≡ true
      → written_unless_empty wire s ≡ wire.encode_string (bytes_of s)
  present_written s h = ground (arith, h)

  absent_written : (s : SaStr) → is_present s ≡ false → written_unless_empty wire s ≡ []
  absent_written s h = ground (arith, h)

  kvs_written-present :
      (kvs : SaBatchKv) → AllPresent kvs → kvs_written wire kvs ≡ pairs_written wire (pairs_of kvs)
  unfolding kvs_written
  kvs_written-present [] p = refl
  kvs_written-present ((k, v) ∷ kvs) (a, b, p) =
      ground (arith, present_written k a, present_written v b, kvs_written-present kvs p)

  kvs_written-append :
      (front kvs : SaBatchKv) (rest : Text)
      → kvs_written wire (front ++ kvs) ++ rest
        ≡ kvs_written wire front ++ (kvs_written wire kvs ++ rest)
  unfolding kvs_written
  kvs_written-append [] kvs rest = refl
  kvs_written-append ((k, v) ∷ front) kvs rest =
      let a = written_unless_empty wire k in
      let b = written_unless_empty wire v in simp (append_assoc, kvs_written-append front kvs rest)

-- An answer with success is decoded, and the message is as it was.
pub ask-answered :
    (cache : Cache) {A : Type 0} (ctx : Context) (op : OpRequestOps)
    (decode : ℤ → Text → ℤ × Option A) (ops out : List Slot) (st st' : cache.State)
    → cache.exec (request_of ctx op) (blank_slot ∷ []) st ≡ (pos 0, out, st')
    → ask cache ctx op decode (ops, st)
      ≡ ((decode (pos 0) (first_out out)).0, (decode (pos 0) (first_out out)).1, (ops, st'))
unfolding ask
ask-answered cache ctx op decode ops out st st' h = rw (h, ask) refl

some_eq : (a b : List Slot) → some a ≡ some b → a ≡ b
some_eq a b h = cc

module _ (codec : Codec) (wire : Wire) (doc : Documented codec wire) (cache : Cache) (ctx : Context)
    (ops : List Slot) (st st' : cache.State) (out : List Slot) where
  -- cls_cxx_map_get_vals returns exactly the pairs that EncodeOmapGetvals was given, in order,
  -- with their number, and leaves the message as it was: no key or value is empty, the keys go up,
  -- and numbers and lengths have 32 bits. The cache has answered with success.
  pub get_vals_round_trip :
      (start prefix : Text) (limit : ℕ) (kvs : SaBatchKv)
      → AllPresent kvs
      → IsOrdered (pairs_of kvs)
      → Short (pairs_of kvs)
      → length kvs < u32_mod
      → encode_omap_getvals wire (some kvs) 0 (some (blank_slot ∷ [])) ≡ some out
      → cache.exec (request_of ctx (get_vals_op ctx start prefix limit)) (blank_slot ∷ []) st
        ≡ (pos 0, out, st')
      → cls_cxx_map_get_vals cache codec wire ctx start prefix limit (ops, st)
        ≡ (count_code kvs, some (pairs_of kvs, false), (ops, st'))
  unfolding cls_cxx_map_get_vals ask encode_omap_getvals
  get_vals_round_trip start prefix limit kvs p o s l e x =
      let bytes : first_out out
          ≡ wire.encode_u32 (length kvs) ++ (kvs_written wire kvs ++ wire.encode_bool false) =
        ap first_out (sym (some_eq _ out e)) in
      let pairs : codec.decode_map (first_out out) ≡ some (pairs_of kvs, wire.encode_bool false) =
        ap codec.decode_map
          (bytes ∙ rw (kvs_written-present wire kvs p, sym (length-pairs_of kvs)) refl)
        ∙ decode_map-encode_map codec wire doc (pairs_of kvs) (wire.encode_bool false)
            (rw (length-pairs_of kvs) l) o s in
      let decode : ℤ → Text → ℤ × Option (Dict Text Text × Bool) =
        λ r o. or_eio cache (λ a. count_code a.0) (with_more wire (codec.decode_map o)) in
      ask-answered cache ctx (get_vals_op ctx start prefix limit) decode ops out st st' x
      ∙ ground (arith, pairs, doc.bool_end false, length-pairs_of kvs)

  -- cls_cxx_map_get_vals fails with -EIO although the cache has succeeded, when the value of the
  -- last pair is empty: EncodeOmapGetvals leaves the value out, and counts the pair. The other
  -- keys and values are not empty, the keys go up, and numbers and lengths have 32 bits.
  pub get_vals_empty_value :
      (start prefix : Text) (limit : ℕ) (front : SaBatchKv) (k v : SaStr)
      → AllPresent front
      → is_present k ≡ true
      → is_present v ≡ false
      → IsOrdered (pairs_of front)
      → Short (pairs_of front)
      → length (bytes_of k) < u32_mod
      → length front + 1 < u32_mod
      → encode_omap_getvals wire (some (front ++ ((k, v) ∷ []))) 0 (some (blank_slot ∷ []))
        ≡ some out
      → cache.exec (request_of ctx (get_vals_op ctx start prefix limit)) (blank_slot ∷ []) st
        ≡ (pos 0, out, st')
      → cls_cxx_map_get_vals cache codec wire ctx start prefix limit (ops, st)
        ≡ (neg eio, none, (ops, st'))
  unfolding cls_cxx_map_get_vals encode_omap_getvals kvs_written read_pairs
  get_vals_empty_value start prefix limit front k v p hk hv o s lk l e x =
      let false_end = wire.encode_bool false in
      let last = wire.encode_string (bytes_of k) ++ false_end in
      let bytes : first_out out
          ≡ wire.encode_u32 (length (front ++ ((k, v) ∷ [])))
            ++ (kvs_written wire (front ++ ((k, v) ∷ [])) ++ false_end) =
        ap first_out (sym (some_eq _ out e)) in
      let one : kvs_written wire ((k, v) ∷ []) ++ false_end ≡ last =
        rw (present_written wire k hk, absent_written wire v hv) (rw append-nil refl) in
      let tail : kvs_written wire (front ++ ((k, v) ∷ [])) ++ false_end
          ≡ pairs_written wire (pairs_of front) ++ last =
        kvs_written-append wire front ((k, v) ∷ []) false_end
        ∙ rw (kvs_written-present wire front p, one) refl in
      let n : length (front ++ ((k, v) ∷ [])) ≡ length (pairs_of front) + 1 =
        omega (arith, length-append front ((k, v) ∷ []), length-pairs_of front) in
      let unread : read_pairs codec.decode_string 1 (pairs_of front) last ≡ none =
        ground (arith, doc.string_read (bytes_of k) false_end lk, doc.bool_short false) in
      let pairs : codec.decode_map (first_out out) ≡ none =
        ap codec.decode_map (bytes ∙ rw (tail, n) refl)
        ∙ doc.map_layout _
        ∙ ap (counted (λ m. read_pairs codec.decode_string m [])) (
            doc.u32_read (length (pairs_of front) + 1) (pairs_written wire (pairs_of front) ++ last)
              (omega (arith, length-pairs_of front)))
        ∙ read_pairs-written codec wire doc 1 [] (pairs_of front) last
            (Apart-empty (pairs_of front)) o s
        ∙ unread in
      let decode : ℤ → Text → ℤ × Option (Dict Text Text × Bool) =
        λ r o. or_eio cache (λ a. count_code a.0) (with_more wire (codec.decode_map o)) in
      ask-answered cache ctx (get_vals_op ctx start prefix limit) decode ops out st st' x
      ∙ ground (arith, pairs)

  -- cls_cxx_map_get_keys returns the set of the keys that EncodeOmapGetkeys was given, empty ones
  -- included, and leaves the message as it was. Numbers and lengths have 32 bits, and the cache
  -- has answered with success.
  pub get_keys_round_trip :
      (start : Text) (limit : ℕ) (keys : SaBatchKeys)
      → ShortKeys keys
      → length keys < u32_mod
      → encode_omap_getkeys wire (some keys) 0 (some (blank_slot ∷ [])) ≡ some out
      → cache.exec (request_of ctx (get_keys_op ctx start limit)) (blank_slot ∷ []) st
        ≡ (pos 0, out, st')
      → (read : List Text) × (cls_cxx_map_get_keys cache codec wire ctx start limit (ops, st)
          ≡ (count_code read, some (read, false), (ops, st')))
        × ((a : Text) → has a read ≡ has a (texts_of keys))
  unfolding cls_cxx_map_get_keys encode_omap_getkeys
  get_keys_round_trip start limit keys s l e x =
      let bytes : first_out out
          ≡ wire.encode_u32 (length keys) ++ (keys_written wire keys ++ wire.encode_bool false) =
        ap first_out (sym (some_eq _ out e)) in
      let (read, r, same) = decode_set-keys codec wire doc keys (wire.encode_bool false) l s in
      let set_read : codec.decode_set (first_out out) ≡ some (read, wire.encode_bool false) =
        ap codec.decode_set bytes ∙ r in
      let decode : ℤ → Text → ℤ × Option (List Text × Bool) =
        λ r o. or_eio cache (λ a. count_code a.0) (with_more wire (codec.decode_set o)) in
      (
        read,
        ask-answered cache ctx (get_keys_op ctx start limit) decode ops out st st' x
            ∙ ground (arith, set_read, doc.bool_end false),
        same,
      )

  -- cls_cxx_stat returns the size that EncodeGetOpstat was given, and the time modulo 2^32. The
  -- size has 64 bits, and the cache has answered with success.
  pub stat_round_trip :
      (size time : ℕ)
      → size < u64_mod
      → encode_get_opstat wire size time 0 (some (blank_slot ∷ [])) ≡ some out
      → cache.exec (request_of ctx (op_on ctx stat)) (blank_slot ∷ []) st ≡ (pos 0, out, st')
      → cls_cxx_stat cache codec wire ctx (ops, st)
        ≡ (ok_code, some (size, time % u32_mod), (ops, st'))
  unfolding cls_cxx_stat encode_get_opstat
  stat_round_trip size time l e x =
      let bytes : first_out out ≡ wire.encode_u64 size ++ wire.encode_u64 time =
        ap first_out (sym (some_eq _ out e)) in
      let size_read : codec.decode_u64 (first_out out) ≡ some (size, wire.encode_u64 time) =
        ap codec.decode_u64 bytes ∙ doc.u64_read size (wire.encode_u64 time) l in
      let low = wire.encode_u32 (time % u32_mod) in
      let high = wire.encode_u32 (time / u32_mod % u32_mod) in
      let time_read : wire.decode_utime (wire.encode_u64 time)
          ≡ some ((time % u32_mod, time / u32_mod % u32_mod), []) =
        ap wire.decode_utime (doc.u64_layout time)
        ∙ doc.utime_layout (low ++ high)
        ∙ ground (
          arith,
          doc.u32_read (time % u32_mod) high,
          doc.u32_read (time / u32_mod % u32_mod) [],
          append-nil high,
        ) in
      let decode : ℤ → Text → ℤ × Option (ℕ × ℕ) =
        λ r o. without_nsec cache (or_eio cache (λ a. ok_code) (decode_stat cache codec wire o)) in
      ask-answered cache ctx (op_on ctx stat) decode ops out st st' x
      ∙ ground (arith, size_read, time_read)
