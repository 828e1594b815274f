-- ===== src/Cls/Omap.antt =====
-- src/server_adaptor/class_api.cc: the calls on the object's map of keys and values.
use ceph_global_cache_adapto.Msg.Types.{
  OpRequestOps, omap_get_vals, omap_set_vals, omap_get_keys, omap_rm_keys, omap_clear,
  omap_get_vals_by_keys, omap_set_header, omap_get_header, Codec,
}
use ceph_global_cache_adapto.Prelude.{
  ℕ, Bool, Option, none, some, List, [], ◌∷◌, ℤ, length, map, pos, neg, eio, enoent, ok_code,
}
use ceph_global_cache_adapto.Prelude.Dict.{Dict}
use ceph_global_cache_adapto.Prelude.Text.{Text, to_int32, codes, to_string}
use ceph_global_cache_adapto.Prelude.Word.{u32}
use ceph_global_cache_adapto.Cls.Types.{Wire}
use ceph_global_cache_adapto.Cls.Api.{Cache, Context, op_on, World, Answer, ask, tell, or_eio}

-- The largest number of entries, for a call that asks for all
abbrev pub no_limit : ℕ
no_limit = 18446744073709551615

abbrev pub count_code {ℓ} : {A : Type ℓ} → List A → ℤ
count_code xs = to_int32 (pos (length xs))

-- A container, and whether there is more
abbrev pub flagged : {A : Type 0} → A → Option (Bool × Text) → Option ((A × Bool) × Text)
flagged a none = none
flagged a (some (more, rest)) = some ((a, more), rest)

abbrev pub with_more : {A : Type 0} → Wire → Option (A × Text) → Option ((A × Bool) × Text)
with_more wire none = none
with_more wire (some (a, rest)) = flagged a (wire.decode_bool rest)

-- The value under the first key; the code's decoding throws, or the map is empty.
abbrev pub first_value : Option (Dict Text Text × Text) → ℤ × Option Text
first_value none = (neg eio, none)
first_value (some ([], rest)) = (neg enoent, none)
first_value (some ((k, v) ∷ m, rest)) = (ok_code, some v)

abbrev pub keys_of : Dict Text Text → List Text
keys_of m = map (λ e. e.0) m

abbrev pub values_in : Dict Text Text → List Text
values_in m = map (λ e. e.1) m

-- The operations that the calls send
module _ (ctx : Context) where
  abbrev pub get_vals_op : Text → Text → ℕ → OpRequestOps
  get_vals_op start_obj filter_prefix max_to_get = record (op_on ctx omap_get_vals) {
    keys = codes "start_after" ∷ codes "max_return" ∷ codes "filter_prefix" ∷ [];
    values = start_obj ∷ to_string max_to_get ∷ filter_prefix ∷ [];
  }

  abbrev pub get_keys_op : Text → ℕ → OpRequestOps
  get_keys_op start_obj max_to_get = record (op_on ctx omap_get_keys) {
    keys = codes "start_after" ∷ codes "max_return" ∷ [];
    values = start_obj ∷ to_string max_to_get ∷ [];
  }

  abbrev pub get_val_op : Text → OpRequestOps
  get_val_op key = record (op_on ctx omap_get_vals_by_keys) { keys = key ∷ [] }

  abbrev pub set_val_op : Text → Text → OpRequestOps
  set_val_op key val = record (op_on ctx omap_set_vals) { keys = key ∷ []; values = val ∷ [] }

  abbrev pub remove_key_op : Text → OpRequestOps
  remove_key_op key = record (op_on ctx omap_rm_keys) { keys = key ∷ [] }

module _ (cache : Cache) (codec : Codec) (wire : Wire) (ctx : Context) where
  unfoldable pub cls_cxx_map_get_vals :
      Text → Text → ℕ → World cache → Answer cache (Dict Text Text × Bool)
  unfolding ask
  cls_cxx_map_get_vals start_obj filter_prefix max_to_get =
      ask cache ctx (get_vals_op ctx start_obj filter_prefix max_to_get)
        (λ r out. or_eio cache (λ a. count_code a.0) (with_more wire (codec.decode_map out)))

  unfoldable pub cls_cxx_map_get_all_vals : World cache → Answer cache (Dict Text Text × Bool)
  unfolding ask
  cls_cxx_map_get_all_vals =
      ask cache ctx (get_vals_op ctx [] [] no_limit)
        (λ r out. or_eio cache (λ a. count_code a.0) (with_more wire (codec.decode_map out)))

  unfoldable pub cls_cxx_map_get_keys : Text → ℕ → World cache → Answer cache (List Text × Bool)
  unfolding ask
  cls_cxx_map_get_keys start_obj max_to_get =
      ask cache ctx (get_keys_op ctx start_obj max_to_get)
        (λ r out. or_eio cache (λ a. count_code a.0) (with_more wire (codec.decode_set out)))

  unfoldable pub cls_cxx_map_read_header : World cache → Answer cache Text
  unfolding ask
  cls_cxx_map_read_header = ask cache ctx (op_on ctx omap_get_header) (λ r out. (ok_code, some out))

  unfoldable pub cls_cxx_map_get_val : Text → World cache → Answer cache Text
  unfolding ask
  cls_cxx_map_get_val key =
      ask cache ctx (get_val_op ctx key) (λ r out. first_value (codec.decode_map out))

  unfoldable pub cls_cxx_map_set_val : Text → Text → World cache → ℤ × World cache
  unfolding tell
  cls_cxx_map_set_val key inbl = tell cache ctx (set_val_op ctx key inbl)

  unfoldable pub cls_cxx_map_set_vals : Dict Text Text → World cache → ℤ × World cache
  unfolding tell
  cls_cxx_map_set_vals m =
      tell cache ctx (record (op_on ctx omap_set_vals) { keys = keys_of m; values = values_in m })

  unfoldable pub cls_cxx_map_clear : World cache → ℤ × World cache
  unfolding tell
  cls_cxx_map_clear = tell cache ctx (op_on ctx omap_clear)

  unfoldable pub cls_cxx_map_write_header : Text → World cache → ℤ × World cache
  unfolding tell
  cls_cxx_map_write_header inbl =
      tell cache ctx (record (op_on ctx omap_set_header) {
        in_data = some inbl;
        in_data_len = u32 (length inbl);
      })

  unfoldable pub cls_cxx_map_remove_key : Text → World cache → ℤ × World cache
  unfolding tell
  cls_cxx_map_remove_key key = tell cache ctx (remove_key_op ctx key)

abbrev pub cls_current_version : Context → ℕ
cls_current_version ctx = 0

abbrev pub cls_current_subop_num : Context → ℕ
cls_current_subop_num ctx = ctx.op_id
