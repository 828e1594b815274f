-- ===== src/Cls/Types.antt =====
-- The reply of a request, the buffers of src/dependency/include/sa_def.h, and Ceph's encoding.
use ceph_global_cache_adapto.Prelude.{
  ℕ, zero, suc, ◌/◌, ◌%◌, ◌<◌, ◌≡◌, Bool, Option, none, some, List, [], ◌∷◌, ◌++◌, ℤ, pos, length,
}
use ceph_global_cache_adapto.Prelude.Word.{u32_mod, u64_mod}
use ceph_global_cache_adapto.Prelude.Dict.{Dict}
use ceph_global_cache_adapto.Prelude.Text.{Text, text_key}
use ceph_global_cache_adapto.Cls.Ordered.{put, set_add}
use ceph_global_cache_adapto.Msg.Types.{Codec}

-- What is written of one OSDOp of a MOSDOp; `extent_length` only by the execution of a method.
pub record Slot : Type 0 where
  pub outdata : Text
  pub rval : ℤ
  pub extent_length : Option ℕ

abbrev pub blank_slot : Slot
blank_slot = record { outdata = []; rval = pos 0; extent_length = none }

-- SaStr: a null pointer is `none`.
pub record SaStr : Type 0 where
  pub len : ℕ
  pub buf : Option Text

abbrev pub take : ℕ → Text → Text
take zero s = []
take (suc n) [] = []
take (suc n) (c ∷ s) = c ∷ take n s

-- string_view(buf, len)
abbrev pub view_of : ℕ → Option Text → Text
view_of n none = []
view_of n (some s) = take n s

abbrev pub bytes_of : SaStr → Text
bytes_of s = view_of s.len s.buf

-- SaBatchKeys and SaBatchKv: arrays with as many entries as their count says
abbrev pub SaBatchKeys : Type 0
SaBatchKeys = List SaStr

abbrev pub SaBatchKv : Type 0
SaBatchKv = List (SaStr × SaStr)

-- CloneInfo and ObjSnaps
pub record CloneInfo : Type 0 where
  pub cloneid : ℕ
  pub snaps : List ℕ
  pub overlaps : List (ℕ × ℕ)
  pub obj_size : ℕ

abbrev pub ObjSnaps : Type 0
ObjSnaps = List CloneInfo

-- obj_list_snap_response_t of Ceph
pub record SnapResponse : Type 0 where
  pub seq : ℕ
  pub clones : List CloneInfo

-- Ceph's encoding, and two decoders beside those of `Codec`
pub record Wire : Type 0 where
  pub encode_u32 : ℕ → Text
  pub encode_u64 : ℕ → Text
  pub encode_bool : Bool → Text
  pub encode_string : Text → Text
  pub encode_map : Dict Text Text → Text
  pub encode_extents : Dict ℕ ℕ → Text
  pub encode_snaps : SnapResponse → Text
  pub decode_bool : Text → Option (Bool × Text)
  pub decode_utime : Text → Option ((ℕ × ℕ) × Text)

-- n strings into a set, and n pairs of strings into a map, one after another
module _ (decode_string : Text → Option (Text × Text)) where
  unfoldable pub read_keys : ℕ → List Text → Text → Option (List Text × Text)
  read_keys zero acc s = some (acc, s)
  read_keys (suc n) acc s = elim (decode_string s) [
    | none ↦ none
    | some (k, s') ↦ read_keys n (set_add k acc) s'
  ]

  unfoldable pub read_pairs : ℕ → Dict Text Text → Text → Option (Dict Text Text × Text)
  read_pairs zero acc s = some (acc, s)
  read_pairs (suc n) acc s = elim (decode_string s) [
    | none ↦ none
    | some (k, s1) ↦ elim (decode_string s1) [
      | none ↦ none
      | some (v, s2) ↦ read_pairs n (put k v acc) s2
    ]
  ]

abbrev pub counted {ℓ} : {A : Type ℓ} → (ℕ → Text → Option A) → Option (ℕ × Text) → Option A
counted f none = none
counted f (some (n, s)) = f n s

abbrev pub second : ℕ → Option (ℕ × Text) → Option ((ℕ × ℕ) × Text)
second a none = none
second a (some (b, s)) = some ((a, b), s)

abbrev pub two_words : (Text → Option (ℕ × Text)) → Option (ℕ × Text) → Option ((ℕ × ℕ) × Text)
two_words decode_u32 none = none
two_words decode_u32 (some (a, s)) = second a (decode_u32 s)

abbrev pub pairs_written : Wire → Dict Text Text → Text
pairs_written wire [] = []
pairs_written wire ((k, v) ∷ m) =
    wire.encode_string k ++ (wire.encode_string v ++ pairs_written wire m)

-- What Ceph documents of its encoding: what is encoded is decoded; a 64-bit number is two 32-bit
-- numbers, the low one first; a Boolean is one byte, too short for a string; a time is two 32-bit
-- numbers; a set or a map is its size and then its keys or its pairs.
pub record Documented (codec : Codec) (wire : Wire) : Type 0 where
  pub u32_read :
      (n : ℕ) (rest : Text)
      → n < u32_mod
      → codec.decode_u32 (wire.encode_u32 n ++ rest) ≡ some (n, rest)
  pub u64_read :
      (n : ℕ) (rest : Text)
      → n < u64_mod
      → codec.decode_u64 (wire.encode_u64 n ++ rest) ≡ some (n, rest)
  pub bool_end : (b : Bool) → wire.decode_bool (wire.encode_bool b) ≡ some (b, [])
  pub bool_short : (b : Bool) → codec.decode_string (wire.encode_bool b) ≡ none
  pub string_read :
      (s rest : Text)
      → length s < u32_mod
      → codec.decode_string (wire.encode_string s ++ rest) ≡ some (s, rest)
  pub u64_layout :
      (n : ℕ)
      → wire.encode_u64 n ≡ wire.encode_u32 (n % u32_mod) ++ wire.encode_u32 (n / u32_mod % u32_mod)
  pub utime_layout :
      (s : Text) → wire.decode_utime s ≡ two_words codec.decode_u32 (codec.decode_u32 s)
  pub set_layout :
      (s : Text)
      → codec.decode_set s ≡ counted (λ n. read_keys codec.decode_string n []) (codec.decode_u32 s)
  pub map_layout :
      (s : Text)
      → codec.decode_map s ≡ counted (λ n. read_pairs codec.decode_string n []) (codec.decode_u32 s)
  pub map_written :
      (m : Dict Text Text) → wire.encode_map m ≡ wire.encode_u32 (length m) ++ pairs_written wire m
