-- ===== src/Examples/Wire.antt =====
-- A reader of Ceph's encoding that does what Ceph documents of the operations on a buffer, and
-- the buffers of src/server_adaptor/msg_module.cpp at concrete bytes.
use ceph_global_cache_adapto.Prelude.{
  ℕ, zero, suc, ◌+◌, ◌*◌, ◌≡◌, refl, Option, none, some, [], ◌∷◌, ◌++◌, length, arith, inl, inr,
  Option-cases,
}
use ceph_global_cache_adapto.Prelude.Text.{Text}
use ceph_global_cache_adapto.Msg.Types.{Codec}
use ceph_global_cache_adapto.Msg.Convert.{skip_pairs, decode_str_str_map_to_bl, skip_string}
use ceph_global_cache_adapto.Msg.Decode.{Documented, decode_exact}

abbrev pub pushed : ℕ → Option (Text × Text) → Option (Text × Text)
pushed x none = none
pushed x (some (out, rest)) = some (x ∷ out, rest)

unfoldable pub split : ℕ → Text → Option (Text × Text)
split zero s = some ([], s)
split (suc n) [] = none
split (suc n) (x ∷ xs) = pushed x (split n xs)

unfoldable pub read_u32 : Text → Option (ℕ × Text)
read_u32 (a ∷ b ∷ c ∷ d ∷ rest) = some (a + 256 * b + 65536 * c + 16777216 * d, rest)
read_u32 _ = none

abbrev pub plain_codec : Codec
plain_codec = record {
  copy = split;
  decode_u32 = read_u32;
  decode_u64 = λ s. none;
  decode_string = λ s. none;
  decode_set = λ s. none;
  decode_map = λ s. none;
  decode_assertions = λ s. none;
}

split_lem :
    (n : ℕ) (s out rest : Text)
    → split n s ≡ some (out, rest)
    → (out ++ rest ≡ s) × (length out ≡ n)
unfolding split
split_lem zero s out rest h = ground arith
split_lem (suc n) [] out rest h = ground arith
split_lem (suc n) (x ∷ xs) out rest h = elim (Option-cases (split n xs)) [
  | inl e ↦ absurd (ground (arith, e))
  | inr (a, e) ↦ ground (arith, h, e, split_lem n xs a.0 a.1)
]

read_u32_lem :
    (s rest : Text) (n : ℕ)
    → read_u32 s ≡ some (n, rest)
    → (bytes : Text) × (bytes ++ rest ≡ s) × (length bytes ≡ 4)
unfolding read_u32
read_u32_lem (a ∷ b ∷ c ∷ d ∷ rs) rest n h = (a ∷ b ∷ c ∷ d ∷ [], ground arith, refl)
read_u32_lem [] rest n h = absurd (ground arith)
read_u32_lem (a ∷ []) rest n h = absurd (ground arith)
read_u32_lem (a ∷ b ∷ []) rest n h = absurd (ground arith)
read_u32_lem (a ∷ b ∷ c ∷ []) rest n h = absurd (ground arith)

plain_codec-Documented : Documented plain_codec
plain_codec-Documented = record { copy_splits = split_lem; u32_splits = read_u32_lem }

-- One pair, "a" and "b", and a byte that follows the map
abbrev one_pair : Text
one_pair = 1 ∷ 0 ∷ 0 ∷ 0 ∷ 1 ∷ 0 ∷ 0 ∷ 0 ∷ 97 ∷ 1 ∷ 0 ∷ 0 ∷ 0 ∷ 98 ∷ []

one_pair_cut : decode_str_str_map_to_bl plain_codec (one_pair ++ (7 ∷ [])) ≡ some one_pair
unfolding decode_str_str_map_to_bl skip_pairs skip_string split read_u32
one_pair_cut = refl

decode_exact_example :
    (n len : ℕ) × (p rest : Text) × (plain_codec.decode_u32 (one_pair ++ (7 ∷ [])) ≡ some (n, p))
    × (skip_pairs plain_codec n 4 p ≡ some (len, rest))
    × (one_pair ++ rest ≡ one_pair ++ (7 ∷ []))
decode_exact_example =
    decode_exact plain_codec plain_codec-Documented (one_pair ++ (7 ∷ [])) one_pair (omega arith)
      one_pair_cut
