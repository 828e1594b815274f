-- ===== src/Examples/Encoding.antt =====
-- Ceph's encoding of numbers, texts, sets and maps, as far as src/server_adaptor uses it, at work.
use ceph_global_cache_adapto.Prelude.{
  ℕ, zero, suc, ◌+◌, ◌*◌, ◌/◌, ◌%◌, ◌<◌, ◌≡◌, refl, Bool, true, false, Option, none, some, [], ◌∷◌,
  ◌++◌, length, arith, append_assoc, List, ◌∙◌, ap,
}
use ceph_global_cache_adapto.Prelude.Word.{u32_mod, u64_mod}
use ceph_global_cache_adapto.Prelude.Text.{Text}
use ceph_global_cache_adapto.Msg.Types.{Codec}
use ceph_global_cache_adapto.Cls.Types.{
  Wire, Documented, pairs_written, read_keys, read_pairs, counted, two_words,
}
use ceph_global_cache_adapto.Examples.Wire.{split, read_u32}

abbrev bytes_u32 : ℕ → Text
bytes_u32 n = n % 256 ∷ n / 256 % 256 ∷ n / 65536 % 256 ∷ n / 16777216 ∷ []

abbrev joined : Option ((ℕ × ℕ) × Text) → Option (ℕ × Text)
joined none = none
joined (some ((lo, hi), s)) = some (lo + u32_mod * hi, s)

unfoldable pub read_u64 : Text → Option (ℕ × Text)
unfolding read_u32
read_u64 s = joined (two_words read_u32 (read_u32 s))

unfoldable pub read_string : Text → Option (Text × Text)
unfolding split read_u32
read_string s = counted split (read_u32 s)

unfoldable pub bytes_u64 : ℕ → Text
bytes_u64 n = bytes_u32 (n % u32_mod) ++ bytes_u32 (n / u32_mod % u32_mod)

unfoldable pub bytes_string : Text → Text
bytes_string s = bytes_u32 (length s) ++ s

abbrev read_bool : Text → Option (Bool × Text)
read_bool [] = none
read_bool (zero ∷ s) = some (false, s)
read_bool (suc n ∷ s) = some (true, s)

abbrev byte_of : Bool → Text
byte_of true = 1 ∷ []
byte_of false = 0 ∷ []

abbrev pub ceph_codec : Codec
ceph_codec = record {
  copy = split;
  decode_u32 = read_u32;
  decode_u64 = read_u64;
  decode_string = read_string;
  decode_set = λ s. counted (λ n. read_keys read_string n []) (read_u32 s);
  decode_map = λ s. counted (λ n. read_pairs read_string n []) (read_u32 s);
  decode_assertions = λ s. none;
}

abbrev pub written : List (Text × Text) → Text
written [] = []
written ((k, v) ∷ m) = bytes_string k ++ (bytes_string v ++ written m)

abbrev pub ceph_wire : Wire
ceph_wire = record {
  encode_u32 = bytes_u32;
  encode_u64 = bytes_u64;
  encode_bool = byte_of;
  encode_string = bytes_string;
  encode_map = λ m. bytes_u32 (length m) ++ written m;
  encode_extents = λ m. bytes_u32 (length m);
  encode_snaps = λ r. bytes_u32 (length r.clones);
  decode_bool = read_bool;
  decode_utime = λ s. two_words read_u32 (read_u32 s);
}

split-append : (s rest : Text) → split (length s) (s ++ rest) ≡ some (s, rest)
unfolding split
split-append [] rest = refl
split-append (c ∷ s) rest = rw (split-append s rest) refl

read_u32-bytes :
    (n : ℕ) (rest : Text) → n < u32_mod → read_u32 (bytes_u32 n ++ rest) ≡ some (n, rest)
unfolding read_u32
read_u32-bytes n rest h = ground arith

read_string-bytes :
    (s rest : Text) → length s < u32_mod → read_string (bytes_string s ++ rest) ≡ some (s, rest)
unfolding read_string bytes_string
read_string-bytes s rest h =
    ap read_string (append_assoc (bytes_u32 (length s)) s rest)
    ∙ ap (counted split) (read_u32-bytes (length s) (s ++ rest) h)
    ∙ split-append s rest

read_u64-bytes :
    (n : ℕ) (rest : Text) → n < u64_mod → read_u64 (bytes_u64 n ++ rest) ≡ some (n, rest)
unfolding read_u64 bytes_u64
read_u64-bytes n rest h = ground (
  arith,
  read_u32-bytes (n % u32_mod) (bytes_u32 (n / u32_mod % u32_mod) ++ rest),
  read_u32-bytes (n / u32_mod % u32_mod) rest,
)

written_lem : (m : List (Text × Text)) → written m ≡ pairs_written ceph_wire m
written_lem [] = refl
written_lem ((k, v) ∷ m) = ap (λ x. bytes_string k ++ (bytes_string v ++ x)) (written_lem m)

bool_end_lem : (b : Bool) → read_bool (byte_of b) ≡ some (b, [])
bool_end_lem true = refl
bool_end_lem false = refl

bool_short_lem : (b : Bool) → read_string (byte_of b) ≡ none
unfolding read_string read_u32
bool_short_lem true = refl
bool_short_lem false = refl

pub ceph-Documented : Documented ceph_codec ceph_wire
ceph-Documented = record {
  u32_read = read_u32-bytes;
  u64_read = read_u64-bytes;
  bool_end = bool_end_lem;
  bool_short = bool_short_lem;
  string_read = read_string-bytes;
  u64_layout = λ n. unfold bytes_u64 in refl;
  utime_layout = λ s. refl;
  set_layout = λ s. refl;
  map_layout = λ s. refl;
  map_written = λ m. ap (λ x. bytes_u32 (length m) ++ x) (written_lem m);
}
