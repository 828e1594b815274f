-- ===== src/Monitor/Units.antt =====
-- src/ceph_proxy/RadosMonitor.cc, lines 28-59: sizes with units.
use ceph_global_cache_adapto.Prelude.{
  ℕ, ◌*◌, Option, none, some, [], ◌∷◌, if◌then◌else◌, ◌||◌, is_empty,
}
use ceph_global_cache_adapto.Prelude.Word.{u64}
use ceph_global_cache_adapto.Prelude.Text.{
  Text, codes, text_eq, is_digit, is_space, is_word, prefix_of, suffix_of, atoi, of_int32,
}

abbrev pub kib_num : ℕ
kib_num = 1024

abbrev pub mib_num : ℕ
mib_num = 1048576

abbrev pub gib_num : ℕ
gib_num = 1073741824

abbrev pub tib_num : ℕ
tib_num = 1099511627776

abbrev pub pib_num : ℕ
pib_num = 1125899906842624

-- TransStrUnitToNum
unfoldable pub trans_str_unit_to_num : Text → ℕ
unfolding text_eq
trans_str_unit_to_num s =
    if text_eq (codes "PiB") s
    then pib_num
    else if text_eq (codes "TiB") s
    then tib_num
    else if text_eq (codes "GiB") s || text_eq (codes "G") s
    then gib_num
    else if text_eq (codes "MiB") s || text_eq (codes "M") s
    then mib_num
    else if text_eq (codes "KiB") s || text_eq (codes "K") s
    then kib_num
    else 1

-- What follows the digits in the pattern (\d+)\s?(\w+)?: the unit, if all of it is matched.
unfoldable pub unit_of : Text → Option Text
unfolding suffix_of
unit_of [] = some []
unit_of (c ∷ cs) =
    let word = if is_space c then cs else c ∷ cs in
    if is_empty (suffix_of is_word word) then some word else none

-- TransStrToNum: `none` where the text does not match and the number is left alone. The digits
-- pass through `atoi` and a uint32_t.
unfoldable pub trans_str_to_num : Text → Option ℕ
unfolding unit_of prefix_of suffix_of atoi trans_str_unit_to_num
trans_str_to_num s = elim (unit_of (suffix_of is_digit s)) [
  | none ↦ none
  | some unit ↦
      if is_empty (prefix_of is_digit s)
      then none
      else some (u64 (of_int32 (atoi (prefix_of is_digit s)) * trans_str_unit_to_num unit))
]
