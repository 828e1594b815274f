-- ===== src/Monitor/Profile.antt =====
-- src/ceph_proxy/RadosMonitor.cc, lines 124-387: what one line of the cluster's report says about
-- a pool, and the questions to the monitors that go with it. The answers of librados are the
-- parameter `Cluster`. Where the code throws an exception, the result is `none`.
use ceph_global_cache_adapto.Prelude.{
  ℕ, Bool, true, false, Option, none, some, List, [], ◌∷◌, ◌==◌, if◌then◌else◌, ◌&&◌, not, is_empty,
  ℤ, neg, ok_code, error_code, is_zero, is_neg, eacces, int_beq,
}
use ceph_global_cache_adapto.Prelude.Word.{u32}
use ceph_global_cache_adapto.Prelude.Text.{
  Text, codes, text_eq, is_space, is_word, prefix_of, suffix_of, tokens, atoi, of_int32,
}
use ceph_global_cache_adapto.Monitor.Units.{trans_str_to_num}

-- Answers of mon_command (its code and its output), by the question; the statistics of a pool
-- (its code, its objects and their copies), `none` if there is no context for the pool; and the
-- groups of std::regex_match for a line of the report, from the first, `none` for no match.
pub record Cluster : Type 0 where
  pub df : ℤ × Text
  pub ec_of_pool : Text → ℤ × Text
  pub ec_profile : Text → ℤ × Text
  pub default_stripe_unit : ℤ × Text
  pub pool_stat : ℕ → Option (ℤ × ℕ × ℕ)
  pub match_line : Text → Option (List Text)

abbrev pub newline : ℕ
newline = 10

-- erasure_code_profile:\s(\S+)\n?  The text after the literal and one space must be a run of
-- bytes that are no space, and at most one newline.
unfoldable pub after_literal : Text → Text → Option Text
after_literal [] s = some s
after_literal (c ∷ cs) [] = none
after_literal (c ∷ cs) (d ∷ ds) = let rest = after_literal cs ds in if c == d then rest else none

abbrev pub profile_end : Text → Bool
profile_end [] = true
profile_end (c ∷ []) = c == newline
profile_end (c ∷ d ∷ ds) = false

abbrev pub profile_name : Option Text → Option Text
profile_name none = none
profile_name (some []) = none
profile_name (some (c ∷ cs)) =
    if is_space c
      && (not (is_empty (prefix_of (λ x. not (is_space x)) cs))
          && profile_end (suffix_of (λ x. not (is_space x)) cs))
    then some (prefix_of (λ x. not (is_space x)) cs)
    else none

-- IsECPool: the code, the profile if the code set it, and whether it is an EC pool.
unfoldable pub is_ec_pool : ℤ × Text → ℤ × Option Text × Bool
unfolding after_literal prefix_of suffix_of
is_ec_pool (ret, out) =
    if is_neg ret
    then if int_beq ret (neg eacces) then (ok_code, none, false) else (ret, none, false)
    else elim (profile_name (after_literal (codes "erasure_code_profile:") out)) [
      | some name ↦ (ok_code, some name, true)
      | none ↦ (error_code, none, true)
    ]

-- unit.replace(unit.find("\n"), 1, ""), which throws if there is no newline
unfoldable pub drop_newline : Text → Option Text
drop_newline [] = none
drop_newline (c ∷ cs) = elim (c == newline) [
  | true ↦ some cs
  | false ↦ elim (drop_newline cs) [ none ↦ none | some ds ↦ some (c ∷ ds) ]
]

abbrev pub default_stripe : ℕ
default_stripe = 4096

abbrev pub unit_or : ℕ → Option ℕ → ℕ
unit_or d none = d
unit_or d (some n) = if n == 0 then d else u32 n

-- GetDefaultECStripeUnit: a failed command's code is returned as the unit.
unfoldable pub get_default_ec_stripe_unit : ℤ × Text → Option ℕ
get_default_ec_stripe_unit (ret, out) =
    if is_neg ret then some (of_int32 ret) else elim (drop_newline out) [
      | none ↦ none
      | some unit ↦ some (unit_or default_stripe (trans_str_to_num unit))
    ]

-- The unit that is remembered, which is asked for while it is 0
unfoldable pub global_stripe : ℕ → ℤ × Text → Option ℕ
unfolding get_default_ec_stripe_unit
global_stripe global answer = if global == 0 then get_default_ec_stripe_unit answer else some global

pub record Profile : Type 0 where
  pub k : ℕ
  pub m : ℕ
  pub stripe_unit : ℕ

-- The value of a line "name=value", both of word characters
abbrev pub value_of : Text → Option Text
value_of [] = none
value_of (c ∷ cs) =
    if c == 61 && (not (is_empty cs) && is_empty (suffix_of is_word cs)) then some cs else none

-- ParseECProfile
unfoldable pub parse_ec_profile : Text → Profile → Profile
unfolding prefix_of suffix_of text_eq
parse_ec_profile line p =
    let name = prefix_of is_word line in
    elim (value_of (suffix_of is_word line)) [
      | none ↦ p
      | some v ↦
          if is_empty name
          then p
          else if text_eq name (codes "k")
          then record p { k = of_int32 (atoi v) }
          else if text_eq name (codes "m")
          then record p { m = of_int32 (atoi v) }
          else if text_eq name (codes "stripe_unit")
          then record p { stripe_unit = unit_or p.stripe_unit (trans_str_to_num v) }
          else p
    ]

unfoldable pub parse_ec_profiles : List Text → Profile → Profile
parse_ec_profiles [] p = p
parse_ec_profiles (line ∷ lines) p = parse_ec_profiles lines (parse_ec_profile line p)

-- GetECProfileSize: the code, the profile, and the remembered unit.
unfoldable pub get_ec_profile_size : ℤ × Text → ℤ × Text → ℕ → Profile → Option (ℤ × Profile × ℕ)
get_ec_profile_size (ret, out) default_answer global p =
    if is_zero ret
    then elim (global_stripe global default_answer) [
      | none ↦ none
      | some unit ↦ some (
        ok_code,
        parse_ec_profiles (tokens (λ c. c == newline) out) (record p { stripe_unit = unit }),
        unit,
      )
    ]
    else some (ret, p, global)

-- RecordInfo
pub record RecordInfo (F : Type 0) : Type 0 where
  pub pool_id : ℕ
  pub stored_size : F
  pub stored_size_unit : ℕ
  pub objects_num : F
  pub num_unit : ℕ
  pub used_size : F
  pub used_size_unit : ℕ
  pub max_avail : F
  pub max_avail_unit : ℕ
  pub use_ratio : F
  pub pool_name : Text
  pub profile : Text
  pub is_ec : Bool
  pub ec_k : ℕ
  pub ec_m : ℕ
  pub stripe_unit : ℕ
  pub rep : F

-- The unit of the number of objects, by group 6
abbrev pub objects_unit : ℕ → Text → ℕ
objects_unit before s =
    if is_empty s
    then 1
    else if text_eq s (codes "k")
    then 1024
    else if text_eq s (codes "m")
    then 1048576
    else before
