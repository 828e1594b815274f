-- ===== src/Prelude/Text.antt =====
-- Texts as lists of bytes, and what the program uses of the C library on them.
use ceph_global_cache_adapto.Prelude.Tests.{if◌then◌else◌, ltb, leb, ◌==◌}
use ceph_global_cache_adapto.Prelude.Keys.{Eq}
use ceph_global_cache_adapto.Prelude.Int.{ℤ, pos, negsuc, neg}
use Prim.Native.Nat.{ℕ, zero, suc, ◌+◌, ◌*◌, ◌-◌, ◌/◌, ◌%◌, ◌<◌, min}
use Prim.Native.Char.{code}
use Prim.Native.String.{String}
use mathlib.Core.Path.{◌≡◌, refl}
use mathlib.Core.Logic.{◌↔◌}
use mathlib.Core.Bool.{Bool, true, false, ◌&&◌, ◌||◌}
use mathlib.Core.List.{List, [], ◌∷◌}
use native.Mathlib.Omega.{arith}

abbrev pub Text : Type 0
Text = List ℕ

abbrev pub codes : String → Text
codes String.[] = []
codes (String.◌∷◌ c s) = code c ∷ codes s

-- strcmp(a, b) == 0
unfoldable pub text_eq : Text → Text → Bool
text_eq [] [] = true
text_eq [] (b ∷ bs) = false
text_eq (a ∷ as') [] = false
text_eq (a ∷ as') (b ∷ bs) = a == b && text_eq as' bs

pub text_eq_iff : (a b : Text) → (text_eq a b ≡ true) ↔ (a ≡ b)
unfolding text_eq
text_eq_iff [] [] = ground arith
text_eq_iff [] (b ∷ bs) = ground arith
text_eq_iff (a ∷ as') [] = ground arith
text_eq_iff (a ∷ as') (b ∷ bs) = ground (arith, text_eq_iff as' bs)

instance abbrev pub text_key : Eq Text
text_key = record { beq = text_eq; beq_iff = text_eq_iff }

abbrev pub is_digit : ℕ → Bool
is_digit c = leb 48 c && leb c 57

-- isspace in the C locale
abbrev pub is_space : ℕ → Bool
is_space c = c == 32 || (leb 9 c && leb c 13)

-- \w
abbrev pub is_word : ℕ → Bool
is_word c = is_digit c || ((leb 65 c && leb c 90) || ((leb 97 c && leb c 122) || c == 95))

-- The longest prefix whose bytes pass the test, and what follows it.
unfoldable pub prefix_of : (ℕ → Bool) → Text → Text
prefix_of p [] = []
prefix_of p (c ∷ cs) = let rest = prefix_of p cs in if p c then c ∷ rest else []

unfoldable pub suffix_of : (ℕ → Bool) → Text → Text
suffix_of p [] = []
suffix_of p (c ∷ cs) = let rest = suffix_of p cs in if p c then rest else c ∷ cs

-- The tokens of strtok and strtok_r: the maximal runs of bytes that are no delimiters.
abbrev starts_token : (ℕ → Bool) → Text → Bool
starts_token p [] = false
starts_token p (c ∷ cs) = if p c then false else true

abbrev extend_first : ℕ → List Text → List Text
extend_first c [] = (c ∷ []) ∷ []
extend_first c (t ∷ ts) = (c ∷ t) ∷ ts

unfoldable pub tokens : (ℕ → Bool) → Text → List Text
tokens p [] = []
tokens p (c ∷ cs) =
    let rest = tokens p cs in
    if p c then rest else if starts_token p cs then extend_first c rest else (c ∷ []) ∷ rest

-- The value of a run of decimal digits.
unfoldable pub decimal : ℕ → Text → ℕ
decimal acc [] = acc
decimal acc (c ∷ cs) = decimal (acc * 10 + (c - 48)) cs

-- (int) of an int64_t
unfoldable pub to_int32 : ℤ → ℤ
to_int32 (pos n) =
    let m = n % 4294967296 in if ltb m 2147483648 then pos m else negsuc (4294967295 - m)
to_int32 (negsuc n) =
    let m = n % 4294967296 in if ltb m 2147483648 then negsuc m else pos (4294967295 - m)

-- strtol in base 10 saturates at the bounds of `long`.
unfoldable pub strtol_signed : Text → ℤ
unfolding prefix_of decimal
strtol_signed [] = pos 0
strtol_signed (c ∷ cs) =
    if c == 45
    then neg (min 9223372036854775808 (decimal 0 (prefix_of is_digit cs)))
    else if c == 43
    then pos (min 9223372036854775807 (decimal 0 (prefix_of is_digit cs)))
    else pos (min 9223372036854775807 (decimal 0 (prefix_of is_digit (c ∷ cs))))

-- atoi, which glibc computes as (int) strtol(s, 0, 10)
unfoldable pub atoi : Text → ℤ
unfolding suffix_of strtol_signed to_int32
atoi s = to_int32 (strtol_signed (suffix_of is_space s))

-- (uint32_t) of an int
abbrev pub of_int32 : ℤ → ℕ
of_int32 (pos n) = n % 4294967296
of_int32 (negsuc n) = 4294967295 - n % 4294967296

-- std::to_string of an unsigned number, on fuel; more than the number's value is never used.
unfoldable pub digits_from : ℕ → ℕ → Text → Text
digits_from zero n acc = acc
digits_from (suc fuel) n acc =
    let rest = digits_from fuel (n / 10) ((48 + n % 10) ∷ acc) in
    if ltb n 10 then (48 + n) ∷ acc else rest

unfoldable pub to_string : ℕ → Text
unfolding digits_from
to_string n = digits_from (suc n) n []

-- The digits in front of `acc` are those of n.
decimal-digits_from :
    (fuel n : ℕ) (acc : Text) → n < fuel → decimal 0 (digits_from fuel n acc) ≡ decimal n acc
unfolding digits_from decimal
decimal-digits_from zero n acc h = absurd (omega arith)
decimal-digits_from (suc fuel) n acc h =
    ground (arith, decimal-digits_from fuel (n / 10) ((48 + n % 10) ∷ acc))

-- to_string is read back by the digits' value.
pub decimal-to_string : (n : ℕ) → decimal 0 (to_string n) ≡ n
unfolding to_string decimal
decimal-to_string n = decimal-digits_from (suc n) n [] (omega arith)

-- The value of a digit of strtoull, 99 for no digit
abbrev pub digit_value : ℕ → ℕ
digit_value c =
    if is_digit c
    then c - 48
    else if leb 97 c && leb c 122
    then c - 87
    else if leb 65 c && leb c 90
    then c - 55
    else 99

unfoldable pub digits_value : ℕ → ℕ → Text → ℕ
digits_value base acc [] = acc
digits_value base acc (c ∷ cs) =
    let rest = digits_value base (acc * base + digit_value c) cs in
    if ltb (digit_value c) base then rest else acc

-- "0x" goes in front of a number of base 16 if a digit follows.
abbrev drop_hex : ℕ → Text → Text
drop_hex base (z ∷ x ∷ d ∷ ds) =
    if base == 16 && (z == 48 && ((x == 120 || x == 88) && ltb (digit_value d) 16))
    then d ∷ ds
    else z ∷ x ∷ d ∷ ds
drop_hex base s = s

abbrev saturated : ℕ → ℕ
saturated n = min 18446744073709551615 n

unfoldable pub strtoull_signed : ℕ → Text → ℕ
unfolding digits_value
strtoull_signed base [] = 0
strtoull_signed base (c ∷ cs) =
    if c == 45
    then (18446744073709551616 - saturated (digits_value base 0 (drop_hex base cs)))
      % 18446744073709551616
    else if c == 43
    then saturated (digits_value base 0 (drop_hex base cs))
    else saturated (digits_value base 0 (drop_hex base (c ∷ cs)))

-- strtoull(s, 0, base) and strtoul, for bases 10 and 16, on a 64-bit platform
unfoldable pub strtoull : ℕ → Text → ℕ
unfolding suffix_of strtoull_signed
strtoull base s = strtoull_signed base (suffix_of is_space s)

strtoull_test : strtoull 16 (codes "10f3a.") ≡ 69434
unfolding strtoull
strtoull_test = refl

tokens_test : tokens (λ c. c == 46) (codes ".rbd_data..7.") ≡ codes "rbd_data" ∷ codes "7" ∷ []
unfolding tokens
tokens_test = refl
