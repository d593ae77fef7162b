-- ===== src/Value/Strtol.antt =====
-- `strtol` of the C library with base 10, on a string that ends at its first zero byte.
use php_handlebars.Base.{
  ℕ, suc, ◌+◌, ◌*◌, ◌-◌, ◌^◌, Bool, true, false, ◌||◌, ◌&&◌, [], ◌∷◌, Text, ◌==◌, leb, min,
  if◌then◌else◌,
}
use php_handlebars.Zend.{ℤ, pos, negsuc}
use php_handlebars.Zend.Hash.{is_digit}

abbrev pub is_space : ℕ → Bool
is_space c = c == 32 || (leb 9 c && leb c 13)

abbrev pub skip_space : Text → Text
skip_space [] = []
skip_space (c ∷ t) = let rest = skip_space t in if is_space c then rest else c ∷ t

-- The digits in front, and the rest.
abbrev pub digits_from : ℕ → Text → ℕ × Text
digits_from n [] = (n, [])
digits_from n (c ∷ t) =
    let more = digits_from (n * 10 + (c - b'0')) t in if is_digit c then more else (n, c ∷ t)

abbrev pub starts_with_digit : Text → Bool
starts_with_digit [] = false
starts_with_digit (c ∷ t) = is_digit c

-- Out of range it is LONG_MIN or LONG_MAX.
abbrev pub signed_long : Bool → ℕ → ℤ
signed_long false n = pos (min n (2 ^ 63 - 1))
signed_long true n = if n == 0 then pos 0 else negsuc (min n (2 ^ 63) - 1)

-- The value and `*end`; where there is no digit the whole string is left.
abbrev pub number_at : Bool → Text → Text → ℤ × Text
number_at negative whole t =
    if starts_with_digit t
    then (signed_long negative (digits_from 0 t).0, (digits_from 0 t).1)
    else (pos 0, whole)

abbrev pub after_sign : Text → Text → ℤ × Text
after_sign whole [] = (pos 0, whole)
after_sign whole (c ∷ t) =
    if c == b'-'
    then number_at true whole t
    else if c == b'+'
    then number_at false whole t
    else number_at false whole (c ∷ t)

abbrev pub strtol : Text → ℤ × Text
strtol t = after_sign t (skip_space t)

-- A `long` passed as a `zend_ulong`.
abbrev pub to_ulong : ℤ → ℕ
to_ulong (pos n) = n
to_ulong (negsuc n) = 2 ^ 64 - suc n
