-- ===== src/Utils/CString.antt =====
-- What the C library reads of a PHP string, which may hold bytes of zero: `strlen`, the `%.*s` of a
-- format, and `sscanf` with `%ld`.
use php_handlebars.Base.{
  ℕ, ◌-◌, ◌^◌, ◌%◌, none, some, [], ◌∷◌, Text, ◌==◌, ltb, take, length, min, if◌then◌else◌,
}
use php_handlebars.Zend.{ℤ, pos}
use php_handlebars.Zend.Hash.{decimal}

-- The bytes in front of the first zero.
abbrev pub c_string : Text → Text
c_string [] = []
c_string (c ∷ t) = let rest = c ∷ c_string t in if c == 0 then [] else rest

abbrev pub strlen : Text → ℕ
strlen t = length (c_string t)

-- `%.*s` with the precision `(int) len`: a negative precision is taken as none.
abbrev pub format_s : ℕ → Text → Text
format_s len t =
    let precision = len % 2 ^ 32 in
    if ltb precision (2 ^ 31) then c_string (take precision t) else c_string t

-- `sscanf(t, "%ld", &x)` of a string of digits: an empty one leaves `x`, and glibc ends at LONG_MAX.
abbrev pub scan_long : Text → ℤ → ℤ
scan_long [] x = x
scan_long (c ∷ t) x = elim (decimal 0 (c ∷ t)) [ none ↦ x | some n ↦ pos (min n (2 ^ 63 - 1)) ]
