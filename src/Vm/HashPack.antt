-- ===== src/Vm/HashPack.antt =====
-- `hash_pack` and `hash_bin2hex` of src/vm.c.
pub mod Inverse
use php_handlebars.Base.{
  ℕ, zero, suc, ◌+◌, ◌/◌, ◌%◌, ◌^◌, Option, none, some, [], ◌∷◌, Text, lit, get_elem?,
}

-- `HASH_LEN`
abbrev pub hash_len : ℕ
hash_len = 8

-- The shifts and the mask 0xFF, byte by byte.
unfoldable pub hash_pack : ℕ → Text
hash_pack val =
    val / 2 ^ 56 % 256
    ∷ val / 2 ^ 48 % 256
    ∷ val / 2 ^ 40 % 256
    ∷ val / 2 ^ 32 % 256
    ∷ val / 2 ^ 24 % 256
    ∷ val / 2 ^ 16 % 256
    ∷ val / 2 ^ 8 % 256
    ∷ val % 256
    ∷ []

abbrev pub hexconvtab : Text
hexconvtab = lit "0123456789abcdef"

unfoldable pub hex_digit : ℕ → ℕ
hex_digit n = elim (get_elem? hexconvtab n) [ none ↦ 0 | some c ↦ c ]

-- The loop over the `rounds` bytes that are left of the input.
unfoldable pub bin2hex_loop : ℕ → Text → Text
unfolding hex_digit
bin2hex_loop zero bytes = []
bin2hex_loop (suc rounds) [] = []
bin2hex_loop (suc rounds) (c ∷ bytes) =
    hex_digit (c / 16) ∷ hex_digit (c % 16) ∷ bin2hex_loop rounds bytes

unfoldable pub hash_bin2hex : Text → Text
unfolding bin2hex_loop
hash_bin2hex bytes = bin2hex_loop hash_len bytes
