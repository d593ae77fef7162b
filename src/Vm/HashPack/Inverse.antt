-- ===== src/Vm/HashPack/Inverse.antt =====
-- `hash_pack` and `hash_bin2hex` of src/vm.c lose nothing: both can be read back.
use php_handlebars.Base.{
  ℕ, zero, suc, ◌+◌, ◌-◌, ◌*◌, ◌/◌, ◌%◌, ◌^◌, ◌<◌, ◌≤◌, ◌≡◌, refl, [], ◌∷◌, Text, All, length, leb,
  arith, if◌then◌else◌, take, Bool, true, false, ◌==◌,
}
use php_handlebars.Vm.HashPack.{hash_len, hash_pack, hex_digit, bin2hex_loop, hash_bin2hex}

-- A big-endian number.
abbrev pub unpack_from : ℕ → Text → ℕ
unpack_from n [] = n
unpack_from n (c ∷ t) = unpack_from (n * 256 + c) t

abbrev pub IsByte : ℕ → Type 0
IsByte c = c < 256

-- The eight bytes of a 64-bit hash are bytes, and read back as a big-endian number they are the hash.
pub unpack-hash_pack :
    (h : ℕ)
    → h < 2 ^ 64
    → (unpack_from 0 (hash_pack h) ≡ h)
      × (length (hash_pack h) ≡ hash_len)
      × All IsByte (hash_pack h)
unfolding hash_pack
unpack-hash_pack h small = (omega arith, refl, omega arith)

abbrev pub hex_value : ℕ → ℕ
hex_value c = if leb c b'9' then c - b'0' else c - b'a' + 10

abbrev pub unhex : Text → Text
unhex [] = []
unhex (a ∷ []) = []
unhex (a ∷ b ∷ t) = (hex_value a * 16 + hex_value b) ∷ unhex t

-- Whether every digit smaller than the bound is read back.
digits_survive : ℕ → Bool
digits_survive zero = true
digits_survive (suc bound) =
    let smaller = digits_survive bound in
    if hex_value (hex_digit bound) == bound then smaller else false

hex_value-of_survivor :
    (bound n : ℕ) → n < bound → digits_survive bound ≡ true → hex_value (hex_digit n) ≡ n
unfolding digits_survive
hex_value-of_survivor zero n below checked = absurd (omega arith)
hex_value-of_survivor (suc bound) n below checked = ground (arith, hex_value-of_survivor bound n)

hex_value-hex_digit : (n : ℕ) → n < 16 → hex_value (hex_digit n) ≡ n
unfolding digits_survive hex_digit
hex_value-hex_digit n h = hex_value-of_survivor 16 n h refl

hex_byte :
    (c : ℕ) → c < 256 → hex_value (hex_digit (c / 16)) * 16 + hex_value (hex_digit (c % 16)) ≡ c
hex_byte c h =
    rw (hex_value-hex_digit (c / 16) (omega arith), hex_value-hex_digit (c % 16) (omega arith))
      (omega arith)

unhex-bin2hex_loop :
    (rounds : ℕ) (t : Text) → All IsByte t → unhex (bin2hex_loop rounds t) ≡ take rounds t
unfolding bin2hex_loop
unhex-bin2hex_loop zero t h = refl
unhex-bin2hex_loop (suc rounds) [] h = refl
unhex-bin2hex_loop (suc rounds) (c ∷ t) h = cc (hex_byte c h.0, unhex-bin2hex_loop rounds t h.1)

length-bin2hex_loop :
    (rounds : ℕ) (t : Text) → rounds ≤ length t → length (bin2hex_loop rounds t) ≡ rounds * 2
unfolding bin2hex_loop
length-bin2hex_loop zero t h = refl
length-bin2hex_loop (suc rounds) [] h = absurd (omega arith)
length-bin2hex_loop (suc rounds) (c ∷ t) h =
    omega (arith, length-bin2hex_loop rounds t (omega arith))

-- Of at least eight bytes, the hexadecimal text is sixteen digits long and reads back as the first
-- eight of them.
pub unhex-hash_bin2hex :
    (t : Text)
    → All IsByte t
    → hash_len ≤ length t
    → (unhex (hash_bin2hex t) ≡ take hash_len t) × (length (hash_bin2hex t) ≡ 2 * hash_len)
unfolding hash_bin2hex
unhex-hash_bin2hex t h long = (unhex-bin2hex_loop hash_len t h, length-bin2hex_loop hash_len t long)
