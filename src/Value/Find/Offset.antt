-- ===== src/Value/Find/Offset.antt =====
-- `handlebars_std_zval_map_find` of src/value.c on an array, against PHP's own `$array[$string]`.
use php_handlebars.Base.{
  ℕ, ◌+◌, ◌*◌, ◌-◌, ◌^◌, ◌<◌, ◌≤◌, ◌≡◌, refl, Bool, true, false, Option, none, some, [], ◌∷◌, Text,
  ◌==◌, arith, Bool-cases, Option-cases, inl, inr,
}
use php_handlebars.Zend.{Zval, Buckets, index, name}
use php_handlebars.Zend.Hash.{decimal, canonical, negative_key, numeric_key, symtable_key, find}
use php_handlebars.Zend.Engine.{Engine}
use php_handlebars.Utils.CString.{c_string}
use php_handlebars.Utils.NameLookup.Offset.{
  IsNormal, find-numeric_name, canonical-decimal, at_most-some,
}
use php_handlebars.Value.{HandlebarsZval, Value}
use php_handlebars.Value.Strtol.{
  strtol, to_ulong, digits_from, starts_with_digit, signed_long, number_at,
}
use php_handlebars.Value.Find.{map_find, map_array_entry, index_entry, array_find, convert_entry}

digits_from-decimal : (n m : ℕ) (t : Text) → decimal n t ≡ some m → digits_from n t ≡ (m, [])
digits_from-decimal n m [] h = ground arith
digits_from-decimal n m (c ∷ t) h = ground (arith, digits_from-decimal (n * 10 + (c - b'0')) m t)

c_string-decimal : (n m : ℕ) (t : Text) → decimal n t ≡ some m → c_string t ≡ t
c_string-decimal n m [] h = refl
c_string-decimal n m (c ∷ t) h = ground (arith, c_string-decimal (n * 10 + (c - b'0')) m t)

starts_with_digit-canonical : (m : ℕ) (t : Text) → canonical t ≡ some m → starts_with_digit t ≡ true
starts_with_digit-canonical m [] h = cc
starts_with_digit-canonical m (c ∷ []) h = ground arith
starts_with_digit-canonical m (c ∷ d ∷ t) h = ground arith

number_at-canonical :
    (negative : Bool) (whole t : Text) (m : ℕ)
    → canonical t ≡ some m
    → number_at negative whole t ≡ (signed_long negative m, [])
number_at-canonical negative whole t m h =
    ground (
      arith,
      starts_with_digit-canonical m t h,
      digits_from-decimal 0 m t (canonical-decimal t m h),
    )

negative_magnitude :
    (m n : ℕ) → negative_key (some m) ≡ some n → (0 < m) × (m ≤ 2 ^ 63) × (n ≡ 2 ^ 64 - m)
negative_magnitude m n h = ground arith

negative_key-some :
    (o : Option ℕ) (n : ℕ)
    → negative_key o ≡ some n
    → (m : ℕ) × (o ≡ some m) × (0 < m) × (m ≤ 2 ^ 63) × (n ≡ 2 ^ 64 - m)
negative_key-some none n h = cc
negative_key-some (some m) n h =
    let (positive, bound, value) = negative_magnitude m n h in (m, refl, positive, bound, value)

to_ulong-negative :
    (m n : ℕ) → 0 < m → m ≤ 2 ^ 63 → n ≡ 2 ^ 64 - m → to_ulong (signed_long true m) ≡ n
to_ulong-negative m n positive bound value = ground arith

-- Of a string that PHP keeps as an integer, `strtol` reads all and gives this integer.
index_entry-numeric :
    (b : Buckets) (s : Text) (n : ℕ)
    → numeric_key s ≡ some n
    → index_entry b (strtol (c_string s)) ≡ find (index n) b
unfolding index_entry
index_entry-numeric b [] n k = cc
index_entry-numeric b (c ∷ t) n k = elim (Bool-cases (c == b'-')) [
  | inl minus ↦
      let (m, digits, positive, bound, value) = negative_key-some (canonical t) n (rw minus at k) in
      ground (
        arith,
        minus,
        c_string-decimal 0 m t (canonical-decimal t m digits),
        number_at-canonical true (c ∷ t) t m digits,
        to_ulong-negative m n positive bound value,
      )
  | inr digit ↦
      let (digits, bound) = at_most-some (2 ^ 63 - 1) n (canonical (c ∷ t)) (rw digit at k) in
      ground (
        arith,
        digit,
        c_string-decimal 0 n (c ∷ t) (canonical-decimal (c ∷ t) n digits),
        number_at-canonical false (c ∷ t) (c ∷ t) n digits,
        starts_with_digit-canonical n (c ∷ t) digits,
      )
]

map_array_entry-numeric :
    (b : Buckets) (s : Text) (n : ℕ)
    → IsNormal b
    → numeric_key s ≡ some n
    → map_array_entry b s ≡ find (index n) b
unfolding map_array_entry
map_array_entry-numeric b s n h k =
    ground (arith, find-numeric_name b s n h k, index_entry-numeric b s n k)

map_array_entry-offset :
    (b : Buckets) (s : Text) (v : Zval)
    → IsNormal b
    → find (symtable_key s) b ≡ some v
    → map_array_entry b s ≡ some v
unfolding map_array_entry
map_array_entry-offset b s v h f = elim (Option-cases (numeric_key s)) [
  | inl plain ↦ ground (arith, plain)
  | inr (n, numeric) ↦ ground (arith, map_array_entry-numeric b s n h numeric, numeric)
]

-- In an array whose keys PHP has made, the lookup of a string brings what PHP itself has under the
-- string, a negative integer key included, converted as `handlebars_value_from_zval` converts it.
pub map_find-offset :
    (e : Engine) (obj : HandlebarsZval) (b : Buckets) (s : Text) (v : Zval) (rv : Value)
    → obj.intern ≡ Zval.array b
    → IsNormal b
    → find (symtable_key s) b ≡ some v
    → map_find e obj s rv ≡ convert_entry (some v) rv
unfolding map_find
map_find-offset e obj b s v rv a h f = ground (arith, map_array_entry-offset b s v h f)

-- In an array without an empty key, the lookup of the empty string is the lookup of the number 0.
pub map_find-empty :
    (e : Engine) (obj : HandlebarsZval) (b : Buckets) (rv : Value)
    → obj.intern ≡ Zval.array b
    → find (name []) b ≡ none
    → map_find e obj [] rv ≡ array_find obj 0 rv
unfolding map_find map_array_entry index_entry array_find
map_find-empty e obj b rv a h = ground arith
