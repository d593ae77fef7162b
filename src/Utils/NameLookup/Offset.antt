-- ===== src/Utils/NameLookup/Offset.antt =====
-- `nameLookup` of src/utils.c on an array, against PHP's own `$array[$string]`.
use php_handlebars.Base.{
  ℕ, ◌-◌, ◌^◌, ◌≤◌, ◌≡◌, refl, ap, true, false, Option, none, some, [], ◌∷◌, Text, ◌==◌, is_some,
  arith, Bool-cases, Option-cases, inl, inr, text_eq_sound, text_eq,
}
use php_handlebars.Zend.{pos, Zval, Buckets, array, string, null, index, name, end, bucket}
use php_handlebars.Zend.Hash.{
  is_digit, decimal, canonical, at_most, numeric_key, symtable_key, find,
}
use php_handlebars.Zend.Outcome.{ok}
use php_handlebars.Zend.Engine.{Engine}
use php_handlebars.Utils.NameLookup.{
  or_else, is_integer_string, field_string_index, array_entry, return_entry, name_lookup,
}

-- No string key of the array is one that PHP keeps as an integer.
abbrev pub IsNormal : Buckets → Type 0
IsNormal end = Unit
IsNormal (bucket (index n) v b) = IsNormal b
IsNormal (bucket (name t) v b) = (numeric_key t ≡ none) × IsNormal b

pub find-numeric_name :
    (b : Buckets) (s : Text) (n : ℕ) → IsNormal b → numeric_key s ≡ some n → find (name s) b ≡ none
find-numeric_name end s n h k = refl
find-numeric_name (bucket (index m) v b) s n h k = find-numeric_name b s n h k
find-numeric_name (bucket (name t) v b) s n h k = elim (Bool-cases (text_eq t s)) [
  | inl e ↦ cc (h.0, k, ap numeric_key (text_eq_sound t s e))
  | inr e ↦ rw e (find-numeric_name b s n h.1 k)
]

-- A digit is no minus sign.
pub not_minus : (c : ℕ) → is_digit c ≡ true → (c == b'-') ≡ false
not_minus c h = ground arith

pub canonical-decimal : (t : Text) (n : ℕ) → canonical t ≡ some n → decimal 0 t ≡ some n
canonical-decimal [] n h = cc
canonical-decimal (c ∷ []) n h = h
canonical-decimal (c ∷ d ∷ t) n h = ground arith

pub at_most-some :
    (bound n : ℕ) (o : Option ℕ) → at_most bound o ≡ some n → (o ≡ some n) × (n ≤ bound)
at_most-some bound n none h = cc
at_most-some bound n (some m) h = ground arith

-- A string of digits that PHP keeps as an integer is read as that integer.
field_string_index-numeric :
    (s : Text) (n : ℕ)
    → is_integer_string s ≡ true
    → numeric_key s ≡ some n
    → field_string_index s ≡ pos n
unfolding field_string_index
field_string_index-numeric [] n d k = cc
field_string_index-numeric (c ∷ t) n d k =
    let digit : is_digit c ≡ true = unfold is_integer_string in ground arith in
    let kept : at_most (2 ^ 63 - 1) (canonical (c ∷ t)) ≡ some n = rw (not_minus c digit) at k in
    let (value, bound) = at_most-some (2 ^ 63 - 1) n (canonical (c ∷ t)) kept in
    ground (arith, canonical-decimal (c ∷ t) n value)

-- The lookup of a string in an array, when PHP itself keeps the string as an integer exactly if it
-- consists of digits.
lookup-numeric :
    (b : Buckets) (s : Text) (n : ℕ)
    → IsNormal b
    → is_integer_string s ≡ true
    → numeric_key s ≡ some n
    → array_entry b (field_string_index s) s ≡ find (index n) b
unfolding array_entry
lookup-numeric b s n h d k =
    rw (field_string_index-numeric s n d k, find-numeric_name b s n h k)
      (or_none (find (index n) b))
  where
    or_none : (o : Option Zval) → or_else o none ≡ o
    or_none none = refl
    or_none (some v) = refl

lookup-plain :
    (b : Buckets) (s : Text)
    → is_integer_string s ≡ false
    → array_entry b (field_string_index s) s ≡ find (name s) b
unfolding array_entry field_string_index
lookup-plain b s d = rw d

-- In an array whose keys PHP has made, `nameLookup` of a string that PHP keeps as an integer
-- exactly if it consists of digits (or of nothing) is the entry under PHP's own key for the string,
-- and null if there is none.
pub name_lookup-eq-offset :
    (e : Engine) (b : Buckets) (s : Text)
    → IsNormal b
    → is_integer_string s ≡ is_some (numeric_key s)
    → name_lookup e (array b) (string s) ≡ ok (return_entry (find (symtable_key s) b))
unfolding name_lookup
name_lookup-eq-offset e b s h same = elim (Option-cases (numeric_key s)) [
  | inl plain ↦ rw (lookup-plain b s (rw plain at same), plain, symtable_key)
  | inr (n, numeric) ↦
      rw (lookup-numeric b s n h (rw numeric at same) numeric, numeric, symtable_key)
]

-- In an array whose keys PHP has made, the entry under a negative integer key is never found by the
-- string of that integer.
pub name_lookup-negative :
    (e : Engine) (b : Buckets) (t : Text) (n : ℕ)
    → IsNormal b
    → numeric_key (b'-' ∷ t) ≡ some n
    → name_lookup e (array b) (string (b'-' ∷ t)) ≡ ok null
unfolding name_lookup is_integer_string
name_lookup-negative e b t n h k =
    rw (lookup-plain b (b'-' ∷ t) refl, find-numeric_name b (b'-' ∷ t) n h k)
