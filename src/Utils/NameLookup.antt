-- ===== src/Utils/NameLookup.antt =====
-- `Handlebars\Utils::nameLookup` of src/utils.c, which `Handlebars\Options::lookupProperty` of
-- src/options.c calls too.
pub mod Offset
use php_handlebars.Base.{
  ℕ, Bool, true, false, ◌&&◌, Option, none, some, [], ◌∷◌, Text, if◌then◌else◌,
}
use php_handlebars.Zend.{
  ℤ, pos, negsuc, Zval, Buckets, null, string, long, array, object, indirect, index, name,
}
use php_handlebars.Zend.Hash.{is_digit, find}
use php_handlebars.Zend.Outcome.{Outcome, ok, ◌>>=◌, ◌>>◌, assert_zero}
use php_handlebars.Zend.Engine.{Engine, array_access}
use php_handlebars.Utils.CString.{scan_long}

unfoldable pub is_integer_string : Text → Bool
is_integer_string [] = true
is_integer_string (c ∷ t) = if is_digit c then is_integer_string t else false

-- The index and the string that the field becomes; -1 stands for no index.
unfoldable pub field_string_index : Text → ℤ
unfolding is_integer_string
field_string_index s = if is_integer_string s then scan_long s (negsuc 0) else negsuc 0

unfoldable pub lookup_field : Engine → Zval → ℤ × Text
unfolding field_string_index
lookup_field e (long n) = (n, e.convert_to_string (long n))
lookup_field e (string s) = (field_string_index s, s)
lookup_field e v = let s = e.convert_to_string v in (field_string_index s, s)

abbrev pub or_else {ℓ} : {A : Type ℓ} → Option A → Option A → Option A
or_else none d = d
or_else (some a) d = some a

-- `IS_ARRAY`: the index first, if there is one, then the string.
unfoldable pub array_entry : Buckets → ℤ → Text → Option Zval
array_entry b (pos n) s = or_else (find (index n) b) (find (name s) b)
array_entry b (negsuc n) s = find (name s) b

-- `IS_OBJECT` with `ArrayAccess`: what is stored in `return_value`
unfoldable pub dimension_value : Engine → ℕ → Text → Zval
dimension_value e o s =
    if e.has_dimension o s then (elim (e.read_dimension o s) [ none ↦ null | some v ↦ v ]) else null

unfoldable pub return_entry : Option Zval → Zval
return_entry none = null
return_entry (some (indirect v)) = v
return_entry (some v) = v

unfoldable pub lookup_in : Engine → Zval → ℤ → Text → Outcome Zval
unfolding array_entry dimension_value return_entry
lookup_in e (array b) i s = ok (return_entry (array_entry b i s))
lookup_in e (object o) i s =
    if e.instance_of o array_access
    then ok (dimension_value e o s)
    else ok (return_entry (e.read_property o s))
lookup_in e _ i s = do assert_zero e.asserts; ok null

unfoldable pub name_lookup : Engine → Zval → Zval → Outcome Zval
unfolding lookup_field lookup_in
name_lookup e value field = let (i, s) = lookup_field e field in lookup_in e value i s
