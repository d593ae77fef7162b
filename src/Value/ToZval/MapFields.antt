-- ===== src/Value/ToZval/MapFields.antt =====
-- A map of libhandlebars, converted to a PHP array by src/value.c.
use php_handlebars.Base.{
  ◌≡◌, ◌↔◌, refl, true, Option, none, some, text_eq_iff, ==_iff, arith, if◌then◌else◌,
}
use php_handlebars.Zend.{Zval, Buckets, Key, index, name, end, bucket, array}
use php_handlebars.Zend.Hash.{key_eq, find, update, add_assoc, symtable_key}
use php_handlebars.Value.{Fields, no_fields, field, map}
use php_handlebars.Value.ToZval.{to_zval, map_to_zval}

key_eq_iff : (j k : Key) → (key_eq j k ≡ true) ↔ (j ≡ k)
key_eq_iff (index a) (index b) = ground (arith, ==_iff a b)
key_eq_iff (index a) (name t) = ground arith
key_eq_iff (name s) (index b) = ground arith
key_eq_iff (name s) (name t) = ground (arith, text_eq_iff s t)

find-update :
    (j k : Key) (v : Zval) (b : Buckets)
    → find j (update k v b) ≡ (if key_eq k j then some v else find j b)
find-update j k v end = refl
find-update j k v (bucket i w b) =
    ground (arith, find-update j k v b, key_eq_iff i k, key_eq_iff i j, key_eq_iff k j)

abbrev or_earlier : Option Zval → Option Zval → Option Zval
or_earlier none earlier = earlier
or_earlier (some v) earlier = some v

-- The last field that PHP files under the key.
abbrev pub last_field : Key → Fields → Option Zval
last_field k no_fields = none
last_field k (field t child fs) =
    or_earlier (last_field k fs) (if key_eq (symtable_key t) k then some (to_zval child) else none)

find-map_to_zval :
    (k : Key) (fs : Fields) (b : Buckets)
    → find k (map_to_zval fs b) ≡ or_earlier (last_field k fs) (find k b)
unfolding to_zval
find-map_to_zval k no_fields b = refl
find-map_to_zval k (field t child fs) b = ground (
  arith,
  find-map_to_zval k fs (add_assoc t (to_zval child) b),
  find-update k (symtable_key t) (to_zval child) b,
)

-- A map of libhandlebars becomes a PHP array that has, under every key, the converted value of the
-- last field that PHP files under this key, and no other entry.
pub to_zval-map :
    (fs : Fields)
    → (b : Buckets) × (to_zval (map fs) ≡ array b) × ((k : Key) → find k b ≡ last_field k fs)
unfolding to_zval
to_zval-map fs = (map_to_zval fs end, refl, found)
  where
    found : (k : Key) → find k (map_to_zval fs end) ≡ last_field k fs
    found k = ground (arith, find-map_to_zval k fs end)
