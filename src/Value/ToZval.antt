-- ===== src/Value/ToZval.antt =====
-- `handlebars_value_to_zval` of src/value.c.
pub mod MapFields
pub mod RoundTrip
use php_handlebars.Base.{Text}
use php_handlebars.Zend.{Zval, Buckets, is_true, is_false, double, long, end}
use php_handlebars.Zend.Hash.{add_next, add_assoc}
use php_handlebars.Value.{
  HandlebarsZval, Value, Items, Fields, true_value, false_value, float, integer, safe, map, user,
  closure, ptr, helper, no_items, item, no_fields, field,
}

-- Both loops add to the array that they are given. Closures, pointers and helpers are not expected
-- (an `assert(0)`), and become null where assertions are not compiled in.
unfoldable mutual
  pub to_zval : Value → Zval
  to_zval Value.null = Zval.null
  to_zval true_value = is_true
  to_zval false_value = is_false
  to_zval (float d) = double d
  to_zval (integer n) = long n
  to_zval (Value.string s) = Zval.string s
  to_zval (safe s) = Zval.string s
  to_zval (Value.array xs) = Zval.array (array_to_zval xs end)
  to_zval (map fs) = Zval.array (map_to_zval fs end)
  to_zval (user obj) = obj.intern
  to_zval closure = Zval.null
  to_zval ptr = Zval.null
  to_zval helper = Zval.null

  pub array_to_zval : Items → Buckets → Buckets
  array_to_zval no_items val = val
  array_to_zval (item child xs) val = array_to_zval xs (add_next (to_zval child) val)

  pub map_to_zval : Fields → Buckets → Buckets
  map_to_zval no_fields val = val
  map_to_zval (field key child fs) val = map_to_zval fs (add_assoc key (to_zval child) val)
