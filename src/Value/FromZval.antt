-- ===== src/Value/FromZval.antt =====
-- `handlebars_value_from_zval` and `set_intern_zval` of src/value.c.
use php_handlebars.Base.{false, ◌++◌, Text, lit}
use php_handlebars.Zend.{
  pos, Zval, undef, is_true, is_false, double, long, object, resource, reference, indirect,
}
use php_handlebars.Libhandlebars.{LibError, LibResult, returns, raises}
use php_handlebars.Value.{unknown, Value, true_value, false_value, float, integer, user}

-- A new `intern`, with both flags unknown again.
abbrev pub set_intern_zval : Zval → Value
set_intern_zval val = user (record { callable = unknown; int_array = unknown; intern = val })

-- The error of the last `default`, HANDLEBARS_ERROR, with the type tag in decimal.
abbrev pub unimplemented_conversion : Text → LibError
unimplemented_conversion tag = record {
  num = pos 1;
  message = lit "Unimplemented handlebars value conversion for: " ++ tag;
  external = false;
}

-- `rv` is the value that is overwritten: null and undefined leave it as it is.
unfoldable pub from_zval : Zval → Value → LibResult Value
from_zval undef rv = returns rv
from_zval Zval.null rv = returns rv
from_zval is_true rv = returns true_value
from_zval is_false rv = returns false_value
from_zval (double d) rv = returns (float d)
from_zval (long n) rv = returns (integer n)
from_zval (Zval.string s) rv = returns (Value.string s)
from_zval (object o) rv = returns (set_intern_zval (object o))
from_zval (Zval.array b) rv = returns (set_intern_zval (Zval.array b))
from_zval (resource r) rv = raises (unimplemented_conversion (lit "9"))
from_zval (reference v) rv = raises (unimplemented_conversion (lit "10"))
from_zval (indirect v) rv = raises (unimplemented_conversion (lit "12"))
