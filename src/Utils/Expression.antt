-- ===== src/Utils/Expression.antt =====
-- `Handlebars\Utils::expression` of src/utils.c.
pub mod Totality
use php_handlebars.Base.{ℕ, Bool, true, false, Text, lit, if◌then◌else◌}
use php_handlebars.Zend.{Zval, is_true, is_false, array, object}
use php_handlebars.Zend.Outcome.{Outcome, ok, throw_exception, runtime_exception}
use php_handlebars.Zend.Engine.{Engine}
use php_handlebars.Utils.IntArray.{is_int_array}

unfoldable pub expression : Engine → Zval → Outcome Text
expression e is_true = ok (lit "true")
expression e is_false = ok (lit "false")
expression e (array b) =
    if is_int_array (array b)
    then ok (e.implode (lit ",") b)
    else throw_exception runtime_exception (lit "Trying to stringify assoc array")
expression e (object o) =
    if e.has_tostring o
    then ok (e.convert_to_string (object o))
    else throw_exception runtime_exception (lit "Trying to stringify object")
expression e val = ok (e.convert_to_string val)
