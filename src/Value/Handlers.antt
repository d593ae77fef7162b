-- ===== src/Value/Handlers.antt =====
-- The handlers of src/value.c that a PHP value has for libhandlebars's sake only.
use php_handlebars.Zend.Outcome.{Outcome, ok, aborted}
use php_handlebars.Value.{Value, HandlebarsZval}

-- `handlebars_std_zval_copy` and `handlebars_std_zval_convert`: not implemented, they abort.
unfoldable pub std_zval_copy : HandlebarsZval → Outcome Value
std_zval_copy value = aborted

unfoldable pub std_zval_convert : HandlebarsZval → Outcome Value
std_zval_convert value = aborted

-- `handlebars_std_zval_dtor`: the reference is given back when the cell is freed, not here.
unfoldable pub std_zval_dtor : HandlebarsZval → Outcome HandlebarsZval
std_zval_dtor user = ok user
