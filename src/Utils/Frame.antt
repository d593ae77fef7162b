-- ===== src/Utils/Frame.antt =====
-- `Handlebars\Utils::createFrame` of src/utils.c.
pub mod Parent
use php_handlebars.Base.{Text, lit}
use php_handlebars.Zend.{Zval, Buckets, array, end}
use php_handlebars.Zend.Hash.{add_assoc, add_next}
use php_handlebars.Zend.Engine.{Engine}

unfoldable pub create_frame : Engine → Zval → Zval
create_frame e (array b) = array (add_assoc (lit "_parent") (array b) (e.array_merge end b))
create_frame e value = array (add_next value end)
