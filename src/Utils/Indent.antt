-- ===== src/Utils/Indent.antt =====
-- `Utils::indent` of src/utils.c, one call of libhandlebars on the module's global context.
use php_handlebars.Base.{Text}
use php_handlebars.Zend.Outcome.{Outcome, ok, aborted}
use php_handlebars.Libhandlebars.{LibResult, returns, raises}

-- `handlebars_string_indent` is a parameter. There is no `php_handlebars_try` around it: an error jumps
-- to the buffer that the module's start left in the context, on a stack frame that is gone.
unfoldable pub indent : (Text → Text → LibResult Text) → Text → Text → Outcome Text
indent string_indent str indent_str = elim (string_indent str indent_str) [
  | returns tmp ↦ ok tmp
  | raises e ↦ aborted
]
