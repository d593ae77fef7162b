-- ===== src/Parser/Method.antt =====
-- `php_handlebars_parse` of src/parser.c: the methods `Handlebars\Parser::parse` and `parsePrint`.
pub mod Endings
use php_handlebars.Base.{Bool, true, false, Option, some, Text}
use php_handlebars.Zend.Outcome.{Outcome, ok, runtime_exception, compile_exception}
use php_handlebars.Zend.Tree.{Tree, string}
use php_handlebars.Libhandlebars.{php_handlebars_try}
use php_handlebars.Parser.{NodePtr, Ast}
use php_handlebars.Parser.ToZval.{ast_to_zval}

module _ (a : Ast) where
  unfoldable pub parse_result : Bool → NodePtr → Outcome (Option Tree)
  unfolding ast_to_zval php_handlebars_try
  parse_result true ast =
      php_handlebars_try runtime_exception (a.print ast) λ output. ok (some (string output))
  parse_result false ast = ok (some (ast_to_zval a.readable_type ast))

  unfoldable pub parse : Bool → Text → Outcome (Option Tree)
  unfolding parse_result
  parse print tmpl = php_handlebars_try compile_exception (a.parse_ex tmpl) (parse_result print)
