-- ===== src/Classes/Exceptions.antt =====
-- src/exceptions.c: the classes of the exceptions, and src/registry.c: the registries.
use php_handlebars.Base.{some, [], ◌∷◌, Text, lit}
use php_handlebars.Zend.Outcome.{Outcome, ◌>>=◌}
use php_handlebars.Classes.{
  Class, ClassTable, pointee, register_interface, register_class_ex, class_implements,
}

-- The classes and interfaces of PHP and of its standard extensions that the extension builds on.
pub record Builtins : Type 0 where
  pub exception : Class
  pub spl_runtime_exception : Class
  pub spl_array_object : Class
  pub arrayaccess : Class
  pub traversable : Class

-- The registration of an exception's class with the interface `Handlebars\Exception`.
unfoldable pub register_exception : Text → Text → Class → ClassTable → Outcome ClassTable
unfolding pointee register_class_ex class_implements
register_exception var name parent t =
    let t1 = register_class_ex var name [] (some parent) t in
    class_implements var (pointee (lit "HandlebarsException_ce_ptr") t1) t1

-- `zend_register_class_alias` and the variable for the alias
unfoldable pub register_parse_exception : ClassTable → ClassTable
register_parse_exception t = record t {
  aliases = (lit "Handlebars\\ParseException", lit "Handlebars\\CompileException") ∷ t.aliases;
  pointers =
      (lit "HandlebarsParseException_ce_ptr", lit "Handlebars\\CompileException") ∷ t.pointers;
}

-- `PHP_MINIT_FUNCTION(handlebars_exceptions)`
unfoldable pub minit_exceptions : Builtins → ClassTable → Outcome ClassTable
unfolding register_interface register_exception register_parse_exception
minit_exceptions b t = do
  let t1 = register_interface (lit "HandlebarsException_ce_ptr") (lit "Handlebars\\Exception") [] t
  t2 ←
      register_exception (lit "HandlebarsCompileException_ce_ptr")
        (lit "Handlebars\\CompileException") b.exception t1
  let t3 = register_parse_exception t2
  t4 ←
      register_exception (lit "HandlebarsInvalidArgumentException_ce_ptr")
        (lit "Handlebars\\InvalidArgumentException") b.spl_runtime_exception t3
  t5 ←
      register_exception (lit "HandlebarsRuntimeException_ce_ptr")
        (lit "Handlebars\\RuntimeException") b.spl_runtime_exception t4
  register_exception (lit "HandlebarsInvalidBinaryStringException_ce_ptr")
      (lit "Handlebars\\InvalidBinaryStringException") b.exception t5

-- `PHP_MINIT_FUNCTION(handlebars_registry)`
unfoldable pub minit_registry : Builtins → ClassTable → Outcome ClassTable
unfolding pointee register_interface register_class_ex class_implements
minit_registry b t = do
  let registry = lit "HandlebarsRegistry_ce_ptr"
  let default_registry = lit "HandlebarsDefaultRegistry_ce_ptr"
  t1 ←
      class_implements registry (some b.arrayaccess)
        (register_interface registry (lit "Handlebars\\Registry") [] t)
  t2 ← class_implements registry (some b.traversable) t1
  let t3 =
      register_class_ex default_registry (lit "Handlebars\\DefaultRegistry") []
        (some b.spl_array_object) t2
  class_implements default_registry (pointee registry t3) t3
