-- ===== src/Classes/Registration.antt =====
-- The registration of all classes: the `PHP_MINIT` functions of src/*.c in the order in which
-- `PHP_MINIT_FUNCTION(handlebars)` of src/php_handlebars.c calls them.
use php_handlebars.Base.{Bool, Option, none, some, lit, if◌then◌else◌}
use php_handlebars.Zend.Outcome.{Outcome, ok, ◌>>=◌}
use php_handlebars.Classes.{
  Class, ClassTable, no_classes, pointee, register_interface, register_class, register_class_ex,
  class_implements,
}
use php_handlebars.Classes.Impl.{impl_methods, base_impl_methods}
use php_handlebars.Classes.Vm.{vm_methods}
use php_handlebars.Classes.Options.{options_methods}
use php_handlebars.Classes.Utils.{utils_methods, safe_string_methods}
use php_handlebars.Classes.Ast.{
  compiler_methods, parser_methods, tokenizer_methods, opcode_methods, program_methods,
  token_methods,
}
use php_handlebars.Classes.Exceptions.{Builtins, minit_exceptions, minit_registry}

-- What the registration meets: PHP's classes; `handlebars_has_psr`, with what `lookup_class` finds
-- of PSR; and whether the classes around the compiler are built in.
pub record Host : Type 0 where
  pub builtins : Builtins
  pub has_psr : Bool
  pub logger_aware : Option Class
  pub enable_ast : Bool

-- `Handlebars\BaseImpl`
unfoldable pub register_base_impl : ClassTable → Outcome ClassTable
unfolding pointee register_class class_implements
register_base_impl t =
    let base_impl = lit "HandlebarsBaseImpl_ce_ptr" in
    let t1 = register_class base_impl (lit "Handlebars\\BaseImpl") base_impl_methods t in
    class_implements base_impl (pointee (lit "HandlebarsImpl_ce_ptr") t1) t1

-- `PHP_MINIT_FUNCTION(handlebars_impl)`. The error of `lookup_class` comes back at the start of PHP;
-- the function then ends with FAILURE, which its caller does not look at.
unfoldable pub minit_impl : Host → ClassTable → Outcome ClassTable
unfolding register_interface class_implements register_base_impl
minit_impl h t =
    let impl = lit "HandlebarsImpl_ce_ptr" in
    let t1 = register_interface impl (lit "Handlebars\\Impl") impl_methods t in
    if h.has_psr
    then (elim h.logger_aware [
      | none ↦ ok t1
      | some tmp ↦ do t2 ← class_implements impl (some tmp) t1; register_base_impl t2
    ])
    else register_base_impl t1

-- `PHP_MINIT_FUNCTION(handlebars_options)`
unfoldable pub minit_options : Builtins → ClassTable → Outcome ClassTable
unfolding register_class class_implements
minit_options b t =
    let options = lit "HandlebarsOptions_ce_ptr" in
    class_implements options (some b.arrayaccess)
      (register_class options (lit "Handlebars\\Options") options_methods t)

-- `PHP_MINIT_FUNCTION(handlebars_safe_string)`
unfoldable pub minit_safe_string : ClassTable → ClassTable
unfolding register_class
minit_safe_string =
    register_class (lit "HandlebarsSafeString_ce_ptr") (lit "Handlebars\\SafeString")
      safe_string_methods

-- `PHP_MINIT_FUNCTION(handlebars_utils)`
unfoldable pub minit_utils : ClassTable → ClassTable
unfolding register_class
minit_utils = register_class (lit "HandlebarsUtils_ce_ptr") (lit "Handlebars\\Utils") utils_methods

-- `PHP_MINIT_FUNCTION(handlebars_value)` registers nothing.
unfoldable pub minit_value : ClassTable → ClassTable
minit_value t = t

-- `PHP_MINIT_FUNCTION(handlebars_vm)`
unfoldable pub minit_vm : ClassTable → ClassTable
unfolding pointee register_class_ex
minit_vm t =
    register_class_ex (lit "HandlebarsVM_ce_ptr") (lit "Handlebars\\VM") vm_methods
      (pointee (lit "HandlebarsBaseImpl_ce_ptr") t) t

-- `PHP_MINIT_FUNCTION(handlebars_compiler)` and so on
unfoldable pub minit_compiler : ClassTable → ClassTable
unfolding register_class
minit_compiler =
    register_class (lit "HandlebarsCompiler_ce_ptr") (lit "Handlebars\\Compiler") compiler_methods

unfoldable pub minit_opcode : ClassTable → ClassTable
unfolding register_class
minit_opcode =
    register_class (lit "HandlebarsOpcode_ce_ptr") (lit "Handlebars\\Opcode") opcode_methods

unfoldable pub minit_parser : ClassTable → ClassTable
unfolding register_class
minit_parser =
    register_class (lit "HandlebarsParser_ce_ptr") (lit "Handlebars\\Parser") parser_methods

unfoldable pub minit_program : ClassTable → ClassTable
unfolding register_class
minit_program =
    register_class (lit "HandlebarsProgram_ce_ptr") (lit "Handlebars\\Program") program_methods

unfoldable pub minit_token : ClassTable → ClassTable
unfolding register_class
minit_token = register_class (lit "HandlebarsToken_ce_ptr") (lit "Handlebars\\Token") token_methods

unfoldable pub minit_tokenizer : ClassTable → ClassTable
unfolding register_class
minit_tokenizer =
    register_class (lit "HandlebarsTokenizer_ce_ptr") (lit "Handlebars\\Tokenizer")
      tokenizer_methods

-- `#ifdef PHP_HANDLEBARS_ENABLE_AST`
unfoldable pub minit_ast : ClassTable → ClassTable
unfolding minit_compiler minit_opcode minit_parser minit_program minit_token minit_tokenizer
minit_ast t =
    minit_tokenizer (minit_token (minit_program (minit_parser (minit_opcode (minit_compiler t)))))

-- `Call other MINIT functions`
unfoldable pub register_classes : Host → Outcome ClassTable
unfolding minit_registry minit_impl minit_exceptions minit_options minit_safe_string minit_utils
    minit_value minit_vm minit_ast
register_classes h = do
  t1 ← minit_registry h.builtins no_classes
  t2 ← minit_impl h t1
  t3 ← minit_exceptions h.builtins t2
  t4 ← minit_options h.builtins t3
  let t5 = minit_vm (minit_value (minit_utils (minit_safe_string t4)))
  ok (if h.enable_ast then minit_ast t5 else t5)
