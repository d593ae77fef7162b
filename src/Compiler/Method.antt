-- ===== src/Compiler/Method.antt =====
-- `php_handlebars_compile` of src/compiler.c: the methods `Handlebars\Compiler::compile` and
-- `Handlebars\Compiler::compilePrint`.
pub mod Stages
use php_handlebars.Base.{Bool, true, false, Option, none, some, Text}
use php_handlebars.Zend.{Zval, reference}
use php_handlebars.Zend.Outcome.{Outcome, ok, runtime_exception, compile_exception}
use php_handlebars.Zend.Tree.{Tree, string}
use php_handlebars.Libhandlebars.{Flags, Compiler, Library, php_handlebars_try}
use php_handlebars.Vm.ProcessOptions.{Processed, process_options}
use php_handlebars.Vm.Compile.{new_compiler, preprocess}
use php_handlebars.Compiler.{Program, Opcodes}
use php_handlebars.Compiler.ToZval.{program_to_zval}

-- `ZVAL_DEREF`
unfoldable pub deref_options : Option Zval → Option Zval
deref_options (some (reference v)) = some v
deref_options options = options

unfoldable pub print_or_convert : Opcodes → Bool → Program → Outcome (Option Tree)
unfolding php_handlebars_try
print_or_convert o true program =
    php_handlebars_try compile_exception (o.print program) λ tmp. ok (some (string tmp))
print_or_convert o false program = ok (some (program_to_zval o program))

module _ {Ast : Type 0} (l : Library Ast Program) (o : Opcodes) where
  unfoldable pub compile_ast : Bool → Compiler → Ast → Outcome (Option Tree)
  unfolding print_or_convert
  compile_ast print compiler ast =
      php_handlebars_try compile_exception (l.compile compiler ast) (print_or_convert o print)

  unfoldable pub compile_source : Bool → Compiler → Flags → Text → Outcome (Option Tree)
  unfolding compile_ast
  compile_source print compiler flags tmpl_str =
      php_handlebars_try compile_exception (l.parse tmpl_str flags) (compile_ast print compiler)

  -- The delimiters are preprocessed under the compatibility flag.
  unfoldable pub compile_template : Bool → Compiler → Flags → Text → Outcome (Option Tree)
  unfolding preprocess compile_source
  compile_template print compiler flags tmpl =
      php_handlebars_try compile_exception (preprocess l flags tmpl)
        (compile_source print compiler flags)

  unfoldable pub compile : Bool → Text → Option Zval → Outcome (Option Tree)
  unfolding process_options deref_options compile_template
  compile print tmpl options =
      php_handlebars_try runtime_exception
        (process_options (new_compiler l) none (deref_options options))
        λ p. compile_template print p.compiler p.flags tmpl
