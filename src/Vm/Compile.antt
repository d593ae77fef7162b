-- ===== src/Vm/Compile.antt =====
-- `compile` of src/vm.c, and the method `Handlebars\VM::compile` over it.
pub mod Stages
use php_handlebars.Base.{
  ℕ, Bool, true, false, ◌||◌, Option, none, some, List, [], ◌∷◌, Text, if◌then◌else◌,
}
use php_handlebars.Zend.{Zval}
use php_handlebars.Zend.Outcome.{Outcome, ok, ◌>>=◌, runtime_exception, compile_exception}
use php_handlebars.Libhandlebars.{
  CompilerFlag, compat, Flags, LibResult, returns, Compiler, Vm, Library, php_handlebars_try,
}
use php_handlebars.Vm.KnownHelpers.{StringArray, fetch_known_helpers}
use php_handlebars.Vm.ProcessOptions.{Processed, process_options}
use php_handlebars.Vm.Binary.{pack_module}

-- `flags & handlebars_compiler_flag_compat`
unfoldable pub has_compat : Flags → Bool
has_compat [] = false
has_compat (compat ∷ flags) = true
has_compat (f ∷ flags) = has_compat flags

pub record Compiled : Type 0 where
  pub bytes : Text
  pub vm : Option Vm

-- `if( vm && helpers )`: the keys of the helpers are given by each of the two iterations over them.
unfoldable pub add_helpers :
    Option Vm → Option (List (Option Text) × List (Option Text)) → Compiler → Outcome Compiler
add_helpers none helpers compiler = ok compiler
add_helpers (some vm) none compiler = ok compiler
add_helpers (some vm) (some (counted, copied)) compiler = do
  a ← fetch_known_helpers compiler.known_helpers counted copied
  ok (record compiler { known_helpers = some a.strings })

module _ {Ast Program : Type 0} (l : Library Ast Program) where
  -- `handlebars_compiler_ctor`
  abbrev pub new_compiler : Compiler
  new_compiler = record { flags = []; known_helpers = some l.builtins }

  unfoldable pub preprocess : Flags → Text → LibResult Text
  unfolding has_compat
  preprocess flags tmpl = if has_compat flags then l.preprocess_delimiters tmpl else returns tmpl

  -- What follows the options, stage by stage; each throws what was last said to `php_handlebars_try`.
  unfoldable pub serialize_program : Option Vm → Program → Outcome (Option Compiled)
  unfolding php_handlebars_try
  serialize_program vm program =
      php_handlebars_try compile_exception (l.serialize program)
        λ bytes. ok (some (record { bytes = bytes; vm = vm }))

  unfoldable pub compile_ast : Compiler → Option Vm → Ast → Outcome (Option Compiled)
  unfolding serialize_program
  compile_ast compiler vm ast =
      php_handlebars_try compile_exception (l.compile compiler ast) (serialize_program vm)

  unfoldable pub compile_source : Compiler → Option Vm → Text → Outcome (Option Compiled)
  unfolding compile_ast
  compile_source compiler vm source =
      php_handlebars_try compile_exception (l.parse source compiler.flags) (compile_ast compiler vm)

  unfoldable pub compile_template : Compiler → Option Vm → Text → Outcome (Option Compiled)
  unfolding preprocess compile_source
  compile_template compiler vm tmpl =
      php_handlebars_try runtime_exception (preprocess compiler.flags tmpl)
        (compile_source compiler vm)

  unfoldable pub compile :
      Option Vm
      → Text
      → Option (List (Option Text) × List (Option Text))
      → Option Zval
      → Outcome (Option Compiled)
  unfolding process_options add_helpers compile_template
  compile vm tmpl helpers z_options =
      php_handlebars_try runtime_exception (process_options new_compiler vm z_options)
        λ p. do compiler ← add_helpers p.vm helpers p.compiler; compile_template compiler p.vm tmpl

  unfoldable pub packed : Option Compiled → Option Text
  packed none = none
  packed (some c) = some (pack_module l c.bytes)

  -- `Handlebars\VM::compile`: a binary string, or none where the method returns null.
  unfoldable pub vm_compile : Text → Option Zval → Outcome (Option Text)
  unfolding compile packed
  vm_compile tmpl z_options = do c ← compile none tmpl none z_options; ok (packed c)
