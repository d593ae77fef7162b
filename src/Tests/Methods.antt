-- ===== src/Tests/Methods.antt =====
-- The return types of the static methods, at the small parser, lexer and compiler.
use php_handlebars.Base.{◌≡◌, refl, none, lit}
use php_handlebars.Zend.Tree.{string}
use php_handlebars.Methods.{compiler_compile_print, type_of}
use php_handlebars.Methods.ReturnTypes.{returned, type_of-call}
use php_handlebars.Compiler.Method.{compile}
use php_handlebars.Tests.Parser.{test_lexer, test_ast}
use php_handlebars.Tests.Compiler.{test_compiler, test_opcodes}

type_of-call_example : type_of (string (lit "printed")) ≡ returned compiler_compile_print
unfolding compile
type_of-call_example =
    type_of-call test_lexer test_ast test_compiler test_opcodes compiler_compile_print (lit "hi")
      none (string (lit "printed")) refl
