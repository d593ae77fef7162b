-- ===== src/Methods.antt =====
-- The static methods of `Handlebars\Tokenizer`, `Handlebars\Parser` and `Handlebars\Compiler`, with
-- the return types that their argument information declares in src/tokenizer.c, src/parser.c and
-- src/compiler.c.
pub mod ReturnTypes
use php_handlebars.Base.{Bool, true, false, Option, Text}
use php_handlebars.Zend.{Zval}
use php_handlebars.Zend.Outcome.{Outcome}
use php_handlebars.Zend.Tree.{Tree, ClassEntry}
use php_handlebars.Libhandlebars.{Library}
use php_handlebars.Tokenizer.{Lexer, lex}
use php_handlebars.Parser.{Ast}
use php_handlebars.Parser.Method.{parse}
use php_handlebars.Compiler.{Program, Opcodes}
use php_handlebars.Compiler.Method.{compile}

pub data StaticMethod : Type 0 where
  tokenizer_lex tokenizer_lex_print : StaticMethod
  parser_parse parser_parse_print : StaticMethod
  compiler_compile compiler_compile_print : StaticMethod

-- `IS_ARRAY`, `IS_STRING` and so on, as far as they are needed; an object's type is its class.
pub data ReturnType : Type 0 where
  is_array is_string other : ReturnType
  is_object : ClassEntry → ReturnType

-- `ZEND_BEGIN_ARG_WITH_RETURN_TYPE_INFO_EX` of each class: for the method, and for its twin that
-- prints.
abbrev pub tokenizer_arginfo : Bool → ReturnType
tokenizer_arginfo false = is_array
tokenizer_arginfo true = is_string

abbrev pub parser_arginfo : Bool → ReturnType
parser_arginfo false = is_array
parser_arginfo true = is_string

abbrev pub compiler_arginfo : Bool → ReturnType
compiler_arginfo false = is_array
compiler_arginfo true = is_string

abbrev pub declared : StaticMethod → ReturnType
declared tokenizer_lex = tokenizer_arginfo false
declared tokenizer_lex_print = tokenizer_arginfo true
declared parser_parse = parser_arginfo false
declared parser_parse_print = parser_arginfo true
declared compiler_compile = compiler_arginfo false
declared compiler_compile_print = compiler_arginfo true

-- The type tag of a value.
abbrev pub type_of : Tree → ReturnType
type_of (Tree.array _) = is_array
type_of (Tree.string _) = is_string
type_of (Tree.object ce _) = is_object ce
type_of _ = other

module _ {Token Syntax : Type 0} (x : Lexer Token) (a : Ast) (l : Library Syntax Program)
    (o : Opcodes) where
  -- A call of the method; the options are for the compiler only.
  abbrev pub call : StaticMethod → Text → Option Zval → Outcome (Option Tree)
  call tokenizer_lex tmpl options = lex x false tmpl
  call tokenizer_lex_print tmpl options = lex x true tmpl
  call parser_parse tmpl options = parse a false tmpl
  call parser_parse_print tmpl options = parse a true tmpl
  call compiler_compile tmpl options = compile l o false tmpl options
  call compiler_compile_print tmpl options = compile l o true tmpl options
