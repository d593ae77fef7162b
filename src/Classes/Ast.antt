-- ===== src/Classes/Ast.antt =====
-- The tables of methods of the classes around the compiler, in src/compiler.c, src/parser.c,
-- src/tokenizer.c, src/opcode.c, src/program.c and src/token.c.
use php_handlebars.Base.{false, List, [], ◌∷◌, lit}
use php_handlebars.Classes.ArgInfo.{
  string_type, long_type, array_type, ArgInfo, Parameters, parses, MethodEntry, arg_info,
  return_type_info, typed, nullable, method, static_method,
}

abbrev pub compile_arginfo : ArgInfo
compile_arginfo =
    return_type_info 1 array_type false
      (typed (lit "tmpl") string_type ∷ nullable (lit "options") array_type ∷ [])

abbrev pub compile_print_arginfo : ArgInfo
compile_print_arginfo =
    return_type_info 1 string_type false
      (typed (lit "tmpl") string_type ∷ nullable (lit "options") array_type ∷ [])

abbrev pub compile_parameters : Parameters
compile_parameters = parses 1 2

-- `HandlebarsCompiler_methods`
abbrev pub compiler_methods : List MethodEntry
compiler_methods =
    static_method (lit "compile") compile_arginfo compile_parameters
    ∷ static_method (lit "compilePrint") compile_print_arginfo compile_parameters
    ∷ []

abbrev pub parse_arginfo : ArgInfo
parse_arginfo = return_type_info 1 array_type false (typed (lit "tmpl") string_type ∷ [])

abbrev pub parse_print_arginfo : ArgInfo
parse_print_arginfo = return_type_info 1 string_type false (typed (lit "tmpl") string_type ∷ [])

abbrev pub parse_parameters : Parameters
parse_parameters = parses 1 1

-- `HandlebarsParser_methods`
abbrev pub parser_methods : List MethodEntry
parser_methods =
    static_method (lit "parse") parse_arginfo parse_parameters
    ∷ static_method (lit "parsePrint") parse_print_arginfo parse_parameters
    ∷ []

abbrev pub lex_arginfo : ArgInfo
lex_arginfo = return_type_info 1 array_type false (typed (lit "tmpl") string_type ∷ [])

abbrev pub lex_print_arginfo : ArgInfo
lex_print_arginfo = return_type_info 1 string_type false (typed (lit "tmpl") string_type ∷ [])

abbrev pub lex_parameters : Parameters
lex_parameters = parses 1 1

-- `HandlebarsTokenizer_methods`
abbrev pub tokenizer_methods : List MethodEntry
tokenizer_methods =
    static_method (lit "lex") lex_arginfo lex_parameters
    ∷ static_method (lit "lexPrint") lex_print_arginfo lex_parameters
    ∷ []

abbrev pub opcode_construct_arginfo : ArgInfo
opcode_construct_arginfo =
    arg_info 2 (typed (lit "opcode") string_type ∷ typed (lit "args") array_type ∷ [])

abbrev pub opcode_construct_parameters : Parameters
opcode_construct_parameters = parses 2 2

-- `HandlebarsOpcode_methods`
abbrev pub opcode_methods : List MethodEntry
opcode_methods =
    method (lit "__construct") opcode_construct_arginfo opcode_construct_parameters ∷ []

abbrev pub program_construct_arginfo : ArgInfo
program_construct_arginfo = arg_info 2 (
    typed (lit "opcodes") array_type
    ∷ typed (lit "children") array_type
    ∷ typed (lit "blockParams") long_type
    ∷ [])

abbrev pub program_construct_parameters : Parameters
program_construct_parameters = parses 3 3

-- `HandlebarsProgram_methods`
abbrev pub program_methods : List MethodEntry
program_methods =
    method (lit "__construct") program_construct_arginfo program_construct_parameters ∷ []

abbrev pub token_construct_arginfo : ArgInfo
token_construct_arginfo =
    arg_info 2 (typed (lit "name") string_type ∷ typed (lit "text") string_type ∷ [])

abbrev pub token_construct_parameters : Parameters
token_construct_parameters = parses 2 2

-- `HandlebarsToken_methods`
abbrev pub token_methods : List MethodEntry
token_methods = method (lit "__construct") token_construct_arginfo token_construct_parameters ∷ []
