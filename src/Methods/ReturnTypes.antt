-- ===== src/Methods/ReturnTypes.antt =====
-- What the static methods return, beside what they declare.
use php_handlebars.Base.{Bool, if◌then◌else◌, ◌≡◌, true, false, [], Option, none, some, Text, arith}
use php_handlebars.Zend.{Zval}
use php_handlebars.Zend.Outcome.{ExceptionClass, Outcome, ok, compile_exception, runtime_exception}
use php_handlebars.Zend.Tree.{Tree, program_class}
use php_handlebars.Libhandlebars.{Library, LibResult, php_handlebars_try}
use php_handlebars.Vm.ProcessOptions.{process_options}
use php_handlebars.Vm.Compile.{new_compiler, preprocess}
use php_handlebars.Vm.Compile.Stages.{try-some}
use php_handlebars.Tokenizer.{Lexer, print_tokens, lex_result, lex}
use php_handlebars.Parser.{Ast, NodePtr, null_node, at}
use php_handlebars.Parser.ToZval.{ast_to_zval}
use php_handlebars.Parser.Method.{parse_result, parse}
use php_handlebars.Compiler.{Program, handlebars_program, Opcodes}
use php_handlebars.Compiler.ToZval.{program_to_zval}
use php_handlebars.Compiler.Method.{
  deref_options, print_or_convert, compile_ast, compile_source, compile_template, compile,
}
use php_handlebars.Methods.{
  StaticMethod, tokenizer_lex, tokenizer_lex_print, parser_parse, parser_parse_print,
  compiler_compile, compiler_compile_print, ReturnType, is_array, is_string, is_object, declared,
  type_of, call,
}

-- The type that a method returns: the declared one, but for `Compiler::compile`.
abbrev pub returned : StaticMethod → ReturnType
returned compiler_compile = is_object program_class
returned m = declared m

-- What every value has that can follow, the whole returns.
try-keeps {ℓ} :
    {A : Type ℓ} (τ : ReturnType) (ce : ExceptionClass) (r : LibResult A)
    (k : A → Outcome (Option Tree)) (t : Tree)
    → ((a : A) → k a ≡ ok (some t) → type_of t ≡ τ)
    → php_handlebars_try ce r k ≡ ok (some t)
    → type_of t ≡ τ
try-keeps τ ce r k t later h = let (a, returned_a, rest) = try-some ce r k h in later a rest

module _ {Syntax : Type 0} (l : Library Syntax Program) (o : Opcodes) where
  print_or_convert-type :
      (print : Bool) (p : Program) (t : Tree)
      → print_or_convert o print p ≡ ok (some t)
      → type_of t ≡ (if print then is_string else is_object program_class)
  unfolding print_or_convert program_to_zval
  print_or_convert-type true p t h =
      try-keeps is_string compile_exception (o.print p) _ t (λ s k. ground arith) h
  print_or_convert-type false (handlebars_program _ _ _ _ _ _) t h = ground arith

  compile-type :
      (print : Bool) (tmpl : Text) (options : Option Zval) (t : Tree)
      → compile l o print tmpl options ≡ ok (some t)
      → type_of t ≡ (if print then is_string else is_object program_class)
  unfolding compile compile_template compile_source compile_ast
  compile-type print tmpl options t =
      let τ = if print then is_string else is_object program_class in
      try-keeps τ runtime_exception (process_options (new_compiler l) none (deref_options options))
        (λ p. compile_template l o print p.compiler p.flags tmpl) t
        λ p.
          try-keeps τ compile_exception (preprocess l p.flags tmpl)
            (compile_source l o print p.compiler p.flags) t
            λ source.
              try-keeps τ compile_exception (l.parse source p.flags)
                (compile_ast l o print p.compiler) t
                λ ast.
                  try-keeps τ compile_exception (l.compile p.compiler ast)
                    (print_or_convert o print) t λ program. print_or_convert-type print program t

module _ {Token Syntax : Type 0} (x : Lexer Token) (a : Ast) (l : Library Syntax Program)
    (o : Opcodes) where
  parsed-type :
      {t : Tree} (ast : NodePtr) → parse_result a false ast ≡ ok (some t) → type_of t ≡ is_array
  unfolding parse_result ast_to_zval
  parsed-type null_node h = ground arith
  parsed-type (at n) h = ground arith

  -- Whatever static method of the compiler, the parser and the tokenizer returns a value, its type is
  -- the declared one, except that `Compiler::compile`, which declares an array, returns an object of `Handlebars\Program`.
  pub type_of-call :
      (m : StaticMethod) (tmpl : Text) (options : Option Zval) (t : Tree)
      → call x a l o m tmpl options ≡ ok (some t)
      → type_of t ≡ returned m
  unfolding lex lex_result parse parse_result ast_to_zval
  type_of-call tokenizer_lex tmpl options t =
      try-keeps is_array compile_exception (x.lex_ex tmpl) (lex_result x false) t
        λ tokens h. ground arith
  type_of-call tokenizer_lex_print tmpl options t =
      try-keeps is_string compile_exception (x.lex_ex tmpl) (lex_result x true) t λ tokens.
        try-keeps is_string runtime_exception (print_tokens x tokens []) _ t
          λ output h. ground arith
  type_of-call parser_parse tmpl options t =
      try-keeps is_array compile_exception (a.parse_ex tmpl) (parse_result a false) t parsed-type
  type_of-call parser_parse_print tmpl options t =
      try-keeps is_string compile_exception (a.parse_ex tmpl) (parse_result a true) t
        λ ast. try-keeps is_string runtime_exception (a.print ast) _ t λ output h. ground arith
  type_of-call compiler_compile tmpl options t = compile-type l o false tmpl options t
  type_of-call compiler_compile_print tmpl options t = compile-type l o true tmpl options t
