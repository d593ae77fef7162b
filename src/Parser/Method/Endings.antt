-- ===== src/Parser/Method/Endings.antt =====
-- How the methods of src/parser.c end.
use php_handlebars.Base.{◌≡◌, refl, ap, ◌⊎◌, inl, inr, Bool, true, false, some, Text, arith}
use php_handlebars.Zend.Outcome.{ok, throw, Exception, runtime_exception, compile_exception}
use php_handlebars.Zend.Tree.{Tree, array, end}
use php_handlebars.Zend.Tree.Fields.{entries_of}
use php_handlebars.Libhandlebars.{LibError, returns, raises}
use php_handlebars.Vm.Compile.Stages.{try-some, try-throw}
use php_handlebars.Parser.{NodePtr, null_node, at, Ast}
use php_handlebars.Parser.ToZval.{ast_to_zval}
use php_handlebars.Parser.ToZval.Fields.{node_fields}
use php_handlebars.Parser.ToZval.Fields.Added.{node_to_zval-fields}
use php_handlebars.Parser.Method.{parse_result, parse}

module _ (a : Ast) where
  -- The array of what the parser returned.
  abbrev pub ast_value : NodePtr → Tree
  ast_value null_node = array end
  ast_value (at n) = array (entries_of (node_fields a.readable_type n))

  ast_to_zval-value : (ast : NodePtr) → ast_to_zval a.readable_type ast ≡ ast_value ast
  unfolding ast_to_zval
  ast_to_zval-value null_node = refl
  ast_to_zval-value (at n) = ap array (node_to_zval-fields a.readable_type n)

  -- `parse` returns the array of the fields of the tree that libhandlebars parsed, or an empty array
  -- for no tree.
  pub parse-ast :
      (tmpl : Text) (t : Tree)
      → parse a false tmpl ≡ ok (some t)
      → (ast : NodePtr) × (a.parse_ex tmpl ≡ returns ast) × (t ≡ ast_value ast)
  unfolding parse parse_result
  parse-ast tmpl t h =
      let (ast, parsed, h1) =
        try-some compile_exception (a.parse_ex tmpl) (parse_result a false) h in
      (ast, parsed, ground (arith, ast_to_zval-value ast))

  -- `parse` and `parsePrint` throw a compile exception only for what libhandlebars refuses to parse,
  -- and a runtime exception only in `parsePrint`, for a tree whose printing fails.
  pub parse-throw :
      (print : Bool) (tmpl : Text) (y : Exception)
      → parse a print tmpl ≡ throw y
      → ((e : LibError) × (a.parse_ex tmpl ≡ raises e) × (y.class_entry ≡ compile_exception))
        ⊎ ((ast : NodePtr) × (e : LibError) × (a.parse_ex tmpl ≡ returns ast)
            × (a.print ast ≡ raises e)
            × (print ≡ true)
            × (y.class_entry ≡ runtime_exception))
  unfolding parse parse_result
  parse-throw true tmpl y h =
      elim (try-throw compile_exception (a.parse_ex tmpl) (parse_result a true) h) [
        | inl raised ↦ inl raised
        | inr (ast, parsed, later) ↦ elim (try-throw runtime_exception (a.print ast) _ later) [
          | inl (e, raised, class_entry) ↦ inr (ast, e, parsed, raised, refl, class_entry)
          | inr (output, printed, k) ↦ ground arith
        ]
      ]
  parse-throw false tmpl y h =
      elim (try-throw compile_exception (a.parse_ex tmpl) (parse_result a false) h) [
        | inl raised ↦ inl raised
        | inr (ast, parsed, later) ↦ ground arith
      ]
