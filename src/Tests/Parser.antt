-- ===== src/Tests/Parser.antt =====
-- The theorems on src/parser.c and src/tokenizer.c, on small trees and tokens.
use php_handlebars.Base.{
  ℕ, ◌≡◌, true, false, none, some, [], ◌∷◌, ◌++◌, Text, lit, ◌==◌, if◌then◌else◌,
}
use php_handlebars.Zend.{pos}
use php_handlebars.Zend.Tree.Fields.{entries_of}
use php_handlebars.Libhandlebars.{returns}
use php_handlebars.Parser.{
  NodeType, Strip, Locinfo, BlockStrips, Node, node, null_node, at, list, no_items, item, Kind, Ast,
}
use php_handlebars.Parser.ToZval.{node_to_zval}
use php_handlebars.Parser.ToZval.Fields.{node_fields}
use php_handlebars.Parser.ToZval.Fields.Added.{node_to_zval-fields}
use php_handlebars.Tokenizer.{Lexer}

abbrev type_name : NodeType → Text
type_name t = lit "node"

abbrev somewhere : Locinfo
somewhere = record {
  first_line = pos 1;
  first_column = pos 0;
  last_line = pos 1;
  last_column = pos 5;
}

abbrev stripped : Strip
stripped = record {
  left = true;
  right = false;
  open_standalone = false;
  close_standalone = false;
  inline_standalone = false;
  left_stripped = false;
  right_stripped = true;
}

abbrev hi_node : Node
hi_node =
    node (Kind.content (record { literal_value = some (lit "hi"); original = none })) none somewhere

abbrev hi_program : Node
hi_program =
    node
      (Kind.program (list (item (at hi_node) (item null_node no_items))) (pos 0) none
        (some (lit "x")))
      (some stripped) somewhere

abbrev no_strips : BlockStrips
no_strips = record { open_strip = pos 0; inverse_strip = pos 0; close_strip = pos 0 }

abbrev pub test_ast : Ast
test_ast = record {
  parse_ex = λ tmpl. returns (at hi_program);
  print = λ ast. returns (lit "hi");
  readable_type = type_name;
}

-- The tokens are the bytes of the template, without a text for blanks.
abbrev pub test_lexer : Lexer ℕ
test_lexer = record {
  lex_ex = λ tmpl. returns tmpl;
  readable_type = λ c. lit "BYTE";
  get_text = λ c. if c == 32 then none else some (c ∷ []);
  print_append = λ output c. returns (output ++ c ∷ []);
  rtrim = λ s chars. s;
}

node_to_zval-fields_example :
    node_to_zval type_name hi_program ≡ entries_of (node_fields type_name hi_program)
node_to_zval-fields_example = node_to_zval-fields type_name hi_program
