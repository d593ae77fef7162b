-- ===== src/Parser.antt =====
-- src/parser.c: the class `Handlebars\Parser`. Here are libhandlebars's syntax trees, as far as the
-- extension reads them, with the pointers that may be NULL; the modules below convert them and run
-- the parser.
pub mod ToZval
pub mod Method
use php_handlebars.Base.{Bool, Option, Text}
use php_handlebars.Zend.{ℤ}
use php_handlebars.Libhandlebars.{LibResult}

-- `node->type`
pub data NodeType : Type 0 where
  program_type mustache_type sexpr_type partial_type raw_block_type block_type : NodeType
  content_type hash_type hash_pair_type path_type string_type number_type : NodeType
  boolean_type nul_type undefined_type comment_type path_segment_type : NodeType
  intermediate_type inverse_type nil_type partial_block_type : NodeType

-- The flags of a `node->strip` that is not 0; other bits of it may be set, too.
pub record Strip : Type 0 where
  pub left : Bool
  pub right : Bool
  pub open_standalone : Bool
  pub close_standalone : Bool
  pub inline_standalone : Bool
  pub left_stripped : Bool
  pub right_stripped : Bool

-- `struct handlebars_locinfo`
pub record Locinfo : Type 0 where
  pub first_line : ℤ
  pub first_column : ℤ
  pub last_line : ℤ
  pub last_column : ℤ

-- `struct handlebars_ast_node_literal`
pub record Literal : Type 0 where
  pub literal_value : Option Text
  pub original : Option Text

-- `open_strip`, `inverse_strip` and `close_strip` of a block
pub record BlockStrips : Type 0 where
  pub open_strip : ℤ
  pub inverse_strip : ℤ
  pub close_strip : ℤ

-- A head is what `handlebars_ast_node_get_path`, `_get_params` and `_get_hash` return. A block has
-- two more bits: whether the words of the union are set that its `raw_block.program` and
-- `raw_block.inverse` read, which the conversion tests.
mutual
  pub data Node : Type 0 where
    node : Kind → Option Strip → Locinfo → Node

  pub data NodePtr : Type 0 where
    null_node : NodePtr
    at : Node → NodePtr

  pub data ListPtr : Type 0 where
    null_list : ListPtr
    list : NodeList → ListPtr

  pub data NodeList : Type 0 where
    no_items : NodeList
    item : NodePtr → NodeList → NodeList

  pub data Head : Type 0 where
    head : NodePtr → ListPtr → NodePtr → Head

  pub data Kind : Type 0 where
    program : ListPtr → ℤ → Option Text → Option Text → Kind
    mustache : Head → ℤ → Kind
    sexpr partial : Head → Kind
    raw_block : Head → NodePtr → NodePtr → BlockStrips → Kind
    block : Head → Bool → Bool → NodePtr → NodePtr → BlockStrips → Kind
    content string number boolean nul undefined : Literal → Kind
    hash : ListPtr → Kind
    hash_pair : Option Text → NodePtr → Kind
    path : ListPtr → Option Text → ℤ → ℤ → ℤ → Kind
    comment : Option Text → Kind
    path_segment : Option Text → Option Text → Option Text → Kind
    intermediate inverse nil partial_block : Kind

abbrev pub type_of : Kind → NodeType
type_of (program _ _ _ _) = program_type
type_of (mustache _ _) = mustache_type
type_of (sexpr _) = sexpr_type
type_of (partial _) = partial_type
type_of (raw_block _ _ _ _) = raw_block_type
type_of (block _ _ _ _ _ _) = block_type
type_of (content _) = content_type
type_of (string _) = string_type
type_of (number _) = number_type
type_of (boolean _) = boolean_type
type_of (nul _) = nul_type
type_of (undefined _) = undefined_type
type_of (hash _) = hash_type
type_of (hash_pair _ _) = hash_pair_type
type_of (path _ _ _ _ _) = path_type
type_of (comment _) = comment_type
type_of (path_segment _ _ _) = path_segment_type
type_of intermediate = intermediate_type
type_of inverse = inverse_type
type_of nil = nil_type
type_of partial_block = partial_block_type

-- What the extension calls of libhandlebars: the parser, without flags and to a tree or NULL, the
-- printer of trees, and the names of the types.
pub record Ast : Type 0 where
  pub parse_ex : Text → LibResult NodePtr
  pub print : NodePtr → LibResult Text
  pub readable_type : NodeType → Text
