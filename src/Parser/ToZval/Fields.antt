-- ===== src/Parser/ToZval/Fields.antt =====
-- The fields of the arrays that src/parser.c makes of the nodes of a syntax tree.
pub mod Added
use php_handlebars.Base.{
  ◌≡◌, refl, ap, ◌∙◌, sym, Bool, true, false, Option, none, some, List, [], ◌∷◌, ◌++◌, Text, lit,
  arith, append_assoc, append-nil, if◌then◌else◌,
}
use php_handlebars.Zend.{ℤ, name}
use php_handlebars.Zend.Tree.{Tree, Entries, end, entry, bool, long, array, add_next}
use php_handlebars.Zend.Tree.Lists.{list_entries, add_next-list}
use php_handlebars.Zend.Tree.Fields.{Field, entries_of, add_field, adds, fits, adds-entries}
use php_handlebars.Parser.{
  NodeType, mustache_type, sexpr_type, partial_type, raw_block_type, block_type, Strip, Locinfo,
  Literal, BlockStrips, Node, node, NodePtr, null_node, at, ListPtr, null_list, list, NodeList,
  no_items, item, Head, head, Kind, program, mustache, sexpr, partial, raw_block, block, content,
  number, boolean, nul, undefined, hash, hash_pair, path, comment, path_segment, intermediate,
  inverse, nil, partial_block, type_of,
}
use php_handlebars.Parser.ToZval.{
  add_assoc_string, strip_to_zval, add_strip, loc_to_zval, add_literal, add_block_strips, path_key,
  node_to_zval, add_assoc_node, add_assoc_list, list_to_zval, add_path_params_hash, kind_to_zval,
}

abbrev pub string_value : Option Text → Option Tree
string_value none = none
string_value (some s) = some (Tree.string s)

abbrev pub long_value : ℤ → Option Tree
long_value n = some (long n)

abbrev pub loc_value : Locinfo → Option Tree
loc_value loc = some (
    array (
      entry (name (lit "start"))
        (array (
          entry (name (lit "line")) (long loc.first_line)
            (entry (name (lit "column")) (long loc.first_column) end)))
        (entry (name (lit "end"))
          (array (
            entry (name (lit "line")) (long loc.last_line)
              (entry (name (lit "column")) (long loc.last_column) end)))
          end)))

abbrev pub strip_value : Option Strip → Option Tree
strip_value none = none
strip_value (some s) = some (
    array (
      entry (name (lit "left")) (bool s.left) (
        entry (name (lit "right")) (bool s.right) (
          entry (name (lit "openStandalone")) (bool s.open_standalone) (
            entry (name (lit "closeStandalone")) (bool s.close_standalone) (
              entry (name (lit "inlineStandalone")) (bool s.inline_standalone) (
                entry (name (lit "leftStripped")) (bool s.left_stripped)
                  (entry (name (lit "rightStriped")) (bool s.right_stripped) end))))))))

abbrev pub literal_fields : Literal → List Field
literal_fields l =
    (lit "value", string_value l.literal_value) ∷ (lit "original", string_value l.original) ∷ []

abbrev pub strip_fields : BlockStrips → List Field
strip_fields s =
    (lit "open_strip", long_value s.open_strip)
    ∷ (lit "inverse_strip", long_value s.inverse_strip)
    ∷ (lit "close_strip", long_value s.close_strip)
    ∷ []

module _ (readable : NodeType → Text) where
  -- The value of a field that holds a node, a list of nodes or a string: none where it is NULL.
  abbrev pub node_value : NodePtr → Option Tree
  node_value null_node = none
  node_value (at n) = some (array (node_to_zval readable n))

  abbrev pub item_values : NodeList → List Tree
  item_values no_items = []
  item_values (item null_node items) = item_values items
  item_values (item (at n) items) = array (node_to_zval readable n) ∷ item_values items

  abbrev pub list_value : ListPtr → Option Tree
  list_value null_list = none
  list_value (list items) = some (array (list_entries 0 (item_values items)))

  abbrev pub head_fields : Text → Head → List Field
  head_fields key (head p params h) =
      (key, node_value p) ∷ (lit "params", list_value params) ∷ (lit "hash", node_value h) ∷ []

  -- The fields of a node by its type.
  abbrev pub kind_fields : Kind → List Field
  kind_fields (program statements chained param1 param2) =
      (lit "statements", list_value statements)
      ∷ (lit "chained", long_value chained)
      ∷ (lit "block_param1", string_value param1)
      ∷ (lit "block_param2", string_value param2)
      ∷ []
  kind_fields (mustache h unescaped) =
      head_fields (lit "path") h ++ (lit "unescaped", long_value unescaped) ∷ []
  kind_fields (sexpr h) = head_fields (lit "path") h
  kind_fields (partial h) = head_fields (lit "name") h
  kind_fields (raw_block h p i strips) =
      head_fields (lit "path") h
      ++ (lit "program", node_value p) ∷ (lit "inverse", node_value i) ∷ strip_fields strips
  kind_fields (block h raw_program raw_inverse p i strips) =
      head_fields (lit "path") h
      ++ (lit "program", (if raw_program then node_value p else none))
        ∷ (lit "inverse", (if raw_inverse then node_value i else none))
        ∷ strip_fields strips
  kind_fields (content l) = literal_fields l
  kind_fields (Kind.string l) = literal_fields l
  kind_fields (number l) = literal_fields l
  kind_fields (boolean l) = literal_fields l
  kind_fields (nul l) = literal_fields l
  kind_fields (undefined l) = literal_fields l
  kind_fields (hash pairs) = (lit "pairs", list_value pairs) ∷ []
  kind_fields (hash_pair key v) = (lit "key", string_value key) ∷ (lit "value", node_value v) ∷ []
  kind_fields (path parts original depth is_data falsy) =
      (lit "parts", list_value parts)
      ∷ (lit "original", string_value original)
      ∷ (lit "depth", long_value depth)
      ∷ (lit "data", long_value is_data)
      ∷ (lit "falsy", long_value falsy)
      ∷ []
  kind_fields (comment text) = (lit "value", string_value text) ∷ []
  kind_fields (path_segment separator part original) =
      (lit "separator", string_value separator)
      ∷ (lit "part", string_value part)
      ∷ (lit "original", string_value original)
      ∷ []
  kind_fields _ = []

  abbrev pub node_fields : Node → List Field
  node_fields (node kind strip loc) =
      (lit "type", some (Tree.string (readable (type_of kind))))
      ∷ (lit "strip", strip_value strip)
      ∷ (lit "loc", loc_value loc)
      ∷ kind_fields kind
