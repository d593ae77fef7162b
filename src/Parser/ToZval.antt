-- ===== src/Parser/ToZval.antt =====
-- The conversion of syntax trees to PHP arrays in src/parser.c.
pub mod Fields
use php_handlebars.Base.{Bool, true, false, Option, none, some, Text, lit, if◌then◌else◌}
use php_handlebars.Zend.{ℤ}
use php_handlebars.Zend.Tree.{Tree, Entries, end, bool, long, array, add_assoc, add_next}
use php_handlebars.Parser.{
  NodeType, partial_type, Strip, Locinfo, Literal, BlockStrips, Node, node, NodePtr, null_node, at,
  ListPtr, null_list, list, NodeList, no_items, item, Head, head, Kind, program, mustache, sexpr,
  partial, raw_block, block, content, number, boolean, nul, undefined, hash, hash_pair, path,
  comment, path_segment, intermediate, inverse, nil, partial_block, type_of,
}

-- `add_assoc_stringl_ex` for a string that may be NULL
unfoldable pub add_assoc_string : Text → Option Text → Entries → Entries
add_assoc_string key none current = current
add_assoc_string key (some s) current = add_assoc key (Tree.string s) current

unfoldable pub strip_to_zval : Strip → Entries
strip_to_zval strip =
    let e1 = add_assoc (lit "left") (bool strip.left) end in
    let e2 = add_assoc (lit "right") (bool strip.right) e1 in
    let e3 = add_assoc (lit "openStandalone") (bool strip.open_standalone) e2 in
    let e4 = add_assoc (lit "closeStandalone") (bool strip.close_standalone) e3 in
    let e5 = add_assoc (lit "inlineStandalone") (bool strip.inline_standalone) e4 in
    let e6 = add_assoc (lit "leftStripped") (bool strip.left_stripped) e5 in
    add_assoc (lit "rightStriped") (bool strip.right_stripped) e6

unfoldable pub add_strip : Option Strip → Entries → Entries
unfolding strip_to_zval
add_strip none current = current
add_strip (some strip) current = add_assoc (lit "strip") (array (strip_to_zval strip)) current

unfoldable pub loc_to_zval : Locinfo → Entries
loc_to_zval locinfo =
    let start1 = add_assoc (lit "line") (long locinfo.first_line) end in
    let start2 = add_assoc (lit "column") (long locinfo.first_column) start1 in
    let end1 = add_assoc (lit "line") (long locinfo.last_line) end in
    let end2 = add_assoc (lit "column") (long locinfo.last_column) end1 in
    add_assoc (lit "end") (array end2) (add_assoc (lit "start") (array start2) end)

unfoldable pub add_literal : Literal → Entries → Entries
unfolding add_assoc_string
add_literal literal current =
    add_assoc_string (lit "original") literal.original
      (add_assoc_string (lit "value") literal.literal_value current)

unfoldable pub add_block_strips : BlockStrips → Entries → Entries
add_block_strips strips current =
    let e1 = add_assoc (lit "open_strip") (long strips.open_strip) current in
    let e2 = add_assoc (lit "inverse_strip") (long strips.inverse_strip) e1 in
    add_assoc (lit "close_strip") (long strips.close_strip) e2

-- The path's key: a partial has its name there.
unfoldable pub path_key : NodeType → Text
path_key partial_type = lit "name"
path_key _ = lit "path"

unfoldable mutual
  unfolding add_assoc_string add_strip loc_to_zval add_literal add_block_strips path_key

  pub node_to_zval : (NodeType → Text) → Node → Entries
  node_to_zval readable (node kind strip loc) =
      let e1 = add_assoc (lit "type") (Tree.string (readable (type_of kind))) end in
      let e2 = add_strip strip e1 in
      kind_to_zval readable kind (add_assoc (lit "loc") (array (loc_to_zval loc)) e2)

  pub add_assoc_node : (NodeType → Text) → Text → NodePtr → Entries → Entries
  add_assoc_node readable key null_node current = current
  add_assoc_node readable key (at n) current =
      add_assoc key (array (node_to_zval readable n)) current

  pub add_assoc_list : (NodeType → Text) → Text → ListPtr → Entries → Entries
  add_assoc_list readable key null_list current = current
  add_assoc_list readable key (list items) current =
      add_assoc key (array (list_to_zval readable items end)) current

  pub add_next_node : (NodeType → Text) → NodePtr → Entries → Entries
  add_next_node readable null_node current = current
  add_next_node readable (at n) current = add_next (array (node_to_zval readable n)) current

  pub list_to_zval : (NodeType → Text) → NodeList → Entries → Entries
  list_to_zval readable no_items current = current
  list_to_zval readable (item data_node items) current =
      list_to_zval readable items (add_next_node readable data_node current)

  pub add_path_params_hash : (NodeType → Text) → NodeType → Head → Entries → Entries
  add_path_params_hash readable type (head p params h) current =
      let e1 = add_assoc_node readable (path_key type) p current in
      let e2 = add_assoc_list readable (lit "params") params e1 in
      add_assoc_node readable (lit "hash") h e2

  -- The `switch` over the type.
  pub kind_to_zval : (NodeType → Text) → Kind → Entries → Entries
  kind_to_zval readable (program statements chained param1 param2) current =
      let e1 = add_assoc_list readable (lit "statements") statements current in
      let e2 = add_assoc (lit "chained") (long chained) e1 in
      let e3 = add_assoc_string (lit "block_param1") param1 e2 in
      add_assoc_string (lit "block_param2") param2 e3
  kind_to_zval readable (mustache h unescaped) current =
      let e1 = add_path_params_hash readable NodeType.mustache_type h current in
      add_assoc (lit "unescaped") (long unescaped) e1
  kind_to_zval readable (sexpr h) current =
      add_path_params_hash readable NodeType.sexpr_type h current
  kind_to_zval readable (partial h) current = add_path_params_hash readable partial_type h current
  kind_to_zval readable (raw_block h p i strips) current =
      let e1 = add_path_params_hash readable NodeType.raw_block_type h current in
      let e2 = add_assoc_node readable (lit "program") p e1 in
      let e3 = add_assoc_node readable (lit "inverse") i e2 in add_block_strips strips e3
  kind_to_zval readable (block h raw_program raw_inverse p i strips) current =
      let e1 = add_path_params_hash readable NodeType.block_type h current in
      let e2 = add_assoc_node readable (lit "program") p e1 in
      let e3 = if raw_program then e2 else e1 in
      let e4 = add_assoc_node readable (lit "inverse") i e3 in
      add_block_strips strips (if raw_inverse then e4 else e3)
  kind_to_zval readable (content literal) current = add_literal literal current
  kind_to_zval readable (hash pairs) current = add_assoc_list readable (lit "pairs") pairs current
  kind_to_zval readable (hash_pair key v) current =
      add_assoc_node readable (lit "value") v (add_assoc_string (lit "key") key current)
  kind_to_zval readable (path parts original depth is_data falsy) current =
      let e1 = add_assoc_list readable (lit "parts") parts current in
      let e2 = add_assoc_string (lit "original") original e1 in
      let e3 = add_assoc (lit "depth") (long depth) e2 in
      let e4 = add_assoc (lit "data") (long is_data) e3 in add_assoc (lit "falsy") (long falsy) e4
  kind_to_zval readable (Kind.string literal) current = add_literal literal current
  kind_to_zval readable (number literal) current = add_literal literal current
  kind_to_zval readable (boolean literal) current = add_literal literal current
  kind_to_zval readable (nul literal) current = add_literal literal current
  kind_to_zval readable (undefined literal) current = add_literal literal current
  kind_to_zval readable (comment text) current = add_assoc_string (lit "value") text current
  kind_to_zval readable (path_segment separator part original) current =
      let e1 = add_assoc_string (lit "separator") separator current in
      let e2 = add_assoc_string (lit "part") part e1 in
      add_assoc_string (lit "original") original e2
  kind_to_zval readable intermediate current = current
  kind_to_zval readable inverse current = current
  kind_to_zval readable nil current = current
  kind_to_zval readable partial_block current = current

-- `php_handlebars_ast_node_to_zval` of a pointer: NULL is an empty array.
unfoldable pub ast_to_zval : (NodeType → Text) → NodePtr → Tree
unfolding node_to_zval
ast_to_zval readable null_node = array end
ast_to_zval readable (at n) = array (node_to_zval readable n)
