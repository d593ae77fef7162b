-- ===== src/Parser/ToZval/Fields/Added.antt =====
-- The arrays that src/parser.c makes of the nodes of a syntax tree have these fields.
use php_handlebars.Base.{
  ◌≡◌, refl, ap, ◌∙◌, sym, Bool, true, false, Option, none, some, List, [], ◌∷◌, ◌++◌, Text, lit,
  append_assoc, append-nil, if◌then◌else◌,
}
use php_handlebars.Zend.{name}
use php_handlebars.Zend.Tree.{Tree, Entries, find, array}
use php_handlebars.Zend.Tree.Lists.{list_entries, add_next-list}
use php_handlebars.Zend.Tree.Fields.{
  Field, entries_of, add_field, adds, fits, adds-entries, find-entries_of, lookup,
}
use php_handlebars.Parser.{
  NodeType, mustache_type, sexpr_type, partial_type, raw_block_type, block_type, Strip, Locinfo,
  Node, node, NodePtr, null_node, at, ListPtr, null_list, list, NodeList, no_items, item, Head,
  head, Kind, program, mustache, sexpr, partial, raw_block, block, content, number, boolean, nul,
  undefined, hash, hash_pair, path, comment, path_segment, type_of,
}
use php_handlebars.Parser.ToZval.{
  add_assoc_string, strip_to_zval, loc_to_zval, add_literal, add_block_strips, path_key,
  node_to_zval, add_assoc_node, add_assoc_list, list_to_zval, add_path_params_hash, kind_to_zval,
}
use php_handlebars.Parser.ToZval.Fields.{
  node_value, item_values, list_value, string_value, long_value, loc_value, strip_value,
  head_fields, strip_fields, kind_fields, node_fields,
}

module _ (readable : NodeType → Text) where
  node-field :
      (k : Text) (p : NodePtr) (e : Entries)
      → add_assoc_node readable k p e ≡ add_field k (node_value readable p) e
  unfolding node_to_zval
  node-field k null_node e = refl
  node-field k (at n) e = refl

  string-field :
      (k : Text) (s : Option Text) (e : Entries)
      → add_assoc_string k s e ≡ add_field k (string_value s) e
  unfolding add_assoc_string
  string-field k none e = refl
  string-field k (some s) e = refl

  list_to_zval-values :
      (items : NodeList) (vs : List Tree)
      → list_to_zval readable items (list_entries 0 vs)
        ≡ list_entries 0 (vs ++ item_values readable items)
  unfolding node_to_zval
  list_to_zval-values no_items vs = ap (list_entries 0) (sym (append-nil vs))
  list_to_zval-values (item null_node items) vs = list_to_zval-values items vs
  list_to_zval-values (item (at n) items) vs =
      let v = array (node_to_zval readable n) in
      ap (list_to_zval readable items) (add_next-list vs v)
      ∙ list_to_zval-values items (vs ++ v ∷ [])
      ∙ ap (list_entries 0) (append_assoc vs (v ∷ []) (item_values readable items))

  list-field :
      (k : Text) (l : ListPtr) (e : Entries)
      → add_assoc_list readable k l e ≡ add_field k (list_value readable l) e
  unfolding node_to_zval
  list-field k null_list e = refl
  list-field k (list items) e =
      ap (λ b. add_field k (some (array b)) e) (list_to_zval-values items [])

  head-fields :
      (type : NodeType) (h : Head) (e : Entries)
      → add_path_params_hash readable type h e ≡ adds (head_fields readable (path_key type) h) e
  unfolding node_to_zval
  head-fields type (head p params h) e =
      node-field (lit "hash") h _
      ∙ ap (add_field (lit "hash") (node_value readable h)) (
          list-field (lit "params") params _
          ∙ ap (add_field (lit "params") (list_value readable params))
              (node-field (path_key type) p e))

  -- A node that is added under a condition.
  node_if-field :
      (c : Bool) (k : Text) (p : NodePtr) (e : Entries)
      → (if c then add_assoc_node readable k p e else e)
        ≡ add_field k (if c then node_value readable p else none) e
  node_if-field true k p e = node-field k p e
  node_if-field false k p e = refl

  kind_to_zval-fields :
      (kind : Kind) (e : Entries)
      → kind_to_zval readable kind e ≡ adds (kind_fields readable kind) e
  unfolding node_to_zval add_literal add_block_strips path_key
  kind_to_zval-fields (program statements chained param1 param2) e = simp (list-field, string-field)
  kind_to_zval-fields (mustache (head p params h) unescaped) e =
      ap (adds ((lit "unescaped", long_value unescaped) ∷ []))
        (head-fields mustache_type (head p params h) e)
  kind_to_zval-fields (sexpr (head p params h)) e = head-fields sexpr_type (head p params h) e
  kind_to_zval-fields (partial (head p params h)) e = head-fields partial_type (head p params h) e
  kind_to_zval-fields (raw_block (head p params h) q i strips) e = ap (adds (strip_fields strips)) (
      node-field (lit "inverse") i _
      ∙ ap (add_field (lit "inverse") (node_value readable i)) (
          node-field (lit "program") q _
          ∙ ap (add_field (lit "program") (node_value readable q))
              (head-fields raw_block_type (head p params h) e)))
  kind_to_zval-fields (block (head p params h) raw_program raw_inverse q i strips) e =
      ap (adds (strip_fields strips)) (
        node_if-field raw_inverse (lit "inverse") i _
        ∙ ap (add_field (lit "inverse") (if raw_inverse then node_value readable i else none)) (
            node_if-field raw_program (lit "program") q _
            ∙ ap (add_field (lit "program") (if raw_program then node_value readable q else none))
                (head-fields block_type (head p params h) e)))
  kind_to_zval-fields (hash pairs) e = list-field (lit "pairs") pairs e
  kind_to_zval-fields (hash_pair key v) e =
      node-field (lit "value") v _
      ∙ ap (add_field (lit "value") (node_value readable v)) (string-field (lit "key") key e)
  kind_to_zval-fields (path parts original depth is_data falsy) e = simp (list-field, string-field)
  kind_to_zval-fields (content l) e = simp (string-field)
  kind_to_zval-fields (Kind.string l) e = simp (string-field)
  kind_to_zval-fields (number l) e = simp (string-field)
  kind_to_zval-fields (boolean l) e = simp (string-field)
  kind_to_zval-fields (nul l) e = simp (string-field)
  kind_to_zval-fields (undefined l) e = simp (string-field)
  kind_to_zval-fields (comment text) e = string-field (lit "value") text e
  kind_to_zval-fields (path_segment separator part original) e = simp (string-field)
  kind_to_zval-fields _ e = refl

  -- The fields that every node has in front.
  abbrev front : Kind → Option Strip → Locinfo → List Field
  front kind strip loc =
      (lit "type", some (Tree.string (readable (type_of kind))))
      ∷ (lit "strip", strip_value strip)
      ∷ (lit "loc", loc_value loc)
      ∷ []

  fits-kind :
      (kind : Kind) (strip : Option Strip) (loc : Locinfo)
      → fits (front kind strip loc) (kind_fields readable kind) ≡ true
  fits-kind (program _ _ _ _) strip loc = refl
  fits-kind (mustache (head _ _ _) _) strip loc = refl
  fits-kind (sexpr (head _ _ _)) strip loc = refl
  fits-kind (partial (head _ _ _)) strip loc = refl
  fits-kind (raw_block (head _ _ _) _ _ _) strip loc = refl
  fits-kind (block (head _ _ _) _ _ _ _ _) strip loc = refl
  fits-kind _ strip loc = refl

  node_to_zval-front :
      (kind : Kind) (strip : Option Strip) (loc : Locinfo)
      → node_to_zval readable (node kind strip loc)
        ≡ kind_to_zval readable kind (entries_of (front kind strip loc))
  unfolding node_to_zval strip_to_zval loc_to_zval
  node_to_zval-front kind none loc = refl
  node_to_zval-front kind (some strip) loc = refl

  -- A node becomes an array of its type's name, its strip flags if there are any, its location, and
  -- the fields of its type, in their order and each under its own key, without those whose pointer
  -- is NULL: its strings and numbers, the arrays of the nodes that it holds, and for its lists of
  -- nodes PHP lists of the arrays of the nodes in them, in their order.
  pub node_to_zval-fields :
      (n : Node) → node_to_zval readable n ≡ entries_of (node_fields readable n)
  node_to_zval-fields (node kind strip loc) =
      node_to_zval-front kind strip loc
      ∙ kind_to_zval-fields kind (entries_of (front kind strip loc))
      ∙ adds-entries (front kind strip loc) (kind_fields readable kind) (fits-kind kind strip loc)

  find-node :
      (k : Text) (n : Node)
      → find (name k) (node_to_zval readable n) ≡ lookup k (node_fields readable n)
  find-node k n =
      ap (find (name k)) (node_to_zval-fields n) ∙ find-entries_of k (node_fields readable n)
