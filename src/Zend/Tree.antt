-- ===== src/Zend/Tree.antt =====
-- PHP values that the extension builds for the caller, with the objects that it creates in place of
-- their handles: an array or an object's property table is the ordered map of PHP.
pub mod Lists
pub mod Fields
use php_handlebars.Base.{ℕ, suc, Bool, Option, none, some, Text, max, if◌then◌else◌}
use php_handlebars.Zend.{ℤ, Key, index, name}
use php_handlebars.Zend.Hash.{key_eq, symtable_key}

-- The classes of which the extension makes objects of its own accord.
pub data ClassEntry : Type 0 where
  opcode_class program_class token_class : ClassEntry

-- `undef` is a typed property that was not written yet.
mutual
  pub data Tree : Type 0 where
    undef null : Tree
    bool : Bool → Tree
    long : ℤ → Tree
    string : Text → Tree
    array : Entries → Tree
    object : ClassEntry → Entries → Tree

  pub data Entries : Type 0 where
    end : Entries
    entry : Key → Tree → Entries → Entries

-- `zend_hash_find`
abbrev pub find : Key → Entries → Option Tree
find k end = none
find k (entry j v b) = if key_eq j k then some v else find k b

-- `zend_hash_update`: in place, or at the end
abbrev pub update : Key → Tree → Entries → Entries
update k v end = entry k v end
update k v (entry j w b) = if key_eq j k then entry k v b else entry j w (update k v b)

-- `add_assoc_zval_ex` and its like for bools, longs and strings
abbrev pub add_assoc : Text → Tree → Entries → Entries
add_assoc t v b = update (symtable_key t) v b

-- `zend_update_property` of a class without a `write_property` handler
abbrev pub update_property : Text → Tree → Entries → Entries
update_property t v b = update (name t) v b

-- `nNextFreeElement` of an array that was only added to
abbrev pub next_index : Entries → ℕ
next_index end = 0
next_index (entry (index n) v b) = max (suc n) (next_index b)
next_index (entry (name t) v b) = next_index b

-- `add_next_index_zval` and its like
abbrev pub add_next : Tree → Entries → Entries
add_next v b = update (index (next_index b)) v b
