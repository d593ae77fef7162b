-- ===== src/Value/Find.antt =====
-- `handlebars_std_zval_type`, `_map_find`, `_array_find` and `_count` of src/value.c.
pub mod Memoised
pub mod Offset
use php_handlebars.Base.{ℕ, Bool, true, false, Option, none, some, [], ◌∷◌, Text, if◌then◌else◌}
use php_handlebars.Zend.{ℤ, pos, negsuc, Zval, Buckets, index, name}
use php_handlebars.Zend.Hash.{find, num_elements}
use php_handlebars.Zend.Outcome.{Outcome, ok, aborted}
use php_handlebars.Zend.Engine.{Engine, array_access, countable}
use php_handlebars.Libhandlebars.{LibResult, returns, raises}
use php_handlebars.Utils.CString.{c_string}
use php_handlebars.Utils.IntArray.{is_int_array, is_callable}
use php_handlebars.Value.{Memo, unknown, known, HandlebarsZval, Value}
use php_handlebars.Value.FromZval.{from_zval}
use php_handlebars.Value.Strtol.{strtol, to_ulong}

-- The types that a PHP value is seen as.
pub data ValueType : Type 0 where
  array_type map_type helper_type : ValueType

-- `if( flag == -1 ) flag = ...`
unfoldable pub recall : Memo → Bool → Bool
recall unknown answer = answer
recall (known flag) answer = flag

unfoldable pub zval_type : Engine → HandlebarsZval → Outcome (ValueType × HandlebarsZval)
unfolding recall
zval_type e obj = elim obj.intern [
  | Zval.array b ↦
      let flag = recall obj.int_array (is_int_array (Zval.array b)) in
      ok (if flag then array_type else map_type, record obj { int_array = known flag })
  | Zval.object o ↦
      let flag = recall obj.callable (is_callable e (Zval.object o)) in
      ok (if flag then helper_type else map_type, record obj { callable = known flag })
  | _ ↦ aborted
]

-- The end of the handlers: an entry is converted into `rv`, and no entry is NULL.
unfoldable pub convert_entry : Option Zval → Value → LibResult (Option Value)
convert_entry none rv = returns none
convert_entry (some entry) rv = elim (from_zval entry rv) [
  | returns v ↦ returns (some v)
  | raises x ↦ raises x
]

-- An array's entry under the key, else under the number that the whole key is for `strtol`.
unfoldable pub index_entry : Buckets → ℤ × Text → Option Zval
index_entry b (n, []) = find (index (to_ulong n)) b
index_entry b (n, c ∷ t) = none

unfoldable pub map_array_entry : Buckets → Text → Option Zval
unfolding index_entry
map_array_entry b key = elim (find (name key) b) [
  | some entry ↦ some entry
  | none ↦ index_entry b (strtol (c_string key))
]

unfoldable pub method_entry : Engine → ℕ → Text → Option Zval → Option Zval
method_entry e o key entry =
    if e.is_callable_method o key then some (e.fake_closure o key) else entry

-- No entry, or null: a method of that name, if there is one.
unfoldable pub or_method : Engine → ℕ → Text → Option Zval → Option Zval
unfolding method_entry
or_method e o key none = method_entry e o key none
or_method e o key (some Zval.null) = method_entry e o key (some Zval.null)
or_method e o key (some v) = some v

unfoldable pub dimension_entry : Engine → ℕ → Text → Option Zval
dimension_entry e o key = if e.has_dimension o key then e.read_dimension o key else none

-- With ArrayAccess an entry that is there is returned, null or not.
unfoldable pub map_object_entry : Engine → ℕ → Text → Option Zval
unfolding or_method dimension_entry
map_object_entry e o key =
    if e.instance_of o array_access
    then (elim (dimension_entry e o key) [ none ↦ method_entry e o key none | some v ↦ some v ])
    else or_method e o key (e.read_property o key)

-- `set_intern_zval` stores arrays and objects only, so the last case, an `assert(0)`, is not reached.
unfoldable pub map_find : Engine → HandlebarsZval → Text → Value → LibResult (Option Value)
unfolding map_array_entry map_object_entry convert_entry
map_find e obj key rv = elim obj.intern [
  | Zval.array b ↦ convert_entry (map_array_entry b key) rv
  | Zval.object o ↦ convert_entry (map_object_entry e o key) rv
  | _ ↦ returns none
]

unfoldable pub array_find : HandlebarsZval → ℕ → Value → LibResult (Option Value)
unfolding convert_entry
array_find obj i rv = elim obj.intern [
  | Zval.array b ↦ convert_entry (find (index i) b) rv
  | _ ↦ returns none
]

unfoldable pub object_count : Engine → ℕ → ℤ
object_count e o =
    if e.instance_of o countable
    then (elim (e.count_method o) [ none ↦ negsuc 0 | some n ↦ n ])
    else negsuc 0

unfoldable pub count : Engine → HandlebarsZval → ℤ
unfolding object_count
count e obj = elim obj.intern [
  | Zval.array b ↦ pos (num_elements b)
  | Zval.object o ↦ object_count e o
  | _ ↦ negsuc 0
]
