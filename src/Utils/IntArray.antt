-- ===== src/Utils/IntArray.antt =====
-- `php_handlebars_is_int_array` and `php_handlebars_is_callable` of src/utils.c.
pub mod Keys
use php_handlebars.Base.{ℕ, ◌+◌, ◌^◌, ◌%◌, Bool, true, false, ◌==◌, if◌then◌else◌}
use php_handlebars.Zend.{Zval, Buckets, array, object, index, name, end, bucket}
use php_handlebars.Zend.Hash.{num_elements}
use php_handlebars.Zend.Engine.{Engine}

-- `ZEND_HASH_FOREACH_KEY` with the counter `idx`, a `zend_ulong`
unfoldable pub int_keys_from : ℕ → Buckets → Bool
int_keys_from idx end = true
int_keys_from idx (bucket (name key) v b) = false
int_keys_from idx (bucket (index n) v b) =
    let rest = int_keys_from ((idx + 1) % 2 ^ 64) b in if n == idx then rest else false

unfoldable pub is_int_array : Zval → Bool
unfolding int_keys_from
is_int_array (array b) = if num_elements b == 0 then true else int_keys_from 0 b
is_int_array _ = false

unfoldable pub is_callable : Engine → Zval → Bool
is_callable e (object o) = e.is_callable_object o
is_callable e _ = false
