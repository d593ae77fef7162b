-- ===== src/Vm/Log.antt =====
-- `php_handlebars_log` of src/vm.c: the function that the vm calls for the helper `log`.
pub mod Messages
use php_handlebars.Base.{ℕ, Option, none, some, List, [], ◌∷◌, ◌++◌, Text, lit}
use php_handlebars.Zend.{Zval, object}
use php_handlebars.Value.{Value}

-- What is logged: a call of the logger object's method with the message and an empty array, or an
-- entry in PHP's error log.
pub data Logged : Type 0 where
  call_logger : ℕ → Text → Text → Logged
  error_log : Text → Logged

-- The loop over the arguments, each appended with a blank.
unfoldable pub append_arguments : (Value → Text) → List Value → Text → Text
append_arguments dump [] message = message
append_arguments dump (arg ∷ argv) message =
    append_arguments dump argv (message ++ (dump arg ++ lit " "))

-- The text of a level that is a string.
unfoldable pub level_name : Option Value → Text
level_name (some (Value.string s)) = s
level_name (some (Value.safe s)) = s
level_name _ = lit "info"

-- `handlebars_value_map_str_find` in the options' hash, if there is one
unfoldable pub hash_level : (Value → Text → Option Value) → Option Value → Option Value
hash_level map_str_find none = none
hash_level map_str_find (some h) = map_str_find h (lit "level")

-- `handlebars_value_dump` and the lookup are libhandlebars's.
unfoldable pub log :
    (Value → Text) → (Value → Text → Option Value) → Zval → List Value → Option Value → Logged
unfolding append_arguments level_name hash_level
log dump map_str_find (object logger) argv h =
    call_logger logger (level_name (hash_level map_str_find h)) (append_arguments dump argv [])
log dump map_str_find logger argv h = error_log (append_arguments dump argv [])
